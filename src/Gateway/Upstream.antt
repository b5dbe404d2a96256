-- ===== src/Gateway/Upstream.antt =====
-- app/gateway/internal/proxy/upstream.go: the nodes of one service, kept fresh by a watcher.
-- The selector of kratos and the parser of URLs are parameters.
pub mod Laws
use kratos_micro_layout.Prelude.{
  ℕ, Bool, true, false, ◌||◌, ◌≡◌, ◌≢◌, Option, none, some, List, [], ◌∷◌, ◌++◌, Text, codes,
  String, Any, if◌then◌else◌,
}
use kratos_micro_layout.Prelude.Result.{Result, ok, err}
use kratos_micro_layout.Text.{has_suffix}

-- selector.Node: where an instance is reached.
pub record ServiceNode : Type 0 where
  pub scheme : Text
  pub address : Text

-- registry.ServiceInstance, as far as it is read.
pub record Instance : Type 0 where
  pub endpoints : List Text

-- selector.Selector: `Select` may choose by chance, which is its number; after `Apply` it returns
-- one of the nodes that were applied, and fails only if there were none, as it does before.
pub record Selector : Type 1 where
  pub State : Type 0
  pub initial : State
  pub apply : List ServiceNode → State → State
  pub select : State → ℕ → Option ServiceNode
  pub select_initial : (k : ℕ) → select initial k ≡ none
  pub select_applied :
      (nodes : List ServiceNode) (s : State) (k : ℕ) (n : ServiceNode)
      → select (apply nodes s) k ≡ some n
      → Any (λ m. m ≡ n) nodes
  pub select_some :
      (nodes : List ServiceNode) (s : State) (k : ℕ) → nodes ≢ [] → select (apply nodes s) k ≢ none

-- registry.Discovery and its watcher: what GetService returns, whether Watch fails, and what the
-- calls of Next return one after the other.
pub record Discovery : Type 0 where
  pub service : Option (List Instance)
  pub watchable : Bool
  pub events : List (Option (List Instance))

pub record Upstream (S : Type 0) : Type 0 where
  pub name : Text
  pub sel : S
  pub watched : Bool
  pub cancelled : Bool
  pub stopped : Bool
  pub looping : Bool

-- HTTPServiceName
unfoldable pub http_service_name : Text → Text
http_service_name service =
    if has_suffix service (codes ".http") || has_suffix service (codes ".grpc")
    then service
    else service ++ codes ".http"

module _ (parse : Text → Option ServiceNode) where
  -- The loops of `apply`: a malformed endpoint is skipped.
  unfoldable pub endpoint_nodes : List Text → List ServiceNode
  endpoint_nodes [] = []
  endpoint_nodes (ep ∷ eps) = elim (parse ep) [
    | none ↦ endpoint_nodes eps
    | some node ↦ node ∷ endpoint_nodes eps
  ]

  unfoldable pub nodes_of : List Instance → List ServiceNode
  unfolding endpoint_nodes
  nodes_of [] = []
  nodes_of (i ∷ ins) = endpoint_nodes i.endpoints ++ nodes_of ins

  module _ (s : Selector) where
    unfoldable pub apply : List Instance → Upstream s.State → Upstream s.State
    apply ins u = record u { sel = s.apply (nodes_of ins) u.sel }

    -- `refresh`: a failed lookup changes nothing.
    unfoldable pub refresh : Discovery → Upstream s.State → Upstream s.State
    unfolding apply
    refresh d u = elim d.service [ none ↦ u | some ins ↦ apply ins u ]

    -- `loop`: it ends with the first error of the watcher.
    unfoldable pub loop : List (Option (List Instance)) → Upstream s.State → Upstream s.State
    unfolding apply
    loop [] u = u
    loop (none ∷ events) u = record u { looping = false }
    loop (some ins ∷ events) u = loop events (apply ins u)

    -- NewUpstream; an error holds what it built, with its context cancelled.
    unfoldable pub new_upstream : Discovery → Text → Result (Upstream s.State) (Upstream s.State)
    unfolding refresh
    new_upstream d service =
        let u = refresh d (record {
          name = service;
          sel = s.initial;
          watched = false;
          cancelled = false;
          stopped = false;
          looping = false;
        }) in
        if d.watchable
        then ok (record u { watched = true; looping = true })
        else err (record u { cancelled = true })

    -- Select
    unfoldable pub select : Upstream s.State → ℕ → Option ServiceNode
    select u k = s.select u.sel k

    -- Close: the watcher is stopped if there is one.
    unfoldable pub close : Upstream s.State → Upstream s.State
    close u = record u { cancelled = true; stopped = u.watched }
