-- ===== src/Gateway/Upstream/Laws.antt =====
-- Which nodes an upstream serves, and the names it watches.
use mathlib.Core.List.{cons-ne-nil}
use kratos_micro_layout.Prelude.{
  ℕ, true, false, ◌≡◌, ◌≢◌, ◌⊎◌, inl, inr, refl, arith, Option, none, some, List, [], ◌∷◌, ◌++◌,
  Text, codes, Any, Any-split, Option-cases, eq_some_of_ne_none,
}
use kratos_micro_layout.Prelude.Result.{ok}
use kratos_micro_layout.Text.{has_suffix}
use kratos_micro_layout.Text.Laws.{has_suffix-append}
use kratos_micro_layout.Gateway.Upstream.{
  ServiceNode, Instance, Selector, Discovery, Upstream, http_service_name, endpoint_nodes, nodes_of,
  apply, refresh, loop, new_upstream, select,
}

-- A service name that the registry knows a transport of.
abbrev pub IsQualified : Text → Type 0
IsQualified s = (has_suffix s (codes ".http") ≡ true) ⊎ (has_suffix s (codes ".grpc") ≡ true)

-- The name that is looked up always has the suffix of a transport, and looking up such a name is
-- looking it up as it is.
pub http_service_name-IsQualified :
    (s : Text)
    → IsQualified (http_service_name s)
      × (http_service_name (http_service_name s) ≡ http_service_name s)
unfolding http_service_name
http_service_name-IsQualified s = ground (arith, has_suffix-append s (codes ".http"))

module _ (parse : Text → Option ServiceNode) where
  -- Some endpoint of some instance is the address of the node.
  abbrev pub Serves : ServiceNode → List Instance → Type 0
  Serves n = Any (λ i. Any (λ ep. parse ep ≡ some n) i.endpoints)

  append-eq-nil {ℓ} : {A : Type ℓ} (xs ys : List A) → xs ++ ys ≡ [] → (xs ≡ []) × (ys ≡ [])
  append-eq-nil [] ys h = (refl, h)
  append-eq-nil (x ∷ xs) ys h = cc

  at_head :
      {n node : ServiceNode} {ep : Text} (eps : List Text) {later : Type 0}
      → parse ep ≡ some node
      → (later → Any (λ x. parse x ≡ some n) eps)
      → (node ≡ n) ⊎ later
      → Any (λ x. parse x ≡ some n) (ep ∷ eps)
  at_head eps good rest (inl e) = inl (cc)
  at_head eps good rest (inr a) = inr (rest a)

  endpoint_nodes-Any :
      (n : ServiceNode) (eps : List Text)
      → Any (λ m. m ≡ n) (endpoint_nodes parse eps)
      → Any (λ ep. parse ep ≡ some n) eps
  unfolding endpoint_nodes
  endpoint_nodes-Any n [] h = h
  endpoint_nodes-Any n (ep ∷ eps) h = elim (Option-cases (parse ep)) [
    | inl bad ↦ inr (endpoint_nodes-Any n eps (rw (bad, Any) at h))
    | inr (node, good) ↦ at_head eps good (endpoint_nodes-Any n eps) (rw (good, Any) at h)
  ]

  -- A node that is applied is the address of some endpoint.
  nodes_of-Serves :
      (n : ServiceNode) (ins : List Instance) → Any (λ m. m ≡ n) (nodes_of parse ins) → Serves n ins
  unfolding nodes_of
  nodes_of-Serves n [] h = h
  nodes_of-Serves n (i ∷ ins) h =
      elim (Any-split (λ m. m ≡ n) (endpoint_nodes parse i.endpoints) (nodes_of parse ins) h) [
        | inl here ↦ inl (endpoint_nodes-Any n i.endpoints here)
        | inr later ↦ inr (nodes_of-Serves n ins later)
      ]

  module _ (s : Selector) where
    -- The upstream selects from these instances, and fails only if none has a usable endpoint.
    pub record IsCurrent (ins : List Instance) (u : Upstream s.State) : Type 0 where
      pub served : (k : ℕ) (n : ServiceNode) → select parse s u k ≡ some n → Serves n ins
      pub answers : (k : ℕ) → nodes_of parse ins ≢ [] → select parse s u k ≢ none

    apply-IsCurrent :
        (ins : List Instance) (u : Upstream s.State) → IsCurrent ins (apply parse s ins u)
    unfolding apply select
    apply-IsCurrent ins u = record {
      served = λ k n e. nodes_of-Serves n ins (s.select_applied (nodes_of parse ins) u.sel k n e);
      answers = λ k some_node. s.select_some (nodes_of parse ins) u.sel k some_node;
    }

    -- The last list of instances that a watcher gave before its first error.
    abbrev pub latest : List Instance → List (Option (List Instance)) → List Instance
    latest ins [] = ins
    latest ins (none ∷ events) = ins
    latest ins (some next ∷ events) = latest next events

    loop-IsCurrent :
        (ins : List Instance) (u : Upstream s.State) (events : List (Option (List Instance)))
        → IsCurrent ins u
        → IsCurrent (latest ins events) (loop parse s events u)
    unfolding loop
    loop-IsCurrent ins u [] h = h
    loop-IsCurrent ins u (none ∷ events) h =
        unfold select in record { served = h.served; answers = h.answers }
    loop-IsCurrent ins u (some next ∷ events) h =
        loop-IsCurrent next (apply parse s next u) events (apply-IsCurrent next u)

    abbrev pub found : Discovery → List Instance
    found d = elim d.service [ none ↦ [] | some ins ↦ ins ]

    -- Only the selector's state matters.
    IsCurrent-sel :
        {ins : List Instance} (u v : Upstream s.State)
        → v.sel ≡ u.sel
        → IsCurrent ins u
        → IsCurrent ins v
    unfolding select
    IsCurrent-sel u v e h = record {
      served = λ k n selected. h.served k n (rw e at selected);
      answers = λ k nodes. rw e (h.answers k nodes);
    }

    initial-IsCurrent : (u : Upstream s.State) → u.sel ≡ s.initial → IsCurrent [] u
    unfolding select nodes_of
    initial-IsCurrent u e = record {
      served = λ k n selected. cc (s.select_initial k, e);
      answers = λ k nodes. absurd (nodes refl);
    }

    refresh-IsCurrent :
        (d : Discovery) (u : Upstream s.State)
        → u.sel ≡ s.initial
        → IsCurrent (found d) (refresh parse s d u)
    unfolding refresh
    refresh-IsCurrent d u e = elim (Option-cases d.service) [
      | inl none_found ↦ rw none_found (initial-IsCurrent u e)
      | inr (ins, listed) ↦ rw listed (apply-IsCurrent ins u)
    ]

    new_upstream-IsCurrent :
        (d : Discovery) (service : Text) {u : Upstream s.State}
        → new_upstream parse s d service ≡ ok u
        → IsCurrent (found d) u
    unfolding new_upstream
    new_upstream-IsCurrent d service {u} h =
        IsCurrent-sel (refresh parse s d (empty_upstream service)) u (ground arith)
          (refresh-IsCurrent d (empty_upstream service) refl)
      where
        empty_upstream : Text → Upstream s.State
        empty_upstream name = record {
          name = name;
          sel = s.initial;
          watched = false;
          cancelled = false;
          stopped = false;
          looping = false;
        }

    -- After NewUpstream and any events of the watcher, the node that is selected is the address of
    -- an endpoint in the last list that the registry gave.
    pub select-Serves :
        (d : Discovery) (service : Text) (k : ℕ) (n : ServiceNode) {u : Upstream s.State}
        → new_upstream parse s d service ≡ ok u
        → select parse s (loop parse s d.events u) k ≡ some n
        → Serves n (latest (found d) d.events)
    select-Serves d service k n {u} h =
        (loop-IsCurrent (found d) u d.events (new_upstream-IsCurrent d service h)).served k n

    Serves-nodes :
        (n : ServiceNode) (eps : List Text)
        → Any (λ ep. parse ep ≡ some n) eps
        → endpoint_nodes parse eps ≢ []
    unfolding endpoint_nodes
    Serves-nodes n [] h = absurd h
    Serves-nodes n (ep ∷ eps) (inl e) =
        rw (e, endpoint_nodes) (cons-ne-nil n (endpoint_nodes parse eps))
    Serves-nodes n (ep ∷ eps) (inr h) = ground (arith, Serves-nodes n eps h)

    Serves-nodes_of :
        (n : ServiceNode) (ins : List Instance) → Serves n ins → nodes_of parse ins ≢ []
    unfolding nodes_of
    Serves-nodes_of n [] h = absurd h
    Serves-nodes_of n (i ∷ ins) (inl h) = ground (
      arith,
      Serves-nodes n i.endpoints h,
      append-eq-nil (endpoint_nodes parse i.endpoints) (nodes_of parse ins),
    )
    Serves-nodes_of n (i ∷ ins) (inr h) = ground (
      arith,
      Serves-nodes_of n ins h,
      append-eq-nil (endpoint_nodes parse i.endpoints) (nodes_of parse ins),
    )

    -- If that list has an endpoint that can be parsed, every selection gives such a node.
    pub Serves-select :
        (d : Discovery) (service : Text) (k : ℕ) (n : ServiceNode) {u : Upstream s.State}
        → new_upstream parse s d service ≡ ok u
        → Serves n (latest (found d) d.events)
        → (m : ServiceNode) × (select parse s (loop parse s d.events u) k ≡ some m)
          × Serves m (latest (found d) d.events)
    Serves-select d service k n {u} h serves =
        let current = loop-IsCurrent (found d) u d.events (new_upstream-IsCurrent d service h) in
        let nodes = Serves-nodes_of n (latest (found d) d.events) serves in
        let (m, chosen) =
          eq_some_of_ne_none (select parse s (loop parse s d.events u) k)
            (current.answers k nodes) in
        (m, chosen, current.served k m chosen)
