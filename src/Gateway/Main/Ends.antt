-- ===== src/Gateway/Main/Ends.antt =====
-- What the gateway's main holds when it ends, and when it returns.
use mathlib.Core.Option
use kratos_micro_layout.Prelude.{
  ◌≡◌, refl, Bool, true, false, All, Option-cases, Option, none, some, List, [], ◌∷◌, ◌++◌,
  append_nil, sym, ap, ◌∙◌, ◌⊎◌, Text, is_empty, if◌then◌else◌, Bool-cases, inl, inr,
}
use kratos_micro_layout.Prelude.Result.{ok, Result-cases}
use kratos_micro_layout.Nacos.{Environment, Registry, new_registry}
use kratos_micro_layout.Middleware.RateLimit.{Buckets}
use kratos_micro_layout.Gateway.Upstream.{ServiceNode, Selector, Discovery}
use kratos_micro_layout.Gateway.Breaker.{Floats}
use kratos_micro_layout.Gateway.Handler.{Gobreaker}
use kratos_micro_layout.Gateway.Server
use kratos_micro_layout.Gateway.Server.Laws.{new-ok_iff, IsRoutable}
use kratos_micro_layout.Gateway.Main
use kratos_micro_layout.Gateway.Main.{
  Bootstrap, Source, remote, ConfigLibrary, StartError, Resource, local_config, final_config,
  logger, server, Event, opened, closed, Ending, panicked, exited, finished, new_logger, deferred,
  guarded, config_client, naming_client, route_error, run_error, nacos_options,
  nacos_config_data_id, local_sources, load_final, load_remote, load_config, serve, start,
}
use kratos_micro_layout.Gateway.Main.Sources.{load_config_sources}

abbrev same : Resource → Resource → Bool
same local_config local_config = true
same final_config final_config = true
same config_client config_client = true
same logger logger = true
same naming_client naming_client = true
same server server = true
same _ _ = false

abbrev pub is_client : Resource → Bool
is_client config_client = true
is_client naming_client = true
is_client r = false

-- A resource is closed while it is the youngest but for the clients of Nacos.
abbrev pub release : Resource → List Resource → Option (List Resource)
release r [] = none
release r (q ∷ rs) =
    let below = Option.map (λ l. q ∷ l) (release r rs) in
    if same q r then some rs else if is_client q then below else none

-- The resources that are held after some events, the youngest first, if each is closed so.
abbrev pub held : List Resource → List Event → Option (List Resource)
held rs [] = some rs
held rs (opened r ∷ events) = held (r ∷ rs) events
held rs (closed r ∷ events) = elim (release r rs) [ none ↦ none | some l ↦ held l events ]

-- The clients of Nacos that are opened, the youngest first
abbrev pub clients : List Event → List Resource
clients [] = []
clients (opened r ∷ events) =
    let rest = clients events in if is_client r then rest ++ r ∷ [] else rest
clients (closed r ∷ events) = clients events

-- What os.Exit leaves behind
abbrev pub leftover : {E : Type 0} → Ending E → List Resource
leftover (panicked e) = []
leftover (exited n) = logger ∷ final_config ∷ []
leftover finished = []

deferred-ending : {E : Type 0} (r : Resource) (p : Ending E × List Event) → (deferred r p).0 ≡ p.0
unfolding deferred
deferred-ending r (panicked e, events) = refl
deferred-ending r (exited n, events) = refl
deferred-ending r (finished, events) = refl

module _ {C D E : Type 0} (f : Floats) (nacos : Environment C D E)
    (lib : ConfigLibrary D E f.Float) where
  module _ (parse : Text → Option ServiceNode) (s : Selector) (g : Gobreaker) (b : Buckets)
      (discovery : Registry C → Text → Discovery)
      (run : Server.Server (Server.ServerOption b.Bucket) s.State g.State → Option E) where
    -- What `main` does from a configuration on.
    abbrev rest : Bootstrap f.Float → Ending E × List Event
    rest bc = deferred final_config (start f nacos lib parse s g b discovery run bc)

    -- How the server ends: it is not made, it ends, or it fails.
    serve-cases :
        (bc : Bootstrap f.Float) (reg : Registry C)
        → let served = serve f nacos lib parse s g b discovery run bc reg in
          ((e : StartError E) × (served ≡ (panicked e, [])))
          ⊎ ((served ≡ (finished, opened server ∷ closed server ∷ []))
              ⊎ ((e : StartError E) × (served ≡ (panicked e, opened server ∷ closed server ∷ []))))
    unfolding serve deferred
    serve-cases bc reg =
        elim (Result-cases (
          Server.new parse s g f (discovery reg) b bc.server bc.cors bc.routes bc.ratelimit
            bc.circuit_breaker)) [
              | inr ((e, us), failed) ↦ inl (route_error e, rw (failed, serve) refl)
              | inl (sv, built) ↦ elim (Option-cases (run sv)) [
                | inl finishes ↦ inr (inl (rw (built, finishes, serve) refl))
                | inr (e, fails) ↦ inr (inr (run_error e, rw (built, fails, serve) refl))
              ]
            ]

    -- It closes what it opens on top of a configuration and whatever is older.
    rest_holds :
        (bc : Bootstrap f.Float) (older : List Resource)
        → held (final_config ∷ older) (rest bc).1
          ≡ some (leftover (rest bc).0 ++ (clients (rest bc).1 ++ older))
    unfolding start deferred
    rest_holds bc older = elim (Result-cases (new_logger bc.log)) [
      | inr (e, failed) ↦ rw (failed, held, start) refl
      | inl (l, made) ↦ elim (Bool-cases (is_empty bc.registry.address)) [
        | inl without ↦ rw (made, without, held, start, guarded) refl
        | inr with_address ↦ elim (Result-cases (new_registry nacos (nacos_options bc.registry))) [
          | inr (e, failed) ↦ rw (made, with_address, failed, held, start, guarded) refl
          | inl (reg, created) ↦ elim (serve-cases bc reg) [
            | inl (e, served) ↦ rw (made, with_address, created, served, held, start, guarded) refl
            | inr (inl served) ↦ rw (made, with_address, created, served, held, start, guarded) refl
            | inr (inr (e, served)) ↦
                rw (made, with_address, created, served, held, start, guarded) refl
          ]
        ]
      ]
    ]

    -- If the configuration is loaded, main closes what it opened but for the clients of Nacos, each
    -- before what is older, however it ends, except that it leaves the logger and the configuration
    -- open too when it calls os.Exit. No client of Nacos is ever closed.
    pub main_releases :
        (flagconf : Text) (c : lib.Config) (bc : Bootstrap f.Float)
        → (load_config f nacos lib flagconf).0 ≡ ok (c, bc)
        → let (ending, events) = Main.main f nacos lib parse s g b discovery run flagconf in
          held [] events ≡ some (leftover ending ++ clients events)
    unfolding Main.main
    main_releases flagconf c bc h =
        let (first, local, reads, sources, layered, final_reads, events) =
          load_config_sources f nacos lib flagconf c bc h in
        elim (Bool-cases (is_empty local.registry.address)) [
          | inl without ↦
              rw (h, events, without, held, Main.main)
                (rest_holds bc [] ∙ ap (λ l. some (leftover (rest bc).0 ++ l)) (append_nil _))
          | inr with_address ↦
              rw (h, events, with_address, held, Main.main) (rest_holds bc (config_client ∷ []))
        ]

    serve_finished :
        (bc : Bootstrap f.Float) (reg : Registry C)
        → (serve f nacos lib parse s g b discovery run bc reg).0 ≡ finished
        → All (IsRoutable (discovery reg)) bc.routes
    unfolding serve
    serve_finished bc reg h =
        elim (Result-cases (
          Server.new parse s g f (discovery reg) b bc.server bc.cors bc.routes bc.ratelimit
            bc.circuit_breaker)) [
              | inr (e, failed) ↦ absurd (cc (h, failed))
              | inl (sv, built) ↦
                  (new-ok_iff parse s g f (discovery reg) b bc.server bc.cors bc.routes bc.ratelimit
                      bc.circuit_breaker).0
                    (sv, built)
            ]

    guarded_finished :
        (bc : Bootstrap f.Float)
        → (guarded f nacos lib parse s g b discovery run bc).0 ≡ finished
        → (is_empty bc.registry.address ≡ false)
          × (reg : Registry C) × (new_registry nacos (nacos_options bc.registry) ≡ ok reg)
          × All (IsRoutable (discovery reg)) bc.routes
    unfolding guarded
    guarded_finished bc h = elim (Bool-cases (is_empty bc.registry.address)) [
      | inl without ↦ absurd (cc (h, without))
      | inr with_address ↦ elim (Result-cases (new_registry nacos (nacos_options bc.registry))) [
        | inr (e, failed) ↦ absurd (cc (h, with_address, failed))
        | inl (reg, created) ↦ (
          with_address,
          reg,
          created,
          serve_finished bc reg (rw (with_address, created, guarded) at h),
        )
      ]
    ]

    start_finished :
        (bc : Bootstrap f.Float)
        → (start f nacos lib parse s g b discovery run bc).0 ≡ finished
        → (guarded f nacos lib parse s g b discovery run bc).0 ≡ finished
    unfolding start
    start_finished bc h = elim (Result-cases (new_logger bc.log)) [
      | inr (e, failed) ↦ absurd (cc (h, failed))
      | inl (l, made) ↦
          sym (deferred-ending logger (guarded f nacos lib parse s g b discovery run bc))
          ∙ (rw (made, start) at h)
    ]

    -- If main returns, it loaded a configuration with a Nacos address and made a registry of this
    -- Nacos, in which every route of the configuration can be watched.
    pub main_finished :
        (flagconf : Text)
        → (Main.main f nacos lib parse s g b discovery run flagconf).0 ≡ finished
        → (c : lib.Config) × (bc : Bootstrap f.Float) × ((load_config f nacos lib flagconf).0
            ≡ ok (c, bc))
          × (is_empty bc.registry.address ≡ false)
          × (reg : Registry C) × (new_registry nacos (nacos_options bc.registry) ≡ ok reg)
          × All (IsRoutable (discovery reg)) bc.routes
    unfolding Main.main
    main_finished flagconf h = elim (Result-cases (load_config f nacos lib flagconf).0) [
      | inr (e, failed) ↦ absurd (cc (h, failed))
      | inl ((c, bc), loaded) ↦
          let (address, reg, created, routable) = guarded_finished bc (
            start_finished bc (
              sym (deferred-ending final_config (start f nacos lib parse s g b discovery run bc))
              ∙ (rw (loaded, Main.main) at h))) in
          (c, bc, loaded, address, reg, created, routable)
    ]
