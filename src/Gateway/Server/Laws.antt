-- ===== src/Gateway/Server/Laws.antt =====
-- Which configurations make a server, and that a refused one leaves no watcher open.
use kratos_micro_layout.Prelude.{
  ◌≡◌, ◌≢◌, ◌↔◌, ◌∙◌, ap, sym, refl, arith, true, false, ◌||◌, Option, List, [], ◌∷◌, ◌++◌, map,
  Text, is_empty, is_empty_iff, All, All-append, append_nil, append_one, map-append, Bool-cases,
  inl, inr, ◌⊎◌,
}
use kratos_micro_layout.Prelude.Result.{Result, ok, err, Result-cases}
use kratos_micro_layout.Middleware.RateLimit.{Buckets}
use kratos_micro_layout.Gateway.Upstream.{
  ServiceNode, Selector, Discovery, Upstream, http_service_name, new_upstream, close, refresh,
  apply,
}
use kratos_micro_layout.Gateway.Breaker.{Floats, BreakerSettings}
use kratos_micro_layout.Gateway.Handler.{Gobreaker, Handler, new_handler}
use kratos_micro_layout.Gateway.Cors.{CorsConfig}
use kratos_micro_layout.Gateway.Server.{
  Route, CircuitBreaker, RateLimit, ServerConfig, ServerOption, RouteError, incomplete, unwatched,
  Server, breaker_settings, server_options, cleanup, add_routes, new,
}

-- The route has a prefix and a service, and the service can be watched.
abbrev pub IsRoutable : (Text → Discovery) → Route → Type 0
IsRoutable discovery r =
    (r.path_prefix ≢ [])
    × (r.service ≢ [])
    × ((discovery (http_service_name r.service)).watchable ≡ true)

-- What a closed upstream has released.
abbrev pub IsClosed : {S : Type 0} → Upstream S → Type 0
IsClosed u = (u.cancelled ≡ true) × (u.stopped ≡ true)

module _ (parse : Text → Option ServiceNode) (s : Selector) where
  new_upstream-ok :
      (d : Discovery) (service : Text) (u : Upstream s.State)
      → new_upstream parse s d service ≡ ok u
      → (d.watchable ≡ true) × (u.watched ≡ true) × (u.name ≡ service) × (u.cancelled ≡ false)
  unfolding new_upstream refresh apply
  new_upstream-ok d service u h = ground arith

  new_upstream-err :
      (d : Discovery) (service : Text) (u : Upstream s.State)
      → new_upstream parse s d service ≡ err u
      → d.watchable ≡ false
  unfolding new_upstream
  new_upstream-err d service u h = ground arith

  cleanup-IsClosed :
      (us : List (Upstream s.State))
      → All (λ u. u.watched ≡ true) us
      → All IsClosed (map (λ u. close parse s u) us)
  unfolding close
  cleanup-IsClosed [] watched = tt
  cleanup-IsClosed (u ∷ us) (w, watched) = ((refl, w), cleanup-IsClosed us watched)

module _ (parse : Text → Option ServiceNode) (s : Selector) (g : Gobreaker) (f : Floats)
    (discovery : Text → Discovery) where
  -- The failure is at the first route that is not routable, and the closed upstreams are those of
  -- the routes before it, one for each in order, behind those of some services.
  abbrev pub IsUndone : List Text → List Route → List (Upstream s.State) → Type 0
  IsUndone services rs us =
      (done : List Route) × (bad : Route) × (rest : List Route) × (rs ≡ done ++ bad ∷ rest)
      × All (IsRoutable discovery) done
      × (¬ IsRoutable discovery bad)
      × (map (λ u. u.name) us ≡ services ++ map (λ r. http_service_name r.service) done)
      × All IsClosed us

  names-cleanup :
      (us : List (Upstream s.State))
      → map (λ u. u.name) (cleanup parse s g f discovery us) ≡ map (λ u. u.name) us
  unfolding cleanup close
  names-cleanup [] = refl
  names-cleanup (u ∷ us) = ap (λ l. u.name ∷ l) (names-cleanup us)

  -- What a client and the cleanup see of a registered route.
  abbrev pub wired : Text × Handler s.State g.State → Text × Text × Text × Text
  wired (p, h) = (p, h.path_prefix, h.rewrite_prefix, h.upstream.name)

  abbrev pub wanted : Route → Text × Text × Text × Text
  wanted r = (r.path_prefix, r.path_prefix, r.rewrite_prefix, http_service_name r.service)

  module _ {O : Type 0} (settings : Option (BreakerSettings f.Float)) where
    -- The server with one more route.
    abbrev registered :
        Route → Upstream s.State → Server O s.State g.State → Server O s.State g.State
    registered r u sv = record sv {
      routes =
          sv.routes
          ++ (r.path_prefix, new_handler s g f u r.path_prefix r.rewrite_prefix settings) ∷ [];
      upstreams = sv.upstreams ++ u ∷ [];
    }

    abbrev adds :
        List Route
        → Server O s.State g.State
        → Result (RouteError × List (Upstream s.State)) (Server O s.State g.State)
    adds = add_routes parse s g f discovery settings

    -- A route stops the loop, or is registered with a watched upstream of its service.
    add_routes-cases :
        (r : Route) (rs : List Route) (sv : Server O s.State g.State)
        → ((¬ IsRoutable discovery r)
            × (e : RouteError) × (adds (r ∷ rs) sv
                ≡ err (e, cleanup parse s g f discovery sv.upstreams)))
          ⊎ (IsRoutable discovery r
              × (u : Upstream s.State) × (u.watched ≡ true)
              × (u.name ≡ http_service_name r.service)
              × (adds (r ∷ rs) sv ≡ adds rs (registered r u sv)))
    unfolding add_routes
    add_routes-cases r rs sv = elim (Bool-cases (is_empty r.path_prefix || is_empty r.service)) [
      | inl missing ↦ inl (
        ground (arith, is_empty_iff r.path_prefix, is_empty_iff r.service),
        incomplete r.path_prefix r.service,
        rw missing refl,
      )
      | inr given ↦
          let d = discovery (http_service_name r.service) in
          elim (Result-cases (new_upstream parse s d (http_service_name r.service))) [
            | inl (u, built) ↦
                let (can, watched, named, fresh) =
                  new_upstream-ok parse s d (http_service_name r.service) u built in
                inr (
                  (
                    ground (arith, is_empty_iff r.path_prefix),
                    ground (arith, is_empty_iff r.service),
                    can,
                  ),
                  u,
                  watched,
                  named,
                  rw (given, built) refl,
                )
            | inr (u, failed) ↦
                let cannot = new_upstream-err parse s d (http_service_name r.service) u failed in
                inl (λ (p, q, can). cc, unwatched r.path_prefix, rw (given, failed) refl)
          ]
    ]

    add_routes-err :
        (rs : List Route) (sv : Server O s.State g.State) (e : RouteError)
        (us : List (Upstream s.State))
        → All (λ u. u.watched ≡ true) sv.upstreams
        → adds rs sv ≡ err (e, us)
        → IsUndone (map (λ u. u.name) sv.upstreams) rs us
    unfolding add_routes cleanup
    add_routes-err [] sv e us watched h = cc
    add_routes-err (r ∷ rs) sv e us watched h = elim (add_routes-cases r rs sv) [
      | inl (bad, e', stopped) ↦
          let same : us ≡ cleanup parse s g f discovery sv.upstreams = cc (h, stopped) in
          (
            [],
            r,
            rs,
            refl,
            tt,
            bad,
            ap (map (λ u. u.name)) same
                ∙ names-cleanup sv.upstreams
                ∙ sym (append_nil (map (λ u. u.name) sv.upstreams)),
            rw same (cleanup-IsClosed parse s sv.upstreams watched),
          )
      | inr (good, u, w, named, goes_on) ↦
          let (done, bad, rest, split, routable, not_routable, names, closed) =
            add_routes-err rs (registered r u sv) e us
              (All-append (λ u. u.watched ≡ true) sv.upstreams (u ∷ []) watched (w, tt))
              (sym goes_on ∙ h) in
          let services = map (λ u. u.name) sv.upstreams in
          let later = map (λ r. http_service_name r.service) done in
          (
            r ∷ done,
            bad,
            rest,
            ap (λ l. r ∷ l) split,
            (good, routable),
            not_routable,
            names
                ∙ rw (map-append, named) refl
                ∙ append_one services (http_service_name r.service) later,
            closed,
          )
    ]

    -- The routes lead to watched upstreams, which are those that the cleanup closes.
    pub record IsWired (rs : List Route) (sv : Server O s.State g.State) : Type 0 where
      pub fields : map wired sv.routes ≡ map wanted rs
      pub shared : map (λ (p, h). h.upstream) sv.routes ≡ sv.upstreams
      pub watched : All (λ u. u.watched ≡ true) sv.upstreams

    registered-IsWired :
        (done : List Route) (r : Route) (u : Upstream s.State) (sv : Server O s.State g.State)
        → IsWired done sv
        → u.watched ≡ true
        → u.name ≡ http_service_name r.service
        → IsWired (done ++ r ∷ []) (registered r u sv)
    unfolding new_handler
    registered-IsWired done r u sv h watched named = record {
      fields = rw (map-append, map-append, h.fields, named) refl;
      shared = rw (map-append, h.shared) refl;
      watched = All-append (λ u. u.watched ≡ true) sv.upstreams (u ∷ []) h.watched (watched, tt);
    }

    add_routes-ok :
        (rs done : List Route) (sv sv' : Server O s.State g.State)
        → IsWired done sv
        → adds rs sv ≡ ok sv'
        → All (IsRoutable discovery) rs × IsWired (done ++ rs) sv' × (sv'.options ≡ sv.options)
    unfolding add_routes
    add_routes-ok [] done sv sv' wires h =
        let same : sv' ≡ sv = cc (h) in rw (same, append_nil) (tt, wires, refl)
    add_routes-ok (r ∷ rs) done sv sv' wires h = elim (add_routes-cases r rs sv) [
      | inl (bad, e, stopped) ↦ absurd (cc)
      | inr (good, u, w, named, goes_on) ↦
          let (routable, wires', same) =
            add_routes-ok rs (done ++ r ∷ []) (registered r u sv) sv'
              (registered-IsWired done r u sv wires w named) (sym goes_on ∙ h) in
          ((good, routable), (rw (append_one done r rs) at wires'), same)
    ]

  module _ (b : Buckets) (c : ServerConfig) (cors : Option CorsConfig) (rs : List Route)
      (rl : RateLimit) (circuit : Option (CircuitBreaker f.Float)) where
    abbrev start : Server (ServerOption b.Bucket) s.State g.State
    start = record { options = server_options b c cors rl; routes = []; upstreams = [] }

    start-IsWired : IsWired (breaker_settings circuit) [] start
    start-IsWired = record { fields = refl; shared = refl; watched = tt }

    -- If New fails, some route lacks its prefix, its service or a service that can be watched, and
    -- the upstreams that were built, one for each route before it in order, have all been closed.
    pub new-err :
        (e : RouteError) (us : List (Upstream s.State))
        → new parse s g f discovery b c cors rs rl circuit ≡ err (e, us)
        → IsUndone [] rs us
    unfolding new
    new-err e us h = add_routes-err (breaker_settings circuit) rs start e us tt h

    -- A server that New returns has every route in the order of the configuration, each with its
    -- prefix, its rewriting and a watched upstream of its service; its cleanup closes exactly
    -- these upstreams.
    pub new-IsWired :
        (sv : Server (ServerOption b.Bucket) s.State g.State)
        → new parse s g f discovery b c cors rs rl circuit ≡ ok sv
        → IsWired (breaker_settings circuit) rs sv
          × All IsClosed (cleanup parse s g f discovery sv.upstreams)
    unfolding new cleanup
    new-IsWired sv h =
        let (routable, wires, same) =
          add_routes-ok (breaker_settings circuit) rs [] start sv start-IsWired h in
        (wires, cleanup-IsClosed parse s sv.upstreams wires.watched)

    All-not :
        (done : List Route) (bad : Route) (rest : List Route)
        → All (IsRoutable discovery) (done ++ bad ∷ rest)
        → IsRoutable discovery bad
    All-not [] bad rest (h, hs) = h
    All-not (r ∷ done) bad rest (h, hs) = All-not done bad rest hs

    -- New succeeds exactly if every route has a prefix and a service that can be watched.
    pub new-ok_iff :
        ((sv : Server (ServerOption b.Bucket) s.State g.State) × (new parse s g f discovery b c cors
              rs rl circuit
            ≡ ok sv))
        ↔ All (IsRoutable discovery) rs
    unfolding new
    new-ok_iff = (
      λ (sv, h). (add_routes-ok (breaker_settings circuit) rs [] start sv start-IsWired h).0,
      λ routable. elim (Result-cases (new parse s g f discovery b c cors rs rl circuit)) [
        | inl found ↦ found
        | inr ((e, us), failed) ↦
            let (done, bad, rest, split, good, not_good, names, closed) = new-err e us failed in
            absurd (not_good (All-not done bad rest (rw split at routable)))
      ],
    )
