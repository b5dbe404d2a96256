-- ===== src/Gateway/Handler/Serve.antt =====
-- The theorems on ServeHTTP: which status answers a request, when the backend is called, and what
-- the circuit breaker is told.
use kratos_micro_layout.Prelude.{
  ◌≢◌, ◌++◌, All, is_empty, [], ℕ, ◌≡◌, refl, arith, Bool, true, false, not, ◌||◌, Option, none,
  some, Text, codes, leb, if◌then◌else◌, Option-cases, inl, inr,
}
use kratos_micro_layout.Http.{
  get, Request, Writer, new_writer, status_of, status_internal_server_error,
  status_service_unavailable,
}
use kratos_micro_layout.Gateway.Outbound.{outbound, any_name, hop_by_hop, forwarded_for, dropped}
use kratos_micro_layout.Gateway.Outbound.Laws.{
  get-outbound_kept, outbound-dropped, outbound-forwarded_for,
}
use kratos_micro_layout.Gateway.Upstream.{ServiceNode, Selector, select}
use kratos_micro_layout.Gateway.Breaker.{ForwardError, is_successful}
use kratos_micro_layout.Gateway.Writers.{envelope, write_json, client_writer}
use kratos_micro_layout.Gateway.Handler.{
  Reply, Gobreaker, Rejection, Forwarded, Handler, director, forward, serve_http, success,
}
use kratos_micro_layout.Gateway.Handler.Laws.{
  answer_status, is_copied, proxy_lem, write_json_lem, rewrite_path_lem,
}

module _ (parse : Text → Option ServiceNode) (s : Selector) (g : Gobreaker)
    (backend : Request → Option Reply) where
  -- The breaker of the handler, if it has one, rejects the next call.
  abbrev pub is_shed : Handler s.State g.State → Bool
  is_shed h = elim h.breaker [
    | none ↦ false
    | some b ↦ elim (g.admit b.0).1 [ none ↦ false | some r ↦ true ]
  ]

  -- The status that the client should see: 503 for a request that is shed or has no node, 502 if
  -- the backend cannot be reached, and otherwise the backend's own.
  abbrev pub expected_status : Handler s.State g.State → ℕ → Request → ℕ
  expected_status h k req =
      if is_shed h then status_service_unavailable else elim (select parse s h.upstream k) [
        | none ↦ status_service_unavailable
        | some node ↦ answer_status (backend (outbound (director h node req)))
      ]

  -- The failures that the breaker should count: a status of 500 or more from the backend, a backend
  -- that cannot be reached, and a response that could not be copied whole.
  abbrev pub is_failure : Handler s.State g.State → ℕ → Request → Writer → Bool
  is_failure h k req w = elim (select parse s h.upstream k) [
    | none ↦ false
    | some node ↦
        let reply = backend (outbound (director h node req)) in
        leb status_internal_server_error (answer_status reply) || not (is_copied w reply)
  ]

  module _ (h : Handler s.State g.State) (k : ℕ) (req : Request) (w : Writer)
      (unsent : w.sent ≡ none) where
    abbrev out : Forwarded
    out = forward parse s g backend h k req w

    unavailable : Text → Writer
    unavailable message = write_json status_service_unavailable message w

    forward_status :
        status_of out.writer
        ≡ some (elim (select parse s h.upstream k) [
          | none ↦ status_service_unavailable
          | some node ↦ answer_status (backend (outbound (director h node req)))
        ])
    unfolding forward
    forward_status = elim (Option-cases (select parse s h.upstream k)) [
      | inl missing ↦ ground (
        arith,
        missing,
        write_json_lem status_service_unavailable (codes "no upstream node available") w unsent,
      )
      | inr (node, found) ↦
          ground (arith, found, proxy_lem (backend (outbound (director h node req))) w unsent)
    ]

    forward_success : success is_successful out.finish ≡ not (is_failure h k req w)
    unfolding forward success is_successful
    forward_success = elim (Option-cases (select parse s h.upstream k)) [
      | inl missing ↦ ground (arith, missing)
      | inr (node, found) ↦
          ground (arith, found, proxy_lem (backend (outbound (director h node req))) w unsent)
    ]

  -- ServeHTTP answers a request, to whose client nothing was sent, with the status that it should
  -- see: 503 if the breaker sheds it or no node is there, 502 if the backend cannot be reached, and
  -- the backend's status otherwise.
  pub serve_http_status :
      (h : Handler s.State g.State) (k : ℕ) (req : Request) (w : Writer)
      → w.sent ≡ none
      → status_of (serve_http parse s g backend h k req w).1.writer ≡ some (expected_status h k req)
  unfolding serve_http
  serve_http_status h k req w unsent = ground (
    arith,
    forward_status h k req w unsent,
    write_json_lem status_service_unavailable (codes "upstream circuit open") w unsent,
  )

  -- The breaker settles an admitted call as a failure exactly when the backend answered with 500 or
  -- more, could not be reached, or its response could not be copied whole; a missing node and any
  -- other answer are successes.
  pub serve_http_settles :
      (h : Handler s.State g.State) (k : ℕ) (req : Request) (w : Writer) (b b' : g.State)
      → w.sent ≡ none
      → h.breaker ≡ some (b, is_successful)
      → g.admit b ≡ (b', none)
      → (serve_http parse s g backend h k req w).0.breaker
        ≡ some (g.settle (not (is_failure h k req w)) b', is_successful)
  unfolding serve_http
  serve_http_settles h k req w b b' unsent guarded admitted =
      ground (arith, forward_success h k req w unsent)

  -- A request that the breaker rejects reaches no backend: it is answered 503 with the JSON body
  -- of an open circuit, and the breaker is left as the rejection left it.
  pub serve_http_sheds :
      (h : Handler s.State g.State) (k : ℕ) (req : Request) (b b' : g.State)
      (test : Option ForwardError → Bool) (r : Rejection)
      → h.breaker ≡ some (b, test)
      → g.admit b ≡ (b', some r)
      → let (h', out) = serve_http parse s g backend h k req new_writer in
        (out.proxied ≡ none)
        × (h'.breaker ≡ some (b', test))
        × (status_of out.writer ≡ some status_service_unavailable)
        × (out.writer.body ≡ envelope status_service_unavailable (codes "upstream circuit open"))
  unfolding serve_http
  serve_http_sheds h k req b b' test r guarded rejected = ground (
    arith,
    write_json_lem status_service_unavailable (codes "upstream circuit open") new_writer refl,
  )

  -- A request that is sent to a backend passed the breaker and went through the director, for the
  -- node that was selected, and through ReverseProxy.
  serve_http-sent :
      (h : Handler s.State g.State) (k : ℕ) (req : Request) (w : Writer) (sent : Request)
      → (serve_http parse s g backend h k req w).1.proxied ≡ some sent
      → (node : ServiceNode) × (select parse s h.upstream k ≡ some node)
        × (sent ≡ outbound (director h node req))
        × (is_shed h ≡ false)
  unfolding serve_http forward
  serve_http-sent h k req w sent e = elim (Option-cases (select parse s h.upstream k)) [
    | inl missing ↦ absurd (ground (arith, missing))
    | inr (node, found) ↦ (node, found, ground (arith, e, found), ground (arith, e))
  ]

  -- A request of a client with a known address, under the prefix of its route, that is sent to a
  -- backend was let through by the breaker and selected a node, and it is sent to that node's
  -- address with the method of the client's request, the path with the route's rewriting, and its
  -- header: each field that is not hop-by-hop, but for X-Forwarded-For, reads as the client sent
  -- it, the fields that are always hop-by-hop and never set anew are gone, and X-Forwarded-For ends
  -- with the client's address.
  pub serve_http_proxied :
      (h : Handler s.State g.State) (k : ℕ) (req : Request) (w : Writer) (sent : Request)
      (ip rest name : Text)
      → (serve_http parse s g backend h k req w).1.proxied ≡ some sent
      → req.remote_ip ≡ some ip
      → req.path ≡ h.path_prefix ++ rest
      → any_name name (hop_by_hop req.header) ≡ false
      → name ≢ forwarded_for
      → (node : ServiceNode) × (select parse s h.upstream k ≡ some node)
        × (is_shed h ≡ false)
        × (sent.scheme ≡ node.scheme)
        × (sent.url_host ≡ node.address)
        × (sent.method ≡ req.method)
        × (sent.path ≡ (if is_empty h.rewrite_prefix then req.path else h.rewrite_prefix ++ rest))
        × (get name sent.header ≡ get name req.header)
        × All (λ hop. get hop sent.header ≡ []) dropped
        × ((before : Text) × (get forwarded_for sent.header ≡ before ++ ip))
  unfolding director outbound
  serve_http_proxied h k req w sent ip rest name e known under kept other =
      let (node, found, e', admitted) = serve_http-sent h k req w sent e in
      let out = director h node req in
      rw e' (
        node,
        found,
        admitted,
        refl,
        refl,
        refl,
        rewrite_path_lem h.path_prefix h.rewrite_prefix rest req.path under,
        get-outbound_kept name out kept other,
        outbound-dropped out,
        outbound-forwarded_for out ip known,
      )
