-- ===== src/Gateway/Stack.antt =====
-- The gateway's filters and handlers together: the CORS filter in front of the limiter in front of
-- a route, which is the order that the comment in app/gateway/internal/server/server.go gives for the
-- options of the server.
use kratos_micro_layout.Prelude.{
  ℕ, ◌≡◌, ◌≢◌, ◌∙◌, arith, Option, none, Option-cases, [], Text, codes, is_empty-false, Bool-cases,
  inl, inr,
}
use kratos_micro_layout.Prelude.Int.{ℤ}
use kratos_micro_layout.Http.{Request, Writer, Serve, get}
use kratos_micro_layout.Middleware.RateLimit.{Buckets, limited, allow, write_too_many_requests}
use kratos_micro_layout.Gateway.Outbound.{outbound}
use kratos_micro_layout.Gateway.Upstream.{ServiceNode, Selector, select}
use kratos_micro_layout.Gateway.Writers.{status_writer, write_json, client_writer}
use kratos_micro_layout.Gateway.Handler.{
  Reply, Gobreaker, Handler, proxy, director, conclude, forward, serve_http,
}
use kratos_micro_layout.Gateway.Cors.{CorsConfig, cors_filter, allow_origin, is_preflight, decorate}
use kratos_micro_layout.Gateway.Cors.Laws.{
  IsListed, Answers, origin_allowed_iff, decorate_lem, write_too_many_requests-Answers,
  preflight-Answers,
}
use kratos_micro_layout.Gateway.Handler.Headers.{write_json-Answers, proxy-Answers}

module _ (parse : Text → Option ServiceNode) (s : Selector) (g : Gobreaker)
    (backend : Request → Option Reply) where
  -- A route as a handler of requests, for the choice of the selector; its state is the handler.
  abbrev pub route : ℕ → Serve (Handler s.State g.State)
  route k h req w = let (h', out) = serve_http parse s g backend h k req w in (h', out.writer)

  module _ (h : Handler s.State g.State) (k : ℕ) (req : Request) (origin : Text) (w : Writer)
      (unsent : w.sent ≡ none) (named : get allow_origin w.header ≡ origin)
      (present : origin ≢ []) where
    forward-Answers : (code : ℕ) × Answers code origin (forward parse s g backend h k req w).writer
    unfolding forward conclude
    forward-Answers = elim (Option-cases (select parse s h.upstream k)) [
      | inl missing ↦
          let message = codes "no upstream node available" in
          let e : (forward parse s g backend h k req w).writer ≡ write_json 503 message w =
            ground arith in
          (503, rw e (write_json-Answers origin w unsent named 503 message))
      | inr (node, found) ↦
          let reply = backend (outbound (director h node req)) in
          let e : (forward parse s g backend h k req w).writer
              ≡ (proxy reply (status_writer w)).0.writer =
            ground arith in
          rw e (proxy-Answers origin w unsent named reply present)
    ]

    route-Answers :
        (code : ℕ) × Answers code origin (serve_http parse s g backend h k req w).1.writer
    unfolding serve_http
    route-Answers = elim (Option-cases h.breaker) [
      | inl unguarded ↦
          let e : (serve_http parse s g backend h k req w).1.writer
              ≡ (forward parse s g backend h k req w).writer =
            ground arith in
          rw e forward-Answers
      | inr ((b, test), guarded) ↦ elim (Option-cases (g.admit b).1) [
        | inl admitted ↦
            let e : (serve_http parse s g backend h k req w).1.writer
                ≡ (forward parse s g backend h k req w).writer =
              ground arith in
            rw e forward-Answers
        | inr (why, rejected) ↦
            let message = codes "upstream circuit open" in
            let e : (serve_http parse s g backend h k req w).1.writer ≡ write_json 503 message w =
              ground arith in
            (503, rw e (write_json-Answers origin w unsent named 503 message))
      ]
    ]

  limited-Answers :
      (b : Buckets) (k : ℕ) (bucket : b.Bucket) (h : Handler s.State g.State) (req : Request)
      (origin : Text) (w : Writer)
      → w.sent ≡ none
      → get allow_origin w.header ≡ origin
      → origin ≢ []
      → (code : ℕ) × Answers code origin (limited b (route k) (bucket, h) req w).1
  unfolding limited allow
  limited-Answers b k bucket h req origin w unsent named present =
      elim (Bool-cases (b.allow bucket).1) [
        | inl admitted ↦
            let e : (limited b (route k) (bucket, h) req w).1
                ≡ (serve_http parse s g backend h k req w).1.writer =
              ground arith in
            rw e (route-Answers h k req origin w unsent named present)
        | inr rejected ↦
            let e : (limited b (route k) (bucket, h) req w).1 ≡ write_too_many_requests w =
              ground arith in
            (429, rw e (write_too_many_requests-Answers origin w unsent named))
      ]

  -- Whatever becomes of a request of an origin of the policy, to whose client nothing was sent,
  -- behind the filters, with the CORS filter outermost, an answer to a preflight, a rejection by
  -- the limiter or the breaker, a missing node, a backend that cannot be reached or its reply, a
  -- status is sent, and the first value of the field for the allowed origin is this origin.
  pub cors_filter-Answers :
      (whole_seconds : ℤ → ℤ) (c : CorsConfig) (b : Buckets) (k : ℕ) (bucket : b.Bucket)
      (h : Handler s.State g.State) (req : Request) (w : Writer)
      → get (codes "Origin") req.header ≢ []
      → IsListed c (get (codes "Origin") req.header)
      → w.sent ≡ none
      → (code : ℕ) × Answers code
          (get (codes "Origin") req.header)
          (cors_filter whole_seconds c (limited b (route k)) (bucket, h) req w).1
  unfolding cors_filter
  cors_filter-Answers whole_seconds c b k bucket h req w present listed unsent =
      let origin = get (codes "Origin") req.header in
      let allowed = (origin_allowed_iff c origin).1 listed in
      let (named, kept) = decorate_lem c origin w in
      elim (Bool-cases (is_preflight req)) [
        | inl asks ↦ (
          204,
          rw (is_empty-false origin present, allowed, asks)
              (preflight-Answers whole_seconds c origin (decorate c origin w) (kept ∙ unsent)
                named),
        )
        | inr plain ↦
            rw (is_empty-false origin present, allowed, plain)
              (limited-Answers b k bucket h req origin (decorate c origin w) (kept ∙ unsent) named
                present)
      ]
