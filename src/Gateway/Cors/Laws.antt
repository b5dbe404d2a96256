-- ===== src/Gateway/Cors/Laws.antt =====
-- Who may read a response, and what a preflight is answered.
use kratos_micro_layout.Prelude.{
  ◌≡◌, ◌≢◌, ◌∙◌, ℕ, ◌↔◌, ◌⊎◌, inl, inr, refl, ap, arith, Bool, true, false, List, [], ◌∷◌, Text,
  none, codes, is_empty, is_empty-false, if◌then◌else◌, Any, some, Bool-cases,
}
use kratos_micro_layout.Prelude.Int.{ℤ, pos, ltb_ℤ}
use kratos_micro_layout.Decimal.{format_int}
use kratos_micro_layout.Text.{join}
use kratos_micro_layout.Text.Laws.{text_eq_iff, text_eq-false}
use kratos_micro_layout.Http.{
  Header, Request, Writer, Serve, get, set, set_header, add_header, write_header, write,
  status_no_content, content_type, status_too_many_requests,
}
use kratos_micro_layout.Http.Laws.{get-set_self, get-set_ne, get-add_ne}
use kratos_micro_layout.Middleware.RateLimit.{Buckets, limited, allow, write_too_many_requests}
use kratos_micro_layout.Gateway.Cors.{
  CorsConfig, allow_origin, credentials, origin_in, origin_allowed, decorate, request_method,
  is_preflight, preflight, cors_filter,
}

-- An entry of the policy admits the origin.
abbrev pub IsListed : CorsConfig → Text → Type 0
IsListed c origin = Any (λ o. (o ≡ codes "*") ⊎ (o ≡ origin)) c.allow_origins

origin_in_iff :
    (os : List Text) (origin : Text)
    → (origin_in os origin ≡ true) ↔ Any (λ o. (o ≡ codes "*") ⊎ (o ≡ origin)) os
unfolding origin_in
origin_in_iff [] origin = (λ h. cc, λ h. absurd h)
origin_in_iff (o ∷ os) origin =
    ground (arith, text_eq_iff o (codes "*"), text_eq_iff o origin, origin_in_iff os origin)

-- An origin is allowed exactly if an entry of the policy is "*" or that origin.
pub origin_allowed_iff :
    (c : CorsConfig) (origin : Text) → (origin_allowed c origin ≡ true) ↔ IsListed c origin
unfolding origin_allowed
origin_allowed_iff c origin = origin_in_iff c.allow_origins origin

-- The response is sent with that status, under a header that allows the origin to read it.
abbrev pub Answers : ℕ → Text → Writer → Type 0
Answers code origin w = (h : Header) × (w.sent ≡ some (code, h)) × (get allow_origin h ≡ origin)

methods_name : allow_origin ≢ codes "Access-Control-Allow-Methods"
methods_name = text_eq-false allow_origin (codes "Access-Control-Allow-Methods") refl

headers_name : allow_origin ≢ codes "Access-Control-Allow-Headers"
headers_name = text_eq-false allow_origin (codes "Access-Control-Allow-Headers") refl

age_name : allow_origin ≢ codes "Access-Control-Max-Age"
age_name = text_eq-false allow_origin (codes "Access-Control-Max-Age") refl

pub type_name : allow_origin ≢ content_type
type_name = text_eq-false allow_origin content_type refl

-- Decorating names the origin, and keeps what was sent.
pub decorate_lem :
    (c : CorsConfig) (origin : Text) (w : Writer)
    → (get allow_origin (decorate c origin w).header ≡ origin)
      × ((decorate c origin w).sent ≡ w.sent)
unfolding decorate set_header add_header
decorate_lem c origin w =
    let credentials_name = text_eq-false allow_origin credentials refl in
    let vary_name = text_eq-false allow_origin (codes "Vary") refl in
    elim (Bool-cases c.allow_credentials) [
      | inl yes_please ↦ rw yes_please (
          rw
            (
              get-set_ne credentials allow_origin _ _ credentials_name,
              get-add_ne _ allow_origin _ _ vary_name,
              get-set_self,
            )
            (refl, refl))
      | inr without ↦
          rw without (rw (get-add_ne _ allow_origin _ _ vary_name, get-set_self) (refl, refl))
    ]

if_set :
    (test : Bool) (name value : Text) (w : Writer)
    → allow_origin ≢ name
    → let w' = if test then set_header name value w else w in
      (get allow_origin w'.header ≡ get allow_origin w.header) × (w'.sent ≡ w.sent)
unfolding set_header
if_set test name value w ne = ground (arith, get-set_ne name allow_origin value w.header ne)

if_set_not :
    (test : Bool) (name value : Text) (w : Writer)
    → allow_origin ≢ name
    → let w' = if test then w else set_header name value w in
      (get allow_origin w'.header ≡ get allow_origin w.header) × (w'.sent ≡ w.sent)
unfolding set_header
if_set_not test name value w ne = ground (arith, get-set_ne name allow_origin value w.header ne)

-- Sending a status keeps the header of that moment.
write_header-Answers :
    (code : ℕ) (origin : Text) (w : Writer)
    → w.sent ≡ none
    → get allow_origin w.header ≡ origin
    → Answers code origin (write_header code w)
unfolding write_header
write_header-Answers code origin w unsent named = (w.header, ground arith, named)

pub write_too_many_requests-Answers :
    (origin : Text) (w : Writer)
    → w.sent ≡ none
    → get allow_origin w.header ≡ origin
    → Answers status_too_many_requests origin (write_too_many_requests w)
unfolding write_too_many_requests write write_header set_header
write_too_many_requests-Answers origin w unsent named = (
  set content_type (codes "application/json") w.header,
  ground arith,
  get-set_ne content_type allow_origin (codes "application/json") w.header type_name ∙ named,
)

limited-Answers :
    {S : Type 0} (b : Buckets) (next : Serve S) (bucket bucket' : b.Bucket) (s : S) (req : Request)
    (w : Writer) (origin : Text)
    → b.allow bucket ≡ (bucket', false)
    → w.sent ≡ none
    → get allow_origin w.header ≡ origin
    → let (state, w') = limited b next (bucket, s) req w in
      (state ≡ (bucket', s)) × Answers status_too_many_requests origin w'
unfolding limited allow
limited-Answers b next bucket bucket' s req w origin rejected unsent named =
    rw (rejected, limited, allow)
      (ap (λ b. (b, s)) (ground arith), write_too_many_requests-Answers origin w unsent named)

module _ (whole_seconds : ℤ → ℤ) where
  pub preflight-Answers :
      (c : CorsConfig) (origin : Text) (w : Writer)
      → w.sent ≡ none
      → get allow_origin w.header ≡ origin
      → Answers status_no_content origin (preflight whole_seconds c w)
  unfolding preflight
  preflight-Answers c origin w unsent named =
      let methods = join c.allow_methods (codes ", ") in
      let headers = join c.allow_headers (codes ", ") in
      let age = format_int (whole_seconds c.max_age) in
      let (m, m_sent) =
        if_set_not (is_empty c.allow_methods) (codes "Access-Control-Allow-Methods") methods w
          methods_name in
      let (h, h_sent) =
        if_set_not (is_empty c.allow_headers) (codes "Access-Control-Allow-Headers") headers _
          headers_name in
      let (a, a_sent) =
        if_set (ltb_ℤ (pos 0) c.max_age) (codes "Access-Control-Max-Age") age _ age_name in
      write_header-Answers status_no_content origin _ (a_sent ∙ h_sent ∙ m_sent ∙ unsent)
        (a ∙ h ∙ m ∙ named)

  module _ {S : Type 0} (c : CorsConfig) (next : Serve S) (s : S) (req : Request) (w : Writer) where
    abbrev origin : Text
    origin = get (codes "Origin") req.header

    is_preflight_lem :
        req.method ≡ codes "OPTIONS" → get request_method req.header ≢ [] → is_preflight req ≡ true
    unfolding is_preflight
    is_preflight_lem options asked =
        rw (options, is_empty-false (get request_method req.header) asked) refl

    -- A request whose origin is not in the policy is passed on as it came, and its answer is the
    -- next handler's.
    pub cors_filter_passes :
        ¬ IsListed c (get (codes "Origin") req.header)
        → cors_filter whole_seconds c next s req w ≡ next s req w
    unfolding cors_filter
    cors_filter_passes unlisted = ground (arith, origin_allowed_iff c origin)

    -- A preflight of an origin in the policy is answered 204 under a header that allows the origin,
    -- and the next handler is not called: its state stays.
    pub cors_filter_preflight :
        get (codes "Origin") req.header ≢ []
        → IsListed c (get (codes "Origin") req.header)
        → req.method ≡ codes "OPTIONS"
        → get request_method req.header ≢ []
        → w.sent ≡ none
        → let (s', w') = cors_filter whole_seconds c next s req w in
          (s' ≡ s) × Answers status_no_content (get (codes "Origin") req.header) w'
    unfolding cors_filter
    cors_filter_preflight present listed options asked unsent =
        let allowed = (origin_allowed_iff c origin).1 listed in
        let (named, kept) = decorate_lem c origin w in
        rw (is_empty-false origin present, allowed, is_preflight_lem options asked)
          (refl, preflight-Answers c origin (decorate c origin w) (kept ∙ unsent) named)

  -- A limiter behind the filter that rejects a request is not hidden from the browser: its 429 is
  -- sent under a header that allows an origin in the policy.
  pub cors_filter-limited :
      {S : Type 0} (b : Buckets) (c : CorsConfig) (next : Serve S) (bucket bucket' : b.Bucket)
      (s : S) (req : Request) (w : Writer)
      → get (codes "Origin") req.header ≢ []
      → IsListed c (get (codes "Origin") req.header)
      → is_preflight req ≡ false
      → b.allow bucket ≡ (bucket', false)
      → w.sent ≡ none
      → let (state, w') = cors_filter whole_seconds c (limited b next) (bucket, s) req w in
        (state ≡ (bucket', s))
        × Answers status_too_many_requests (get (codes "Origin") req.header) w'
  unfolding cors_filter
  cors_filter-limited b c next bucket bucket' s req w present listed plain rejected unsent =
      let origin = get (codes "Origin") req.header in
      let allowed = (origin_allowed_iff c origin).1 listed in
      let (named, kept) = decorate_lem c origin w in
      rw (is_empty-false origin present, allowed, plain)
        (limited-Answers b next bucket bucket' s req (decorate c origin w) origin rejected
          (kept ∙ unsent) named)
