-- ===== src/Gateway/Cors.antt =====
-- The CORS filter of app/gateway/internal/server/server.go. How int(d.Seconds()) rounds a duration
-- through a float is a parameter.
pub mod Laws
use kratos_micro_layout.Prelude.{
  ℕ, Bool, true, false, not, ◌&&◌, ◌||◌, List, [], ◌∷◌, Text, text_eq, codes, String, is_empty,
  if◌then◌else◌,
}
use kratos_micro_layout.Prelude.Int.{ℤ, pos, ltb_ℤ}
use kratos_micro_layout.Text.{join}
use kratos_micro_layout.Decimal.{format_int}
use kratos_micro_layout.Http.{
  Request, Writer, Serve, get, set_header, add_header, write_header, status_no_content,
}

-- conf.Cors
pub record CorsConfig : Type 0 where
  pub allow_origins : List Text
  pub allow_methods : List Text
  pub allow_headers : List Text
  pub allow_credentials : Bool
  pub max_age : ℤ

abbrev pub allow_origin : Text
allow_origin = codes "Access-Control-Allow-Origin"

abbrev pub credentials : Text
credentials = codes "Access-Control-Allow-Credentials"

abbrev pub request_method : Text
request_method = codes "Access-Control-Request-Method"

unfoldable pub origin_in : List Text → Text → Bool
origin_in [] origin = false
origin_in (o ∷ os) origin = (text_eq o (codes "*") || text_eq o origin) || origin_in os origin

unfoldable pub origin_allowed : CorsConfig → Text → Bool
unfolding origin_in
origin_allowed c origin = origin_in c.allow_origins origin

-- The fields that every response to an allowed origin gets.
unfoldable pub decorate : CorsConfig → Text → Writer → Writer
unfolding set_header add_header
decorate c origin w =
    let w' = add_header (codes "Vary") (codes "Origin") (set_header allow_origin origin w) in
    if c.allow_credentials then set_header credentials (codes "true") w' else w'

unfoldable pub is_preflight : Request → Bool
is_preflight req =
    text_eq req.method (codes "OPTIONS") && not (is_empty (get request_method req.header))

module _ (whole_seconds : ℤ → ℤ) where
  -- The answer to a preflight
  unfoldable pub preflight : CorsConfig → Writer → Writer
  preflight c w =
      let w1 =
        if is_empty c.allow_methods
        then w
        else set_header (codes "Access-Control-Allow-Methods") (join c.allow_methods (codes ", "))
            w in
      let w2 =
        if is_empty c.allow_headers
        then w1
        else set_header (codes "Access-Control-Allow-Headers") (join c.allow_headers (codes ", "))
            w1 in
      let w3 =
        if ltb_ℤ (pos 0) c.max_age
        then set_header (codes "Access-Control-Max-Age") (format_int (whole_seconds c.max_age)) w2
        else w2 in
      write_header status_no_content w3

  -- corsFilter
  unfoldable pub cors_filter : {S : Type 0} → CorsConfig → Serve S → Serve S
  unfolding decorate is_preflight preflight
  cors_filter c next s req w =
      let origin = get (codes "Origin") req.header in
      if is_empty origin || not (origin_allowed c origin)
      then next s req w
      else if is_preflight req
      then (s, preflight c (decorate c origin w))
      else next s req (decorate c origin w)
