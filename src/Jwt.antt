-- ===== src/Jwt.antt =====
-- pkg/jwt/jwt.go: signed tokens. golang-jwt is a parameter: its signing with HS256, its parser, and
-- its dates of whole seconds. Times are nanoseconds since 1970, durations nanoseconds.
pub mod Laws
mod Tests
use kratos_micro_layout.Prelude.{
  ℕ, ◌≡◌, ◌*◌, ◌^◌, Bool, true, false, not, ◌||◌, Text, if◌then◌else◌,
}
use kratos_micro_layout.Prelude.Int.{ℤ, pos, eqb_ℤ, ◌+ℤ◌, ◌≤ℤ◌, ◌<ℤ◌}
use kratos_micro_layout.Prelude.Result.{Result, ok, err}
use kratos_micro_layout.Time.{second}

-- TokenType and its constants
abbrev pub TokenType : Type 0
TokenType = ℤ

abbrev pub access : TokenType
access = pos 0

abbrev pub refresh : TokenType
refresh = pos 1

abbrev pub default_access_ttl : ℤ
default_access_ttl = pos (2 * 3600 * 1000000000)

abbrev pub default_refresh_ttl : ℤ
default_refresh_ttl = pos (168 * 3600 * 1000000000)

-- Claims; a date is in nanoseconds as well.
pub record Claims : Type 0 where
  pub expires_at : ℤ
  pub issued_at : ℤ
  pub not_before : ℤ
  pub issuer : Text
  pub user_id : Text
  pub username : Text
  pub token_type : TokenType

-- What the source uses of golang-jwt. `parse` is given the secret that its key function returns and
-- the time at which it runs, and gives the claims with the flag `Valid`. A signed token is parsed
-- with its secret from its NotBefore until before its ExpiresAt, if its dates are whole seconds; a
-- date drops the part of a second.
pub record Library : Type 1 where
  pub Failure : Type 0
  pub numeric_date : ℤ → ℤ
  pub sign : Text → Claims → Result Failure Text
  pub parse : Text → ℤ → Text → Result Failure (Claims × Bool)
  pub invalid_claims : Failure
  pub date_le : (t : ℤ) → numeric_date t ≤ℤ t
  pub date_near : (t : ℤ) → t <ℤ numeric_date t +ℤ second
  pub numeric_date-numeric_date : (t : ℤ) → numeric_date (numeric_date t) ≡ numeric_date t
  pub parse-sign :
      (secret token : Text) (c : Claims) (now : ℤ)
      → sign secret c ≡ ok token
      → numeric_date c.expires_at ≡ c.expires_at
      → numeric_date c.issued_at ≡ c.issued_at
      → numeric_date c.not_before ≡ c.not_before
      → c.not_before ≤ℤ now
      → c.issued_at ≤ℤ now
      → now <ℤ c.expires_at
      → parse secret now token ≡ ok (c, true)

pub record Options : Type 0 where
  pub secret : Text
  pub issuer : Text
  pub access_token_ttl : ℤ
  pub refresh_token_ttl : ℤ

pub record Manager : Type 0 where
  pub secret : Text
  pub issuer : Text
  pub access_token_ttl : ℤ
  pub refresh_token_ttl : ℤ

-- NewManager
unfoldable pub new_manager : Options → Manager
new_manager o = record {
  secret = o.secret;
  issuer = o.issuer;
  access_token_ttl =
      if eqb_ℤ o.access_token_ttl (pos 0) then default_access_ttl else o.access_token_ttl;
  refresh_token_ttl =
      if eqb_ℤ o.refresh_token_ttl (pos 0) then default_refresh_ttl else o.refresh_token_ttl;
}

module _ (l : Library) where
  -- generate, at the time `now`
  unfoldable pub generate : Manager → ℤ → Text → Text → TokenType → ℤ → Result l.Failure Text
  generate m now user_id username token_type ttl = l.sign m.secret (record {
    expires_at = l.numeric_date (now +ℤ ttl);
    issued_at = l.numeric_date now;
    not_before = l.numeric_date now;
    issuer = m.issuer;
    user_id = user_id;
    username = username;
    token_type = token_type;
  })

  -- GenerateAccessToken and GenerateRefreshToken
  unfoldable pub generate_access_token : Manager → ℤ → Text → Text → Result l.Failure Text
  unfolding generate
  generate_access_token m now user_id username =
      generate m now user_id username access m.access_token_ttl

  unfoldable pub generate_refresh_token : Manager → ℤ → Text → Text → Result l.Failure Text
  unfolding generate
  generate_refresh_token m now user_id username =
      generate m now user_id username refresh m.refresh_token_ttl

  -- ParseToken
  unfoldable pub parse_token : Manager → ℤ → Text → Result l.Failure Claims
  parse_token m now token = elim (l.parse m.secret now token) [
    | err e ↦ err e
    | ok (claims, valid) ↦ if not valid then err l.invalid_claims else ok claims
  ]

-- AccessTokenTTL; how a float rounds the seconds is a parameter.
unfoldable pub ttl_seconds : (ℤ → ℤ) → Manager → ℤ
ttl_seconds whole_seconds m = whole_seconds m.access_token_ttl
