-- ===== src/Jwt/Laws.antt =====
-- Tokens are read back with what they were made of.
use kratos_micro_layout.Prelude.{◌≡◌, ◌≢◌, refl, arith, Text, if◌then◌else◌, ◌*◌}
use kratos_micro_layout.Prelude.Int.{ℤ, pos, eqb_ℤ, ◌+ℤ◌, ◌≤ℤ◌, ◌<ℤ◌, +ℤ_parts}
use kratos_micro_layout.Prelude.Result.{ok}
use kratos_micro_layout.Time.{second}
use kratos_micro_layout.Jwt.{
  TokenType, access, refresh, Claims, Library, Options, new_manager, generate,
  generate_access_token, generate_refresh_token, parse_token, default_access_ttl,
  default_refresh_ttl,
}

-- A lifetime that was left out is the default, and every other one is kept.
abbrev pub lifetime : ℤ → ℤ → ℤ
lifetime ttl default = if eqb_ℤ ttl (pos 0) then default else ttl

module _ (l : Library) where
  -- What the token of a manager with these options says.
  pub record Says (o : Options) (user_id username : Text) (kind : TokenType) (c : Claims)
      : Type 0 where
    pub whose : c.user_id ≡ user_id
    pub name : c.username ≡ username
    pub who : c.issuer ≡ o.issuer
    pub type : c.token_type ≡ kind

  parse_token-generate :
      (o : Options) (now later ttl : ℤ) (user_id username token : Text) (kind : TokenType)
      → generate l (new_manager o) now user_id username kind ttl ≡ ok token
      → now ≤ℤ later
      → later +ℤ second ≤ℤ now +ℤ ttl
      → (c : Claims) × (parse_token l (new_manager o) later token ≡ ok c)
        × Says o user_id username kind c
  unfolding generate parse_token new_manager
  parse_token-generate o now later ttl user_id username token kind h after before =
      let c : Claims = record {
        expires_at = l.numeric_date (now +ℤ ttl);
        issued_at = l.numeric_date now;
        not_before = l.numeric_date now;
        issuer = o.issuer;
        user_id = user_id;
        username = username;
        token_type = kind;
      } in
      let started : l.numeric_date now ≤ℤ later = omega (arith, l.date_le now) in
      let ended : later <ℤ l.numeric_date (now +ℤ ttl) = omega (
        arith,
        l.date_near (now +ℤ ttl),
        +ℤ_parts later second,
        +ℤ_parts (l.numeric_date (now +ℤ ttl)) second,
      ) in
      (
        c,
        rw
            (
              l.parse-sign o.secret token c later h (l.numeric_date-numeric_date (now +ℤ ttl))
                  (l.numeric_date-numeric_date now) (l.numeric_date-numeric_date now) started
                  started ended,
              parse_token,
            )
            refl,
        record { whose = refl; name = refl; who = refl; type = refl },
      )

  -- An access token is read back, by a manager with the same options, with its user, its issuer and
  -- its type until one second before its lifetime ends; the lifetime is two hours if none is set.
  pub parse_token-generate_access_token :
      (o : Options) (now later : ℤ) (user_id username token : Text)
      → generate_access_token l (new_manager o) now user_id username ≡ ok token
      → now ≤ℤ later
      → later +ℤ second ≤ℤ now +ℤ lifetime o.access_token_ttl (pos (2 * 3600 * 1000000000))
      → (c : Claims) × (parse_token l (new_manager o) later token ≡ ok c)
        × Says o user_id username access c
  unfolding generate_access_token
  parse_token-generate_access_token o now later user_id username token h after before =
      parse_token-generate o now later (lifetime o.access_token_ttl default_access_ttl) user_id
        username token access (unfold new_manager in h) after before

  -- A refresh token is read back in the same way, until one second before its lifetime ends, which
  -- is seven days if none is set, and it never passes for an access token.
  pub parse_token-generate_refresh_token :
      (o : Options) (now later : ℤ) (user_id username token : Text)
      → generate_refresh_token l (new_manager o) now user_id username ≡ ok token
      → now ≤ℤ later
      → later +ℤ second ≤ℤ now +ℤ lifetime o.refresh_token_ttl (pos (7 * 24 * 3600 * 1000000000))
      → (c : Claims) × (parse_token l (new_manager o) later token ≡ ok c)
        × Says o user_id username refresh c
        × (c.token_type ≢ access)
  unfolding generate_refresh_token
  parse_token-generate_refresh_token o now later user_id username token h after before =
      let (c, parsed, says) =
        parse_token-generate o now later (lifetime o.refresh_token_ttl default_refresh_ttl) user_id
          username token refresh (unfold new_manager in h) after before in
      (c, parsed, says, λ e. cc (says.type, e))
