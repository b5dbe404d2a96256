-- ===== src/Jwt/Tests.antt =====
-- The theorems on tokens for a library that signs the claims of one user.
use kratos_micro_layout.Prelude.{
  ◌≡◌, ◌≢◌, ◌⊎◌, ap, ◌∙◌, refl, arith, ◌*◌, ◌&&◌, Bool, true, false, Text, text_eq, codes,
  if◌then◌else◌, Bool-cases, inl, inr,
}
use kratos_micro_layout.Prelude.Int.{ℤ, pos, eqb_ℤ, ◌+ℤ◌, ◌≤ℤ◌, +ℤ_parts, eq_of_parts}
use kratos_micro_layout.Prelude.Result.{Result, ok, err}
use kratos_micro_layout.Text.Laws.{text_eq→eq}
use kratos_micro_layout.Time.{second}
use kratos_micro_layout.Jwt.{
  TokenType, access, refresh, Claims, Library, Options, new_manager, generate,
  generate_refresh_token, parse_token,
}
use kratos_micro_layout.Jwt.Laws.{Says, parse_token-generate_refresh_token}

eqb_ℤ→eq : (a b : ℤ) → eqb_ℤ a b ≡ true → a ≡ b
eqb_ℤ→eq a b h = eq_of_parts a b (ground arith)

-- The claims that a token holds besides its type: issued at 5 s by "user_center", for an hour.
abbrev about_ann : TokenType → Claims
about_ann kind = record {
  expires_at = pos (3605 * 1000000000);
  issued_at = pos 5000000000;
  not_before = pos 5000000000;
  issuer = codes "user_center";
  user_id = codes "4711";
  username = codes "ann";
  token_type = kind;
}

abbrev is_about_ann : Claims → Bool
is_about_ann c =
    eqb_ℤ c.expires_at (pos (3605 * 1000000000))
    && (eqb_ℤ c.issued_at (pos 5000000000)
        && (eqb_ℤ c.not_before (pos 5000000000)
            && (text_eq c.issuer (codes "user_center")
                && (text_eq c.user_id (codes "4711") && text_eq c.username (codes "ann")))))

and-true : (a b : Bool) → (a && b) ≡ true → (a ≡ true) × (b ≡ true)
and-true true b h = (refl, h)
and-true false b h = cc

same_claims : (c : Claims) → is_about_ann c ≡ true → c ≡ about_ann c.token_type
same_claims c h =
    let (a, h1) = and-true _ _ h in
    let (b, h2) = and-true _ _ h1 in
    let (d, h3) = and-true _ _ h2 in
    let (e, h4) = and-true _ _ h3 in
    let (f, g) = and-true _ _ h4 in
    λ i. record {
      expires_at = eqb_ℤ→eq c.expires_at (pos (3605 * 1000000000)) a i;
      issued_at = eqb_ℤ→eq c.issued_at (pos 5000000000) b i;
      not_before = eqb_ℤ→eq c.not_before (pos 5000000000) d i;
      issuer = text_eq→eq c.issuer (codes "user_center") e i;
      user_id = text_eq→eq c.user_id (codes "4711") f i;
      username = text_eq→eq c.username (codes "ann") g i;
      token_type = c.token_type;
    }

err_ok : {e : Bool} {t : Text} → ◌≢◌ {A = Result Bool Text} (err e) (ok t)
err_ok e = cc

ok_ok : {s t : Text} → ◌≡◌ {A = Result Bool Text} (ok s) (ok t) → t ≡ s
ok_ok e = cc

-- A token is its type.
abbrev seal : Text → Claims → Result Bool Text
seal secret c =
    if is_about_ann c
    then if eqb_ℤ c.token_type access
      then ok (codes "access")
      else if eqb_ℤ c.token_type refresh
      then ok (codes "refresh")
      else err false
    else err false

abbrev unseal : Text → ℤ → Text → Result Bool (Claims × Bool)
unseal secret now token =
    if text_eq token (codes "access")
    then ok (about_ann access, true)
    else if text_eq token (codes "refresh")
    then ok (about_ann refresh, true)
    else err true

-- What is signed is a token of Ann's.
seal-cases :
    (secret token : Text) (c : Claims)
    → seal secret c ≡ ok token
    → ((token ≡ codes "access") × (c ≡ about_ann access))
      ⊎ ((token ≡ codes "refresh") × (c ≡ about_ann refresh))
seal-cases secret token c h = elim (Bool-cases (is_about_ann c)) [
  | inr other ↦ absurd (err_ok (rw other at h))
  | inl hers ↦ elim (Bool-cases (eqb_ℤ c.token_type access)) [
    | inl a ↦ inl (
      ok_ok (rw (hers, a) at h),
      same_claims c hers ∙ ap about_ann (eqb_ℤ→eq c.token_type access a),
    )
    | inr not_a ↦ elim (Bool-cases (eqb_ℤ c.token_type refresh)) [
      | inl r ↦ inr (
        ok_ok (rw (hers, not_a, r) at h),
        same_claims c hers ∙ ap about_ann (eqb_ℤ→eq c.token_type refresh r),
      )
      | inr neither ↦ absurd (err_ok (rw (hers, not_a, neither) at h))
    ]
  ]
]

unseal-seal :
    (secret token : Text) (c : Claims) (now : ℤ)
    → seal secret c ≡ ok token
    → unseal secret now token ≡ ok (c, true)
unseal-seal secret token c now h = elim (seal-cases secret token c h) [
  | inl (t, same) ↦ rw (t, same) refl
  | inr (t, same) ↦ rw (t, same) refl
]

abbrev library : Library
library = record {
  Failure = Bool;
  numeric_date = λ t. t;
  sign = seal;
  parse = unseal;
  invalid_claims = false;
  date_le = λ t. omega arith;
  date_near = λ t. omega (arith, +ℤ_parts t second);
  numeric_date-numeric_date = λ t. refl;
  parse-sign = λ secret token c now h _ _ _ started issued ended. unseal-seal secret token c now h;
}

abbrev options : Options
options = record {
  secret = codes "secret";
  issuer = codes "user_center";
  access_token_ttl = pos (3600 * 1000000000);
  refresh_token_ttl = pos (3600 * 1000000000);
}

makes_refresh :
    generate_refresh_token library
      (new_manager options)
      (pos 5000000000)
      (codes "4711")
      (codes "ann")
    ≡ ok (codes "refresh")
unfolding generate_refresh_token generate new_manager ◌+ℤ◌
makes_refresh = refl

in_time : pos 6000000000 +ℤ second ≤ℤ pos 5000000000 +ℤ pos (3600 * 1000000000)
unfolding ◌+ℤ◌
in_time = omega arith

parse_token-generate_refresh_token_example :
    (c : Claims) × (parse_token library (new_manager options) (pos 6000000000) (codes "refresh")
      ≡ ok c)
    × Says library options (codes "4711") (codes "ann") refresh c
    × (c.token_type ≢ access)
parse_token-generate_refresh_token_example =
    parse_token-generate_refresh_token library options (pos 5000000000) (pos 6000000000)
      (codes "4711") (codes "ann") (codes "refresh") makes_refresh (omega arith) in_time
