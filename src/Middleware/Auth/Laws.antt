-- ===== src/Middleware/Auth/Laws.antt =====
-- Whom a handler serves behind TokenAuth.
use kratos_micro_layout.Prelude.{
  ◌≡◌, ◌≢◌, ◌⊎◌, inl, inr, ap, refl, arith, ◌&&◌, Bool, false, Option, some, [], ◌++◌, Text, codes,
  leb, length, take, is_empty, is_empty-false, is_empty_iff, Bool-cases,
}
use kratos_micro_layout.Prelude.Int.{ℤ}
use kratos_micro_layout.Prelude.Result.{ok, err, Result-cases}
use kratos_micro_layout.Word.{IsInt64}
use kratos_micro_layout.Text.{equal_fold, fold, trim_space}
use kratos_micro_layout.Decimal.RoundTrip.{parse_int-format_int}
use kratos_micro_layout.Snowflake.Marshal.{string}
use kratos_micro_layout.Http.{Header, get}
use kratos_micro_layout.Middleware.Auth.{
  AuthClaims, Context, TokenVerifier, Handle, authorization_header, bearer_prefix, strip_bearer,
  bearer_from, new_auth_context, claims_from_context, user_id_from_context, token_auth,
}

-- A token whose own text starts with the scheme, in any case.
abbrev pub has_scheme : Text → Bool
has_scheme t = leb 7 (length t) && equal_fold (take 7 t) bearer_prefix

strip_bearer_scheme : (token : Text) → strip_bearer (codes "Bearer " ++ token) ≡ trim_space token
unfolding strip_bearer equal_fold fold
strip_bearer_scheme token = ground arith

strip_bearer_bare :
    (token : Text) → has_scheme token ≡ false → strip_bearer token ≡ trim_space token
unfolding strip_bearer
strip_bearer_bare token no_scheme = ground arith

-- The scheme is optional: a value without it is the token itself.
pub bearer_from_bare :
    (ctx bare : Context) (h k : Header) (token : Text)
    → ctx.header ≡ some h
    → bare.header ≡ some k
    → get authorization_header h ≡ codes "Bearer " ++ token
    → get authorization_header k ≡ token
    → has_scheme token ≡ false
    → bearer_from bare ≡ bearer_from ctx
unfolding bearer_from
bearer_from_bare ctx bare h k token eh ek with_scheme without no_scheme =
    rw (eh, ek, with_scheme, without, strip_bearer_scheme token, strip_bearer_bare token no_scheme)
      refl

-- The identity of a context with claims whose user id is the text form of an int64.
user_id_from_context_lem :
    (ctx : Context) (id : ℤ) (c : AuthClaims)
    → c.user_id ≡ string id
    → IsInt64 id
    → user_id_from_context (new_auth_context ctx (some c)) ≡ some id
unfolding user_id_from_context claims_from_context new_auth_context string
user_id_from_context_lem ctx id c named word = ground (arith, parse_int-format_int id word)

module _ {E Req Rep : Type 0} (verifier : TokenVerifier E) (unauthorized : E) where
  -- The handler behind TokenAuth runs only for a token that the verifier accepts, and in a context
  -- with the claims of that token: handlers that agree on these contexts cannot be told apart.
  pub token_auth_guards :
      (f g : Handle E Req Rep) (ctx : Context) (req : Req)
      → ((c : Option AuthClaims)
          → bearer_from ctx ≢ []
          → verifier (bearer_from ctx) ≡ ok c
          → f (new_auth_context ctx c) req ≡ g (new_auth_context ctx c) req)
      → token_auth verifier unauthorized f ctx req ≡ token_auth verifier unauthorized g ctx req
  unfolding token_auth
  token_auth_guards f g ctx req agree = elim (Bool-cases (is_empty (bearer_from ctx))) [
    | inl missing ↦ rw missing refl
    | inr given ↦ elim (Result-cases (verifier (bearer_from ctx))) [
      | inl (c, good) ↦
          rw (given, good) (agree c (ground (arith, is_empty_iff (bearer_from ctx))) good)
      | inr (e, bad) ↦ rw (given, bad) refl
    ]
  ]

  -- A request without a token, or with one that the verifier refuses, is refused whatever the
  -- handler is: with the given error in the first case and the verifier's own in the second.
  pub token_auth_refuses :
      (f : Handle E Req Rep) (ctx : Context) (req : Req) (e : E)
      → ((bearer_from ctx ≡ []) × (e ≡ unauthorized))
        ⊎ ((bearer_from ctx ≢ []) × (verifier (bearer_from ctx) ≡ err e))
      → token_auth verifier unauthorized f ctx req ≡ err e
  unfolding token_auth
  token_auth_refuses f ctx req e (inl (missing, same)) = rw (missing, same) refl
  token_auth_refuses f ctx req e (inr (given, bad)) =
      rw (is_empty-false (bearer_from ctx) given, bad) refl

-- A verified token whose user id is the text form of an int64 gives the handler that number.
pub token_auth-user_id :
    {E Req : Type 0} (verifier : TokenVerifier E) (unauthorized : E) (ctx : Context) (req : Req)
    (id : ℤ) (c : AuthClaims)
    → bearer_from ctx ≢ []
    → verifier (bearer_from ctx) ≡ ok (some c)
    → c.user_id ≡ string id
    → IsInt64 id
    → token_auth verifier unauthorized (λ ctx' r. ok (user_id_from_context ctx')) ctx req
      ≡ ok (some id)
unfolding token_auth
token_auth-user_id verifier unauthorized ctx req id c given good named word =
    rw (is_empty-false (bearer_from ctx) given, good)
      (ap ok (user_id_from_context_lem ctx id c named word))
