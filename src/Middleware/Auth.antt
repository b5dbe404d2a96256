-- ===== src/Middleware/Auth.antt =====
-- pkg/middleware/auth.go: bearer tokens and the identity in a context. The verifier of a service is
-- a parameter, and so is the type of its errors.
pub mod Laws
use kratos_micro_layout.Prelude.{
  ℕ, ◌&&◌, Bool, Option, none, some, List, [], ◌∷◌, Text, codes, String, leb, length, take, drop,
  is_empty, if◌then◌else◌,
}
use kratos_micro_layout.Prelude.Int.{ℤ}
use kratos_micro_layout.Prelude.Result.{Result, ok, err}
use kratos_micro_layout.Text.{equal_fold, trim_space}
use kratos_micro_layout.Decimal.{parse_int}
use kratos_micro_layout.Http.{Header, get}

pub record AuthClaims : Type 0 where
  pub user_id : Text
  pub username : Text

-- What is read of a context: the request header of its server transport, if it has one, and the
-- value at the key of the claims.
pub record Context : Type 0 where
  pub header : Option Header
  pub claims : Option AuthClaims

-- TokenVerifier; the claims are a pointer, which may be nil.
abbrev pub TokenVerifier : Type 0 → Type 0
TokenVerifier E = Text → Result E (Option AuthClaims)

-- middleware.Handler
abbrev pub Handle : Type 0 → Type 0 → Type 0 → Type 0
Handle E Req Rep = Context → Req → Result E Rep

abbrev pub authorization_header : Text
authorization_header = codes "Authorization"

abbrev pub bearer_prefix : Text
bearer_prefix = codes "Bearer "

-- The token in a header's value. The source compares the first bytes, which are the first code
-- points wherever they match: no letter outside ASCII folds to one of the prefix.
unfoldable pub strip_bearer : Text → Text
strip_bearer v =
    if leb (length bearer_prefix) (length v)
      && equal_fold (take (length bearer_prefix) v) bearer_prefix
    then trim_space (drop (length bearer_prefix) v)
    else trim_space v

-- BearerFrom
unfoldable pub bearer_from : Context → Text
unfolding strip_bearer
bearer_from ctx = elim ctx.header [ none ↦ [] | some h ↦ strip_bearer (get authorization_header h) ]

-- NewAuthContext
unfoldable pub new_auth_context : Context → Option AuthClaims → Context
new_auth_context ctx none = ctx
new_auth_context ctx (some c) = record ctx { claims = some c }

-- ClaimsFromContext
unfoldable pub claims_from_context : Context → Option AuthClaims
claims_from_context ctx = ctx.claims

-- UserIDFromContext; none is the zero with a false.
unfoldable pub user_id_from_context : Context → Option ℤ
unfolding claims_from_context
user_id_from_context ctx = elim (claims_from_context ctx) [
  | none ↦ none
  | some c ↦ elim (parse_int c.user_id) [ err e ↦ none | ok id ↦ some id ]
]

-- TokenAuth
unfoldable pub token_auth :
    {E Req Rep : Type 0} → TokenVerifier E → E → Handle E Req Rep → Handle E Req Rep
token_auth verifier unauthorized handler ctx req =
    let token = bearer_from ctx in
    if is_empty token
    then err unauthorized
    else elim (verifier token) [ err e ↦ err e | ok c ↦ handler (new_auth_context ctx c) req ]
