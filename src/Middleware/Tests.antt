-- ===== src/Middleware/Tests.antt =====
-- The theorems on tokens and log records at concrete requests.
use kratos_micro_layout.Prelude.{
  ◌≡◌, ◌≢◌, refl, sym, ◌∙◌, text_eq, is_empty, if◌then◌else◌, arith, Bool, true, false, Option,
  none, some, [], ◌∷◌, Text, codes,
}
use kratos_micro_layout.Prelude.Int.{ℤ, pos, eqb_ℤ}
use kratos_micro_layout.Prelude.Result.{Result, ok, err}
use kratos_micro_layout.Text.Laws.{text_eq-false}
use kratos_micro_layout.Text.{equal_fold, fold, trim_space, trim_left, is_space}
use kratos_micro_layout.Decimal.{format_int, format_uint}
use kratos_micro_layout.Snowflake.Marshal.{string}
use kratos_micro_layout.Http.{Header, get, new_writer}
use kratos_micro_layout.Middleware.Codec.{
  Libraries, message, marshal_data, response_encoder, error_encoder, Carries, encoders_lem,
}
use kratos_micro_layout.Middleware.Auth.{
  AuthClaims, Context, TokenVerifier, Handle, authorization_header, bearer_from, strip_bearer,
  new_auth_context, user_id_from_context, token_auth,
}
use kratos_micro_layout.Middleware.Auth.Laws.{
  bearer_from_bare, token_auth_guards, token_auth-user_id,
}
use kratos_micro_layout.Middleware.Logging.{Status, Transport}

abbrev with_scheme : Context
with_scheme = record {
  header = some ((authorization_header, codes "bearer abc") ∷ []);
  claims = none;
}

abbrev scheme : Header
scheme = (authorization_header, codes "Bearer abc") ∷ []

abbrev bare : Header
bare = (authorization_header, codes "abc") ∷ []

reads_scheme : get authorization_header scheme ≡ codes "Bearer abc"
unfolding get
reads_scheme = refl

reads_bare : get authorization_header bare ≡ codes "abc"
unfolding get
reads_bare = refl

bearer_from_bare_example :
    bearer_from (record { header = some bare; claims = none })
    ≡ bearer_from (record { header = some scheme; claims = none })
bearer_from_bare_example =
    bearer_from_bare (record { header = some scheme; claims = none })
      (record { header = some bare; claims = none }) scheme bare (codes "abc") refl refl
      reads_scheme reads_bare refl

bears : bearer_from with_scheme ≡ codes "abc"
unfolding bearer_from strip_bearer get equal_fold fold trim_space trim_left is_space
bears = refl

some_token : bearer_from with_scheme ≢ []
some_token = rw bears (text_eq-false (codes "abc") [] refl)

abbrev user : AuthClaims
user = record { user_id = codes "4711"; username = codes "ann" }

-- It knows one token.
abbrev verifier : TokenVerifier Bool
verifier token = if text_eq token (codes "abc") then ok (some user) else err false

verified : verifier (bearer_from with_scheme) ≡ ok (some user)
verified = rw bears refl

id_text : codes "4711" ≡ string (pos 4711)
unfolding string format_int format_uint
id_text = refl

token_auth-user_id_example :
    token_auth verifier true (λ ctx r. ok (user_id_from_context ctx)) with_scheme tt
    ≡ ok (some (pos 4711))
token_auth-user_id_example =
    token_auth-user_id verifier true with_scheme tt (pos 4711) user some_token verified id_text
      (omega arith)

-- Handlers that differ for a caller without claims.
abbrev strict : Handle Bool Bool Bool
strict ctx req = elim ctx.claims [ none ↦ err true | some c ↦ ok req ]

abbrev lax : Handle Bool Bool Bool
lax ctx req = ok req

not_none : (c : AuthClaims) → ◌≢◌ {A = Result Bool (Option AuthClaims)} (ok (some c)) (ok none)
not_none c e = cc

agree :
    (c : Option AuthClaims)
    → bearer_from with_scheme ≢ []
    → verifier (bearer_from with_scheme) ≡ ok c
    → strict (new_auth_context with_scheme c) true ≡ lax (new_auth_context with_scheme c) true
unfolding new_auth_context
agree none given h = absurd (not_none user (sym verified ∙ h))
agree (some c) given h = refl

token_auth_guards_example :
    token_auth verifier true strict with_scheme true ≡ token_auth verifier true lax with_scheme true
token_auth_guards_example = token_auth_guards verifier true strict lax with_scheme true agree

-- Errors are their codes.
abbrev from_code : ℤ → Status
from_code code = record { code = code; reason = []; message = codes "failed" }

abbrev login : Bool → Option Transport
login ctx = some (record { kind = codes "http"; operation = codes "/user.v1.Auth/Login" })

-- A handler that refuses every password.
abbrev refuse : Bool → Text → Text × Option ℤ
refuse ctx password = (password, some (pos 401))

-- Values are their texts, and an envelope is printed as its data or its message.
abbrev libraries : Libraries Text Text ℤ
libraries = record {
  from_error = λ x. if eqb_ℤ x (pos 0) then none else some (from_code x);
  error_text = λ x. codes "boom";
  marshal_message = λ m. ok m;
  marshal_plain = λ v. ok v;
  marshal_envelope = λ e. ok (if is_empty e.message then e.raw else e.message);
  unmarshal_message = λ s m. ok s;
  unmarshal_plain = λ s v. ok s;
  new_message = [];
  bad_request = λ reason text. pos 400;
  write_error = pos 499;
}

marshals : marshal_data libraries (message (codes "{}")) ≡ ok (codes "{}")
unfolding marshal_data
marshals = refl

encoders_lem_example :
    Carries libraries
      (codes "{}")
      (response_encoder libraries (some (message (codes "{}"))) new_writer).0
    × Carries libraries (codes "boom") (error_encoder libraries (pos 0) new_writer)
encoders_lem_example =
    encoders_lem libraries (pos 0) (message (codes "{}")) (codes "{}") (codes "{}") (codes "boom")
      new_writer marshals refl refl refl refl refl
