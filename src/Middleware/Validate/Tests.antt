-- ===== src/Middleware/Validate/Tests.antt =====
-- The theorems on the validation at a request whose message breaks two rules.
use kratos_micro_layout.Prelude.{
  ℕ, ◌≡◌, ◌⊎◌, inl, refl, false, Option, none, some, [], ◌∷◌, map, Text, codes, if◌then◌else◌, ◌==◌,
}
use kratos_micro_layout.Prelude.Result.{Result, ok, err}
use kratos_micro_layout.Http.{new_writer}
use kratos_micro_layout.Middleware.Logging.{Status}
use kratos_micro_layout.Middleware.Codec.{Libraries, Carries, error_encoder}
use kratos_micro_layout.Middleware.Rejection.{Knows, validator-Carries}
use kratos_micro_layout.Middleware.Validate.{
  Violation, Failure, kratos, caused, validation, other, violation_text, validator,
}
use kratos_micro_layout.Middleware.Validate.Laws.{
  IsAccepted, IsKratosError, split_parts, has_separator, validator_outcome,
}

-- A request is its own message and has no method of its own.
abbrev itself : Text → Option Text
itself req = some req

abbrev no_method : Text → Option (Option Failure)
no_method req = none

abbrev no_text : Failure → Text
no_text e = codes "invalid"

abbrev short_name : Violation
short_name = record { field = codes "name"; message = codes "too short" }

abbrev wrong_whole : Violation
wrong_whole = record { field = []; message = codes "passwords differ" }

-- The empty message breaks both rules, and one of a colon makes the library fail.
abbrev rules : Text → Option Failure
rules [] = some (validation (short_name ∷ wrong_whole ∷ []))
rules (c ∷ s) = if c == b':' then some (other (codes "no rules")) else none

abbrev echo : ℕ → Text → Result Failure Text
echo ctx req = ok req

validator_outcome_example :
    (IsAccepted itself rules no_method no_text (codes "ann")
      × (validator itself rules no_method no_text echo 0 (codes "ann") ≡ echo 0 (codes "ann")))
    ⊎ ((¬ IsAccepted itself rules no_method no_text (codes "ann"))
        × (e : Failure) × IsKratosError e
        × (validator itself rules no_method no_text echo 0 (codes "ann") ≡ err e))
validator_outcome_example = validator_outcome itself rules no_method no_text echo 0 (codes "ann")

no_separators :
    (has_separator (violation_text short_name) ≡ false)
    × (has_separator (violation_text wrong_whole) ≡ false)
unfolding has_separator violation_text
no_separators = (refl, refl)

abbrev from_error : Failure → Option Status
from_error (kratos code reason text) =
    some (record { code = code; reason = reason; message = text })
from_error (caused code reason text cause) =
    some (record { code = code; reason = reason; message = text })
from_error e = none

-- Nothing is marshalled but the message of an envelope.
abbrev libraries : Libraries Text Text Failure
libraries = record {
  from_error = from_error;
  error_text = no_text;
  marshal_message = λ m. ok m;
  marshal_plain = λ v. ok v;
  marshal_envelope = λ e. ok e.message;
  unmarshal_message = λ s m. ok s;
  unmarshal_plain = λ s v. ok s;
  new_message = [];
  bad_request = λ reason text. other text;
  write_error = other [];
}

knows : Knows libraries
knows code reason text cause = refl

validator-Carries_example :
    (e : Failure) × (message : Text) × (validator itself rules no_method no_text echo 0 [] ≡ err e)
    × (split_parts message ≡ map violation_text (short_name ∷ wrong_whole ∷ []))
    × Carries libraries message (error_encoder libraries e new_writer)
validator-Carries_example =
    validator-Carries itself rules no_method no_text libraries (λ message. message) echo 0 [] []
      short_name (wrong_whole ∷ []) new_writer knows (λ message. refl) (inl refl) refl refl
      (no_separators.0, (no_separators.1, tt)) refl refl refl
