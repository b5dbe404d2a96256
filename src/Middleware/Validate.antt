-- ===== src/Middleware/Validate.antt =====
-- pkg/middleware/validate.go: the validation of requests. protovalidate is a parameter, and so are a
-- request's own Validate method and the text of an error.
pub mod Laws
mod Tests
use kratos_micro_layout.Prelude.{
  Option, none, some, List, [], ◌∷◌, ◌++◌, map, Text, codes, String, is_empty, if◌then◌else◌,
}
use kratos_micro_layout.Prelude.Int.{ℤ, pos}
use kratos_micro_layout.Prelude.Result.{Result, ok, err}
use kratos_micro_layout.Text.{join}

-- protovalidate.Violation, as far as it is read: the path of its field, empty if it is about the
-- whole message, and its text.
pub record Violation : Type 0 where
  pub field : Text
  pub message : Text

-- An error: one of kratos with its code, reason and message, without a cause or with one, the
-- violations of protovalidate, or any other.
pub data Failure : Type 0 where
  kratos : ℤ → Text → Text → Failure
  caused : ℤ → Text → Text → Failure → Failure
  validation : List Violation → Failure
  other : Text → Failure

abbrev pub validation_failed_reason : Text
validation_failed_reason = codes "VALIDATION_FAILED"

unfoldable pub violation_text : Violation → Text
violation_text v = if is_empty v.field then v.message else v.field ++ (codes ": " ++ v.message)

-- errors.BadRequest(ValidationFailedReason, message).WithCause(cause)
abbrev pub bad_request : Text → Failure → Failure
bad_request message cause = caused (pos 400) validation_failed_reason message cause

module _ {M Req : Type 0} (as_message : Req → Option M) (validate : M → Option Failure)
    (own_validate : Req → Option (Option Failure)) (error_text : Failure → Text) where
  -- The part of ProtoValidator behind the call of protovalidate
  unfoldable pub rejection : Failure → Failure
  unfolding violation_text
  rejection (validation violations) =
      bad_request (join (map violation_text violations) (codes "; ")) (validation violations)
  rejection (kratos code reason message) = kratos code reason message
  rejection (caused code reason message cause) = caused code reason message cause
  rejection (other t) = other t

  -- ProtoValidator
  unfoldable pub proto_validator : Req → Option Failure
  unfolding rejection
  proto_validator req = elim (as_message req) [
    | none ↦ none
    | some msg ↦ elim (validate msg) [ none ↦ none | some e ↦ some (rejection e) ]
  ]

  -- toBadRequest
  unfoldable pub to_bad_request : Failure → Failure
  to_bad_request (kratos code reason message) = kratos code reason message
  to_bad_request (caused code reason message cause) = caused code reason message cause
  to_bad_request (validation violations) =
      bad_request (error_text (validation violations)) (validation violations)
  to_bad_request (other t) = bad_request (error_text (other t)) (other t)

  -- The request's own check
  unfoldable pub own_check : Req → Option Failure
  own_check req = elim (own_validate req) [ none ↦ none | some result ↦ result ]

  -- Validator
  unfoldable pub validator :
      {Ctx Rep : Type 0} → (Ctx → Req → Result Failure Rep) → Ctx → Req → Result Failure Rep
  unfolding own_check
  validator handler ctx req = elim (own_check req) [
    | some e ↦ err (to_bad_request e)
    | none ↦ elim (proto_validator req) [ some e ↦ err (to_bad_request e) | none ↦ handler ctx req ]
  ]
