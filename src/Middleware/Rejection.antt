-- ===== src/Middleware/Rejection.antt =====
-- What a client reads of a request that is turned away: the validation in front of the codec.
use kratos_micro_layout.Prelude.{
  ◌≡◌, ◌⊎◌, refl, ap, ◌∙◌, Option, none, some, List, ◌∷◌, [], map, All, Text, false,
}
use kratos_micro_layout.Prelude.Int.{ℤ, pos}
use kratos_micro_layout.Prelude.Result.{Result, ok, err}
use kratos_micro_layout.Http.{Writer}
use kratos_micro_layout.Middleware.Codec.{
  Libraries, Envelope, null_data, error_encoder, Carries, envelope_of, error_encoder_lem,
  write_envelope_lem,
}
use kratos_micro_layout.Middleware.Validate.{
  Violation, Failure, caused, validation, bad_request, validation_failed_reason, violation_text,
  validator, to_bad_request,
}
use kratos_micro_layout.Middleware.Validate.Laws.{
  split_parts, has_separator, own_check_iff, proto_validator-split_parts,
}

-- errors.FromError gives an error of kratos back.
abbrev pub Knows : {N V : Type 0} → Libraries N V Failure → Type 0
Knows l =
    (code : ℤ) (reason message : Text) (cause : Failure)
    → l.from_error (caused code reason message cause)
      ≡ some (record { code = code; reason = reason; message = message })

abbrev pub rejected_with : Text → Envelope
rejected_with message = record { code = pos 400; message = message; raw = null_data }

envelope-bad_request :
    {N V : Type 0} (l : Libraries N V Failure) (message : Text) (cause : Failure)
    → Knows l
    → envelope_of l (err (bad_request message cause)) ≡ rejected_with message
envelope-bad_request l message cause knows =
    rw (knows (pos 400) validation_failed_reason message cause) refl

module _ {M Req : Type 0} (as_message : Req → Option M) (validate : M → Option Failure)
    (own_validate : Req → Option (Option Failure)) (error_text : Failure → Text) where
  -- A request whose own method finds nothing and whose message breaks rules is answered, to a
  -- client that is still there and was sent nothing, with status 200, as JSON, and with an envelope
  -- of the code 400 whose message, split at "; ", is the texts of all violations, if none of them
  -- has this separator, errors of kratos are known as such and an envelope of this
  -- code without data can be marshalled.
  pub validator-Carries :
      {N V Ctx Rep : Type 0} (l : Libraries N V Failure) (render : Text → Text)
      (handler : Ctx → Req → Result Failure Rep) (ctx : Ctx) (req : Req) (m : M) (v : Violation)
      (vs : List Violation) (w : Writer)
      → Knows l
      → ((message : Text) → l.marshal_envelope (rejected_with message) ≡ ok (render message))
      → (own_validate req ≡ none) ⊎ (own_validate req ≡ some none)
      → as_message req ≡ some m
      → validate m ≡ some (validation (v ∷ vs))
      → All (λ s. has_separator s ≡ false) (map violation_text (v ∷ vs))
      → w.sent ≡ none
      → w.body ≡ []
      → w.gone ≡ false
      → (e : Failure) × (message : Text) × (validator as_message validate own_validate error_text
            handler ctx req
          ≡ err e)
        × (split_parts message ≡ map violation_text (v ∷ vs))
        × Carries l (render message) (error_encoder l e w)
  unfolding validator to_bad_request
  validator-Carries l render handler ctx req m v vs w knows renders own found bad plain unsent empty
        here =
      let passes = (own_check_iff as_message validate own_validate error_text req).1 own in
      let (message, rejected, splits) =
        proto_validator-split_parts as_message validate own_validate error_text req m v vs found bad
          plain in
      let e = bad_request message (validation (v ∷ vs)) in
      (
        e,
        message,
        rw (passes, rejected, validator) refl,
        splits,
        rw (error_encoder_lem l e w) (
            write_envelope_lem l (envelope_of l (err e)) w (render message)
              (ap l.marshal_envelope (envelope-bad_request l message (validation (v ∷ vs)) knows)
                ∙ renders message)
              unsent empty here),
      )
