-- ===== src/Middleware/Validate/Laws.antt =====
-- Which requests reach a handler, and what a client reads in a rejection.
use kratos_micro_layout.Prelude.{
  ◌≡◌, ◌↔◌, ◌⊎◌, inl, inr, refl, ap, ◌∙◌, arith, ◌&&◌, ◌||◌, Bool, false, Option, none, some,
  Option-cases, List, [], ◌∷◌, ◌++◌, map, All, Text, codes, ◌==◌, if◌then◌else◌,
}
use kratos_micro_layout.Prelude.Result.{Result, err}
use kratos_micro_layout.Text.{join, prepend}
use kratos_micro_layout.Middleware.Validate.{
  Violation, Failure, kratos, caused, validation, other, violation_text, bad_request, rejection,
  proto_validator, to_bad_request, own_check, validator,
}

-- An error of kratos, which carries its code to the client.
abbrev pub IsKratosError : Failure → Type 0
IsKratosError (kratos code reason message) = Unit {0}
IsKratosError (caused code reason message cause) = Unit {0}
IsKratosError (validation violations) = ⊥
IsKratosError (other t) = ⊥

-- How a client splits the message of a rejection at "; ".
unfoldable pub split_parts : Text → List Text
split_parts [] = [] ∷ []
split_parts (c ∷ []) = (c ∷ []) ∷ []
split_parts (c ∷ d ∷ s) =
    let behind = [] ∷ split_parts s in
    let on = prepend c (split_parts (d ∷ s)) in if c == b';' && d == b' ' then behind else on

-- The text has no "; ".
unfoldable pub has_separator : Text → Bool
has_separator [] = false
has_separator (c ∷ []) = false
has_separator (c ∷ d ∷ s) = (c == b';' && d == b' ') || has_separator (d ∷ s)

split_parts-append :
    (t rest : Text)
    → has_separator t ≡ false
    → split_parts (t ++ (codes "; " ++ rest)) ≡ t ∷ split_parts rest
unfolding split_parts has_separator
split_parts-append [] rest h = refl
split_parts-append (c ∷ []) rest h = ground arith
split_parts-append (c ∷ d ∷ t) rest h = ground (arith, split_parts-append (d ∷ t) rest)

split_parts_last : (t : Text) → has_separator t ≡ false → split_parts t ≡ t ∷ []
unfolding split_parts has_separator
split_parts_last [] h = refl
split_parts_last (c ∷ []) h = refl
split_parts_last (c ∷ d ∷ t) h = ground (arith, split_parts_last (d ∷ t))

-- The parts of a joined text are read back by splitting it.
split_parts-join :
    (t : Text) (ts : List Text)
    → All (λ s. has_separator s ≡ false) (t ∷ ts)
    → split_parts (join (t ∷ ts) (codes "; ")) ≡ t ∷ ts
unfolding join
split_parts-join t [] (h, hs) = split_parts_last t h
split_parts-join t (u ∷ ts) (h, hs) =
    split_parts-append t (join (u ∷ ts) (codes "; ")) h ∙ ap (λ l. t ∷ l) (split_parts-join u ts hs)

module _ {M Req : Type 0} (as_message : Req → Option M) (validate : M → Option Failure)
    (own_validate : Req → Option (Option Failure)) (error_text : Failure → Text) where
  -- The request's own method, if it has one, finds nothing, and neither do the rules of its
  -- message, if it is one.
  abbrev pub IsAccepted : Req → Type 0
  IsAccepted req =
      ((own_validate req ≡ none) ⊎ (own_validate req ≡ some none))
      × ((as_message req ≡ none) ⊎ ((m : M) × (as_message req ≡ some m) × (validate m ≡ none)))

  to_bad_request-IsKratosError :
      (e : Failure) → IsKratosError (to_bad_request as_message validate own_validate error_text e)
  unfolding to_bad_request
  to_bad_request-IsKratosError (kratos code reason message) = tt
  to_bad_request-IsKratosError (caused code reason message cause) = tt
  to_bad_request-IsKratosError (validation violations) = tt
  to_bad_request-IsKratosError (other t) = tt

  pub own_check_iff :
      (req : Req)
      → (own_check as_message validate own_validate error_text req ≡ none)
        ↔ ((own_validate req ≡ none) ⊎ (own_validate req ≡ some none))
  unfolding own_check
  own_check_iff req = ground arith

  proto_validator_iff :
      (req : Req)
      → (proto_validator as_message validate own_validate error_text req ≡ none)
        ↔ ((as_message req ≡ none) ⊎ ((m : M) × (as_message req ≡ some m) × (validate m ≡ none)))
  unfolding proto_validator
  proto_validator_iff req = (
    λ h. elim (Option-cases (as_message req)) [
      | inl plain ↦ inl plain
      | inr (m, found) ↦ inr (m, found, ground (arith, found))
    ],
    λ passes. elim passes [
      | inl plain ↦ rw (plain, proto_validator) refl
      | inr (m, found, good) ↦ rw (found, good, proto_validator) refl
    ],
  )

  rejected_own :
      (req : Req) (e : Failure)
      → own_check as_message validate own_validate error_text req ≡ some e
      → ¬ IsAccepted req
  rejected_own req e found (own, rules) = cc (found, (own_check_iff req).1 own)

  rejected_rules :
      (req : Req) (e : Failure)
      → proto_validator as_message validate own_validate error_text req ≡ some e
      → ¬ IsAccepted req
  rejected_rules req e found (own, rules) = cc (found, (proto_validator_iff req).1 rules)

  -- A request that its own method and the rules of its message accept reaches the handler, and every
  -- other request is answered with an error of kratos, whatever the handler is.
  pub validator_outcome :
      {Ctx Rep : Type 0} (handler : Ctx → Req → Result Failure Rep) (ctx : Ctx) (req : Req)
      → (IsAccepted req
          × (validator as_message validate own_validate error_text handler ctx req
              ≡ handler ctx req))
        ⊎ ((¬ IsAccepted req)
            × (e : Failure) × IsKratosError e
            × (validator as_message validate own_validate error_text handler ctx req ≡ err e))
  unfolding validator
  validator_outcome handler ctx req =
      elim (Option-cases (own_check as_message validate own_validate error_text req)) [
        | inr (e, own) ↦ inr (
          rejected_own req e own,
          to_bad_request as_message validate own_validate error_text e,
          to_bad_request-IsKratosError e,
          rw (own, validator) refl,
        )
        | inl passes ↦
            elim (Option-cases (proto_validator as_message validate own_validate error_text req)) [
              | inr (e, bad) ↦ inr (
                rejected_rules req e bad,
                to_bad_request as_message validate own_validate error_text e,
                to_bad_request-IsKratosError e,
                rw (passes, bad, validator) refl,
              )
              | inl good ↦ inl (
                (((own_check_iff req).0 passes), (proto_validator_iff req).0 good),
                rw (passes, good, validator) refl,
              )
            ]
      ]

  -- The message of a rejection by the rules, split at "; ", is the texts of all violations in
  -- order, if none of them has this separator.
  pub proto_validator-split_parts :
      (req : Req) (m : M) (v : Violation) (vs : List Violation)
      → as_message req ≡ some m
      → validate m ≡ some (validation (v ∷ vs))
      → All (λ s. has_separator s ≡ false) (map violation_text (v ∷ vs))
      → (message : Text) × (proto_validator as_message validate own_validate error_text req
          ≡ some (bad_request message (validation (v ∷ vs))))
        × (split_parts message ≡ map violation_text (v ∷ vs))
  unfolding proto_validator rejection
  proto_validator-split_parts req m v vs found bad plain = (
    join (map violation_text (v ∷ vs)) (codes "; "),
    rw (found, bad, proto_validator) refl,
    split_parts-join (violation_text v) (map violation_text vs) plain,
  )

  -- A failure of protovalidate that is no list of violations is answered with the code 400.
  pub validator_internal :
      {Ctx Rep : Type 0} (handler : Ctx → Req → Result Failure Rep) (ctx : Ctx) (req : Req) (m : M)
      (t : Text)
      → (own_validate req ≡ none) ⊎ (own_validate req ≡ some none)
      → as_message req ≡ some m
      → validate m ≡ some (other t)
      → (proto_validator as_message validate own_validate error_text req ≡ some (other t))
        × (validator as_message validate own_validate error_text handler ctx req
            ≡ err (bad_request (error_text (other t)) (other t)))
  unfolding proto_validator validator rejection to_bad_request
  validator_internal handler ctx req m t own found bad =
      let passes = (own_check_iff req).1 own in
      let failed : proto_validator as_message validate own_validate error_text req
          ≡ some (other t) =
        rw (found, bad, proto_validator) refl in
      (failed, rw (passes, failed, validator) refl)
