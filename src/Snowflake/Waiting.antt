-- ===== src/Snowflake/Waiting.antt =====
-- When Generate returns, and when it refuses.
use mathlib.Core.Bool.{and-eq-true_iff}
use kratos_micro_layout.Prelude.{
  ◌+◌, ◌^◌, ◌<◌, ◌≡◌, arith, some, List, [], ◌∷◌, ◌≢◌, none, ◌&&◌, eq_some_of_ne_none, ◌⊎◌, inl,
  inr, Bool-cases, ◌↔◌, true,
}
use kratos_micro_layout.Prelude.Int.{
  ℤ, pos, negsuc, one_sided, pos_part, neg_part, ltb_ℤ, leb_ℤ, ◌+ℤ◌, ◌-ℤ◌, ◌*ℤ◌, ◌<ℤ◌, +ℤ_parts,
  -ℤ_parts,
}
use kratos_micro_layout.Prelude.Result.{Result, err}
use kratos_micro_layout.Word.{sub64, mul64, sub64_exact}
use kratos_micro_layout.Time.{millisecond}
use kratos_micro_layout.Snowflake.{Node, Error, clock_backwards, generate, issue, drift_tolerance}
use kratos_micro_layout.Snowflake.Spin.{AnyReading, spin_ends}
use kratos_micro_layout.Snowflake.Generate.{IsValid, issue-Advances, resume-Advances}

-- A node's clock is read as later than its last identifier.
abbrev pub IsLater : Node → ℤ → Type 0
IsLater n x = n.time <ℤ x

module _ (n : Node) where
  issue-ne-none :
      (now : ℤ) (rs : List ℤ)
      → IsLater n now ⊎ AnyReading (IsLater n) n.epoch rs
      → issue n (now, rs) ≢ none
  unfolding issue
  issue-ne-none now rs later =
      let (t, left, stops, more) =
        spin_ends (λ t. leb_ℤ t n.time) n.epoch (IsLater n) (λ x h. ground arith) now rs later in
      ground (arith, stops)

  generate-ne-none : (rs : List ℤ) → AnyReading (IsLater n) n.epoch rs → generate n rs ≢ none
  unfolding generate
  generate-ne-none [] later = absurd later
  generate-ne-none (r ∷ rs) later =
      let now = sub64 r n.epoch in
      let (t, left, stops, more) =
        spin_ends (λ t. ltb_ℤ t n.time) n.epoch (IsLater n) (λ x h. ground arith) now rs later in
      ground (arith, stops, issue-ne-none t left more, issue-ne-none now rs later)

-- Generate returns if one of the readings that the clock will give is later than the node's last
-- time, whatever the other readings are: neither waiting loop goes on for ever.
pub generate-returns :
    (n : Node) (rs : List ℤ)
    → AnyReading (IsLater n) n.epoch rs
    → (out : Node × Result Error ℤ × List ℤ) × (generate n rs ≡ some out)
generate-returns n rs later = eq_some_of_ne_none (generate n rs) (generate-ne-none n rs later)

-- The call ends with an error at its first reading, and its node is the one before the call.
abbrev pub IsRefused : Node → ℤ → List ℤ → Type 0
IsRefused n r rs = (e : Error) × (generate n (r ∷ rs) ≡ some (n, err e, rs))

abbrev pub IsNear : ℤ → Type 0
IsNear z = (pos_part z < 2 ^ 41) × (neg_part z < 2 ^ 41)

near_sub :
    (a b : ℤ)
    → pos_part a + neg_part b < 2 ^ 43
    → pos_part b + neg_part a < 2 ^ 43
    → sub64 a b ≡ a -ℤ b
near_sub a b p q = sub64_exact a b (ground (arith, -ℤ_parts a b, one_sided (a -ℤ b)))

-- The drift in nanoseconds that Generate compares, as milliseconds.
drift_lem :
    (z : ℤ)
    → (pos_part z < 2 ^ 43) × (neg_part z < 2 ^ 43)
    → ltb_ℤ drift_tolerance (mul64 z millisecond) ≡ ltb_ℤ (pos 5) z
unfolding mul64 ◌*ℤ◌
drift_lem (pos z) h = ground arith
drift_lem (negsuc z) h = ground arith

module _ (n : Node) (r : ℤ) (hr : IsNear r) (he : IsNear n.epoch) (ht : IsNear n.time) where
  abbrev drift_of : ℤ
  drift_of = n.time -ℤ (r -ℤ n.epoch)

  now_exact : sub64 r n.epoch ≡ r -ℤ n.epoch
  now_exact = near_sub r n.epoch (omega arith) (omega arith)

  drift_near : (pos_part drift_of < 2 ^ 43) × (neg_part drift_of < 2 ^ 43)
  drift_near = ground (
    arith,
    -ℤ_parts n.time (r -ℤ n.epoch),
    -ℤ_parts r n.epoch,
    one_sided drift_of,
    one_sided (r -ℤ n.epoch),
  )

  drift_exact : sub64 n.time (sub64 r n.epoch) ≡ drift_of
  drift_exact = rw now_exact (
      near_sub n.time (r -ℤ n.epoch) (ground (arith, -ℤ_parts r n.epoch, one_sided (r -ℤ n.epoch)))
        (ground (arith, -ℤ_parts r n.epoch, one_sided (r -ℤ n.epoch))))

  -- The two tests of Generate as one comparison of integers.
  refusal_test :
      (ltb_ℤ (sub64 r n.epoch) n.time
        && ltb_ℤ drift_tolerance (mul64 (sub64 n.time (sub64 r n.epoch)) millisecond))
      ≡ ltb_ℤ (r +ℤ pos 5) (n.epoch +ℤ n.time)
  refusal_test =
      rw (drift_exact, drift_lem drift_of drift_near, now_exact)
        (ground (
          arith,
          -ℤ_parts n.time (r -ℤ n.epoch),
          -ℤ_parts r n.epoch,
          +ℤ_parts r (pos 5),
          +ℤ_parts n.epoch n.time,
        ))

module _ (n : Node) (r : ℤ) (rs : List ℤ) (valid : IsValid n) where
  abbrev now : ℤ
  now = sub64 r n.epoch

  abbrev drift : ℤ
  drift = mul64 (sub64 n.time now) millisecond

  refuses_far : ltb_ℤ now n.time ≡ true → ltb_ℤ drift_tolerance drift ≡ true → IsRefused n r rs
  unfolding generate
  refuses_far early far = (clock_backwards drift n.time now, rw (early, far))

  refuses_needs : IsRefused n r rs → (ltb_ℤ now n.time && ltb_ℤ drift_tolerance drift) ≡ true
  unfolding generate
  refuses_needs (e, h) = elim (Bool-cases (ltb_ℤ now n.time)) [
    | inr late ↦ cc ((issue-Advances n valid now rs late (rw late at h)).0)
    | inl early ↦ elim (Bool-cases (ltb_ℤ drift_tolerance drift)) [
      | inl far ↦ rw (early, far)
      | inr near ↦ cc ((resume-Advances n valid now rs (rw (early, near) at h)).0)
    ]
  ]

-- Generate refuses exactly when its first reading is more than 5 ms before the time of the last
-- identifier, for readings, epochs and times within 2^41 ms of their origins; a clock that went
-- back by less is waited out.
pub refuses_iff :
    (n : Node) (r : ℤ) (rs : List ℤ)
    → IsValid n
    → IsNear r
    → IsNear n.epoch
    → IsNear n.time
    → IsRefused n r rs ↔ (r +ℤ pos 5 <ℤ n.epoch +ℤ n.time)
refuses_iff n r rs valid hr he ht =
    let test = refusal_test n r hr he ht in
    (
      λ x. ground (arith, refuses_needs n r rs valid x, test),
      λ lt.
          let both : ltb_ℤ (sub64 r n.epoch) n.time && ltb_ℤ drift_tolerance (drift n r rs valid)
              ≡ true =
            ground (arith, test) in
          let (early, far) = (and-eq-true_iff _ _).0 both in refuses_far n r rs valid early far,
    )
