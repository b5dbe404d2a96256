-- ===== src/Snowflake/Spin.antt =====
-- The waiting loops of Generate.
use mathlib.Core.Path.{subst}
use kratos_micro_layout.Prelude.{
  ◌≡◌, Bool, false, some, List, [], ◌∷◌, ◌⊎◌, inl, inr, arith, Bool-cases, Any,
}
use kratos_micro_layout.Prelude.Int.{ℤ}
use kratos_micro_layout.Word.{sub64}
use kratos_micro_layout.Snowflake.{spin}

-- Some reading of the list has the property, as a node with that epoch measures time.
abbrev pub AnyReading : (ℤ → Type 0) → ℤ → List ℤ → Type 0
AnyReading P epoch = Any (λ r. P (sub64 r epoch))

module _ (waiting : ℤ → Bool) (epoch : ℤ) where
  -- A loop that ends has seen a time at which it need not wait.
  pub spin_stops :
      (now : ℤ) (rs : List ℤ) {t : ℤ} {rest : List ℤ}
      → spin waiting epoch now rs ≡ some (t, rest)
      → waiting t ≡ false
  unfolding spin
  spin_stops now [] h = ground arith
  spin_stops now (r ∷ rs) {t} {rest} h =
      ground (arith, spin_stops (sub64 r epoch) rs {t = t} {rest = rest})

  -- That time is the one it started with, or a reading.
  pub spin_reads :
      (now : ℤ) (rs : List ℤ) {t : ℤ} {rest : List ℤ}
      → spin waiting epoch now rs ≡ some (t, rest)
      → (t ≡ now) ⊎ AnyReading (λ x. t ≡ x) epoch rs
  unfolding spin
  spin_reads now [] h = ground arith
  spin_reads now (r ∷ rs) {t} {rest} h =
      ground (arith, spin_reads (sub64 r epoch) rs {t = t} {rest = rest})

  -- A loop ends if a reading ends its wait, and it drops no such reading.
  pub spin_ends :
      (Q : ℤ → Type 0)
      → ((x : ℤ) → Q x → waiting x ≡ false)
      → (now : ℤ) (rs : List ℤ) → Q now ⊎ AnyReading Q epoch rs
      → (t : ℤ) × (rest : List ℤ) × (spin waiting epoch now rs ≡ some (t, rest))
        × (Q t ⊎ AnyReading Q epoch rest)
  unfolding spin
  spin_ends Q stop now [] (inl q) = (now, [], rw (stop now q), inl q)
  spin_ends Q stop now [] (inr h) = absurd h
  spin_ends Q stop now (r ∷ rs) (inl q) = (now, r ∷ rs, rw (stop now q), inl q)
  spin_ends Q stop now (r ∷ rs) (inr h) = elim (Bool-cases (waiting now)) [
    | inl more ↦ rw more (spin_ends Q stop (sub64 r epoch) rs h)
    | inr done ↦ (now, r ∷ rs, rw done, inr h)
  ]

  -- The readings that a loop leaves are among those it was given.
  pub spin_keeps :
      (P : ℤ → Type 0) (now : ℤ) (rs : List ℤ) {t : ℤ} {rest : List ℤ}
      → spin waiting epoch now rs ≡ some (t, rest)
      → AnyReading P epoch rest
      → AnyReading P epoch rs
  unfolding spin
  spin_keeps P now [] {t} {rest} h p = elim (Bool-cases (waiting now)) [
    | inl more ↦ cc
    | inr done ↦ subst (AnyReading P epoch) {y = []} (cc (rw done at h)) p
  ]
  spin_keeps P now (r ∷ rs) {t} {rest} h p = elim (Bool-cases (waiting now)) [
    | inl more ↦ inr (spin_keeps P (sub64 r epoch) rs {t = t} {rest = rest} (rw more at h) p)
    | inr done ↦ subst (AnyReading P epoch) {y = r ∷ rs} (cc (rw done at h)) p
  ]
