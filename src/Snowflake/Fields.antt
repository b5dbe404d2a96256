-- ===== src/Snowflake/Fields.antt =====
-- Reading the fields of an identifier that Generate gave out.
use mathlib.Core.Path.{subst}
use kratos_micro_layout.Prelude.{
  ◌≡◌, arith, some, List, [], ◌∷◌, ◌⊎◌, inl, inr, sym, ◌∙◌, Option-cases, Bool-cases, All, Any,
}
use kratos_micro_layout.Prelude.Int.{ℤ, pos, pos_part, eq_pos, ltb_ℤ, leb_ℤ}
use kratos_micro_layout.Prelude.Result.{Result, ok}
use kratos_micro_layout.Prelude.Partial.{>>=-eq-some}
use kratos_micro_layout.Word.{add64, sub64, shr64, mul64}
use kratos_micro_layout.Time.{Instant, unix_milli, IsModern, unix_milli-of_unix_milli, millisecond}
use kratos_micro_layout.Snowflake.{
  Node, Error, generate, issue, spin, node_of, step_of, time_with_epoch, time_shift,
  drift_tolerance,
}
use kratos_micro_layout.Snowflake.Layout.{node_of-layout, step_of-layout, shr64-layout}
use kratos_micro_layout.Snowflake.Generate.{
  IsValid, InRange, last_id, generate-IsValid, generate-increases, generate-ok,
}
use kratos_micro_layout.Snowflake.Spin.{AnyReading, spin_reads, spin_keeps}

pub last_id_fields :
    (n : Node)
    → IsValid n
    → InRange n
    → (node_of (pos (last_id n)) ≡ n.node)
      × (step_of (pos (last_id n)) ≡ n.step)
      × (shr64 (pos (last_id n)) time_shift ≡ n.time)
last_id_fields n v fits =
    let t = pos_part n.time in
    let k = pos_part n.node in
    let s = pos_part n.step in
    (
      node_of-layout t k s fits v.node_le v.step_le ∙ sym (eq_pos n.node v.node_nonneg),
      step_of-layout t k s fits v.node_le v.step_le ∙ sym (eq_pos n.step v.step_nonneg),
      shr64-layout t k s v.node_le v.step_le ∙ sym (eq_pos n.time v.time_nonneg),
    )

-- The parts of an identifier that was just issued are those of its node: its id, its sequence
-- number and its time.
pub generate-fields :
    (n : Node) (rs : List ℤ) {n' : Node} {id : ℤ} {rest : List ℤ}
    → IsValid n
    → generate n rs ≡ some (n', ok id, rest)
    → InRange n'
    → (node_of id ≡ n.node) × (step_of id ≡ n'.step) × (shr64 id time_shift ≡ n'.time)
generate-fields n rs {n'} valid h fits =
    let after = generate-IsValid n rs valid h in
    let (same, more) = generate-increases n rs valid h fits in
    let (node, step, time) = last_id_fields n' after fits in
    let (packed, moved) = generate-ok n rs valid h in rw same (node ∙ moved.1, step, time)

same_time :
    {t u : ℤ} (now epoch : ℤ) (rs : List ℤ)
    → t ≡ u
    → (u ≡ now) ⊎ AnyReading (λ x. u ≡ x) epoch rs
    → (t ≡ now) ⊎ AnyReading (λ x. t ≡ x) epoch rs
same_time now epoch rs e = subst (λ y. (y ≡ now) ⊎ AnyReading (λ x. y ≡ x) epoch rs) (sym e)

module _ (n : Node) where
  issue-reads :
      (now : ℤ) (rs : List ℤ) {n' : Node} {r : Result Error ℤ} {rest : List ℤ}
      → issue n (now, rs) ≡ some (n', r, rest)
      → (n'.time ≡ now) ⊎ AnyReading (λ x. n'.time ≡ x) n.epoch rs
  unfolding issue
  issue-reads now rs {n'} {r} {rest} h =
      elim (Option-cases (spin (λ t. leb_ℤ t n.time) n.epoch now rs)) [
        | inl waits ↦ inl (ground (arith, waits))
        | inr ((t, left), stops) ↦
            let seen : (n'.time ≡ now) ⊎ (n'.time ≡ t) = ground (arith, stops) in
            elim seen [
              | inl e ↦ inl e
              | inr e ↦
                  same_time now n.epoch rs e (spin_reads (λ t. leb_ℤ t n.time) n.epoch now rs stops)
            ]
      ]

  generate-reads :
      (rs : List ℤ) {n' : Node} {id : ℤ} {rest : List ℤ}
      → generate n rs ≡ some (n', ok id, rest)
      → AnyReading (λ x. n'.time ≡ x) n.epoch rs
  unfolding generate
  generate-reads [] h = cc
  generate-reads (r ∷ rs) {n'} {id} h =
      let now = sub64 r n.epoch in
      let drift = mul64 (sub64 n.time now) millisecond in
      let waiting = λ (t : ℤ). ltb_ℤ t n.time in
      elim (Bool-cases (ltb_ℤ now n.time)) [
        | inr late ↦ issue-reads now rs (rw late at h)
        | inl early ↦ elim (Bool-cases (ltb_ℤ drift_tolerance drift)) [
          | inl far ↦ cc (rw (early, far) at h)
          | inr near ↦
              let ((t, left), stops, issued) =
                >>=-eq-some (spin waiting n.epoch now rs) (issue n) (rw (early, near) at h) in
              elim (issue-reads t left issued) [
                | inl e ↦ same_time now n.epoch rs e (spin_reads waiting n.epoch now rs stops)
                | inr later ↦ inr (spin_keeps waiting n.epoch (λ x. n'.time ≡ x) now rs stops later)
              ]
        ]
      ]

sub_add : (r e : ℤ) → IsModern r → IsModern e → add64 (sub64 r e) e ≡ r
unfolding add64 sub64
sub_add r e hr he = ground arith

-- The time that is decoded from a new identifier, with the epoch of its node, is a reading that
-- the call took from the clock, as long as the readings and the epoch are within 2^61 ms of 1970.
pub generate-time_with_epoch :
    (n : Node) (epoch : Instant) (rs : List ℤ) {n' : Node} {id : ℤ} {rest : List ℤ}
    → IsValid n
    → n.epoch ≡ unix_milli epoch
    → IsModern n.epoch
    → All IsModern rs
    → generate n rs ≡ some (n', ok id, rest)
    → InRange n'
    → Any (λ r. unix_milli (time_with_epoch id epoch) ≡ r) rs
unfolding time_with_epoch
generate-time_with_epoch n epoch rs {n'} {id} valid base em rm h fits =
    decoded rs rm (generate-reads n rs h)
  where
    decoded :
        (xs : List ℤ)
        → All IsModern xs
        → AnyReading (λ x. n'.time ≡ x) n.epoch xs
        → Any (λ r. unix_milli (time_with_epoch id epoch) ≡ r) xs
    decoded [] m a = a
    decoded (x ∷ xs) (m, ms) (inl e) = inl (
        rw ((generate-fields n rs valid h fits).2, e, ← base, sub_add x n.epoch m em)
          (unix_milli-of_unix_milli x m))
    decoded (x ∷ xs) (m, ms) (inr a) = inr (decoded xs ms a)
