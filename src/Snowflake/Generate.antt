-- ===== src/Snowflake/Generate.antt =====
-- Generate: what a call does to its node, and what it returns.
use kratos_micro_layout.Prelude.{
  ℕ, suc, ◌+◌, ◌%◌, ◌^◌, ◌≤◌, ◌<◌, ◌≡◌, refl, arith, false, some, List, ◌∷◌, ◌⊎◌, inl, inr,
  Option-cases, Bool-cases, [],
}
use kratos_micro_layout.Prelude.Int.{ℤ, pos, negsuc, pos_part, neg_part, eq_pos, ltb_ℤ, leb_ℤ}
use kratos_micro_layout.Prelude.Result.{Result, ok, err}
use kratos_micro_layout.Prelude.Partial.{◌>>=◌, >>=-eq-some}
use kratos_micro_layout.Word.{sub64, mul64, and64, add64}
use kratos_micro_layout.Time.{millisecond}
use kratos_micro_layout.Snowflake.{
  drift_tolerance, Node, Error, clock_backwards, spin, pack, issue, generate, step_mask,
}
use kratos_micro_layout.Snowflake.Spin.{spin_stops}
use kratos_micro_layout.Snowflake.Layout.{layout, pack-layout, next_step}

-- A node between two calls.
pub record IsValid (n : Node) : Type 0 where
  pub node_nonneg : neg_part n.node ≡ 0
  pub node_le : pos_part n.node ≤ 1023
  pub time_nonneg : neg_part n.time ≡ 0
  pub step_nonneg : neg_part n.step ≡ 0
  pub step_le : pos_part n.step ≤ 4095

-- Its clock has not passed the 41 bits of the timestamp field.
abbrev pub InRange : Node → Type 0
InRange n = pos_part n.time < 2 ^ 41

-- The identifier that the node gave out last, as a number.
abbrev pub last_id : Node → ℕ
last_id n = layout (pos_part n.time) (pos_part n.node) (pos_part n.step)

next_step_bounds :
    (z : ℤ)
    → neg_part z ≡ 0
    → pos_part z ≤ 4095
    → (neg_part (and64 (add64 z (pos 1)) step_mask) ≡ 0)
      × (pos_part (and64 (add64 z (pos 1)) step_mask) ≡ (pos_part z + 1) % 4096)
next_step_bounds (pos s) h k = rw (next_step s k) (refl, refl)
next_step_bounds (negsuc s) h k = absurd (omega arith)

-- The node keeps its identity and moves on in time, or in the sequence of one millisecond.
abbrev pub Advances : Node → Node → Type 0
Advances n n' =
    (n'.epoch ≡ n.epoch)
    × (n'.node ≡ n.node)
    × (neg_part n'.time ≡ 0)
    × (neg_part n'.step ≡ 0)
    × (pos_part n'.step ≤ 4095)
    × ((pos_part n.time < pos_part n'.time)
        ⊎ ((pos_part n.time ≡ pos_part n'.time) × (pos_part n'.step ≡ suc (pos_part n.step))))

module _ (n : Node) (valid : IsValid n) where
  pub issue-Advances :
      (now : ℤ) (rs : List ℤ) {n' : Node} {r : Result Error ℤ} {rest : List ℤ}
      → ltb_ℤ now n.time ≡ false
      → issue n (now, rs) ≡ some (n', r, rest)
      → (r ≡ ok (pack n'.time n'.node n'.step)) × Advances n n'
  unfolding issue
  issue-Advances now rs {n'} {r} {rest} late h =
      elim (Option-cases (spin (λ t. leb_ℤ t n.time) n.epoch now rs)) [
        | inl waits ↦ ground (arith, next_step_bounds n.step, waits)
        | inr ((t, left), stops) ↦ ground (
          arith,
          next_step_bounds n.step,
          stops,
          spin_stops (λ t. leb_ℤ t n.time) n.epoch now rs stops,
        )
      ]

  -- The same behind the wait for a clock that went back a little.
  pub resume-Advances :
      (now : ℤ) (rs : List ℤ) {n' : Node} {r : Result Error ℤ} {rest : List ℤ}
      → (spin (λ t. ltb_ℤ t n.time) n.epoch now rs >>= issue n) ≡ some (n', r, rest)
      → (r ≡ ok (pack n'.time n'.node n'.step)) × Advances n n'
  resume-Advances now rs h =
      let waiting = λ (t : ℤ). ltb_ℤ t n.time in
      let ((t, left), stops, issued) = >>=-eq-some (spin waiting n.epoch now rs) (issue n) h in
      issue-Advances t left (spin_stops waiting n.epoch now rs stops) issued

  -- Every outcome is an identifier that the node packs, or a refusal that leaves the node alone.
  pub generate-cases :
      (rs : List ℤ) {n' : Node} {r : Result Error ℤ} {rest : List ℤ}
      → generate n rs ≡ some (n', r, rest)
      → ((r ≡ ok (pack n'.time n'.node n'.step)) × Advances n n')
        ⊎ ((n' ≡ n) × ((e : Error) × (r ≡ err e)))
  unfolding generate
  generate-cases [] h = cc
  generate-cases (r ∷ rs) {n'} {r = out} {rest} h =
      elim (Bool-cases (ltb_ℤ (sub64 r n.epoch) n.time)) [
        | inr late ↦ inl (issue-Advances (sub64 r n.epoch) rs late (rw late at h))
        | inl early ↦
            let drift = mul64 (sub64 n.time (sub64 r n.epoch)) millisecond in
            elim (Bool-cases (ltb_ℤ drift_tolerance drift)) [
              | inl far ↦
                  inr (ground arith, (clock_backwards drift n.time (sub64 r n.epoch), ground arith))
              | inr near ↦ inl (resume-Advances (sub64 r n.epoch) rs (rw (early, near) at h))
            ]
      ]

-- A call of Generate that returns, with an identifier or with an error, leaves a valid node valid:
-- its id is in [0, 1023], its sequence in [0, 4095], and its time is not negative.
pub generate-IsValid :
    (n : Node) (rs : List ℤ) {n' : Node} {r : Result Error ℤ} {rest : List ℤ}
    → IsValid n
    → generate n rs ≡ some (n', r, rest)
    → IsValid n'
generate-IsValid n rs valid h = ground (arith, generate-cases n valid rs h)

-- In range, packing spells the fields of a valid node.
pub pack-last_id : (n : Node) → IsValid n → InRange n → pack n.time n.node n.step ≡ pos (last_id n)
pack-last_id n valid fits = cc (
  eq_pos n.time valid.time_nonneg,
  eq_pos n.node valid.node_nonneg,
  eq_pos n.step valid.step_nonneg,
  pack-layout (pos_part n.time) (pos_part n.node) (pos_part n.step) fits valid.node_le
      valid.step_le,
)

-- What a successful call returns, and how its node moves.
pub generate-ok :
    (n : Node) (rs : List ℤ) {n' : Node} {id : ℤ} {rest : List ℤ}
    → IsValid n
    → generate n rs ≡ some (n', ok id, rest)
    → (id ≡ pack n'.time n'.node n'.step) × Advances n n'
generate-ok n rs valid h = ground (arith, generate-cases n valid rs h)

-- What a call returns is the number that its node's fields spell afterwards, which is greater than
-- the number that they spelled before: the identifiers of one node strictly increase.
pub generate-increases :
    (n : Node) (rs : List ℤ) {n' : Node} {id : ℤ} {rest : List ℤ}
    → IsValid n
    → generate n rs ≡ some (n', ok id, rest)
    → InRange n'
    → (id ≡ pos (last_id n')) × (last_id n < last_id n')
generate-increases n rs {n'} {id} valid h fits =
    ground (arith, generate-ok n rs valid h, pack-last_id n' (generate-IsValid n rs valid h) fits)
