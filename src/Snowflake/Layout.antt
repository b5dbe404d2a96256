-- ===== src/Snowflake/Layout.antt =====
-- The bit layout of an identifier: what packing gives, and that the three fields are read back.
use kratos_micro_layout.Prelude.{ℕ, ◌+◌, ◌*◌, ◌/◌, ◌%◌, ◌^◌, ◌≤◌, ◌<◌, ◌≡◌, refl, arith}
use kratos_micro_layout.Prelude.Int.{pos}
use kratos_micro_layout.Word.{shl64, shr64, or64, and64, add64, bit_or_fields, bit_and_mask}
use kratos_micro_layout.Snowflake.{node_max, step_mask, pack, node_of, step_of, time_shift}

pub node_max_lem : node_max ≡ pos 1023
unfolding node_max
node_max_lem = refl

pub step_mask_lem : step_mask ≡ pos 4095
unfolding step_mask
step_mask_lem = refl

-- The number that the fields spell.
abbrev pub layout : ℕ → ℕ → ℕ → ℕ
layout t k s = t * 2 ^ 22 + k * 2 ^ 12 + s

pub pack-layout :
    (t k s : ℕ)
    → t < 2 ^ 41
    → k ≤ 1023
    → s ≤ 4095
    → pack (pos t) (pos k) (pos s) ≡ pos (layout t k s)
unfolding pack shl64 or64
pack-layout t k s ht hk hs = ground (
  arith,
  bit_or_fields 22 t (k * 2 ^ 12) (omega arith),
  bit_or_fields 12 (t * 2 ^ 10 + k) s (omega arith),
)

-- The three fields of an identifier that was packed from values in range.
pub node_of-layout :
    (t k s : ℕ) → t < 2 ^ 41 → k ≤ 1023 → s ≤ 4095 → node_of (pos (layout t k s)) ≡ pos k
unfolding node_of shr64 and64
node_of-layout t k s ht hk hs =
    rw node_max_lem (ground (arith, bit_and_mask 10 (layout t k s / 2 ^ 12)))

pub step_of-layout :
    (t k s : ℕ) → t < 2 ^ 41 → k ≤ 1023 → s ≤ 4095 → step_of (pos (layout t k s)) ≡ pos s
unfolding step_of and64
step_of-layout t k s ht hk hs = rw step_mask_lem (ground (arith, bit_and_mask 12 (layout t k s)))

pub shr64-layout : (t k s : ℕ) → k ≤ 1023 → s ≤ 4095 → shr64 (pos (layout t k s)) time_shift ≡ pos t
unfolding shr64
shr64-layout t k s hk hs = ground arith

-- Adding one to a sequence number and masking it counts modulo 4096.
pub next_step : (s : ℕ) → s ≤ 4095 → and64 (add64 (pos s) (pos 1)) step_mask ≡ pos ((s + 1) % 4096)
unfolding and64 add64
next_step s h = rw step_mask_lem (ground (arith, bit_and_mask 12 (s + 1)))
