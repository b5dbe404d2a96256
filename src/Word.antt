-- ===== src/Word.antt =====
-- The int64 and uint32 arithmetic of Go: two's complement, with wrap-around written out.
mod Bits
pub use Bits.{bit_or_fields, bit_and_mask}
use Prim.Native.Nat.{bit_or, bit_and, bit_xor}
use kratos_micro_layout.Prelude.{
  ℕ, ◌+◌, ◌-◌, ◌*◌, ◌/◌, ◌%◌, ◌^◌, ◌≤◌, ◌<◌, ◌≡◌, refl, arith, ltb, if◌then◌else◌,
}
use kratos_micro_layout.Prelude.Int.{
  ℤ, pos, negsuc, pos_part, neg_part, ◌+ℤ◌, ◌-ℤ◌, ◌*ℤ◌, ◌≤ℤ◌, ◌<ℤ◌, eq_of_parts, -ℤ_parts,
}

abbrev pub word_size : ℕ
word_size = 2 ^ 64

-- The 64-bit pattern of an integer, and the int64 that a pattern stands for.
abbrev pub to_word : ℤ → ℕ
to_word (pos n) = n % word_size
to_word (negsuc n) = word_size - 1 - n % word_size

abbrev pub of_word : ℕ → ℤ
of_word w = if ltb w (2 ^ 63) then pos w else negsuc (word_size - 1 - w)

abbrev pub wrap64 : ℤ → ℤ
wrap64 z = of_word (to_word z)

-- An integer that an int64 can hold.
abbrev pub IsInt64 : ℤ → Type 0
IsInt64 z = (pos_part z < 2 ^ 63) × (neg_part z ≤ 2 ^ 63)

unfoldable pub add64 : ℤ → ℤ → ℤ
unfolding ◌+ℤ◌
add64 a b = wrap64 (a +ℤ b)

unfoldable pub sub64 : ℤ → ℤ → ℤ
unfolding ◌-ℤ◌
sub64 a b = wrap64 (a -ℤ b)

unfoldable pub mul64 : ℤ → ℤ → ℤ
unfolding ◌*ℤ◌
mul64 a b = wrap64 (a *ℤ b)

-- `a << k`
unfoldable pub shl64 : ℤ → ℕ → ℤ
shl64 a k = of_word (to_word a * 2 ^ k % word_size)

-- `a >> k` of a signed number rounds down.
unfoldable pub shr64 : ℤ → ℕ → ℤ
shr64 (pos n) k = pos (n / 2 ^ k)
shr64 (negsuc n) k = negsuc (n / 2 ^ k)

unfoldable pub or64 : ℤ → ℤ → ℤ
or64 a b = of_word (bit_or (to_word a) (to_word b))

unfoldable pub and64 : ℤ → ℤ → ℤ
and64 a b = of_word (bit_and (to_word a) (to_word b))

unfoldable pub xor64 : ℤ → ℤ → ℤ
xor64 a b = of_word (bit_xor (to_word a) (to_word b))

pub wrap64_id : (z : ℤ) → IsInt64 z → wrap64 z ≡ z
wrap64_id (pos n) h = ground arith
wrap64_id (negsuc n) h = ground arith

pub wrap64-IsInt64 : (z : ℤ) → IsInt64 (wrap64 z)
wrap64-IsInt64 (pos n) = ground arith
wrap64-IsInt64 (negsuc n) = ground arith

-- Where the exact result fits an int64, that is the result.
pub sub64_exact : (a b : ℤ) → IsInt64 (a -ℤ b) → sub64 a b ≡ a -ℤ b
unfolding sub64
sub64_exact a b h = wrap64_id (a -ℤ b) h

pub add64_exact : (a b : ℤ) → IsInt64 (a +ℤ b) → add64 a b ≡ a +ℤ b
unfolding add64
add64_exact a b h = wrap64_id (a +ℤ b) h

pub mul64_exact : (a b : ℤ) → IsInt64 (a *ℤ b) → mul64 a b ≡ a *ℤ b
unfolding mul64
mul64_exact a b h = wrap64_id (a *ℤ b) h

pub sub64_self : (a : ℤ) → IsInt64 a → sub64 a a ≡ pos 0
unfolding sub64
sub64_self a h =
    ground (arith, eq_of_parts (a -ℤ a) (pos 0), -ℤ_parts a a, wrap64_id (pos 0) (omega arith))
