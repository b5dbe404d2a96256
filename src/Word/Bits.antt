-- ===== src/Word/Bits.antt =====
-- `|` of disjoint fields and `&` with a low mask, as arithmetic, at every width.
use Prim.Native.Nat.{bit_and, bit_or, digits, bit_and-bitwise, bit_or-bitwise, min, max}
use native.Mathlib.Nat.{pow-suc, one-le-pow}
use kratos_micro_layout.Prelude.{
  ℕ, zero, suc, ◌+◌, ◌-◌, ◌*◌, ◌/◌, ◌%◌, ◌^◌, ◌≤◌, ◌<◌, ◌≡◌, refl, ap, arith,
}

-- The recursion that both operations stand for gives the same digits under any sufficient fuel.
enough_fuel :
    (z : ℕ → ℕ) (f : ℕ → ℕ → ℕ) (k l a b : ℕ) → a ≤ k → a ≤ l → digits z f k a b ≡ digits z f l a b
enough_fuel z f zero zero zero b p q = refl
enough_fuel z f zero zero (suc a) b p q = refl
enough_fuel z f zero (suc l) zero b p q = refl
enough_fuel z f zero (suc l) (suc a) b p q = absurd (omega arith)
enough_fuel z f (suc k) zero zero b p q = refl
enough_fuel z f (suc k) zero (suc a) b p q = absurd (omega arith)
enough_fuel z f (suc k) (suc l) zero b p q = refl
enough_fuel z f (suc k) (suc l) (suc a) b p q =
    rw (enough_fuel z f k l (suc a / 2) (b / 2) (omega arith) (omega arith))

halve_fuel :
    (z : ℕ → ℕ) (f : ℕ → ℕ → ℕ) (a b : ℕ)
    → digits z f a (suc a / 2) b ≡ digits z f (suc a / 2) (suc a / 2) b
halve_fuel z f a b = enough_fuel z f a (suc a / 2) (suc a / 2) b (omega arith) (omega arith)

-- One binary digit at a time.
or_digit : (a b : ℕ) → bit_or a b ≡ bit_or (a / 2) (b / 2) * 2 + max (a % 2) (b % 2)
or_digit zero b = omega (arith, bit_or-bitwise zero b, bit_or-bitwise zero (b / 2))
or_digit (suc a) b = omega (
  arith,
  bit_or-bitwise (suc a) b,
  bit_or-bitwise (suc a / 2) (b / 2),
  halve_fuel (λ y. y) max a (b / 2),
)

and_digit : (a b : ℕ) → bit_and a b ≡ bit_and (a / 2) (b / 2) * 2 + min (a % 2) (b % 2)
and_digit zero b = omega (arith, bit_and-bitwise zero b, bit_and-bitwise zero (b / 2))
and_digit (suc a) b = omega (
  arith,
  bit_and-bitwise (suc a) b,
  bit_and-bitwise (suc a / 2) (b / 2),
  halve_fuel (λ y. 0) min a (b / 2),
)

or_none_below : (n a : ℕ) → a ≤ n → bit_or a 0 ≡ a
or_none_below n zero h = refl
or_none_below zero (suc a) h = absurd (omega arith)
or_none_below (suc n) (suc a) h =
    omega (arith, or_digit (suc a) 0, or_none_below n (suc a / 2) (omega arith))

and_none_below : (n a : ℕ) → a ≤ n → bit_and a 0 ≡ 0
and_none_below n zero h = refl
and_none_below zero (suc a) h = absurd (omega arith)
and_none_below (suc n) (suc a) h =
    omega (arith, and_digit (suc a) 0, and_none_below n (suc a / 2) (omega arith))

shift_suc : (q k : ℕ) → q * 2 ^ suc k ≡ q * 2 ^ k * 2
shift_suc q k = omega (arith, ap (λ (t : ℕ). q * t) (pow-suc 2 k))

-- `q << k | r` is a sum if `r` has at most `k` bits.
pub bit_or_fields : (k q r : ℕ) → r < 2 ^ k → bit_or (q * 2 ^ k) r ≡ q * 2 ^ k + r
bit_or_fields zero q r h = ground (arith, or_none_below q q (omega arith))
bit_or_fields (suc k) q r h = ground (
  arith,
  shift_suc q k,
  pow-suc 2 k,
  or_digit (q * 2 ^ suc k) r,
  bit_or_fields k q (r / 2) (omega (arith, pow-suc 2 k)),
)

and_low_bits : (k q r : ℕ) → r < 2 ^ k → bit_and (q * 2 ^ k + r) (2 ^ k - 1) ≡ r
and_low_bits zero q r h = ground (arith, and_none_below (q * 1 + r) (q * 1 + r) (omega arith))
and_low_bits (suc k) q r h = ground (
  arith,
  shift_suc q k,
  pow-suc 2 k,
  and_digit (q * 2 ^ suc k + r) (2 ^ suc k - 1),
  and_low_bits k q (r / 2) (omega (arith, pow-suc 2 k)),
)

-- `a & (1 << k - 1)` is the remainder by `2 ^ k`.
pub bit_and_mask : (k a : ℕ) → bit_and a (2 ^ k - 1) ≡ a % 2 ^ k
bit_and_mask k a = ground (arith, one-le-pow k 2, and_low_bits k (a / 2 ^ k) (a % 2 ^ k))
