-- ===== src/Time.antt =====
-- What the source uses of Go's time.Time: an instant is its Unix seconds and the nanoseconds in them.
use kratos_micro_layout.Prelude.{ℕ, ◌-◌, ◌*◌, ◌/◌, ◌%◌, ◌^◌, ◌<◌, ◌≡◌, Bool, ◌&&◌, arith, ◌==◌}
use kratos_micro_layout.Prelude.Int.{ℤ, pos, negsuc, pos_part, neg_part, eqb_ℤ}
use kratos_micro_layout.Word.{add64, mul64}

pub record Instant : Type 0 where
  pub sec : ℤ
  pub nsec : ℕ

-- Time.UnixMilli
unfoldable pub unix_milli : Instant → ℤ
unfolding add64 mul64
unix_milli t = add64 (mul64 t.sec (pos 1000)) (pos (t.nsec / 1000000))

-- Time.IsZero: the first instant of the year 1.
abbrev pub is_zero : Instant → Bool
is_zero t = eqb_ℤ t.sec (negsuc 62135596799) && t.nsec == 0

-- time.UnixMilli: the division rounds down.
unfoldable pub of_unix_milli : ℤ → Instant
of_unix_milli (pos n) = record { sec = pos (n / 1000); nsec = n % 1000 * 1000000 }
of_unix_milli (negsuc n) = record { sec = negsuc (n / 1000); nsec = (999 - n % 1000) * 1000000 }

-- Durations are int64 nanoseconds.
abbrev pub millisecond : ℤ
millisecond = pos 1000000

abbrev pub second : ℤ
second = pos 1000000000

-- An instant whose milliseconds fit an int64 with room for a sum of two.
abbrev pub IsModern : ℤ → Type 0
IsModern z = (pos_part z < 2 ^ 61) × (neg_part z < 2 ^ 61)

pub unix_milli-of_unix_milli : (z : ℤ) → IsModern z → unix_milli (of_unix_milli z) ≡ z
unfolding unix_milli of_unix_milli
unix_milli-of_unix_milli (pos n) h = ground arith
unix_milli-of_unix_milli (negsuc n) h = ground arith
