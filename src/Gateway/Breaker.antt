-- ===== src/Gateway/Breaker.antt =====
-- The circuit breaker of app/gateway/internal/proxy/handler.go: the settings that it gives to
-- gobreaker. The floats of its failure ratio are a parameter.
use kratos_micro_layout.Prelude.{
  ℕ, ◌≤◌, ◌<◌, ◌≡◌, refl, arith, Bool, true, false, Option, none, some, Text, ltb, ◌==◌, Bool-cases,
  inl, inr, if◌then◌else◌,
}
use kratos_micro_layout.Prelude.Int.{ℤ, pos, leb_ℤ, ◌<ℤ◌}

-- The float64 operations in use, with what IEEE 754 gives of them: division is monotone in its
-- first argument, a number divided by itself is one, zero divided by a number is zero, and the
-- constant 0.6 is positive.
pub record Floats : Type 1 where
  pub Float : Type 0
  pub of_uint32 : ℕ → Float
  pub div : Float → Float → Float
  pub leb_float : Float → Float → Bool
  pub zero_float : Float
  pub one_float : Float
  pub six_tenths : Float
  pub div_mono :
      (r : Float) (a b n : ℕ)
      → a ≤ b
      → leb_float r (div (of_uint32 a) (of_uint32 n)) ≡ true
      → leb_float r (div (of_uint32 b) (of_uint32 n)) ≡ true
  pub div_self : (n : ℕ) → 0 < n → div (of_uint32 n) (of_uint32 n) ≡ one_float
  pub div_zero : (n : ℕ) → 0 < n → div (of_uint32 0) (of_uint32 n) ≡ zero_float
  pub six_tenths_pos : leb_float six_tenths zero_float ≡ false

pub record BreakerSettings (F : Type 0) : Type 0 where
  pub max_requests : ℕ
  pub interval : ℤ
  pub timeout : ℤ
  pub failure_ratio : F
  pub min_requests : ℕ

-- gobreaker.Counts, as far as it is read.
pub record Counts : Type 0 where
  pub requests : ℕ
  pub total_failures : ℕ

-- How a call of `forward` ended, for the breaker.
pub data ForwardError : Type 0 where
  upstream_error no_node : ForwardError

-- gobreaker.Settings
pub record Settings : Type 0 where
  pub name : Text
  pub max_requests : ℕ
  pub interval : ℤ
  pub timeout : ℤ
  pub ready_to_trip : Counts → Bool
  pub is_successful : Option ForwardError → Bool

unfoldable pub or_default : ℕ → ℕ → ℕ
or_default v def = if v == 0 then def else v

unfoldable pub or_default_duration : ℤ → ℤ → ℤ
or_default_duration v def = if leb_ℤ v (pos 0) then def else v

-- IsSuccessful: only a server error of the backend is a failure.
unfoldable pub is_successful : Option ForwardError → Bool
is_successful none = true
is_successful (some no_node) = true
is_successful (some upstream_error) = false

abbrev thirty_seconds : ℤ
thirty_seconds = pos 30000000000

module _ (f : Floats) where
  -- ReadyToTrip, for an effective sample size and ratio
  unfoldable pub ready_to_trip : ℕ → f.Float → Counts → Bool
  ready_to_trip min_requests ratio c =
      if ltb c.requests min_requests
      then false
      else f.leb_float ratio (f.div (f.of_uint32 c.total_failures) (f.of_uint32 c.requests))

  unfoldable pub effective_ratio : f.Float → f.Float
  effective_ratio r = if f.leb_float r f.zero_float then f.six_tenths else r

  unfoldable pub new_breaker : Text → Option (BreakerSettings f.Float) → Option Settings
  new_breaker name none = none
  new_breaker name (some s) = some (record {
    name = name;
    max_requests = or_default s.max_requests 5;
    interval = or_default_duration s.interval thirty_seconds;
    timeout = or_default_duration s.timeout thirty_seconds;
    ready_to_trip = ready_to_trip (or_default s.min_requests 20) (effective_ratio s.failure_ratio);
    is_successful = is_successful;
  })

  -- The breaker that is built from settings.
  abbrev pub configured : Text → BreakerSettings f.Float → Settings
  configured name s = record {
    name = name;
    max_requests = or_default s.max_requests 5;
    interval = or_default_duration s.interval thirty_seconds;
    timeout = or_default_duration s.timeout thirty_seconds;
    ready_to_trip = ready_to_trip (or_default s.min_requests 20) (effective_ratio s.failure_ratio);
    is_successful = is_successful;
  }

  effective_ratio-above : (r : f.Float) → f.leb_float (effective_ratio r) f.zero_float ≡ false
  unfolding effective_ratio
  effective_ratio-above r = ground (arith, f.six_tenths_pos)

  -- Without a failure no sample trips a breaker.
  ready_to_trip_none :
      (min_requests n : ℕ) (r : f.Float)
      → 0 < min_requests
      → ready_to_trip min_requests (effective_ratio r) (record { requests = n; total_failures = 0 })
        ≡ false
  unfolding ready_to_trip
  ready_to_trip_none min_requests n r some_sample = elim (Bool-cases (ltb n min_requests)) [
    | inl few ↦ rw few refl
    | inr enough ↦ rw (enough, f.div_zero n (ground arith)) (effective_ratio-above r)
  ]

  -- Whatever is configured, an enabled breaker probes with at least one request, its times are
  -- positive, and it trips neither before the first request nor without a failure.
  pub new_breaker-positive :
      (name : Text) (s : BreakerSettings f.Float) (failures requests : ℕ)
      → (b : Settings) × (new_breaker name (some s) ≡ some b)
        × (0 < b.max_requests)
        × (pos 0 <ℤ b.interval)
        × (pos 0 <ℤ b.timeout)
        × (b.ready_to_trip (record { requests = 0; total_failures = failures }) ≡ false)
        × (b.ready_to_trip (record { requests = requests; total_failures = 0 }) ≡ false)
  unfolding new_breaker or_default or_default_duration ready_to_trip
  new_breaker-positive name s failures requests = (
    configured name s,
    refl,
    ground arith,
    ground arith,
    ground arith,
    ground arith,
    ready_to_trip_none (or_default s.min_requests 20) requests s.failure_ratio (ground arith),
  )

  -- A breaker that trips on a count has seen the sample size that was configured, and trips on
  -- every count with as many requests and more failures.
  pub ready_to_trip_mono :
      (name : Text) (s : BreakerSettings f.Float) {b : Settings} (requests a c : ℕ)
      → new_breaker name (some s) ≡ some b
      → a ≤ c
      → b.ready_to_trip (record { requests = requests; total_failures = a }) ≡ true
      → (s.min_requests ≤ requests)
        × (b.ready_to_trip (record { requests = requests; total_failures = c }) ≡ true)
  unfolding new_breaker or_default ready_to_trip
  ready_to_trip_mono name s requests a c h le trips =
      ground (arith, f.div_mono (effective_ratio s.failure_ratio) a c requests le, h)

  -- A backend that fails every request trips a breaker whose ratio is at most one as soon as the
  -- sample size is reached.
  pub all_failing_trips :
      (name : Text) (s : BreakerSettings f.Float) {b : Settings} (n : ℕ)
      → new_breaker name (some s) ≡ some b
      → f.leb_float (effective_ratio s.failure_ratio) f.one_float ≡ true
      → or_default s.min_requests 20 ≤ n
      → b.ready_to_trip (record { requests = n; total_failures = n }) ≡ true
  unfolding new_breaker or_default ready_to_trip
  all_failing_trips name s n h small enough = ground (arith, f.div_self n (ground arith), h)
