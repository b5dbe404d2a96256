-- ===== src/Snowflake.antt =====
-- pkg/snowflake/snowflake.go: identifiers of 64 bits from a clock, a node id and a sequence.
-- A call of nowMillis is one more reading of the clock, an element of a list; `none` is a call that
-- still waits when the readings end. The mutex makes the calls of Generate follow one another.
mod Spin
pub mod Layout
pub mod Generate
pub mod Fields
pub mod Identifier
pub mod Waiting
pub mod History
pub mod Create
pub mod Marshal
mod Tests
use Prim.Native.Nat.{bit_and, bit_xor}
use mathlib.Core.Option
use kratos_micro_layout.Prelude.{
  ℕ, ◌+◌, ◌%◌, ◌*◌, ◌^◌, Bool, ◌||◌, Option, none, some, List, [], ◌∷◌, if◌then◌else◌,
}
use kratos_micro_layout.Prelude.Int.{ℤ, pos, negsuc, ltb_ℤ, leb_ℤ, eqb_ℤ}
use kratos_micro_layout.Prelude.Partial.{◌>>=◌}
use kratos_micro_layout.Prelude.Result.{Result, ok, err}
use kratos_micro_layout.Word.{add64, sub64, mul64, shl64, shr64, or64, and64, xor64}
use kratos_micro_layout.Time.{Instant, unix_milli, is_zero, of_unix_milli, millisecond}

abbrev pub node_bits : ℕ
node_bits = 10

abbrev pub step_bits : ℕ
step_bits = 12

abbrev pub node_shift : ℕ
node_shift = step_bits

abbrev pub time_shift : ℕ
time_shift = node_bits + step_bits

-- `-1 ^ (-1 << bits)`
pub low_mask : ℕ → ℤ
unfolding shl64 xor64
low_mask bits = xor64 (negsuc 0) (shl64 (negsuc 0) bits)

unfoldable pub node_max : ℤ
unfolding low_mask
node_max = low_mask node_bits

unfoldable pub step_mask : ℤ
unfolding low_mask
step_mask = low_mask step_bits

-- 2020-01-01 UTC
abbrev pub default_epoch : Instant
default_epoch = record { sec = pos 1577836800; nsec = 0 }

-- `5 * time.Millisecond`, in nanoseconds
abbrev pub drift_tolerance : ℤ
drift_tolerance = pos 5000000

pub data Error : Type 0 where
  node_out_of_range : ℤ → Error
  zero_epoch future_epoch no_hostname : Error
  clock_backwards : ℤ → ℤ → ℤ → Error

pub record Node : Type 0 where
  pub epoch : ℤ
  pub node : ℤ
  pub time : ℤ
  pub step : ℤ

-- NewNodeWithEpoch, at the instant `now`
unfoldable pub new_node_with_epoch : ℤ → Instant → Instant → Result Error Node
new_node_with_epoch id epoch now =
    if ltb_ℤ id (pos 0) || ltb_ℤ node_max id
    then err (node_out_of_range id)
    else if is_zero epoch
    then err zero_epoch
    else if ltb_ℤ (unix_milli now) (unix_milli epoch)
    then err future_epoch
    else ok (record { epoch = unix_milli epoch; node = id; time = pos 0; step = pos 0 })

unfoldable pub new_node : ℤ → Instant → Result Error Node
unfolding new_node_with_epoch
new_node id now = new_node_with_epoch id default_epoch now

-- A Must function: `none` is its panic.
unfoldable pub must {ℓ} : {A : Type ℓ} → Result Error A → Option A
must (ok a) = some a
must (err e) = none

unfoldable pub must_new_node : ℤ → Instant → Option Node
unfolding must
must_new_node id now = must (new_node id now)

-- FNV-1a of 32 bits, over bytes
fnv_from : ℕ → List ℕ → ℕ
fnv_from h [] = h
fnv_from h (b ∷ bytes) = fnv_from (bit_xor h b * 16777619 % 2 ^ 32) bytes

unfoldable pub fnv32a : List ℕ → ℕ
unfolding fnv_from
fnv32a bytes = fnv_from 2166136261 bytes

-- NewNodeFromHostname, for what os.Hostname returns
unfoldable pub new_node_from_hostname : Option (List ℕ) → Instant → Result Error Node
unfolding new_node
new_node_from_hostname none now = err no_hostname
new_node_from_hostname (some host) now = new_node (pos (bit_and (fnv32a host) 1023)) now

-- `for waiting(now) { now = nowMillis() - n.epoch }`
unfoldable pub spin : (ℤ → Bool) → ℤ → ℤ → List ℤ → Option (ℤ × List ℤ)
spin waiting epoch now [] = if waiting now then none else some (now, [])
spin waiting epoch now (r ∷ rs) =
    if waiting now then spin waiting epoch (sub64 r epoch) rs else some (now, r ∷ rs)

unfoldable pub pack : ℤ → ℤ → ℤ → ℤ
pack now node step = or64 (or64 (shl64 now time_shift) (shl64 node node_shift)) step

-- What a call of Generate leaves: the node, its result and the readings that it did not take.
abbrev pub Outcome : Type 0
Outcome = Option (Node × Result Error ℤ × List ℤ)

-- `n.time = now` and the return
unfoldable pub finish : Node → ℤ × List ℤ → Outcome
finish n (now, rs) = some (record n { time = now }, ok (pack now n.node n.step), rs)

-- Generate from the choice of the sequence number on
unfoldable pub issue : Node → ℤ × List ℤ → Outcome
unfolding finish
issue n (now, rs) =
    let step = and64 (add64 n.step (pos 1)) step_mask in
    if eqb_ℤ now n.time
    then if eqb_ℤ step (pos 0)
      then spin (λ t. leb_ℤ t n.time) n.epoch now rs >>= finish (record n { step = step })
      else finish (record n { step = step }) (now, rs)
    else finish (record n { step = pos 0 }) (now, rs)

unfoldable pub generate : Node → List ℤ → Outcome
unfolding issue
generate n [] = none
generate n (r ∷ rs) =
    let now = sub64 r n.epoch in
    let drift = mul64 (sub64 n.time now) millisecond in
    if ltb_ℤ now n.time
    then if ltb_ℤ drift_tolerance drift
      then some (n, err (clock_backwards drift n.time now), rs)
      else spin (λ t. ltb_ℤ t n.time) n.epoch now rs >>= issue n
    else issue n (now, rs)

-- MustGenerate: the inner `none` is its panic.
unfoldable pub must_generate : Node → List ℤ → Option (Option ℤ)
unfolding generate must
must_generate n rs = Option.map (λ out. must out.1) (generate n rs)

-- ID.TimeWithEpoch, ID.Time, ID.Node and ID.Step
unfoldable pub time_with_epoch : ℤ → Instant → Instant
time_with_epoch id epoch = of_unix_milli (add64 (shr64 id time_shift) (unix_milli epoch))

unfoldable pub time_of : ℤ → Instant
unfolding time_with_epoch
time_of id = time_with_epoch id default_epoch

unfoldable pub node_of : ℤ → ℤ
node_of id = and64 (shr64 id node_shift) node_max

unfoldable pub step_of : ℤ → ℤ
step_of id = and64 id step_mask
