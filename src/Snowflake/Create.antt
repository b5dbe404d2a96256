-- ===== src/Snowflake/Create.antt =====
-- Making a node: which arguments are accepted, and what the new node is.
use Prim.Native.Nat.{bit_and}
use kratos_micro_layout.Prelude.{ℕ, ◌≤◌, ◌≡◌, refl, arith, some, List, ◌∷◌, ◌↔◌, false}
use kratos_micro_layout.Prelude.Int.{ℤ, pos, ◌≤ℤ◌}
use kratos_micro_layout.Prelude.Result.{ok}
use kratos_micro_layout.Word.{IsInt64, bit_and_mask, sub64_self}
use kratos_micro_layout.Time.{Instant, unix_milli, is_zero}
use kratos_micro_layout.Snowflake.{
  Node, new_node_with_epoch, fnv32a, new_node_from_hostname, default_epoch, generate,
}
use kratos_micro_layout.Snowflake.Layout.{node_max_lem, layout, next_step, pack-layout}
use kratos_micro_layout.Snowflake.Generate.{IsValid}

-- The node that NewNodeWithEpoch makes.
abbrev pub fresh : ℤ → ℤ → Node
fresh id epoch = record { epoch = epoch; node = id; time = pos 0; step = pos 0 }

-- NewNodeWithEpoch succeeds exactly for an id in [0, 1023] and an epoch that is neither the zero
-- time nor later, in milliseconds, than now; the node then has this id and epoch and starts at 0.
pub new_node_with_epoch-ok_iff :
    (id : ℤ) (epoch now : Instant) (n : Node)
    → (new_node_with_epoch id epoch now ≡ ok n) ↔ (
        (n ≡ fresh id (unix_milli epoch))
        × (pos 0 ≤ℤ id)
        × (id ≤ℤ pos 1023)
        × (is_zero epoch ≡ false)
        × (unix_milli epoch ≤ℤ unix_milli now))
unfolding new_node_with_epoch
new_node_with_epoch-ok_iff id epoch now n = rw node_max_lem (ground arith)

-- A new node is valid.
pub new_node_with_epoch-IsValid :
    (id : ℤ) (epoch now : Instant) {n : Node} → new_node_with_epoch id epoch now ≡ ok n → IsValid n
new_node_with_epoch-IsValid id epoch now {n} h =
    ground (arith, (new_node_with_epoch-ok_iff id epoch now n).0 h)

-- From the default epoch on, every host name gives a valid node: its hash is masked into range.
pub new_node_from_hostname-ok :
    (host : List ℕ) (now : Instant)
    → unix_milli default_epoch ≤ℤ unix_milli now
    → (n : Node) × (new_node_from_hostname (some host) now ≡ ok n)
      × IsValid n
      × (n.node ≡ pos (bit_and (fnv32a host) 1023))
unfolding new_node_from_hostname
new_node_from_hostname-ok host now h =
    let id = bit_and (fnv32a host) 1023 in
    let made =
      (new_node_with_epoch-ok_iff (pos id) default_epoch now
          (fresh (pos id) (unix_milli default_epoch))).1
        (refl, omega arith, omega (arith, bit_and_mask 10 (fnv32a host)), refl, h) in
    (
      fresh (pos id) (unix_milli default_epoch),
      made,
      new_node_with_epoch-IsValid (pos id) default_epoch now made,
      refl,
    )

-- A new node whose clock stands at its epoch gives out its node id and the sequence number 1 with
-- a timestamp of 0.
pub generate-at_epoch :
    (k : ℕ) (epoch : ℤ) (rs : List ℤ)
    → k ≤ 1023
    → IsInt64 epoch
    → generate (fresh (pos k) epoch) (epoch ∷ rs)
      ≡ some (record (fresh (pos k) epoch) { step = pos 1 }, ok (pos (layout 0 k 1)), rs)
unfolding generate
generate-at_epoch k epoch rs hk he =
    rw
      (
        sub64_self epoch he,
        next_step 0 (omega arith),
        pack-layout 0 k 1 (omega arith) hk (omega arith),
      )
      refl
