-- ===== src/Snowflake/Tests.antt =====
-- Runs of the generator, and its theorems at a node with the epoch 1000 and the id 7.
use kratos_micro_layout.Prelude.{
  ◌≡◌, refl, arith, none, some, List, [], ◌∷◌, ◌+◌, ◌*◌, ◌^◌, inl, inr, Any, All, Distinct, false,
  codes, ◌↔◌,
}
use kratos_micro_layout.Prelude.Int.{ℤ, pos, ◌≤ℤ◌, ◌+ℤ◌, ◌<ℤ◌}
use kratos_micro_layout.Prelude.Result.{Result, ok, err}
use kratos_micro_layout.Word.{add64, sub64, mul64, shl64, shr64, or64, and64}
use kratos_micro_layout.Time.{Instant, unix_milli, is_zero}
use kratos_micro_layout.Snowflake.{
  must_generate, must_new_node, fnv32a, new_node_with_epoch, new_node, default_epoch, Node, Error,
  clock_backwards, generate, spin, pack, node_of, step_of, time_with_epoch, time_shift, node_max,
  step_mask,
}
use kratos_micro_layout.Snowflake.Create.{fresh, new_node_with_epoch-ok_iff, generate-at_epoch}
use std.Equiv.{IsEquiv}
use kratos_micro_layout.Snowflake.Identifier.{Fields, parts, whole, parts-IsEquiv}
use kratos_micro_layout.Snowflake.Generate.{IsValid, last_id}
use kratos_micro_layout.Snowflake.Layout.{layout}
use kratos_micro_layout.Snowflake.Fields.{generate-fields, generate-time_with_epoch}
use kratos_micro_layout.Snowflake.Spin.{AnyReading}
use kratos_micro_layout.Snowflake.Waiting.{IsLater, generate-returns, IsRefused, refuses_iff}
use kratos_micro_layout.Snowflake.History.{
  Run, done, issued, refused, Increasing, Run-Increasing, Machine, IsSound, cluster-Distinct,
}

-- A node whose last identifier was given out 500 ms after its epoch, with the last sequence number.
abbrev full : Node
full = record { epoch = pos 1000; node = pos 7; time = pos 500; step = pos 4095 }

full-IsValid : IsValid full
full-IsValid = omega arith

-- The clock goes back by 2 ms, catches up, and the sequence of that millisecond is exhausted.
abbrev readings : List ℤ
readings = pos 1498 ∷ pos 1499 ∷ pos 1500 ∷ pos 1500 ∷ pos 1501 ∷ pos 1502 ∷ []

abbrev turned : Node
turned = record { epoch = pos 1000; node = pos 7; time = pos 501; step = pos 0 }

turns : generate full readings ≡ some (turned, ok (pos (501 * 2 ^ 22 + 7 * 2 ^ 12)), pos 1502 ∷ [])
unfolding generate add64 sub64 mul64 shl64 or64 and64 spin pack step_mask
turns = refl

generate-fields_example :
    let id = pos (501 * 2 ^ 22 + 7 * 2 ^ 12) in
    (node_of id ≡ pos 7) × (step_of id ≡ pos 0) × (shr64 id time_shift ≡ pos 501)
generate-fields_example = generate-fields full readings full-IsValid turns (omega arith)

-- One second after 1970, in milliseconds.
abbrev one_second : Instant
one_second = record { sec = pos 1; nsec = 0 }

one_second_lem : pos 1000 ≡ unix_milli one_second
unfolding unix_milli
one_second_lem = refl

generate-time_with_epoch_example :
    Any
      (λ r. unix_milli (time_with_epoch (pos (501 * 2 ^ 22 + 7 * 2 ^ 12)) one_second) ≡ r)
      readings
generate-time_with_epoch_example =
    generate-time_with_epoch full one_second readings full-IsValid one_second_lem (omega arith)
      (omega arith) turns (omega arith)

some_reading : AnyReading (IsLater full) (pos 1000) readings
unfolding sub64
some_reading = inr (inr (inr (inr (inl (omega arith)))))

generate-returns_example :
    (out : Node × Result Error ℤ × List ℤ) × (generate full readings ≡ some out)
generate-returns_example = generate-returns full readings some_reading

refuses_iff_example : IsRefused full (pos 1494) [] ↔ (pos 1494 +ℤ pos 5 <ℤ pos 1000 +ℤ pos 500)
refuses_iff_example =
    refuses_iff full (pos 1494) [] full-IsValid (omega arith) (omega arith) (omega arith)

refused_run :
    generate full (pos 1494 ∷ [])
    ≡ some (full, err (clock_backwards (pos 6000000) (pos 500) (pos 494)), [])
unfolding generate sub64 mul64
refused_run = refl

-- A refused call, and then one that succeeds.
abbrev first_id : ℤ
first_id = pos (501 * 2 ^ 22 + 7 * 2 ^ 12)

history : Run full (first_id ∷ []) turned
history =
    refused (pos 1494 ∷ []) full (clock_backwards (pos 6000000) (pos 500) (pos 494)) [] refused_run
      (issued readings turned first_id (pos 1502 ∷ []) turns (done turned))

Run-Increasing_example : Increasing (last_id full) (first_id ∷ [])
Run-Increasing_example = Run-Increasing full-IsValid history (omega arith)

-- A second machine, whose clock stands at its epoch.
abbrev second_start : Node
second_start = fresh (pos 8) (pos 1000)

abbrev second_end : Node
second_end = record second_start { step = pos 1 }

second_call : generate second_start (pos 1000 ∷ []) ≡ some (second_end, ok (pos (layout 0 8 1)), [])
second_call = generate-at_epoch 8 (pos 1000) [] (omega arith) (omega arith)

abbrev machines : List Machine
machines =
    record { first = full; ids = first_id ∷ []; now = turned }
    ∷ record { first = second_start; ids = pos (layout 0 8 1) ∷ []; now = second_end }
    ∷ []

machines-IsSound : All IsSound machines
machines-IsSound = (
  (full-IsValid, history, omega arith),
  (
    (
      omega arith,
      issued (pos 1000 ∷ []) second_end (pos (layout 0 8 1)) [] second_call (done second_end),
      omega arith,
    ),
    tt,
  ),
)

cluster-Distinct_example : Distinct (first_id ∷ pos (layout 0 8 1) ∷ [])
cluster-Distinct_example = cluster-Distinct machines machines-IsSound (ground arith)

abbrev now_2024 : Instant
now_2024 = record { sec = pos 1704067200; nsec = 0 }

new_node_with_epoch-ok_iff_example :
    (new_node_with_epoch (pos 1023) default_epoch now_2024
      ≡ ok (fresh (pos 1023) (unix_milli default_epoch)))
    ↔ ((fresh (pos 1023) (unix_milli default_epoch) ≡ fresh (pos 1023) (unix_milli default_epoch))
        × (pos 0 ≤ℤ pos 1023)
        × (pos 1023 ≤ℤ pos 1023)
        × (is_zero default_epoch ≡ false)
        × (unix_milli default_epoch ≤ℤ unix_milli now_2024))
new_node_with_epoch-ok_iff_example =
    new_node_with_epoch-ok_iff (pos 1023) default_epoch now_2024
      (fresh (pos 1023) (unix_milli default_epoch))

-- The published FNV-1a hash of "a".
fnv_of_a : fnv32a (codes "a") ≡ 0xe40c292c
unfolding fnv32a
fnv_of_a = refl

must_refused : must_generate full (pos 1494 ∷ []) ≡ some none
unfolding must_generate sub64 mul64
must_refused = refl

must_fails : must_new_node (pos 1024) now_2024 ≡ none
unfolding must_new_node new_node node_max
must_fails = refl

-- The fields of an identifier of the year 2024.
abbrev some_fields : Fields
some_fields = (
  (pos 126230400000, pos 7, pos 4095),
  ((refl, omega arith), (refl, omega arith), (refl, omega arith)),
)

parts-IsEquiv_example : IsEquiv parts × (parts (whole some_fields) ≡ some_fields)
parts-IsEquiv_example = parts-IsEquiv some_fields
