-- ===== src/Idgen/Tests.antt =====
-- Two identifiers of one generator at concrete readings.
use kratos_micro_layout.Prelude.{◌≡◌, refl, some, [], ◌∷◌, ◌+◌, ◌*◌, ◌^◌}
use kratos_micro_layout.Prelude.Int.{pos}
use kratos_micro_layout.Prelude.Result.{ok}
use kratos_micro_layout.Word.{add64, sub64, mul64, shl64, or64, and64}
use kratos_micro_layout.Time.{Instant, unix_milli}
use kratos_micro_layout.Snowflake.{
  generate, spin, pack, step_mask, new_node, new_node_with_epoch, node_max,
}
use kratos_micro_layout.Idgen.{Generator, new_snowflake, next_id}

-- One second after the default epoch.
abbrev now : Instant
now = record { sec = pos 1577836801; nsec = 0 }

abbrev start : Generator
start = record {
  node = record { epoch = pos 1577836800000; node = pos 7; time = pos 0; step = pos 0 };
}

abbrev then_one : Generator
then_one = record {
  node = record { epoch = pos 1577836800000; node = pos 7; time = pos 1000; step = pos 0 };
}

abbrev then_two : Generator
then_two = record {
  node = record { epoch = pos 1577836800000; node = pos 7; time = pos 1000; step = pos 1 };
}

starts : new_snowflake (pos 7) now ≡ ok start
unfolding new_snowflake new_node new_node_with_epoch node_max unix_milli add64 mul64
starts = refl

first :
    next_id start (pos 1577836801000 ∷ [])
    ≡ some (then_one, ok (pos (1000 * 2 ^ 22 + 7 * 2 ^ 12)), [])
unfolding next_id generate add64 sub64 mul64 shl64 or64 and64 spin pack step_mask
first = refl

second :
    next_id then_one (pos 1577836801000 ∷ [])
    ≡ some (then_two, ok (pos (1000 * 2 ^ 22 + 7 * 2 ^ 12 + 1)), [])
unfolding next_id generate add64 sub64 mul64 shl64 or64 and64 spin pack step_mask
second = refl
