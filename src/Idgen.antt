-- ===== src/Idgen.antt =====
-- pkg/idgen/idgen.go: the generator that a service depends on, over a snowflake node.
mod Tests
use kratos_micro_layout.Prelude.{
  ◌≡◌, ◌<◌, ◌∙◌, ap, refl, arith, Option, none, some, List, [], ◌∷◌, All, inl, inr,
}
use kratos_micro_layout.Prelude.Int.{ℤ, pos_part, ◌<ℤ◌, pos}
use kratos_micro_layout.Prelude.Result.{Result, ok, err, Result-cases}
use kratos_micro_layout.Time.{Instant, unix_milli}
use kratos_micro_layout.Snowflake.{Node, Error, generate, new_node, node_of, default_epoch}
use kratos_micro_layout.Snowflake.Create.{new_node_with_epoch-IsValid, new_node_with_epoch-ok_iff}
use kratos_micro_layout.Snowflake.Generate.{InRange, generate-IsValid}
use kratos_micro_layout.Snowflake.History.{
  Run, done, issued, Increasing, Run-Increasing, Run-node_of,
}

-- snowflakeGenerator
pub record Generator : Type 0 where
  pub node : Node

-- NewSnowflake
unfoldable pub new_snowflake : ℤ → Instant → Result Error Generator
new_snowflake node_id now = elim (new_node node_id now) [
  | err e ↦ err e
  | ok n ↦ ok (record { node = n })
]

-- NextID, on the readings of the clock, with the readings that it leaves
unfoldable pub next_id : Generator → List ℤ → Option (Generator × Result Error ℤ × List ℤ)
next_id g readings = elim (generate g.node readings) [
  | none ↦ none
  | some (n, result, rest) ↦ some (record g { node = n }, result, rest)
]

next_id-generate :
    (g g' : Generator) (readings rest : List ℤ) (r : Result Error ℤ)
    → next_id g readings ≡ some (g', r, rest)
    → generate g.node readings ≡ some (g'.node, r, rest)
unfolding next_id
next_id-generate g g' readings rest r h = ground arith

new_snowflake-new_node :
    (node_id : ℤ) (now : Instant) (g : Generator)
    → new_snowflake node_id now ≡ ok g
    → new_node node_id now ≡ ok g.node
unfolding new_snowflake
new_snowflake-new_node node_id now g h = elim (Result-cases (new_node node_id now)) [
  | inl (n, made) ↦ ground arith
  | inr (e, failed) ↦ ground arith
]

-- Two calls of NextID on a new generator that return identifiers return different ones, the later
-- the greater, and both carry the node id that the generator was made with, as long as the last
-- time fits the 41 bits of its field.
pub next_id-increases :
    (node_id : ℤ) (now : Instant) (g g1 g2 : Generator) (rs rest rs1 rest1 : List ℤ) (a b : ℤ)
    → new_snowflake node_id now ≡ ok g
    → next_id g rs ≡ some (g1, ok a, rest)
    → next_id g1 rs1 ≡ some (g2, ok b, rest1)
    → InRange g2.node
    → (a <ℤ b) × (node_of a ≡ node_id) × (node_of b ≡ node_id)
unfolding new_node
next_id-increases node_id now g g1 g2 rs rest rs1 rest1 a b made first second fits =
    let created = new_snowflake-new_node node_id now g made in
    let valid = new_node_with_epoch-IsValid node_id default_epoch now created in
    let fresh = ((new_node_with_epoch-ok_iff node_id default_epoch now g.node).0 created).0 in
    let run : Run g.node (a ∷ b ∷ []) g2.node =
      issued rs g1.node a rest (next_id-generate g g1 rs rest (ok a) first) (
        issued rs1 g2.node b rest1 (next_id-generate g1 g2 rs1 rest1 (ok b) second)
          (done g2.node)) in
    let (sign_a, above, (sign_b, more, end)) = Run-Increasing valid run fits in
    let (node_a, (node_b, last)) = Run-node_of valid run fits in
    let same : g.node.node ≡ node_id = ap (λ n. n.node) fresh in
    (omega arith, node_a ∙ same, node_b ∙ same)
