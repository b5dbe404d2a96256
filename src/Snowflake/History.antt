-- ===== src/Snowflake/History.antt =====
-- The identifiers of whole histories: any number of calls on a node, and any number of nodes.
use mathlib.Core.Path.{subst}
use kratos_micro_layout.Prelude.{
  ℕ, ◌≤◌, ◌<◌, ◌≡◌, ◌≢◌, refl, sym, ◌∙◌, ap, arith, some, List, [], ◌∷◌, ◌++◌, map, All, All-append,
  All-map, Distinct, Distinct-append,
}
use kratos_micro_layout.Prelude.Int.{ℤ, pos_part, neg_part}
use kratos_micro_layout.Prelude.Result.{Result, ok, err}
use kratos_micro_layout.Snowflake.{Node, Error, generate, node_of}
use kratos_micro_layout.Snowflake.Generate.{
  IsValid, InRange, last_id, generate-IsValid, generate-increases, generate-cases,
}
use kratos_micro_layout.Snowflake.Fields.{generate-fields}

-- `Run n ids m`: calls of Generate, each with the readings that the clock gave it, that take the
-- node from `n` to `m` and return these identifiers.
pub data Run : Node → List ℤ → Node → Type 0 where
  done : (n : Node) → Run n [] n
  issued :
      {n m : Node} {ids : List ℤ} (rs : List ℤ) (n' : Node) (id : ℤ) (rest : List ℤ)
      → generate n rs ≡ some (n', ok id, rest)
      → Run n' ids m
      → Run n (id ∷ ids) m
  refused :
      {n m : Node} {ids : List ℤ} (rs : List ℤ) (n' : Node) (e : Error) (rest : List ℤ)
      → generate n rs ≡ some (n', err e, rest)
      → Run n' ids m
      → Run n ids m

generate_later :
    (n : Node) (rs : List ℤ) {n' : Node} {r : Result Error ℤ} {rest : List ℤ}
    → IsValid n
    → generate n rs ≡ some (n', r, rest)
    → (pos_part n.time ≤ pos_part n'.time) × (n'.node ≡ n.node)
generate_later n rs valid h = ground (arith, generate-cases n valid rs h)

-- A refused call leaves its node as it was.
pub generate-err :
    (n : Node) (rs : List ℤ) {n' : Node} {e : Error} {rest : List ℤ}
    → IsValid n
    → generate n rs ≡ some (n', err e, rest)
    → n' ≡ n
generate-err n rs valid h = ground (arith, generate-cases n valid rs h)

-- A history keeps the node valid, its id, and the order of its times.
pub Run-IsValid :
    {n m : Node} {ids : List ℤ}
    → IsValid n
    → Run n ids m
    → IsValid m × (pos_part n.time ≤ pos_part m.time) × (m.node ≡ n.node)
Run-IsValid valid (done n) = (valid, omega arith, refl)
Run-IsValid {n} valid (issued rs n' id rest h run) =
    let (end, later, kept) = Run-IsValid (generate-IsValid n rs valid h) run in
    let (late, same) = generate_later n rs valid h in (end, omega arith, kept ∙ same)
Run-IsValid {n} valid (refused rs n' e rest h run) =
    let (end, later, kept) = Run-IsValid (generate-IsValid n rs valid h) run in
    let (late, same) = generate_later n rs valid h in (end, omega arith, kept ∙ same)

-- Positive integers above `k`, each greater than the one before it.
abbrev pub Increasing : ℕ → List ℤ → Type 0
Increasing k [] = Unit
Increasing k (id ∷ ids) = (neg_part id ≡ 0) × (k < pos_part id) × Increasing (pos_part id) ids

-- The identifiers of a history of one node are positive and strictly increase, whatever the clock
-- did and whichever calls were refused, as long as the last time fits the 41 bits of its field.
pub Run-Increasing :
    {n m : Node} {ids : List ℤ} → IsValid n → Run n ids m → InRange m → Increasing (last_id n) ids
Run-Increasing valid (done n) fits = tt
Run-Increasing {n} valid (issued rs n' id rest h run) fits =
    let after = generate-IsValid n rs valid h in
    let within : InRange n' = omega (arith, Run-IsValid after run) in
    let (same, more) = generate-increases n rs valid h within in
    rw same (refl, more, Run-Increasing after run fits)
Run-Increasing {ids} valid (refused rs n' e rest h run) fits =
    subst (λ x. Increasing (last_id x) ids) (generate-err _ rs valid h)
      (Run-Increasing (generate-IsValid _ rs valid h) run fits)

-- Every identifier of a history carries the id of its node.
pub Run-node_of :
    {n m : Node} {ids : List ℤ}
    → IsValid n
    → Run n ids m
    → InRange m
    → All (λ id. node_of id ≡ n.node) ids
Run-node_of valid (done n) fits = tt
Run-node_of {n} {ids = id ∷ ids} valid (issued rs n' _ rest h run) fits =
    let after = generate-IsValid n rs valid h in
    let within : InRange n' = omega (arith, Run-IsValid after run) in
    let same : n'.node ≡ n.node = (generate_later n rs valid h).1 in
    (
      (generate-fields n rs valid h within).0,
      All-map (λ x. node_of x ≡ n'.node) (λ x. node_of x ≡ n.node) ids (λ x e. e ∙ same)
          (Run-node_of after run fits),
    )
Run-node_of {n} {ids} valid (refused rs n' e rest h run) fits =
    subst (λ x. All (λ id. node_of id ≡ x.node) ids) (generate-err n rs valid h)
      (Run-node_of (generate-IsValid n rs valid h) run fits)

Increasing-above :
    (k l : ℕ) (ids : List ℤ) → k ≤ l → Increasing l ids → All (λ x. k < pos_part x) ids
Increasing-above k l [] h inc = tt
Increasing-above k l (id ∷ ids) h (sign, above, inc) =
    (omega arith, Increasing-above k (pos_part id) ids (omega arith) inc)

Increasing-Distinct : (k : ℕ) (ids : List ℤ) → Increasing k ids → Distinct ids
Increasing-Distinct k [] inc = tt
Increasing-Distinct k (id ∷ ids) (sign, above, inc) = (
  All-map (λ x. pos_part id < pos_part x) (λ x. id ≢ x) ids
      (λ x lt e. absurd (omega (arith, ap pos_part e)))
      (Increasing-above (pos_part id) (pos_part id) ids (omega arith) inc),
  Increasing-Distinct (pos_part id) ids inc,
)

-- One process of a cluster: its node at the start and now, and the identifiers that it returned.
pub record Machine : Type 0 where
  pub first : Node
  pub ids : List ℤ
  pub now : Node

abbrev pub IsSound : Machine → Type 0
IsSound c = IsValid c.first × Run c.first c.ids c.now × InRange c.now

abbrev pub all_ids : List Machine → List ℤ
all_ids [] = []
all_ids (c ∷ cs) = c.ids ++ all_ids cs

others_differ :
    (k : ℤ) (cs : List Machine)
    → All IsSound cs
    → All (λ y. k ≢ y) (map (λ c. c.first.node) cs)
    → All (λ id. node_of id ≢ k) (all_ids cs)
others_differ k [] sound away = tt
others_differ k (c ∷ cs) ((valid, run, fits), sound) (away, rest) =
    All-append (λ id. node_of id ≢ k) c.ids (all_ids cs)
      (All-map (λ id. node_of id ≡ c.first.node) (λ id. node_of id ≢ k) c.ids
        (λ x e d. away (sym d ∙ e)) (Run-node_of valid run fits))
      (others_differ k cs sound rest)

-- No identifier is given out twice in a cluster whose nodes have different ids: not by one node,
-- and not by two, for every clock of every machine and every sequence of calls.
pub cluster-Distinct :
    (cs : List Machine)
    → All IsSound cs
    → Distinct (map (λ c. c.first.node) cs)
    → Distinct (all_ids cs)
cluster-Distinct [] sound apart = tt
cluster-Distinct (c ∷ cs) ((valid, run, fits), sound) (away, apart) =
    Distinct-append c.ids (all_ids cs)
      (Increasing-Distinct (last_id c.first) c.ids (Run-Increasing valid run fits))
      (cluster-Distinct cs sound apart)
      (All-map (λ x. node_of x ≡ c.first.node) (λ x. All (λ y. x ≢ y) (all_ids cs)) c.ids
        (λ x e.
          All-map (λ y. node_of y ≢ c.first.node) (λ y. x ≢ y) (all_ids cs)
            (λ y d same. d (ap node_of (sym same) ∙ e)) (others_differ c.first.node cs sound away))
        (Run-node_of valid run fits))
