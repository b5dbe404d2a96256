-- ===== src/Snowflake/Identifier.antt =====
-- Identifiers as their three fields: ID.Node, ID.Step and the shift of ID.Time against the packing
-- at the end of Generate.
use mathlib.Core.Path.{subst}
use native.Mathlib.Bridge.{le_prop}
use std.Equiv.{IsEquiv, iso_to_equiv}
use std.HLevel.{Σ_prop_path}
use kratos_micro_layout.Prelude.{ℕ, ◌/◌, ◌%◌, ◌^◌, ◌<◌, ◌≡◌, refl, sym, ap, ◌∙◌, arith}
use kratos_micro_layout.Prelude.Int.{ℤ, pos, negsuc, pos_part, neg_part, eq_pos}
use kratos_micro_layout.Word.{shr64, and64, bit_and_mask}
use kratos_micro_layout.Snowflake.{pack, node_of, step_of, time_shift}
use kratos_micro_layout.Snowflake.Layout.{
  layout, pack-layout, node_of-layout, step_of-layout, shr64-layout, node_max_lem, step_mask_lem,
}

-- The integer is in [0, n).
abbrev pub IsBelow : ℕ → ℤ → Type 0
IsBelow n z = (neg_part z ≡ 0) × (pos_part z < n)

-- A time of 41 bits, a node id of 10 and a sequence number of 12.
abbrev pub InLayout : ℤ × ℤ × ℤ → Type 0
InLayout (t, k, s) = IsBelow (2 ^ 41) t × IsBelow (2 ^ 10) k × IsBelow (2 ^ 12) s

abbrev pub Identifier : Type 0
Identifier = (id : ℤ) × IsBelow (2 ^ 63) id

abbrev pub Fields : Type 0
Fields = (p : ℤ × ℤ × ℤ) × InLayout p

IsBelow-prop : (n : ℕ) (z : ℤ) → IsProp (IsBelow n z)
IsBelow-prop n z = hlevel (le_prop)

InLayout-prop : (p : ℤ × ℤ × ℤ) → IsProp (InLayout p)
InLayout-prop p = hlevel (le_prop)

-- The fields that ID.Time, ID.Node and ID.Step read.
abbrev pub fields : ℤ → ℤ × ℤ × ℤ
fields id = (shr64 id time_shift, node_of id, step_of id)

-- What Generate returns for fields.
abbrev pub packed : ℤ × ℤ × ℤ → ℤ
packed (t, k, s) = pack t k s

fields-number :
    (n : ℕ)
    → n < 2 ^ 63
    → fields (pos n) ≡ (pos (n / 2 ^ 22), pos (n / 2 ^ 12 % 2 ^ 10), pos (n % 2 ^ 12))
unfolding shr64 node_of step_of and64
fields-number n h =
    rw (node_max_lem, step_mask_lem)
      (ground (arith, bit_and_mask 10 (n / 2 ^ 12), bit_and_mask 12 n))

pub fields-InLayout : (id : ℤ) → IsBelow (2 ^ 63) id → InLayout (fields id)
fields-InLayout (pos n) (h, below) =
    subst InLayout (sym (fields-number n below))
      ((refl, omega arith), (refl, omega arith), (refl, omega arith))
fields-InLayout (negsuc n) (h, below) = absurd (omega (arith, h))

packed-fields : (id : ℤ) → IsBelow (2 ^ 63) id → packed (fields id) ≡ id
packed-fields (pos n) (h, below) =
    ap packed (fields-number n below)
    ∙ pack-layout (n / 2 ^ 22) (n / 2 ^ 12 % 2 ^ 10) (n % 2 ^ 12) (omega arith) (omega arith)
        (omega arith)
    ∙ ap pos (omega arith)
packed-fields (negsuc n) (h, below) = absurd (omega (arith, h))

packed-number :
    (p : ℤ × ℤ × ℤ)
    → InLayout p
    → packed p ≡ pos (layout (pos_part p.0) (pos_part p.1) (pos_part p.2))
packed-number (t, k, s) ((ht, lt), (hk, lk), (hs, ls)) =
    ap (λ x. pack x k s) (eq_pos t ht)
    ∙ ap (λ x. pack (pos (pos_part t)) x s) (eq_pos k hk)
    ∙ ap (λ x. pack (pos (pos_part t)) (pos (pos_part k)) x) (eq_pos s hs)
    ∙ pack-layout (pos_part t) (pos_part k) (pos_part s) lt (omega arith) (omega arith)

pub packed-IsBelow : (p : ℤ × ℤ × ℤ) → InLayout p → IsBelow (2 ^ 63) (packed p)
packed-IsBelow p h =
    let ((ht, lt), (hk, lk), (hs, ls)) = h in rw (packed-number p h) (refl, omega arith)

fields-packed : (p : ℤ × ℤ × ℤ) → InLayout p → fields (packed p) ≡ p
fields-packed (t, k, s) ((ht, lt), (hk, lk), (hs, ls)) =
    let a = pos_part t in
    let b = pos_part k in
    let c = pos_part s in
    let time = shr64-layout a b c (omega arith) (omega arith) ∙ sym (eq_pos t ht) in
    let node = node_of-layout a b c lt (omega arith) (omega arith) ∙ sym (eq_pos k hk) in
    let step = step_of-layout a b c lt (omega arith) (omega arith) ∙ sym (eq_pos s hs) in
    ap fields (packed-number (t, k, s) ((ht, lt), (hk, lk), (hs, ls))) ∙ λ i.
    (time i, node i, step i)

abbrev pub parts : Identifier → Fields
parts (id, h) = (fields id, fields-InLayout id h)

abbrev pub whole : Fields → Identifier
whole (p, h) = (pack p.0 p.1 p.2, packed-IsBelow p h)

-- Reading the time, the node id and the sequence number is an equivalence between the identifiers
-- of 63 bits and the triples that fit the layout, and packing a triple gives the identifier that it
-- is read from.
pub parts-IsEquiv : (f : Fields) → IsEquiv parts × (parts (whole f) ≡ f)
parts-IsEquiv f =
    let both = λ (g : Fields). Σ_prop_path InLayout-prop (fields-packed g.0 g.1) in
    (
      (iso_to_equiv {A = Identifier} {B = Fields} (record {
        fun = parts;
        inv = whole;
        rinv = both;
        linv = λ (id, h). Σ_prop_path (IsBelow-prop (2 ^ 63)) (packed-fields id h);
      })).1,
      both f,
    )
