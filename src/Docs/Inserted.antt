-- ===== src/Docs/Inserted.antt =====
-- Blocks that are put behind lines.
use mathlib.Core.List.{append_assoc}
use kratos_micro_layout.Prelude.{
  ◌≡◌, ◌≤◌, ◌<◌, refl, sym, ap, ◌∙◌, arith, Bool, true, false, ◌||◌, List, [], ◌∷◌, ◌++◌, All,
  All-append, Text, length, length-append, if◌then◌else◌, Bool-cases, inl, inr,
}
use kratos_micro_layout.Docs.Lines.{IsLine, inserted}

-- The block stands directly behind a line that passes the test.
pub record HasBlock (test : Text → Bool) (block out : List Text) : Type 0 where
  pub before : List Text
  pub line : Text
  pub after : List Text
  pub passes : test line ≡ true
  pub splits : out ≡ before ++ line ∷ (block ++ after)

-- Some line passes the test.
unfoldable pub any_line : (Text → Bool) → List Text → Bool
any_line test [] = false
any_line test (l ∷ ls) = test l || any_line test ls

module _ (test : Text → Bool) (block : List Text) where
  pub inserted-append :
      (xs ys : List Text)
      → inserted test block (xs ++ ys) ≡ inserted test block xs ++ inserted test block ys
  unfolding inserted
  inserted-append [] ys = refl
  inserted-append (x ∷ xs) ys =
      ap (λ l. x ∷ l)
        (ap (λ l. (if test x then block else []) ++ l) (inserted-append xs ys)
          ∙ sym (append_assoc (if test x then block else []) (inserted test block xs) _))

  pub inserted-HasBlock :
      (ls : List Text) → any_line test ls ≡ true → HasBlock test block (inserted test block ls)
  unfolding any_line inserted
  inserted-HasBlock [] h = absurd (cc)
  inserted-HasBlock (l ∷ ls) h = elim (Bool-cases (test l)) [
    | inl here ↦ record {
      before = [];
      line = l;
      after = inserted test block ls;
      passes = here;
      splits = rw here refl;
    }
    | inr later ↦
        let rest = inserted-HasBlock ls (rw later at h) in
        record {
          before = l ∷ rest.before;
          line = rest.line;
          after = rest.after;
          passes = rest.passes;
          splits = rw later (ap (λ t. l ∷ t) rest.splits);
        }
  ]

  pub inserted_none : (ls : List Text) → any_line test ls ≡ false → inserted test block ls ≡ ls
  unfolding any_line inserted
  inserted_none [] h = refl
  inserted_none (l ∷ ls) h = ground (arith, inserted_none ls)

  pub length-inserted : (ls : List Text) → length ls ≤ length (inserted test block ls)
  unfolding inserted
  length-inserted [] = omega arith
  length-inserted (l ∷ ls) = omega (
    arith,
    length-inserted ls,
    length-append {0} (if test l then block else []) (inserted test block ls),
  )

  pub inserted-longer :
      (ls : List Text)
      → any_line test ls ≡ true
      → 0 < length block
      → length ls < length (inserted test block ls)
  unfolding any_line inserted
  inserted-longer [] h pos = absurd (cc)
  inserted-longer (l ∷ ls) h pos = elim (Bool-cases (test l)) [
    | inl here ↦
        rw here
          (omega (arith, length-inserted ls, length-append {0} block (inserted test block ls)))
    | inr later ↦ rw later (omega (arith, inserted-longer ls (rw later at h) pos))
  ]

  pub All-inserted :
      (ls : List Text) → All IsLine block → All IsLine ls → All IsLine (inserted test block ls)
  unfolding inserted
  All-inserted [] hb h = tt
  All-inserted (l ∷ ls) hb (hl, h) = elim (Bool-cases (test l)) [
    | inl here ↦
        rw here (hl, All-append IsLine block (inserted test block ls) hb (All-inserted ls hb h))
    | inr later ↦ rw later (hl, All-inserted ls hb h)
  ]
