-- ===== src/Docs/Lines.antt =====
-- Documents as lists of lines.
use mathlib.Core.List.{append_assoc}
use kratos_micro_layout.Prelude.{
  ◌≡◌, refl, sym, ap, ◌∙◌, arith, Bool, false, List, [], ◌∷◌, ◌++◌, All, Text, if◌then◌else◌,
  Bool-cases, inl, inr,
}
use kratos_micro_layout.Text.{contains}
use kratos_micro_layout.Docs.{lines, add_char, unlines, insert_after}

-- A line has no newline in it.
abbrev pub IsLine : Text → Type 0
IsLine l = contains l 10 ≡ false

lines-line :
    (l : Text) (s : Text) {ls : List Text} {last : Text}
    → IsLine l
    → lines s ≡ (ls, last)
    → lines (l ++ (10 ∷ s)) ≡ (l ∷ ls, last)
unfolding lines contains add_char
lines-line [] s h e = ground arith
lines-line (c ∷ l) s h e = ground (arith, lines-line l s (ground arith) e)

lines_last : (last : Text) → IsLine last → lines last ≡ ([], last)
unfolding lines contains add_char
lines_last [] h = refl
lines_last (c ∷ s) h = ground (arith, lines_last s)

-- A document of lines is taken apart into them.
pub lines-unlines :
    (ls : List Text) (last : Text)
    → All IsLine ls
    → IsLine last
    → lines (unlines ls last) ≡ (ls, last)
unfolding unlines
lines-unlines [] last h hl = lines_last last hl
lines-unlines (l ∷ ls) last (hl, h) e =
    lines-line l (unlines ls last) hl (lines-unlines ls last h e)

pub unlines-append :
    (xs ys : List Text) (last : Text) → unlines (xs ++ ys) last ≡ unlines xs (unlines ys last)
unfolding unlines
unlines-append [] ys last = refl
unlines-append (x ∷ xs) ys last = ap (λ t. x ++ (10 ∷ t)) (unlines-append xs ys last)

pub unlines_behind : (xs : List Text) (t : Text) → unlines xs [] ++ t ≡ unlines xs t
unfolding unlines
unlines_behind [] t = refl
unlines_behind (x ∷ xs) t =
    append_assoc x (10 ∷ unlines xs []) t ∙ ap (λ u. x ++ (10 ∷ u)) (unlines_behind xs t)

-- The lines with a block behind each that passes the test.
unfoldable pub inserted : (Text → Bool) → List Text → List Text → List Text
inserted test block [] = []
inserted test block (l ∷ ls) = l ∷ ((if test l then block else []) ++ inserted test block ls)

pub insert_after-inserted :
    (test : Text → Bool) (block ls : List Text) (last : Text)
    → insert_after test (unlines block []) ls last ≡ unlines (inserted test block ls) last
unfolding insert_after inserted unlines
insert_after-inserted test block [] last = refl
insert_after-inserted test block (l ∷ ls) last = elim (Bool-cases (test l)) [
  | inl found ↦ rw found (
      ap (λ t. l ++ (10 ∷ t))
        (unlines_behind block _
          ∙ ap (unlines block) (insert_after-inserted test block ls last)
          ∙ sym (unlines-append block (inserted test block ls) last)))
  | inr absent ↦ rw absent (ap (λ t. l ++ (10 ∷ t)) (insert_after-inserted test block ls last))
]

-- The lines of `xs`, in order, are among those of `ys`.
pub data Keeps : List Text → List Text → Type 0 where
  done : Keeps [] []
  keep : {xs ys : List Text} (x : Text) → Keeps xs ys → Keeps (x ∷ xs) (x ∷ ys)
  skip : {xs ys : List Text} (y : Text) → Keeps xs ys → Keeps xs (y ∷ ys)

pub Keeps-refl : (xs : List Text) → Keeps xs xs
Keeps-refl [] = done
Keeps-refl (x ∷ xs) = keep x (Keeps-refl xs)

Keeps-skips : (block : List Text) {xs ys : List Text} → Keeps xs ys → Keeps xs (block ++ ys)
Keeps-skips [] k = k
Keeps-skips (b ∷ block) k = skip b (Keeps-skips block k)

pub Keeps-behind : {xs ys : List Text} (zs : List Text) → Keeps xs ys → Keeps xs (ys ++ zs)
Keeps-behind [] done = done
Keeps-behind (z ∷ zs) done = skip z (Keeps-behind zs done)
Keeps-behind zs (keep x k) = keep x (Keeps-behind zs k)
Keeps-behind zs (skip y k) = skip y (Keeps-behind zs k)

pub Keeps-trans : {xs ys zs : List Text} → Keeps xs ys → Keeps ys zs → Keeps xs zs
Keeps-trans k done = k
Keeps-trans (keep x k) (keep _ m) = keep x (Keeps-trans k m)
Keeps-trans (skip y k) (keep _ m) = skip y (Keeps-trans k m)
Keeps-trans k (skip z m) = skip z (Keeps-trans k m)

pub Keeps-inserted : (test : Text → Bool) (block ls : List Text) → Keeps ls (inserted test block ls)
unfolding inserted
Keeps-inserted test block [] = done
Keeps-inserted test block (l ∷ ls) =
    keep l (Keeps-skips (if test l then block else []) (Keeps-inserted test block ls))
