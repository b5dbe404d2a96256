-- ===== src/Text/Laws.antt =====
-- Laws of the texts.
use mathlib.Core.List.{reverse, reverse-append}
use kratos_micro_layout.Prelude.{
  ℕ, List, ap, ◌∙◌, ◌==◌, Bool-cases, inl, inr, ==_iff, ◌≡◌, ◌≢◌, refl, arith, true, false, ◌||◌,
  ◌↔◌, [], ◌∷◌, ◌++◌, Text, text_eq, length, drop,
}
use kratos_micro_layout.Text.{has_prefix, has_suffix, trim_prefix, contains, join, split}

pub text_eq→eq : (s t : Text) → text_eq s t ≡ true → s ≡ t
text_eq→eq [] [] h = refl
text_eq→eq [] (b ∷ t) h = cc
text_eq→eq (a ∷ s) [] h = cc
text_eq→eq (a ∷ s) (b ∷ t) h = ground (arith, text_eq→eq s t)

pub text_eq_refl : (s : Text) → text_eq s s ≡ true
text_eq_refl [] = refl
text_eq_refl (a ∷ s) = ground (arith, text_eq_refl s)

pub text_eq_iff : (s t : Text) → (text_eq s t ≡ true) ↔ (s ≡ t)
text_eq_iff s t = (text_eq→eq s t, λ e. rw e (text_eq_refl t))

pub text_eq-false : (s t : Text) → text_eq s t ≡ false → s ≢ t
text_eq-false s t h = ground (arith, text_eq_iff s t)

pub has_prefix-append : (p s : Text) → has_prefix (p ++ s) p ≡ true
unfolding has_prefix
has_prefix-append [] s = refl
has_prefix-append (c ∷ p) s = ground (arith, has_prefix-append p s)

pub drop-append : (p s : Text) → drop (length p) (p ++ s) ≡ s
drop-append [] s = refl
drop-append (c ∷ p) s = drop-append p s

pub trim_prefix-append : (p s : Text) → trim_prefix (p ++ s) p ≡ s
unfolding trim_prefix
trim_prefix-append p s = rw (has_prefix-append p s) (drop-append p s)

pub has_suffix-append : (s t : Text) → has_suffix (s ++ t) t ≡ true
unfolding has_suffix
has_suffix-append s t = rw reverse-append (has_prefix-append (reverse t) (reverse s))

pub contains-append : (s t : Text) (c : ℕ) → contains (s ++ t) c ≡ (contains s c || contains t c)
unfolding contains
contains-append [] t c = refl
contains-append (d ∷ s) t c = ground (arith, contains-append s t c)

split-cons : (s : Text) (sep : ℕ) → (p : Text) × (ps : List Text) × (split s sep ≡ p ∷ ps)
unfolding split
split-cons [] sep = ([], [], refl)
split-cons (c ∷ s) sep =
    let (p, ps, e) = split-cons s sep in
    elim (Bool-cases (c == sep)) [
      | inl here ↦ ([], p ∷ ps, rw (here, e) refl)
      | inr other ↦ (c ∷ p, ps, rw (other, e) refl)
    ]

join-prepend :
    (c : ℕ) (p : Text) (ps : List Text) (sep : Text)
    → join ((c ∷ p) ∷ ps) sep ≡ c ∷ join (p ∷ ps) sep
unfolding join
join-prepend c p [] sep = refl
join-prepend c p (q ∷ ps) sep = refl

join_empty :
    (p : Text) (ps : List Text) (sep : Text) → join ([] ∷ p ∷ ps) sep ≡ sep ++ join (p ∷ ps) sep
unfolding join
join_empty p ps sep = refl

join_nil : (sep : Text) → join ([] ∷ []) sep ≡ []
unfolding join
join_nil sep = refl

-- The parts of a text, joined again, are the text.
pub join-split : (s : Text) (sep : ℕ) → join (split s sep) (sep ∷ []) ≡ s
unfolding split
join-split [] sep = join_nil (sep ∷ [])
join-split (c ∷ s) sep =
    let (p, ps, e) = split-cons s sep in
    let again : join (p ∷ ps) (sep ∷ []) ≡ s = rw e at (join-split s sep) in
    elim (Bool-cases (c == sep)) [
      | inl here ↦ rw (here, e) (join_empty p ps (sep ∷ []) ∙ cc ((==_iff c sep).0 here, again))
      | inr other ↦ rw (other, e) (join-prepend c p ps (sep ∷ []) ∙ ap (λ t. c ∷ t) again)
    ]
