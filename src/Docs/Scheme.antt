-- ===== src/Docs/Scheme.antt =====
-- The security scheme in a document.
use mathlib.Core.List.{append-nil}
use kratos_micro_layout.Prelude.{
  ◌≡◌, ◌<◌, refl, sym, ap, ◌∙◌, arith, Bool, true, false, List, [], ◌∷◌, ◌++◌, All, All-append,
  Text, text_eq, codes, length, if◌then◌else◌, Bool-cases, inl, inr,
}
use kratos_micro_layout.Text.{contains, has_prefix}
use kratos_micro_layout.Text.Laws.{text_eq_refl, text_eq→eq}
use kratos_micro_layout.Docs.{
  lines, unlines, scheme_lines, security_lines, security_schemes_block, security_block,
  is_components, is_openapi, with_components, with_security_scheme,
}
use kratos_micro_layout.Docs.Lines.{
  IsLine, lines-unlines, unlines-append, unlines_behind, inserted, insert_after-inserted, Keeps,
  done, keep, skip, Keeps-refl, Keeps-behind, Keeps-trans, Keeps-inserted,
}
use kratos_micro_layout.Docs.Inserted.{
  HasBlock, any_line, inserted-append, inserted-HasBlock, inserted_none, inserted-longer,
  All-inserted,
}

pub scheme_lines-IsLine : All IsLine scheme_lines
unfolding contains
scheme_lines-IsLine = (refl, (refl, (refl, (refl, (refl, tt)))))

-- The lines of a document with the scheme under its components.
abbrev pub componented : List Text → List Text
componented ls =
    if any_line is_components ls
    then inserted is_components scheme_lines ls
    else ls ++ codes "components:" ∷ scheme_lines

schemes_block_lem : security_schemes_block ≡ unlines scheme_lines []
unfolding security_schemes_block
schemes_block_lem = refl

security_block_lem : security_block ≡ unlines security_lines []
unfolding security_block
security_block_lem = refl

pub nil-IsLine : IsLine []
unfolding contains
nil-IsLine = refl

unlines-apart :
    (xs ys : List Text)
    → All IsLine xs
    → All IsLine ys
    → length xs < length ys
    → text_eq (unlines ys []) (unlines xs []) ≡ false
unlines-apart xs ys hx hy shorter = elim (Bool-cases (text_eq (unlines ys []) (unlines xs []))) [
  | inr apart ↦ apart
  | inl same ↦
      let equal = text_eq→eq (unlines ys []) (unlines xs []) same in
      let lists : ys ≡ xs =
        ap (λ p. p.0)
          (sym (lines-unlines ys [] hy nil-IsLine)
            ∙ ap lines equal
            ∙ lines-unlines xs [] hx nil-IsLine) in
      absurd (omega (arith, ap length lists))
]

with_components-unlines :
    (ls : List Text) → All IsLine ls → with_components (unlines ls []) ≡ unlines (componented ls) []
unfolding with_components
with_components-unlines ls h =
    rw
      (
        lines-unlines ls [] h nil-IsLine,
        schemes_block_lem,
        insert_after-inserted is_components scheme_lines ls [],
      )
      (elim (Bool-cases (any_line is_components ls)) [
        | inl present ↦
            rw
              (
                present,
                unlines-apart ls (inserted is_components scheme_lines ls) h
                    (All-inserted is_components scheme_lines ls scheme_lines-IsLine h)
                    (inserted-longer is_components scheme_lines ls present (omega arith)),
              )
              refl
        | inr absent ↦
            rw (absent, inserted_none is_components scheme_lines ls absent, text_eq_refl)
              (unlines_behind ls _
                ∙ (unfold unlines in
                    sym (unlines-append ls (codes "components:" ∷ scheme_lines) [])))
      ])

pub componented-IsLine : (ls : List Text) → All IsLine ls → All IsLine (componented ls)
unfolding contains
componented-IsLine ls h = elim (Bool-cases (any_line is_components ls)) [
  | inl present ↦ rw present (All-inserted is_components scheme_lines ls scheme_lines-IsLine h)
  | inr absent ↦
      rw absent
        (All-append IsLine ls (codes "components:" ∷ scheme_lines) h (refl, scheme_lines-IsLine))
]

componented-Keeps : (ls : List Text) → Keeps ls (componented ls)
componented-Keeps ls = elim (Bool-cases (any_line is_components ls)) [
  | inl present ↦ rw present (Keeps-inserted is_components scheme_lines ls)
  | inr absent ↦ rw absent (Keeps-behind (codes "components:" ∷ scheme_lines) (Keeps-refl ls))
]

componented-HasBlock : (ls : List Text) → HasBlock is_components scheme_lines (componented ls)
componented-HasBlock ls = elim (Bool-cases (any_line is_components ls)) [
  | inl present ↦ rw present (inserted-HasBlock is_components scheme_lines ls present)
  | inr absent ↦ record {
    before = ls;
    line = codes "components:";
    after = [];
    passes = refl;
    splits = rw (absent, append-nil scheme_lines) refl;
  }
]

components_not_openapi : (l : Text) → is_components l ≡ true → is_openapi l ≡ false
unfolding is_openapi has_prefix
components_not_openapi l h = rw (text_eq→eq l (codes "components:") h) refl

-- Lines that are no `openapi:` line stay together when the requirement is put in.
pub HasBlock-inserted :
    (out : List Text)
    → HasBlock is_components scheme_lines out
    → HasBlock is_components scheme_lines (inserted is_openapi security_lines out)
unfolding inserted is_openapi has_prefix
HasBlock-inserted out h = record {
  before = inserted is_openapi security_lines h.before;
  line = h.line;
  after = inserted is_openapi security_lines h.after;
  passes = h.passes;
  splits =
      ap (inserted is_openapi security_lines) h.splits
      ∙ inserted-append is_openapi security_lines h.before (h.line ∷ (scheme_lines ++ h.after))
      ∙ rw (components_not_openapi h.line h.passes) refl;
}

pub with_security_scheme-unlines :
    (ls : List Text)
    → All IsLine ls
    → with_security_scheme (unlines ls [])
      ≡ unlines (inserted is_openapi security_lines (componented ls)) []
unfolding with_security_scheme
with_security_scheme-unlines ls h =
    rw
      (
        with_components-unlines ls h,
        lines-unlines (componented ls) [] (componented-IsLine ls h) nil-IsLine,
        security_block_lem,
      )
      (insert_after-inserted is_openapi security_lines (componented ls) [])

pub any_line-Keeps :
    (test : Text → Bool) {xs ys : List Text}
    → Keeps xs ys
    → any_line test xs ≡ true
    → any_line test ys ≡ true
unfolding any_line
any_line-Keeps test done h = h
any_line-Keeps test (keep x k) h = ground (arith, any_line-Keeps test k)
any_line-Keeps test (skip y k) h = ground (arith, any_line-Keeps test k h)

-- A document whose lines all end with a newline, and that has a line `openapi:`, keeps its lines in
-- order; the scheme is declared right below a line `components:`, which is added at the end where
-- it is missing, and the requirement stands right below a line `openapi:`.
pub with_security_scheme_lem :
    (ls : List Text)
    → All IsLine ls
    → any_line is_openapi ls ≡ true
    → (out : List Text) × (with_security_scheme (unlines ls []) ≡ unlines out [])
      × Keeps ls out
      × HasBlock is_components scheme_lines out
      × HasBlock is_openapi security_lines out
with_security_scheme_lem ls h versioned = (
  inserted is_openapi security_lines (componented ls),
  with_security_scheme-unlines ls h,
  Keeps-trans (componented-Keeps ls) (Keeps-inserted is_openapi security_lines (componented ls)),
  HasBlock-inserted (componented ls) (componented-HasBlock ls),
  inserted-HasBlock is_openapi security_lines (componented ls)
      (any_line-Keeps is_openapi (componented-Keeps ls) versioned),
)
