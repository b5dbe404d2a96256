-- ===== src/Log/Color/Plain.antt =====
-- Colored lines against plain ones.
use mathlib.Core.List.{append_assoc}
use kratos_micro_layout.Prelude.{
  ℕ, ◌≡◌, refl, sym, ap, ◌∙◌, arith, ◌&&◌, ◌||◌, not, Bool, true, false, [], ◌∷◌, ◌++◌, Text, codes,
  is_empty, if◌then◌else◌, ◌==◌, Bool-cases, inl, inr,
}
use kratos_micro_layout.Prelude.Int.{ℤ, leb_ℤ}
use kratos_micro_layout.Text.{contains}
use kratos_micro_layout.Text.Laws.{contains-append}
use kratos_micro_layout.Log.Color.{
  Record, ColorHandler, colorize, level_tag, source_location, head, handle, write_stored,
  write_attrs, ansi_gray, ansi_reset, ansi_bold, ansi_red, ansi_yellow, ansi_green, ansi_blue,
  level_info, level_warn, level_error,
}

-- What a terminal shows: the text without the sequences from an escape to the next `m`; the flag is
-- whether the position is in one.
unfoldable pub shown : Bool → Text → Text
shown inside [] = []
shown inside (c ∷ s) =
    let skipped = shown true s in
    let rest = shown false s in
    if inside then (if c == b'm' then rest else skipped) else if c == 27 then skipped else c ∷ rest

-- A text without an escape is shown as it is.
shown-append : (s t : Text) → contains s 27 ≡ false → shown false (s ++ t) ≡ s ++ shown false t
unfolding shown contains
shown-append [] t h = refl
shown-append (c ∷ s) t h = ground (arith, shown-append s t)

shown_all : (s : Text) → contains s 27 ≡ false → shown false s ≡ s
unfolding shown contains
shown_all [] h = refl
shown_all (c ∷ s) h = ground (arith, shown_all s)

-- A text that is all sequences
abbrev IsHidden : Text → Type 0
IsHidden color = (t : Text) → shown false (color ++ t) ≡ shown false t

hidden :
    (IsHidden ansi_gray)
    × (IsHidden (ansi_bold ++ ansi_red))
    × (IsHidden (ansi_bold ++ ansi_yellow))
    × (IsHidden (ansi_bold ++ ansi_green))
    × (IsHidden (ansi_bold ++ ansi_blue))
    × IsHidden ansi_reset
unfolding shown
hidden = ((λ t. refl), (λ t. refl), (λ t. refl), (λ t. refl), (λ t. refl), (λ t. refl))

-- The handler without color
abbrev pub uncolored : ColorHandler → ColorHandler
uncolored h = record h { color = false }

shown-colorize :
    (h : ColorHandler) (color s t : Text)
    → IsHidden color
    → contains s 27 ≡ false
    → shown false (colorize h color s ++ t) ≡ s ++ shown false t
unfolding colorize
shown-colorize h color s t hide h27 = elim (Bool-cases h.color) [
  | inr plain ↦ rw plain (shown-append s t h27)
  | inl colored ↦ rw colored (
      ap (shown false) (
        append_assoc color (s ++ ansi_reset) t ∙ ap (λ x. color ++ x) (append_assoc s ansi_reset t))
      ∙ hide (s ++ (ansi_reset ++ t))
      ∙ shown-append s (ansi_reset ++ t) h27
      ∙ ap (λ x. s ++ x) (hidden.5 t))
]

-- A tag is colored by sequences, and has none itself.
record Tag (level : ℤ) : Type 0 where
  color : Text
  tag : Text
  hides : IsHidden color
  shows : contains tag 27 ≡ false
  prints : (h : ColorHandler) → level_tag h level ≡ colorize h color tag

Tag-level : (level : ℤ) → Tag level
unfolding level_tag contains
Tag-level level = elim (Bool-cases (leb_ℤ level_error level)) [
  | inl e ↦ record {
    color = ansi_bold ++ ansi_red;
    tag = codes "ERROR";
    hides = hidden.1;
    shows = refl;
    prints = λ h. rw e refl;
  }
  | inr ne ↦ elim (Bool-cases (leb_ℤ level_warn level)) [
    | inl w ↦ record {
      color = ansi_bold ++ ansi_yellow;
      tag = codes "WARN ";
      hides = hidden.2;
      shows = refl;
      prints = λ h. rw (ne, w) refl;
    }
    | inr nw ↦ elim (Bool-cases (leb_ℤ level_info level)) [
      | inl n ↦ record {
        color = ansi_bold ++ ansi_green;
        tag = codes "INFO ";
        hides = hidden.3;
        shows = refl;
        prints = λ h. rw (ne, nw, n) refl;
      }
      | inr nn ↦ record {
        color = ansi_bold ++ ansi_blue;
        tag = codes "DEBUG";
        hides = hidden.4;
        shows = refl;
        prints = λ h. rw (ne, nw, nn) refl;
      }
    ]
  ]
]

colorize-uncolored : (h : ColorHandler) (color s : Text) → colorize (uncolored h) color s ≡ s
unfolding colorize
colorize-uncolored h color s = refl

shown-level_tag :
    (h : ColorHandler) (level : ℤ) (t : Text)
    → shown false (level_tag h level ++ t) ≡ level_tag (uncolored h) level ++ shown false t
shown-level_tag h level t =
    let g = Tag-level level in
    ap (λ x. shown false (x ++ t)) (g.prints h)
    ∙ shown-colorize h g.color g.tag t g.hides g.shows
    ∙ ap (λ x. x ++ shown false t)
        (sym (g.prints (uncolored h) ∙ colorize-uncolored h g.color g.tag))

or_false : (a b : Bool) → (a || b) ≡ false → (a ≡ false) × (b ≡ false)
or_false a b h = ground arith

-- Neither part of a text without an escape has one.
apart :
    (s t : Text) → contains (s ++ t) 27 ≡ false → (contains s 27 ≡ false) × (contains t 27 ≡ false)
apart s t h = or_false (contains s 27) (contains t 27) (sym (contains-append s t 27) ∙ h)

source_part : ColorHandler → Text → Text
source_part h src =
    if h.add_source && not (is_empty src) then b' ' ∷ colorize h ansi_gray src else []

-- The first text is shown as the second in front of anything.
record Peels (a b : Text) : Type 0 where
  peel : (t : Text) → shown false (a ++ t) ≡ b ++ shown false t

Peels-append : {a b a' b' : Text} → Peels a b → Peels a' b' → Peels (a ++ a') (b ++ b')
Peels-append {a} {b} {a'} {b'} p q = record {
  peel = λ t.
      ap (shown false) (append_assoc a a' t)
      ∙ p.peel (a' ++ t)
      ∙ ap (λ x. b ++ x) (q.peel t)
      ∙ sym (append_assoc b b' (shown false t));
}

Peels-space : {a b : Text} → Peels a b → Peels (b' ' ∷ a) (b' ' ∷ b)
unfolding shown
Peels-space p = record { peel = λ t. ap (λ x. b' ' ∷ x) (p.peel t) }

colorize-Peels :
    (h : ColorHandler) (color s : Text)
    → IsHidden color
    → contains s 27 ≡ false
    → Peels (colorize h color s) (colorize (uncolored h) color s)
colorize-Peels h color s hide h27 = record {
  peel = λ t.
      shown-colorize h color s t hide h27
      ∙ ap (λ x. x ++ shown false t) (sym (colorize-uncolored h color s));
}

source_part-Peels :
    (h : ColorHandler) (src : Text)
    → contains (source_part (uncolored h) src) 27 ≡ false
    → Peels (source_part h src) (source_part (uncolored h) src)
unfolding source_part contains colorize
source_part-Peels h src none = elim (Bool-cases (h.add_source && not (is_empty src))) [
  | inr absent ↦ rw absent (record { peel = λ t. refl })
  | inl present ↦
      rw present (Peels-space (colorize-Peels h ansi_gray src hidden.0 (rw present at none)))
]

head-Peels :
    (frame : ℕ → Text × ℕ) (h : ColorHandler) (r : Record)
    → contains (head frame (uncolored h) r) 27 ≡ false
    → Peels (head frame h r) (head frame (uncolored h) r)
unfolding head source_part contains
head-Peels frame h r none =
    let src = source_location frame r.pc in
    let plain = uncolored h in
    let (time, rest) = apart (colorize plain ansi_gray r.time) _ none in
    let (tag, rest') = apart (level_tag plain r.level) _ rest in
    let (source, message) = apart (source_part plain src) (b' ' ∷ r.message) rest' in
    Peels-append
      (colorize-Peels h ansi_gray r.time hidden.0
        (ap (λ x. contains x 27) (sym (colorize-uncolored h ansi_gray r.time)) ∙ time))
      (Peels-space (
        Peels-append (record { peel = shown-level_tag h r.level })
          (Peels-append (source_part-Peels h src source)
            (Peels-space (record { peel = λ t. shown-append r.message t message })))))

-- A terminal shows a colored line as the line of the handler without color, if that line has no
-- escape.
pub handle-uncolored :
    (printable : ℕ → Bool) (frame : ℕ → Text × ℕ) (h : ColorHandler) (r : Record)
    → contains (handle printable frame (uncolored h) r) 27 ≡ false
    → shown false (handle printable frame h r) ≡ handle printable frame (uncolored h) r
unfolding handle
handle-uncolored printable frame h r none =
    let rest =
      write_stored printable h.attrs ++ (write_attrs printable h.group r.attrs ++ codes "\n") in
    let (front, behind) = apart (head frame (uncolored h) r) rest none in
    (head-Peels frame h r front).peel rest
    ∙ ap (λ x. head frame (uncolored h) r ++ x) (shown_all rest behind)
