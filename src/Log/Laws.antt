-- ===== src/Log/Laws.antt =====
-- When a logger is refused.
use kratos_micro_layout.Prelude.{
  ℕ, ◌≡◌, ◌≢◌, ◌↔◌, ◌⊎◌, inl, inr, refl, arith, true, false, [], ◌∷◌, map, All, Text, text_eq,
  codes, is_empty_iff, ◌==◌,
}
use kratos_micro_layout.Prelude.Result.{err}
use kratos_micro_layout.Text.{to_lower, lower, fold, equal_fold, trim_space, contains}
use kratos_micro_layout.Text.Laws.{text_eq→eq}
use kratos_micro_layout.Log.{Options, file, no_file_path, writer, new}

-- The dotted capital I, the one letter whose lower case is in ASCII though it folds to no ASCII.
abbrev pub dotted_i : ℕ
dotted_i = 0x130

-- A letter of the word "file".
abbrev IsLetter : ℕ → Type 0
IsLetter x = (x ≡ b'f') ⊎ ((x ≡ b'i') ⊎ ((x ≡ b'l') ⊎ (x ≡ b'e')))

-- Lower case and folding agree on which letters match such a letter.
lower-fold : (c x : ℕ) → IsLetter x → c ≢ dotted_i → (lower c == x) ≡ (fold c == x)
unfolding lower fold
lower-fold c x letter plain = ground arith

to_lower-fold :
    (s t : Text)
    → contains s dotted_i ≡ false
    → All IsLetter t
    → text_eq (map lower s) t ≡ text_eq (map fold s) t
unfolding contains
to_lower-fold [] t plain letters = refl
to_lower-fold (c ∷ s) [] plain letters = refl
to_lower-fold (c ∷ s) (x ∷ t) plain (letter, letters) =
    let rest = to_lower-fold s t (ground arith) letters in
    ground (arith, lower-fold c x letter (ground arith), rest)

to_lower-equal_fold :
    (s : Text)
    → contains s dotted_i ≡ false
    → text_eq (to_lower s) (codes "file") ≡ equal_fold s (codes "file")
unfolding to_lower equal_fold fold
to_lower-equal_fold s plain =
    to_lower-fold s (codes "file") plain
      (inl refl, (inr (inl refl), (inr (inr (inl refl)), (inr (inr (inr refl)), tt))))

stderr_not_file : (s : Text) → text_eq s (codes "file") ≡ true → text_eq s (codes "stderr") ≡ false
stderr_not_file s e = rw (text_eq→eq s (codes "file") e) refl

writer_file :
    (o : Options)
    → (writer o ≡ file o.file_path o.rotation)
      ↔ (text_eq (to_lower (trim_space o.output)) (codes "file") ≡ true)
unfolding writer
writer_file o = ground (arith, stderr_not_file (to_lower (trim_space o.output)))

-- Unless the output has a dotted capital I, New refuses exactly the options that select a file and
-- give it a blank path.
pub new-err_iff :
    (o : Options)
    → contains (trim_space o.output) dotted_i ≡ false
    → (new o ≡ err (no_file_path o.output))
      ↔ ((writer o ≡ file o.file_path o.rotation) × (trim_space o.file_path ≡ []))
unfolding new
new-err_iff o plain = ground (
  arith,
  writer_file o,
  to_lower-equal_fold (trim_space o.output) plain,
  is_empty_iff (trim_space o.file_path),
)
