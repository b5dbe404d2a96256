-- ===== src/Quote/Laws.antt =====
-- A quoted text has no control character.
use kratos_micro_layout.Prelude.{
  ℕ, ◌≡◌, refl, arith, Bool, true, false, ◌||◌, [], ◌∷◌, Text, ltb, ◌==◌, if◌then◌else◌,
}
use kratos_micro_layout.Text.{contains}
use kratos_micro_layout.Text.Laws.{contains-append}
use kratos_micro_layout.Quote.{
  hex_digit, hex2, hex4, hex8, is_print, escape_letter, quote_char, quote_body, quote,
}

hex2-newline : (n : ℕ) → contains (hex2 n) 10 ≡ false
unfolding hex2 hex_digit contains
hex2-newline n = ground arith

hex4-newline : (n : ℕ) → contains (hex4 n) 10 ≡ false
unfolding hex4
hex4-newline n = rw (contains-append, hex2-newline, hex2-newline) refl

hex8-newline : (n : ℕ) → contains (hex8 n) 10 ≡ false
unfolding hex8
hex8-newline n = rw (contains-append, hex4-newline, hex4-newline) refl

if-newline :
    (b : Bool) (s t : Text)
    → (b ≡ true → contains s 10 ≡ false)
    → contains t 10 ≡ false
    → contains (if b then s else t) 10 ≡ false
if-newline true s t hs ht = hs refl
if-newline false s t hs ht = ht

escape_letter-newline : (c : ℕ) → (10 == escape_letter c) ≡ false
unfolding escape_letter
escape_letter-newline c = ground arith

two-newline : (c d : ℕ) → (10 == c) ≡ false → (10 == d) ≡ false → contains (c ∷ d ∷ []) 10 ≡ false
unfolding contains
two-newline c d hc hd = ground arith

escaped-newline :
    (c : ℕ) (s : Text)
    → (10 == c) ≡ false
    → contains s 10 ≡ false
    → contains (b'\\' ∷ c ∷ s) 10 ≡ false
unfolding contains
escaped-newline c s hc hs = ground arith

module _ (printable : ℕ → Bool) where
  printed-newline : (c : ℕ) → is_print printable c ≡ true → contains (c ∷ []) 10 ≡ false
  unfolding is_print contains
  printed-newline c h = ground arith

  quote_char-newline : (c : ℕ) → contains (quote_char printable c) 10 ≡ false
  unfolding quote_char
  quote_char-newline c =
      if-newline (c == b'"' || c == b'\\') _ _ (λ h. two-newline b'\\' c refl (ground arith))
        (if-newline (is_print printable c) _ _ (λ h. printed-newline c h)
          (if-newline (ltb 0 (escape_letter c)) _ _
            (λ h. two-newline b'\\' (escape_letter c) refl (escape_letter-newline c))
            (if-newline (ltb c 0x20 || c == 0x7f) _ _
              (λ h. escaped-newline b'x' (hex2 c) refl (hex2-newline c))
              (if-newline (ltb c 0x10000) _ _
                (λ h. escaped-newline b'u' (hex4 c) refl (hex4-newline c))
                (escaped-newline b'U' (hex8 c) refl (hex8-newline c))))))

  quote_body-newline : (s : Text) → contains (quote_body printable s) 10 ≡ false
  unfolding quote_body contains
  quote_body-newline [] = refl
  quote_body-newline (c ∷ s) = rw (contains-append, quote_char-newline, quote_body-newline s) refl

  -- A quoted text has no newline.
  pub quote-newline : (s : Text) → contains (quote printable s) 10 ≡ false
  unfolding quote contains
  quote-newline s = rw (contains-append, quote_body-newline) refl
