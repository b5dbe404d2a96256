-- ===== src/Http/Laws.antt =====
-- Laws of headers.
use kratos_micro_layout.Prelude.{◌≡◌, ◌≢◌, refl, arith, [], ◌∷◌, ◌++◌, Text}
use kratos_micro_layout.Text.Laws.{text_eq_iff, text_eq_refl}
use kratos_micro_layout.Http.{Header, get, del, set, add}

pub get-del_append : (name : Text) (h k : Header) → get name (del name h ++ k) ≡ get name k
unfolding get del
get-del_append name [] k = refl
get-del_append name ((n, v) ∷ h) k = ground (arith, get-del_append name h k)

-- A field that was set is read back.
pub get-set_self : (name value : Text) (h : Header) → get name (set name value h) ≡ value
unfolding set
get-set_self name value h = rw get-del_append (unfold get in rw (text_eq_refl name))

del-append_other :
    (name other : Text) (value : Text) (h : Header)
    → other ≢ name
    → get other (del name h ++ (name, value) ∷ []) ≡ get other h
unfolding get del
del-append_other name other value [] ne = ground (arith, text_eq_iff name other)
del-append_other name other value ((n, v) ∷ h) ne =
    ground (arith, text_eq_iff n name, text_eq_iff n other, del-append_other name other value h ne)

-- Setting a field leaves the others as they were.
pub get-set_ne :
    (name other value : Text) (h : Header)
    → other ≢ name
    → get other (set name value h) ≡ get other h
unfolding set
get-set_ne name other value h ne = del-append_other name other value h ne

-- Adding a field leaves the others as they were.
pub get-add_ne :
    (name other value : Text) (h : Header)
    → other ≢ name
    → get other (add name value h) ≡ get other h
unfolding add get
get-add_ne name other value [] ne = ground (arith, text_eq_iff name other)
get-add_ne name other value ((n, v) ∷ h) ne = ground (arith, get-add_ne name other value h ne)
