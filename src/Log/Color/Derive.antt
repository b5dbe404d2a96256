-- ===== src/Log/Color/Derive.antt =====
-- Handlers that are derived by WithAttrs and WithGroup print what the base handler prints of the
-- nested record.
use mathlib.Core.List.{append-nil, append_assoc}
use kratos_micro_layout.Prelude.{
  ℕ, ◌≡◌, refl, sym, ap, ◌∙◌, Bool, List, [], ◌∷◌, ◌++◌, Text, codes, is_empty, if◌then◌else◌,
}
use kratos_micro_layout.Log.Color
use kratos_micro_layout.Log.Color.{
  Attr, attr, Value, nothing, text, other, group, valuer, Attrs, nil, cons, Record, ColorHandler,
  join_group, flatten, flatten_value, flatten_all, pair, write_attr, write_value, write_attrs,
  write_stored, head, handle,
}

-- A handler's history: the calls that derive it from its base.
pub data Derivation : Type 0 where
  with_attrs : Attrs → Derivation
  with_group : Text → Derivation

abbrev pub derive : List Derivation → ColorHandler → ColorHandler
derive [] h = h
derive (Derivation.with_attrs more ∷ ops) h = derive ops (Color.with_attrs more h)
derive (Derivation.with_group name ∷ ops) h = derive ops (Color.with_group name h)

abbrev pub append : Attrs → Attrs → Attrs
append nil ys = ys
append (cons a xs) ys = cons a (append xs ys)

-- What slog promises of these calls: attributes go before the record's, and everything behind a
-- group stands in it. An empty name is no group.
abbrev pub nest : List Derivation → Attrs → Attrs
nest [] record_attrs = record_attrs
nest (Derivation.with_attrs more ∷ ops) record_attrs = append more (nest ops record_attrs)
nest (Derivation.with_group name ∷ ops) record_attrs =
    if is_empty name
    then nest ops record_attrs
    else cons (attr name (group (nest ops record_attrs))) nil

-- Deriving changes neither the level nor what is printed in front of the attributes.
with_attrs-head :
    (frame : ℕ → Text × ℕ) (more : Attrs) (h : ColorHandler) (r : Record)
    → head frame (Color.with_attrs more h) r ≡ head frame h r
unfolding head Color.with_attrs
with_attrs-head frame nil h r = refl
with_attrs-head frame (cons a more) h r = refl

with_group-head :
    (frame : ℕ → Text × ℕ) (name : Text) (h : ColorHandler) (r : Record)
    → head frame (Color.with_group name h) r ≡ head frame h r
unfolding head Color.with_group
with_group-head frame [] h r = refl
with_group-head frame (c ∷ name) h r = refl

derive-head :
    (frame : ℕ → Text × ℕ) (ops : List Derivation) (h : ColorHandler) (r : Record)
    → head frame (derive ops h) r ≡ head frame h r
derive-head frame [] h r = refl
derive-head frame (Derivation.with_attrs more ∷ ops) h r =
    derive-head frame ops (Color.with_attrs more h) r ∙ with_attrs-head frame more h r
derive-head frame (Derivation.with_group name ∷ ops) h r =
    derive-head frame ops (Color.with_group name h) r ∙ with_group-head frame name h r

module _ (printable : ℕ → Bool) where
  write_attrs-append :
      (g : Text) (xs ys : Attrs)
      → write_attrs printable g (append xs ys)
        ≡ write_attrs printable g xs ++ write_attrs printable g ys
  unfolding write_attr
  write_attrs-append g nil ys = refl
  write_attrs-append g (cons a xs) ys =
      rw (write_attrs-append g xs ys) (sym (append_assoc (write_attr printable g a) _ _))

  write_stored-append :
      (xs ys : List Attr)
      → write_stored printable (xs ++ ys) ≡ write_stored printable xs ++ write_stored printable ys
  unfolding write_stored
  write_stored-append [] ys = refl
  write_stored-append (a ∷ xs) ys =
      rw (write_stored-append xs ys) (sym (append_assoc (write_attr printable [] a) _ _))

  -- A stored attribute is printed as it would have been where it was added.
  mutual
    unfolding flatten write_attr write_stored pair join_group

    stored-flatten :
        (g : Text) (a : Attr) → write_stored printable (flatten g a) ≡ write_attr printable g a
    stored-flatten g (attr key v) = stored-flatten_value g key v

    stored-flatten_value :
        (g key : Text) (v : Value)
        → write_stored printable (flatten_value g key v) ≡ write_value printable g key v
    stored-flatten_value g [] nothing = refl
    stored-flatten_value [] (c ∷ key) nothing =
        append-nil (pair printable [] (c ∷ key) (codes "<nil>"))
    stored-flatten_value (d ∷ g) (c ∷ key) nothing =
        append-nil (pair printable (d ∷ g) (c ∷ key) (codes "<nil>"))
    stored-flatten_value g key (text []) = refl
    stored-flatten_value g key (text (c ∷ s)) = append-nil (pair printable g key (c ∷ s))
    stored-flatten_value g key (other s) = append-nil (pair printable g key s)
    stored-flatten_value g key (group more) = stored-flatten_all (join_group g key) more
    stored-flatten_value g key (valuer v) = stored-flatten_value g key v

    stored-flatten_all :
        (g : Text) (more : Attrs)
        → write_stored printable (flatten_all g more) ≡ write_attrs printable g more
    stored-flatten_all g nil = refl
    stored-flatten_all g (cons a more) =
        write_stored-append (flatten g a) (flatten_all g more)
        ∙ rw (stored-flatten g a, stored-flatten_all g more) refl

  -- What a handler prints of its attributes and a record's.
  abbrev printed : ColorHandler → Attrs → Text
  printed h record_attrs =
      write_stored printable h.attrs ++ write_attrs printable h.group record_attrs

  with_attrs-printed :
      (more record_attrs : Attrs) (h : ColorHandler)
      → printed (Color.with_attrs more h) record_attrs ≡ printed h (append more record_attrs)
  unfolding Color.with_attrs
  with_attrs-printed nil record_attrs h = refl
  with_attrs-printed (cons a more) record_attrs h =
      rw
        (
          write_stored-append h.attrs (flatten_all h.group (cons a more)),
          stored-flatten_all h.group (cons a more),
          write_attrs-append h.group (cons a more) record_attrs,
        )
        (append_assoc (write_stored printable h.attrs) _ _)

  with_group-printed :
      (name : Text) (record_attrs : Attrs) (h : ColorHandler)
      → printed (Color.with_group name h) record_attrs
        ≡ printed h
            (if is_empty name then record_attrs else cons (attr name (group record_attrs)) nil)
  unfolding Color.with_group write_attr
  with_group-printed [] record_attrs h = refl
  with_group-printed (c ∷ name) record_attrs h =
      ap (λ t. write_stored printable h.attrs ++ t) (sym (append-nil _))

  derive-printed :
      (ops : List Derivation) (h : ColorHandler) (record_attrs : Attrs)
      → printed (derive ops h) record_attrs ≡ printed h (nest ops record_attrs)
  derive-printed [] h record_attrs = refl
  derive-printed (Derivation.with_attrs more ∷ ops) h record_attrs =
      derive-printed ops (Color.with_attrs more h) record_attrs
      ∙ with_attrs-printed more (nest ops record_attrs) h
  derive-printed (Derivation.with_group name ∷ ops) h record_attrs =
      derive-printed ops (Color.with_group name h) record_attrs
      ∙ with_group-printed name (nest ops record_attrs) h

  -- A handler that WithAttrs and WithGroup derived prints, of every record, the line that its base
  -- prints of the record with the attributes nested as slog defines these calls.
  pub handle-derive :
      (frame : ℕ → Text × ℕ) (ops : List Derivation) (h : ColorHandler) (r : Record)
      → handle printable frame (derive ops h) r
        ≡ handle printable frame h (record r { attrs = nest ops r.attrs })
  unfolding handle head
  handle-derive frame ops h r =
      rw
        (
          derive-head frame ops h r,
          ← append_assoc (write_stored printable (derive ops h).attrs)
              (write_attrs printable (derive ops h).group r.attrs) (codes "\n"),
          derive-printed ops h r.attrs,
        )
        (ap (λ t. head frame h r ++ t)
          (append_assoc (write_stored printable h.attrs) _ (codes "\n")))
