-- ===== src/Docs/Around.antt =====
-- What surrounds the list of servers of a document when the security scheme is added.
use mathlib.Core.List.{append_assoc}
use kratos_micro_layout.Prelude.{
  ◌≡◌, refl, sym, ap, ◌∙◌, arith, Bool, true, false, ◌||◌, List, [], ◌∷◌, ◌++◌, All, Text, codes,
  Bool-cases, inl, inr, ◌⊎◌,
}
use kratos_micro_layout.Text.{has_prefix}
use kratos_micro_layout.Docs.{
  starts_blank, is_blank, is_servers, is_url, url_first, is_components, is_openapi, scheme_lines,
  security_lines,
}
use kratos_micro_layout.Docs.Lines.{inserted, Keeps, Keeps-refl, Keeps-behind, Keeps-inserted}
use kratos_micro_layout.Docs.Inserted.{
  HasBlock, any_line, inserted-append, inserted-HasBlock, inserted_none,
}
use kratos_micro_layout.Docs.Scheme.{componented}

pub url_is_plain : (l : Text) → is_url l ≡ true → (is_components l ≡ false) × (is_openapi l ≡ false)
unfolding is_url is_openapi has_prefix starts_blank is_blank
url_is_plain [] h = ground arith
url_is_plain (c ∷ s) h = ground arith

pub any_line-append :
    (test : Text → Bool) (xs ys : List Text)
    → any_line test (xs ++ ys) ≡ (any_line test xs || any_line test ys)
unfolding any_line
any_line-append test [] ys = refl
any_line-append test (x ∷ xs) ys = ground (arith, any_line-append test xs ys)

pub none_of_urls :
    (test : Text → Bool) (urls : List Text)
    → ((l : Text) → is_url l ≡ true → test l ≡ false)
    → All (λ l. is_url l ≡ true) urls
    → any_line test urls ≡ false
unfolding any_line
none_of_urls test [] plain h = refl
none_of_urls test (l ∷ ls) plain (hl, h) = rw (plain l hl) (none_of_urls test ls plain h)

-- What stands behind a list of servers neither starts another list nor goes on with this one.
abbrev pub Ends : List Text → Type 0
Ends post = (any_line is_servers post ≡ false) × (url_first post ≡ false)

module _ (test : Text → Bool) (block : List Text) (quiet : any_line is_servers block ≡ false) where
  pub inserted_servers :
      (ls : List Text)
      → any_line is_servers ls ≡ false
      → any_line is_servers (inserted test block ls) ≡ false
  unfolding inserted any_line
  inserted_servers [] h = refl
  inserted_servers (l ∷ ls) h = elim (Bool-cases (test l)) [
    | inl here ↦
        rw (here, any_line-append is_servers block, quiet) (ground (arith, inserted_servers ls))
    | inr absent ↦ rw absent (ground (arith, inserted_servers ls))
  ]

  pub inserted-Ends : (ls : List Text) → Ends ls → Ends (inserted test block ls)
  unfolding inserted url_first
  inserted-Ends [] h = h
  inserted-Ends (l ∷ ls) (h, first) = (inserted_servers (l ∷ ls) h, first)

  -- Lines between that fail the test stay together.
  pub inserted_around :
      (pre list post : List Text)
      → any_line test list ≡ false
      → inserted test block (pre ++ (list ++ post))
        ≡ inserted test block pre ++ (list ++ inserted test block post)
  inserted_around pre list post h =
      inserted-append test block pre (list ++ post)
      ∙ ap (λ t. inserted test block pre ++ t)
          (inserted-append test block list post
            ∙ ap (λ t. t ++ inserted test block post) (inserted_none test block list h))

-- What a document keeps around its list of servers when lines are added.
pub record Around (pre post p q : List Text) : Type 0 where
  pub before : Keeps pre p
  pub after : Keeps post q
  pub none_before : any_line is_servers p ≡ false
  pub ends : Ends q
  pub scheme : HasBlock is_components scheme_lines p ⊎ HasBlock is_components scheme_lines q

pub components_end :
    (post : List Text)
    → url_first post ≡ false
    → url_first (post ++ codes "components:" ∷ scheme_lines) ≡ false
unfolding url_first is_url starts_blank
components_end [] h = refl
components_end (l ∷ ls) h = h

scheme_quiet : any_line is_servers scheme_lines ≡ false
unfolding any_line
scheme_quiet = refl

pub security_quiet : any_line is_servers security_lines ≡ false
unfolding any_line
security_quiet = refl

module _ (pre list post : List Text) (hp : any_line is_servers pre ≡ false)
    (plain : any_line is_components list ≡ false) (hq : Ends post) where
  with_present :
      any_line is_components (pre ++ (list ++ post)) ≡ true
      → Around pre post
          (inserted is_components scheme_lines pre)
          (inserted is_components scheme_lines post)
  with_present present = record {
    before = Keeps-inserted is_components scheme_lines pre;
    after = Keeps-inserted is_components scheme_lines post;
    none_before = inserted_servers is_components scheme_lines scheme_quiet pre hp;
    ends = inserted-Ends is_components scheme_lines scheme_quiet post hq;
    scheme = elim (Bool-cases (any_line is_components pre)) [
      | inl here ↦ inl (inserted-HasBlock is_components scheme_lines pre here)
      | inr absent ↦ inr (
          inserted-HasBlock is_components scheme_lines post (
            sym (
              any_line-append is_components pre (list ++ post)
              ∙ rw (absent, any_line-append is_components list post, plain) refl)
            ∙ present))
    ];
  }

  with_none : Around pre post pre (post ++ codes "components:" ∷ scheme_lines)
  unfolding any_line
  with_none = record {
    before = Keeps-refl pre;
    after = Keeps-behind (codes "components:" ∷ scheme_lines) (Keeps-refl post);
    none_before = hp;
    ends = (rw (any_line-append is_servers post, hq.0) refl, components_end post hq.1);
    scheme = inr (record {
      before = post;
      line = codes "components:";
      after = [];
      passes = refl;
      splits = refl;
    });
  }

  pub componented-Around :
      (p : List Text) × (q : List Text) × (componented (pre ++ (list ++ post)) ≡ p ++ (list ++ q))
      × Around pre post p q
  componented-Around = elim (Bool-cases (any_line is_components (pre ++ (list ++ post)))) [
    | inl present ↦ (
      inserted is_components scheme_lines pre,
      inserted is_components scheme_lines post,
      rw present (inserted_around is_components scheme_lines scheme_quiet pre list post plain),
      with_present present,
    )
    | inr absent ↦ (
      pre,
      post ++ codes "components:" ∷ scheme_lines,
      rw absent (append_assoc pre (list ++ post) _ ∙ ap (λ t. pre ++ t) (append_assoc list post _)),
      with_none,
    )
  ]
