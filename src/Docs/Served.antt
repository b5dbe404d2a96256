-- ===== src/Docs/Served.antt =====
-- The document that Register mounts, as a client gets it: the security scheme of Spec and the servers
-- of handleSpec together.
use kratos_micro_layout.Prelude.{
  ◌≡◌, refl, sym, ap, ◌∙◌, true, false, Option, none, some, List, [], ◌∷◌, ◌++◌, All, Text, codes,
  inl, inr, ◌⊎◌,
}
use mathlib.Core.Path.{subst}
use kratos_micro_layout.Text.{has_prefix, contains}
use kratos_micro_layout.Http.{Request, Writer}
use kratos_micro_layout.Docs.{
  unlines, is_servers, is_url, url_first, is_components, is_openapi, scheme_lines, security_lines,
  origin, handle_spec, with_security_scheme, spec, spec_path, Mounts, mounts, register,
}
use kratos_micro_layout.Docs.Lines.{IsLine, inserted, Keeps, Keeps-trans, Keeps-inserted}
use kratos_micro_layout.Docs.Inserted.{HasBlock, any_line, inserted-HasBlock, All-inserted}
use kratos_micro_layout.Docs.Scheme.{
  componented, componented-IsLine, with_security_scheme-unlines, HasBlock-inserted, any_line-Keeps,
  nil-IsLine,
}
use kratos_micro_layout.Docs.Servers.{Serves, handle_spec_lem}
use kratos_micro_layout.Docs.Around.{
  url_is_plain, none_of_urls, inserted_servers, inserted-Ends, inserted_around, security_quiet,
  componented-Around,
}

register-some :
    (read_file : Text → Option Text) (domain raw : Text)
    → read_file (spec_path domain) ≡ some raw
    → (m : Mounts) × (register read_file domain ≡ some m) × (m.document ≡ with_security_scheme raw)
unfolding register spec
register-some read_file domain raw found =
    (mounts (with_security_scheme raw), rw (found, register, spec) refl, refl)

security_lines-IsLine : All IsLine security_lines
unfolding contains
security_lines-IsLine = (refl, (refl, tt))

with_security_scheme-lines :
    (ls out : List Text)
    → All IsLine ls
    → inserted is_openapi security_lines (componented ls) ≡ out
    → (with_security_scheme (unlines ls []) ≡ unlines out []) × All IsLine out
with_security_scheme-lines ls out h e = (
  with_security_scheme-unlines ls h ∙ ap (λ x. unlines x []) e,
  subst (All IsLine) e (
      All-inserted is_openapi security_lines (componented ls) security_lines-IsLine
        (componented-IsLine ls h)),
)

-- A list of servers between other lines, as handleSpec takes it.
abbrev list_of : Text → List Text → List Text
list_of u urls = codes "servers:" ∷ u ∷ urls

list_is_plain :
    (u : Text) (urls : List Text)
    → All (λ l. is_url l ≡ true) (u ∷ urls)
    → (any_line is_components (list_of u urls) ≡ false)
      × (any_line is_openapi (list_of u urls) ≡ false)
unfolding any_line is_openapi has_prefix
list_is_plain u urls h = (
  none_of_urls is_components (u ∷ urls) (λ l hl. (url_is_plain l hl).0) h,
  none_of_urls is_openapi (u ∷ urls) (λ l hl. (url_is_plain l hl).1) h,
)

-- What a client reads of a document: its lines before and behind the servers with the lines that
-- Spec adds, and the origin of the request between them.
pub record IsServed (pre post : List Text) (req : Request) (w : Writer) : Type 0 where
  pub before : List Text
  pub after : List Text
  pub keeps_before : Keeps pre before
  pub keeps_after : Keeps post after
  pub scheme :
      HasBlock is_components scheme_lines before ⊎ HasBlock is_components scheme_lines after
  pub required : HasBlock is_openapi security_lines before
  pub serves :
      Serves
        (unlines (before ++ codes "servers:" ∷ (codes "    - url: " ++ origin req) ∷ after) [])
        w

-- Register mounts the document of its domain so that a client, who is still there and was sent
-- nothing, reads the lines of the file in order, the scheme below a line `components:`, the
-- requirement below a line `openapi:` before the servers, and the origin of its own request as the
-- only server, if the file has one list of servers behind a line `openapi:` and its lines all end
-- with a newline.
pub register-IsServed :
    (read_file : Text → Option Text) (domain : Text) (pre urls post : List Text) (u : Text)
    (req : Request) (w : Writer)
    → read_file (spec_path domain)
      ≡ some (unlines (pre ++ codes "servers:" ∷ u ∷ (urls ++ post)) [])
    → All IsLine (pre ++ codes "servers:" ∷ u ∷ (urls ++ post))
    → any_line is_openapi pre ≡ true
    → any_line is_servers pre ≡ false
    → All (λ l. is_url l ≡ true) (u ∷ urls)
    → any_line is_servers post ≡ false
    → url_first post ≡ false
    → w.sent ≡ none
    → w.body ≡ []
    → w.gone ≡ false
    → (m : Mounts) × (register read_file domain ≡ some m)
      × IsServed pre post req (handle_spec m.document req w)
register-IsServed read_file domain pre urls post u req w found all_lines versioned hp hu hq ends
      unsent empty here =
    let list = list_of u urls in
    let ls = pre ++ (list ++ post) in
    let (plain, unversioned) = list_is_plain u urls hu in
    let (p, q, splits, around) = componented-Around pre list post hp plain (hq, ends) in
    let before = inserted is_openapi security_lines p in
    let after = inserted is_openapi security_lines q in
    let out : inserted is_openapi security_lines (componented ls) ≡ before ++ (list ++ after) =
      ap (inserted is_openapi security_lines) splits
      ∙ inserted_around is_openapi security_lines security_quiet p list q unversioned in
    let (m, mounted, document) = register-some read_file domain (unlines ls []) found in
    let (given, fit) = with_security_scheme-lines ls (before ++ (list ++ after)) all_lines out in
    let (none_after, ends_after) =
      inserted-Ends is_openapi security_lines security_quiet q around.ends in
    (
      m,
      mounted,
      record {
        before = before;
        after = after;
        keeps_before = Keeps-trans around.before (Keeps-inserted is_openapi security_lines p);
        keeps_after = Keeps-trans around.after (Keeps-inserted is_openapi security_lines q);
        scheme = elim around.scheme [
          | inl h ↦ inl (HasBlock-inserted p h)
          | inr h ↦ inr (HasBlock-inserted q h)
        ];
        required =
            inserted-HasBlock is_openapi security_lines p
              (any_line-Keeps is_openapi around.before versioned);
        serves =
            subst
              (λ d.
                Serves
                  (unlines
                    (before ++ codes "servers:" ∷ (codes "    - url: " ++ origin req) ∷ after) [])
                  (handle_spec d req w))
              (sym (document ∙ given))
              (handle_spec_lem before urls after u [] req w fit nil-IsLine
                (inserted_servers is_openapi security_lines security_quiet p around.none_before) hu
                none_after ends_after unsent empty here);
      },
    )
