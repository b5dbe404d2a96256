-- ===== src/Docs/Servers.antt =====
-- The servers of a served document.
use kratos_micro_layout.Prelude.{
  ◌≡◌, refl, sym, ap, ◌∙◌, arith, Bool, true, false, ◌&&◌, none, some, List, [], ◌∷◌, ◌++◌, All,
  Text, codes,
}
use mathlib.Core.List.{append_assoc}
use kratos_micro_layout.Http.{
  Request, Writer, Header, get, set, set_header, write, write_header, content_type, status_ok,
}
use kratos_micro_layout.Http.Laws.{get-set_self}
use kratos_micro_layout.Docs.{
  lines, unlines, is_servers, is_url, url_first, replace_servers, servers_block, origin,
  handle_spec,
}
use kratos_micro_layout.Docs.Lines.{IsLine, lines-unlines, unlines-append}
use kratos_micro_layout.Docs.Inserted.{any_line}

-- Without a line `servers:` that starts a list of urls nothing is replaced.
replace_servers_none :
    (block : Text) (inside : Bool) (ls : List Text) (last : Text)
    → any_line is_servers ls ≡ false
    → (inside && url_first ls) ≡ false
    → replace_servers block inside ls last ≡ unlines ls last
unfolding replace_servers any_line unlines url_first
replace_servers_none block inside [] last h out = refl
replace_servers_none block inside (l ∷ ls) last h out =
    ground (arith, replace_servers_none block false ls last)

-- A list of urls inside a match is left out.
replace_servers_urls :
    (block : Text) (urls post : List Text) (last : Text)
    → All (λ l. is_url l ≡ true) urls
    → any_line is_servers post ≡ false
    → url_first post ≡ false
    → replace_servers block true (urls ++ post) last ≡ unlines post last
unfolding replace_servers
replace_servers_urls block [] post last h none_left ends =
    replace_servers_none block true post last none_left ends
replace_servers_urls block (u ∷ urls) post last (hu, h) none_left ends =
    ground (arith, replace_servers_urls block urls post last h none_left ends)

replace_servers_list :
    (block : Text) (pre urls post : List Text) (u last : Text)
    → any_line is_servers pre ≡ false
    → All (λ l. is_url l ≡ true) (u ∷ urls)
    → any_line is_servers post ≡ false
    → url_first post ≡ false
    → replace_servers block false (pre ++ codes "servers:" ∷ u ∷ (urls ++ post)) last
      ≡ unlines pre (block ++ unlines post last)
unfolding replace_servers any_line unlines url_first
replace_servers_list block [] urls post u last hp hu none_left ends =
    rw hu.0 (ap (λ t. block ++ t) (replace_servers_urls block urls post last hu.1 none_left ends))
replace_servers_list block (l ∷ pre) urls post u last hp hu none_left ends =
    ground (arith, replace_servers_list block pre urls post u last)

-- The block that stands for the servers, as lines.
abbrev block_lines : Request → List Text
block_lines req = codes "servers:" ∷ (codes "    - url: " ++ origin req) ∷ []

servers_block-append :
    (req : Request) (t : Text) → servers_block req ++ t ≡ unlines (block_lines req) t
unfolding unlines
servers_block-append req t =
    ap (λ s. codes "servers:" ++ (10 ∷ (codes "    - url: " ++ s)))
      (append_assoc (origin req) (10 ∷ []) t)

-- What a client gets: the status 200 under this header, and this body.
abbrev pub Serves : Text → Writer → Type 0
Serves body w =
    (h : Header) × (w.sent ≡ some (status_ok, h))
    × (get (codes "Cache-Control") h ≡ codes "no-store")
    × (w.body ≡ body)

handle_spec-Serves :
    (doc : Text) (ls : List Text) (last body : Text) (req : Request) (w : Writer)
    → lines doc ≡ (ls, last)
    → replace_servers (servers_block req) false ls last ≡ body
    → w.sent ≡ none
    → w.body ≡ []
    → w.gone ≡ false
    → Serves body (handle_spec doc req w)
unfolding handle_spec write write_header set_header
handle_spec-Serves doc ls last body req w split replaced unsent empty here =
    let typed = set content_type (codes "application/yaml; charset=utf-8") w.header in
    (
      set (codes "Cache-Control") (codes "no-store") typed,
      ground arith,
      get-set_self (codes "Cache-Control") (codes "no-store") typed,
      ground arith,
    )

-- A document with one list of servers is served with the list that names only the origin of the
-- request, all its other lines as they are, and never from a cache.
pub handle_spec_lem :
    (pre urls post : List Text) (u last : Text) (req : Request) (w : Writer)
    → All IsLine (pre ++ codes "servers:" ∷ u ∷ (urls ++ post))
    → IsLine last
    → any_line is_servers pre ≡ false
    → All (λ l. is_url l ≡ true) (u ∷ urls)
    → any_line is_servers post ≡ false
    → url_first post ≡ false
    → w.sent ≡ none
    → w.body ≡ []
    → w.gone ≡ false
    → Serves
        (unlines (pre ++ codes "servers:" ∷ (codes "    - url: " ++ origin req) ∷ post) last)
        (handle_spec (unlines (pre ++ codes "servers:" ∷ u ∷ (urls ++ post)) last) req w)
handle_spec_lem pre urls post u last req w all_lines last_line hp hu none_left ends unsent empty
      here =
    let ls = pre ++ codes "servers:" ∷ u ∷ (urls ++ post) in
    handle_spec-Serves (unlines ls last) ls last _ req w (lines-unlines ls last all_lines last_line)
      (replace_servers_list (servers_block req) pre urls post u last hp hu none_left ends
        ∙ ap (unlines pre) (servers_block-append req (unlines post last))
        ∙ (unfold unlines in sym (unlines-append pre (block_lines req ++ post) last)))
      unsent empty here
