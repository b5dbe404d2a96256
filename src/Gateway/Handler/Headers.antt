-- ===== src/Gateway/Handler/Headers.antt =====
-- What the answers of a route keep of a header that was set before.
use kratos_micro_layout.Prelude.{
  ℕ, ◌≡◌, ◌≢◌, refl, ◌∙◌, arith, Option, none, some, [], ◌∷◌, Text, codes,
}
use kratos_micro_layout.Http.{
  Header, Writer, get, add, set, add_header, set_header, write, write_header, content_type,
}
use kratos_micro_layout.Http.Laws.{get-set_ne}
use kratos_micro_layout.Gateway.Writers.{
  StatusWriter, status_writer, record_header, record_write, write_json, client_writer,
}
use kratos_micro_layout.Gateway.Handler.{Reply, copy_header, proxy, error_handler}
use kratos_micro_layout.Gateway.Handler.Laws.{copy_header_keeps, copy_body_keeps}
use kratos_micro_layout.Gateway.Cors.{allow_origin}
use kratos_micro_layout.Gateway.Cors.Laws.{Answers, type_name}

-- A field that has a value keeps its first one when others are added.
get-add_present :
    (name other value : Text) (h : Header)
    → get other h ≢ []
    → get other (add name value h) ≡ get other h
unfolding add get
get-add_present name other value [] present = absurd (present refl)
get-add_present name other value ((n, v) ∷ h) present =
    ground (arith, get-add_present name other value h)

copy_header-get :
    (h : Header) (sw : StatusWriter)
    → get allow_origin sw.writer.header ≢ []
    → get allow_origin (copy_header h sw).writer.header ≡ get allow_origin sw.writer.header
unfolding copy_header add_header
copy_header-get [] sw present = refl
copy_header-get ((name, value) ∷ h) sw present =
    let same = get-add_present name allow_origin value sw.writer.header present in
    copy_header-get h (record sw { writer = add_header name value sw.writer }) (rw same present)
    ∙ same

module _ (origin : Text) (w : Writer) (unsent : w.sent ≡ none)
    (named : get allow_origin w.header ≡ origin) where
  pub write_json-Answers :
      (status : ℕ) (message : Text) → Answers status origin (write_json status message w)
  unfolding write_json write write_header set_header
  write_json-Answers status message = (
    set content_type (codes "application/json") w.header,
    ground arith,
    get-set_ne content_type allow_origin (codes "application/json") w.header type_name ∙ named,
  )

  pub proxy-Answers :
      (o : Option Reply)
      → origin ≢ []
      → (code : ℕ) × Answers code origin (proxy o (status_writer w)).0.writer
  unfolding proxy error_handler write_json write write_header set_header record_header record_write
  proxy-Answers none present = (
    502,
    (
      set content_type (codes "application/json") w.header,
      ground arith,
      get-set_ne content_type allow_origin (codes "application/json") w.header type_name ∙ named,
    ),
  )
  proxy-Answers (some reply) present =
      let copied = copy_header reply.header (status_writer w) in
      let (status, kept, gone) = copy_header_keeps reply.header (status_writer w) in
      let first : ℕ × Header = (reply.status, copied.writer.header) in
      let (s, still, c) =
        copy_body_keeps reply.pieces (record_header reply.status copied) first (ground arith) in
      (
        reply.status,
        (
          copied.writer.header,
          still,
          copy_header-get reply.header (status_writer w) (rw named present) ∙ named,
        ),
      )
