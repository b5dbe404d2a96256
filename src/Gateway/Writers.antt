-- ===== src/Gateway/Writers.antt =====
-- The response writers of app/gateway/internal/proxy/handler.go: the client's, the one that also
-- records the status, and the JSON answers that both can carry.
use kratos_micro_layout.Prelude.{ℕ, Bool, true, false, not, ◌||◌, ◌++◌, Text, codes}
use kratos_micro_layout.Prelude.Int.{pos}
use kratos_micro_layout.Decimal.{format_int}
use kratos_micro_layout.Quote.{quote}
use kratos_micro_layout.Http.{Writer, write_header, write, set_header, content_type, status_ok}

-- http.ResponseWriter
pub record ResponseWriter (W : Type 0) : Type 0 where
  pub on_header : (Writer → Writer) → W → W
  pub on_status : ℕ → W → W
  pub on_write : Text → W → W × Bool

instance abbrev pub client_writer : ResponseWriter Writer
client_writer = record { on_header = λ f w. f w; on_status = write_header; on_write = write }

pub record StatusWriter : Type 0 where
  pub writer : Writer
  pub status : ℕ
  pub failed : Bool

-- The writer that `forward` makes around the client's.
abbrev pub status_writer : Writer → StatusWriter
status_writer w = record { writer = w; status = status_ok; failed = false }

-- statusWriter.WriteHeader
unfoldable pub record_header : ℕ → StatusWriter → StatusWriter
record_header code sw = record sw { status = code; writer = write_header code sw.writer }

-- statusWriter.Write
unfoldable pub record_write : Text → StatusWriter → StatusWriter × Bool
record_write text sw =
    let (w, good) = write text sw.writer in
    (record sw { writer = w; failed = sw.failed || not good }, good)

instance abbrev pub recording_writer : ResponseWriter StatusWriter
recording_writer = record {
  on_header = λ f sw. record sw { writer = f sw.writer };
  on_status = record_header;
  on_write = record_write;
}

-- The envelope that `writeJSON` prints. Its messages are constants of ASCII, so no code point asks
-- whether it is printable.
unfoldable pub envelope : ℕ → Text → Text
envelope status message =
    codes "{\"code\":"
    ++ (format_int (pos status)
        ++ (codes ",\"message\":" ++ (quote (λ c. true) message ++ codes ",\"data\":null}")))

unfoldable pub write_json : {W : Type 0} ⦃rw : ResponseWriter W⦄ → ℕ → Text → W → W
write_json ⦃rw⦄ status message w =
    let typed = rw.on_header (set_header content_type (codes "application/json")) w in
    (rw.on_write (envelope status message) (rw.on_status status typed)).0
