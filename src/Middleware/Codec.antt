-- ===== src/Middleware/Codec.antt =====
-- pkg/middleware/codec.go: the envelope of every answer, and the decoding of a request's body.
-- protojson, encoding/json and the errors of kratos are parameters; a value is a proto message or
-- something else, and a target may hold a message behind a pointer that is still nil.
use kratos_micro_layout.Prelude.{
  ◌≡◌, ap, refl, arith, false, Option, none, some, [], Text, codes, is_empty, if◌then◌else◌, inl,
  inr, Option-cases,
}
use kratos_micro_layout.Prelude.Int.{ℤ, pos}
use kratos_micro_layout.Prelude.Result.{Result, ok, err, ◌>>=◌}
use kratos_micro_layout.Http.{
  Writer, set_header, write_header, write, content_type, status_ok, get, set, Header,
}
use kratos_micro_layout.Http.Laws.{get-set_self}
use kratos_micro_layout.Middleware.Logging.{Status}

-- Envelope; `raw` is its field Data.
pub record Envelope : Type 0 where
  pub code : ℤ
  pub message : Text
  pub raw : Text

abbrev pub null_data : Text
null_data = codes "null"

-- A reply: a message of protobuf, or any other value.
pub data Payload (M V : Type 0) : Type 0 where
  message : M → Payload M V
  plain : V → Payload M V

-- What a body is decoded into: a message, a pointer to a message that may be nil, or anything else.
pub data Target (M V : Type 0) : Type 0 where
  message : M → Target M V
  field : Option M → Target M V
  plain : V → Target M V

-- The libraries: the error that an error is for kratos, if it is one, and its text; marshalling of
-- messages, other values and envelopes; and decoding on top of what the target holds.
pub record Libraries (M V E : Type 0) : Type 0 where
  pub from_error : E → Option Status
  pub error_text : E → Text
  pub marshal_message : M → Result E Text
  pub marshal_plain : V → Result E Text
  pub marshal_envelope : Envelope → Result E Text
  pub unmarshal_message : Text → M → Result E M
  pub unmarshal_plain : Text → V → Result E V
  pub new_message : M
  pub bad_request : Text → Text → E
  pub write_error : E

module _ {M V E : Type 0} (l : Libraries M V E) where
  -- writeEnvelope, and its error
  unfoldable pub write_envelope : Envelope → Writer → Writer × Option E
  unfolding set_header
  write_envelope e w = elim (l.marshal_envelope e) [
    | err x ↦ (w, some x)
    | ok body ↦
        let typed = set_header content_type (codes "application/json; charset=utf-8") w in
        let (w', good) = write body (write_header status_ok typed) in
        (w', if good then none else some l.write_error)
  ]

  unfoldable pub marshal_data : Payload M V → Result E Text
  marshal_data (message m) = l.marshal_message m
  marshal_data (plain v) = l.marshal_plain v

  -- ResponseEncoder
  unfoldable pub response_encoder : Option (Payload M V) → Writer → Writer × Option E
  unfolding write_envelope marshal_data
  response_encoder none w =
      write_envelope (record { code = pos 0; message = []; raw = null_data }) w
  response_encoder (some v) w = elim (marshal_data v) [
    | err x ↦ (w, some x)
    | ok raw ↦ write_envelope (record { code = pos 0; message = []; raw = raw }) w
  ]

  unfoldable pub error_envelope : E → Envelope
  error_envelope x = elim (l.from_error x) [
    | some st ↦ record { code = st.code; message = st.message; raw = null_data }
    | none ↦ record { code = pos 500; message = l.error_text x; raw = null_data }
  ]

  -- ErrorEncoder
  unfoldable pub error_encoder : E → Writer → Writer
  unfolding write_envelope error_envelope
  error_encoder x w = (write_envelope (error_envelope x) w).0

  -- unmarshalData
  unfoldable pub unmarshal_data : Text → Target M V → Result E (Target M V)
  unmarshal_data raw (message m) = l.unmarshal_message raw m >>= (λ m'. ok (message m'))
  unmarshal_data raw (field none) =
      l.unmarshal_message raw l.new_message >>= (λ m. ok (field (some m)))
  unmarshal_data raw (field (some m)) = l.unmarshal_message raw m >>= (λ m'. ok (field (some m')))
  unmarshal_data raw (plain v) = l.unmarshal_plain raw v >>= (λ v'. ok (plain v'))

  -- RequestDecoder, for what reading the body gives
  unfoldable pub request_decoder : Result E Text → Target M V → Result E (Target M V)
  unfolding unmarshal_data
  request_decoder (err x) v = err (l.bad_request (codes "CODEC") (l.error_text x))
  request_decoder (ok raw) v = if is_empty raw then ok v else elim (unmarshal_data raw v) [
    | err x ↦ err (l.bad_request (codes "CODEC") (l.error_text x))
    | ok v' ↦ ok v'
  ]

  -- The envelope that an outcome of a handler should be answered with: code 0 and no message for a
  -- reply, and the code and the text of an error with no data.
  abbrev pub envelope_of : Result E Text → Envelope
  envelope_of (ok raw) = record { code = pos 0; message = []; raw = raw }
  envelope_of (err x) = record {
    code = elim (l.from_error x) [ none ↦ pos 500 | some st ↦ st.code ];
    message = elim (l.from_error x) [ none ↦ l.error_text x | some st ↦ st.message ];
    raw = null_data;
  }

  error_envelope_lem : (x : E) → error_envelope x ≡ envelope_of (err x)
  unfolding error_envelope
  error_envelope_lem x = elim (Option-cases (l.from_error x)) [
    | inl other ↦ ground arith
    | inr (st, known) ↦ ground arith
  ]

  response_encoder_lem :
      (v : Payload M V) (raw : Text) (w : Writer)
      → marshal_data v ≡ ok raw
      → response_encoder (some v) w ≡ write_envelope (envelope_of (ok raw)) w
  unfolding response_encoder
  response_encoder_lem v raw w marshalled = rw (marshalled, response_encoder) refl

  -- The response is complete: sent once with the status 200 as JSON, with exactly this body.
  abbrev pub Carries : Text → Writer → Type 0
  Carries body w =
      (h : Header) × (w.sent ≡ some (status_ok, h))
      × (get content_type h ≡ codes "application/json; charset=utf-8")
      × (w.body ≡ body)

  pub write_envelope_lem :
      (e : Envelope) (w : Writer) (body : Text)
      → l.marshal_envelope e ≡ ok body
      → w.sent ≡ none
      → w.body ≡ []
      → w.gone ≡ false
      → Carries body (write_envelope e w).0
  unfolding write_envelope write write_header set_header
  write_envelope_lem e w body good unsent empty here = (
    set content_type (codes "application/json; charset=utf-8") w.header,
    ground arith,
    get-set_self content_type (codes "application/json; charset=utf-8") w.header,
    ground arith,
  )

  pub error_encoder_lem :
      (x : E) (w : Writer) → error_encoder x w ≡ (write_envelope (envelope_of (err x)) w).0
  unfolding error_encoder
  error_encoder_lem x w = ap (λ e. (write_envelope e w).0) (error_envelope_lem x)

  -- Whatever the outcome of a handler, an error or a reply that can be marshalled, a client that is
  -- still there is answered with status 200, as JSON, and with exactly the envelope of the outcome.
  pub encoders_lem :
      (x : E) (v : Payload M V) (raw body failure : Text) (w : Writer)
      → marshal_data v ≡ ok raw
      → l.marshal_envelope (envelope_of (ok raw)) ≡ ok body
      → l.marshal_envelope (envelope_of (err x)) ≡ ok failure
      → w.sent ≡ none
      → w.body ≡ []
      → w.gone ≡ false
      → Carries body (response_encoder (some v) w).0 × Carries failure (error_encoder x w)
  encoders_lem x v raw body failure w marshalled good bad unsent empty here = (
    rw (response_encoder_lem v raw w marshalled)
        (write_envelope_lem (envelope_of (ok raw)) w body good unsent empty here),
    rw (error_encoder_lem x w)
        (write_envelope_lem (envelope_of (err x)) w failure bad unsent empty here),
  )
