-- ===== src/Middleware/Logging.antt =====
-- pkg/middleware/logging.go: one record per request. What kratos reads off an error is a parameter.
use kratos_micro_layout.Prelude.{◌≡◌, ap, ◌||◌, Option, none, some, [], Text, codes, if◌then◌else◌}
use kratos_micro_layout.Prelude.Int.{ℤ, pos, leb_ℤ, eqb_ℤ}

pub data Level : Type 0 where
  debug info warn error : Level

-- errors.Error, as far as it is read
pub record Status : Type 0 where
  pub code : ℤ
  pub reason : Text
  pub message : Text

-- transport.Transporter, as far as it is read
pub record Transport : Type 0 where
  pub kind : Text
  pub operation : Text

pub record LogRecord (L : Type 0) : Type 0 where
  pub level : Level
  pub msg : Text
  pub kind : Text
  pub operation : Text
  pub code : ℤ
  pub reason : Text
  pub latency : L
  pub error : Option Text

-- The switch over the outcome
unfoldable pub level_of : {E : Type 0} → Option E → ℤ → Level
level_of none code = info
level_of (some e) code = if leb_ℤ (pos 500) code || eqb_ℤ code (pos 0) then error else warn

module _ {E : Type 0} (from_error : E → Status) where
  unfoldable pub status_of : Option E → Status
  status_of none = record { code = pos 0; reason = []; message = [] }
  status_of (some e) = from_error e

  unfoldable pub record_of : {L : Type 0} → Option Transport → L → Option E → LogRecord L
  unfolding status_of level_of
  record_of tr latency failure =
      let st = status_of failure in
      record {
        level = level_of failure st.code;
        msg = elim failure [ none ↦ codes "request" | some e ↦ codes "request failed" ];
        kind = elim tr [ none ↦ [] | some t ↦ t.kind ];
        operation = elim tr [ none ↦ [] | some t ↦ t.operation ];
        code = st.code;
        reason = st.reason;
        latency = latency;
        error = elim failure [ none ↦ none | some e ↦ some st.message ];
      }

  -- RequestLogger: the handler's reply and error, and the record that is logged. The handler is
  -- given its context and the request; `transport` and `latency` stand for what is read of the
  -- context and the clock.
  unfoldable pub request_logger :
      {Ctx Req Rep L : Type 0}
      → (Ctx → Option Transport)
      → L
      → (Ctx → Req → Rep × Option E)
      → Ctx
      → Req
      → (Rep × Option E) × LogRecord L
  unfolding record_of
  request_logger transport latency handler ctx req =
      let (reply, failure) = handler ctx req in
      ((reply, failure), record_of (transport ctx) latency failure)

  -- The error has a code, as kratos reads it off, of this kind.
  abbrev pub HasCode : (ℤ → Type 0) → Option E → Type 0
  HasCode kind none = ⊥
  HasCode kind (some e) = kind (from_error e).code

  module _ {Ctx Req Rep L : Type 0} (transport : Ctx → Option Transport) (latency : L)
      (handler : Ctx → Req → Rep × Option E) (ctx : Ctx) where
    -- The record does not depend on the payload: requests that end with the same error, or both
    -- without one, are logged by the same record whatever they and their replies hold.
    pub request_logger_omits :
        (req req' : Req)
        → (handler ctx req).1 ≡ (handler ctx req').1
        → (request_logger transport latency handler ctx req).1
          ≡ (request_logger transport latency handler ctx req').1
    unfolding request_logger
    request_logger_omits req req' same = ap (record_of (transport ctx) latency) same
