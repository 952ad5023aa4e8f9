-- ===== src/Middleware.antt =====
-- src/domain_processing_service/middleware.py, RequestIDMiddleware: the id of a request, in the
-- context of its log lines and in the header of its response.
pub mod Traced
use domain_process_e2e.Prelude.{
  ℕ, Bool, List, [], ◌∷◌, ◌++◌, if◌then◌else◌, Option, none, some, map,
}
use domain_process_e2e.Text.{Text, text, is_empty}
use domain_process_e2e.Logging.{FieldValue, null, string, number, Fields}

-- A call of log_event, with what request_id_context is then.
pub record LogCall : Type 0 where
  pub context : FieldValue
  pub event : Text
  pub fields : Fields

pub record HttpRequest : Type 0 where
  pub method : Text
  pub path : Text
  -- the header X-Request-ID
  pub request_id_header : Option Text

-- `headers` as MutableHeaders has them.
pub record HttpResponse (Headers : Type 0) : Type 0 where
  pub status_code : ℕ
  pub headers : Headers

pub data Ending (Headers : Type 0) : Type 0 where
  responded : HttpResponse Headers → Ending Headers
  raised : Ending Headers

-- What call_next does: its calls of log_event, all in the context that it is called in, and how it
-- ends.
pub record Handled (Headers : Type 0) : Type 0 where
  pub calls : List (Text × Fields)
  pub outcome : Ending Headers

-- The context and the calls of log_event so far.
pub record World : Type 0 where
  pub context : FieldValue
  pub log : List LogCall

abbrev pub call_in : FieldValue → Text × Fields → LogCall
call_in context (event, fields) = record { context = context; event = event; fields = fields }

abbrev pub log_call : Text → Fields → World → World
log_call event fields w = record w { log = w.log ++ call_in w.context (event, fields) ∷ [] }

-- `request.headers.get(REQUEST_ID_HEADER) or f"req-{uuid4()}"`
unfoldable pub request_id_for : Text → Option Text → Text
request_id_for uuid none = text "req-" ++ uuid
request_id_for uuid (some header) = if is_empty header then text "req-" ++ uuid else header

abbrev pub request_fields : Text → HttpRequest → Fields
request_fields request_id request =
    (text "request_id", string request_id)
    ∷ (text "http_method", string request.method)
    ∷ (text "path", string request.path)
    ∷ []

-- `set_header name value` is the assignment of a header.
module _ {Headers : Type 0} (set_header : Text → Text → Headers → Headers) where
  -- the `except` and the `else` clause; `duration` is the time in milliseconds
  unfoldable pub finish : Text → HttpRequest → ℕ → Ending Headers → World → Ending Headers × World
  finish request_id request duration raised w = (
    raised,
    log_call (text "request.failed")
        (request_fields request_id request
          ++ (text "duration_ms", number duration)
            ∷ (text "reason", string (text "unhandled_exception"))
            ∷ [])
        w,
  )
  finish request_id request duration (responded r) w = (
    responded (record r { headers = set_header (text "X-Request-ID") request_id r.headers }),
    log_call (text "request.completed")
        (request_fields request_id request
          ++ (text "status_code", number r.status_code)
            ∷ (text "duration_ms", number duration)
            ∷ [])
        w,
  )

  -- dispatch; `call_next` runs the application, which finds the id in `request.state`. The
  -- `finally` clause sets the context back.
  unfoldable pub dispatch_request :
      Text → HttpRequest → ℕ → (Text → Handled Headers) → World → Ending Headers × World
  unfolding finish request_id_for
  dispatch_request uuid request duration call_next w =
      let request_id = request_id_for uuid request.request_id_header in
      let started =
        log_call (text "request.started") (request_fields request_id request)
          (record w { context = string request_id }) in
      let handled = call_next request_id in
      let (outcome, done) =
        finish request_id request duration handled.outcome
          (record started { log = started.log ++ map (call_in started.context) handled.calls }) in
      (outcome, record done { context = w.context })
