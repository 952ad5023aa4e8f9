-- ===== src/Logging.antt =====
-- src/domain_processing_service/logging.py: the payload of a log line, the filter that adds the id
-- of the request, and log_event. `request_id_context` is an argument, None outside of a request.
pub mod Attributes
pub mod Payload
pub mod Line
use domain_process_e2e.Prelude.{
  ℕ, Bool, true, false, not, ◌&&◌, ◌||◌, List, [], ◌∷◌, ◌++◌, ◌==◌, if◌then◌else◌, Option, none,
  some, is_some, any, map,
}
use domain_process_e2e.Text.{Text, text, text_eq, is_empty}

-- The value of a field; `object` stands for all but None, strings and numbers, and is true.
pub data FieldValue : Type 0 where
  null : FieldValue
  string : Text → FieldValue
  number : ℕ → FieldValue
  object : Text → FieldValue

abbrev pub is_null : FieldValue → Bool
is_null null = true
is_null _ = false

abbrev pub is_truthy : FieldValue → Bool
is_truthy null = false
is_truthy (string t) = not (is_empty t)
is_truthy (number n) = not (n == 0)
is_truthy (object t) = true

abbrev pub Fields : Type 0
Fields = List (Text × FieldValue)

unfoldable pub lookup : Text → Fields → Option FieldValue
lookup key [] = none
lookup key ((k, v) ∷ fields) =
    let rest = lookup key fields in if text_eq k key then some v else rest

-- logging.LogRecord: what the formatter reads by name, and `__dict__`, in which the fields of
-- `extra` stand with the standard attributes.
pub record LogRecord : Type 0 where
  pub created : Text
  pub levelname : Text
  pub name : Text
  pub message : Text
  pub exc_info : Option Text
  pub attributes : Fields

-- _LOG_RECORD_RESERVED
abbrev pub reserved : List Text
reserved =
    text "args"
    ∷ text "asctime"
    ∷ text "created"
    ∷ text "exc_info"
    ∷ text "exc_text"
    ∷ text "filename"
    ∷ text "funcName"
    ∷ text "levelname"
    ∷ text "levelno"
    ∷ text "lineno"
    ∷ text "module"
    ∷ text "msecs"
    ∷ text "message"
    ∷ text "msg"
    ∷ text "name"
    ∷ text "pathname"
    ∷ text "process"
    ∷ text "processName"
    ∷ text "relativeCreated"
    ∷ text "stack_info"
    ∷ text "taskName"
    ∷ text "thread"
    ∷ text "threadName"
    ∷ []

unfoldable pub is_reserved : Text → Bool
is_reserved key = any (text_eq key) reserved

abbrev pub or_value : Option FieldValue → FieldValue → FieldValue
or_value none v = v
or_value (some w) v = w

-- `if not request_id: request_id = request_id_context.get()`
abbrev pub or_context : FieldValue → FieldValue → FieldValue
or_context v context = if is_truthy v then v else context

unfoldable pub request_id_of : FieldValue → LogRecord → FieldValue
unfolding lookup
request_id_of context r =
    or_context (or_value (lookup (text "request_id") r.attributes) null) context

-- The payload before the loop over the attributes.
unfoldable pub base_payload : FieldValue → LogRecord → Fields
unfolding lookup request_id_of
base_payload context r =
    let request_id = request_id_of context r in
    (text "timestamp", string r.created)
    ∷ (text "level", string r.levelname)
    ∷ (text "logger", string r.name)
    ∷ (text "event", or_value (lookup (text "event") r.attributes) (string r.message))
    ∷ (if is_truthy request_id then (text "request_id", request_id) ∷ [] else [])

-- the loop over the attributes
unfoldable pub add_attributes : Fields → Fields → Fields
unfolding lookup
add_attributes [] payload = payload
add_attributes ((key, value) ∷ attributes) payload =
    let skipped = add_attributes attributes payload in
    let added = add_attributes attributes (payload ++ (key, value) ∷ []) in
    if is_reserved key || is_some (lookup key payload) || is_null value then skipped else added

abbrev pub exception_field : Option Text → Fields
exception_field none = []
exception_field (some t) = (text "exc_info", string t) ∷ []

-- JsonFormatter.format: what json.dumps is given
unfoldable pub payload_of : FieldValue → LogRecord → Fields
unfolding base_payload add_attributes
payload_of context r =
    add_attributes r.attributes (base_payload context r) ++ exception_field r.exc_info

-- RequestContextFilter.filter, which lets every record pass
unfoldable pub filter_record : FieldValue → LogRecord → LogRecord
unfolding lookup
filter_record context r =
    if is_some (lookup (text "request_id") r.attributes)
    then r
    else record r { attributes = r.attributes ++ (text "request_id", context) ∷ [] }

-- the `extra` of log_event; a keyword argument cannot be named `event`
abbrev pub extra_of : Text → Fields → Fields
extra_of event fields = (text "event", string event) ∷ fields

-- log_event, at a level that the root logger lets pass, with the handler of configure_logging.
-- `make_record` gives the record for a message and its `extra`; `none` is an exception that it
-- raises.
unfoldable pub log_event :
    (Text → Fields → Option LogRecord) → FieldValue → Text → Fields → Option Fields
unfolding payload_of filter_record
log_event make_record context event fields = logged (make_record event (extra_of event fields))
  where
    logged : Option LogRecord → Option Fields
    logged none = none
    logged (some r) = some (payload_of context (filter_record context r))
