-- ===== src/Examples/Observed.antt =====
-- Metrics, log lines, the middleware and the readiness of the database.
use domain_process_e2e.Prelude.{
  ◌+◌, true, false, ◌&&◌, List, [], ◌∷◌, Option, none, some, ltb, leb, ◌≡◌, refl, sym,
}
use mathlib.Core.List.{Memᴰ}
use mathlib.Core.Option.{some-injective}
use domain_process_e2e.Text.{Text, text, text_eq, is_empty}
use domain_process_e2e.Metrics.{
  Scope, AppRun, response_start, new_collector, client_error, server_error, call_middleware,
}
use domain_process_e2e.Metrics.Counted.{
  count, is_request, is_latency, is_error_of, started, any_status, call_middleware-counted,
}
use domain_process_e2e.Logging.{
  FieldValue, null, string, number, Fields, lookup, LogRecord, is_reserved, log_event, extra_of,
  payload_of, filter_record,
}
use domain_process_e2e.Logging.Payload.{RecordLaws}
use domain_process_e2e.Logging.Line.{log_event-line}
use domain_process_e2e.Logging.Attributes.{DistinctKeys}
use domain_process_e2e.Middleware.{
  LogCall, HttpRequest, Handled, World, raised, dispatch_request, call_in, finish, request_id_for,
}
use domain_process_e2e.Middleware.Traced.{answer, dispatch_request-traced}
use domain_process_e2e.Scheduler
use domain_process_e2e.Examples.Loops.{made, started as begun}

abbrev get_scope : Scope
get_scope = record { is_http = true; method = some (text "GET"); path = some (text "/") }

-- An application that answers 404.
abbrev not_found : AppRun
not_found = record { sends = response_start (some 404) ∷ []; raises = false }

call_middleware-counted_example :
    let (seen, after) = call_middleware get_scope 5 (λ i. 7 + i) not_found new_collector in
    (seen ≡ not_found)
    × (count (is_request (λ s. leb 400 s) (text "GET") (text "/")) after
        ≡ 0 + started get_scope (text "GET") (text "/") (λ s. leb 400 s) not_found.sends)
    × (count (is_latency (text "GET") (text "/")) after
        ≡ 0 + started get_scope (text "GET") (text "/") any_status not_found.sends)
    × (count (is_error_of client_error (text "GET") (text "/")) after
        ≡ 0
          + started get_scope (text "GET") (text "/") (λ s. leb 400 s && ltb s 500) not_found.sends)
    × (count (is_error_of server_error (text "GET") (text "/")) after
        ≡ 0
          + started get_scope (text "GET") (text "/") (λ s. leb 500 s && ltb s 600) not_found.sends)
call_middleware-counted_example =
    call_middleware-counted get_scope (text "GET") (text "/") (λ s. leb 400 s) 5 (λ i. 7 + i)
      not_found new_collector refl

-- A record with the fields alone.
abbrev make_record : Text → Fields → Option LogRecord
make_record event extra = some (record {
  created = text "t";
  levelname = text "INFO";
  name = text "n";
  message = event;
  exc_info = none;
  attributes = extra;
})

make_record-RecordLaws : RecordLaws make_record
make_record-RecordLaws = record {
  extra_there = λ event extra r k v made there.
      let same = some-injective _ r made in there_after event extra r k v same there;
  no_request_id = λ event extra r made absent.
      let same = some-injective _ r made in none_after event extra r same absent;
}
  where
    plain : Text → Fields → LogRecord
    plain event extra = record {
      created = text "t";
      levelname = text "INFO";
      name = text "n";
      message = event;
      exc_info = none;
      attributes = extra;
    }

    there_after :
        (event : Text) (extra : Fields) (r : LogRecord) (k : Text) (v : FieldValue)
        → plain event extra ≡ r
        → lookup k extra ≡ some v
        → lookup k r.attributes ≡ some v
    there_after event extra r k v same there = rw (sym same) there

    none_after :
        (event : Text) (extra : Fields) (r : LogRecord)
        → plain event extra ≡ r
        → lookup (text "request_id") extra ≡ none
        → lookup (text "request_id") r.attributes ≡ none
    none_after event extra r same absent = rw (sym same) absent

abbrev count_fields : Fields
count_fields = (text "count", number 3) ∷ []

abbrev counted_record : LogRecord
counted_record = record {
  created = text "t";
  levelname = text "INFO";
  name = text "n";
  message = text "task_manager.tasks_claimed";
  exc_info = none;
  attributes = extra_of (text "task_manager.tasks_claimed") count_fields;
}

abbrev counted_line : Fields
counted_line = payload_of null (filter_record null counted_record)

counted_is_logged :
    log_event make_record null (text "task_manager.tasks_claimed") count_fields ≡ some counted_line
unfolding log_event
counted_is_logged = refl

log_event-line_example :
    DistinctKeys counted_line
    × (lookup (text "event") counted_line ≡ some (string (text "task_manager.tasks_claimed")))
    × (lookup (text "count") counted_line ≡ some (number 3))
log_event-line_example =
    log_event-line make_record make_record-RecordLaws null (text "task_manager.tasks_claimed")
      count_fields counted_line (text "count") (number 3) counted_is_logged
      (unfold lookup text_eq in refl) refl (unfold is_reserved text_eq in refl)
      (unfold text_eq in refl)

abbrev Headers : Type 0
Headers = List (Text × Text)

abbrev set_header : Text → Text → Headers → Headers
set_header name value headers = (name, value) ∷ headers

abbrev get_request : HttpRequest
get_request = record { method = text "GET"; path = text "/"; request_id_header = some (text "r1") }

-- An application that logs once and raises.
abbrev call_next : Text → Handled Headers
call_next request_id = record { calls = (text "metrics.exported", []) ∷ []; outcome = raised }

abbrev world : World
world = record { context = null; log = [] }

abbrev its_call : LogCall
its_call = call_in (string (text "r1")) (text "metrics.exported", [])

abbrev its_line : Fields
its_line = payload_of (string (text "r1")) (
    filter_record (string (text "r1")) (record {
      created = text "t";
      levelname = text "INFO";
      name = text "n";
      message = text "metrics.exported";
      exc_info = none;
      attributes = extra_of (text "metrics.exported") [];
    }))

it_is_logged :
    log_event make_record (string (text "r1")) (text "metrics.exported") [] ≡ some its_line
unfolding log_event
it_is_logged = refl

it_is_called :
    Memᴰ its_call (dispatch_request set_header (text "u") get_request 9 call_next world).1.log
unfolding dispatch_request finish request_id_for is_empty
it_is_called = Memᴰ.tail (Memᴰ.head refl)

its_id_is : request_id_for (text "u") (some (text "r1")) ≡ text "r1"
unfolding request_id_for is_empty
its_id_is = refl

dispatch_request-traced_example :
    ((dispatch_request set_header (text "u") get_request 9 call_next world).0
      ≡ answer set_header (request_id_for (text "u") get_request.request_id_header) raised)
    × (lookup (text "request_id") its_line
        ≡ some (string (request_id_for (text "u") get_request.request_id_header)))
dispatch_request-traced_example =
    dispatch_request-traced set_header (text "u") get_request 9 call_next world make_record its_call
      its_line make_record-RecordLaws refl it_is_called (unfold lookup in refl) it_is_logged
