-- ===== src/Metrics.antt =====
-- src/domain_processing_service/metrics.py: the collector, its global instance, and the middleware.
-- A collector is the calls that were made of the counters and histograms of prometheus_client, in
-- their order; a counter's value is the number of its `inc()`.
pub mod Counted
use domain_process_e2e.Prelude.{
  ℕ, suc, ◌-◌, Bool, true, false, not, ◌&&◌, List, [], ◌∷◌, ◌++◌, ltb, leb, ◌==◌, if◌then◌else◌,
  Option, none, some, filter, length,
}
use domain_process_e2e.Text.{Text, text, text_eq}

pub data ErrorType : Type 0 where
  client_error server_error : ErrorType

-- One call, with its labels; `str(status_code)` stands as the number.
pub data Sample : Type 0 where
  api_request : Text → Text → ℕ → Sample
  api_latency : Text → Text → ℕ → Sample
  api_error : Text → Text → ErrorType → Sample

pub record MetricsCollector : Type 0 where
  pub samples : List Sample

abbrev pub new_collector : MetricsCollector
new_collector = record { samples = [] }

unfoldable pub record_api_request : Text → Text → ℕ → ℕ → MetricsCollector → MetricsCollector
record_api_request method endpoint status_code latency metrics = record {
  samples =
      metrics.samples
      ++ api_request method endpoint status_code ∷ api_latency method endpoint latency ∷ [];
}

unfoldable pub record_api_error : Text → Text → ErrorType → MetricsCollector → MetricsCollector
record_api_error method endpoint error_type metrics = record {
  samples = metrics.samples ++ api_error method endpoint error_type ∷ [];
}

-- The global instance, `_metrics`: what get_metrics returns, and what it leaves.
abbrev pub or_new : Option MetricsCollector → MetricsCollector
or_new none = new_collector
or_new (some metrics) = metrics

unfoldable pub get_metrics : Option MetricsCollector → MetricsCollector × Option MetricsCollector
get_metrics metrics = (or_new metrics, some (or_new metrics))

unfoldable pub set_metrics :
    Option MetricsCollector → Option MetricsCollector → Option MetricsCollector
set_metrics metrics before = metrics

-- export_metrics; `generate_latest` is the text format of prometheus_client.
unfoldable pub export_metrics :
    (MetricsCollector → Text) → Option MetricsCollector → Text × Option MetricsCollector
unfolding get_metrics
export_metrics generate_latest metrics =
    let (collector, after) = get_metrics metrics in (generate_latest collector, after)

-- A message of ASGI: the start of the response, with the key "status" if it is there, or another.
pub data AsgiMessage : Type 0 where
  response_start : Option ℕ → AsgiMessage
  other_message : Text → AsgiMessage

pub record Scope : Type 0 where
  pub is_http : Bool
  pub method : Option Text
  pub path : Option Text

abbrev pub get_or : Option Text → Text → Text
get_or none d = d
get_or (some t) d = t

abbrev pub method_of : Scope → Text
method_of scope = get_or scope.method (text "UNKNOWN")

abbrev pub path_of : Scope → Text
path_of scope = get_or scope.path (text "/")

abbrev pub status_of : Option ℕ → ℕ
status_of none = 500
status_of (some s) = s

abbrev pub is_error : ℕ → Bool
is_error s = leb 400 s && ltb s 600

abbrev pub error_type : ℕ → ErrorType
error_type s = if ltb s 500 then client_error else server_error

-- send_wrapper, but for the call of `send`; `latency` is the clock less the start.
unfoldable pub send_wrapper : Scope → ℕ → AsgiMessage → MetricsCollector → MetricsCollector
unfolding record_api_request record_api_error
send_wrapper scope latency (other_message m) metrics = metrics
send_wrapper scope latency (response_start s) metrics =
    let counted =
      record_api_request (method_of scope) (path_of scope) (status_of s) latency metrics in
    if is_error (status_of s)
    then record_api_error (method_of scope) (path_of scope) (error_type (status_of s)) counted
    else counted

-- The calls of send_wrapper; the clock is read at each.
unfoldable pub send_all :
    Scope → ℕ → (ℕ → ℕ) → List AsgiMessage → MetricsCollector → List AsgiMessage × MetricsCollector
unfolding send_wrapper
send_all scope start_time clock [] metrics = ([], metrics)
send_all scope start_time clock (m ∷ ms) metrics =
    let (sent, after) =
      send_all scope start_time (λ i. clock (suc i)) ms
        (send_wrapper scope (clock 0 - start_time) m metrics) in
    (m ∷ sent, after)

-- What an application does with a request: the messages that it sends, and whether it then raises.
pub record AppRun : Type 0 where
  pub sends : List AsgiMessage
  pub raises : Bool

-- MetricsMiddleware.__call__: the run as the server sees it, and the collector.
unfoldable pub call_middleware :
    Scope → ℕ → (ℕ → ℕ) → AppRun → MetricsCollector → AppRun × MetricsCollector
unfolding send_all
call_middleware scope start_time clock app metrics =
    let (sent, after) = send_all scope start_time clock app.sends metrics in
    if not scope.is_http then (app, metrics) else (record app { sends = sent }, after)
