-- ===== src/Metrics/Counted.antt =====
-- What the middleware counts.
use domain_process_e2e.Prelude.{
  ℕ, suc, ◌+◌, ◌-◌, Bool, true, false, ◌&&◌, List, [], ◌∷◌, ◌++◌, ltb, leb, if◌then◌else◌, Option,
  filter, length, ◌≡◌, refl, ap, ◌∙◌, inl, inr, arith, Bool-cases,
}
use mathlib.Core.List.{append_assoc}
use domain_process_e2e.Text.{Text, text_eq}
use domain_process_e2e.Metrics.{
  ErrorType, client_error, server_error, Sample, api_request, api_latency, api_error,
  MetricsCollector, record_api_request, record_api_error, AsgiMessage, response_start,
  other_message, Scope, method_of, path_of, status_of, is_error, error_type, send_wrapper, send_all,
  AppRun, call_middleware,
}

abbrev pub error_type_eq : ErrorType → ErrorType → Bool
error_type_eq client_error client_error = true
error_type_eq server_error server_error = true
error_type_eq _ _ = false

-- the endpoint's labels
abbrev pub labelled : Text → Text → Text → Text → Bool
labelled m e method endpoint = text_eq method m && text_eq endpoint e

-- api_requests_total, summed over the statuses of a class
abbrev pub is_request : (ℕ → Bool) → Text → Text → Sample → Bool
is_request p m e (api_request method endpoint s) = labelled m e method endpoint && p s
is_request p m e _ = false

-- api_latency_seconds
abbrev pub is_latency : Text → Text → Sample → Bool
is_latency m e (api_latency method endpoint latency) = labelled m e method endpoint
is_latency m e _ = false

-- api_errors_total
abbrev pub is_error_of : ErrorType → Text → Text → Sample → Bool
is_error_of t m e (api_error method endpoint u) = labelled m e method endpoint && error_type_eq t u
is_error_of t m e _ = false

abbrev pub count : (Sample → Bool) → MetricsCollector → ℕ
count q metrics = length (filter q metrics.samples)

-- The message starts a response with a status of the class.
abbrev pub starts : (ℕ → Bool) → AsgiMessage → Bool
starts p (response_start s) = p (status_of s)
starts p (other_message m) = false

abbrev pub any_status : ℕ → Bool
any_status s = true

abbrev one_if : Bool → ℕ
one_if true = 1
one_if false = 0

count-append :
    (q : Sample → Bool) (xs ys : List Sample)
    → length (filter q (xs ++ ys)) ≡ length (filter q xs) + length (filter q ys)
count-append q [] ys = ground arith
count-append q (x ∷ xs) ys = ground (arith, count-append q xs ys)

-- The samples of one response.
abbrev added : Scope → ℕ → ℕ → List Sample
added scope latency s =
    api_request (method_of scope) (path_of scope) s
    ∷ api_latency (method_of scope) (path_of scope) latency
    ∷ (if is_error s then api_error (method_of scope) (path_of scope) (error_type s) ∷ [] else [])

send_wrapper-added :
    (scope : Scope) (latency : ℕ) (s : Option ℕ) (metrics : MetricsCollector)
    → (send_wrapper scope latency (response_start s) metrics).samples
      ≡ metrics.samples ++ added scope latency (status_of s)
unfolding send_wrapper record_api_request record_api_error
send_wrapper-added scope latency s metrics = elim (Bool-cases (is_error (status_of s))) [
  | inl h ↦ rw h (append_assoc metrics.samples _ _)
  | inr h ↦ rw h refl
]

module _ (scope : Scope) (m e : Text) where
  abbrev pub is_hit : Bool
  is_hit = labelled m e (method_of scope) (path_of scope)

  -- A counter gets one more for each response that starts with a status of the class.
  abbrev Counts : (Sample → Bool) → (ℕ → Bool) → Type 0
  Counts q p = (latency s : ℕ) → length (filter q (added scope latency s)) ≡ one_if (is_hit && p s)

  requests-Counts : (p : ℕ → Bool) → Counts (is_request p m e) p
  requests-Counts p latency s = ground arith

  latencies-Counts : Counts (is_latency m e) any_status
  latencies-Counts latency s = ground arith

  wrapper-Counts :
      (q : Sample → Bool) (p : ℕ → Bool) (latency : ℕ) (message : AsgiMessage)
      (metrics : MetricsCollector)
      → Counts q p
      → count q (send_wrapper scope latency message metrics)
        ≡ count q metrics + one_if (is_hit && starts p message)
  unfolding send_wrapper
  wrapper-Counts q p latency (other_message x) metrics h = ground arith
  wrapper-Counts q p latency (response_start s) metrics h =
      ap (λ xs. length (filter q xs)) (send_wrapper-added scope latency s metrics)
      ∙ count-append q metrics.samples (added scope latency (status_of s))
      ∙ ap (λ n. count q metrics + n) (h latency (status_of s))

  abbrev pub started : (ℕ → Bool) → List AsgiMessage → ℕ
  started p messages = if is_hit then length (filter (starts p) messages) else 0

  started-first :
      (p : ℕ → Bool) (message : AsgiMessage) (messages : List AsgiMessage)
      → started p (message ∷ messages) ≡ one_if (is_hit && starts p message) + started p messages
  started-first p message messages = ground arith

  send_all-Counts :
      (q : Sample → Bool) (p : ℕ → Bool) (start_time : ℕ) (clock : ℕ → ℕ)
      (messages : List AsgiMessage) (metrics : MetricsCollector)
      → Counts q p
      → ((send_all scope start_time clock messages metrics).0 ≡ messages)
        × (count q (send_all scope start_time clock messages metrics).1
            ≡ count q metrics + started p messages)
  unfolding send_all
  send_all-Counts q p start_time clock [] metrics h = (refl, ground arith)
  send_all-Counts q p start_time clock (message ∷ messages) metrics h =
      let (sent, n) =
        send_all-Counts q p start_time (λ i. clock (suc i)) messages
          (send_wrapper scope (clock 0 - start_time) message metrics) h in
      let first = wrapper-Counts q p (clock 0 - start_time) message metrics h in
      (ap (◌∷◌ message) sent, omega (arith, n, first, started-first p message messages))

  call-Counts :
      (q : Sample → Bool) (p : ℕ → Bool) (start_time : ℕ) (clock : ℕ → ℕ) (app : AppRun)
      (metrics : MetricsCollector)
      → Counts q p
      → scope.is_http ≡ true
      → ((call_middleware scope start_time clock app metrics).0 ≡ app)
        × (count q (call_middleware scope start_time clock app metrics).1
            ≡ count q metrics + started p app.sends)
  unfolding call_middleware
  call-Counts q p start_time clock app metrics h http =
      let (sent, n) = send_all-Counts q p start_time clock app.sends metrics h in
      rw http (λ i. record app { sends = sent i }, n)

  -- The middleware passes a request of HTTP on as the application answers it, and whether it
  -- raises. For each method and endpoint, and each class of statuses, the request counter grows by
  -- the number of responses that the application starts there with a status of the class, the
  -- latency histogram by one observation for each, the error counter `client_error` by those from
  -- 400 to 499 and `server_error` by those from 500 to 599: so by nothing, when it raises before it
  -- starts one.
  pub call_middleware-counted :
      (p : ℕ → Bool) (start_time : ℕ) (clock : ℕ → ℕ) (app : AppRun) (metrics : MetricsCollector)
      → scope.is_http ≡ true
      → let (seen, after) = call_middleware scope start_time clock app metrics in
        (seen ≡ app)
        × (count (is_request p m e) after ≡ count (is_request p m e) metrics + started p app.sends)
        × (count (is_latency m e) after
            ≡ count (is_latency m e) metrics + started any_status app.sends)
        × (count (is_error_of client_error m e) after
            ≡ count (is_error_of client_error m e) metrics
              + started (λ s. leb 400 s && ltb s 500) app.sends)
        × (count (is_error_of server_error m e) after
            ≡ count (is_error_of server_error m e) metrics
              + started (λ s. leb 500 s && ltb s 600) app.sends)
  call_middleware-counted p start_time clock app metrics http =
      let (same, requests) =
        call-Counts (is_request p m e) p start_time clock app metrics (requests-Counts p) http in
      (
        same,
        requests,
        (call-Counts (is_latency m e) any_status start_time clock app metrics latencies-Counts
            http).1,
        (call-Counts (is_error_of client_error m e) (λ s. leb 400 s && ltb s 500) start_time clock
            app metrics client_errors http).1,
        (call-Counts (is_error_of server_error m e) (λ s. leb 500 s && ltb s 600) start_time clock
            app metrics server_errors http).1,
      )
    where
      client_errors : Counts (is_error_of client_error m e) (λ s. leb 400 s && ltb s 500)
      client_errors latency s = ground arith

      server_errors : Counts (is_error_of server_error m e) (λ s. leb 500 s && ltb s 600)
      server_errors latency s = ground arith
