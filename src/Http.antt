-- ===== src/Http.antt =====
-- src/domain_processing_service/http_client.py. What httpx does for one request is the parameter
-- `request`; `clock` gives the milliseconds that the probe took.
pub mod Laws
use domain_process_e2e.Prelude.{
  ℕ, zero, suc, ◌+◌, ◌-◌, Bool, true, false, not, ◌&&◌, ◌||◌, List, [], ◌∷◌, ◌++◌, ltb, leb, ◌==◌,
  if◌then◌else◌, Option, none, some, is_some, any, take, length, filter, map, flatten,
}
use domain_process_e2e.Text.{Text, text, text_eq, starts_with}
use domain_process_e2e.Model.{
  Message, timed_out, connection_failed, too_many_redirects, request_error, unexpected_error,
  all_probes_failed,
}

pub record HttpResult : Type 0 where
  pub status_code : ℕ
  pub headers : List (Text × Text)
  pub body : Text
  pub response_time_ms : ℕ
  pub page_title : Option Text
  pub error : Option Message

abbrev is_none {ℓ} : {A : Type ℓ} → Option A → Bool
is_none none = true
is_none (some x) = false

unfoldable pub is_success : HttpResult → Bool
is_success r = is_none r.error && (leb 200 r.status_code && ltb r.status_code 400)

unfoldable pub is_client_error : HttpResult → Bool
is_client_error r = leb 400 r.status_code && ltb r.status_code 500

unfoldable pub is_server_error : HttpResult → Bool
is_server_error r = leb 500 r.status_code && ltb r.status_code 600

unfoldable pub is_retryable_error : HttpResult → Bool
unfolding is_server_error
is_retryable_error r = if is_some r.error then true else if is_server_error r then true else false

unfoldable pub is_permanent_failure : HttpResult → Bool
unfolding is_client_error
is_permanent_failure r =
    if is_some r.error
    then false
    else if is_client_error r && not (r.status_code == 408 || r.status_code == 429)
    then true
    else false

-- The loop of _read_body_limited: the chunks read, the last one cut at the limit.
unfoldable pub read_chunks : ℕ → ℕ → List Text → List Text
read_chunks limit total [] = []
read_chunks limit total (chunk ∷ chunks) =
    let rest = chunk ∷ read_chunks limit (total + length chunk) chunks in
    if ltb limit (total + length chunk)
    then take (limit - (total + length chunk - length chunk)) chunk ∷ []
    else rest

unfoldable pub read_body_limited : ℕ → List Text → Text
unfolding read_chunks
read_body_limited limit chunks = flatten (read_chunks limit 0 chunks)

abbrev pub blocked_headers : List Text
blocked_headers =
    text "authorization"
    ∷ text "cookie"
    ∷ text "set-cookie"
    ∷ text "proxy-authorization"
    ∷ text "www-authenticate"
    ∷ text "proxy-authenticate"
    ∷ []

abbrev pub allowed_prefixes : List Text
allowed_prefixes =
    text "content-"
    ∷ text "cache-"
    ∷ text "etag"
    ∷ text "last-modified"
    ∷ text "server"
    ∷ text "x-"
    ∷ text "access-control-"
    ∷ []

unfoldable pub is_stored : Text → Bool
is_stored key_lower =
    not (any (text_eq key_lower) blocked_headers) && any (starts_with key_lower) allowed_prefixes

unfoldable pub bound_value : Text → Text
bound_value v = if ltb 1000 (length v) then take 1000 v ++ text "..." else v

-- `lower` is str.lower. The keys of a dict are distinct, so each entry is set once.
unfoldable pub filter_headers : (Text → Text) → List (Text × Text) → List (Text × Text)
unfolding bound_value
filter_headers lower [] = []
filter_headers lower ((key, v) ∷ headers) =
    let rest = filter_headers lower headers in
    if is_stored (lower key) then (key, bound_value v) ∷ rest else rest

pub data Scheme : Type 0 where
  https http : Scheme

-- What one round of the loop meets: the response, with its headers and the chunks of its body, or
-- the exception that the request or the reading raises.
pub data Attempt : Type 0 where
  response : ℕ → List (Text × Text) → List Text → Attempt
  timeout_exception connect_error redirects request_exception other_exception : Text → Attempt

-- `extract_title` is the search with a regular expression of Python's re module.
pub record Client : Type 0 where
  pub lower : Text → Text
  pub extract_title : Text → Option Text
  pub max_response_read_bytes : ℕ
  pub elapsed_ms : ℕ

abbrev or_failed : Option Message → Message
or_failed none = all_probes_failed
or_failed (some e) = e

unfoldable pub give_up : Client → Option Message → HttpResult
give_up c last_error = record {
  status_code = 0;
  headers = [];
  body = [];
  response_time_ms = c.elapsed_ms;
  page_title = none;
  error = some (or_failed last_error);
}

unfoldable pub respond : Client → ℕ → List (Text × Text) → List Text → HttpResult
unfolding read_body_limited filter_headers
respond c status headers chunks = record {
  status_code = status;
  headers = filter_headers c.lower headers;
  body = read_body_limited c.max_response_read_bytes chunks;
  response_time_ms = c.elapsed_ms;
  page_title = c.extract_title (read_body_limited c.max_response_read_bytes chunks);
  error = none;
}

-- One round of the loop over the URLs, and the rounds after it from the `last_error` it leaves.
unfoldable pub attempt_then : Client → Attempt → (Option Message → HttpResult) → HttpResult
unfolding give_up respond
attempt_then c (response status headers chunks) next = respond c status headers chunks
attempt_then c (timeout_exception e) next = next (some (timed_out e))
attempt_then c (connect_error e) next = next (some (connection_failed e))
attempt_then c (redirects e) next = give_up c (some (too_many_redirects e))
attempt_then c (request_exception e) next = next (some (request_error e))
attempt_then c (other_exception e) next = next (some (unexpected_error e))

-- the `for` loop over the URLs
unfoldable pub probe_urls : Client → (Scheme → Attempt) → Option Message → List Scheme → HttpResult
unfolding give_up
probe_urls c request last_error [] = give_up c last_error
probe_urls c request last_error (url ∷ urls) =
    attempt_then c (request url) (λ e. probe_urls c request e urls)

unfoldable pub probe : Client → (Scheme → Attempt) → HttpResult
unfolding probe_urls
probe c request = probe_urls c request none (https ∷ http ∷ [])
