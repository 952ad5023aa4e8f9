-- ===== src/Processor.antt =====
-- src/domain_processing_service/domain_processor.py: the decisions. The writes are in Writes.antt,
-- the pipeline in Pipeline.antt.
pub mod Writes
use domain_process_e2e.Prelude.{
  ℕ, zero, suc, ◌+◌, ◌-◌, Bool, true, false, not, ◌&&◌, ◌||◌, List, [], ◌∷◌, ◌++◌, ltb, leb, ◌==◌,
  if◌then◌else◌, Option, none, some, is_some,
}
use domain_process_e2e.Text.{Text}
use domain_process_e2e.Model.{
  TaskStatus, Category, permanent, security, transient, ErrorCode, category_error,
  max_attempts_exceeded, dns_permanent_failure, http_permanent_failure, security_rejection,
  validation_error, DomainDetail, Message,
}
use domain_process_e2e.Ip.{
  Address, IpValidationResult, rejected, no_addresses, all_blocked, validate,
}
use domain_process_e2e.Dns.{DnsResult, all_ips}

-- _check_freshness: whether the detail is fresh, and the detail
unfoldable pub check_freshness : ℕ → ℕ → Option DomainDetail → Bool × Option DomainDetail
check_freshness freshness_seconds now none = (false, none)
check_freshness freshness_seconds now (some detail) =
    (leb (now - detail.fetched_at) freshness_seconds, some detail)

-- the loop over the resolved addresses: the first result that is allowed
unfoldable pub first_allowed : (Text → Option Address) → List Text → Option IpValidationResult
first_allowed ip_address [] = none
first_allowed ip_address (ip ∷ ips) =
    let rest = first_allowed ip_address ips in
    if (validate ip_address ip).is_allowed then some (validate ip_address ip) else rest

abbrev pub or_blocked : Text → Option IpValidationResult → IpValidationResult
or_blocked ip none = rejected ip all_blocked
or_blocked ip (some r) = r

-- _validate_ips, on the resolved addresses
unfoldable pub validate_ips : (Text → Option Address) → List Text → IpValidationResult
unfolding first_allowed
validate_ips ip_address [] = rejected [] no_addresses
validate_ips ip_address (ip ∷ ips) = or_blocked ip (first_allowed ip_address (ip ∷ ips))

abbrev is_security : Category → Bool
is_security security = true
is_security _ = false

abbrev is_dns_or_permanent : ErrorCode → Bool
is_dns_or_permanent dns_permanent_failure = true
is_dns_or_permanent (category_error permanent) = true
is_dns_or_permanent _ = false

abbrev pub is_max_attempts : ErrorCode → Bool
is_max_attempts max_attempts_exceeded = true
is_max_attempts _ = false

unfoldable pub should_soft_deactivate : Category → ErrorCode → Bool
should_soft_deactivate error_category error_code =
    if is_security error_category
    then true
    else if is_dns_or_permanent error_code
    then true
    else if is_max_attempts error_code
    then true
    else false

-- The exceptions that `_classify_exception` tells apart.
pub data Failure : Type 0 where
  timeout http_timeout http_connect http_redirects : Failure
  database_operational database_disconnection redis_error unknown : Failure

-- "retryable" or "permanent"
unfoldable pub is_retryable : Failure → Bool
is_retryable timeout = true
is_retryable http_timeout = true
is_retryable http_connect = true
is_retryable http_redirects = false
is_retryable database_operational = true
is_retryable database_disconnection = true
is_retryable redis_error = true
is_retryable unknown = false
