-- ===== src/Model.antt =====
-- src/domain_processing_service/models.py: the five tables, as records, and the database, as one
-- list of rows for each. Times are seconds, ids are numbers. Codes and messages are data, with one
-- constructor for each literal or f-string that the code writes.
use domain_process_e2e.Prelude.{ℕ, Bool, List, Option}
use domain_process_e2e.Text.{Text}
use domain_process_e2e.Normalization.{NormalizeError}

pub data TaskStatus : Type 0 where
  pending processing completed failed : TaskStatus

pub data TaskType : Type 0 where
  user_request refresh : TaskType

-- `error_category`
pub data Category : Type 0 where
  retryable permanent security transient : Category

-- `category_error c` is `c.upper() + "_ERROR"`, so "TRANSIENT_ERROR" is `category_error transient`.
pub data ErrorCode : Type 0 where
  category_error : Category → ErrorCode
  max_attempts_exceeded validation_error security_rejection : ErrorCode
  dns_permanent_failure http_permanent_failure : ErrorCode

pub data Message : Type 0 where
  domain_not_found lock_contention ssrf_rejection all_probes_failed : Message
  exception_text : Text → Message
  invalid_domain : NormalizeError → Message
  validation_failed : Message
  exceeded : ℕ → Message
  exceeded_by : ℕ → Message → Message
  dns_failed dns_error http_error : Message → Message
  http_status : ℕ → Message
  http_failed : ℕ → Message → Message
  -- str(None)
  none_text : Message
  timed_out connection_failed too_many_redirects request_error unexpected_error : Text → Message

pub record ErrorPayload : Type 0 where
  pub code : ErrorCode
  pub message : Message
  pub retryable : Bool

pub record Job : Type 0 where
  pub id : ℕ
  pub status : TaskStatus
  pub created_at : ℕ
  pub updated_at : ℕ

pub record Domain : Type 0 where
  pub id : ℕ
  pub normalized_domain : Text
  pub is_active : Bool
  pub deactivated_at : Option ℕ
  pub created_at : ℕ
  pub updated_at : ℕ

pub record Task : Type 0 where
  pub id : ℕ
  pub job_id : Option ℕ
  pub domain_id : ℕ
  pub type : TaskType
  pub status : TaskStatus
  pub attempts : ℕ
  pub next_attempt_at : ℕ
  pub lease_expires_at : Option ℕ
  pub error_payload : Option ErrorPayload
  pub created_at : ℕ
  pub updated_at : ℕ

-- `ips_v4`, `ips_v6` and `cname` are the keys "A", "AAAA" and "CNAME" of `dns_records`.
pub record DomainDetail : Type 0 where
  pub domain_id : ℕ
  pub ip_addresses : List Text
  pub ips_v4 : List Text
  pub ips_v6 : List Text
  pub cname : Option Text
  pub http_status : ℕ
  pub page_title : Option Text
  pub response_time : ℕ
  pub response_headers : List (Text × Text)
  pub fetched_at : ℕ
  pub next_refresh_at : ℕ
  pub version : ℕ

pub record IdempotencyRecord : Type 0 where
  pub id : ℕ
  pub client_id : Text
  pub idempotency_key : Text
  pub request_hash : Text
  pub job_id : ℕ
  pub created_at : ℕ

pub record Db : Type 0 where
  pub jobs : List Job
  pub domains : List Domain
  pub tasks : List Task
  pub details : List DomainDetail
  pub records : List IdempotencyRecord
