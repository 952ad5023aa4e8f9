-- ===== src/Pipeline.antt =====
-- src/domain_processing_service/domain_processor.py: process_task, with the sessions it opens and
-- the exceptions it catches.
pub mod Session
pub mod Ssrf
pub mod Keeps
pub mod Run
pub mod Budget
pub mod Outcomes
use domain_process_e2e.Prelude.{
  ℕ, zero, suc, ◌+◌, ◌-◌, Bool, true, false, not, ◌&&◌, ◌||◌, List, [], ◌∷◌, ◌++◌, ltb, leb, ◌==◌,
  if◌then◌else◌, Option, none, some, is_some, find, update_where, map,
}
use domain_process_e2e.Text.{Text}
use domain_process_e2e.Model
use domain_process_e2e.Model.{
  TaskStatus, pending, processing, completed, failed, Category, retryable, permanent, security,
  ErrorCode, dns_permanent_failure, http_permanent_failure, security_rejection, Message,
  domain_not_found, lock_contention, ssrf_rejection, exception_text, dns_failed, dns_error,
  http_error, http_failed, none_text, Domain, Task, DomainDetail, Db,
}
use domain_process_e2e.Domains
use domain_process_e2e.Tasks
use domain_process_e2e.Details
use domain_process_e2e.Details.{Upsert, stored, occ_conflict, upsert_with_occ}
use domain_process_e2e.Dns.{DnsResult, DnsClass, RecordType, Lookup, resolve, all_ips}
use domain_process_e2e.Dns
use domain_process_e2e.Http.{
  HttpResult, is_retryable_error, is_permanent_failure, Client, Scheme, Attempt, probe,
}
use domain_process_e2e.Http
use domain_process_e2e.Ip.{Address, IpValidationResult}
use domain_process_e2e.Processor.{check_freshness, validate_ips, Failure, unknown, is_retryable}
use domain_process_e2e.Processor
use domain_process_e2e.Processor.Writes.{
  write_complete_task, write_fail_task, write_fail_task_with_deactivation, write_reschedule_task,
}
pub use domain_process_e2e.Pipeline.Session.{
  Env, ProcessingResult, Outcome, ok, raised, Action, bind, ◌>>=◌, ◌>>◌, return_, run_session,
  write, completed_result, pending_result, failed_result, reported,
}
unfoldable pub use domain_process_e2e.Pipeline.Session.{
  session, complete, fail, fail_deactivating, retry_later,
}

module _ (env : Env) where
  -- Setting `classification` on the frozen dataclass raises FrozenInstanceError.
  unfoldable pub resolve_dns : Text → Action DnsResult
  resolve_dns domain db =
      let dns_result = resolve env.query domain in
      if is_some dns_result.error then (raised unknown [], db) else (ok dns_result, db)

  -- `{dns_result.error}` in an f-string
  abbrev pub dns_text : Option Text → Message
  dns_text none = none_text
  dns_text (some e) = exception_text e

  -- `getattr(dns_result, 'classification', 'unknown')`
  abbrev pub class_of : Option DnsClass → DnsClass
  class_of none = Dns.DnsClass.unknown
  class_of (some class) = class

  abbrev pub handle_class : Task → Option Text → DnsClass → Action ProcessingResult
  handle_class task error Dns.DnsClass.permanent = do
    fail_deactivating env 3 task.id task.domain_id (dns_failed (dns_text error)) permanent
        dns_permanent_failure
    return_ (reported failed error permanent)
  handle_class task error _ = do
    retry_later env 3 task.id (dns_error (dns_text error))
    return_ (reported pending error retryable)

  unfoldable pub handle_dns_failure : Task → DnsResult → Action ProcessingResult
  unfolding fail_deactivating retry_later
  handle_dns_failure task dns = handle_class task dns.error (class_of dns.classification)

  abbrev pub error_text : Option Message → Message
  error_text none = none_text
  error_text (some e) = e

  abbrev pub http_message : ℕ → Option Message → Message
  http_message status none = Model.Message.http_status status
  http_message status (some e) = http_failed status e

  unfoldable pub handle_http_failure : Task → HttpResult → Action ProcessingResult
  unfolding retry_later fail_deactivating
  handle_http_failure task r =
      if is_retryable_error r
      then (do
        retry_later env 3 task.id (http_error (error_text r.error))
        return_ (pending_result (error_text r.error)))
      else if is_permanent_failure r
      then (do
        fail_deactivating env 3 task.id task.domain_id (http_message r.status_code r.error)
            permanent http_permanent_failure
        return_ (failed_result (http_message r.status_code r.error) permanent))
      else return_ completed_result

  abbrev pub version_of : Option DomainDetail → ℕ
  version_of none = 0
  version_of (some d) = d.version

  abbrev refresh_delay : HttpResult → ℕ
  refresh_delay r = if Http.is_success r then 86400 else 3600

  -- the DomainDetail that is built, at the version after the one expected
  unfoldable pub observation : Task → DnsResult → HttpResult → ℕ → DomainDetail
  observation task dns r expected_version = record {
    domain_id = task.domain_id;
    ip_addresses = dns.ips_v4 ++ dns.ips_v6;
    ips_v4 = dns.ips_v4;
    ips_v6 = dns.ips_v6;
    cname = dns.cname;
    http_status = r.status_code;
    page_title = r.page_title;
    response_time = r.response_time_ms;
    response_headers = r.headers;
    fetched_at = env.clock 3;
    next_refresh_at = env.clock 3 + refresh_delay r;
    version = expected_version + 1;
  }

  abbrev with_details : Db → List DomainDetail → Db
  with_details db details = record db { details = details }

  -- A second conflict is raised.
  abbrev pub retried : Db → List DomainDetail → Upsert → Outcome (Unit {0}) × Db
  retried db table (stored details) = (ok tt, with_details db details)
  retried db table (occ_conflict expected found) = (raised unknown [], with_details db table)

  -- The version of the object that the session holds after a conflict. A query that finds the row
  -- of an object that is loaded leaves the object as it is; and an UPDATE is applied to the objects
  -- that meet its criterion, also when no row does. So an object that was read before has been
  -- raised by one, and one that was read for the conflict has the version found.
  abbrev pub held_version : Option DomainDetail → ℕ → ℕ
  held_version none found = found
  held_version (some existing) found = existing.version + 1

  -- The second attempt, on the version of the object held; the query only tells whether there is
  -- a row.
  unfoldable pub retry_persist :
      DomainDetail → Db → List DomainDetail → ℕ → Option DomainDetail → Outcome (Unit {0}) × Db
  retry_persist detail db table held none = (raised unknown [], with_details db table)
  retry_persist detail db table held (some row) =
      let now_table = env.others 2 table in
      retried db now_table (upsert_with_occ detail held now_table)

  -- `existing` is what was read before the first attempt.
  abbrev pub persisted :
      Option DomainDetail → DomainDetail → Db → List DomainDetail → Upsert → Outcome (Unit {0}) × Db
  persisted existing detail db table (stored details) = (ok tt, with_details db details)
  persisted existing detail db table (occ_conflict expected found) =
      let now_table = env.others 1 table in
      retry_persist detail db now_table (held_version existing found)
        (Details.get now_table detail.domain_id)

  -- _persist_domain_detail
  unfoldable pub persist_domain_detail : Task → DnsResult → HttpResult → Action (Unit {0})
  unfolding observation
  persist_domain_detail task dns r db =
      let existing = Details.get db.details task.domain_id in
      let expected_version = version_of existing in
      let detail = observation task dns r expected_version in
      let table = env.others 0 db.details in
      persisted existing detail db table (upsert_with_occ detail expected_version table)

  -- steps 7 to 9: probing and the write phase
  unfoldable pub probe_and_write : (Scheme → Attempt) → Task → DnsResult → Action ProcessingResult
  unfolding handle_http_failure session
  probe_and_write attempts task dns =
      let r = probe env.client attempts in
      if not (Http.is_success r) then handle_http_failure task r else (do
        session env 3 (do
          persist_domain_detail task dns r
          write (write_complete_task task.id completed (env.clock 3)))
        return_ completed_result)

  unfoldable pub check_ips :
      (Text → Scheme → Attempt) → Task → DnsResult → IpValidationResult → Action ProcessingResult
  unfolding probe_and_write fail_deactivating
  check_ips request task dns ip_validation =
      if not ip_validation.is_allowed
      then (do
        fail_deactivating env 3 task.id task.domain_id ssrf_rejection security security_rejection
        return_ (failed_result ssrf_rejection security))
      else probe_and_write (request ip_validation.ip) task dns

  unfoldable pub after_dns : (Text → Scheme → Attempt) → Task → DnsResult → Action ProcessingResult
  unfolding handle_dns_failure check_ips
  after_dns request task dns =
      if not (Dns.is_success dns)
      then handle_dns_failure task dns
      else check_ips request task dns (validate_ips env.ip_address (all_ips dns))

  -- steps 5 and 6, under the lock
  unfoldable pub observe : (Text → Scheme → Attempt) → Task → Text → Action ProcessingResult
  unfolding after_dns resolve_dns
  observe request task name = do dns ← resolve_dns name; after_dns request task dns

  abbrev pub fresh_in : ℕ → Task → Db → Bool
  fresh_in i task db =
      (check_freshness env.freshness_seconds (env.clock i)
        (Details.get db.details task.domain_id)).0

  unfoldable pub after_double_check :
      (Text → Scheme → Attempt) → Task → Text → Bool → Action ProcessingResult
  unfolding observe complete
  after_double_check request task name fresh =
      if fresh
      then (do complete env 2 task.id; return_ completed_result)
      else observe request task name

  unfoldable pub contended : Task → Action ProcessingResult
  unfolding retry_later
  contended task = do
    retry_later env 1 task.id lock_contention
    return_ (pending_result lock_contention)

  -- steps 3 to 5: the lock and the second check of freshness
  unfoldable pub under_lock : (Text → Scheme → Attempt) → Task → Text → Action ProcessingResult
  unfolding after_double_check session contended
  under_lock request task name = if not env.lock_acquired then contended task else (do
    fresh ← session env 1 (λ db. (ok (fresh_in 1 task db), db))
    after_double_check request task name fresh)

  unfoldable pub after_read :
      (Text → Scheme → Attempt) → Task → Option Domain × Bool → Action ProcessingResult
  unfolding under_lock complete fail
  after_read request task (none, fresh) = do
    fail env 1 task.id domain_not_found permanent
    return_ (failed_result domain_not_found permanent)
  after_read request task (some domain, fresh) =
      if fresh
      then (do complete env 1 task.id; return_ completed_result)
      else under_lock request task domain.normalized_domain

  -- the body of the `try`
  unfoldable pub process_body : (Text → Scheme → Attempt) → Task → Action ProcessingResult
  unfolding after_read session
  process_body request task = do
    found ←
        session env 0 (λ db. (ok (Domains.get db.domains task.domain_id, fresh_in 0 task db), db))
    after_read request task found

  -- the `except` clause
  unfoldable pub handle_exception :
      Task → Outcome ProcessingResult × Db → Outcome ProcessingResult × Db
  unfolding retry_later fail
  handle_exception task (ok r, db) = (ok r, db)
  handle_exception task (raised why message, db) =
      (if is_retryable why
          then (do
            retry_later env 4 task.id (exception_text message)
            return_ (pending_result (exception_text message)))
          else (do
            fail env 4 task.id (exception_text message) permanent
            return_ (failed_result (exception_text message) permanent)))
        db

  unfoldable pub process_task : (Text → Scheme → Attempt) → Task → Action ProcessingResult
  unfolding process_body handle_exception
  process_task request task db = handle_exception task (process_body request task db)
