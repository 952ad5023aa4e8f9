-- ===== src/Pipeline/Run.antt =====
-- What every statement of a run keeps, the run of a task keeps: its steps.
use domain_process_e2e.Prelude.{
  ℕ, Bool, true, false, not, List, Option, none, some, is_some, Bool-cases, inl, inr, ◌≡◌, refl,
}
use domain_process_e2e.Text.{Text}
use domain_process_e2e.Model.{
  Task, Domain, DomainDetail, Db, permanent, security, security_rejection, ssrf_rejection,
  domain_not_found, lock_contention, exception_text,
}
use domain_process_e2e.Pipeline.{
  completed_result, retried, persisted, Env, ProcessingResult, Outcome, ok, raised, session,
  complete, fail, fail_deactivating, retry_later, resolve_dns, retry_persist, persist_domain_detail,
  probe_and_write, check_ips, after_dns, observe, after_double_check, contended, under_lock,
  after_read, process_body, handle_exception, process_task, fresh_in,
}
use domain_process_e2e.Details.{Upsert, stored, occ_conflict, upsert_with_occ}
use domain_process_e2e.Details
use domain_process_e2e.Domains
use domain_process_e2e.Dns.{DnsResult, resolve, all_ips, DnsClass}
use domain_process_e2e.Dns
use domain_process_e2e.Http.{HttpResult, Scheme, Attempt, probe}
use domain_process_e2e.Http
use domain_process_e2e.Ip.{IpValidationResult}
use domain_process_e2e.Processor.{is_retryable, validate_ips}
use domain_process_e2e.Pipeline.Keeps.{
  Laws, Stored, untouched, by_others, by_upsert, K, then-Keeps, if-Keeps, session-Keeps,
  complete-Keeps, fail-Keeps, fail_deactivating-Keeps, retry_later-Keeps, and_return-Keeps,
  handle_dns_failure-Keeps, handle_http_failure-Keeps,
}

module _ (P : Db → Type 0) (env : Env) (laws : Laws P env) where
  abbrev Storing : Db → Upsert → Type 0
  Storing db u = (after : List DomainDetail) → u ≡ stored after → Stored env db.details after

  retried-Kept :
      (db : Db) (table : List DomainDetail) (u : Upsert)
      → Stored env db.details table
      → Storing db u
      → P db
      → P (retried env db table u).1
  retried-Kept db table (stored details) s storing h =
      laws.details db details (storing details refl) h
  retried-Kept db table (occ_conflict expected found) s storing h = laws.details db table s h

  retry_persist-Kept :
      (detail : DomainDetail) (db : Db) (table : List DomainDetail) (held : ℕ)
      (o : Option DomainDetail)
      → Stored env db.details table
      → P db
      → P (retry_persist env detail db table held o).1
  unfolding retry_persist
  retry_persist-Kept detail db table held none s h = laws.details db table s h
  retry_persist-Kept detail db table held (some row) s h =
      retried-Kept db (env.others 2 table) (upsert_with_occ detail held (env.others 2 table))
        (by_others 2 s) (λ after e. by_upsert detail held e (by_others 2 s)) h

  persisted-Kept :
      (existing : Option DomainDetail) (detail : DomainDetail) (db : Db) (table : List DomainDetail)
      (u : Upsert)
      → Stored env db.details table
      → Storing db u
      → P db
      → P (persisted env existing detail db table u).1
  persisted-Kept existing detail db table (stored details) s storing h =
      laws.details db details (storing details refl) h
  persisted-Kept existing detail db table (occ_conflict expected found) s storing h =
      retry_persist-Kept detail db (env.others 1 table) _
        (Details.get (env.others 1 table) detail.domain_id) (by_others 1 s) h

  persist_domain_detail-Keeps :
      (task : Task) (dns : DnsResult) (r : HttpResult)
      → K P env laws (persist_domain_detail env task dns r)
  unfolding persist_domain_detail
  persist_domain_detail-Keeps task dns r db h =
      persisted-Kept _ _ db (env.others 0 db.details) _ (by_others 0 untouched)
        (λ after e. by_upsert _ _ e (by_others 0 untouched)) h

  probe_and_write-Keeps :
      (attempts : Scheme → Attempt) (task : Task) (dns : DnsResult)
      → K P env laws (probe_and_write env attempts task dns)
  unfolding probe_and_write
  probe_and_write-Keeps attempts task dns =
      if-Keeps P env laws.others (not (Http.is_success (probe env.client attempts))) _ _
        (handle_http_failure-Keeps P env laws task (probe env.client attempts))
        (and_return-Keeps P env laws (session env 3 _) completed_result (
          session-Keeps P env laws.others 3 _ (
            then-Keeps P env laws.others
              (persist_domain_detail env task dns (probe env.client attempts)) _
              (persist_domain_detail-Keeps task dns (probe env.client attempts))
              (λ _. laws.completes task.id (env.clock 3)))))

  check_ips-Keeps :
      (request : Text → Scheme → Attempt) (task : Task) (dns : DnsResult) (v : IpValidationResult)
      → K P env laws (check_ips env request task dns v)
  unfolding check_ips
  check_ips-Keeps request task dns v =
      if-Keeps P env laws.others (not v.is_allowed) _ _
        (and_return-Keeps P env laws
          (fail_deactivating env 3 task.id task.domain_id ssrf_rejection security
            security_rejection)
          _
          (fail_deactivating-Keeps P env laws 3 task.id task.domain_id ssrf_rejection security
            security_rejection))
        (probe_and_write-Keeps (request v.ip) task dns)

  after_dns-Keeps :
      (request : Text → Scheme → Attempt) (task : Task) (dns : DnsResult)
      → K P env laws (after_dns env request task dns)
  unfolding after_dns
  after_dns-Keeps request task dns =
      if-Keeps P env laws.others (not (Dns.is_success dns)) _ _
        (handle_dns_failure-Keeps P env laws task dns)
        (check_ips-Keeps request task dns (validate_ips env.ip_address (all_ips dns)))

  resolve_dns-Keeps : (name : Text) → K P env laws (resolve_dns env name)
  unfolding resolve_dns
  resolve_dns-Keeps name db h = elim (Bool-cases (is_some (resolve env.query name).error)) [
    | inl e ↦ rw e h
    | inr e ↦ rw e h
  ]

  observe-Keeps :
      (request : Text → Scheme → Attempt) (task : Task) (name : Text)
      → K P env laws (observe env request task name)
  unfolding observe
  observe-Keeps request task name =
      then-Keeps P env laws.others (resolve_dns env name) (after_dns env request task)
        (resolve_dns-Keeps name) (after_dns-Keeps request task)

  after_double_check-Keeps :
      (request : Text → Scheme → Attempt) (task : Task) (name : Text) (fresh : Bool)
      → K P env laws (after_double_check env request task name fresh)
  unfolding after_double_check
  after_double_check-Keeps request task name true =
      and_return-Keeps P env laws (complete env 2 task.id) completed_result
        (complete-Keeps P env laws 2 task.id)
  after_double_check-Keeps request task name false = observe-Keeps request task name

  under_lock-Keeps :
      (request : Text → Scheme → Attempt) (task : Task) (name : Text)
      → K P env laws (under_lock env request task name)
  unfolding under_lock contended
  under_lock-Keeps request task name =
      if-Keeps P env laws.others (not env.lock_acquired) _ _
        (and_return-Keeps P env laws (retry_later env 1 task.id lock_contention) _
          (retry_later-Keeps P env laws 1 task.id lock_contention))
        (then-Keeps P env laws.others (session env 1 _) (after_double_check env request task name)
          (session-Keeps P env laws.others 1 (λ db. (ok (fresh_in env 1 task db), db)) (λ db h. h))
          (after_double_check-Keeps request task name))

  after_read-Keeps :
      (request : Text → Scheme → Attempt) (task : Task) (found : Option Domain × Bool)
      → K P env laws (after_read env request task found)
  unfolding after_read
  after_read-Keeps request task (none, fresh) =
      and_return-Keeps P env laws (fail env 1 task.id domain_not_found permanent) _
        (fail-Keeps P env laws 1 task.id domain_not_found permanent)
  after_read-Keeps request task (some domain, true) =
      and_return-Keeps P env laws (complete env 1 task.id) completed_result
        (complete-Keeps P env laws 1 task.id)
  after_read-Keeps request task (some domain, false) =
      under_lock-Keeps request task domain.normalized_domain

  process_body-Keeps :
      (request : Text → Scheme → Attempt) (task : Task)
      → K P env laws (process_body env request task)
  unfolding process_body
  process_body-Keeps request task =
      then-Keeps P env laws.others (session env 0 _) (after_read env request task)
        (session-Keeps P env laws.others 0
          (λ db. (ok (Domains.get db.domains task.domain_id, fresh_in env 0 task db), db))
          (λ db h. h))
        (after_read-Keeps request task)

  handle_exception-Kept :
      (task : Task) (r : Outcome ProcessingResult × Db) → P r.1 → P (handle_exception env task r).1
  unfolding handle_exception
  handle_exception-Kept task (ok r, db) h = h
  handle_exception-Kept task (raised why message, db) h =
      if-Keeps P env laws.others (is_retryable why) _ _
        (and_return-Keeps P env laws (retry_later env 4 task.id (exception_text message)) _
          (retry_later-Keeps P env laws 4 task.id (exception_text message)))
        (and_return-Keeps P env laws (fail env 4 task.id (exception_text message) permanent) _
          (fail-Keeps P env laws 4 task.id (exception_text message) permanent))
        db h

  -- What each statement of a run and other transactions keep, the run of a task keeps.
  pub process_task-Kept :
      (request : Text → Scheme → Attempt) (task : Task) (db : Db)
      → P db
      → P (process_task env request task db).1
  unfolding process_task
  process_task-Kept request task db h =
      handle_exception-Kept task (process_body env request task db)
        (process_body-Keeps request task db h)
