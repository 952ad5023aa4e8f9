-- ===== src/Routes/CreateJob.antt =====
-- src/domain_processing_service/routes.py, create_job: the transaction, with the place where the
-- database raises, if it does.
use domain_process_e2e.Prelude.{
  ℕ, Bool, List, [], ◌∷◌, ◌++◌, map, ltb, ◌==◌, if◌then◌else◌, Option, none, some, length,
  update_where,
}
use domain_process_e2e.Text.{Text, text_eq}
use domain_process_e2e.Normalization.{NormalizedDomain}
use domain_process_e2e.Model.{pending, Job, Domain, DomainDetail, IdempotencyRecord, Db}
use domain_process_e2e.Domains.{get_by_normalized_domains, reactivate, clear_domain_details_batch}
use domain_process_e2e.Domains
use domain_process_e2e.Jobs
use domain_process_e2e.Tasks
use domain_process_e2e.Idempotency
use domain_process_e2e.Routes.Create.{
  Request, Ids, Service, Response, http_error, created, replayed, value_of, valid_domains,
  invalid_domains, final_valid, stored_name, compute_request_hash, missing_domains, domains_of,
  inactive_ids, has_some_id, valid_tasks, invalid_tasks,
}

-- `if reactivated_domain_ids: …`
abbrev pub clear_details : List ℕ → List DomainDetail → List DomainDetail
clear_details [] details = details
clear_details (i ∷ ids) details = clear_domain_details_batch (i ∷ ids) details

-- The rows of the request, with the domains of its valid and of its invalid names.
abbrev pub with_domains :
    Ids
    → ℕ
    → ℕ
    → List NormalizedDomain
    → List Domain
    → Db
    → Option (List Domain)
    → Option (List Domain)
    → Option Db
with_domains ids now job_id invalid new_domains db (some vs) (some is) = some (record db {
  domains =
      update_where (has_some_id (inactive_ids vs)) (reactivate now)
        (Domains.create_batch db.domains new_domains);
  details = clear_details (inactive_ids vs) db.details;
  tasks =
      Tasks.create_batch db.tasks
        (valid_tasks ids.task job_id now vs (invalid_tasks job_id now invalid is));
})
with_domains ids now job_id invalid new_domains db _ _ = none

-- `if not is_idempotent_replay: …`; `none` is a KeyError of `domain_map`.
unfoldable pub populate :
    Service → Ids → ℕ → ℕ → List NormalizedDomain → List NormalizedDomain → Db → Option Db
populate service ids now job_id final invalid db =
    let names = service.iterate (map value_of final ++ map stored_name invalid) in
    let existing = get_by_normalized_domains db.domains names in
    let new_domains = missing_domains ids.domain now existing names in
    let domain_map = existing ++ new_domains in
    with_domains ids now job_id invalid new_domains db (domains_of domain_map (map value_of final))
      (domains_of domain_map (map stored_name invalid))

-- How the transaction goes on after the lookup of the key.
pub data Start : Type 0 where
  fresh : Db → Start
  replay : ℕ → Start
  conflict failure : Start

-- `if idempotency_key:`, which an empty header fails
abbrev pub header : Option Text → Option Text
header none = none
header (some []) = none
header (some (c ∷ t)) = some (c ∷ t)

abbrev pub or_text : Option Text → Text → Text
or_text none t = t
or_text (some s) t = s

-- `client_id or request_id`
abbrev pub effective_client_id : Request → Text
effective_client_id request = or_text (header request.client_id) request.request_id

abbrev pub new_job : ℕ → ℕ → Job
new_job job_id now = record { id = job_id; status = pending; created_at = now; updated_at = now }

abbrev pub new_record : Ids → ℕ → Text → Text → Text → IdempotencyRecord
new_record ids now client_id key hash = record {
  id = ids.record_;
  client_id = client_id;
  idempotency_key = key;
  request_hash = hash;
  job_id = ids.job;
  created_at = now;
}

-- the record that holds the key
abbrev pub against : Text → Option IdempotencyRecord → Start
against hash none = failure
against hash (some existing) =
    if text_eq existing.request_hash hash then replay existing.job_id else conflict

-- the savepoint, by what the insert of the record gives
abbrev pub savepoint : List Job → Db → Text → Text → Text → Option (List IdempotencyRecord) → Start
savepoint jobs db client_id key hash (some records) =
    fresh (record db { jobs = jobs; records = records })
savepoint jobs db client_id key hash none = against hash (Idempotency.get db.records client_id key)

unfoldable pub start_job : Ids → ℕ → Text → Text → Option Text → Db → Start
start_job ids now client_id hash none db =
    fresh (record db { jobs = Jobs.create (new_job ids.job now) db.jobs })
start_job ids now client_id hash (some key) db =
    savepoint (Jobs.create (new_job ids.job now) db.jobs) db client_id key hash
      (Idempotency.create (new_record ids now client_id key hash) db.records)

-- Where the database raises: in a statement of the start, in one that fills the rows, or at the
-- commit.
pub data Stage : Type 0 where
  at_start at_rows at_commit : Stage

-- The session: what is committed, and what its transaction has made of it.
pub record Session : Type 0 where
  pub committed : Db
  pub pending : Db

abbrev pub begin : Db → Session
begin db = record { committed = db; pending = db }

-- How the `try` block ends: it goes on to an answer, or raises HTTPException or another exception.
pub data TryResult : Type 0 where
  answers : Response → TryResult
  http_exception : ℕ → TryResult
  exception : TryResult

-- `await session.commit()`, and the answer
abbrev pub commit : Option Stage → Response → Session → TryResult × Session
commit (some at_commit) answer s = (exception, s)
commit _ answer s = (answers answer, begin s.pending)

-- the rows, by what `populate` gives
abbrev pub fill : Option Stage → ℕ → Session → Option Db → TryResult × Session
fill (some at_rows) job_id s o = (exception, s)
fill fault job_id s none = (exception, s)
fill fault job_id s (some db) = commit fault (created job_id) (record s { pending = db })

abbrev pub go_on :
    Service → Ids → ℕ → Option Stage → Request → Session → Start → TryResult × Session
go_on service ids now fault request s (fresh db) =
    fill fault ids.job (record s { pending = db })
      (populate service ids now ids.job
        (final_valid service.unicode (valid_domains service.unicode request.domains))
        (invalid_domains service.unicode request.domains) db)
go_on service ids now fault request s (replay job_id) = commit fault (replayed job_id) s
go_on service ids now fault request s conflict = (http_exception 409, s)
go_on service ids now fault request s failure = (exception, s)

-- the `try` block
abbrev pub try_block :
    Service → Ids → ℕ → Option Stage → Request → Session → Start → TryResult × Session
try_block service ids now (some at_start) request s start = (exception, s)
try_block service ids now fault request s start = go_on service ids now fault request s start

abbrev pub rollback : Session → Session
rollback s = begin s.committed

-- The `except` clauses, and the answer, with what the database then has.
abbrev pub end_request : TryResult × Session → Response × Db
end_request (answers r, s) = (r, s.committed)
end_request (http_exception code, s) = (http_error code, (rollback s).committed)
end_request (exception, s) = (http_error 500, (rollback s).committed)

unfoldable pub create_job : Service → Ids → ℕ → Bool → Option Stage → Request → Db → Response × Db
unfolding start_job
create_job service ids now is_shutting_down fault request db =
    if is_shutting_down
    then (http_error 503, db)
    else if length request.domains == 0
    then (http_error 400, db)
    else if ltb service.max_domains_per_request (length request.domains)
    then (http_error 413, db)
    else end_request (
        try_block service ids now fault request (begin db) (
          start_job ids now (effective_client_id request)
            (compute_request_hash service request.domains) (header request.idempotency_key) db))
