-- ===== src/System/Promises.antt =====
-- What a client can rely on, whatever else the program does: a job that it was given is there.
use domain_process_e2e.Prelude.{
  ℕ, Bool, [], ◌∷◌, ◌++◌, map, ◌<◌, Option, none, some, length, filter, ◌≡◌, refl, ap, ◌∙◌, subst,
  arith,
}
use mathlib.Core.List.{Memᴰ, map-append}
use mathlib.Core.Option.{some-injective}
use domain_process_e2e.Model.{Domain, Task, Db}
use domain_process_e2e.Domains
use domain_process_e2e.Pipeline.Budget.{Within}
use domain_process_e2e.Tasks.Budget.{IsTable}
use domain_process_e2e.Manager.{Settings}
use domain_process_e2e.Scheduler.{refreshed}
use domain_process_e2e.Scheduler.Tick.{by_tick}
use domain_process_e2e.Tasks.{of_job}
use domain_process_e2e.Routes.{page_limit, get_job_page}
use domain_process_e2e.Routes.Walk.{in_order}
use domain_process_e2e.Routes.Create.{
  Request, Ids, Service, Response, http_error, created, replayed,
}
use domain_process_e2e.Routes.CreateJob.{Stage, create_job, new_job}
use domain_process_e2e.Routes.Commits.{by_create_job}
use domain_process_e2e.Routes.Cursor.{Codec, CodecLaws}
use domain_process_e2e.Routes.Dict.{in_front, in_back}
use domain_process_e2e.Routes.Fresh.{domain_id}
use domain_process_e2e.Routes.GetJob.{
  found, JobResponse, job_response, get_job, task_result, name_or_unknown,
}
use domain_process_e2e.Routes.Api.{collect, get_job_complete, result_alone, last_with-in_ids}
use domain_process_e2e.System.{job_id, empty_db, AreFresh, Reach, request_job}
use domain_process_e2e.System.Schema.{IsReferential}
use domain_process_e2e.System.Invariant.{Reach-Kept, Reach-IsReferential, Reach-IsTable}
use domain_process_e2e.System.Found.{get_there, domain_there, last_with-get, Distinct-DistinctIds}

-- the job that an answer names
abbrev pub job_of : Response → Option ℕ
job_of (http_error code) = none
job_of (created j) = some j
job_of (replayed j) = some j

abbrev pub HasJob : ℕ → Db → Type 0
HasJob j db = Memᴰ j (map job_id db.jobs)

pub empty-IsReferential : IsReferential empty_db
empty-IsReferential = record {
  jobs = record { ids = tt };
  domains = record { ids = tt; names = tt };
  tasks = record { ids = tt; job = λ t m. elim m [ ]; domain = λ t m. elim m [ ] };
  records = record { keys = tt; job = λ r m. elim m [ ] };
  details = record { domains = tt };
}

empty-IsTable : (max_attempts : ℕ) → Within max_attempts empty_db
empty-IsTable max_attempts = record { unique = λ s t m. elim m [ ]; rows = λ t m. elim m [ ] }

-- A new job comes after the others.
with_new_job :
    (ids : Ids) (now : ℕ) (db db1 : Db)
    → db1.jobs ≡ db.jobs ++ new_job ids.job now ∷ []
    → map job_id db1.jobs ≡ map job_id db.jobs ++ ids.job ∷ []
with_new_job ids now db db1 e =
    ap (map job_id) e ∙ map-append job_id db.jobs (new_job ids.job now ∷ [])

module _ (service : Service) (settings : Settings) where
  HasJob-request :
      (j : ℕ) (ids : Ids) (now : ℕ) (down : Bool) (fault : Option Stage) (request : Request)
      (db : Db)
      → HasJob j db
      → HasJob j (create_job service ids now down fault request db).1
  HasJob-request j ids now down fault request db h =
      by_create_job service ids now (λ r. HasJob j r.1) db (λ code. h) (λ k m. h)
        (λ invalid db0 db1 started filled.
          rw (with_new_job ids now db db1 (filled.jobs ∙ started.jobs))
            (in_front (map job_id db.jobs) _ h))
        down fault request

  -- A job stays.
  Reach-HasJob : (j : ℕ) (a b : Db) → Reach service settings a b → HasJob j a → HasJob j b
  unfolding refreshed
  Reach-HasJob j a b =
      Reach-Kept service settings (HasJob j) (λ a b same h. rw same.jobs h)
        (λ ids now down fault request db ids_fresh h.
          HasJob-request j ids now down fault request db h)
        (λ ids reads db_error now db ids_fresh h.
          by_tick (HasJob j) ids settings.worker_concurrency reads db_error now db h (λ r e. h))
        (λ env db table writes s h. h)

  answered-HasJob :
      (ids : Ids) (now : ℕ) (down : Bool) (fault : Option Stage) (request : Request) (db : Db)
      (j : ℕ)
      → IsReferential db
      → job_of (create_job service ids now down fault request db).0 ≡ some j
      → HasJob j (create_job service ids now down fault request db).1
  answered-HasJob ids now down fault request db j h =
      by_create_job service ids now (λ r. job_of r.0 ≡ some j → HasJob j r.1) db
        (λ code e. absurd (cc))
        (λ k m e.
          let (r, there, same) = m in
          subst (λ i. HasJob i db) (same ∙ some-injective k j e) (h.records.job r there))
        (λ invalid db0 db1 started filled e.
          rw (with_new_job ids now db db1 (filled.jobs ∙ started.jobs), some-injective ids.job j e)
            (in_back (map job_id db.jobs) _ (Memᴰ.head refl)))
        down fault request

  -- From the empty database, whatever requests, rounds, ticks and runs follow each other, also
  -- between the sessions of a run, when uuid4 gives new ids, others write details within a session
  -- by upsert_with_occ, and tasks have at least one attempt: ids, domain names and idempotency keys
  -- are unique, and no domain has two details; each task names a job and a domain that are there,
  -- each record a job; no task is past its attempts, a PENDING task has attempts left and no lease,
  -- and a PROCESSING task has been counted and holds a lease.
  pub reached-IsReferential :
      (db : Db)
      → 0 < settings.max_attempts
      → Reach service settings empty_db db
      → IsReferential db × IsTable settings.max_attempts db.tasks
  reached-IsReferential db some_tries r = (
    Reach-IsReferential service settings empty_db db r empty-IsReferential,
    Reach-IsTable service settings some_tries r (empty-IsTable settings.max_attempts),
  )

  -- When create_job, on a database that the program reaches, answers with a job, new or replayed,
  -- then, whatever the program does in the meantime: get_job finds that job, with any limit that it
  -- accepts; and the calls of get_job, each with the cursor that the one before gave, return the
  -- result of each task of the job once, in the order of creation and id. More calls than tasks are
  -- enough.
  pub create_job-get_job :
      (codec : Codec) (ids : Ids) (now : ℕ) (down : Bool) (fault : Option Stage) (request : Request)
      (db later : Db) (j : ℕ) (default_page_size max_page_size page_size n : ℕ) (limit : Option ℕ)
      → CodecLaws codec
      → AreFresh ids db
      → Reach service settings empty_db db
      → job_of (create_job service ids now down fault request db).0 ≡ some j
      → Reach service settings (create_job service ids now down fault request db).1 later
      → page_limit default_page_size max_page_size limit ≡ some page_size
      → 0 < max_page_size
      → length (filter (of_job j) later.tasks) < n
      → (v : JobResponse) × (get_job codec default_page_size max_page_size later j limit none
          ≡ found v)
        × (v.job_id ≡ j)
        × (collect codec default_page_size max_page_size later j limit n none
            ≡ map (result_alone later) (in_order later.tasks j page_size))
  unfolding get_job
  create_job-get_job codec ids now down fault request db later j default_page_size max_page_size
        page_size n limit laws ids_fresh r given on fits positive enough =
      let after = (create_job service ids now down fault request db).1 in
      let before = Reach-IsReferential service settings empty_db db r empty-IsReferential in
      let whole =
        Reach-IsReferential service settings empty_db after
          (request_job ids now down fault request ids_fresh r) empty-IsReferential in
      let there =
        Reach-HasJob j after later on
          (answered-HasJob ids now down fault request db j before given) in
      let (job, e, same) = get_there later.jobs j there in
      let distinct =
        Distinct-DistinctIds later.tasks
          ((Reach-IsReferential service settings after later on whole).tasks.ids) in
      (
        job_response codec later j job (get_job_page later.tasks j page_size none),
        rw (e, fits) refl,
        same,
        get_job_complete codec default_page_size max_page_size later j limit n page_size job laws e
            fits positive distinct enough,
      )

  -- In a database that the program reaches, the worker finds the domain of each task, and get_job
  -- shows its name with the result of the task.
  pub task-domain :
      (db : Db) (t : Task)
      → Reach service settings empty_db db
      → Memᴰ t db.tasks
      → (d : Domain) × (Domains.get db.domains t.domain_id ≡ some d)
        × (d.id ≡ t.domain_id)
        × ((result_alone db t).domain ≡ d.normalized_domain)
  unfolding task_result
  task-domain db t r m =
      let h = Reach-IsReferential service settings empty_db db r empty-IsReferential in
      let (d, e, there, same) = domain_there db.domains t.domain_id (h.tasks.domain t m) in
      let one =
        last_with-in_ids domain_id (t.domain_id ∷ []) db.domains t.domain_id (ground arith) in
      (
        d,
        e,
        same,
        ap name_or_unknown (one ∙ last_with-get db.domains t.domain_id h.domains.ids ∙ e),
      )
