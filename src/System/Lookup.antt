-- ===== src/System/Lookup.antt =====
-- The worker finds the domain of a task: domains stay.
use domain_process_e2e.Prelude.{Option, ℕ, Bool, map, none, some, ◌≡◌, refl}
use mathlib.Core.List.{Memᴰ}
use domain_process_e2e.Text.{Text}
use domain_process_e2e.Model.{Domain, Task, Db}
use domain_process_e2e.Http.{Scheme, Attempt}
use domain_process_e2e.Manager.{Settings}
use domain_process_e2e.Pipeline.{Env, session, process_body, after_read, fresh_in}
use domain_process_e2e.Scheduler.{refreshed}
use domain_process_e2e.Scheduler.Tick.{by_tick}
use domain_process_e2e.Routes.Create.{Request, Ids, Service}
use domain_process_e2e.Routes.CreateJob.{Stage, create_job}
use domain_process_e2e.Routes.Commits.{by_create_job}
use domain_process_e2e.Routes.Dict.{in_front}
use domain_process_e2e.Routes.Fresh.{domain_id}
use domain_process_e2e.System.{empty_db, AreFresh, Reach}
use domain_process_e2e.System.Requests.{ids_after}
use domain_process_e2e.System.Invariant.{Reach-Kept, Reach-IsReferential}
use domain_process_e2e.System.Promises.{empty-IsReferential}
use domain_process_e2e.System.Found.{domain_there}

abbrev HasDomain : ℕ → Db → Type 0
HasDomain i db = Memᴰ i (map domain_id db.domains)

module _ (service : Service) (settings : Settings) where
  HasDomain-request :
      (i : ℕ) (ids : Ids) (now : ℕ) (down : Bool) (fault : Option Stage) (request : Request)
      (db : Db)
      → AreFresh ids db
      → HasDomain i db
      → HasDomain i (create_job service ids now down fault request db).1
  HasDomain-request i ids now down fault request db ids_fresh h =
      by_create_job service ids now (λ r. HasDomain i r.1) db (λ code. h) (λ k m. h)
        (λ invalid db0 db1 started filled.
          rw (ids_after ids now db ids_fresh invalid db0 db1 started filled)
            (in_front (map domain_id db.domains) _ h))
        down fault request

  -- A domain stays.
  Reach-HasDomain : (i : ℕ) (a b : Db) → Reach service settings a b → HasDomain i a → HasDomain i b
  unfolding refreshed
  Reach-HasDomain i a b =
      Reach-Kept service settings (HasDomain i) (λ a b same h. rw same.domains h)
        (λ ids now down fault request db ids_fresh h.
          HasDomain-request i ids now down fault request db ids_fresh h)
        (λ ids reads db_error now db ids_fresh h.
          by_tick (HasDomain i) ids settings.worker_concurrency reads db_error now db h (λ r e. h))
        (λ env db table writes s h. h)

  -- When a task was in a database that the program reaches, and a worker runs it later, with what
  -- the program does in the meantime and before its first session, then that session, unless it
  -- raises, finds the domain of the task: the run goes on from there, and never as if there were no
  -- domain.
  pub process_body-finds :
      (env : Env) (request : Text → Scheme → Attempt) (db later : Db) (t : Task)
      → Reach service settings empty_db db
      → Memᴰ t db.tasks
      → Reach service settings db later
      → ((i : ℕ) (other : Db) → Reach service settings other (env.other i other))
      → env.fault 0 ≡ none
      → (d : Domain) × (d.id ≡ t.domain_id)
        × (process_body env request t later
            ≡ after_read env request t
                (some d, fresh_in env 0 t (env.other 0 later))
                (env.other 0 later))
  unfolding process_body session
  process_body-finds env request db later t r m on others no_fault =
      let was =
        (Reach-IsReferential service settings empty_db db r empty-IsReferential).tasks.domain t m in
      let there =
        Reach-HasDomain t.domain_id later (env.other 0 later) (others 0 later)
          (Reach-HasDomain t.domain_id db later on was) in
      let (d, f, in_table, its_id) = domain_there (env.other 0 later).domains t.domain_id there in
      (d, its_id, rw (no_fault, f) refl)
