-- ===== src/Routes/Atomic.antt =====
-- create_job commits all of its rows or none, wherever the database raises.
use domain_process_e2e.Prelude.{
  ℕ, Bool, true, false, length, ltb, ◌==◌, if◌then◌else◌, Option, none, some, ◌≡◌, ◌⊎◌, refl, inl,
  inr,
}
use domain_process_e2e.Model.{Db}
use domain_process_e2e.Routes.Create.{
  Request, Ids, Service, Response, http_error, created, replayed, valid_domains, invalid_domains,
  final_valid,
}
use domain_process_e2e.Routes.CreateJob.{
  Start, fresh, replay, conflict, failure, Stage, at_start, at_rows, at_commit, begin, fill, go_on,
  try_block, end_request, populate, create_job,
}

-- The whole of what the rows come to, or nothing.
abbrev pub or_nothing : ℕ → Db → Option Db → Response × Db
or_nothing job_id db none = (http_error 500, db)
or_nothing job_id db (some db') = (created job_id, db')

-- The transaction in one step.
abbrev pub all_or_nothing : Service → Ids → ℕ → Request → Db → Start → Response × Db
all_or_nothing service ids now request db (fresh db') = or_nothing ids.job db (
    populate service ids now ids.job
      (final_valid service.unicode (valid_domains service.unicode request.domains))
      (invalid_domains service.unicode request.domains) db')
all_or_nothing service ids now request db (replay job_id) = (replayed job_id, db)
all_or_nothing service ids now request db conflict = (http_error 409, db)
all_or_nothing service ids now request db failure = (http_error 500, db)

module _ {ℓ} (P : Response × Db → Type ℓ) (db : Db) (failed : P (http_error 500, db)) where
  fill-cases :
      (fault : Option Stage) (job_id : ℕ) (pending : Db) (o : Option Db)
      → P (or_nothing job_id db o)
      → P (end_request (fill fault job_id (record { committed = db; pending = pending }) o))
  fill-cases none job_id pending none h = failed
  fill-cases none job_id pending (some db') h = h
  fill-cases (some at_start) job_id pending none h = failed
  fill-cases (some at_start) job_id pending (some db') h = h
  fill-cases (some at_rows) job_id pending o h = failed
  fill-cases (some at_commit) job_id pending none h = failed
  fill-cases (some at_commit) job_id pending (some db') h = failed

  go_on-cases :
      (service : Service) (ids : Ids) (now : ℕ) (fault : Option Stage) (request : Request)
      (start : Start)
      → P (all_or_nothing service ids now request db start)
      → P (end_request (go_on service ids now fault request (begin db) start))
  go_on-cases service ids now fault request (fresh db') h = fill-cases fault ids.job db' _ h
  go_on-cases service ids now none request (replay j) h = h
  go_on-cases service ids now (some at_start) request (replay j) h = h
  go_on-cases service ids now (some at_rows) request (replay j) h = h
  go_on-cases service ids now (some at_commit) request (replay j) h = failed
  go_on-cases service ids now fault request conflict h = h
  go_on-cases service ids now fault request failure h = h

  -- What holds of a failure that leaves the database, and of the transaction in one step, holds of
  -- the `try` block with its `except` clauses, wherever the database raises.
  pub try_block-cases :
      (service : Service) (ids : Ids) (now : ℕ) (fault : Option Stage) (request : Request)
      (start : Start)
      → P (all_or_nothing service ids now request db start)
      → P (end_request (try_block service ids now fault request (begin db) start))
  try_block-cases service ids now none request start h =
      go_on-cases service ids now none request start h
  try_block-cases service ids now (some at_start) request start h = failed
  try_block-cases service ids now (some at_rows) request start h =
      go_on-cases service ids now (some at_rows) request start h
  try_block-cases service ids now (some at_commit) request start h =
      go_on-cases service ids now (some at_commit) request start h

module _ (service : Service) where
  fill_whole :
      (db pending : Db) (job_id : ℕ) (o : Option Db)
      → end_request (fill none job_id (record { committed = db; pending = pending }) o)
        ≡ or_nothing job_id db o
  fill_whole db pending job_id none = refl
  fill_whole db pending job_id (some db') = refl

  -- When the database raises nowhere, it is the transaction in one step.
  pub try_block_whole :
      (ids : Ids) (now : ℕ) (request : Request) (db : Db) (start : Start)
      → end_request (try_block service ids now none request (begin db) start)
        ≡ all_or_nothing service ids now request db start
  try_block_whole ids now request db (fresh db') = fill_whole db db' ids.job _
  try_block_whole ids now request db (replay j) = refl
  try_block_whole ids now request db conflict = refl
  try_block_whole ids now request db failure = refl

  abbrev Atomic : Ids → Db → Response × Db → Type 0
  Atomic ids db result = (result.0 ≡ created ids.job) ⊎ (result.1 ≡ db)

  all_or_nothing-Atomic :
      (ids : Ids) (now : ℕ) (request : Request) (db : Db) (start : Start)
      → Atomic ids db (all_or_nothing service ids now request db start)
  all_or_nothing-Atomic ids now request db (fresh db') = either _
    where
      either : (o : Option Db) → Atomic ids db (or_nothing ids.job db o)
      either none = inr refl
      either (some db1) = inl refl
  all_or_nothing-Atomic ids now request db (replay j) = inr refl
  all_or_nothing-Atomic ids now request db conflict = inr refl
  all_or_nothing-Atomic ids now request db failure = inr refl

  if-Atomic :
      (ids : Ids) (db : Db) (b : Bool) {x y : Response × Db}
      → Atomic ids db x
      → Atomic ids db y
      → Atomic ids db (if b then x else y)
  if-Atomic ids db true h k = h
  if-Atomic ids db false h k = k

  -- Wherever the database raises, create_job either answers that it has created the job, or leaves
  -- what is committed as it was, whatever it answers.
  pub create_job_atomic :
      (ids : Ids) (now : ℕ) (down : Bool) (fault : Option Stage) (request : Request) (db : Db)
      → ((create_job service ids now down fault request db).0 ≡ created ids.job)
        ⊎ ((create_job service ids now down fault request db).1 ≡ db)
  unfolding create_job
  create_job_atomic ids now down fault request db =
      let unchanged : (status : ℕ) → Atomic ids db (http_error status, db) = λ status. inr refl in
      if-Atomic ids db down (unchanged 503) (
        if-Atomic ids db (length request.domains == 0) (unchanged 400) (
          if-Atomic ids db (ltb service.max_domains_per_request (length request.domains))
            (unchanged 413)
            (try_block-cases (Atomic ids db) db (unchanged 500) service ids now fault request _
              (all_or_nothing-Atomic ids now request db _))))
