-- ===== src/Scheduler/Tick.antt =====
-- What a tick of the scheduler does to the tasks.
use domain_process_e2e.Prelude.{ℕ, Bool, List, ◌==◌, some, ◌≡◌, Bool-cases, Option-cases, inl, inr}
use domain_process_e2e.Model.{Task, Db}
use domain_process_e2e.Tasks.{create_refresh_tasks}
use domain_process_e2e.Scheduler.{
  Reads, is_blocked, max_tasks, with_ids, candidates, refreshed, tick,
}

-- What holds of the table, and when the loop of create_refresh_tasks comes to its end of what it
-- leaves, holds after any tick.
pub by_tick {ℓ} :
    (P : Db → Type ℓ) (ids : ℕ → ℕ) (worker_concurrency : ℕ) (reads : Reads) (db_error : Bool)
    (now : ℕ) (db : Db)
    → P db
    → ((r : List Task × List Task)
        → create_refresh_tasks now
            (with_ids ids (candidates worker_concurrency reads now db))
            db.tasks
          ≡ some r
        → P (record db { tasks = r.0 }))
    → P (tick ids worker_concurrency reads db_error now db)
unfolding tick refreshed
by_tick P ids worker_concurrency reads db_error now db old new =
    elim (Bool-cases (is_blocked reads)) [
      | inl e ↦ rw e old
      | inr e ↦ elim (Bool-cases (max_tasks worker_concurrency reads == 0)) [
        | inl f ↦ rw (e, f) old
        | inr f ↦ elim (Bool-cases db_error) [
          | inl g ↦ rw (e, f, g) old
          | inr g ↦
              rw (e, f, g)
                (elim (Option-cases (
                  create_refresh_tasks now
                    (with_ids ids (candidates worker_concurrency reads now db)) db.tasks)) [
                      | inl k ↦ rw k old
                      | inr (r, k) ↦ rw k (new r k)
                    ])
        ]
      ]
    ]
