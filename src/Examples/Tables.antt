-- ===== src/Examples/Tables.antt =====
-- The statements of the repositories, at concrete tables.
use domain_process_e2e.Prelude.{
  ℕ, Bool, true, false, List, [], ◌∷◌, ◌==◌, some, ◌≡◌, ◌≢◌, refl, arith,
}
use domain_process_e2e.Prelude.Sort.{sort, insert}
use mathlib.Core.List.{Memᴰ}
use domain_process_e2e.Model.{Job, Task, Db}
use domain_process_e2e.Tasks.{
  claim, claim_tasks, select_for_update, recover_expired_tasks, write_back, recover, backoff_delay,
}
use domain_process_e2e.Tasks.Recovery.{IsRecovered, recover_expired_tasks-IsRecovered}
use domain_process_e2e.Tasks.Claim.{IsClaimOf, claim_tasks-IsClaimOf, claim_tasks_once}
use domain_process_e2e.Jobs.{check_and_update_job_status}
use domain_process_e2e.Jobs
use domain_process_e2e.Jobs.Completion.{IsSettled, check_settles}
use domain_process_e2e.Examples.{
  first_task, second_task, expired_task, open_job, detail_of, small_db,
}

abbrev no_locks : ℕ → Bool
no_locks i = false

abbrev table : List Task
table = first_task ∷ second_task ∷ []

-- The user's task is taken first, though the refresh is older.
first_is_claimed : Memᴰ (claim 100 50 first_task) (claim_tasks 1 100 50 no_locks table).1
unfolding claim_tasks select_for_update sort insert
first_is_claimed = Memᴰ.head refl

second_is_claimed :
    Memᴰ
      (claim 101 51 second_task)
      (claim_tasks 1 101 51 no_locks (claim_tasks 1 100 50 no_locks table).0).1
unfolding claim_tasks select_for_update sort insert write_back claim
second_is_claimed = Memᴰ.head refl

claim_tasks-IsClaimOf_example : IsClaimOf 100 50 no_locks table (claim 100 50 first_task)
claim_tasks-IsClaimOf_example = claim_tasks-IsClaimOf 1 100 50 no_locks table first_is_claimed

claim_tasks_once_example : (claim 100 50 first_task).id ≢ (claim 101 51 second_task).id
claim_tasks_once_example =
    claim_tasks_once 1 1 100 101 50 51 no_locks no_locks table first_is_claimed second_is_claimed

-- what a second session sees: the row of the first task is locked
abbrev first_is_locked : ℕ → Bool
first_is_locked i = i == 1

held : (t : Task) → Memᴰ t (claim_tasks 1 100 50 no_locks table).1 → first_is_locked t.id ≡ true
unfolding claim_tasks select_for_update sort insert claim
held t (Memᴰ.head e) = rw e refl
held t (Memᴰ.tail m) = elim m [ ]

second_is_skipped_to :
    Memᴰ (claim 101 51 second_task) (claim_tasks 1 101 51 first_is_locked table).1
unfolding claim_tasks select_for_update sort insert
second_is_skipped_to = Memᴰ.head refl

abbrev no_jitter : ℕ → ℕ
no_jitter i = 0

recovered_is_returned :
    Memᴰ
      (recover 3 no_jitter 101 expired_task)
      (recover_expired_tasks 3 no_jitter 5 100 101 no_locks (expired_task ∷ [])).1
unfolding recover_expired_tasks select_for_update sort insert recover backoff_delay
recovered_is_returned = Memᴰ.head refl

recover_expired_tasks-IsRecovered_example :
    IsRecovered 3 101
      (expired_task ∷ [])
      (recover_expired_tasks 3 no_jitter 5 100 101 no_locks (expired_task ∷ [])).0
      (recover 3 no_jitter 101 expired_task)
recover_expired_tasks-IsRecovered_example =
    recover_expired_tasks-IsRecovered 3 no_jitter 5 100 101 no_locks (expired_task ∷ [])
      (λ i. omega arith) recovered_is_returned

abbrev db : Db
db = small_db table (detail_of 4 2 ∷ [])

check_settles_example :
    (job' : Job) × (Jobs.get (check_and_update_job_status (some 7) 60 db).jobs 7 ≡ some job')
    × IsSettled 7 db.tasks open_job job'
check_settles_example = check_settles 7 60 db open_job (unfold Jobs.get in refl)
