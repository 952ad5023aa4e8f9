-- ===== src/Examples/Runs.antt =====
-- The run of a task, the rounds of the task manager and the queue, at concrete inputs.
use domain_process_e2e.Prelude.{
  ℕ, ◌<◌, Bool, true, false, [], ◌∷◌, ◌++◌, ◌==◌, none, ◌≡◌, inl, inr, refl, arith, Bool-cases,
  filter,
}
use mathlib.Core.Path.{fun_ext}
use domain_process_e2e.Text.{Text, text}
use domain_process_e2e.Model.{Task, Db}
use domain_process_e2e.Tasks.{recover_expired_tasks, is_pending}
use domain_process_e2e.Tasks.Budget.{IsTable}
use domain_process_e2e.Ip.{validate}
use domain_process_e2e.Dns.{DnsResult, RecordType, Lookup, dns_failure, enotfound}
use domain_process_e2e.Http.{Scheme, Attempt, response, connect_error, probe, attempt_then, respond}
use domain_process_e2e.Queue.{BoundedQueue, available_capacity}
use domain_process_e2e.Queue.Invariant.{IsValid, Run}
use domain_process_e2e.Pipeline.{Env, ok, completed_result, probe_and_write, process_task}
use domain_process_e2e.Pipeline.Ssrf.{process_task_alike}
use domain_process_e2e.Pipeline.Budget.{Within, process_task-Within}
use domain_process_e2e.Pipeline.Outcomes.{probe_and_write_unjudged}
use domain_process_e2e.Manager.{Settings, batch_size, recovery_cycle, dispatched}
use domain_process_e2e.Manager.Rounds.{recovery_cycle_dispatches}
use domain_process_e2e.Examples.{
  first_task, second_task, expired_task, small_db, parse, network, env_of, two_addresses,
  one_row-IsTable,
}

-- A name that does not exist.
abbrev no_such_name : RecordType → Text → Lookup
no_such_name kind name = dns_failure enotfound

abbrev live : Env
live = env_of two_addresses

same_in_public :
    (ip : Text)
    → (validate parse ip).is_allowed ≡ true
    → network (response 200 [] []) ip ≡ network (connect_error []) ip
unfolding validate
same_in_public [] h = absurd (cc)
same_in_public (c ∷ t) h = elim (Bool-cases (c == b'8')) [
  | inl e ↦ fun_ext (λ s. rw e refl)
  | inr e ↦ absurd (ground (arith, e, h))
]

process_task_alike_example :
    process_task live (network (response 200 [] [])) first_task (small_db (first_task ∷ []) [])
    ≡ process_task live (network (connect_error [])) first_task (small_db (first_task ∷ []) [])
process_task_alike_example =
    process_task_alike live (network (response 200 [] [])) (network (connect_error []))
      same_in_public first_task (small_db (first_task ∷ []) [])

waiting-IsTable : IsTable 3 (first_task ∷ [])
waiting-IsTable = one_row-IsTable first_task (ground arith)

process_task-Within_example :
    Within 3
      (process_task live
        (network (response 200 [] []))
        first_task
        (small_db (first_task ∷ []) [])).1
process_task-Within_example =
    process_task-Within live (λ i db h. h) (network (response 200 [] [])) first_task
      (small_db (first_task ∷ []) []) waiting-IsTable

-- What is known of a name with an address.
abbrev resolved : DnsResult
resolved = record {
  ips_v4 = text "8" ∷ [];
  ips_v6 = [];
  cname = none;
  error = none;
  classification = none;
}

-- 429 Too Many Requests
abbrev too_many : Scheme → Attempt
too_many s = response 429 [] []

probe_and_write_unjudged_example :
    probe_and_write live too_many first_task resolved (small_db (first_task ∷ []) [])
    ≡ (ok completed_result, small_db (first_task ∷ []) [])
probe_and_write_unjudged_example =
    probe_and_write_unjudged live too_many first_task resolved (small_db (first_task ∷ []) [])
      (unfold probe attempt_then respond in refl)
      (inr (inr (inl (unfold probe attempt_then respond in refl))))

abbrev dead : Env
dead = env_of no_such_name

abbrev settings : Settings
settings = record { task_lease_seconds = 60; worker_concurrency = 2; max_attempts = 3 }

abbrev empty_queue : BoundedQueue Task
empty_queue = record {
  items = [];
  unfinished = 0;
  stats = record {
    capacity = 4;
    size = 0;
    max_size_reached = 0;
    total_enqueued = 0;
    total_dequeued = 0;
  };
}

empty_queue-IsValid : IsValid empty_queue
empty_queue-IsValid = ground arith

two_fit : 0 < batch_size settings empty_queue
unfolding batch_size available_capacity
two_fit = ground arith

abbrev no_locks : ℕ → Bool
no_locks i = false

abbrev waiting_db : Db
waiting_db = small_db (first_task ∷ second_task ∷ []) []

abbrev expired_db : Db
expired_db = small_db (expired_task ∷ []) []

abbrev no_jitter : ℕ → ℕ
no_jitter i = 0

recovery_cycle_dispatches_example :
    let (tasks, recovered) =
      recover_expired_tasks 3 no_jitter
        (batch_size settings empty_queue)
        100
        101
        no_locks
        expired_db.tasks in
    (q' : BoundedQueue Task) × (recovery_cycle settings no_jitter 100 101 no_locks expired_db
        empty_queue
      ≡ dispatched (record expired_db { tasks = tasks }) q')
    × IsValid q'
    × (q'.items ≡ [] ++ filter (λ t. is_pending t.status) recovered)
recovery_cycle_dispatches_example =
    recovery_cycle_dispatches settings no_jitter 100 101 no_locks expired_db empty_queue
      empty_queue-IsValid two_fit

abbrev start : Run Task
start = record { queue = empty_queue; accepted = []; handed_out = [] }
