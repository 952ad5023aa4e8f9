-- ===== src/Tasks.antt =====
-- src/domain_processing_service/repositories/task.py. A statement runs on the table of tasks and
-- gives the new table with its result. `locked` tells the rows that other transactions hold, which
-- SKIP LOCKED leaves out; `jitter` gives random.randint(0, 60) for each task.
pub mod Rows
pub mod Claim
pub mod Budget
pub mod Recovery
pub mod Refresh
use domain_process_e2e.Prelude.{
  ℕ, zero, suc, ◌+◌, ◌-◌, ◌*◌, ◌^◌, min, Bool, true, false, not, ◌&&◌, ◌||◌, List, [], ◌∷◌, ◌++◌,
  ltb, leb, ◌==◌, if◌then◌else◌, Option, none, some, is_some, length, take, filter, any, all, find,
  map,
}
use domain_process_e2e.Prelude.Sort.{sort}
use mathlib.Core.Option.{map as option_map}
use domain_process_e2e.Model.{
  TaskStatus, pending, processing, completed, failed, TaskType, user_request, refresh, Task,
  ErrorPayload, max_attempts_exceeded, exceeded,
}

abbrev pub is_pending : TaskStatus → Bool
is_pending pending = true
is_pending _ = false

abbrev pub is_processing : TaskStatus → Bool
is_processing processing = true
is_processing _ = false

-- Task.status.in_([PENDING, PROCESSING])
abbrev pub is_open : TaskStatus → Bool
is_open s = is_pending s || is_processing s

abbrev pub type_eq : TaskType → TaskType → Bool
type_eq user_request user_request = true
type_eq refresh refresh = true
type_eq _ _ = false

abbrev pub option_eq : Option ℕ → ℕ → Bool
option_eq none j = false
option_eq (some i) j = i == j

-- create, create_batch
unfoldable pub create_batch : List Task → List Task → List Task
create_batch table tasks = table ++ tasks

unfoldable pub get : List Task → ℕ → Option Task
get table task_id = find (λ t. t.id == task_id) table

-- A write to one object of the session, flushed to its row.
unfoldable pub update : (Task → Task) → ℕ → List Task → List Task
update f task_id table = map (λ t. if t.id == task_id then f t else t) table

-- A keyword argument that is None leaves the field alone.
abbrev pub or_keep {ℓ} : {A : Type ℓ} → Option A → A → A
or_keep none old = old
or_keep (some new) old = new

abbrev pub or_keep_option {ℓ} : {A : Type ℓ} → Option A → Option A → Option A
or_keep_option none old = old
or_keep_option (some new) old = some new

-- update_status: the new table, and whether there is such a task
unfoldable pub update_status :
    ℕ
    → TaskStatus
    → Option ℕ
    → Option ℕ
    → Option ℕ
    → Option ErrorPayload
    → ℕ
    → List Task
    → List Task × Bool
unfolding get update
update_status task_id s lease attempts next_attempt error now table = elim (get table task_id) [
  | none ↦ (table, false)
  | some t ↦ (
    update
        (λ t. record t {
          status = s;
          updated_at = now;
          lease_expires_at = or_keep_option lease t.lease_expires_at;
          attempts = or_keep attempts t.attempts;
          next_attempt_at = or_keep next_attempt t.next_attempt_at;
          error_payload = or_keep_option error t.error_payload;
        })
        task_id table,
    true,
  )
]

abbrev pub is_open_refresh : ℕ → Task → Bool
is_open_refresh domain_id t = t.domain_id == domain_id && type_eq t.type refresh && is_open t.status

-- Result.scalar_one_or_none; `none` is its MultipleResultsFound.
abbrev pub scalar_one_or_none {ℓ} : {A : Type ℓ} → List A → Option (Option A)
scalar_one_or_none [] = some none
scalar_one_or_none (x ∷ []) = some (some x)
scalar_one_or_none (x ∷ y ∷ xs) = none

unfoldable pub get_pending_refresh_task_for_domain : List Task → ℕ → Option (Option Task)
get_pending_refresh_task_for_domain table domain_id =
    scalar_one_or_none (filter (is_open_refresh domain_id) table)

abbrev pub refresh_task : ℕ → ℕ → ℕ → Task
refresh_task task_id domain_id now = record {
  id = task_id;
  job_id = none;
  domain_id = domain_id;
  type = refresh;
  status = pending;
  attempts = 0;
  next_attempt_at = now;
  lease_expires_at = none;
  error_payload = none;
  created_at = now;
  updated_at = now;
}

-- `if existing is not None: continue`, on what the query gives
abbrev pub unless_open {ℓ} : {A : Type ℓ} → Option (Option Task) → Option A → Option A → Option A
unless_open none skipped created = none
unless_open (some (some existing)) skipped created = skipped
unless_open (some none) skipped created = created

abbrev pub with_created : Task → List Task × List Task → List Task × List Task
with_created task r = (r.0, task ∷ r.1)

-- The loop of create_refresh_tasks, with the fresh ids that uuid4 gives: the new table, and the
-- tasks created; `none` is the exception of a query. Each query sees the rows that the rounds
-- before it added.
unfoldable pub create_refresh_tasks : ℕ → List (ℕ × ℕ) → List Task → Option (List Task × List Task)
unfolding get_pending_refresh_task_for_domain
create_refresh_tasks now [] table = some (table, [])
create_refresh_tasks now ((task_id, domain_id) ∷ rest) table =
    let task = refresh_task task_id domain_id now in
    let skipped = create_refresh_tasks now rest table in
    let created = create_refresh_tasks now rest (table ++ task ∷ []) in
    unless_open (get_pending_refresh_task_for_domain table domain_id) skipped
      (option_map (with_created task) created)

-- Task.created_at, Task.id: after the cursor
abbrev pub is_after : ℕ → ℕ → Task → Bool
is_after created_at task_id t =
    ltb created_at t.created_at || (t.created_at == created_at && ltb task_id t.id)

-- ORDER BY Task.created_at, Task.id
abbrev pub cursor_leq : Task → Task → Bool
cursor_leq s t = ltb s.created_at t.created_at || (s.created_at == t.created_at && leb s.id t.id)

abbrev pub of_job : ℕ → Task → Bool
of_job job_id t = option_eq t.job_id job_id

abbrev pub in_range : Option (ℕ × ℕ) → Task → Bool
in_range none t = true
in_range (some (created_at, task_id)) t = is_after created_at task_id t

unfoldable pub get_by_job_id_paginated : List Task → ℕ → ℕ → Option (ℕ × ℕ) → List Task
get_by_job_id_paginated table job_id limit cursor =
    take (limit + 1) (sort cursor_leq (filter (in_range cursor) (filter (of_job job_id) table)))

abbrev pub status_eq : TaskStatus → TaskStatus → Bool
status_eq pending pending = true
status_eq processing processing = true
status_eq completed completed = true
status_eq failed failed = true
status_eq _ _ = false

-- get_summary_by_job_id at one status
unfoldable pub summary_count : List Task → ℕ → TaskStatus → ℕ
summary_count table job_id s =
    length (filter (λ t. status_eq t.status s) (filter (of_job job_id) table))

-- type_priority
abbrev pub type_priority : TaskType → ℕ
type_priority user_request = 0
type_priority refresh = 1

-- ORDER BY type_priority, Task.created_at, Task.id
abbrev pub claim_leq : Task → Task → Bool
claim_leq s t =
    ltb (type_priority s.type) (type_priority t.type)
    || (type_priority s.type == type_priority t.type && cursor_leq s t)

abbrev pub has_id : ℕ → Task → Bool
has_id i t = t.id == i

-- The rows of the statement: WHERE, ORDER BY, LIMIT, FOR UPDATE SKIP LOCKED.
unfoldable pub select_for_update : (Task → Bool) → ℕ → (ℕ → Bool) → List Task → List Task
select_for_update where_ limit locked table =
    take limit (sort claim_leq (filter (λ t. where_ t && not (locked t.id)) table))

-- The rows of the selected tasks after `f`.
unfoldable pub write_back : (Task → Task) → List Task → List Task → List Task
write_back f selected table = map (λ t. if any (has_id t.id) selected then f t else t) table

abbrev pub is_claimable : List TaskType → Task → Bool
is_claimable task_types t = is_pending t.status && any (type_eq t.type) task_types

abbrev pub all_types : List TaskType
all_types = user_request ∷ refresh ∷ []

-- the body of the loop in claim_tasks
unfoldable pub claim : ℕ → ℕ → Task → Task
claim lease_expires_at now t = record t {
  status = processing;
  lease_expires_at = some lease_expires_at;
  updated_at = now;
  attempts = t.attempts + 1;
}

-- `task_types` is the default, since no caller passes it.
unfoldable pub claim_tasks : ℕ → ℕ → ℕ → (ℕ → Bool) → List Task → List Task × List Task
claim_tasks limit lease_expires_at now locked table =
    let tasks = select_for_update (is_claimable all_types) limit locked table in
    (write_back (claim lease_expires_at now) tasks table, map (claim lease_expires_at now) tasks)

-- min(60 * (2 ** (attempts - 1)), 3600); at 0 attempts the power is the float 0.5
unfoldable pub backoff_delay : ℕ → ℕ
backoff_delay zero = 30
backoff_delay (suc n) = min (60 * 2 ^ n) 3600

abbrev lease_before : ℕ → Option ℕ → Bool
lease_before now none = false
lease_before now (some lease) = ltb lease now

abbrev pub is_expired : ℕ → Task → Bool
is_expired now t = is_processing t.status && lease_before now t.lease_expires_at

-- the body of the loop in recover_expired_tasks
unfoldable pub recover : ℕ → (ℕ → ℕ) → ℕ → Task → Task
unfolding backoff_delay
recover max_attempts jitter now t =
    if leb max_attempts t.attempts
    then record t {
      updated_at = now;
      status = failed;
      error_payload = some (record {
        code = max_attempts_exceeded;
        message = exceeded max_attempts;
        retryable = false;
      });
      lease_expires_at = none;
    }
    else record t {
      updated_at = now;
      status = pending;
      lease_expires_at = none;
      next_attempt_at = now + (backoff_delay t.attempts + jitter t.id);
    }

-- `now` is the argument, `later` the clock when the rows have been read.
unfoldable pub recover_expired_tasks :
    ℕ → (ℕ → ℕ) → ℕ → ℕ → ℕ → (ℕ → Bool) → List Task → List Task × List Task
recover_expired_tasks max_attempts jitter limit now later locked table =
    let tasks = select_for_update (is_expired now) limit locked table in
    (
      write_back (recover max_attempts jitter later) tasks table,
      map (recover max_attempts jitter later) tasks,
    )
