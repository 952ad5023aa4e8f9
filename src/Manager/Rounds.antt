-- ===== src/Manager/Rounds.antt =====
-- What a round of the task manager leaves.
use domain_process_e2e.Prelude.{
  ℕ, suc, ◌+◌, ◌≤◌, ◌<◌, Bool, false, List, [], ◌∷◌, ◌++◌, ◌==◌, leb, some, length, filter,
  length-append, length-map, ◌≡◌, refl, arith, sym, ◌∙◌, ap, Bool-cases, inl, inr,
}
use mathlib.Core.List.{append_assoc, append-nil}
use domain_process_e2e.Model.{Task, Db}
use domain_process_e2e.Tasks.{
  claim_tasks, recover_expired_tasks, is_pending, is_expired, recover, select_for_update,
}
use domain_process_e2e.Tasks.Rows.{length-select-le}
use domain_process_e2e.Tasks.Claim.{claim_tasks_fills}
use domain_process_e2e.Queue.{BoundedQueue, put, available_capacity}
use domain_process_e2e.Queue.Invariant.{IsValid, put-IsValid}
use domain_process_e2e.Manager.{
  Settings, dispatched, batch_size, dispatch, ends_with, claim_cycle, recovery_cycle, redispatch,
  then_on, then_with, maybe_deactivate_domain,
}

-- A put on a queue with room goes through, and appends.
put_in_room :
    (q : BoundedQueue Task) (item : Task)
    → length q.items < q.stats.capacity
    → (q' : BoundedQueue Task) × (put q item ≡ some q')
      × (q'.items ≡ q.items ++ item ∷ [])
      × (q'.stats.capacity ≡ q.stats.capacity)
unfolding put
put_in_room q item room =
    let full : leb q.stats.capacity (length q.items) ≡ false = ground arith in
    rw full (_, refl, refl, refl)

-- With room for one and for `n` more, a put leaves a valid queue with room for `n`.
put_leaves_room :
    (q : BoundedQueue Task) (item : Task) (n : ℕ)
    → IsValid q
    → suc n ≤ available_capacity q
    → (q' : BoundedQueue Task) × (put q item ≡ some q')
      × IsValid q'
      × (q'.items ≡ q.items ++ item ∷ [])
      × (n ≤ available_capacity q')
unfolding available_capacity
put_leaves_room q item n v room =
    let (q', e, items, cap) = put_in_room q item (omega (arith, room)) in
    let longer : length q'.items ≡ length q.items + 1 =
      ap length items ∙ length-append q.items (item ∷ []) in
    (q', e, put-IsValid q q' item v e, items, omega (arith, room, longer, cap))

dispatch_in_room :
    (tasks : List Task) (q : BoundedQueue Task)
    → IsValid q
    → length tasks ≤ available_capacity q
    → (q' : BoundedQueue Task) × (dispatch tasks q ≡ some q')
      × IsValid q'
      × (q'.items ≡ q.items ++ tasks)
unfolding dispatch
dispatch_in_room [] q v room = (q, refl, v, sym (append-nil q.items))
dispatch_in_room (task ∷ tasks) q v room =
    let (q1, e, v1, items, room1) = put_leaves_room q task (length tasks) v room in
    let (q2, e2, v2, items2) = dispatch_in_room tasks q1 v1 room1 in
    (
      q2,
      ap (then_on (dispatch tasks)) e ∙ e2,
      v2,
      items2 ∙ ap (λ xs. xs ++ tasks) items ∙ append_assoc q.items (task ∷ []) tasks,
    )

claimed_le :
    (limit lease now : ℕ) (locked : ℕ → Bool) (table : List Task)
    → length (claim_tasks limit lease now locked table).1 ≤ limit
claimed_le limit lease now locked table =
    omega (arith, claim_tasks_fills limit lease now locked table)

recovered_le :
    (max_attempts : ℕ) (jitter : ℕ → ℕ) (limit now later : ℕ) (locked : ℕ → Bool)
    (table : List Task)
    → length (recover_expired_tasks max_attempts jitter limit now later locked table).1 ≤ limit
unfolding recover_expired_tasks
recovered_le max_attempts jitter limit now later locked table = omega (
  arith,
  length-map (recover max_attempts jitter later)
      (select_for_update (is_expired now) limit locked table),
  length-select-le (is_expired now) limit locked table,
)

batch_size_le :
    (settings : Settings) (q : BoundedQueue Task) → batch_size settings q ≤ available_capacity q
unfolding batch_size
batch_size_le settings q = omega arith

-- With room in the queue, a round of claiming leaves in it what it held and then the claimed tasks
-- in their order, and commits the claim; it never waits on the queue.
pub claim_cycle_dispatches :
    (settings : Settings) (now : ℕ) (locked : ℕ → Bool) (db : Db) (q : BoundedQueue Task)
    → IsValid q
    → 0 < batch_size settings q
    → let (tasks, claimed) =
        claim_tasks
          (batch_size settings q)
          (now + settings.task_lease_seconds)
          now
          locked
          db.tasks in
      (q' : BoundedQueue Task) × (claim_cycle settings now locked db q
        ≡ dispatched (record db { tasks = tasks }) q')
      × IsValid q'
      × (q'.items ≡ q.items ++ claimed)
unfolding claim_cycle
claim_cycle_dispatches settings now locked db q v room =
    let claimed =
      (claim_tasks (batch_size settings q) (now + settings.task_lease_seconds) now locked
        db.tasks).1 in
    let few : length claimed ≤ available_capacity q = omega (
      arith,
      batch_size_le settings q,
      claimed_le (batch_size settings q) (now + settings.task_lease_seconds) now locked db.tasks,
    ) in
    let (q', e, v', items) = dispatch_in_room claimed q v few in
    let some_room : (batch_size settings q == 0) ≡ false = ground arith in
    (q', rw some_room (ap (ends_with _) e), v', items)

redispatch_in_room :
    (now : ℕ) (tasks : List Task) (seen : Db) (q : BoundedQueue Task)
    → IsValid q
    → length tasks ≤ available_capacity q
    → (q' : BoundedQueue Task) × ((redispatch now tasks seen q).1 ≡ some q')
      × IsValid q'
      × (q'.items ≡ q.items ++ filter (λ t. is_pending t.status) tasks)
unfolding redispatch
redispatch_in_room now [] seen q v room = (q, refl, v, sym (append-nil q.items))
redispatch_in_room now (task ∷ tasks) seen q v room = elim (Bool-cases (is_pending task.status)) [
  | inl e ↦
      let (q1, put_it, v1, items, room1) = put_leaves_room q task (length tasks) v room in
      let (q2, e2, v2, items2) = redispatch_in_room now tasks seen q1 v1 room1 in
      rw e (
        q2,
        ap (λ o. (then_with (redispatch now tasks) seen o).1) put_it ∙ e2,
        v2,
        items2
            ∙ ap (λ xs. xs ++ filter (λ t. is_pending t.status) tasks) items
            ∙ append_assoc q.items (task ∷ []) (filter (λ t. is_pending t.status) tasks),
      )
  | inr e ↦ rw e (
      redispatch_in_room now tasks (maybe_deactivate_domain now task seen) q v
        (omega (arith, room)))
]

-- With room in the queue, a round of recovery leaves in it what it held and then the recovered
-- tasks that wait again, in their order; it never waits on the queue, and it commits the tasks
-- alone: the jobs, and the domains of the tasks that ran out of attempts, are left as they were.
pub recovery_cycle_dispatches :
    (settings : Settings) (jitter : ℕ → ℕ) (now later : ℕ) (locked : ℕ → Bool) (db : Db)
    (q : BoundedQueue Task)
    → IsValid q
    → 0 < batch_size settings q
    → let (tasks, recovered) =
        recover_expired_tasks settings.max_attempts jitter
          (batch_size settings q)
          now
          later
          locked
          db.tasks in
      (q' : BoundedQueue Task) × (recovery_cycle settings jitter now later locked db q
        ≡ dispatched (record db { tasks = tasks }) q')
      × IsValid q'
      × (q'.items ≡ q.items ++ filter (λ t. is_pending t.status) recovered)
unfolding recovery_cycle
recovery_cycle_dispatches settings jitter now later locked db q v room =
    let limit = batch_size settings q in
    let result =
      recover_expired_tasks settings.max_attempts jitter limit now later locked db.tasks in
    let few : length result.1 ≤ available_capacity q = omega (
      arith,
      batch_size_le settings q,
      recovered_le settings.max_attempts jitter limit now later locked db.tasks,
    ) in
    let (q', e, v', items) =
      redispatch_in_room later result.1 (record db { tasks = result.0 }) q v few in
    let some_room : (batch_size settings q == 0) ≡ false = ground arith in
    (q', rw some_room (ap (ends_with _) e), v', items)
