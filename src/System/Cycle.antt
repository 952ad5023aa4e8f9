-- ===== src/System/Cycle.antt =====
-- From the claim of tasks to their end: the task manager, the queue and the workers.
use domain_process_e2e.Prelude.{
  ℕ, ◌+◌, ◌<◌, ◌==◌, leb, some, Bool-cases, Option-cases, inl, inr, length-append, Bool, true,
  false, List, [], ◌∷◌, ◌++◌, length, ◌≡◌, sym, ap, ◌∙◌, subst, arith,
}
use mathlib.Core.Option.{some-injective}
use domain_process_e2e.Text.{Text}
use domain_process_e2e.Model.{DomainDetail, Task, Db}
use domain_process_e2e.Http.{Scheme, Attempt}
use domain_process_e2e.Tasks.{claim_tasks}
use domain_process_e2e.Queue.{BoundedQueue, put, is_full}
use domain_process_e2e.Queue.Invariant.{IsValid}
use domain_process_e2e.Pipeline.{Env}
use domain_process_e2e.Manager.{Settings, batch_size, dispatch, claim_cycle, dispatched}
use domain_process_e2e.Manager.Rounds.{claim_cycle_dispatches}
use domain_process_e2e.Workers.{rounds, process_task}
use domain_process_e2e.Workers.Drain.{handle_all, Drained, rounds-Drained}
use domain_process_e2e.Workers.Phase9.{phase9_task_handler}
use domain_process_e2e.Routes.Create.{Service}
use domain_process_e2e.System.{Upserts, Reach, claim_round, task_run, after_round}

put-unfinished :
    (q q' : BoundedQueue Task) (task : Task)
    → put q task ≡ some q'
    → q'.unfinished ≡ q.unfinished + 1
unfolding put is_full
put-unfinished q q' task h = elim (Bool-cases (leb q.stats.capacity (length q.items))) [
  | inl e ↦ absurd (cc (rw e at h))
  | inr e ↦ sym (ap (λ (q : BoundedQueue Task). q.unfinished) (some-injective _ q' (rw e at h)))
]

dispatch-unfinished :
    (tasks : List Task) (q q' : BoundedQueue Task)
    → dispatch tasks q ≡ some q'
    → q'.unfinished ≡ q.unfinished + length tasks
unfolding dispatch
dispatch-unfinished [] q q' h =
    let same = ap (λ (q : BoundedQueue Task). q.unfinished) (some-injective q q' h) in
    omega (arith, same)
dispatch-unfinished (task ∷ tasks) q q' h = elim (Option-cases (put q task)) [
  | inl e ↦ absurd (cc (rw e at h))
  | inr (q1, e) ↦
      omega (arith, put-unfinished q q1 task e, dispatch-unfinished tasks q1 q' (rw e at h))
]

-- The claimed tasks are unfinished.
claim_cycle-unfinished :
    (settings : Settings) (now : ℕ) (locked : ℕ → Bool) (db : Db) (q q' : BoundedQueue Task)
    (committed : Db)
    → 0 < batch_size settings q
    → claim_cycle settings now locked db q ≡ dispatched committed q'
    → q'.unfinished
      ≡ q.unfinished
        + length
            (claim_tasks
              (batch_size settings q)
              (now + settings.task_lease_seconds)
              now
              locked
              db.tasks).1
unfolding claim_cycle
claim_cycle-unfinished settings now locked db q q' committed room h =
    let some_room : (batch_size settings q == 0) ≡ false = ground arith in
    let claimed =
      (claim_tasks (batch_size settings q) (now + settings.task_lease_seconds) now locked
        db.tasks).1 in
    elim (Option-cases (dispatch claimed q)) [
      | inl e ↦ absurd (cc (rw (some_room, e) at h))
      | inr (q1, e) ↦
          let same : q1 ≡ q' = cc (rw (some_room, e) at h) in
          dispatch-unfinished claimed q q' (e ∙ ap some same)
    ]

module _ (service : Service) (settings : Settings) (env : Task → Env)
    (request : Task → Text → Scheme → Attempt)
    (same_limit : (task : Task) → (env task).max_attempts ≡ settings.max_attempts)
    (others : (task : Task) (i : ℕ) (db : Db) → Reach service settings db ((env task).other i db))
    (writes : (task : Task) (i : ℕ) (table : List DomainDetail)
      → Upserts table ((env task).others i table)) where
  -- The runs of a list of tasks are steps of the program.
  handle_all-Reach :
      (start : Db) (tasks : List Task) (db : Db)
      → Reach service settings start db
      → Reach service settings start (handle_all true (phase9_task_handler env request) tasks db)
  unfolding process_task phase9_task_handler
  handle_all-Reach start [] db r = r
  handle_all-Reach start (task ∷ tasks) db r =
      handle_all-Reach start tasks _
        (task_run (env task) (request task) task (same_limit task) (others task) (writes task) r)

  -- In a database that the program reaches, with room in a queue that counts the tasks it holds as
  -- unfinished, when other transactions are steps of the program, and write details within a
  -- session by upsert_with_occ: a round of claiming commits the claim and dispatches all of it, and
  -- as many rounds of the workers as the queue then holds tasks leave it empty, with nothing
  -- unfinished; they have run process_task once on each task that was in the queue, and then on
  -- each that was claimed, in their order, whatever is raised; and what that leaves is a database
  -- that the program reaches.
  pub claim_cycle-Drained :
      (now : ℕ) (locked : ℕ → Bool) (start db : Db) (q : BoundedQueue Task)
      → IsValid q
      → q.unfinished ≡ length q.items
      → 0 < batch_size settings q
      → Reach service settings start db
      → let (tasks, claimed) =
          claim_tasks
            (batch_size settings q)
            (now + settings.task_lease_seconds)
            now
            locked
            db.tasks in
        let db1 : Db = record db { tasks = tasks } in
        let finished = handle_all true (phase9_task_handler env request) (q.items ++ claimed) db1 in
        (q' : BoundedQueue Task) × (claim_cycle settings now locked db q ≡ dispatched db1 q')
        × Drained finished
            (rounds true (phase9_task_handler env request) (length q'.items) (q', db1))
        × Reach service settings start finished
  claim_cycle-Drained now locked start db q v counted room r =
      let (q', e, v', items) = claim_cycle_dispatches settings now locked db q v room in
      let unfinished = claim_cycle-unfinished settings now locked db q q' _ room e in
      let (tasks, claimed) =
        claim_tasks (batch_size settings q) (now + settings.task_lease_seconds) now locked
          db.tasks in
      let db1 : Db = record db { tasks = tasks } in
      let all : length q'.items ≡ length q.items + length claimed =
        ap length items ∙ length-append q.items claimed in
      let handler = phase9_task_handler env request in
      let drained = rounds-Drained true handler q' db1 (omega (arith, unfinished, counted, all)) in
      let reached : Reach service settings start db1 =
        subst (Reach service settings start) (ap (after_round db) e) (claim_round now locked q r) in
      (
        q',
        e,
        subst
            (λ ts.
              Drained (handle_all true handler ts db1)
                (rounds true handler (length q'.items) (q', db1)))
            items drained,
        handle_all-Reach start (q.items ++ claimed) db1 reached,
      )
