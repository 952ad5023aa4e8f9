-- ===== src/Workers/Drain.antt =====
-- The rounds of the workers empty the queue, whatever the handler raises.
use domain_process_e2e.Prelude.{ℕ, ◌-◌, Bool, false, List, [], ◌∷◌, ◌==◌, length, ◌≡◌, refl, arith}
use domain_process_e2e.Model.{Task, Db}
use domain_process_e2e.Queue.{BoundedQueue, QueueStats, get, task_done}
use domain_process_e2e.Workers.{Handler, process_task, round, rounds}

-- The handler on each task of a list, in its order.
abbrev pub handle_all : Bool → Handler → List Task → Db → Db
handle_all attached handler [] db = db
handle_all attached handler (task ∷ tasks) db =
    handle_all attached handler tasks (process_task attached handler task db)

-- The queue is empty, nothing is unfinished, and each task has been handled once.
abbrev pub Drained : Db → BoundedQueue Task × Db → Type 0
Drained db s = (s.0.items ≡ []) × (s.0.unfinished ≡ 0) × (s.1 ≡ db)

-- When the queue counts the tasks it holds as unfinished, as many rounds as it holds tasks empty
-- it: `join` returns, and each task has been handled once, in the order of the queue, also when
-- handlers raise.
pub rounds-Drained :
    (attached : Bool) (handler : Handler) (q : BoundedQueue Task) (db : Db)
    → q.unfinished ≡ length q.items
    → Drained
        (handle_all attached handler q.items db)
        (rounds attached handler (length q.items) (q, db))
unfolding rounds round get task_done
rounds-Drained attached handler q db h = go q.items q.unfinished q.stats db h
  where
    go :
        (items : List Task) (unfinished : ℕ) (stats : QueueStats) (db : Db)
        → unfinished ≡ length items
        → Drained (handle_all attached handler items db) (
            rounds attached handler
              (length items)
              (record { items = items; unfinished = unfinished; stats = stats }, db))
    go [] unfinished stats db h = (refl, h, refl)
    go (task ∷ items) unfinished stats db h =
        let busy : (unfinished == 0) ≡ false = ground arith in
        rw (rounds, round, task_done, busy)
          (go items (unfinished - 1) _ (process_task attached handler task db) (omega (arith, h)))
