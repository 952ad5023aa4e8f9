-- ===== src/Shutdown/Components.antt =====
-- The components of the service when they run, with the loops that do their work, and when they do
-- not.
use domain_process_e2e.Prelude.{
  ℕ, zero, suc, Bool, true, false, List, [], ◌∷◌, ◌++◌, map, Option, none, some, length, length-map,
  ◌≡◌, refl, ◌∙◌, ap,
}
use mathlib.Core.Option.{map as option_map}
use domain_process_e2e.Text.{Text}
use domain_process_e2e.Scheduler.{Scheduler}
use domain_process_e2e.Scheduler
use domain_process_e2e.Workers.{
  Loop, looping, ended, cancelled, Worker, WorkerPool, start_worker, stop_worker, start_pool,
  take_ids,
}
use domain_process_e2e.Shutdown.{
  Manager, start_manager, stop_manager, Drain, drained, overrun, stop_workers, drain_pool,
}

abbrev is_looping : Loop → Bool
is_looping looping = true
is_looping _ = false

abbrev pub IsUp : Worker → Type 0
IsUp w = (w.running ≡ true) × (w.loop ≡ looping)

abbrev pub IsDown : Worker → Type 0
IsDown w = (w.running ≡ false) × (is_looping w.loop ≡ false)

abbrev pub All : {A : Type 0} → (A → Type 0) → List A → Type 0
All P [] = Unit
All P (x ∷ xs) = P x × All P xs

-- A pool that runs: all of its workers do, and so many there are.
abbrev pub PoolRuns : ℕ → WorkerPool → Type 0
PoolRuns n p = (p.running ≡ true) × (length p.workers ≡ n) × All IsUp p.workers

abbrev pub PoolStopped : WorkerPool → Type 0
PoolStopped p = (p.running ≡ false) × All IsDown p.workers

abbrev pub ManagerRuns : Manager → Type 0
ManagerRuns m = (m.running ≡ true) × (m.looping ≡ true) × (m.recovering ≡ true)

abbrev pub ManagerStopped : Manager → Type 0
ManagerStopped m = (m.running ≡ false) × (m.looping ≡ false) × (m.recovering ≡ false)

abbrev pub SchedulerRuns : Scheduler → Type 0
SchedulerRuns s = (s.running ≡ true) × (s.looping ≡ true)

abbrev pub SchedulerStopped : Scheduler → Type 0
SchedulerStopped s = (s.running ≡ false) × (s.looping ≡ false)

-- Of what there is.
abbrev pub IfThere : {A : Type 0} → (A → Type 0) → Option A → Type 0
IfThere P none = true ≡ true
IfThere P (some a) = P a

pub IfThere-map :
    {A : Type 0} (P Q : A → Type 0) (f : A → A) (o : Option A)
    → ((a : A) → P a → Q (f a))
    → IfThere P o
    → IfThere Q (option_map f o)
IfThere-map P Q f none step h = refl
IfThere-map P Q f (some a) step h = step a h

pub start_manager-ManagerRuns : (m : Manager) → m.running ≡ false → ManagerRuns (start_manager m)
unfolding start_manager
start_manager-ManagerRuns m h = rw h (refl, refl, refl)

pub stop_manager-ManagerStopped : (m : Manager) → ManagerRuns m → ManagerStopped (stop_manager m)
unfolding stop_manager
stop_manager-ManagerStopped m h = rw h.0 (refl, refl, refl)

pub start-SchedulerRuns : (s : Scheduler) → s.running ≡ false → SchedulerRuns (Scheduler.start s)
unfolding Scheduler.start
start-SchedulerRuns s h = rw h (refl, refl)

pub stop-SchedulerStopped : (s : Scheduler) → SchedulerRuns s → SchedulerStopped (Scheduler.stop s)
unfolding Scheduler.stop
stop-SchedulerStopped s h = rw h.0 (refl, refl)

abbrev pub IsIdle : Worker → Type 0
IsIdle w = w.running ≡ false

pub take_ids-IsIdle : (n : ℕ) (ids : ℕ → Text) → All IsIdle (take_ids n ids)
take_ids-IsIdle zero ids = tt
take_ids-IsIdle (suc n) ids = (refl, take_ids-IsIdle n (λ i. ids (suc i)))

pub length-take_ids : (n : ℕ) (ids : ℕ → Text) → length (take_ids n ids) ≡ n
length-take_ids zero ids = refl
length-take_ids (suc n) ids = ap suc (length-take_ids n (λ i. ids (suc i)))

start_workers-IsUp :
    (workers : List Worker) → All IsIdle workers → All IsUp (map start_worker workers)
unfolding start_worker
start_workers-IsUp [] h = tt
start_workers-IsUp (w ∷ workers) (idle, h) = (rw idle (refl, refl), start_workers-IsUp workers h)

pub start_pool-PoolRuns :
    (n : ℕ) (pool : WorkerPool)
    → pool.running ≡ false
    → length pool.workers ≡ n
    → All IsIdle pool.workers
    → PoolRuns n (start_pool pool)
unfolding start_pool
start_pool-PoolRuns n pool h size idle =
    rw h (refl, length-map start_worker pool.workers ∙ size, start_workers-IsUp pool.workers idle)

-- What the stop of a worker that runs leaves, by how its loop ends.
abbrev pub finished : Loop → Worker → Worker
finished loop w = record w { running = false; loop = loop }

stop_gracefully : (w : Worker) → IsUp w → stop_worker true w ≡ finished ended w
unfolding stop_worker
stop_gracefully w (runs, loops) = rw (runs, loops) refl

stop_at_once : (w : Worker) → IsUp w → stop_worker false w ≡ finished cancelled w
unfolding stop_worker
stop_at_once w (runs, loops) = rw (runs, loops) refl

stop_each_gracefully :
    (workers : List Worker)
    → All IsUp workers
    → map (stop_worker true) workers ≡ map (finished ended) workers
stop_each_gracefully [] h = refl
stop_each_gracefully (w ∷ workers) (up, h) =
    λ i. stop_gracefully w up i ∷ stop_each_gracefully workers h i

-- A stop that overruns cancels the worker that it waits for, and no other.
pub stop_workers-overrun :
    (before after : List Worker) (w : Worker)
    → All IsUp (before ++ w ∷ after)
    → stop_workers (overrun (length before)) (before ++ w ∷ after)
      ≡ map (finished ended) before ++ finished cancelled w ∷ map (finished ended) after
unfolding stop_workers
stop_workers-overrun [] after w (up, h) = λ i. stop_at_once w up i ∷ stop_each_gracefully after h i
stop_workers-overrun (x ∷ before) after w (up, h) =
    λ i. stop_gracefully x up i ∷ stop_workers-overrun before after w h i

stopped-IsDown : (graceful : Bool) (w : Worker) → IsUp w → IsDown (stop_worker graceful w)
unfolding stop_worker
stopped-IsDown true w (runs, loops) = rw (runs, loops) (refl, refl)
stopped-IsDown false w (runs, loops) = rw (runs, loops) (refl, refl)

each_stopped-IsDown :
    (workers : List Worker) → All IsUp workers → All IsDown (map (stop_worker true) workers)
each_stopped-IsDown [] h = tt
each_stopped-IsDown (w ∷ workers) (up, h) =
    (stopped-IsDown true w up, each_stopped-IsDown workers h)

stop_workers-IsDown :
    (drain : Drain) (workers : List Worker)
    → All IsUp workers
    → All IsDown (stop_workers drain workers)
unfolding stop_workers
stop_workers-IsDown drained workers h = each_stopped-IsDown workers h
stop_workers-IsDown (overrun n) [] h = tt
stop_workers-IsDown (overrun zero) (w ∷ workers) (up, h) =
    (stopped-IsDown false w up, each_stopped-IsDown workers h)
stop_workers-IsDown (overrun (suc n)) (w ∷ workers) (up, h) =
    (stopped-IsDown true w up, stop_workers-IsDown (overrun n) workers h)

pub drain_pool-PoolStopped :
    (drain : Drain) (n : ℕ) (pool : WorkerPool)
    → PoolRuns n pool
    → PoolStopped (drain_pool drain pool)
unfolding drain_pool
drain_pool-PoolStopped drain n pool (runs, size, up) =
    rw runs (refl, stop_workers-IsDown drain pool.workers up)
