-- ===== src/Jobs/Completion.antt =====
-- What the completion check makes of a job.
use domain_process_e2e.Prelude.{
  ℕ, true, false, ◌&&◌, List, [], ◌∷◌, ◌==◌, Option, none, some, length, update_where, ◌≡◌, refl,
  arith, Bool-cases, inl, inr, ==→eq, ==_refl, Memᴰ-filter, and_true, ap, ◌⊎◌,
}
use domain_process_e2e.Model.{TaskStatus, pending, processing, completed, Job, Task, Db}
use mathlib.Core.List.{Memᴰ}
use domain_process_e2e.Tasks.{is_open, of_job, option_eq}
use domain_process_e2e.Jobs.{is_row, get, non_terminal_count, settle, check_and_update_job_status}

get-update_where :
    (f : Job → Job) (job_id : ℕ) (table : List Job) {job : Job}
    → ((j : Job) → (f j).id ≡ j.id)
    → get table job_id ≡ some job
    → get (update_where (is_row job_id) f table) job_id ≡ some (f job)
unfolding get
get-update_where f job_id [] keeps h = absurd (cc)
get-update_where f job_id (j ∷ table) {job} keeps h =
    ground (arith, keeps j, get-update_where f job_id table {job = job} keeps)

settle_id : (count now : ℕ) (j : Job) → (settle count now j).id ≡ j.id
settle_id count now j = ground arith

-- An open task of the job.
abbrev pub IsOpenOf : ℕ → Task → Type 0
IsOpenOf job_id t = (t.job_id ≡ some job_id) × (is_open t.status ≡ true)

is_counted :
    (job_id : ℕ) (t : Task) → IsOpenOf job_id t → (of_job job_id t && is_open t.status) ≡ true
is_counted job_id t (own, is_on) = rw (own, is_on, ==_refl job_id) refl

some_open :
    (job_id : ℕ) (tasks : List Task) (t : Task)
    → Memᴰ t tasks
    → IsOpenOf job_id t
    → (non_terminal_count job_id tasks == 0) ≡ false
unfolding non_terminal_count
some_open job_id tasks t m h = nonempty (Memᴰ-filter _ tasks m (is_counted job_id t h))
  where
    nonempty : {ts : List Task} → Memᴰ t ts → (length ts == 0) ≡ false
    nonempty (Memᴰ.head e) = ground arith
    nonempty (Memᴰ.tail n) = ground arith

owned : (job_id : ℕ) (o : Option ℕ) → option_eq o job_id ≡ true → o ≡ some job_id
owned job_id none e = absurd (cc)
owned job_id (some i) e = ap some (==→eq i job_id e)

none_open :
    (job_id : ℕ) (tasks : List Task)
    → ((t : Task) → Memᴰ t tasks → ¬ IsOpenOf job_id t)
    → (non_terminal_count job_id tasks == 0) ≡ true
unfolding non_terminal_count
none_open job_id [] closed = refl
none_open job_id (t ∷ tasks) closed = elim (Bool-cases (of_job job_id t && is_open t.status)) [
  | inl e ↦ absurd (closed t (Memᴰ.head refl) (own_and_open e))
  | inr e ↦ rw e (none_open job_id tasks (λ s m. closed s (Memᴰ.tail m)))
]
  where
    own_and_open : (of_job job_id t && is_open t.status) ≡ true → IsOpenOf job_id t
    own_and_open e =
        let (own, is_on) = and_true (of_job job_id t) (is_open t.status) e in
        (owned job_id t.job_id own, is_on)

-- An open task of the job is in the table, or none is.
open_or_closed :
    (job_id : ℕ) (tasks : List Task)
    → ((t : Task) × Memᴰ t tasks × IsOpenOf job_id t)
      ⊎ ((t : Task) → Memᴰ t tasks → ¬ IsOpenOf job_id t)
open_or_closed job_id [] = inr (λ t m. elim m [ ])
open_or_closed job_id (t ∷ tasks) = elim (Bool-cases (of_job job_id t && is_open t.status)) [
  | inl e ↦
      let (own, is_on) = and_true (of_job job_id t) (is_open t.status) e in
      inl (t, Memᴰ.head refl, (owned job_id t.job_id own, is_on))
  | inr e ↦ elim (open_or_closed job_id tasks) [
    | inl (s, m, h) ↦ inl (s, Memᴰ.tail m, h)
    | inr closed ↦ inr (none_here e closed)
  ]
]
  where
    none_here :
        (of_job job_id t && is_open t.status) ≡ false
        → ((s : Task) → Memᴰ s tasks → ¬ IsOpenOf job_id s)
        → (s : Task) → Memᴰ s (t ∷ tasks)
        → ¬ IsOpenOf job_id s
    none_here e closed s (Memᴰ.head q) h = absurd (cc (e, is_counted job_id s h, q))
    none_here e closed s (Memᴰ.tail m) h = closed s m h

abbrev pub started : TaskStatus → TaskStatus
started pending = processing
started s = s

-- What the check makes of a job: COMPLETED if no task of the job is open; if one is, PROCESSING
-- from PENDING and any other status as it is.
abbrev pub IsSettled : ℕ → List Task → Job → Job → Type 0
IsSettled job_id tasks job job' =
    (((t : Task) → Memᴰ t tasks → ¬ IsOpenOf job_id t) × (job'.status ≡ completed))
    ⊎ ((t : Task) × Memᴰ t tasks × IsOpenOf job_id t × (job'.status ≡ started job.status))

settle-IsSettled :
    (job_id now : ℕ) (tasks : List Task) (job : Job)
    → IsSettled job_id tasks job (settle (non_terminal_count job_id tasks) now job)
settle-IsSettled job_id now tasks job = elim (open_or_closed job_id tasks) [
  | inl (t, m, h) ↦ inr (t, m, h, (rw (some_open job_id tasks t m h) (ground arith)))
  | inr closed ↦ inl (closed, (rw (none_open job_id tasks closed) (ground arith)))
]

-- For a job that exists, the completion check makes it COMPLETED if none of its tasks is PENDING or
-- PROCESSING; with such a task it makes a PENDING job PROCESSING and leaves the status of any
-- other.
pub check_settles :
    (job_id now : ℕ) (db : Db) (job : Job)
    → get db.jobs job_id ≡ some job
    → (job' : Job) × (get (check_and_update_job_status (some job_id) now db).jobs job_id
        ≡ some job')
      × IsSettled job_id db.tasks job job'
unfolding check_and_update_job_status
check_settles job_id now db job h = (
  _,
  get-update_where (settle (non_terminal_count job_id db.tasks) now) job_id db.jobs
      (settle_id (non_terminal_count job_id db.tasks) now) h,
  settle-IsSettled job_id now db.tasks job,
)
