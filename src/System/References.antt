-- ===== src/System/References.antt =====
-- The writes to rows leave the keys of the tables alone.
use domain_process_e2e.Prelude.{
  ℕ, Bool, true, false, List, [], ◌∷◌, map, ◌==◌, if◌then◌else◌, Option, none, some, leb, ◌≡◌, refl,
  sym, ap, ◌∙◌, subst, inl, inr, Bool-cases, map-Memᴰ, Memᴰ-map, any, arith,
}
use mathlib.Core.List.{Memᴰ}
use domain_process_e2e.Prelude.Distinct.{Distinct, map-if-kept, update_where-kept}
use domain_process_e2e.Model.{
  completed, Job, Domain, Task, Db, Message, Category, ErrorCode, transient, max_attempts_exceeded,
}
use domain_process_e2e.Tasks
use domain_process_e2e.Tasks.{
  has_id, write_back, claim, recover, claim_tasks, recover_expired_tasks,
}
use domain_process_e2e.Jobs.{check_and_update_job_status, is_row, settle, non_terminal_count}
use domain_process_e2e.Processor.{should_soft_deactivate}
use domain_process_e2e.Processor.Writes.{
  with_status, fail_with, exhaust, postpone, write_task, write_complete_task, write_fail_task,
  write_fail_task_with_deactivation, deactivate_domain, deactivate, is_domain, reschedule,
  write_reschedule_task,
}
use domain_process_e2e.Routes.Create.{name_of}
use domain_process_e2e.Routes.Fresh.{task_id, domain_id}
use domain_process_e2e.System.{job_id}
use domain_process_e2e.System.Schema.{IsReferential}

-- the id and the references of a task
abbrev pub refs : Task → ℕ × Option ℕ × ℕ
refs t = (t.id, t.job_id, t.domain_id)

-- A write that changes no key.
pub record SameKeys (before after : Db) : Type 0 where
  pub jobs : map job_id after.jobs ≡ map job_id before.jobs
  pub domains : map domain_id after.domains ≡ map domain_id before.domains
  pub names : map name_of after.domains ≡ map name_of before.domains
  pub tasks : map refs after.tasks ≡ map refs before.tasks
  pub records : after.records ≡ before.records
  pub details : after.details ≡ before.details

pub SameKeys-refl : (db : Db) → SameKeys db db
SameKeys-refl db = record {
  jobs = refl;
  domains = refl;
  names = refl;
  tasks = refl;
  records = refl;
  details = refl;
}

SameKeys-trans : {a b c : Db} → SameKeys a b → SameKeys b c → SameKeys a c
SameKeys-trans p q = record {
  jobs = q.jobs ∙ p.jobs;
  domains = q.domains ∙ p.domains;
  names = q.names ∙ p.names;
  tasks = q.tasks ∙ p.tasks;
  records = q.records ∙ p.records;
  details = q.details ∙ p.details;
}

ids_of :
    (tasks : List Task) → map (λ (r : ℕ × Option ℕ × ℕ). r.0) (map refs tasks) ≡ map task_id tasks
ids_of [] = refl
ids_of (t ∷ tasks) = ap (◌∷◌ t.id) (ids_of tasks)

pub SameKeys-IsReferential : (a b : Db) → SameKeys a b → IsReferential a → IsReferential b
SameKeys-IsReferential a b same h = record {
  jobs = record { ids = rw same.jobs h.jobs.ids };
  domains = record { ids = rw same.domains h.domains.ids; names = rw same.names h.domains.names };
  tasks = record {
    ids = subst Distinct same_ids h.tasks.ids;
    job = λ t m j e.
        let (old, n, q) = was t m in
        rw same.jobs (h.tasks.job old n j (sym (ap (λ (r : ℕ × Option ℕ × ℕ). r.1) q) ∙ e));
    domain = λ t m.
        let (old, n, q) = was t m in
        rw same.domains (
          subst (λ i. Memᴰ i (map domain_id a.domains)) (sym (ap (λ (r : ℕ × Option ℕ × ℕ). r.2) q))
            (h.tasks.domain old n));
  };
  records = record {
    keys = rw same.records h.records.keys;
    job = λ r m. rw same.jobs (h.records.job r (subst (Memᴰ r) same.records m));
  };
  details = record { domains = rw same.details h.details.domains };
}
  where
    same_ids : map task_id a.tasks ≡ map task_id b.tasks
    same_ids =
        sym (ids_of a.tasks)
        ∙ ap (map (λ (r : ℕ × Option ℕ × ℕ). r.0)) (sym same.tasks)
        ∙ ids_of b.tasks

    was : (t : Task) → Memᴰ t b.tasks → (old : Task) × Memᴰ old a.tasks × (refs t ≡ refs old)
    was t m = map-Memᴰ refs a.tasks (subst (Memᴰ (refs t)) same.tasks (Memᴰ-map refs b.tasks m))

with_tasks-SameKeys :
    (db : Db) (tasks : List Task)
    → map refs tasks ≡ map refs db.tasks
    → SameKeys db (record db { tasks = tasks })
with_tasks-SameKeys db tasks e = record {
  jobs = refl;
  domains = refl;
  names = refl;
  tasks = e;
  records = refl;
  details = refl;
}

write_back-refs :
    (f : Task → Task) (selected table : List Task)
    → ((t : Task) → refs (f t) ≡ refs t)
    → map refs (write_back f selected table) ≡ map refs table
unfolding write_back
write_back-refs f selected table kept =
    map-if-kept refs (λ t. any (has_id t.id) selected) f table kept

update-refs :
    (f : Task → Task) (task_id : ℕ) (table : List Task)
    → ((t : Task) → refs (f t) ≡ refs t)
    → map refs (Tasks.update f task_id table) ≡ map refs table
unfolding Tasks.update
update-refs f task_id table kept = map-if-kept refs (λ t. t.id == task_id) f table kept

settle_id : (count now : ℕ) (j : Job) → (settle count now j).id ≡ j.id
settle_id count now j = ground (arith)

check-SameKeys :
    (o : Option ℕ) (now : ℕ) (db : Db) → SameKeys db (check_and_update_job_status o now db)
unfolding check_and_update_job_status
check-SameKeys none now db = SameKeys-refl db
check-SameKeys (some j) now db = record {
  jobs =
      update_where-kept job_id (is_row j) (settle (non_terminal_count j db.tasks) now) db.jobs
        (settle_id (non_terminal_count j db.tasks) now);
  domains = refl;
  names = refl;
  tasks = refl;
  records = refl;
  details = refl;
}

deactivate_kept :
    (now : ℕ) (d : Domain)
    → ((deactivate now d).id ≡ d.id) × (name_of (deactivate now d) ≡ name_of d)
deactivate_kept now d = elim (Bool-cases d.is_active) [
  | inl e ↦ rw e (refl, refl)
  | inr e ↦ rw e (refl, refl)
]

deactivating-SameKeys :
    (b : Bool) (i now : ℕ) (db : Db) → SameKeys db (if b then deactivate_domain i now db else db)
unfolding deactivate_domain
deactivating-SameKeys true i now db = record {
  jobs = refl;
  domains =
      update_where-kept domain_id (is_domain i) (deactivate now) db.domains
        (λ d. (deactivate_kept now d).0);
  names =
      update_where-kept name_of (is_domain i) (deactivate now) db.domains
        (λ d. (deactivate_kept now d).1);
  tasks = refl;
  records = refl;
  details = refl;
}
deactivating-SameKeys false i now db = SameKeys-refl db

write_task-SameKeys :
    (f : Task → Task) (task_id now : ℕ) (db : Db) (o : Option Task)
    → ((t : Task) → refs (f t) ≡ refs t)
    → SameKeys db (write_task f task_id now db o)
unfolding write_task
write_task-SameKeys f task_id now db none kept = SameKeys-refl db
write_task-SameKeys f task_id now db (some t) kept =
    SameKeys-trans (with_tasks-SameKeys db _ (update-refs f task_id db.tasks kept))
      (check-SameKeys t.job_id now (record db { tasks = Tasks.update f task_id db.tasks }))

pub write_complete_task-SameKeys :
    (task_id now : ℕ) (db : Db) → SameKeys db (write_complete_task task_id completed now db)
unfolding write_complete_task
write_complete_task-SameKeys task_id now db =
    write_task-SameKeys (with_status completed now) task_id now db (Tasks.get db.tasks task_id)
      (λ t. refl)

pub write_fail_task-SameKeys :
    (task_id : ℕ) (error : Message) (category : Category) (now : ℕ) (db : Db)
    → SameKeys db (write_fail_task task_id error category now db)
unfolding write_fail_task
write_fail_task-SameKeys task_id error category now db =
    write_task-SameKeys (fail_with category error now) task_id now db (Tasks.get db.tasks task_id)
      (λ t. refl)

pub write_fail_deactivating-SameKeys :
    (task_id domain_id : ℕ) (error : Message) (category : Category) (code : ErrorCode) (now : ℕ)
    (db : Db)
    → SameKeys db (write_fail_task_with_deactivation task_id domain_id error category code now db)
unfolding write_fail_task_with_deactivation
write_fail_deactivating-SameKeys task_id domain_id error category code now db =
    SameKeys-trans (write_fail_task-SameKeys task_id error category now db) (
      deactivating-SameKeys (should_soft_deactivate category code) domain_id now
        (write_fail_task task_id error category now db))

reschedule-SameKeys :
    (max_attempts : ℕ) (jitter : ℕ → ℕ) (task_id : ℕ) (error : Message) (now : ℕ) (db : Db)
    (o : Option Task)
    → SameKeys db (reschedule max_attempts jitter task_id error now db o)
unfolding reschedule
reschedule-SameKeys max_attempts jitter task_id error now db none = SameKeys-refl db
reschedule-SameKeys max_attempts jitter task_id error now db (some t) =
    elim (Bool-cases (leb max_attempts t.attempts)) [
      | inl e ↦ rw e (
          SameKeys-trans
            (write_task-SameKeys (exhaust max_attempts error now) task_id now db (some t)
              (λ t. refl))
            (deactivating-SameKeys (should_soft_deactivate transient max_attempts_exceeded)
              t.domain_id now
              (write_task (exhaust max_attempts error now) task_id now db (some t))))
      | inr e ↦ rw e (
          with_tasks-SameKeys db _
            (update-refs (postpone jitter error now) task_id db.tasks (λ t. refl)))
    ]

pub write_reschedule_task-SameKeys :
    (max_attempts : ℕ) (jitter : ℕ → ℕ) (task_id : ℕ) (error : Message) (now : ℕ) (db : Db)
    → SameKeys db (write_reschedule_task max_attempts jitter task_id error now db)
unfolding write_reschedule_task
write_reschedule_task-SameKeys max_attempts jitter task_id error now db =
    reschedule-SameKeys max_attempts jitter task_id error now db (Tasks.get db.tasks task_id)

refs-recover :
    (max_attempts : ℕ) (jitter : ℕ → ℕ) (now : ℕ) (t : Task)
    → refs (recover max_attempts jitter now t) ≡ refs t
unfolding recover
refs-recover max_attempts jitter now t = elim (Bool-cases (leb max_attempts t.attempts)) [
  | inl e ↦ rw e refl
  | inr e ↦ rw e refl
]

pub claim_tasks-SameKeys :
    (limit lease now : ℕ) (locked : ℕ → Bool) (db : Db)
    → SameKeys db (record db { tasks = (claim_tasks limit lease now locked db.tasks).0 })
unfolding claim_tasks claim
claim_tasks-SameKeys limit lease now locked db =
    with_tasks-SameKeys db _ (write_back-refs (claim lease now) _ db.tasks (λ t. refl))

pub recover_expired_tasks-SameKeys :
    (max_attempts : ℕ) (jitter : ℕ → ℕ) (limit now later : ℕ) (locked : ℕ → Bool) (db : Db)
    → SameKeys db (record db {
      tasks = (recover_expired_tasks max_attempts jitter limit now later locked db.tasks).0;
    })
unfolding recover_expired_tasks
recover_expired_tasks-SameKeys max_attempts jitter limit now later locked db =
    with_tasks-SameKeys db _ (
      write_back-refs (recover max_attempts jitter later) _ db.tasks
        (refs-recover max_attempts jitter later))
