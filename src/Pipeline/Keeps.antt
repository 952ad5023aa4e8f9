-- ===== src/Pipeline/Keeps.antt =====
-- What every statement of a run keeps, its sessions and write helpers keep: the rules.
use domain_process_e2e.Prelude.{ℕ, Bool, true, false, if◌then◌else◌, Option, none, some, List, ◌≡◌}
use domain_process_e2e.Text.{Text}
use domain_process_e2e.Model.{
  Task, completed, Db, Message, Category, ErrorCode, DomainDetail, permanent, dns_permanent_failure,
  http_permanent_failure,
}
use domain_process_e2e.Details.{stored, upsert_with_occ}
use domain_process_e2e.Processor.{Failure}
use domain_process_e2e.Processor.Writes.{
  write_complete_task, write_fail_task, write_fail_task_with_deactivation, write_reschedule_task,
}
use domain_process_e2e.Pipeline.{
  Env, Outcome, ok, raised, Action, bind, ◌>>=◌, session, run_session, ◌>>◌, return_, write,
  complete, fail, fail_deactivating, retry_later, class_of, handle_class, handle_dns_failure,
  handle_http_failure,
}
use domain_process_e2e.Dns.{DnsClass, DnsResult}
use domain_process_e2e.Dns
use domain_process_e2e.Http.{HttpResult, is_retryable_error, is_permanent_failure}

-- Actions that keep a property of the database, when other transactions do.
module _ (P : Db → Type 0) (env : Env)
    (others_keep : (i : ℕ) (db : Db) → P db → P (env.other i db)) where
  abbrev pub Keeps {ℓ} : {A : Type ℓ} → Action A → Type 0
  Keeps m = (db : Db) → P db → P (m db).1

  bound-Kept {ℓ κ} :
      {A : Type ℓ} {B : Type κ} (f : A → Action B) (r : Outcome A × Db)
      → ((a : A) → Keeps (f a))
      → P r.1
      → P (bind f r).1
  bound-Kept f (ok a, db) keeps h = keeps a db h
  bound-Kept f (raised why message, db) keeps h = h

  pub then-Keeps {ℓ κ} :
      {A : Type ℓ} {B : Type κ} (m : Action A) (f : A → Action B)
      → Keeps m
      → ((a : A) → Keeps (f a))
      → Keeps (m >>= f)
  then-Keeps m f keeps_first keeps_rest db h = bound-Kept f (m db) keeps_rest (keeps_first db h)

  pub if-Keeps {ℓ} :
      {A : Type ℓ} (b : Bool) (m n : Action A) → Keeps m → Keeps n → Keeps (if b then m else n)
  if-Keeps true m n keeps_m keeps_n = keeps_m
  if-Keeps false m n keeps_m keeps_n = keeps_n

  run_session-Kept {ℓ} :
      {A : Type ℓ} (f : Option (Failure × Text)) (m : Action A) (db : Db)
      → Keeps m
      → P db
      → P (run_session f m db).1
  run_session-Kept none m db keeps h = keeps db h
  run_session-Kept (some (why, message)) m db keeps h = h

  pub session-Keeps {ℓ} : {A : Type ℓ} (i : ℕ) (m : Action A) → Keeps m → Keeps (session env i m)
  unfolding session
  session-Keeps i m keeps db h =
      run_session-Kept (env.fault i) m (env.other i db) keeps (others_keep i db h)

-- What the last session of a run makes of the table of details, by its writes and those of others.
pub data Stored (env : Env) : List DomainDetail → List DomainDetail → Type 0 where
  untouched : {table : List DomainDetail} → Stored env table table
  by_others :
      {before table : List DomainDetail} (i : ℕ)
      → Stored env before table
      → Stored env before (env.others i table)
  by_upsert :
      {before table after : List DomainDetail} (detail : DomainDetail) (version : ℕ)
      → upsert_with_occ detail version table ≡ stored after
      → Stored env before table
      → Stored env before after

-- What each statement of a run, and what other transactions commit, keeps.
pub record Laws (P : Db → Type 0) (env : Env) : Type 0 where
  pub others : (i : ℕ) (db : Db) → P db → P (env.other i db)
  pub completes :
      (task_id now : ℕ) (db : Db) → P db → P (write_complete_task task_id completed now db)
  pub fails :
      (task_id : ℕ) (error : Message) (category : Category) (now : ℕ) (db : Db)
      → P db
      → P (write_fail_task task_id error category now db)
  pub deactivates :
      (task_id domain_id : ℕ) (error : Message) (category : Category) (code : ErrorCode) (now : ℕ)
      (db : Db)
      → P db
      → P (write_fail_task_with_deactivation task_id domain_id error category code now db)
  pub reschedules :
      (task_id : ℕ) (error : Message) (now : ℕ) (db : Db)
      → P db
      → P (write_reschedule_task env.max_attempts env.jitter task_id error now db)
  pub details :
      (db : Db) (details : List DomainDetail)
      → Stored env db.details details
      → P db
      → P (record db { details = details })

module _ (P : Db → Type 0) (env : Env) (laws : Laws P env) where
  abbrev pub K {ℓ} : {A : Type ℓ} → Action A → Type 0
  K m = Keeps P env laws.others m

  pub complete-Keeps : (i task_id : ℕ) → K (complete env i task_id)
  unfolding complete
  complete-Keeps i task_id =
      session-Keeps P env laws.others i
        (write (write_complete_task task_id completed (env.clock i)))
        (laws.completes task_id (env.clock i))

  pub fail-Keeps :
      (i task_id : ℕ) (error : Message) (category : Category)
      → K (fail env i task_id error category)
  unfolding fail
  fail-Keeps i task_id error category =
      session-Keeps P env laws.others i
        (write (write_fail_task task_id error category (env.clock i)))
        (laws.fails task_id error category (env.clock i))

  pub fail_deactivating-Keeps :
      (i task_id domain_id : ℕ) (error : Message) (category : Category) (code : ErrorCode)
      → K (fail_deactivating env i task_id domain_id error category code)
  unfolding fail_deactivating
  fail_deactivating-Keeps i task_id domain_id error category code =
      session-Keeps P env laws.others i
        (write
          (write_fail_task_with_deactivation task_id domain_id error category code (env.clock i)))
        (laws.deactivates task_id domain_id error category code (env.clock i))

  pub retry_later-Keeps : (i task_id : ℕ) (error : Message) → K (retry_later env i task_id error)
  unfolding retry_later
  retry_later-Keeps i task_id error =
      session-Keeps P env laws.others i
        (write (write_reschedule_task env.max_attempts env.jitter task_id error (env.clock i)))
        (laws.reschedules task_id error (env.clock i))

  -- an action, and a result
  pub and_return-Keeps {ℓ} : {A : Type ℓ} (m : Action (Unit {0})) (a : A) → K m → K (m >> return_ a)
  and_return-Keeps m a keeps = then-Keeps P env laws.others m (λ _. return_ a) keeps (λ _ db h. h)

  handle_class-Keeps :
      (task : Task) (error : Option Text) (class : DnsClass) → K (handle_class env task error class)
  handle_class-Keeps task error Dns.DnsClass.permanent =
      and_return-Keeps
        (fail_deactivating env 3 task.id task.domain_id _ permanent dns_permanent_failure) _
        (fail_deactivating-Keeps 3 task.id task.domain_id _ permanent dns_permanent_failure)
  handle_class-Keeps task error Dns.DnsClass.retryable =
      and_return-Keeps (retry_later env 3 task.id _) _ (retry_later-Keeps 3 task.id _)
  handle_class-Keeps task error Dns.DnsClass.unknown =
      and_return-Keeps (retry_later env 3 task.id _) _ (retry_later-Keeps 3 task.id _)

  pub handle_dns_failure-Keeps :
      (task : Task) (dns : DnsResult) → K (handle_dns_failure env task dns)
  unfolding handle_dns_failure
  handle_dns_failure-Keeps task dns =
      handle_class-Keeps task dns.error (class_of env dns.classification)

  pub handle_http_failure-Keeps :
      (task : Task) (r : HttpResult) → K (handle_http_failure env task r)
  unfolding handle_http_failure
  handle_http_failure-Keeps task r =
      if-Keeps P env laws.others (is_retryable_error r) _ _
        (and_return-Keeps (retry_later env 3 task.id _) _ (retry_later-Keeps 3 task.id _))
        (if-Keeps P env laws.others (is_permanent_failure r) _ _
          (and_return-Keeps
            (fail_deactivating env 3 task.id task.domain_id _ permanent http_permanent_failure) _
            (fail_deactivating-Keeps 3 task.id task.domain_id _ permanent http_permanent_failure))
          (λ db h. h))
