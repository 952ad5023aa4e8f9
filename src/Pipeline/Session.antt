-- ===== src/Pipeline/Session.antt =====
-- src/domain_processing_service/domain_processor.py: the sessions of a run, its results, and the
-- write helpers, each in a session of its own.
use domain_process_e2e.Prelude.{ℕ, Bool, List, Option, none, some}
use mathlib.Core.Option.{map as option_map}
use domain_process_e2e.Text.{Text}
use domain_process_e2e.Model.{
  TaskStatus, pending, completed, failed, Category, retryable, ErrorCode, Message, exception_text,
  DomainDetail, Db,
}
use domain_process_e2e.Dns.{RecordType, Lookup}
use domain_process_e2e.Http.{Client}
use domain_process_e2e.Ip.{Address}
use domain_process_e2e.Processor.{Failure}
use domain_process_e2e.Processor.Writes.{
  write_complete_task, write_fail_task, write_fail_task_with_deactivation, write_reschedule_task,
}

-- What the run of one task meets. Sessions are numbered in the order of the source: `other i` is
-- what other transactions commit before session `i`, `fault i` the exception that it raises, if
-- any. `others i` is what they commit to the details between the statements of the last session.
pub record Env : Type 1 where
  pub freshness_seconds : ℕ
  pub max_attempts : ℕ
  pub clock : ℕ → ℕ
  pub jitter : ℕ → ℕ
  pub other : ℕ → Db → Db
  pub others : ℕ → List DomainDetail → List DomainDetail
  pub fault : ℕ → Option (Failure × Text)
  pub ip_address : Text → Option Address
  pub query : RecordType → Text → Lookup
  pub client : Client
  -- SET NX on the domain's key succeeds
  pub lock_acquired : Bool

pub record ProcessingResult : Type 0 where
  pub status : TaskStatus
  pub error : Option Message
  pub error_category : Option Category

pub data Outcome {ℓ} (A : Type ℓ) : Type ℓ where
  ok : A → Outcome A
  raised : Failure → Text → Outcome A

abbrev pub Action {ℓ} : Type ℓ → Type ℓ
Action A = Db → Outcome A × Db

infixl 5 ◌>>=◌ ◌>>◌
abbrev pub bind {ℓ κ} : {A : Type ℓ} {B : Type κ} → (A → Action B) → Outcome A × Db → Outcome B × Db
bind f (ok a, db) = f a db
bind f (raised why message, db) = (raised why message, db)

abbrev pub ◌>>=◌ {ℓ κ} : {A : Type ℓ} {B : Type κ} → Action A → (A → Action B) → Action B
◌>>=◌ m f db = bind f (m db)

abbrev pub ◌>>◌ {ℓ} : {B : Type ℓ} → Action (Unit {0}) → Action B → Action B
m >> k = m >>= λ _. k

abbrev pub return_ {ℓ} : {A : Type ℓ} → A → Action A
return_ a db = (ok a, db)

abbrev pub run_session {ℓ} : {A : Type ℓ} → Option (Failure × Text) → Action A → Action A
run_session none m db = m db
run_session (some (why, message)) m db = (raised why message, db)

-- `async with self._session_maker() as session: …`
unfoldable pub session {ℓ} : {A : Type ℓ} → Env → ℕ → Action A → Action A
session env i m db = run_session (env.fault i) m (env.other i db)

abbrev pub write : (Db → Db) → Action (Unit {0})
write f db = (ok tt, f db)

abbrev pub completed_result : ProcessingResult
completed_result = record { status = completed; error = none; error_category = none }

abbrev pub pending_result : Message → ProcessingResult
pending_result error = record {
  status = pending;
  error = some error;
  error_category = some retryable;
}

-- with what str() makes of an error, if there is one
abbrev pub reported : TaskStatus → Option Text → Category → ProcessingResult
reported status error category = record {
  status = status;
  error = option_map exception_text error;
  error_category = some category;
}

abbrev pub failed_result : Message → Category → ProcessingResult
failed_result error category = record {
  status = failed;
  error = some error;
  error_category = some category;
}

module _ (env : Env) where
  -- The write helpers, in session `i`.
  unfoldable pub complete : ℕ → ℕ → Action (Unit {0})
  unfolding session
  complete i task_id = session env i (write (write_complete_task task_id completed (env.clock i)))

  unfoldable pub fail : ℕ → ℕ → Message → Category → Action (Unit {0})
  unfolding session
  fail i task_id error category =
      session env i (write (write_fail_task task_id error category (env.clock i)))

  unfoldable pub fail_deactivating : ℕ → ℕ → ℕ → Message → Category → ErrorCode → Action (Unit {0})
  unfolding session
  fail_deactivating i task_id domain_id error category code = session env i (
      write (write_fail_task_with_deactivation task_id domain_id error category code (env.clock i)))

  unfoldable pub retry_later : ℕ → ℕ → Message → Action (Unit {0})
  unfolding session
  retry_later i task_id error =
      session env i
        (write (write_reschedule_task env.max_attempts env.jitter task_id error (env.clock i)))
