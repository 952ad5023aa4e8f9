-- ===== src/Workers/Phase9.antt =====
-- src/domain_processing_service/worker/worker.py, create_phase9_task_handler: the handler of the
-- tasks, which runs DomainProcessor.process_task in sessions of its own. Each task has the
-- surroundings of its own run.
use domain_process_e2e.Prelude.{Bool, true, false}
use domain_process_e2e.Text.{Text}
use domain_process_e2e.Model.{Task}
use domain_process_e2e.Http.{Scheme, Attempt}
use domain_process_e2e.Pipeline.{Env, Outcome, ok, raised, process_task}
use domain_process_e2e.Workers.{Handler}

abbrev pub is_raised {ℓ} : {A : Type ℓ} → Outcome A → Bool
is_raised (ok a) = false
is_raised (raised why message) = true

-- `_process`; closing the processor leaves the database alone.
unfoldable pub phase9_task_handler : (Task → Env) → (Task → Text → Scheme → Attempt) → Handler
phase9_task_handler env request task db =
    let (outcome, after) = process_task (env task) (request task) task db in
    (after, is_raised outcome)
