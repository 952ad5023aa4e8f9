-- ===== src/Examples/Reached.antt =====
-- The system, from the empty database: a request, a round of claiming, and a run.
use domain_process_e2e.Prelude.{
  ◌<◌, true, false, [], ◌++◌, map, some, none, length, filter, ◌≡◌, refl, arith,
}
use mathlib.Core.List.{Memᴰ}
use domain_process_e2e.Text.{
  Text, text_eq, split, strip, is_space, rstrip, rstrip_by, before, starts_with, ends_with,
  is_empty, join,
}
use domain_process_e2e.Normalization.{
  normalize_domain, normalize_host, validate_domain_syntax, strip_url, after_scheme,
  after_scheme_chars, host_of, encode_labels, judge_labels, check_labels, is_valid_domain_label,
  dedup_key, dedup_value, dedup_from, deduplicate_domains,
}
use domain_process_e2e.Model.{Domain, Task, Db}
use domain_process_e2e.Domains.{get_by_normalized_domains}
use domain_process_e2e.Domains
use domain_process_e2e.Jobs
use domain_process_e2e.Tasks
use domain_process_e2e.Tasks.{of_job, claim_tasks}
use domain_process_e2e.Tasks.Budget.{IsTable}
use domain_process_e2e.Idempotency
use domain_process_e2e.Http.{response, Scheme, Attempt}
use domain_process_e2e.Manager.{Settings, claim_cycle, batch_size, dispatched}
use domain_process_e2e.Pipeline.{process_task, Env, process_body, after_read, fresh_in}
use domain_process_e2e.Routes.{page_limit}
use domain_process_e2e.Routes.Create.{
  valid_domains, invalid_domains, final_valid, compute_request_hash, missing_domains, valid_tasks,
  invalid_tasks,
}
use domain_process_e2e.Routes.CreateJob.{start_job, populate, create_job}
use domain_process_e2e.Routes.GetJob.{JobResponse, found, get_job}
use domain_process_e2e.Routes.Api.{collect, result_alone}
use domain_process_e2e.Routes.Walk.{in_order}
use domain_process_e2e.System.{
  no_upsert, empty_db, AreFresh, Reach, start, request_job, claim_round, task_run, after_round,
}
use domain_process_e2e.System.Schema.{IsReferential}
use domain_process_e2e.System.Promises.{job_of, reached-IsReferential, create_job-get_job}
use domain_process_e2e.System.Lookup.{process_body-finds}
use domain_process_e2e.System.Cycle.{claim_cycle-Drained}
use domain_process_e2e.Queue.{BoundedQueue, available_capacity}
use domain_process_e2e.Queue.Invariant.{IsValid}
use domain_process_e2e.Workers.{rounds}
use domain_process_e2e.Workers.Drain.{handle_all, Drained}
use domain_process_e2e.Workers.Phase9.{phase9_task_handler}
use domain_process_e2e.Examples.{env_of, network, two_addresses, first_task}
use domain_process_e2e.Examples.Requests.{service, ids, first_request}
use domain_process_e2e.Examples.Loops.{queue_of, codec, codec-CodecLaws}

abbrev settings : Settings
settings = record { task_lease_seconds = 30; worker_concurrency = 2; max_attempts = 3 }

ids-AreFresh : AreFresh ids empty_db
ids-AreFresh = record {
  tasks = record { injective = λ i k e. omega (arith, e); unused = λ i m. elim m [ ] };
  domains = λ i k e. omega (arith, e);
  domain = λ i m. elim m [ ];
  job = λ m. elim m [ ];
}

abbrev requested : Db
requested = (create_job service ids 60 false none first_request empty_db).1

requested-Reach : Reach service settings empty_db requested
requested-Reach = request_job ids 60 false none first_request ids-AreFresh start

abbrev claimed : Db
claimed = after_round requested (claim_cycle settings 61 (λ i. false) requested (queue_of []))

claimed-Reach : Reach service settings empty_db claimed
claimed-Reach = claim_round 61 (λ i. false) (queue_of []) requested-Reach

abbrev ran : Db
ran = (process_task (env_of two_addresses) (network (response 200 [] [])) first_task claimed).1

-- The other transactions between the sessions of the run: none.
ran-Reach : Reach service settings empty_db ran
ran-Reach =
    task_run (env_of two_addresses) (network (response 200 [] [])) first_task refl (λ i db. start)
      (λ i table. no_upsert) claimed-Reach

reached-IsReferential_example : IsReferential ran × IsTable 3 ran.tasks
reached-IsReferential_example = reached-IsReferential service settings ran (omega arith) ran-Reach

is_answered : job_of (create_job service ids 60 false none first_request empty_db).0 ≡ some 70
unfolding create_job start_job populate missing_domains valid_tasks invalid_tasks
    compute_request_hash valid_domains invalid_domains final_valid deduplicate_domains dedup_from
    dedup_key dedup_value Idempotency.create Jobs.create Domains.create_batch Tasks.create_batch
    get_by_normalized_domains normalize_domain normalize_host strip rstrip_by is_space strip_url
    after_scheme after_scheme_chars host_of before rstrip split join encode_labels judge_labels
    validate_domain_syntax check_labels is_valid_domain_label starts_with ends_with is_empty text_eq
is_answered = refl

few_tasks : length (filter (of_job 70) requested.tasks) < 3
unfolding create_job start_job populate missing_domains valid_tasks invalid_tasks
    compute_request_hash valid_domains invalid_domains final_valid deduplicate_domains dedup_from
    dedup_key dedup_value Idempotency.create Jobs.create Domains.create_batch Tasks.create_batch
    get_by_normalized_domains normalize_domain normalize_host strip rstrip_by is_space strip_url
    after_scheme after_scheme_chars host_of before rstrip split join encode_labels judge_labels
    validate_domain_syntax check_labels is_valid_domain_label starts_with ends_with is_empty text_eq
few_tasks = omega arith

create_job-get_job_example :
    (v : JobResponse) × (get_job codec 100 1000 requested 70 none none ≡ found v)
    × (v.job_id ≡ 70)
    × (collect codec 100 1000 requested 70 none 3 none
        ≡ map (result_alone requested) (in_order requested.tasks 70 100))
create_job-get_job_example =
    create_job-get_job service settings codec ids 60 false none first_request empty_db requested 70
      100 1000 100 3 none codec-CodecLaws ids-AreFresh start is_answered start
      (unfold page_limit in refl) (omega arith) few_tasks

the_task : (t : Task) × Memᴰ t requested.tasks
unfolding create_job start_job populate missing_domains valid_tasks invalid_tasks
    compute_request_hash valid_domains invalid_domains final_valid deduplicate_domains dedup_from
    dedup_key dedup_value Idempotency.create Jobs.create Domains.create_batch Tasks.create_batch
    get_by_normalized_domains normalize_domain normalize_host strip rstrip_by is_space strip_url
    after_scheme after_scheme_chars host_of before rstrip split join encode_labels judge_labels
    validate_domain_syntax check_labels is_valid_domain_label starts_with ends_with is_empty text_eq
the_task = (_, Memᴰ.head refl)

process_body-finds_example :
    (d : Domain) × (d.id ≡ the_task.0.domain_id)
    × (process_body (env_of two_addresses) (network (response 200 [] [])) the_task.0 claimed
        ≡ after_read
            (env_of two_addresses)
            (network (response 200 [] []))
            the_task.0
            (some d, fresh_in (env_of two_addresses) 0 the_task.0 claimed)
            claimed)
process_body-finds_example =
    process_body-finds service settings (env_of two_addresses) (network (response 200 [] []))
      requested claimed the_task.0 requested-Reach the_task.1
      (claim_round 61 (λ i. false) (queue_of []) start) (λ i db. start) refl

two_fit : 0 < batch_size settings (queue_of [])
unfolding batch_size available_capacity
two_fit = ground arith

no_tasks-IsValid : IsValid (queue_of [])
no_tasks-IsValid = ground arith

abbrev env : Task → Env
env task = env_of two_addresses

abbrev answers : Task → Text → Scheme → Attempt
answers task = network (response 200 [] [])

claim_cycle-Drained_example :
    let (tasks, claims) =
      claim_tasks (batch_size settings (queue_of [])) 91 61 (λ i. false) requested.tasks in
    let db1 : Db = record requested { tasks = tasks } in
    let finished = handle_all true (phase9_task_handler env answers) ([] ++ claims) db1 in
    (q' : BoundedQueue Task) × (claim_cycle settings 61 (λ i. false) requested (queue_of [])
      ≡ dispatched db1 q')
    × Drained finished (rounds true (phase9_task_handler env answers) (length q'.items) (q', db1))
    × Reach service settings empty_db finished
claim_cycle-Drained_example =
    claim_cycle-Drained service settings env answers (λ task. refl) (λ task i db. start)
      (λ task i table. no_upsert) 61 (λ i. false) empty_db requested (queue_of []) no_tasks-IsValid
      refl two_fit requested-Reach
