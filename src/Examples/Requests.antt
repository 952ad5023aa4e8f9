-- ===== src/Examples/Requests.antt =====
-- The routes, at a small database and a request with a valid and an invalid name.
use domain_process_e2e.Prelude.{
  none, ◌+◌, false, List, [], ◌∷◌, some, length, flatten, ◌≡◌, ◌≢◌, ◌⊎◌, refl, ap, arith,
}
use mathlib.Core.List.{Memᴰ, Permᴰ}
use domain_process_e2e.Prelude.Sort.{sort, insert}
use domain_process_e2e.Text.{
  Text, text, text_eq, text_leb, split, strip, is_space, rstrip, rstrip_by, before, starts_with,
  ends_with, is_empty, join,
}
use domain_process_e2e.Normalization.{
  normalize_domain, normalize_host, validate_domain_syntax, strip_url, after_scheme,
  after_scheme_chars, host_of, encode_labels, judge_labels, check_labels, is_valid_domain_label,
  dedup_key, dedup_value, dedup_from, deduplicate_domains,
}
use domain_process_e2e.Model.{Db}
use domain_process_e2e.Domains.{get_by_normalized_domains, clear_domain_details_batch}
use domain_process_e2e.Domains
use domain_process_e2e.Jobs
use domain_process_e2e.Tasks
use domain_process_e2e.Idempotency
use domain_process_e2e.Routes.Create.{
  Request, Ids, Service, http_error, created, replayed, valid_domains, invalid_domains, final_valid,
  compute_request_hash, missing_domains, valid_tasks, invalid_tasks,
}
use domain_process_e2e.Routes.Atomic.{create_job_atomic}
use domain_process_e2e.Routes.CreateJob.{at_commit, new_job, start_job, populate, create_job}
use domain_process_e2e.Routes.Created.{HasTask, create_job-HasTask}
use domain_process_e2e.Routes.Total.{create_job_succeeds}
use domain_process_e2e.Routes.Replay.{create_job_replayed, create_job_conflict}
use domain_process_e2e.Examples.{ascii, small_db, first_task, detail_of}

abbrev name : Text
name = text "example.com"

abbrev bad : Text
bad = text "-bad"

abbrev pub service : Service
service = record {
  unicode = ascii;
  digest = flatten;
  iterate = λ xs. xs;
  max_domains_per_request = 3;
}

abbrev pub ids : Ids
ids = record { job = 70; record_ = 71; domain = λ i. 80 + i; task = λ i. 90 + i }

abbrev request_of : List Text → Request
request_of domains = record {
  domains = domains;
  idempotency_key = some (text "k");
  client_id = some (text "c");
  request_id = text "r";
}

abbrev pub first_request : Request
first_request = request_of (name ∷ bad ∷ [])

abbrev turned_request : Request
turned_request = request_of (bad ∷ name ∷ [])

abbrev other_request : Request
other_request = request_of (bad ∷ [])

abbrev db : Db
db = small_db (first_task ∷ []) (detail_of 4 2 ∷ [])

abbrev after_first : Db
after_first = (create_job service ids 60 false none first_request db).1

first_is_created : create_job service ids 60 false none first_request db ≡ (created 70, after_first)
unfolding create_job start_job populate missing_domains valid_tasks invalid_tasks
    compute_request_hash valid_domains invalid_domains final_valid deduplicate_domains dedup_from
    dedup_key dedup_value Idempotency.create Jobs.create Domains.create_batch Tasks.create_batch
    get_by_normalized_domains normalize_domain normalize_host strip rstrip_by is_space strip_url
    after_scheme after_scheme_chars host_of before rstrip split join encode_labels judge_labels
    validate_domain_syntax check_labels is_valid_domain_label starts_with ends_with is_empty text_eq
first_is_created = refl

create_job-HasTask_example : HasTask 70 60 after_first (normalize_domain ascii bad)
create_job-HasTask_example =
    create_job-HasTask service ids 60 false none first_request db after_first 70 bad
      first_is_created (Memᴰ.tail (Memᴰ.head refl))

create_job_succeeds_example :
    (db1 : Db) × (create_job service ids 60 false none first_request db ≡ (created 70, db1))
    × (db1.jobs ≡ Jobs.create (new_job 70 60) db.jobs)
    × (length db1.tasks
        ≡ length db.tasks
          + (length (final_valid ascii (valid_domains ascii (name ∷ bad ∷ [])))
              + length (invalid_domains ascii (name ∷ bad ∷ []))))
    × (Jobs.non_terminal_count 70 db1.tasks
        ≡ Jobs.non_terminal_count 70 db.tasks
          + length (final_valid ascii (valid_domains ascii (name ∷ bad ∷ []))))
create_job_succeeds_example =
    create_job_succeeds service ids 60 first_request db (λ xs v m. m) (omega arith) (omega arith)
      (unfold Idempotency.get in refl)

abbrev later_ids : Ids
later_ids = record { job = 170; record_ = 171; domain = λ i. 180 + i; task = λ i. 190 + i }

create_job_atomic_example :
    ((create_job service ids 60 false (some at_commit) first_request db).0 ≡ created 70)
    ⊎ ((create_job service ids 60 false (some at_commit) first_request db).1 ≡ db)
create_job_atomic_example = create_job_atomic service ids 60 false (some at_commit) first_request db

create_job_replayed_example :
    create_job service later_ids 61 false none turned_request after_first
    ≡ (replayed 70, after_first)
create_job_replayed_example =
    create_job_replayed service ids later_ids 60 61 none first_request turned_request (text "k") db
      after_first after_first 70 first_is_created refl refl refl (Permᴰ.swap refl refl) refl

other_hash :
    compute_request_hash service (name ∷ bad ∷ []) ≢ compute_request_hash service (bad ∷ [])
unfolding compute_request_hash text_leb sort insert normalize_domain normalize_host strip rstrip_by
    is_space strip_url after_scheme after_scheme_chars host_of before rstrip split join
    encode_labels judge_labels validate_domain_syntax check_labels is_valid_domain_label starts_with
    ends_with is_empty
other_hash e = let lengths : 15 ≡ 4 = ap length e in omega (arith, lengths)

create_job_conflict_example :
    create_job service later_ids 61 false none other_request after_first
    ≡ (http_error 409, after_first)
create_job_conflict_example =
    create_job_conflict service ids later_ids 60 61 none first_request other_request (text "k") db
      after_first after_first 70 first_is_created refl refl refl (omega arith) (omega arith)
      other_hash refl
