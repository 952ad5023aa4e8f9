-- ===== src/Routes/GetJob.antt =====
-- src/domain_processing_service/routes.py, get_job: the answer, with the summary of the job and the
-- results of its page.
use domain_process_e2e.Prelude.{
  ℕ, ◌+◌, List, [], ◌∷◌, map, filter, any, ◌==◌, if◌then◌else◌, Option, none, some, is_some,
}
use mathlib.Core.Option.{map as option_map}
use domain_process_e2e.Text.{Text, text}
use domain_process_e2e.Model.{
  TaskStatus, pending, processing, completed, failed, ErrorPayload, Job, Domain, Task, DomainDetail,
  Db,
}
use domain_process_e2e.Tasks.{summary_count}
use domain_process_e2e.Jobs
use domain_process_e2e.Routes.{Page, page_limit, get_job_page}
use domain_process_e2e.Routes.Cursor.{
  Codec, Decoded, decoded, value_error, uncaught, encode, decode,
}

pub record ResultData : Type 0 where
  pub ip_addresses : List Text
  pub ips_v4 : List Text
  pub ips_v6 : List Text
  pub cname : Option Text
  pub http_status : ℕ
  pub page_title : Option Text
  pub response_time : ℕ

pub record TaskResult : Type 0 where
  pub task_id : ℕ
  pub domain : Text
  pub status : TaskStatus
  pub result : Option ResultData
  pub error : Option ErrorPayload

pub record JobSummary : Type 0 where
  pub total : ℕ
  pub completed_count : ℕ
  pub failed_count : ℕ
  pub pending_count : ℕ
  pub processing_count : ℕ

pub record JobResponse : Type 0 where
  pub job_id : ℕ
  pub status : TaskStatus
  pub summary : JobSummary
  pub results : List TaskResult
  pub next_cursor : Option Text

-- The answers: an HTTP error, the view of the job, an exception that nothing catches.
pub data Answer : Type 0 where
  refused : ℕ → Answer
  found : JobResponse → Answer
  crashed : Answer

-- `{key(x): x for x in rows}.get(k)`
abbrev pub last_with {ℓ} : {A : Type ℓ} → (A → ℕ) → List A → ℕ → Option A
last_with key [] k = none
last_with key (x ∷ xs) k =
    let later = last_with key xs k in
    if is_some later then later else if key x == k then some x else none

-- the rows that `in_(ids)` selects
abbrev pub in_ids {ℓ} : {A : Type ℓ} → (A → ℕ) → List ℕ → List A → List A
in_ids key ids rows = filter (λ x. any (λ i. i == key x) ids) rows

abbrev pub name_or_unknown : Option Domain → Text
name_or_unknown none = text "unknown"
name_or_unknown (some d) = d.normalized_domain

abbrev pub data_of : DomainDetail → ResultData
data_of d = record {
  ip_addresses = d.ip_addresses;
  ips_v4 = d.ips_v4;
  ips_v6 = d.ips_v6;
  cname = d.cname;
  http_status = d.http_status;
  page_title = d.page_title;
  response_time = d.response_time;
}

abbrev pub result_of : TaskStatus → Option DomainDetail → Option ResultData
result_of completed detail = option_map data_of detail
result_of _ detail = none

abbrev pub error_of : TaskStatus → Option ErrorPayload → Option ErrorPayload
error_of failed payload = payload
error_of _ payload = none

unfoldable pub task_result : Db → List ℕ → Task → TaskResult
task_result db ids t = record {
  task_id = t.id;
  domain =
      name_or_unknown (
        last_with (λ (d : Domain). d.id) (in_ids (λ (d : Domain). d.id) ids db.domains)
          t.domain_id);
  status = t.status;
  result = result_of t.status (
      last_with (λ (d : DomainDetail). d.domain_id)
        (in_ids (λ (d : DomainDetail). d.domain_id) ids db.details) t.domain_id);
  error = error_of t.status t.error_payload;
}

-- the loop over the tasks of the page
unfoldable pub task_results : Db → List Task → List TaskResult
task_results db tasks = map (task_result db (map (λ (t : Task). t.domain_id) tasks)) tasks

-- `summary_counts` has the four statuses, so the sum of its values is the sum of these.
unfoldable pub job_summary : List Task → ℕ → JobSummary
job_summary tasks job_id = record {
  total =
      summary_count tasks job_id pending
      + summary_count tasks job_id processing
      + summary_count tasks job_id completed
      + summary_count tasks job_id failed;
  completed_count = summary_count tasks job_id completed;
  failed_count = summary_count tasks job_id failed;
  pending_count = summary_count tasks job_id pending;
  processing_count = summary_count tasks job_id processing;
}

abbrev pub job_response : Codec → Db → ℕ → Job → Page → JobResponse
job_response codec db job_id job page = record {
  job_id = job.id;
  status = job.status;
  summary = job_summary db.tasks job_id;
  results = task_results db page.results;
  next_cursor = option_map (encode codec) page.next_cursor;
}

-- the query and the answer, from the decoded cursor
abbrev pub with_cursor : Codec → Db → ℕ → Job → ℕ → Decoded → Answer
with_cursor codec db job_id job limit value_error = refused 400
with_cursor codec db job_id job limit uncaught = crashed
with_cursor codec db job_id job limit (decoded c) =
    found (job_response codec db job_id job (get_job_page db.tasks job_id limit (some c)))

abbrev pub at_cursor : Codec → Db → ℕ → Job → ℕ → Option Text → Answer
at_cursor codec db job_id job limit none =
    found (job_response codec db job_id job (get_job_page db.tasks job_id limit none))
at_cursor codec db job_id job limit (some cursor) =
    with_cursor codec db job_id job limit (decode codec cursor)

abbrev pub with_limit : Codec → Db → ℕ → Job → Option Text → Option ℕ → Answer
with_limit codec db job_id job cursor none = refused 400
with_limit codec db job_id job cursor (some limit) = at_cursor codec db job_id job limit cursor

abbrev pub of_found : Codec → ℕ → ℕ → Db → ℕ → Option ℕ → Option Text → Option Job → Answer
of_found codec default_page_size max_page_size db job_id limit cursor none = refused 404
of_found codec default_page_size max_page_size db job_id limit cursor (some job) =
    with_limit codec db job_id job cursor (page_limit default_page_size max_page_size limit)

unfoldable pub get_job : Codec → ℕ → ℕ → Db → ℕ → Option ℕ → Option Text → Answer
get_job codec default_page_size max_page_size db job_id limit cursor =
    of_found codec default_page_size max_page_size db job_id limit cursor (Jobs.get db.jobs job_id)
