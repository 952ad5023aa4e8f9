-- ===== src/Routes/Api.antt =====
-- What a client of get_job sees: the whole job, page by page, and its summary.
use domain_process_e2e.Prelude.{
  ℕ, zero, suc, ◌+◌, ◌<◌, true, false, List, [], ◌∷◌, ◌++◌, map, filter, any, ◌==◌, if◌then◌else◌,
  Option, none, some, is_some, length, ◌≡◌, refl, sym, ap, ◌∙◌, subst, inl, inr, arith, Bool-cases,
  Memᴰ-any, Memᴰ-map, ==→eq,
}
use mathlib.Core.List.{Memᴰ, map-append}
use mathlib.Core.Option.{map as option_map}
use domain_process_e2e.Text.{Text}
use domain_process_e2e.Model.{
  pending, processing, completed, failed, Job, Domain, Task, DomainDetail, Db,
}
use domain_process_e2e.Tasks.{summary_count, of_job, status_eq}
use domain_process_e2e.Jobs
use domain_process_e2e.Routes.{page_limit, get_job_page}
use domain_process_e2e.Routes.Pages.{DistinctIds}
use domain_process_e2e.Routes.Walk.{onward, pages, in_order, pages_complete}
use domain_process_e2e.Routes.Cursor.{Codec, CodecLaws, encode, decode-encode}
use domain_process_e2e.Routes.GetJob.{
  Answer, refused, found, crashed, TaskResult, last_with, in_ids, task_result, task_results,
  name_or_unknown, result_of, error_of, job_summary, job_response, get_job,
}

-- The result of a task, whatever page it stands on.
abbrev pub result_alone : Db → Task → TaskResult
result_alone db t = task_result db (t.domain_id ∷ []) t

or_none {ℓ} : {A : Type ℓ} (o : Option A) → (if is_some o then o else none) ≡ o
or_none none = refl
or_none (some a) = refl

module _ {ℓ} {A : Type ℓ} (key : A → ℕ) where
  pub last_with-in_ids :
      (ids : List ℕ) (rows : List A) (k : ℕ)
      → any (λ i. i == k) ids ≡ true
      → last_with key (in_ids key ids rows) k ≡ last_with key rows k
  last_with-in_ids ids [] k h = refl
  last_with-in_ids ids (x ∷ rows) k h = elim (Bool-cases (any (λ i. i == key x) ids)) [
    | inl e ↦ rw (e, last_with-in_ids ids rows k h) refl
    | inr e ↦
        let other : (key x == k) ≡ false = elim (Bool-cases (key x == k)) [
          | inl g ↦
              absurd (cc (e, subst (λ n. any (λ i. i == n) ids ≡ true) (sym (==→eq (key x) k g)) h))
          | inr g ↦ g
        ] in
        rw (e, other, last_with-in_ids ids rows k h) (sym (or_none (last_with key rows k)))
  ]

task_result-alone :
    (db : Db) (ids : List ℕ) (t : Task)
    → any (λ i. i == t.domain_id) ids ≡ true
    → task_result db ids t ≡ result_alone db t
unfolding task_result
task_result-alone db ids t h =
    let here : any (λ i. i == t.domain_id) (t.domain_id ∷ []) ≡ true = ground arith in
    let domains = λ (ids : List ℕ) (h : any (λ i. i == t.domain_id) ids ≡ true).
      last_with-in_ids (λ (d : Domain). d.id) ids db.domains t.domain_id h in
    let details = λ (ids : List ℕ) (h : any (λ i. i == t.domain_id) ids ≡ true).
      last_with-in_ids (λ (d : DomainDetail). d.domain_id) ids db.details t.domain_id h in
    λ i. record {
      task_id = t.id;
      domain = name_or_unknown ((domains ids h ∙ sym (domains (t.domain_id ∷ []) here)) i);
      status = t.status;
      result = result_of t.status ((details ids h ∙ sym (details (t.domain_id ∷ []) here)) i);
      error = error_of t.status t.error_payload;
    }

-- The summary counts each task of the job once.
pub job_summary_total :
    (tasks : List Task) (job_id : ℕ)
    → ((job_summary tasks job_id).total ≡ length (filter (of_job job_id) tasks))
unfolding job_summary summary_count
job_summary_total tasks job_id = counted (filter (of_job job_id) tasks)
  where
    counted :
        (ts : List Task)
        → length (filter (λ t. status_eq t.status pending) ts)
            + length (filter (λ t. status_eq t.status processing) ts)
            + length (filter (λ t. status_eq t.status completed) ts)
            + length (filter (λ t. status_eq t.status failed) ts)
          ≡ length ts
    counted [] = ground arith
    counted (t ∷ ts) = elim t.status [
      | pending ↦ ground (arith, counted ts)
      | processing ↦ ground (arith, counted ts)
      | completed ↦ ground (arith, counted ts)
      | failed ↦ ground (arith, counted ts)
    ]

abbrev following : (Option Text → List TaskResult) → Option Text → List TaskResult
following next none = []
following next (some cursor) = next (some cursor)

-- The results of a page are those of its tasks.
task_results-alone :
    (db : Db) (tasks : List Task) → task_results db tasks ≡ map (result_alone db) tasks
unfolding task_results
task_results-alone db tasks = go tasks (map (λ (t : Task). t.domain_id) tasks) (λ t m.
    Memᴰ-any (λ i. i == t.domain_id) _ (Memᴰ-map (λ (t : Task). t.domain_id) tasks m)
      (ground arith))
  where
    go :
        (ts : List Task) (ids : List ℕ)
        → ((t : Task) → Memᴰ t ts → any (λ i. i == t.domain_id) ids ≡ true)
        → map (task_result db ids) ts ≡ map (result_alone db) ts
    go [] ids h = refl
    go (t ∷ ts) ids h =
        cc (task_result-alone db ids t (h t (Memᴰ.head refl)), go ts ids (λ s m. h s (Memᴰ.tail m)))

page_limit-positive :
    (default_page_size max_page_size : ℕ) (limit : Option ℕ) (page_size : ℕ)
    → page_limit default_page_size max_page_size limit ≡ some page_size
    → 0 < max_page_size
    → 0 < page_size
unfolding page_limit
page_limit-positive d m none p h positive = ground arith
page_limit-positive d m (some n) p h positive = ground arith

module _ (codec : Codec) (default_page_size max_page_size : ℕ) (db : Db) (job_id : ℕ)
    (limit : Option ℕ) where
  abbrev results_of : (Option Text → List TaskResult) → Answer → List TaskResult
  results_of next (found r) = r.results ++ following next r.next_cursor
  results_of next (refused status) = []
  results_of next crashed = []

  -- The results of at most so many calls of get_job, each with the cursor that the one before gave.
  abbrev pub collect : ℕ → Option Text → List TaskResult
  collect zero cursor = []
  collect (suc n) cursor =
      results_of (λ c. collect n c)
        (get_job codec default_page_size max_page_size db job_id limit cursor)

  -- With a cursor that get_job has given, and with none, get_job shows the page after it.
  get_job-found :
      (page_size : ℕ) (job : Job) (c : Option (ℕ × ℕ))
      → CodecLaws codec
      → Jobs.get db.jobs job_id ≡ some job
      → page_limit default_page_size max_page_size limit ≡ some page_size
      → get_job codec default_page_size max_page_size db job_id limit (option_map (encode codec) c)
        ≡ found (job_response codec db job_id job (get_job_page db.tasks job_id page_size c))
  unfolding get_job
  get_job-found page_size job none laws e f = rw (e, f) refl
  get_job-found page_size job (some c) laws e f = rw (e, f, decode-encode codec laws c) refl

  collect-pages :
      (n page_size : ℕ) (job : Job) (c : Option (ℕ × ℕ))
      → CodecLaws codec
      → Jobs.get db.jobs job_id ≡ some job
      → page_limit default_page_size max_page_size limit ≡ some page_size
      → collect n (option_map (encode codec) c)
        ≡ map (result_alone db) (pages db.tasks job_id page_size n c)
  unfolding pages
  collect-pages zero page_size job c laws e f = refl
  collect-pages (suc n) page_size job c laws e f =
      let page = get_job_page db.tasks job_id page_size c in
      ap (results_of (λ c. collect n c)) (get_job-found page_size job c laws e f)
      ∙ ap (λ rs. rs ++ following (λ c. collect n c) (option_map (encode codec) page.next_cursor))
          (task_results-alone db page.results)
      ∙ ap (λ rs. map (result_alone db) page.results ++ rs)
          (onwards (λ c. collect-pages n page_size job (some c) laws e f) page.next_cursor)
      ∙ sym (map-append (result_alone db) page.results _)
    where
      onwards :
          ((c : ℕ × ℕ)
            → collect n (some (encode codec c))
              ≡ map (result_alone db) (pages db.tasks job_id page_size n (some c)))
          → (c : Option (ℕ × ℕ))
          → following (λ c. collect n c) (option_map (encode codec) c)
            ≡ map (result_alone db) (onward (λ c. pages db.tasks job_id page_size n (some c)) c)
      onwards each none = refl
      onwards each (some c) = each c

  -- When the job exists, the limit is positive or absent, the settings and the ids of the tasks are
  -- in order, the calls of get_job, each with the cursor that the one before gave, return the
  -- result of each task of the job once, in the order of creation and id. More calls than tasks are
  -- enough.
  pub get_job_complete :
      (n page_size : ℕ) (job : Job)
      → CodecLaws codec
      → Jobs.get db.jobs job_id ≡ some job
      → page_limit default_page_size max_page_size limit ≡ some page_size
      → 0 < max_page_size
      → DistinctIds db.tasks
      → length (filter (of_job job_id) db.tasks) < n
      → collect n none ≡ map (result_alone db) (in_order db.tasks job_id page_size)
  get_job_complete n page_size job laws e f positive distinct enough =
      collect-pages n page_size job none laws e f
      ∙ ap (map (result_alone db)) (
          pages_complete db.tasks job_id page_size n
            (page_limit-positive default_page_size max_page_size limit page_size f positive)
            distinct enough)
