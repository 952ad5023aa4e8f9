-- ===== src/Routes/Total.antt =====
-- create_job answers an admissible request with a job.
use domain_process_e2e.Prelude.{
  Bool, filter, ==_refl, ◌&&◌, ℕ, suc, ◌+◌, ◌<◌, ◌≤◌, true, false, List, [], ◌∷◌, ◌++◌, map, ltb,
  ◌==◌, Option, none, some, is_some, length, ◌≡◌, refl, ap, ◌∙◌, arith, length-map, length-append,
}
use mathlib.Core.List.{Memᴰ}
use domain_process_e2e.Text.{Text}
use domain_process_e2e.Normalization.{NormalizedDomain}
use domain_process_e2e.Model.{Domain, Task, IdempotencyRecord, Db}
use domain_process_e2e.Domains.{get_by_normalized_domains}
use domain_process_e2e.Tasks
use domain_process_e2e.Idempotency
use domain_process_e2e.Jobs
use domain_process_e2e.Jobs.{non_terminal_count}
use domain_process_e2e.Tasks.{of_job, is_open}
use domain_process_e2e.Idempotency.Keys.{get-create}
use domain_process_e2e.Routes.Create.{
  Request, Ids, Service, created, value_of, stored_name, name_of, dict_get, valid_domains,
  invalid_domains, final_valid, missing_domains, valid_tasks, invalid_tasks, compute_request_hash,
}
use domain_process_e2e.Routes.Atomic.{try_block_whole}
use domain_process_e2e.Routes.CreateJob.{
  fresh, header, effective_client_id, new_record, new_job, start_job, create_job, populate,
}
use domain_process_e2e.Routes.Dict.{in_front, in_back, missing_domains-covers, domains_of-total}

-- The record that holds the key of a request, if it has one.
abbrev pub holder : List IdempotencyRecord → Text → Option Text → Option IdempotencyRecord
holder records client_id none = none
holder records client_id (some key) = Idempotency.get records client_id key

length-invalid_tasks :
    (next : ℕ → ℕ) (j now : ℕ) (rs : List NormalizedDomain) (ds : List Domain)
    → length ds ≡ length rs
    → length (invalid_tasks j now rs ds next) ≡ length rs
unfolding invalid_tasks
length-invalid_tasks next j now [] ds h = refl
length-invalid_tasks next j now (r ∷ rs) [] h = ground arith
length-invalid_tasks next j now (r ∷ rs) (d ∷ ds) h =
    ap suc (length-invalid_tasks (λ i. next (suc i)) j now rs ds (ground arith))

length-valid_tasks :
    (next : ℕ → ℕ) (j now : ℕ) (ds : List Domain) (rest : (ℕ → ℕ) → List Task) (n : ℕ)
    → ((next : ℕ → ℕ) → length (rest next) ≡ n)
    → length (valid_tasks next j now ds rest) ≡ length ds + n
unfolding valid_tasks
length-valid_tasks next j now [] rest n h = ground (arith, h next)
length-valid_tasks next j now (d ∷ ds) rest n h =
    ground (arith, length-valid_tasks (λ i. next (suc i)) j now ds rest n h)

abbrev is_open_of : ℕ → Task → Bool
is_open_of j t = of_job j t && is_open t.status

open-append :
    (p : Task → Bool) (xs ys : List Task)
    → length (filter p (xs ++ ys)) ≡ length (filter p xs) + length (filter p ys)
open-append p [] ys = ground arith
open-append p (x ∷ xs) ys = ground (arith, open-append p xs ys)

-- The tasks of invalid names are closed,
open-invalid_tasks :
    (next : ℕ → ℕ) (j now : ℕ) (rs : List NormalizedDomain) (ds : List Domain)
    → length (filter (is_open_of j) (invalid_tasks j now rs ds next)) ≡ 0
unfolding invalid_tasks
open-invalid_tasks next j now [] ds = refl
open-invalid_tasks next j now (r ∷ rs) [] = refl
open-invalid_tasks next j now (r ∷ rs) (d ∷ ds) =
    ground (arith, open-invalid_tasks (λ i. next (suc i)) j now rs ds)

-- and those of the valid ones open.
open-valid_tasks :
    (next : ℕ → ℕ) (j now : ℕ) (ds : List Domain) (rest : (ℕ → ℕ) → List Task)
    → ((next : ℕ → ℕ) → length (filter (is_open_of j) (rest next)) ≡ 0)
    → length (filter (is_open_of j) (valid_tasks next j now ds rest)) ≡ length ds
unfolding valid_tasks
open-valid_tasks next j now [] rest h = h next
open-valid_tasks next j now (d ∷ ds) rest h =
    let own : (j == j) ≡ true = ==_refl j in
    ground (arith, own, open-valid_tasks (λ i. next (suc i)) j now ds rest h)

module _ (service : Service) where
  -- The set of the names, in whatever order it is gone through, has all of them.
  abbrev pub Covers : Type 0
  Covers = (xs : List Text) (v : Text) → Memᴰ v xs → Memᴰ v (service.iterate xs)

  -- No lookup in the map fails, and a task is added for each name.
  populate-total :
      (ids : Ids) (now j : ℕ) (final invalid : List NormalizedDomain) (db : Db)
      → Covers
      → (db1 : Db) × (populate service ids now j final invalid db ≡ some db1)
        × (db1.jobs ≡ db.jobs)
        × (length db1.tasks ≡ length db.tasks + (length final + length invalid))
        × (non_terminal_count j db1.tasks ≡ non_terminal_count j db.tasks + length final)
  unfolding populate Tasks.create_batch non_terminal_count
  populate-total ids now j final invalid db covers =
      let names = service.iterate (map value_of final ++ map stored_name invalid) in
      let known = get_by_normalized_domains db.domains names in
      let added = missing_domains ids.domain now known names in
      let found : (v : Text)
          → Memᴰ v (map value_of final ++ map stored_name invalid)
          → is_some (dict_get name_of (known ++ added) v) ≡ true =
        λ v m. missing_domains-covers ids.domain now known names v (covers _ v m) in
      let (vs, e, n) =
        domains_of-total (known ++ added) (map value_of final)
          (λ v m. found v (in_front (map value_of final) (map stored_name invalid) m)) in
      let (is, f, k) =
        domains_of-total (known ++ added) (map stored_name invalid)
          (λ v m. found v (in_back (map value_of final) (map stored_name invalid) m)) in
      let count : length (valid_tasks ids.task j now vs (invalid_tasks j now invalid is))
          ≡ length final + length invalid =
        length-valid_tasks ids.task j now vs (invalid_tasks j now invalid is) (length invalid)
          (λ next. length-invalid_tasks next j now invalid is (k ∙ length-map stored_name invalid))
        ∙ ap (λ m. m + length invalid) (n ∙ length-map value_of final) in
      rw (e, f)
        (
          _,
          refl,
          refl,
          length-append db.tasks _ ∙ ap (λ m. length db.tasks + m) count,
          open-append (is_open_of j) db.tasks _
              ∙ ap (λ m. length (filter (is_open_of j) db.tasks) + m)
                  (open-valid_tasks ids.task j now vs (invalid_tasks j now invalid is)
                      (λ next. open-invalid_tasks next j now invalid is)
                    ∙ n
                    ∙ length-map value_of final),
        )

  start_job-fresh :
      (ids : Ids) (now : ℕ) (client_id hash : Text) (key : Option Text) (db : Db)
      → holder db.records client_id key ≡ none
      → (db0 : Db) × (start_job ids now client_id hash key db ≡ fresh db0)
        × (db0.jobs ≡ Jobs.create (new_job ids.job now) db.jobs)
        × (db0.tasks ≡ db.tasks)
  unfolding start_job
  start_job-fresh ids now client_id hash none db free = (_, refl, refl, refl)
  start_job-fresh ids now client_id hash (some key) db free = (
    record db {
      jobs = Jobs.create (new_job ids.job now) db.jobs;
      records = db.records ++ new_record ids now client_id key hash ∷ [];
    },
    rw (get-create (new_record ids now client_id key hash) db.records free) refl,
    refl,
    refl,
  )

  -- When the service is not shutting down, the database does not fail, the number of names is
  -- allowed and no record holds the key, create_job answers that the job is created, adds the new
  -- job, which is pending, and one task for each valid name that is left after the deduplication
  -- and for each invalid name, of which those of the valid names are open.
  pub create_job_succeeds :
      (ids : Ids) (now : ℕ) (request : Request) (db : Db)
      → Covers
      → 0 < length request.domains
      → length request.domains ≤ service.max_domains_per_request
      → holder db.records (effective_client_id request) (header request.idempotency_key) ≡ none
      → (db1 : Db) × (create_job service ids now false none request db ≡ (created ids.job, db1))
        × (db1.jobs ≡ Jobs.create (new_job ids.job now) db.jobs)
        × (length db1.tasks
            ≡ length db.tasks
              + (length
                    (final_valid service.unicode (valid_domains service.unicode request.domains))
                  + length (invalid_domains service.unicode request.domains)))
        × (non_terminal_count ids.job db1.tasks
            ≡ non_terminal_count ids.job db.tasks
              + length
                  (final_valid service.unicode (valid_domains service.unicode request.domains)))
  unfolding create_job
  create_job_succeeds ids now request db covers some_names few free =
      let final = final_valid service.unicode (valid_domains service.unicode request.domains) in
      let invalid = invalid_domains service.unicode request.domains in
      let nonempty : (length request.domains == 0) ≡ false = ground arith in
      let fits : ltb service.max_domains_per_request (length request.domains) ≡ false =
        ground arith in
      let (db0, e, jobs, same) =
        start_job-fresh ids now (effective_client_id request)
          (compute_request_hash service request.domains) (header request.idempotency_key) db free in
      let (db1, whole, kept, count, open_count) =
        populate-total ids now ids.job final invalid db0 covers in
      (
        db1,
        rw (nonempty, fits, try_block_whole service ids now request db _, e, whole) refl,
        kept ∙ jobs,
        rw same at count,
        rw same at open_count,
      )
