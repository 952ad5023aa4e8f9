-- ===== src/Routes/Commits.antt =====
-- What create_job commits, when it commits: the job and the record of the key, then the domains
-- that were missing and the tasks.
use domain_process_e2e.Prelude.{
  ℕ, Bool, true, false, List, [], ◌∷◌, ◌++◌, map, ltb, ◌==◌, Option, none, some, any, length,
  update_where, ◌≡◌, refl, sym, ap, ◌⊎◌, inl, inr, Bool-cases, Option-cases, subst, find-Memᴰ,
}
use mathlib.Core.List.{Memᴰ}
use mathlib.Core.Option.{some-injective}
use domain_process_e2e.Text.{Text, text_eq}
use domain_process_e2e.Normalization.{NormalizedDomain}
use domain_process_e2e.Model.{Domain, IdempotencyRecord, Db}
use domain_process_e2e.Domains.{reactivate, get_by_normalized_domains}
use domain_process_e2e.Domains
use domain_process_e2e.Jobs
use domain_process_e2e.Tasks
use domain_process_e2e.Idempotency
use domain_process_e2e.Idempotency.{has_key}
use domain_process_e2e.Routes.Create.{
  Request, Ids, Service, Response, http_error, created, replayed, value_of, stored_name, name_of,
  dict_get, valid_domains, invalid_domains, final_valid, missing_domains, domains_of, inactive_ids,
  has_some_id, valid_tasks, invalid_tasks, compute_request_hash,
}
use domain_process_e2e.Routes.Atomic.{all_or_nothing, try_block-cases}
use domain_process_e2e.Routes.CreateJob.{
  Stage, clear_details, Start, fresh, replay, conflict, failure, header, effective_client_id,
  new_job, new_record, against, start_job, create_job, populate, with_domains,
}
use domain_process_e2e.Routes.Dict.{dict_get-Memᴰ}

-- The record of the key is one more, under a key that was free, for the new job; or there is none.
abbrev pub Recorded : ℕ → List IdempotencyRecord → List IdempotencyRecord → Type 0
Recorded job_id before after =
    (after ≡ before)
    ⊎ ((r : IdempotencyRecord) × (any (has_key r.client_id r.idempotency_key) before ≡ false)
        × (r.job_id ≡ job_id)
        × (after ≡ before ++ r ∷ []))

pub record Started (ids : Ids) (now : ℕ) (db db0 : Db) : Type 0 where
  pub jobs : db0.jobs ≡ db.jobs ++ new_job ids.job now ∷ []
  pub domains : db0.domains ≡ db.domains
  pub tasks : db0.tasks ≡ db.tasks
  pub details : db0.details ≡ db.details
  pub records : Recorded ids.job db.records db0.records

pub record Filled (ids : Ids) (now : ℕ) (invalid : List NormalizedDomain) (db0 db1 : Db)
    : Type 0 where
  pub names : List Text
  pub vs : List Domain
  pub is : List Domain
  pub domains :
      db1.domains
      ≡ update_where (has_some_id (inactive_ids vs)) (reactivate now) (
          db0.domains
          ++ missing_domains ids.domain now (get_by_normalized_domains db0.domains names) names)
  pub tasks :
      db1.tasks
      ≡ db0.tasks ++ valid_tasks ids.task ids.job now vs (invalid_tasks ids.job now invalid is)
  pub jobs : db1.jobs ≡ db0.jobs
  pub details : db1.details ≡ clear_details (inactive_ids vs) db0.details
  pub records : db1.records ≡ db0.records
  pub vs_inside :
      (d : Domain)
      → Memᴰ d vs
      → Memᴰ d (
          get_by_normalized_domains db0.domains names
          ++ missing_domains ids.domain now (get_by_normalized_domains db0.domains names) names)
  pub is_inside :
      (d : Domain)
      → Memᴰ d is
      → Memᴰ d (
          get_by_normalized_domains db0.domains names
          ++ missing_domains ids.domain now (get_by_normalized_domains db0.domains names) names)

-- A record is for the job.
abbrev pub HasRecord : Db → ℕ → Type 0
HasRecord db job_id = (r : IdempotencyRecord) × Memᴰ r db.records × (r.job_id ≡ job_id)

-- How the transaction starts, when it goes on with a new job.
abbrev IsStart : Ids → ℕ → Db → Start → Type 0
IsStart ids now db (fresh db0) = Started ids now db db0
IsStart ids now db (replay job_id) = HasRecord db job_id
IsStart ids now db _ = Unit

against-IsStart :
    (ids : Ids) (now : ℕ) (client_id key hash : Text) (db : Db) (o : Option IdempotencyRecord)
    → Idempotency.get db.records client_id key ≡ o
    → IsStart ids now db (against hash o)
unfolding Idempotency.get
against-IsStart ids now client_id key hash db none e = tt
against-IsStart ids now client_id key hash db (some r) e =
    elim (Bool-cases (text_eq r.request_hash hash)) [
      | inl f ↦ rw f (r, (find-Memᴰ (has_key client_id key) db.records {y = r} e).0, refl)
      | inr f ↦ rw f tt
    ]

start_job-IsStart :
    (ids : Ids) (now : ℕ) (client_id hash : Text) (key : Option Text) (db : Db)
    → IsStart ids now db (start_job ids now client_id hash key db)
unfolding start_job Jobs.create Idempotency.create
start_job-IsStart ids now client_id hash none db = record {
  jobs = refl;
  domains = refl;
  tasks = refl;
  details = refl;
  records = inl refl;
}
start_job-IsStart ids now client_id hash (some key) db =
    elim (Bool-cases (any (has_key client_id key) db.records)) [
      | inl e ↦ rw e (against-IsStart ids now client_id key hash db _ refl)
      | inr e ↦ rw e (record {
        jobs = refl;
        domains = refl;
        tasks = refl;
        details = refl;
        records = inr (new_record ids now client_id key hash, e, refl, refl);
      })
    ]

inside :
    (domain_map : List Domain) (vs : List Text) (ds : List Domain)
    → domains_of domain_map vs ≡ some ds
    → (d : Domain) → Memᴰ d ds
    → Memᴰ d domain_map
inside domain_map [] ds h d m = elim (subst (Memᴰ d) (sym (some-injective _ _ h)) m) [ ]
inside domain_map (v ∷ vs) ds h d m = elim (Option-cases (dict_get name_of domain_map v)) [
  | inl e ↦ absurd (cc (rw e at h))
  | inr (x, e) ↦ elim (Option-cases (domains_of domain_map vs)) [
    | inl f ↦ absurd (cc (rw (e, f) at h))
    | inr (xs, f) ↦ elim (subst (Memᴰ d) (sym (some-injective (x ∷ xs) ds (rw (e, f) at h))) m) [
      | Memᴰ.head q ↦ rw q ((dict_get-Memᴰ name_of domain_map v {y = x} e).0)
      | Memᴰ.tail n ↦ inside domain_map vs xs f d n
    ]
  ]
]

module _ (service : Service) (ids : Ids) (now : ℕ) where
  with_domains-Filled :
      (invalid : List NormalizedDomain) (names valid_names invalid_names : List Text) (db0 db1 : Db)
      (o p : Option (List Domain))
      → let known = get_by_normalized_domains db0.domains names in
        let added = missing_domains ids.domain now known names in
        domains_of (known ++ added) valid_names ≡ o
        → domains_of (known ++ added) invalid_names ≡ p
        → with_domains ids now ids.job invalid added db0 o p ≡ some db1
        → Filled ids now invalid db0 db1
  unfolding Domains.create_batch Tasks.create_batch
  with_domains-Filled invalid names valid_names invalid_names db0 db1 (some vs) (some is) e f h =
      let q : _ ≡ db1 = some-injective _ _ h in
      record {
        names = names;
        vs = vs;
        is = is;
        domains = ap (λ (db : Db). db.domains) (sym q);
        tasks = ap (λ (db : Db). db.tasks) (sym q);
        jobs = ap (λ (db : Db). db.jobs) (sym q);
        details = ap (λ (db : Db). db.details) (sym q);
        records = ap (λ (db : Db). db.records) (sym q);
        vs_inside = inside _ valid_names vs e;
        is_inside = inside _ invalid_names is f;
      }
  with_domains-Filled invalid names valid_names invalid_names db0 db1 (some vs) none e f h =
      absurd (cc)
  with_domains-Filled invalid names valid_names invalid_names db0 db1 none p e f h = absurd (cc)

  populate-Filled :
      (final invalid : List NormalizedDomain) (db0 db1 : Db)
      → populate service ids now ids.job final invalid db0 ≡ some db1
      → Filled ids now invalid db0 db1
  unfolding populate
  populate-Filled final invalid db0 db1 h =
      with_domains-Filled invalid (service.iterate (map value_of final ++ map stored_name invalid))
        (map value_of final) (map stored_name invalid) db0 db1 _ _ refl refl h

  -- What holds of a refusal and of a replay, with the database as it was, and of a new job, with
  -- its domains and its tasks.
  module _ {ℓ} (P : Response × Db → Type ℓ) (db : Db)
      (refused : (code : ℕ) → P (http_error code, db))
      (again : (job_id : ℕ) → HasRecord db job_id → P (replayed job_id, db))
      (new : (invalid : List NormalizedDomain) (db0 db1 : Db)
        → Started ids now db db0
        → Filled ids now invalid db0 db1
        → P (created ids.job, db1)) where
    all_or_nothing-cases :
        (request : Request) (s : Start)
        → IsStart ids now db s
        → P (all_or_nothing service ids now request db s)
    all_or_nothing-cases request (fresh db0) started =
        elim (Option-cases (
          populate service ids now ids.job
            (final_valid service.unicode (valid_domains service.unicode request.domains))
            (invalid_domains service.unicode request.domains) db0)) [
              | inl e ↦ rw e (refused 500)
              | inr (db1, e) ↦ rw e (new _ db0 db1 started (populate-Filled _ _ db0 db1 e))
            ]
    all_or_nothing-cases request (replay j) started = again j started
    all_or_nothing-cases request conflict started = refused 409
    all_or_nothing-cases request failure started = refused 500

    pub by_create_job :
        (down : Bool) (fault : Option Stage) (request : Request)
        → P (create_job service ids now down fault request db)
    unfolding create_job
    by_create_job true fault request = refused 503
    by_create_job false fault request = elim (Bool-cases (length request.domains == 0)) [
      | inl e ↦ rw e (refused 400)
      | inr e ↦ elim (Bool-cases (ltb service.max_domains_per_request (length request.domains))) [
        | inl f ↦ rw (e, f) (refused 413)
        | inr f ↦
            rw (e, f)
              (try_block-cases P db (refused 500) service ids now fault request _ (
                all_or_nothing-cases request _ (
                  start_job-IsStart ids now (effective_client_id request)
                    (compute_request_hash service request.domains) (header request.idempotency_key)
                    db)))
      ]
    ]
