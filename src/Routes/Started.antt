-- ===== src/Routes/Started.antt =====
-- What a request that create_job answers with a new job has passed, and what it has recorded.
use domain_process_e2e.Prelude.{
  ℕ, Bool, true, false, List, ltb, ◌==◌, Option, none, some, length, ◌≡◌, sym, ap, subst, inl, inr,
  Bool-cases, Option-cases,
}
use mathlib.Core.Option.{some-injective}
use domain_process_e2e.Text.{Text, text_eq}
use domain_process_e2e.Normalization.{NormalizedDomain}
use domain_process_e2e.Model.{Domain, IdempotencyRecord, Db}
use domain_process_e2e.Idempotency
use domain_process_e2e.Idempotency.Keys.{create-get}
use domain_process_e2e.Routes.Create.{Request, Ids, Service, created, compute_request_hash}
use domain_process_e2e.Routes.Atomic.{or_nothing, all_or_nothing, try_block-cases}
use domain_process_e2e.Routes.CreateJob.{
  Stage, Start, header, effective_client_id, new_record, against, start_job, create_job, populate,
  with_domains,
}

module _ (service : Service) where
  with_domains-records :
      (ids : Ids) (now job_id : ℕ) (invalid : List NormalizedDomain) (new_domains : List Domain)
      (db db' : Db) (vs is : Option (List Domain))
      → with_domains ids now job_id invalid new_domains db vs is ≡ some db'
      → db'.records ≡ db.records
  with_domains-records ids now job_id invalid new_domains db db' (some vs) (some is) h =
      ap (λ (db : Db). db.records) (sym (some-injective _ _ h))
  with_domains-records ids now job_id invalid new_domains db db' (some vs) none h = absurd (cc)
  with_domains-records ids now job_id invalid new_domains db db' none is h = absurd (cc)

  pub committed :
      (j k : ℕ) (db db' : Db) (o : Option Db)
      → or_nothing j db o ≡ (created k, db')
      → (o ≡ some db') × (k ≡ j)
  committed j k db db' none h = absurd (cc)
  committed j k db db' (some db1) h = (cc, cc)

  -- the part of the job that is created
  abbrev pub GoOnCreated : Ids → ℕ → Request → Db → Start → ℕ → Db → Type 0
  GoOnCreated ids now request db start j db1 =
      all_or_nothing service ids now request db start ≡ (created j, db1)

  against_created :
      (ids : Ids) (now : ℕ) (request : Request) (db db1 : Db) (hash : Text)
      (o : Option IdempotencyRecord) (j : ℕ)
      → ¬ GoOnCreated ids now request db (against hash o) j db1
  against_created ids now request db db1 hash none j h = cc
  against_created ids now request db db1 hash (some r) j h =
      elim (Bool-cases (text_eq r.request_hash hash)) [
        | inl e ↦ cc (rw e at h)
        | inr e ↦ cc (rw e at h)
      ]

  -- Under a key, the record of the job is there.
  pub start_job-records :
      (ids : Ids) (now : ℕ) (request : Request) (client_id hash key : Text) (db db1 : Db) (j : ℕ)
      → GoOnCreated ids now request db (start_job ids now client_id hash (some key) db) j db1
      → (Idempotency.get db1.records client_id key ≡ some (new_record ids now client_id key hash))
        × (j ≡ ids.job)
  unfolding start_job populate
  start_job-records ids now request client_id hash key db db1 j h =
      elim (Option-cases (Idempotency.create (new_record ids now client_id key hash) db.records)) [
        | inl e ↦ absurd (
            against_created ids now request db db1 hash (Idempotency.get db.records client_id key) j
              (rw e at h))
        | inr (records, e) ↦
            let (whole, same) = committed _ _ _ _ _ (rw e at h) in
            let kept : db1.records ≡ records =
              with_domains-records ids now ids.job _ _ _ _ _ _ whole in
            (
              subst
                  (λ rs.
                    Idempotency.get rs client_id key ≡ some (new_record ids now client_id key hash))
                  (sym kept)
                  (create-get (new_record ids now client_id key hash) db.records records e),
              same,
            )
      ]

  -- Only a request that passes the checks gets to the transaction.
  pub checked :
      (ids : Ids) (now : ℕ) (down : Bool) (fault : Option Stage) (request : Request) (db db1 : Db)
      (j : ℕ)
      → create_job service ids now down fault request db ≡ (created j, db1)
      → let client_id = effective_client_id request in
        let hash = compute_request_hash service request.domains in
        GoOnCreated ids now request db
          (start_job ids now client_id hash (header request.idempotency_key) db)
          j
          db1
        × ((length request.domains == 0) ≡ false)
        × (ltb service.max_domains_per_request (length request.domains) ≡ false)
  unfolding create_job
  checked ids now true fault request db db1 j h = absurd (cc)
  checked ids now false fault request db db1 j h = elim (Bool-cases (length request.domains == 0)) [
    | inl e ↦ absurd (cc (rw e at h))
    | inr e ↦ elim (Bool-cases (ltb service.max_domains_per_request (length request.domains))) [
      | inl f ↦ absurd (cc (rw (e, f) at h))
      | inr f ↦
          let start =
            start_job ids now (effective_client_id request)
              (compute_request_hash service request.domains) (header request.idempotency_key) db in
          (
            try_block-cases (λ r. r ≡ (created j, db1) → GoOnCreated ids now request db start j db1)
                db (λ e. absurd (cc)) service ids now fault request start (λ e. e) (rw (e, f) at h),
            e,
            f,
          )
    ]
  ]
