-- ===== src/Routes/Replay.antt =====
-- create_job under an idempotency key: replayed for the same names, refused for others.
use domain_process_e2e.Prelude.{
  Option, ℕ, ◌<◌, ◌≤◌, false, List, ltb, ◌==◌, if◌then◌else◌, none, some, length, ◌≡◌, ◌≢◌, refl,
  ap, ◌∙◌, inl, inr, arith, Bool-cases,
}
use mathlib.Core.List.{Permᴰ}
use domain_process_e2e.Prelude.Permuted.{sort-Permᴰ, map-Permᴰ, length-Permᴰ}
use domain_process_e2e.Text.Order.{text_leb_total, text_leb_trans, text_leb_antisym}
use domain_process_e2e.Text.{Text, text_eq, text_eq_refl, text_eq→eq, text_leb}
use domain_process_e2e.Normalization.{normalize_domain}
use domain_process_e2e.Model.{IdempotencyRecord, Db}
use domain_process_e2e.Idempotency
use domain_process_e2e.Idempotency.Keys.{create-none}
use domain_process_e2e.Routes.Create.{
  Request, Ids, Service, http_error, created, replayed, compute_request_hash,
}
use domain_process_e2e.Routes.Atomic.{try_block_whole}
use domain_process_e2e.Routes.CreateJob.{
  Stage, header, effective_client_id, new_record, start_job, create_job,
}
use domain_process_e2e.Routes.Started.{checked, start_job-records}

-- The hash of a request does not depend on the order of its names.
pub compute_request_hash-Permᴰ :
    (service : Service) {ds es : List Text}
    → Permᴰ ds es
    → compute_request_hash service ds ≡ compute_request_hash service es
unfolding compute_request_hash
compute_request_hash-Permᴰ service p = ap service.digest (
    sort-Permᴰ text_leb text_leb_total text_leb_trans text_leb_antisym
      (map-Permᴰ (λ d. (normalize_domain service.unicode d).value) p))

module _ (service : Service) where
  -- A request under a key that a record holds is answered by the record alone.
  answered :
      (ids : Ids) (now : ℕ) (request : Request) (db : Db) (key : Text) (r : IdempotencyRecord)
      → header request.idempotency_key ≡ some key
      → (length request.domains == 0) ≡ false
      → ltb service.max_domains_per_request (length request.domains) ≡ false
      → Idempotency.get db.records (effective_client_id request) key ≡ some r
      → create_job service ids now false none request db ≡ (
          if text_eq r.request_hash (compute_request_hash service request.domains)
          then (replayed r.job_id, db)
          else (http_error 409, db))
  unfolding create_job start_job
  answered ids now request db key r k e f found =
      let taken : Idempotency.create
            (new_record ids now (effective_client_id request) key
              (compute_request_hash service request.domains))
            db.records
          ≡ none =
        create-none
          (new_record ids now (effective_client_id request) key
            (compute_request_hash service request.domains))
          db.records r found in
      elim (Bool-cases (text_eq r.request_hash (compute_request_hash service request.domains))) [
        | inl g ↦ rw (e, f, try_block_whole service ids now request db _, k, taken, found, g) refl
        | inr g ↦ rw (e, f, try_block_whole service ids now request db _, k, taken, found, g) refl
      ]

  -- After a request that created a job under a key, another one of the same client under that key.
  second_request :
      (ids ids' : Ids) (now now' : ℕ) (fault : Option Stage) (request request' : Request)
      (key : Text) (db db1 db2 : Db) (j : ℕ)
      → create_job service ids now false fault request db ≡ (created j, db1)
      → header request.idempotency_key ≡ some key
      → header request'.idempotency_key ≡ some key
      → effective_client_id request' ≡ effective_client_id request
      → (length request'.domains == 0) ≡ false
      → ltb service.max_domains_per_request (length request'.domains) ≡ false
      → db2.records ≡ db1.records
      → create_job service ids' now' false none request' db2 ≡ (
          if text_eq
            (compute_request_hash service request.domains)
            (compute_request_hash service request'.domains)
          then (replayed j, db2)
          else (http_error 409, db2))
  second_request ids ids' now now' fault request request' key db db1 db2 j first k k' client e f
        kept =
      let hash = compute_request_hash service request.domains in
      let (done, _, _) = checked service ids now false fault request db db1 j first in
      let (found, same) =
        start_job-records service ids now request (effective_client_id request) hash key db db1 j
          (rw k at done) in
      let r = new_record ids now (effective_client_id request) key hash in
      let found' : Idempotency.get db2.records (effective_client_id request') key ≡ some r =
        rw (kept, client) found in
      rw same (answered ids' now' request' db2 key r k' e f found')

  -- When a request under a key has created a job, a request of the same client under the same key
  -- with the same names, in any order, is answered with that job and changes nothing, as long as
  -- the table of records is what the first request left.
  pub create_job_replayed :
      (ids ids' : Ids) (now now' : ℕ) (fault : Option Stage) (request request' : Request)
      (key : Text) (db db1 db2 : Db) (j : ℕ)
      → create_job service ids now false fault request db ≡ (created j, db1)
      → header request.idempotency_key ≡ some key
      → header request'.idempotency_key ≡ some key
      → effective_client_id request' ≡ effective_client_id request
      → Permᴰ request.domains request'.domains
      → db2.records ≡ db1.records
      → create_job service ids' now' false none request' db2 ≡ (replayed j, db2)
  create_job_replayed ids ids' now now' fault request request' key db db1 db2 j first k k' client p
        kept =
      let (_, e, f) = checked service ids now false fault request db db1 j first in
      let len = length-Permᴰ p in
      second_request ids ids' now now' fault request request' key db db1 db2 j first k k' client
        (rw len at e) (rw len at f) kept
      ∙ rw
          (
            compute_request_hash-Permᴰ service p,
            text_eq_refl (compute_request_hash service request'.domains),
          )
          refl

  -- When a request under a key has created a job, a request of the same client under the same key
  -- whose names have another hash is refused with 409 and changes nothing, as long as the table of
  -- records is what the first request left and the number of names is allowed.
  pub create_job_conflict :
      (ids ids' : Ids) (now now' : ℕ) (fault : Option Stage) (request request' : Request)
      (key : Text) (db db1 db2 : Db) (j : ℕ)
      → create_job service ids now false fault request db ≡ (created j, db1)
      → header request.idempotency_key ≡ some key
      → header request'.idempotency_key ≡ some key
      → effective_client_id request' ≡ effective_client_id request
      → 0 < length request'.domains
      → length request'.domains ≤ service.max_domains_per_request
      → compute_request_hash service request.domains ≢ compute_request_hash service request'.domains
      → db2.records ≡ db1.records
      → create_job service ids' now' false none request' db2 ≡ (http_error 409, db2)
  create_job_conflict ids ids' now now' fault request request' key db db1 db2 j first k k' client
        some_names few other kept =
      second_request ids ids' now now' fault request request' key db db1 db2 j first k k' client
        (ground arith) (ground arith) kept
      ∙ elim (Bool-cases (
          text_eq (compute_request_hash service request.domains)
            (compute_request_hash service request'.domains))) [
              | inl e ↦ absurd (other (text_eq→eq _ _ e))
              | inr e ↦ rw e refl
            ]
