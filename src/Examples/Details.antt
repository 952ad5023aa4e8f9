-- ===== src/Examples/Details.antt =====
-- The details of domains and the run that stores them, at concrete tables.
use domain_process_e2e.Prelude.{
  ℕ, zero, suc, ◌+◌, false, List, [], ◌∷◌, none, some, ◌≡◌, ◌≢◌, ◌⊎◌, refl, arith,
}
use domain_process_e2e.Text.{text}
use domain_process_e2e.Model.{DomainDetail, Db}
use domain_process_e2e.Details.{stored, occ_conflict, upsert_with_occ, with_values}
use domain_process_e2e.Details
use domain_process_e2e.Details.Occ.{IsKey, after_write, no_lost_update}
use domain_process_e2e.Dns.{DnsResult}
use domain_process_e2e.Http.{HttpResult}
use domain_process_e2e.Processor.{unknown, is_retryable}
use domain_process_e2e.Pipeline.{Env, ok, raised, persist_domain_detail, observation, version_of}
use domain_process_e2e.Pipeline.Outcomes.{
  Overwritten, persist_domain_detail_stores, persist_domain_detail_retries,
}
use domain_process_e2e.Examples.{
  first_task, second_task, detail_of, small_db, two_addresses, env_of,
}

abbrev db : Db
db = small_db (first_task ∷ second_task ∷ []) (detail_of 4 2 ∷ [])

abbrev details : List DomainDetail
details = detail_of 4 2 ∷ []

details-IsKey : IsKey details
details-IsKey = (refl, tt)

found : Details.get details 4 ≡ some (detail_of 4 2)
unfolding Details.get
found = refl

no_lost_update_example :
    upsert_with_occ (detail_of 4 8) 2 (after_write (detail_of 4 9) 2 details) ≡ occ_conflict 2 3
no_lost_update_example =
    no_lost_update (detail_of 4 9) (detail_of 4 8) (detail_of 4 2) details
      (after_write (detail_of 4 9) 2 details) details-IsKey refl found
      (unfold upsert_with_occ in refl)

abbrev addresses : DnsResult
addresses = record {
  ips_v4 = text "8" ∷ [];
  ips_v6 = [];
  cname = none;
  error = none;
  classification = none;
}

abbrev page : HttpResult
page = record {
  status_code = 200;
  headers = [];
  body = [];
  response_time_ms = 3;
  page_title = none;
  error = none;
}

abbrev quiet : Env
quiet = env_of two_addresses

persist_domain_detail_stores_example :
    (after : List DomainDetail) × (persist_domain_detail quiet first_task addresses page db
      ≡ (ok tt, record db { details = after }))
    × (Details.get after 4
        ≡ some (
            observation quiet first_task addresses page
              (version_of quiet (Details.get db.details 4))))
persist_domain_detail_stores_example =
    persist_domain_detail_stores quiet first_task addresses page db details-IsKey refl

-- Another writer stores the version `v` before the first statement.
abbrev racing : ℕ → ℕ → List DomainDetail → List DomainDetail
racing v zero ds = detail_of 4 v ∷ []
racing v (suc i) ds = ds

abbrev raced : ℕ → Env
raced v = record quiet { others = racing v }

newer : (detail_of 4 3).version ≢ version_of (raced 3) (Details.get db.details 4)
unfolding Details.get
newer e = omega (arith, e)

persist_domain_detail_retries_example :
    let before = Details.get db.details 4 in
    let after = persist_domain_detail (raced 3) first_task addresses page db in
    (((before ≡ none) ⊎ (3 ≡ version_of (raced 3) before + 1))
      × Overwritten
          (raced 3)
          first_task
          addresses
          page
          (version_of (raced 3) before)
          (detail_of 4 3)
          db
          after)
    ⊎ ((3 ≢ version_of (raced 3) before + 1)
        × (after ≡ (raised unknown [], record db { details = detail_of 4 3 ∷ [] }))
        × (is_retryable unknown ≡ false))
persist_domain_detail_retries_example =
    persist_domain_detail_retries (raced 3) first_task addresses page db (detail_of 4 3) (refl, tt)
      (unfold Details.get in refl) newer refl refl
