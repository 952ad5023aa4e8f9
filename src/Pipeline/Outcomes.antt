-- ===== src/Pipeline/Outcomes.antt =====
-- How the run of a task ends: what is raised, what is rescheduled, what is lost, and what is
-- stored.
use domain_process_e2e.Prelude.{
  ℕ, ◌+◌, ◌<◌, ◌≤◌, false, List, [], ◌∷◌, ◌++◌, Option, none, some, ◌==◌, sym, ◌≡◌, ◌≢◌, ◌⊎◌, refl,
  ap, ◌∙◌, Bool-cases, Option-cases, inl, inr, arith, find-Memᴰ, ==→eq, ==_refl,
}
use domain_process_e2e.Text.{Text}
use domain_process_e2e.Model.{Task, DomainDetail, Db}
use domain_process_e2e.Details.{
  Upsert, stored, occ_conflict, upsert_with_occ, of_domain, with_values,
}
use domain_process_e2e.Details
use domain_process_e2e.Details.Occ.{
  IsKey, upsert_with_occ_current, upsert_with_occ_stale, upsert_with_occ_new,
}
use domain_process_e2e.Dns.{DnsResult}
use domain_process_e2e.Http.{HttpResult, Scheme, Attempt, probe}
use domain_process_e2e.Http.Laws.{unjudged_iff}
use domain_process_e2e.Processor.{unknown, is_retryable}
use domain_process_e2e.Pipeline.{
  Env, ProcessingResult, Outcome, ok, raised, session, fail, retry_later, completed_result,
  handle_http_failure, persisted, retry_persist, held_version, persist_domain_detail, observation,
  version_of, probe_and_write, process_body, handle_exception, process_task,
}

module _ (env : Env) where
  -- A response with no error whose status is 408, 429, below 200 or from 600 on ends the task as
  -- completed, with nothing written: no observation, and the task stays as it was claimed.
  pub probe_and_write_unjudged :
      (attempts : Scheme → Attempt) (task : Task) (dns : DnsResult) (db : Db)
      → (probe env.client attempts).error ≡ none
      → let status = (probe env.client attempts).status_code in
        (status < 200) ⊎ (status ≡ 408) ⊎ (status ≡ 429) ⊎ (600 ≤ status)
        → probe_and_write env attempts task dns db ≡ (ok completed_result, db)
  unfolding probe_and_write handle_http_failure
  probe_and_write_unjudged attempts task dns db e h =
      let (not_success, not_retryable, not_permanent) =
        (unjudged_iff (probe env.client attempts)).1 (e, h) in
      rw (not_success, not_retryable, not_permanent)

  handled :
      (task : Task) (r : Outcome ProcessingResult × Db)
      → env.fault 4 ≡ none
      → (result : ProcessingResult) × ((handle_exception env task r).0 ≡ ok result)
  unfolding handle_exception retry_later fail session
  handled task (ok result, db) h = (result, refl)
  handled task (raised why message, db) h = elim (Bool-cases (is_retryable why)) [
    | inl e ↦ rw (e, h) (_, refl)
    | inr e ↦ rw (e, h) (_, refl)
  ]

  -- If the session that records a failure raises nothing, the run of a task raises nothing: every
  -- exception of the body is turned into a result.
  pub process_task_returns :
      (request : Text → Scheme → Attempt) (task : Task) (db : Db)
      → env.fault 4 ≡ none
      → (result : ProcessingResult) × ((process_task env request task db).0 ≡ ok result)
  unfolding process_task
  process_task_returns request task db = handled task (process_body env request task db)

own_domain :
    (table : List DomainDetail) (i : ℕ) (row : DomainDetail)
    → Details.get table i ≡ some row
    → row.domain_id ≡ i
unfolding Details.get
own_domain table i row h =
    let (m, e) = find-Memᴰ (of_domain i) table {y = row} h in ==→eq row.domain_id i e

-- The end of a table is found where nothing before it matches.
get_appended :
    (table : List DomainDetail) (d : DomainDetail)
    → Details.get table d.domain_id ≡ none
    → Details.get (table ++ d ∷ []) d.domain_id ≡ some d
unfolding Details.get
get_appended [] d h = rw (==_refl d.domain_id)
get_appended (x ∷ table) d h = ground (arith, get_appended table d)

module _ (env : Env) (task : Task) (dns : DnsResult) (r : HttpResult) where
  -- The observation of this run, at the version after `v`.
  abbrev Stored : ℕ → Db → Outcome (Unit {0}) × Db → Type 0
  Stored v db after =
      (details : List DomainDetail) × (after ≡ (ok tt, record db { details = details }))
      × (Details.get details task.domain_id ≡ some (observation env task dns r v))

  -- On the version that the table has, the first attempt stores the observation.
  persisted_current :
      (db : Db) (table : List DomainDetail) (row : DomainDetail)
      → IsKey table
      → Details.get table task.domain_id ≡ some row
      → let detail = observation env task dns r row.version in
        Stored row.version db
          (persisted env (some row) detail db table (upsert_with_occ detail row.version table))
  unfolding observation
  persisted_current db table row k h =
      let detail = observation env task dns r row.version in
      let (goes_through, found) = upsert_with_occ_current detail table row k h in
      (
        _,
        ap (persisted env (some row) detail db table) goes_through,
        found
            ∙ ap (λ i. some (record detail { domain_id = i }))
                (own_domain table task.domain_id row h),
      )

  persisted_new :
      (db : Db) (table : List DomainDetail)
      → Details.get table task.domain_id ≡ none
      → let detail = observation env task dns r 0 in
        Stored 0 db (persisted env none detail db table (upsert_with_occ detail 0 table))
  unfolding observation
  persisted_new db table h =
      let detail = observation env task dns r 0 in
      (
        _,
        ap (persisted env none detail db table) (upsert_with_occ_new detail 0 table h),
        get_appended table detail h,
      )

  -- The same, over the row of another writer.
  abbrev pub Overwritten : ℕ → DomainDetail → Db → Outcome (Unit {0}) × Db → Type 0
  Overwritten v row db after =
      (details : List DomainDetail) × (after ≡ (ok tt, record db { details = details }))
      × (Details.get details task.domain_id
          ≡ some (with_values (observation env task dns r v) (row.version + 1) row))

  first_attempt : Option DomainDetail → Db → Outcome (Unit {0}) × Db
  first_attempt before db =
      let detail = observation env task dns r (version_of env before) in
      let now = env.others 0 db.details in
      persisted env before detail db now (upsert_with_occ detail (version_of env before) now)

  -- The second attempt goes through when the version held is that of the row,
  retried_with :
      (before : Option DomainDetail) (held : ℕ) (db : Db) (row : DomainDetail)
      → let now = env.others 0 db.details in
        IsKey now
        → Details.get now task.domain_id ≡ some row
        → row.version ≢ version_of env before
        → env.others 1 now ≡ now
        → env.others 2 now ≡ now
        → held_version env before row.version ≡ held
        → row.version ≡ held
        → Overwritten (version_of env before) row db (first_attempt before db)
  unfolding retry_persist observation first_attempt
  retried_with before held db row k h other quiet quiet' holds same =
      let detail = observation env task dns r (version_of env before) in
      let now = env.others 0 db.details in
      let (goes_through, found) = upsert_with_occ_current detail now row k h in
      (
        _,
        simp (
          upsert_with_occ_stale detail (version_of env before) now row k h other,
          quiet,
          h,
          quiet',
          holds ∙ sym same,
          goes_through,
        ),
        found,
      )

  -- and is refused when it is another.
  refused :
      (existing : DomainDetail) (db : Db) (row : DomainDetail)
      → let now = env.others 0 db.details in
        IsKey now
        → Details.get now task.domain_id ≡ some row
        → row.version ≢ existing.version
        → row.version ≢ existing.version + 1
        → env.others 1 now ≡ now
        → env.others 2 now ≡ now
        → first_attempt (some existing) db ≡ (raised unknown [], record db { details = now })
  unfolding retry_persist observation first_attempt
  refused existing db row k h other later quiet quiet' =
      let detail = observation env task dns r existing.version in
      let now = env.others 0 db.details in
      simp (
        upsert_with_occ_stale detail existing.version now row k h other,
        quiet,
        h,
        quiet',
        upsert_with_occ_stale detail (existing.version + 1) now row k h later,
      )

  -- If no other writer changes the details in between, the observation of the run is what the table
  -- then has for the domain, at the version after the one that was there, and nothing but the
  -- details changes.
  pub persist_domain_detail_stores :
      (db : Db)
      → IsKey db.details
      → env.others 0 db.details ≡ db.details
      → Stored
          (version_of env (Details.get db.details task.domain_id))
          db
          (persist_domain_detail env task dns r db)
  unfolding persist_domain_detail
  persist_domain_detail_stores db k alone =
      elim (Option-cases (Details.get db.details task.domain_id)) [
        | inl e ↦ rw (alone, e) (persisted_new db db.details e)
        | inr (row, e) ↦ rw (alone, e) (persisted_current db db.details row k e)
      ]

  -- If another writer has stored another version in between, and none writes after it, there are
  -- two ends. When there was no row before, or the version has been raised by one, the second
  -- attempt stores the observation at the version after that writer's. Otherwise it expects the
  -- wrong version: an exception is raised that is not retried, and the details stay as the other
  -- writer left them.
  pub persist_domain_detail_retries :
      (db : Db) (row : DomainDetail)
      → let now = env.others 0 db.details in
        let before = Details.get db.details task.domain_id in
        IsKey now
        → Details.get now task.domain_id ≡ some row
        → row.version ≢ version_of env before
        → env.others 1 now ≡ now
        → env.others 2 now ≡ now
        → (((before ≡ none) ⊎ (row.version ≡ version_of env before + 1))
            × Overwritten (version_of env before) row db (persist_domain_detail env task dns r db))
          ⊎ ((row.version ≢ version_of env before + 1)
              × (persist_domain_detail env task dns r db
                  ≡ (raised unknown [], record db { details = now }))
              × (is_retryable unknown ≡ false))
  unfolding persist_domain_detail is_retryable first_attempt
  persist_domain_detail_retries db row k h other quiet quiet' =
      elim (Option-cases (Details.get db.details task.domain_id)) [
        | inl e ↦ inl (
          inl e,
          rw e (retried_with none row.version db row k h (rw e at other) quiet quiet' refl refl),
        )
        | inr (existing, e) ↦ elim (Bool-cases (row.version == existing.version + 1)) [
          | inl f ↦ inl (
            inr (rw e (==→eq _ _ f)),
            rw e (
                retried_with (some existing) (existing.version + 1) db row k h (rw e at other) quiet
                  quiet' refl (==→eq _ _ f)),
          )
          | inr f ↦
              let later : row.version ≢ existing.version + 1 = λ q. ground arith in
              inr (
                rw e later,
                rw e (refused existing db row k h (rw e at other) later quiet quiet'),
                refl,
              )
        ]
      ]
