-- ===== src/System/Refreshes.antt =====
-- A tick of the scheduler keeps the tables valid: its tasks have new ids, and are for domains that
-- are there.
use domain_process_e2e.Prelude.{
  ℕ, Bool, List, [], ◌∷◌, ◌++◌, map, ◌<◌, none, some, any_cases, and_true, ◌≡◌, refl, sym, ap, ◌∙◌,
  subst, inl, inr, ◌⊎◌, map-Memᴰ, Memᴰ-map, filter-Memᴰ, take-Memᴰ, ==→eq, arith,
}
use mathlib.Core.List.{Memᴰ}
use domain_process_e2e.Prelude.Sort.{sort-Memᴰ}
use domain_process_e2e.Prelude.Distinct.{Distinct, Memᴰ-append}
use domain_process_e2e.Model.{DomainDetail, Task, Db}
use domain_process_e2e.Details.{get_domains_needing_refresh}
use domain_process_e2e.Tasks.{refresh_task, create_refresh_tasks}
use domain_process_e2e.Tasks.Budget.{IsTaskValid, IsTable}
use domain_process_e2e.Tasks.Refresh.{open_count, create_refresh_tasks-Kept, still_open, added_open}
use domain_process_e2e.Scheduler.{Reads, with_ids, candidates, tick}
use domain_process_e2e.Scheduler.Tick.{by_tick}
use domain_process_e2e.Routes.Fresh.{IsInjective, task_id, domain_id}
use domain_process_e2e.System.{IsFresh}
use domain_process_e2e.System.Schema.{IsReferential}
use domain_process_e2e.System.Added.{append-IsTable, one_more-Distinct}

refresh_task-valid :
    (max_attempts i d now : ℕ) → 0 < max_attempts → IsTaskValid max_attempts (refresh_task i d now)
refresh_task-valid max_attempts i d now some_tries = record {
  within = omega arith;
  waits = λ e. some_tries;
  unleased = λ e. refl;
  leased = λ e. absurd (cc);
  counted = λ e. absurd (cc);
}

module _ (ids : ℕ → ℕ) (now : ℕ) (ids_distinct : IsInjective ids) where
  -- A row has the id for a domain only when that domain has an open task.
  abbrev Reserved : List Task → Type 0
  Reserved table = (t : Task) (d : ℕ) → Memᴰ t table → t.id ≡ ids d → 0 < open_count d table

  added-Reserved :
      (table : List Task) (d : ℕ)
      → Reserved table
      → Reserved (table ++ refresh_task (ids d) d now ∷ [])
  added-Reserved table d h t i m e = elim (Memᴰ-append table (refresh_task (ids d) d now ∷ []) m) [
    | inl old ↦ still_open ids now table d i (h t i old e)
    | inr (Memᴰ.head q) ↦ rw (ids_distinct i d (sym e ∙ ap task_id q)) (added_open ids now table d)
    | inr (Memᴰ.tail k) ↦ elim k [ ]
  ]

  unused :
      (d : ℕ) (table : List Task)
      → open_count d table ≡ 0
      → Reserved table
      → ¬ Memᴰ (ids d) (map task_id table)
  unused d table e reserved n =
      let (s, old, p) = map-Memᴰ task_id table n in
      absurd (omega (arith, e, reserved s d old (sym p)))

  create_refresh_tasks-Distinct :
      (ds : List ℕ) (table : List Task) (r : List Task × List Task)
      → create_refresh_tasks now (with_ids ids ds) table ≡ some r
      → Reserved table
      → Distinct (map task_id table)
      → Distinct (map task_id r.0)
  create_refresh_tasks-Distinct ds table r h reserved distinct =
      (create_refresh_tasks-Kept ids now (λ t. Reserved t × Distinct (map task_id t)) ds table r
        (λ d t m e p. (
          added-Reserved t d p.0,
          one_more-Distinct task_id t (refresh_task (ids d) d now) p.1 (unused d t e p.0),
        ))
        h (reserved, distinct)).1

  create_refresh_tasks-IsTable :
      (max_attempts : ℕ) (ds : List ℕ) (table : List Task) (r : List Task × List Task)
      → 0 < max_attempts
      → create_refresh_tasks now (with_ids ids ds) table ≡ some r
      → Reserved table
      → IsTable max_attempts table
      → IsTable max_attempts r.0
  create_refresh_tasks-IsTable max_attempts ds table r some_tries h reserved valid =
      (create_refresh_tasks-Kept ids now (λ t. Reserved t × IsTable max_attempts t) ds table r
        (λ d t m e p. (
          added-Reserved t d p.0,
          append-IsTable max_attempts t (refresh_task (ids d) d now ∷ []) p.1 (λ m. elim m [ ], tt)
              (λ s m. rw (only m) (refresh_task-valid max_attempts (ids d) d now some_tries))
              (λ s m n.
                unused d t e p.0 (subst (λ i. Memᴰ i (map task_id t)) (ap task_id (only m)) n)),
        ))
        h (reserved, valid)).1
    where
      only : {x t : Task} → Memᴰ t (x ∷ []) → t ≡ x
      only (Memᴰ.head q) = q
      only (Memᴰ.tail k) = elim k [ ]

  -- A row afterwards was there, or is for a domain of the list and for no job.
  create_refresh_tasks-Memᴰ :
      (ds : List ℕ) (table : List Task) (r : List Task × List Task)
      → create_refresh_tasks now (with_ids ids ds) table ≡ some r
      → (t : Task) → Memᴰ t r.0
      → Memᴰ t table ⊎ (Memᴰ t.domain_id ds × (t.job_id ≡ none))
  create_refresh_tasks-Memᴰ ds table r h =
      create_refresh_tasks-Kept ids now
        (λ rows.
          (t : Task) → Memᴰ t rows → Memᴰ t table ⊎ (Memᴰ t.domain_id ds × (t.job_id ≡ none)))
        ds table r
        (λ d rows m e p t n. elim (Memᴰ-append rows (refresh_task (ids d) d now ∷ []) n) [
          | inl old ↦ p t old
          | inr (Memᴰ.head q) ↦ inr (rw q m, ap (λ (t : Task). t.job_id) q)
          | inr (Memᴰ.tail k) ↦ elim k [ ]
        ])
        h (λ t m. inl m)

-- The scheduler asks for domains that are there.
candidates-there :
    (worker_concurrency now : ℕ) (reads : Reads) (db : Db) (i : ℕ)
    → Memᴰ i (candidates worker_concurrency reads now db)
    → Memᴰ i (map domain_id db.domains)
unfolding candidates get_domains_needing_refresh
candidates-there worker_concurrency now reads db i m =
    let (row, n, e) = map-Memᴰ (λ (d : DomainDetail). d.domain_id) _ m in
    let (old, h) = filter-Memᴰ _ db.details (sort-Memᴰ _ _ (take-Memᴰ _ _ n)) in
    let (active, due) = and_true _ _ h in
    let (d, there, hit) = any_cases _ db.domains active in
    let (same, on) = and_true _ _ hit in
    subst (λ i. Memᴰ i (map domain_id db.domains)) (==→eq d.id row.domain_id same ∙ sym e)
      (Memᴰ-map domain_id db.domains there)

module _ (ids : ℕ → ℕ) (worker_concurrency : ℕ) (reads : Reads) (db_error : Bool) (now : ℕ)
    (db : Db) (ids_fresh : IsFresh ids db) where
  none-Reserved : Reserved ids now ids_fresh.injective db.tasks
  none-Reserved t d m e = absurd (
      ids_fresh.unused d
        (subst (λ i. Memᴰ i (map task_id db.tasks)) e (Memᴰ-map task_id db.tasks m)))

  pub tick-IsTable :
      (max_attempts : ℕ)
      → 0 < max_attempts
      → IsTable max_attempts db.tasks
      → IsTable max_attempts (tick ids worker_concurrency reads db_error now db).tasks
  tick-IsTable max_attempts some_tries h =
      by_tick (λ db. IsTable max_attempts db.tasks) ids worker_concurrency reads db_error now db h
        (λ r e.
          create_refresh_tasks-IsTable ids now ids_fresh.injective max_attempts
            (candidates worker_concurrency reads now db) db.tasks r some_tries e none-Reserved h)

  pub tick-IsReferential :
      IsReferential db → IsReferential (tick ids worker_concurrency reads db_error now db)
  tick-IsReferential h =
      by_tick IsReferential ids worker_concurrency reads db_error now db h (λ r e.
        let rows = create_refresh_tasks-Memᴰ ids now ids_fresh.injective _ db.tasks r e in
        record {
          jobs = h.jobs;
          domains = h.domains;
          tasks = record {
            ids =
                create_refresh_tasks-Distinct ids now ids_fresh.injective
                  (candidates worker_concurrency reads now db) db.tasks r e none-Reserved
                  h.tasks.ids;
            job = λ t m j q. elim (rows t m) [
              | inl old ↦ h.tasks.job t old j q
              | inr (n, no_job) ↦ absurd (cc (q, no_job))
            ];
            domain = λ t m. elim (rows t m) [
              | inl old ↦ h.tasks.domain t old
              | inr (n, no_job) ↦ candidates-there worker_concurrency now reads db t.domain_id n
            ];
          };
          records = h.records;
          details = h.details;
        })
