-- ===== src/System/Requests.antt =====
-- A request keeps the tables valid: the rows that create_job adds have new ids and keys, and name
-- rows that are there.
use domain_process_e2e.Prelude.{
  ℕ, List, [], ◌∷◌, ◌++◌, map, ◌<◌, ◌≡◌, refl, sym, ap, ◌∙◌, subst, inl, inr, map-Memᴰ, Memᴰ-map,
  filter-Memᴰ,
}
use mathlib.Core.List.{Memᴰ, map-append}
use mathlib.Core.Option.{some-injective}
use domain_process_e2e.Prelude.Distinct.{Distinct, append-Distinct, Memᴰ-append}
use domain_process_e2e.Normalization.{NormalizedDomain}
use domain_process_e2e.Model.{Domain, Task, IdempotencyRecord, Db}
use domain_process_e2e.Domains.{get_by_normalized_domains}
use domain_process_e2e.Tasks.Budget.{IsTable}
use domain_process_e2e.Routes.Create.{
  Ids, inactive_ids, name_of, missing_domains, valid_tasks, invalid_tasks,
}
use domain_process_e2e.Routes.CreateJob.{new_job}
use domain_process_e2e.Routes.Commits.{Started, Filled, Recorded}
use domain_process_e2e.Routes.Dict.{in_front, in_back}
use domain_process_e2e.Routes.Fresh.{
  AnyId, task_id, domain_id, IsNew, valid_tasks-IsNew, invalid_tasks-IsNew, valid_tasks-Distinct,
  invalid_tasks-Distinct,
}
use domain_process_e2e.System.{job_id, AreFresh}
use domain_process_e2e.System.Rewrites.{clear_details-Distinct}
use domain_process_e2e.System.Schema.{IsReferential, key_of}
use domain_process_e2e.Routes.Missing.{
  missing_domains-IsMissing, missing_domains-Distinct, missing_domains-new_name,
}
use domain_process_e2e.System.Added.{
  one_more-Distinct, IsNew-valid, append-IsTable, free_key, reactivated-ids, reactivated-names,
}

module _ (ids : Ids) (now : ℕ) (db : Db) (ids_fresh : AreFresh ids db)
    (invalid : List NormalizedDomain) (db0 db1 : Db) (started : Started ids now db db0)
    (filled : Filled ids now invalid db0 db1) where
  abbrev pub added : List Domain
  added =
      missing_domains ids.domain now (get_by_normalized_domains db0.domains filled.names)
        filled.names

  abbrev tasks_added : List Task
  tasks_added =
      valid_tasks ids.task ids.job now filled.vs (invalid_tasks ids.job now invalid filled.is)

  pub ids_after : map domain_id db1.domains ≡ map domain_id db.domains ++ map domain_id added
  ids_after =
      ap (map domain_id) filled.domains
      ∙ reactivated-ids filled.vs now (db0.domains ++ added)
      ∙ map-append domain_id db0.domains added
      ∙ ap (λ ds. map domain_id ds ++ map domain_id added) started.domains

  names_after : map name_of db1.domains ≡ map name_of db.domains ++ map name_of added
  names_after =
      ap (map name_of) filled.domains
      ∙ reactivated-names filled.vs now (db0.domains ++ added)
      ∙ map-append name_of db0.domains added
      ∙ ap (λ ds. map name_of ds ++ map name_of added) started.domains

  jobs_after : db1.jobs ≡ db.jobs ++ new_job ids.job now ∷ []
  jobs_after = filled.jobs ∙ started.jobs

  tasks_after : db1.tasks ≡ db.tasks ++ tasks_added
  tasks_after = filled.tasks ∙ ap (λ ts. ts ++ tasks_added) started.tasks

  -- a domain of the map is in the table
  known_there :
      (d : Domain)
      → Memᴰ d (get_by_normalized_domains db0.domains filled.names ++ added)
      → Memᴰ d.id (map domain_id db1.domains)
  unfolding get_by_normalized_domains
  known_there d m =
      rw ids_after
        (elim (Memᴰ-append (get_by_normalized_domains db0.domains filled.names) added m) [
          | inl old ↦ in_front (map domain_id db.domains) (map domain_id added) (
              Memᴰ-map domain_id db.domains
                (subst (Memᴰ d) started.domains (filter-Memᴰ _ db0.domains old).0))
          | inr new ↦
              in_back (map domain_id db.domains) (map domain_id added)
                (Memᴰ-map domain_id added new)
        ])

  added-IsNew :
      (Q : ℕ → Type 0)
      → ((i : ℕ) → Memᴰ i (map domain_id db1.domains) → Q i)
      → (t : Task) → Memᴰ t tasks_added
      → IsNew ids.task ids.job Q t
  added-IsNew Q all t m =
      valid_tasks-IsNew ids.job now Q filled.vs (invalid_tasks ids.job now invalid filled.is)
        ids.task t (λ d m. all d.id (known_there d (filled.vs_inside d m)))
        (λ fresh t m.
          invalid_tasks-IsNew ids.job now Q invalid filled.is fresh t
            (λ d m. all d.id (known_there d (filled.is_inside d m))) m)
        m

  abbrev IsThere : ℕ → Type 0
  IsThere i = Memᴰ i (map domain_id db1.domains)

  added-Distinct : Distinct (map task_id tasks_added)
  added-Distinct =
      valid_tasks-Distinct ids.job now filled.vs (invalid_tasks ids.job now invalid filled.is)
        ids.task
        (λ fresh t m. invalid_tasks-IsNew ids.job now AnyId invalid filled.is fresh t (λ d n. tt) m)
        (λ fresh one. invalid_tasks-Distinct ids.job now invalid filled.is fresh one)
        ids_fresh.tasks.injective

  added-unused : (t : Task) → Memᴰ t tasks_added → ¬ Memᴰ t.id (map task_id db.tasks)
  added-unused t m n =
      let new = added-IsNew IsThere (λ i n. n) t m in
      ids_fresh.tasks.unused new.number (subst (λ i. Memᴰ i (map task_id db.tasks)) new.id n)

  pub request-IsTable :
      (max_attempts : ℕ)
      → 0 < max_attempts
      → IsTable max_attempts db.tasks
      → IsTable max_attempts db1.tasks
  request-IsTable max_attempts some_tries h = rw tasks_after (
      append-IsTable max_attempts db.tasks tasks_added h added-Distinct
        (λ t m.
          IsNew-valid max_attempts ids.task ids.job IsThere t some_tries
            (added-IsNew IsThere (λ i n. n) t m))
        added-unused)

  job_stays : (j : ℕ) → Memᴰ j (map job_id db.jobs) → Memᴰ j (map job_id db1.jobs)
  job_stays j m =
      rw (jobs_after, map-append job_id db.jobs (new_job ids.job now ∷ []))
        (in_front (map job_id db.jobs) _ m)

  job_there : Memᴰ ids.job (map job_id db1.jobs)
  job_there =
      rw (jobs_after, map-append job_id db.jobs (new_job ids.job now ∷ []))
        (in_back (map job_id db.jobs) _ (Memᴰ.head refl))

  keys_after :
      Distinct (map key_of db.records)
      → Recorded ids.job db.records db1.records
      → Distinct (map key_of db1.records)
  keys_after d (inl e) = rw e d
  keys_after d (inr (r, free, same, e)) =
      rw e (one_more-Distinct key_of db.records r d (free_key db.records r free))

  record_jobs_after :
      ((r : IdempotencyRecord) → Memᴰ r db.records → Memᴰ r.job_id (map job_id db.jobs))
      → Recorded ids.job db.records db1.records
      → (r : IdempotencyRecord) → Memᴰ r db1.records
      → Memᴰ r.job_id (map job_id db1.jobs)
  record_jobs_after h (inl e) r m = job_stays r.job_id (h r (subst (Memᴰ r) e m))
  record_jobs_after h (inr (s, free, same, e)) r m =
      elim (Memᴰ-append db.records (s ∷ []) (subst (Memᴰ r) e m)) [
        | inl old ↦ job_stays r.job_id (h r old)
        | inr (Memᴰ.head q) ↦ rw (q, same) job_there
        | inr (Memᴰ.tail k) ↦ elim k [ ]
      ]

  recorded : Recorded ids.job db.records db1.records
  recorded = subst (Recorded ids.job db.records) (sym filled.records) started.records

  pub request-IsReferential : IsReferential db → IsReferential db1
  request-IsReferential h =
      let (new_ids, new_names) =
        missing_domains-Distinct ids.domain now (get_by_normalized_domains db0.domains filled.names)
          filled.names ids_fresh.domains in
      record {
        jobs = record {
          ids =
              rw jobs_after
                (one_more-Distinct job_id db.jobs (new_job ids.job now) h.jobs.ids ids_fresh.job);
        };
        domains = record {
          ids = rw ids_after (
              append-Distinct (map domain_id db.domains) (map domain_id added) h.domains.ids new_ids
                (λ i m n.
                  let (d, k, e) = map-Memᴰ domain_id added n in
                  let missing =
                    missing_domains-IsMissing ids.domain now
                      (get_by_normalized_domains db0.domains filled.names) filled.names d k in
                  ids_fresh.domain missing.number
                    (subst (λ i. Memᴰ i (map domain_id db.domains)) (e ∙ missing.id) m)));
          names = rw names_after (
              append-Distinct (map name_of db.domains) (map name_of added) h.domains.names new_names
                (λ x m n.
                  missing_domains-new_name ids.domain now db0.domains filled.names x
                    (subst (λ ds. Memᴰ x (map name_of ds)) (sym started.domains) m) n));
        };
        tasks = record {
          ids =
              rw (tasks_after, map-append task_id db.tasks tasks_added)
                (append-Distinct (map task_id db.tasks) (map task_id tasks_added) h.tasks.ids
                  added-Distinct
                  (λ i m n.
                    let (t, k, e) = map-Memᴰ task_id tasks_added n in
                    added-unused t k (subst (λ i. Memᴰ i (map task_id db.tasks)) e m)));
          job = λ t m j e. elim (Memᴰ-append db.tasks tasks_added (subst (Memᴰ t) tasks_after m)) [
            | inl old ↦ job_stays j (h.tasks.job t old j e)
            | inr new ↦
                let its = added-IsNew IsThere (λ i n. n) t new in
                rw (sym (some-injective _ _ (sym its.job ∙ e))) job_there
          ];
          domain = λ t m. elim (Memᴰ-append db.tasks tasks_added (subst (Memᴰ t) tasks_after m)) [
            | inl old ↦
                rw ids_after
                  (in_front (map domain_id db.domains) (map domain_id added) (h.tasks.domain t old))
            | inr new ↦ (added-IsNew IsThere (λ i n. n) t new).domain
          ];
        };
        records = record {
          keys = keys_after h.records.keys recorded;
          job = record_jobs_after h.records.job recorded;
        };
        details = record {
          domains =
              rw (filled.details, started.details)
                (clear_details-Distinct (inactive_ids filled.vs) db.details h.details.domains);
        };
      }
