-- ===== src/Routes/Created.antt =====
-- create_job that creates: each name of the request, valid or not, gets its task.
use domain_process_e2e.Prelude.{
  ℕ, Bool, true, false, not, List, [], ◌∷◌, ◌++◌, map, if◌then◌else◌, Option, none, some,
  update_where, ◌≡◌, refl, sym, ap, ◌∙◌, ◌⊎◌, inl, inr, Bool-cases, Memᴰ-filter, filter-Memᴰ,
  Memᴰ-map,
}
use mathlib.Core.List.{Memᴰ}
use mathlib.Core.Option.{some-injective}
use domain_process_e2e.Text.{Text}
use domain_process_e2e.Normalization.{NormalizedDomain, normalize_domain}
use domain_process_e2e.Model.{Domain, Task, Db}
use domain_process_e2e.Domains.{reactivate, get_by_normalized_domains}
use domain_process_e2e.Domains
use domain_process_e2e.Tasks
use domain_process_e2e.Routes.Create.{
  Request, Ids, Service, created, value_of, stored_name, valid_domains, invalid_domains,
  final_valid, missing_domains, domains_of, inactive_ids, has_some_id, valid_tasks, invalid_tasks,
}
use domain_process_e2e.Routes.CreateJob.{
  Stage, Start, fresh, replay, conflict, failure, create_job, populate, with_domains,
}
use domain_process_e2e.Routes.Dict.{in_front, in_back}
use domain_process_e2e.Routes.Names.{final_valid-Memᴰ}
use domain_process_e2e.Routes.Started.{checked, committed, GoOnCreated}
use domain_process_e2e.Routes.Rows.{
  ToDo, Refused, domains_of-Memᴰ, valid_tasks-Memᴰ, valid_tasks-rest, invalid_tasks-Memᴰ,
  update_where-Memᴰ, inactive_ids-active,
}

-- The name has a task of the job that is to be done, on its domain, which is active.
abbrev HasValid : ℕ → ℕ → Db → NormalizedDomain → Type 0
HasValid job_id now db r =
    (t : Task) × (d : Domain) × Memᴰ t db.tasks
    × Memᴰ d db.domains
    × (d.normalized_domain ≡ r.value)
    × (d.is_active ≡ true)
    × ToDo job_id now d t

-- The name has a task of the job that has failed, on the domain that it is stored under.
abbrev HasInvalid : ℕ → Db → NormalizedDomain → Type 0
HasInvalid job_id db r =
    (t : Task) × (d : Domain) × Memᴰ t db.tasks
    × Memᴰ d db.domains
    × (d.normalized_domain ≡ stored_name r)
    × Refused job_id r d t

abbrev pub HasTask : ℕ → ℕ → Db → NormalizedDomain → Type 0
HasTask job_id now db r = if r.is_valid then HasValid job_id now db r else HasInvalid job_id db r

-- The rows, when the map has all the names.
abbrev Rows :
    Ids → ℕ → ℕ → List NormalizedDomain → List Domain → Db → List Domain → List Domain → Db → Type 0
Rows ids now j invalid added db vs is db1 =
    (db1.domains
      ≡ update_where (has_some_id (inactive_ids vs)) (reactivate now)
          (Domains.create_batch db.domains added))
    × (db1.tasks
        ≡ Tasks.create_batch db.tasks
            (valid_tasks ids.task j now vs (invalid_tasks j now invalid is)))

with_domains-some :
    (ids : Ids) (now j : ℕ) (invalid : List NormalizedDomain) (added : List Domain) (db db1 : Db)
    (o p : Option (List Domain))
    → with_domains ids now j invalid added db o p ≡ some db1
    → (vs : List Domain) × (is : List Domain) × (o ≡ some vs)
      × (p ≡ some is)
      × Rows ids now j invalid added db vs is db1
with_domains-some ids now j invalid added db db1 (some vs) (some is) h =
    let e = sym (some-injective _ _ h) in
    (vs, is, refl, refl, (ap (λ (db : Db). db.domains) e, ap (λ (db : Db). db.tasks) e))
with_domains-some ids now j invalid added db db1 (some vs) none h = absurd (cc)
with_domains-some ids now j invalid added db db1 none p h = absurd (cc)

in_either {ℓ} : {A : Type ℓ} (xs ys : List A) {x : A} → Memᴰ x (xs ++ ys) → Memᴰ x xs ⊎ Memᴰ x ys
in_either [] ys m = inr m
in_either (y ∷ xs) ys (Memᴰ.head e) = inl (Memᴰ.head e)
in_either (y ∷ xs) ys (Memᴰ.tail m) = elim (in_either xs ys m) [
  | inl n ↦ inl (Memᴰ.tail n)
  | inr n ↦ inr n
]

-- An update of the flags keeps the id and the name.
kept_row :
    (b : Bool) (now : ℕ) (d : Domain)
    → ((if b then reactivate now d else d).id ≡ d.id)
      × ((if b then reactivate now d else d).normalized_domain ≡ d.normalized_domain)
kept_row true now d = (refl, refl)
kept_row false now d = (refl, refl)

-- The domain of the map, as it is after the update.
after_update :
    (now : ℕ) (table added : List Domain) (names : List Text) (vs : List Domain) (d : Domain)
    → Memᴰ d (get_by_normalized_domains table names ++ added)
    → Memᴰ (if has_some_id (inactive_ids vs) d then reactivate now d else d) (
        update_where
          (has_some_id (inactive_ids vs))
          (reactivate now)
          (Domains.create_batch table added))
unfolding get_by_normalized_domains Domains.create_batch
after_update now table added names vs d m =
    update_where-Memᴰ (has_some_id (inactive_ids vs)) (reactivate now) (table ++ added)
      (elim (in_either (get_by_normalized_domains table names) added m) [
        | inl old ↦ in_front table added (filter-Memᴰ _ table old).0
        | inr new ↦ in_back table added new
      ])

module _ (service : Service) where
  go_on_fresh :
      (ids : Ids) (now : ℕ) (request : Request) (db : Db) (start : Start) (j : ℕ) (db1 : Db)
      → GoOnCreated service ids now request db start j db1
      → (db0 : Db) × (populate service ids now ids.job
            (final_valid service.unicode (valid_domains service.unicode request.domains))
            (invalid_domains service.unicode request.domains)
            db0
          ≡ some db1)
        × (j ≡ ids.job)
  go_on_fresh ids now request db (fresh db0) j db1 h =
      let (whole, same) = committed service ids.job j db db1 _ h in (db0, whole, same)
  go_on_fresh ids now request db (replay k) j db1 h = absurd (cc)
  go_on_fresh ids now request db conflict j db1 h = absurd (cc)
  go_on_fresh ids now request db failure j db1 h = absurd (cc)

  -- The rows that populate leaves.
  abbrev Populated : Ids → ℕ → ℕ → List NormalizedDomain → List NormalizedDomain → Db → Db → Type 0
  Populated ids now j final invalid db db1 =
      (added : List Domain) × (names : List Text) × (vs : List Domain) × (is : List Domain)
      × (domains_of (get_by_normalized_domains db.domains names ++ added) (map value_of final)
          ≡ some vs)
      × (domains_of (get_by_normalized_domains db.domains names ++ added) (map stored_name invalid)
          ≡ some is)
      × Rows ids now j invalid added db vs is db1

  populate-Populated :
      (ids : Ids) (now j : ℕ) (final invalid : List NormalizedDomain) (db db1 : Db)
      → populate service ids now j final invalid db ≡ some db1
      → Populated ids now j final invalid db db1
  unfolding populate
  populate-Populated ids now j final invalid db db1 h =
      let names = service.iterate (map value_of final ++ map stored_name invalid) in
      let added =
        missing_domains ids.domain now (get_by_normalized_domains db.domains names) names in
      let (vs, is, e, f, rows) = with_domains-some ids now j invalid added db db1 _ _ h in
      (added, names, vs, is, e, f, rows)

  Populated-HasValid :
      (ids : Ids) (now j : ℕ) (final invalid : List NormalizedDomain) (db db1 : Db)
      (r : NormalizedDomain)
      → Populated ids now j final invalid db db1
      → Memᴰ r.value (map value_of final)
      → HasValid j now db1 r
  unfolding Tasks.create_batch
  Populated-HasValid ids now j final invalid db db1 r (added, names, vs, is, e, f, (domains, tasks))
        m =
      let (d, given, old, name) =
        domains_of-Memᴰ (get_by_normalized_domains db.domains names ++ added) (map value_of final)
          vs r.value e m in
      let (t, there, (todo, on, status, tries, at)) =
        valid_tasks-Memᴰ ids.task j now vs (invalid_tasks j now invalid is) d given in
      let (same_id, same_name) = kept_row (has_some_id (inactive_ids vs) d) now d in
      (
        t,
        (if has_some_id (inactive_ids vs) d then reactivate now d else d),
        rw tasks (in_back db.tasks _ there),
        rw domains (after_update now db.domains added names vs d old),
        same_name ∙ name,
        inactive_ids-active vs d now given,
        (todo, on ∙ sym same_id, status, tries, at),
      )

  Populated-HasInvalid :
      (ids : Ids) (now j : ℕ) (final invalid : List NormalizedDomain) (db db1 : Db)
      (r : NormalizedDomain)
      → Populated ids now j final invalid db db1
      → Memᴰ r invalid
      → HasInvalid j db1 r
  unfolding Tasks.create_batch
  Populated-HasInvalid ids now j final invalid db db1 r
        (added, names, vs, is, e, f, (domains, tasks)) m =
      let (d, old, name, its) =
        invalid_tasks-Memᴰ (get_by_normalized_domains db.domains names ++ added) j now invalid is r
          f m in
      let (t, there, (todo, on, status, error)) =
        valid_tasks-rest ids.task j now vs (invalid_tasks j now invalid is) (Refused j r d) its in
      let (same_id, same_name) = kept_row (has_some_id (inactive_ids vs) d) now d in
      (
        t,
        (if has_some_id (inactive_ids vs) d then reactivate now d else d),
        rw tasks (in_back db.tasks _ there),
        rw domains (after_update now db.domains added names vs d old),
        same_name ∙ name,
        (todo, on ∙ sym same_id, status, error),
      )

  -- Whenever create_job answers that the job is created, each name of the request has a task in
  -- the job: a valid name a pending one, on the domain of its normal form, which is active; an
  -- invalid name a failed one with the validation error, which is not retried.
  pub create_job-HasTask :
      (ids : Ids) (now : ℕ) (down : Bool) (fault : Option Stage) (request : Request) (db db1 : Db)
      (j : ℕ) (name : Text)
      → create_job service ids now down fault request db ≡ (created j, db1)
      → Memᴰ name request.domains
      → HasTask j now db1 (normalize_domain service.unicode name)
  unfolding invalid_domains
  create_job-HasTask ids now down fault request db db1 j name h m =
      let r = normalize_domain service.unicode name in
      let (done, _, _) = checked service ids now down fault request db db1 j h in
      let (db0, whole, same) = go_on_fresh ids now request db _ j db1 done in
      let rows = populate-Populated ids now ids.job _ _ db0 db1 whole in
      rw same (elim (Bool-cases r.is_valid) [
        | inl e ↦ rw e (
            Populated-HasValid ids now ids.job _ _ db0 db1 r rows
              (final_valid-Memᴰ service.unicode request.domains name m e))
        | inr e ↦ rw e (
            Populated-HasInvalid ids now ids.job _ _ db0 db1 r rows (
              Memᴰ-filter (λ (r : NormalizedDomain). not r.is_valid) _
                (Memᴰ-map (normalize_domain service.unicode) request.domains m) (rw e refl)))
      ])
