-- ===== src/Routes/Rows.antt =====
-- The rows that create_job makes: a task of the job for each name, on the domain of that name.
use domain_process_e2e.Prelude.{
  ℕ, suc, Bool, true, false, not, List, [], ◌∷◌, map, if◌then◌else◌, Option, none, some, filter,
  update_where, ◌==◌, ◌≡◌, refl, sym, ap, ◌∙◌, inl, inr, arith, Bool-cases, Memᴰ-filter, Memᴰ-map,
  Memᴰ-any,
}
use mathlib.Core.List.{Memᴰ}
use mathlib.Core.Option.{some-injective}
use domain_process_e2e.Text.{Text}
use domain_process_e2e.Normalization.{NormalizedDomain}
use domain_process_e2e.Model.{Domain, Task, pending, failed, ErrorPayload, validation_error}
use domain_process_e2e.Domains.{reactivate}
use domain_process_e2e.Routes.Create.{
  stored_name, name_of, dict_get, cons_both, domains_of, inactive_ids, has_some_id, new_task,
  failed_task, error_message, valid_tasks, invalid_tasks,
}
use domain_process_e2e.Routes.Dict.{dict_get-Memᴰ}

-- The task that is to be done for the domain.
abbrev pub ToDo : ℕ → ℕ → Domain → Task → Type 0
ToDo job_id now d t =
    (t.job_id ≡ some job_id)
    × (t.domain_id ≡ d.id)
    × (t.status ≡ pending)
    × (t.attempts ≡ 0)
    × (t.next_attempt_at ≡ now)

abbrev refusal : NormalizedDomain → Option ErrorPayload
refusal r =
    some (record { code = validation_error; message = error_message r.error; retryable = false })

-- The task that has failed for the name that did not pass.
abbrev pub Refused : ℕ → NormalizedDomain → Domain → Task → Type 0
Refused job_id r d t =
    (t.job_id ≡ some job_id)
    × (t.domain_id ≡ d.id)
    × (t.status ≡ failed)
    × (t.error_payload ≡ refusal r)

cons_both-some {ℓ} :
    {A : Type ℓ} (o : Option A) (os : Option (List A)) {ys : List A}
    → cons_both o os ≡ some ys
    → (x : A) × (xs : List A) × (o ≡ some x) × (os ≡ some xs) × (ys ≡ x ∷ xs)
cons_both-some (some x) (some xs) h = (x, xs, refl, refl, sym (some-injective _ _ h))
cons_both-some (some x) none h = absurd (cc)
cons_both-some none os h = absurd (cc)

-- The domain that a name is given: its own, from the map.
pub domains_of-Memᴰ :
    (domain_map : List Domain) (vs : List Text) (ds : List Domain) (v : Text)
    → domains_of domain_map vs ≡ some ds
    → Memᴰ v vs
    → (d : Domain) × Memᴰ d ds × Memᴰ d domain_map × (d.normalized_domain ≡ v)
domains_of-Memᴰ domain_map [] ds v h m = elim m [ ]
domains_of-Memᴰ domain_map (w ∷ vs) ds v h m =
    let (d, rest, e, es, q) =
      cons_both-some (dict_get name_of domain_map w) (domains_of domain_map vs) h in
    elim m [
      | Memᴰ.head p ↦
          let (old, same) = dict_get-Memᴰ name_of domain_map w {y = d} e in
          (d, rw q (Memᴰ.head refl), old, same ∙ sym p)
      | Memᴰ.tail n ↦
          let (x, there, old, same) = domains_of-Memᴰ domain_map vs rest v es n in
          (x, rw q (Memᴰ.tail there), old, same)
    ]

-- A domain in the list gets its task,
pub valid_tasks-Memᴰ :
    (fresh : ℕ → ℕ) (job_id now : ℕ) (ds : List Domain) (rest : (ℕ → ℕ) → List Task) (d : Domain)
    → Memᴰ d ds
    → (t : Task) × Memᴰ t (valid_tasks fresh job_id now ds rest) × ToDo job_id now d t
unfolding valid_tasks
valid_tasks-Memᴰ fresh job_id now [] rest d m = elim m [ ]
valid_tasks-Memᴰ fresh job_id now (x ∷ ds) rest d (Memᴰ.head e) = (
  new_task (fresh 0) job_id x.id now,
  Memᴰ.head refl,
  (refl, ap (λ (y : Domain). y.id) (sym e), refl, refl, refl),
)
valid_tasks-Memᴰ fresh job_id now (x ∷ ds) rest d (Memᴰ.tail n) =
    let (t, m, todo) = valid_tasks-Memᴰ (λ i. fresh (suc i)) job_id now ds rest d n in
    (t, Memᴰ.tail m, todo)

-- and what comes after the loop stays.
pub valid_tasks-rest :
    (fresh : ℕ → ℕ) (job_id now : ℕ) (ds : List Domain) (rest : (ℕ → ℕ) → List Task)
    (P : Task → Type 0)
    → ((fresh : ℕ → ℕ) → (t : Task) × Memᴰ t (rest fresh) × P t)
    → (t : Task) × Memᴰ t (valid_tasks fresh job_id now ds rest) × P t
unfolding valid_tasks
valid_tasks-rest fresh job_id now [] rest P all = all fresh
valid_tasks-rest fresh job_id now (x ∷ ds) rest P all =
    let (t, m, p) = valid_tasks-rest (λ i. fresh (suc i)) job_id now ds rest P all in
    (t, Memᴰ.tail m, p)

-- The invalid names get theirs, each on the domain it is given.
pub invalid_tasks-Memᴰ :
    (domain_map : List Domain) (job_id now : ℕ) (rs : List NormalizedDomain) (ds : List Domain)
    (r : NormalizedDomain)
    → domains_of domain_map (map stored_name rs) ≡ some ds
    → Memᴰ r rs
    → (d : Domain) × Memᴰ d domain_map
      × (d.normalized_domain ≡ stored_name r)
      × ((fresh : ℕ → ℕ)
          → (t : Task) × Memᴰ t (invalid_tasks job_id now rs ds fresh) × Refused job_id r d t)
unfolding invalid_tasks
invalid_tasks-Memᴰ domain_map job_id now [] ds r h m = elim m [ ]
invalid_tasks-Memᴰ domain_map job_id now (s ∷ rs) ds r h m =
    let (d, rest, e, es, q) =
      cons_both-some (dict_get name_of domain_map (stored_name s))
        (domains_of domain_map (map stored_name rs)) h in
    elim m [
      | Memᴰ.head p ↦
          let (old, same) = dict_get-Memᴰ name_of domain_map (stored_name s) {y = d} e in
          (
            d,
            old,
            same ∙ ap stored_name (sym p),
            λ fresh. rw q (
              failed_task s.error (new_task (fresh 0) job_id d.id now),
              Memᴰ.head refl,
              (refl, refl, refl, ap refusal (sym p)),
            ),
          )
      | Memᴰ.tail n ↦
          let (x, old, same, task) = invalid_tasks-Memᴰ domain_map job_id now rs rest r es n in
          (
            x,
            old,
            same,
            λ fresh.
                rw q (let (t, there, ok) = task (λ i. fresh (suc i)) in (t, Memᴰ.tail there, ok)),
          )
    ]

pub update_where-Memᴰ {ℓ} :
    {A : Type ℓ} (p : A → Bool) (f : A → A) (xs : List A) {x : A}
    → Memᴰ x xs
    → Memᴰ (if p x then f x else x) (update_where p f xs)
update_where-Memᴰ p f [] m = elim m [ ]
update_where-Memᴰ p f (y ∷ xs) (Memᴰ.head e) = Memᴰ.head (ap (λ z. if p z then f z else z) e)
update_where-Memᴰ p f (y ∷ xs) (Memᴰ.tail m) = Memᴰ.tail (update_where-Memᴰ p f xs m)

if_active :
    (b : Bool) (d : Domain) (now : ℕ)
    → d.is_active ≡ true
    → (if b then reactivate now d else d).is_active ≡ true
if_active true d now h = refl
if_active false d now h = h

-- A domain of a valid name is active after the update of the inactive ones.
pub inactive_ids-active :
    (vs : List Domain) (d : Domain) (now : ℕ)
    → Memᴰ d vs
    → (if has_some_id (inactive_ids vs) d then reactivate now d else d).is_active ≡ true
inactive_ids-active vs d now m = elim (Bool-cases d.is_active) [
  | inl e ↦ if_active (has_some_id (inactive_ids vs) d) d now e
  | inr e ↦
      let inactive : Memᴰ d (filter (λ (d : Domain). not d.is_active) vs) =
        Memᴰ-filter (λ (d : Domain). not d.is_active) vs m (rw e refl) in
      let listed : has_some_id (inactive_ids vs) d ≡ true =
        Memᴰ-any (λ i. i == d.id) (inactive_ids vs) (Memᴰ-map (λ (d : Domain). d.id) _ inactive)
          (ground arith) in
      rw listed refl
]
