-- ===== src/Routes/Fresh.antt =====
-- The rows that create_job adds: tasks under the ids that uuid4 gives, each once.
use domain_process_e2e.Prelude.{
  ℕ, suc, List, [], ◌∷◌, map, none, some, ◌≡◌, refl, ◌∙◌, ◌⊎◌, inl, inr, arith, map-Memᴰ,
}
use mathlib.Core.List.{Memᴰ}
use domain_process_e2e.Prelude.Distinct.{Distinct}
use domain_process_e2e.Normalization.{NormalizedDomain}
use domain_process_e2e.Model.{pending, failed, Domain, Task}
use domain_process_e2e.Routes.Create.{valid_tasks, invalid_tasks}

-- The ids are all different.
abbrev pub IsInjective : (ℕ → ℕ) → Type 0
IsInjective fresh = (i k : ℕ) → fresh i ≡ fresh k → i ≡ k

abbrev pub task_id : Task → ℕ
task_id t = t.id

abbrev pub domain_id : Domain → ℕ
domain_id d = d.id

abbrev pub later : (ℕ → ℕ) → ℕ → ℕ
later fresh i = fresh (suc i)

pub later-IsInjective : (fresh : ℕ → ℕ) → IsInjective fresh → IsInjective (later fresh)
later-IsInjective fresh one i k e = let h = one (suc i) (suc k) e in omega (arith, h)

pub first_new : (fresh : ℕ → ℕ) (k : ℕ) → IsInjective fresh → ¬ (fresh 0 ≡ fresh (suc k))
first_new fresh k one e = let h = one 0 (suc k) e in omega (arith, h)

-- A task that create_job makes, on a domain id that has the property `Q`.
pub record IsNew (fresh : ℕ → ℕ) (job_id : ℕ) (Q : ℕ → Type 0) (t : Task) : Type 0 where
  pub number : ℕ
  pub id : t.id ≡ fresh number
  pub job : t.job_id ≡ some job_id
  pub domain : Q t.domain_id
  pub attempts : t.attempts ≡ 0
  pub lease : t.lease_expires_at ≡ none
  pub status : (t.status ≡ pending) ⊎ (t.status ≡ failed)

later-IsNew :
    {fresh : ℕ → ℕ} {j : ℕ} {Q : ℕ → Type 0} {t : Task}
    → IsNew (later fresh) j Q t
    → IsNew fresh j Q t
later-IsNew n = record {
  number = suc n.number;
  id = n.id;
  job = n.job;
  domain = n.domain;
  attempts = n.attempts;
  lease = n.lease;
  status = n.status;
}

module _ (j now : ℕ) (Q : ℕ → Type 0) where
  pub invalid_tasks-IsNew :
      (rs : List NormalizedDomain) (ds : List Domain) (fresh : ℕ → ℕ) (t : Task)
      → ((d : Domain) → Memᴰ d ds → Q d.id)
      → Memᴰ t (invalid_tasks j now rs ds fresh)
      → IsNew fresh j Q t
  unfolding invalid_tasks
  invalid_tasks-IsNew [] ds fresh t all m = elim m [ ]
  invalid_tasks-IsNew (r ∷ rs) [] fresh t all m = elim m [ ]
  invalid_tasks-IsNew (r ∷ rs) (d ∷ ds) fresh t all (Memᴰ.head e) = rw e (record {
    number = 0;
    id = refl;
    job = refl;
    domain = all d (Memᴰ.head refl);
    attempts = refl;
    lease = refl;
    status = inr refl;
  })
  invalid_tasks-IsNew (r ∷ rs) (d ∷ ds) fresh t all (Memᴰ.tail n) =
      later-IsNew (invalid_tasks-IsNew rs ds (later fresh) t (λ d m. all d (Memᴰ.tail m)) n)

  pub valid_tasks-IsNew :
      (ds : List Domain) (rest : (ℕ → ℕ) → List Task) (fresh : ℕ → ℕ) (t : Task)
      → ((d : Domain) → Memᴰ d ds → Q d.id)
      → ((fresh : ℕ → ℕ) (t : Task) → Memᴰ t (rest fresh) → IsNew fresh j Q t)
      → Memᴰ t (valid_tasks fresh j now ds rest)
      → IsNew fresh j Q t
  unfolding valid_tasks
  valid_tasks-IsNew [] rest fresh t all after m = after fresh t m
  valid_tasks-IsNew (d ∷ ds) rest fresh t all after (Memᴰ.head e) = rw e (record {
    number = 0;
    id = refl;
    job = refl;
    domain = all d (Memᴰ.head refl);
    attempts = refl;
    lease = refl;
    status = inl refl;
  })
  valid_tasks-IsNew (d ∷ ds) rest fresh t all after (Memᴰ.tail n) =
      later-IsNew (valid_tasks-IsNew ds rest (later fresh) t (λ d m. all d (Memᴰ.tail m)) after n)

abbrev pub AnyId : ℕ → Type 0
AnyId i = Unit

-- The first id is not one of the rest.
first_apart :
    (fresh : ℕ → ℕ) (j : ℕ) (ts : List Task)
    → IsInjective fresh
    → ((t : Task) → Memᴰ t ts → IsNew (later fresh) j AnyId t)
    → ¬ Memᴰ (fresh 0) (map task_id ts)
first_apart fresh j ts one new m =
    let (t, n, e) = map-Memᴰ task_id ts m in
    let its = new t n in first_new fresh its.number one (e ∙ its.id)

pub invalid_tasks-Distinct :
    (j now : ℕ) (rs : List NormalizedDomain) (ds : List Domain) (fresh : ℕ → ℕ)
    → IsInjective fresh
    → Distinct (map task_id (invalid_tasks j now rs ds fresh))
unfolding invalid_tasks
invalid_tasks-Distinct j now [] ds fresh one = tt
invalid_tasks-Distinct j now (r ∷ rs) [] fresh one = tt
invalid_tasks-Distinct j now (r ∷ rs) (d ∷ ds) fresh one = (
  first_apart fresh j _ one
      (λ t m. invalid_tasks-IsNew j now AnyId rs ds (later fresh) t (λ d m. tt) m),
  invalid_tasks-Distinct j now rs ds (later fresh) (later-IsInjective fresh one),
)

pub valid_tasks-Distinct :
    (j now : ℕ) (ds : List Domain) (rest : (ℕ → ℕ) → List Task) (fresh : ℕ → ℕ)
    → ((fresh : ℕ → ℕ) (t : Task) → Memᴰ t (rest fresh) → IsNew fresh j AnyId t)
    → ((fresh : ℕ → ℕ) → IsInjective fresh → Distinct (map task_id (rest fresh)))
    → IsInjective fresh
    → Distinct (map task_id (valid_tasks fresh j now ds rest))
unfolding valid_tasks
valid_tasks-Distinct j now [] rest fresh new after one = after fresh one
valid_tasks-Distinct j now (d ∷ ds) rest fresh new after one = (
  first_apart fresh j _ one
      (λ t m. valid_tasks-IsNew j now AnyId ds rest (later fresh) t (λ d m. tt) new m),
  valid_tasks-Distinct j now ds rest (later fresh) new after (later-IsInjective fresh one),
)
