-- ===== src/System/Found.antt =====
-- A row is found under its id.
use domain_process_e2e.Prelude.{
  ℕ, List, [], ◌∷◌, map, ◌==◌, Option, none, some, is_some, if◌then◌else◌, any_cases, Memᴰ-map, ◌≡◌,
  refl, sym, subst, inl, inr, Bool-cases, ==→eq, ==_refl, any,
}
use mathlib.Core.List.{Memᴰ}
use domain_process_e2e.Prelude.Distinct.{Distinct}
use domain_process_e2e.Model.{Job, Domain, Task}
use domain_process_e2e.Domains
use domain_process_e2e.Jobs
use domain_process_e2e.Tasks.{has_id}
use domain_process_e2e.Routes.Pages.{DistinctIds}
use domain_process_e2e.Routes.Fresh.{task_id, domain_id}
use domain_process_e2e.Routes.GetJob.{last_with}
use domain_process_e2e.System.{job_id}

pub get_there :
    (jobs : List Job) (j : ℕ)
    → Memᴰ j (map job_id jobs)
    → (job : Job) × (Jobs.get jobs j ≡ some job) × (job.id ≡ j)
unfolding Jobs.get
get_there [] j m = elim m [ ]
get_there (job ∷ jobs) j m = elim (Bool-cases (job.id == j)) [
  | inl e ↦ rw e (job, refl, ==→eq job.id j e)
  | inr e ↦ elim m [
    | Memᴰ.head q ↦ absurd (cc (e, ==_refl job.id, q))
    | Memᴰ.tail n ↦ rw e (get_there jobs j n)
  ]
]

pub domain_there :
    (domains : List Domain) (i : ℕ)
    → Memᴰ i (map domain_id domains)
    → (d : Domain) × (Domains.get domains i ≡ some d) × Memᴰ d domains × (d.id ≡ i)
unfolding Domains.get
domain_there [] i m = elim m [ ]
domain_there (d ∷ domains) i m = elim (Bool-cases (d.id == i)) [
  | inl e ↦ rw e (d, refl, Memᴰ.head refl, ==→eq d.id i e)
  | inr e ↦ elim m [
    | Memᴰ.head q ↦ absurd (cc (e, ==_refl d.id, q))
    | Memᴰ.tail n ↦
        let (x, f, there, same) = domain_there domains i n in rw e (x, f, Memᴰ.tail there, same)
  ]
]

absent :
    (domains : List Domain) (i : ℕ)
    → ¬ Memᴰ i (map domain_id domains)
    → last_with domain_id domains i ≡ none
absent [] i new = refl
absent (d ∷ domains) i new = elim (Bool-cases (d.id == i)) [
  | inl e ↦ absurd (new (Memᴰ.head (sym (==→eq d.id i e))))
  | inr e ↦ rw (absent domains i (λ m. new (Memᴰ.tail m)), e) refl
]

-- When no two rows share an id, the last row with an id is the first.
pub last_with-get :
    (domains : List Domain) (i : ℕ)
    → Distinct (map domain_id domains)
    → last_with domain_id domains i ≡ Domains.get domains i
unfolding Domains.get
last_with-get [] i d = refl
last_with-get (x ∷ domains) i (new, d) = elim (Bool-cases (x.id == i)) [
  | inl e ↦
      rw
        (
          absent domains i
              (λ m. new (subst (λ k. Memᴰ k (map domain_id domains)) (sym (==→eq x.id i e)) m)),
          e,
        )
        refl
  | inr e ↦ rw (e, last_with-get domains i d) (or_none (Domains.get domains i))
]
  where
    or_none : (o : Option Domain) → (if is_some o then o else none) ≡ o
    or_none none = refl
    or_none (some a) = refl

pub Distinct-DistinctIds : (ts : List Task) → Distinct (map task_id ts) → DistinctIds ts
Distinct-DistinctIds [] d = tt
Distinct-DistinctIds (t ∷ ts) (new, d) = (
  elim (Bool-cases (any (has_id t.id) ts)) [
    | inl e ↦
        let (s, m, q) = any_cases (has_id t.id) ts e in
        absurd
          (new (subst (λ i. Memᴰ i (map task_id ts)) (==→eq s.id t.id q) (Memᴰ-map task_id ts m)))
    | inr e ↦ e
  ],
  Distinct-DistinctIds ts d,
)
