-- ===== src/Tasks/Refresh.antt =====
-- Refresh tasks are not doubled, and a domain with two of them stops create_refresh_tasks.
use domain_process_e2e.Prelude.{
  ℕ, ◌+◌, ◌≤◌, ◌<◌, List, [], ◌∷◌, ◌++◌, ◌==◌, if◌then◌else◌, Option, none, some, length, filter,
  ◌≡◌, refl, subst, arith, Bool-cases, inl, inr, ◌⊎◌, ==→eq,
}
use mathlib.Core.List.{Memᴰ}
use mathlib.Core.Option.{map as option_map, some-injective}
use domain_process_e2e.Model.{Task}
use domain_process_e2e.Tasks.{
  is_open_refresh, scalar_one_or_none, get_pending_refresh_task_for_domain, refresh_task,
  with_created, create_refresh_tasks,
}
use domain_process_e2e.Scheduler.{with_ids}

abbrev pub open_count : ℕ → List Task → ℕ
open_count domain_id table = length (filter (is_open_refresh domain_id) table)

-- No domain has two open refresh tasks.
abbrev pub OneOpen : List Task → Type 0
OneOpen table = (domain_id : ℕ) → open_count domain_id table ≤ 1

pub open_count-append :
    (i : ℕ) (table : List Task) (t : Task)
    → open_count i (table ++ t ∷ []) ≡ open_count i table + (if is_open_refresh i t then 1 else 0)
open_count-append i [] t = ground arith
open_count-append i (s ∷ table) t = ground (arith, open_count-append i table t)

pub refresh_of_other :
    (i task_id domain_id now : ℕ)
    → is_open_refresh i (refresh_task task_id domain_id now) ≡ (domain_id == i)
refresh_of_other i task_id domain_id now = ground arith

-- What the query answers, by the number of rows.
abbrev Answer : List Task → Option (Option Task) → Type 0
Answer rows o =
    ((o ≡ some none) × (length rows ≡ 0))
    ⊎ ((t : Task) × (o ≡ some (some t)) × (length rows ≡ 1))
    ⊎ ((o ≡ none) × (2 ≤ length rows))

answer : (rows : List Task) → Answer rows (scalar_one_or_none rows)
answer [] = inl (refl, refl)
answer (t ∷ []) = inr (inl (t, refl, refl))
answer (s ∷ t ∷ rows) = inr (inr (refl, omega arith))

pub query_cases :
    (table : List Task) (i : ℕ)
    → Answer (filter (is_open_refresh i) table) (get_pending_refresh_task_for_domain table i)
unfolding get_pending_refresh_task_for_domain
query_cases table i = answer (filter (is_open_refresh i) table)

created-OneOpen :
    (task_id domain_id now : ℕ) (table : List Task)
    → open_count domain_id table ≡ 0
    → OneOpen table
    → OneOpen (table ++ refresh_task task_id domain_id now ∷ [])
created-OneOpen task_id domain_id now table h one i = elim (Bool-cases (domain_id == i)) [
  | inl e ↦
      let empty : open_count i table ≡ 0 =
        subst (λ i. open_count i table ≡ 0) (==→eq domain_id i e) h in
      rw
        (
          open_count-append i table (refresh_task task_id domain_id now),
          refresh_of_other i task_id domain_id now,
          e,
          empty,
        )
        (omega arith)
  | inr e ↦
      rw
        (
          open_count-append i table (refresh_task task_id domain_id now),
          refresh_of_other i task_id domain_id now,
          e,
        )
        (omega (arith, one i))
]

-- A round of the loop that creates a task, from the end of the loop.
pub created_by :
    (task : Task) (o : Option (List Task × List Task)) (r : List Task × List Task)
    → option_map (with_created task) o ≡ some r
    → (r' : List Task × List Task) × (o ≡ some r') × (r'.0 ≡ r.0)
created_by task none r h = absurd (cc)
created_by task (some r') r h = (r', refl, (λ i. (some-injective (with_created task r') r h i).0))

module _ (ids : ℕ → ℕ) (now : ℕ) where
  -- What holds of the table, and stays when a task is added for a domain of the list that has no
  -- open one, holds when the loop ends.
  pub create_refresh_tasks-Kept {ℓ} :
      (P : List Task → Type ℓ) (ds : List ℕ) (table : List Task) (r : List Task × List Task)
      → ((d : ℕ) (table : List Task)
          → Memᴰ d ds
          → open_count d table ≡ 0
          → P table
          → P (table ++ refresh_task (ids d) d now ∷ []))
      → create_refresh_tasks now (with_ids ids ds) table ≡ some r
      → P table
      → P r.0
  unfolding create_refresh_tasks
  create_refresh_tasks-Kept P [] table r step h p =
      subst P (λ i. (some-injective (table, []) r h i).0) p
  create_refresh_tasks-Kept P (d ∷ ds) table r step h p = elim (query_cases table d) [
    | inl (e, empty) ↦
        let (r', f, same) = created_by _ _ r (rw e at h) in
        subst P same (
          create_refresh_tasks-Kept P ds _ r' (λ x t m. step x t (Memᴰ.tail m)) f
            (step d table (Memᴰ.head refl) empty p))
    | inr (inl (t, e, one)) ↦
        create_refresh_tasks-Kept P ds table r (λ x t m. step x t (Memᴰ.tail m)) (rw e at h) p
    | inr (inr (e, many)) ↦ absurd (cc (rw e at h))
  ]

  -- If no domain has two open refresh tasks, the loop comes to its end,
  pub create_refresh_tasks-ends :
      (ds : List ℕ) (table : List Task)
      → OneOpen table
      → (r : List Task × List Task) × (create_refresh_tasks now (with_ids ids ds) table ≡ some r)
  unfolding create_refresh_tasks
  create_refresh_tasks-ends [] table one = ((table, []), refl)
  create_refresh_tasks-ends (d ∷ ds) table one = elim (query_cases table d) [
    | inl (e, empty) ↦
        let (r, f) =
          create_refresh_tasks-ends ds _ (created-OneOpen (ids d) d now table empty one) in
        (with_created (refresh_task (ids d) d now) r, rw (e, f) refl)
    | inr (inl (t, e, open_)) ↦
        let (r, f) = create_refresh_tasks-ends ds table one in (r, rw (e, f) refl)
    | inr (inr (e, many)) ↦ absurd (omega (arith, one d, many))
  ]

  -- and none has afterwards, also when the list of domains repeats one.
  pub create_refresh_tasks-OneOpen :
      (ds : List ℕ) (table : List Task) (r : List Task × List Task)
      → create_refresh_tasks now (with_ids ids ds) table ≡ some r
      → OneOpen table
      → OneOpen r.0
  create_refresh_tasks-OneOpen ds table r h =
      create_refresh_tasks-Kept OneOpen ds table r (λ d t m. created-OneOpen (ids d) d now t) h

  -- An open refresh task stays, and one that is added is there.
  pub still_open :
      (table : List Task) (d i : ℕ)
      → 0 < open_count i table
      → 0 < open_count i (table ++ refresh_task (ids d) d now ∷ [])
  still_open table d i h =
      rw (open_count-append i table (refresh_task (ids d) d now)) (omega (arith, h))

  pub added_open :
      (table : List Task) (d : ℕ) → 0 < open_count d (table ++ refresh_task (ids d) d now ∷ [])
  added_open table d = rw (open_count-append d table (refresh_task (ids d) d now)) (ground arith)

  -- Each domain of the list has an open refresh task afterwards.
  pub create_refresh_tasks-open :
      (ds : List ℕ) (table : List Task) (r : List Task × List Task) (i : ℕ)
      → create_refresh_tasks now (with_ids ids ds) table ≡ some r
      → Memᴰ i ds
      → 0 < open_count i r.0
  unfolding create_refresh_tasks
  create_refresh_tasks-open [] table r i h m = elim m [ ]
  create_refresh_tasks-open (d ∷ ds) table r i h m =
      let stays : (t : List Task) (r : List Task × List Task)
          → create_refresh_tasks now (with_ids ids ds) t ≡ some r
          → 0 < open_count i t
          → 0 < open_count i r.0 =
        λ t r f.
          create_refresh_tasks-Kept (λ t. 0 < open_count i t) ds t r (λ d t m e. still_open t d i)
            f in
      elim (query_cases table d) [
        | inl (e, empty) ↦
            let (r', f, same) = created_by _ _ r (rw e at h) in
            subst (λ t. 0 < open_count i t) same
              (elim m [
                | Memᴰ.head q ↦ stays _ r' f (rw q (added_open table d))
                | Memᴰ.tail n ↦ create_refresh_tasks-open ds _ r' i f n
              ])
        | inr (inl (t, e, one)) ↦ elim m [
          | Memᴰ.head q ↦ stays table r (rw e at h) (rw q (omega (arith, one)))
          | Memᴰ.tail n ↦ create_refresh_tasks-open ds table r i (rw e at h) n
        ]
        | inr (inr (e, many)) ↦ absurd (cc (rw e at h))
      ]
