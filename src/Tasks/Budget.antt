-- ===== src/Tasks/Budget.antt =====
-- The attempt budget and the leases: what holds of every row of the table, and that each statement
-- of the repository keeps it.
use domain_process_e2e.Prelude.{
  ℕ, ◌≤◌, ◌<◌, Bool, true, List, ◌==◌, if◌then◌else◌, none, is_some, any, map, ◌≡◌, refl, arith,
  Bool-cases, inl, inr, sym, ap, ◌∙◌, any_cases, ==→eq, subst, map-Memᴰ,
}
use domain_process_e2e.Tasks
use mathlib.Core.List.{Memᴰ}
use mathlib.Core.Bool.{false≢true}
use domain_process_e2e.Model.{pending, processing, Task}
use domain_process_e2e.Tasks.{
  is_pending, is_claimable, all_types, claim, claim_leq, select_for_update, write_back, claim_tasks,
  is_expired, recover, recover_expired_tasks, has_id, lease_before, backoff_delay,
}
use domain_process_e2e.Tasks.Rows.{Written, same, written, write_back-Written, select-Memᴰ}

-- A task that waits has attempts left and no lease; one that is being processed has been counted
-- and holds a lease; no task has more than `max_attempts` attempts.
pub record IsTaskValid (max_attempts : ℕ) (t : Task) : Type 0 where
  pub within : t.attempts ≤ max_attempts
  pub waits : t.status ≡ pending → t.attempts < max_attempts
  pub unleased : t.status ≡ pending → t.lease_expires_at ≡ none
  pub leased : t.status ≡ processing → is_some t.lease_expires_at ≡ true
  pub counted : t.status ≡ processing → 0 < t.attempts

-- `id` is the primary key.
pub record IsTable (max_attempts : ℕ) (table : List Task) : Type 0 where
  pub unique : (s t : Task) → Memᴰ s table → Memᴰ t table → s.id ≡ t.id → s ≡ t
  pub rows : (t : Task) → Memᴰ t table → IsTaskValid max_attempts t

claimable_pending : (t : Task) → is_claimable all_types t ≡ true → t.status ≡ pending
claimable_pending t h = ground arith

module _ (max_attempts : ℕ) where
  recover_id : (jitter : ℕ → ℕ) (now : ℕ) (t : Task) → (recover max_attempts jitter now t).id ≡ t.id
  unfolding recover
  recover_id jitter now t = ground arith

  -- A write to selected rows that keeps ids and is right on each of them keeps the table right.
  pub write_back-IsTable :
      (f : Task → Task) (selected table : List Task)
      → ((t : Task) → (f t).id ≡ t.id)
      → ((t : Task) → Memᴰ t selected → Memᴰ t table)
      → ((t : Task) → Memᴰ t selected → IsTaskValid max_attempts t → IsTaskValid max_attempts (f t))
      → IsTable max_attempts table
      → IsTable max_attempts (write_back f selected table)
  write_back-IsTable f selected table keeps_id inside right h = record {
    unique = λ s t m n e.
        unique_after (write_back-Written f selected table m) (write_back-Written f selected table n)
          e;
    rows = λ t m. row_after t (write_back-Written f selected table m);
  }
    where
      row_after : (t : Task) → Written f selected table t → IsTaskValid max_attempts t
      row_after t (same m _) = h.rows t m
      row_after t (written row m hit e) =
          let (c, n, q) = any_cases (has_id row.id) selected hit in
          let is_c : c ≡ row = h.unique c row (inside c n) m (==→eq c.id row.id q) in
          rw e (right row (subst (λ x. Memᴰ x selected) is_c n) (h.rows row m))

      unique_after :
          {s t : Task}
          → Written f selected table s
          → Written f selected table t
          → s.id ≡ t.id
          → s ≡ t
      unique_after {s} {t} (same m k) (same n l) e = h.unique s t m n e
      unique_after {s} {t} (same m k) (written row n l q) e = absurd (
          false≢true (
            sym k
            ∙ ap (λ i. any (has_id i) selected) (e ∙ ap (λ (t : Task). t.id) q ∙ keeps_id row)
            ∙ l))
      unique_after {s} {t} (written row m k p) (same n l) e = absurd (
          false≢true (
            sym l
            ∙ ap (λ i. any (has_id i) selected) (sym e ∙ ap (λ (t : Task). t.id) p ∙ keeps_id row)
            ∙ k))
      unique_after {s} {t} (written row m k p) (written row' n l q) e =
          let same_row : row ≡ row' = h.unique row row' m n (
            sym (keeps_id row)
            ∙ sym (ap (λ (t : Task). t.id) p)
            ∙ e
            ∙ ap (λ (t : Task). t.id) q
            ∙ keeps_id row') in
          p ∙ ap f same_row ∙ sym q

  claim-IsTaskValid :
      (lease now : ℕ) (t : Task)
      → t.status ≡ pending
      → IsTaskValid max_attempts t
      → IsTaskValid max_attempts (claim lease now t)
  unfolding claim
  claim-IsTaskValid lease now t p h = ground (arith, h.waits p)

  -- A claim keeps the table valid: ids unique, attempts within the budget, leases where they
  -- belong.
  pub claim_tasks-IsTable :
      (limit lease now : ℕ) (locked : ℕ → Bool) (table : List Task)
      → IsTable max_attempts table
      → IsTable max_attempts (claim_tasks limit lease now locked table).0
  unfolding claim_tasks
  claim_tasks-IsTable limit lease now locked table h =
      let selected = select_for_update (is_claimable all_types) limit locked table in
      write_back-IsTable (claim lease now) selected table (unfold claim in λ t. refl)
        (λ t m. (select-Memᴰ (is_claimable all_types) limit locked table m).0)
        (λ t m v.
          claim-IsTaskValid lease now t
            (claimable_pending t (select-Memᴰ (is_claimable all_types) limit locked table m).1) v)
        h

  recover-IsTaskValid :
      (jitter : ℕ → ℕ) (now : ℕ) (t : Task)
      → IsTaskValid max_attempts t
      → IsTaskValid max_attempts (recover max_attempts jitter now t)
  unfolding recover
  recover-IsTaskValid jitter now t h = ground arith

  -- The recovery of expired leases keeps the table valid: ids unique, attempts within the budget,
  -- leases where they belong.
  pub recover_expired_tasks-IsTable :
      (jitter : ℕ → ℕ) (limit now later : ℕ) (locked : ℕ → Bool) (table : List Task)
      → IsTable max_attempts table
      → IsTable max_attempts
          (recover_expired_tasks max_attempts jitter limit now later locked table).0
  unfolding recover_expired_tasks
  recover_expired_tasks-IsTable jitter limit now later locked table h =
      let selected = select_for_update (is_expired now) limit locked table in
      write_back-IsTable (recover max_attempts jitter later) selected table
        (recover_id jitter later) (λ t m. (select-Memᴰ (is_expired now) limit locked table m).0)
        (λ t m v. recover-IsTaskValid jitter later t v) h

  -- A write to every row that keeps ids and is right on the rows of the table.
  map-IsTable :
      (g : Task → Task) (table : List Task)
      → ((t : Task) → (g t).id ≡ t.id)
      → ((t : Task) → Memᴰ t table → IsTaskValid max_attempts t → IsTaskValid max_attempts (g t))
      → IsTable max_attempts table
      → IsTable max_attempts (map g table)
  map-IsTable g table keeps_id right h = record {
    unique = λ s t m n e.
        let (row, old, p) = map-Memᴰ g table m in
        let (row', old', q) = map-Memᴰ g table n in
        let same_id : row.id ≡ row'.id =
          sym (keeps_id row)
          ∙ sym (ap (λ (t : Task). t.id) p)
          ∙ e
          ∙ ap (λ (t : Task). t.id) q
          ∙ keeps_id row' in
        p ∙ ap g (h.unique row row' old old' same_id) ∙ sym q;
    rows = λ t m.
        let (row, old, q) = map-Memᴰ g table m in
        subst (IsTaskValid max_attempts) (sym q) (right row old (h.rows row old));
  }

  if_id :
      (f : Task → Task) (task_id : ℕ)
      → ((t : Task) → (f t).id ≡ t.id)
      → (t : Task) → (if t.id == task_id then f t else t).id ≡ t.id
  if_id f task_id keeps_id t = elim (Bool-cases (t.id == task_id)) [
    | inl e ↦ rw e (keeps_id t)
    | inr e ↦ rw e
  ]

  if_valid :
      (f : Task → Task) (task_id : ℕ) (t : Task)
      → (t.id ≡ task_id → IsTaskValid max_attempts (f t))
      → IsTaskValid max_attempts t
      → IsTaskValid max_attempts (if t.id == task_id then f t else t)
  if_valid f task_id t right v = elim (Bool-cases (t.id == task_id)) [
    | inl e ↦ simp e (right (==→eq t.id task_id e))
    | inr e ↦ simp e v
  ]

  -- A write to one row.
  pub update-IsTable :
      (f : Task → Task) (task_id : ℕ) (table : List Task)
      → ((t : Task) → (f t).id ≡ t.id)
      → ((t : Task)
          → Memᴰ t table
          → t.id ≡ task_id
          → IsTaskValid max_attempts t
          → IsTaskValid max_attempts (f t))
      → IsTable max_attempts table
      → IsTable max_attempts (Tasks.update f task_id table)
  unfolding Tasks.update
  update-IsTable f task_id table keeps_id right h =
      map-IsTable (λ (t : Task). if t.id == task_id then f t else t) table
        (if_id f task_id keeps_id) (λ t m v. if_valid f task_id t (λ e. right t m e v) v) h
