-- ===== src/Tasks/Claim.antt =====
-- What a claim and a recovery select, and what they write.
use domain_process_e2e.Prelude.{
  ℕ, ◌+◌, min, Bool, true, false, not, ◌&&◌, List, some, length, take, filter, ◌≡◌, ◌≢◌, refl,
  arith, Memᴰ-filter, map-Memᴰ, take-drop-Memᴰ, length-take, length-map, and_true, inl, inr, ◌⊎◌,
  sym, ap, ◌∙◌,
}
use mathlib.Core.List.{Memᴰ}
use domain_process_e2e.Prelude.Sort.{sort, Memᴰ-sort, length-sort, sort-Sorted, take-drop-leq}
use domain_process_e2e.Tasks.Rows.{
  Written, same, written, write_back-Written, selected_any, select-Memᴰ,
}
use mathlib.Core.Bool.{false≢true}
use domain_process_e2e.Model.{TaskStatus, pending, processing, Task}
use domain_process_e2e.Tasks.{
  is_pending, is_claimable, all_types, claim, claim_leq, select_for_update, claim_tasks,
}

claim_leq_total : (s t : Task) → claim_leq s t ≡ false → claim_leq t s ≡ true
claim_leq_total s t h = ground arith

claim_leq_trans :
    (r s t : Task) → claim_leq r s ≡ true → claim_leq s t ≡ true → claim_leq r t ≡ true
claim_leq_trans r s t h k = ground arith

-- What the claim hands to the caller about one task.
pub record IsClaimOf (lease now : ℕ) (locked : ℕ → Bool) (table : List Task) (c : Task)
    : Type 0 where
  pub row : Task
  pub in_table : Memᴰ row table
  pub was_pending : row.status ≡ pending
  pub was_free : locked row.id ≡ false
  pub same_task : (c.id ≡ row.id) × (c.job_id ≡ row.job_id) × (c.domain_id ≡ row.domain_id)
  pub is_processing : c.status ≡ processing
  pub is_leased : c.lease_expires_at ≡ some lease
  pub counted : c.attempts ≡ row.attempts + 1

-- A task that a claim returns has a row in the table that was PENDING and not locked, and is that
-- task, PROCESSING, under the given lease and with one more attempt.
pub claim_tasks-IsClaimOf :
    (limit lease now : ℕ) (locked : ℕ → Bool) (table : List Task) {c : Task}
    → Memᴰ c (claim_tasks limit lease now locked table).1
    → IsClaimOf lease now locked table c
unfolding claim_tasks
claim_tasks-IsClaimOf limit lease now locked table {c} m =
    let (row, n, e) =
      map-Memᴰ (claim lease now) (select_for_update (is_claimable all_types) limit locked table)
        m in
    let (old, claimable, free) = select-Memᴰ (is_claimable all_types) limit locked table n in
    rw e (record {
      row = row;
      in_table = old;
      was_pending = pending_of row.status (and_true (is_pending row.status) _ claimable).0;
      was_free = free;
      same_task = unfold claim in (refl, refl, refl);
      is_processing = unfold claim in refl;
      is_leased = unfold claim in refl;
      counted = unfold claim in refl;
    })
  where
    pending_of : (s : TaskStatus) → is_pending s ≡ true → s ≡ pending
    pending_of s h = ground arith

-- Of two claims that run at once, if the rows of the first are locked for the second, no task is
-- claimed by both, whatever the second one's view of the table.
pub claim_tasks_disjoint :
    (limit₁ limit₂ lease₁ lease₂ now₁ now₂ : ℕ) (locked₁ locked₂ : ℕ → Bool)
    (table₁ table₂ : List Task) {c d : Task}
    → ((t : Task) → Memᴰ t (claim_tasks limit₁ lease₁ now₁ locked₁ table₁).1 → locked₂ t.id ≡ true)
    → Memᴰ c (claim_tasks limit₁ lease₁ now₁ locked₁ table₁).1
    → Memᴰ d (claim_tasks limit₂ lease₂ now₂ locked₂ table₂).1
    → c.id ≢ d.id
claim_tasks_disjoint limit₁ limit₂ lease₁ lease₂ now₁ now₂ locked₁ locked₂ table₁ table₂ {c} {d}
      held m n e =
    let k = claim_tasks-IsClaimOf limit₂ lease₂ now₂ locked₂ table₂ n in
    let same : c.id ≡ k.row.id = e ∙ k.same_task.0 in cc (held c m, ap locked₂ same, k.was_free)

-- A row of the new table whose task was claimed is PROCESSING.
claimed_row :
    (lease now : ℕ) (selected table : List Task) {t c : Task}
    → Memᴰ c selected
    → c.id ≡ t.id
    → Written (claim lease now) selected table t
    → t.status ≡ processing
claimed_row lease now selected table {t} {c} n e (same m h) =
    absurd (false≢true (sym h ∙ selected_any t selected n e))
claimed_row lease now selected table n e (written row m h q) =
    ap (λ (t : Task). t.status) q ∙ unfold claim in refl

claim_id : (lease now : ℕ) (t : Task) → (claim lease now t).id ≡ t.id
unfolding claim
claim_id lease now t = refl

-- A claim from the table that another claim leaves returns none of the tasks of that claim.
pub claim_tasks_once :
    (limit₁ limit₂ lease₁ lease₂ now₁ now₂ : ℕ) (locked₁ locked₂ : ℕ → Bool) (table : List Task)
    {c d : Task}
    → Memᴰ c (claim_tasks limit₁ lease₁ now₁ locked₁ table).1
    → Memᴰ d
        (claim_tasks limit₂ lease₂ now₂ locked₂ (claim_tasks limit₁ lease₁ now₁ locked₁ table).0).1
    → c.id ≢ d.id
unfolding claim_tasks
claim_tasks_once limit₁ limit₂ lease₁ lease₂ now₁ now₂ locked₁ locked₂ table {c} {d} m n e =
    let selected = select_for_update (is_claimable all_types) limit₁ locked₁ table in
    let (s, chosen, q) = map-Memᴰ (claim lease₁ now₁) selected m in
    let k =
      claim_tasks-IsClaimOf limit₂ lease₂ now₂ locked₂
        (claim_tasks limit₁ lease₁ now₁ locked₁ table).0 n in
    let same_id : s.id ≡ k.row.id =
      sym (claim_id lease₁ now₁ s) ∙ sym (ap (λ (t : Task). t.id) q) ∙ e ∙ k.same_task.0 in
    let now_processing =
      claimed_row lease₁ now₁ selected table chosen same_id
        (write_back-Written (claim lease₁ now₁) selected table k.in_table) in
    cc (now_processing, k.was_pending)

is_eligible :
    (t : Task) (locked : ℕ → Bool)
    → t.status ≡ pending
    → locked t.id ≡ false
    → (is_claimable all_types t && not (locked t.id)) ≡ true
is_eligible t locked p free = ground arith

-- A PENDING row that is not locked is selected for the claim, or every selected row is before it in
-- the order by type, creation time and id.
pub claim_tasks_in_order :
    (limit : ℕ) (locked : ℕ → Bool) (table : List Task) (t : Task)
    → Memᴰ t table
    → t.status ≡ pending
    → locked t.id ≡ false
    → Memᴰ t (select_for_update (is_claimable all_types) limit locked table)
      ⊎ ((s : Task)
          → Memᴰ s (select_for_update (is_claimable all_types) limit locked table)
          → claim_leq s t ≡ true)
unfolding select_for_update
claim_tasks_in_order limit locked table t m p free =
    let chosen = filter (λ t. is_claimable all_types t && not (locked t.id)) table in
    let here : Memᴰ t chosen = Memᴰ-filter _ table m (is_eligible t locked p free) in
    elim (take-drop-Memᴰ limit (sort claim_leq chosen) (Memᴰ-sort claim_leq chosen here)) [
      | inl k ↦ inl k
      | inr k ↦ inr (λ s n.
          take-drop-leq claim_leq limit (sort claim_leq chosen)
            (sort-Sorted claim_leq claim_leq_total claim_leq_trans chosen) n k)
    ]

-- The number of claimed tasks is the limit, or the number of claimable rows that are not locked if
-- that is less.
pub claim_tasks_fills :
    (limit lease now : ℕ) (locked : ℕ → Bool) (table : List Task)
    → length (claim_tasks limit lease now locked table).1
      ≡ min limit (length (filter (λ t. is_claimable all_types t && not (locked t.id)) table))
unfolding claim_tasks select_for_update
claim_tasks_fills limit lease now locked table =
    let chosen = filter (λ t. is_claimable all_types t && not (locked t.id)) table in
    omega (
      arith,
      length-map (claim lease now) (take limit (sort claim_leq chosen)),
      length-take limit (sort claim_leq chosen),
      length-sort claim_leq chosen,
    )
