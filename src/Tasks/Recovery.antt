-- ===== src/Tasks/Recovery.antt =====
-- What the recovery of expired leases hands back.
use domain_process_e2e.Prelude.{
  ℕ, zero, suc, ◌+◌, ◌<◌, ◌^◌, ◌≤◌, Bool, true, List, none, any, leb, if◌then◌else◌, ◌≡◌, refl,
  subst, arith, map-Memᴰ, Memᴰ-map, Bool-cases, inl, inr, ◌⊎◌,
}
use mathlib.Core.List.{Memᴰ}
use domain_process_e2e.Model.{Task, TaskType, user_request, refresh, processing, failed}
use domain_process_e2e.Tasks.{
  type_eq, is_claimable, all_types, has_id, is_expired, select_for_update, write_back,
  backoff_delay, recover, recover_expired_tasks,
}
use domain_process_e2e.Tasks.Rows.{select-Memᴰ, selected_any}

-- The attempts are used up, and the task has failed.
abbrev pub IsExhausted : ℕ → Task → Task → Type 0
IsExhausted max_attempts row c = (max_attempts ≤ row.attempts) × (c.status ≡ failed)

-- There are attempts left, and the task can be claimed at once, whatever its `next_attempt_at`,
-- which is half a minute to 61 minutes ahead.
abbrev pub IsRetried : ℕ → ℕ → Task → Task → Type 0
IsRetried max_attempts later row c =
    (row.attempts < max_attempts)
    × (is_claimable all_types c ≡ true)
    × (later + 30 ≤ c.next_attempt_at)
    × (c.next_attempt_at ≤ later + 3660)

-- What is known of a task that the recovery returns.
pub record IsRecovered (max_attempts later : ℕ) (table table' : List Task) (c : Task) : Type 0 where
  pub row : Task
  pub in_table : Memᴰ row table
  pub was_processing : row.status ≡ processing
  pub in_new_table : Memᴰ c table'
  pub same_task : (c.id ≡ row.id) × (c.attempts ≡ row.attempts) × (c.lease_expires_at ≡ none)
  pub outcome : IsExhausted max_attempts row c ⊎ IsRetried max_attempts later row c

power_positive : (n : ℕ) → 1 ≤ 2 ^ n
power_positive zero = omega arith
power_positive (suc n) = omega (arith, power_positive n)

backoff_delay_bounds : (n : ℕ) → (30 ≤ backoff_delay n) × (backoff_delay n ≤ 3600)
unfolding backoff_delay
backoff_delay_bounds zero = (omega arith, omega arith)
backoff_delay_bounds (suc n) = (omega (arith, power_positive n), omega arith)

in_written :
    (f : Task → Task) (selected table : List Task) {t : Task}
    → Memᴰ t table
    → Memᴰ t selected
    → Memᴰ (f t) (write_back f selected table)
unfolding write_back
in_written f selected table {t} m n =
    let chosen = selected_any t selected n refl in
    subst (λ s. Memᴰ s (write_back f selected table)) (rw chosen refl)
      (Memᴰ-map (λ t. if any (has_id t.id) selected then f t else t) table m)

any_type : (t : TaskType) → any (type_eq t) all_types ≡ true
any_type user_request = refl
any_type refresh = refl

recover_outcome :
    (max_attempts : ℕ) (jitter : ℕ → ℕ) (later : ℕ) (t : Task)
    → jitter t.id ≤ 60
    → IsExhausted max_attempts t (recover max_attempts jitter later t)
      ⊎ IsRetried max_attempts later t (recover max_attempts jitter later t)
unfolding recover
recover_outcome max_attempts jitter later t short =
    elim (Bool-cases (leb max_attempts t.attempts)) [
      | inl e ↦ rw e (inl (ground arith, refl))
      | inr e ↦
          let (low, high) = backoff_delay_bounds t.attempts in
          rw e (
            inr (
              ground arith,
              any_type t.type,
              omega (arith, low, high, short),
              omega (arith, low, high, short),
            ))
    ]

recover_same :
    (max_attempts : ℕ) (jitter : ℕ → ℕ) (later : ℕ) (t : Task)
    → let c = recover max_attempts jitter later t in
      (c.id ≡ t.id) × (c.attempts ≡ t.attempts) × (c.lease_expires_at ≡ none)
unfolding recover
recover_same max_attempts jitter later t = ground arith

expired_processing : (now : ℕ) (t : Task) → is_expired now t ≡ true → t.status ≡ processing
expired_processing now t h = ground arith

-- A task that the recovery returns is in the new table and was PROCESSING in the old one. It keeps
-- its attempts, which are not counted up, and has no lease. If they are used up it has failed; if
-- not it can be claimed at once, though its next attempt is put off by 30 to 3660 seconds. The
-- jitter is at most 60.
pub recover_expired_tasks-IsRecovered :
    (max_attempts : ℕ) (jitter : ℕ → ℕ) (limit now later : ℕ) (locked : ℕ → Bool)
    (table : List Task) {c : Task}
    → ((i : ℕ) → jitter i ≤ 60)
    → Memᴰ c (recover_expired_tasks max_attempts jitter limit now later locked table).1
    → IsRecovered max_attempts later table
        (recover_expired_tasks max_attempts jitter limit now later locked table).0
        c
unfolding recover_expired_tasks
recover_expired_tasks-IsRecovered max_attempts jitter limit now later locked table {c} short m =
    let selected = select_for_update (is_expired now) limit locked table in
    let (row, n, e) = map-Memᴰ (recover max_attempts jitter later) selected m in
    let (old, expired, free) = select-Memᴰ (is_expired now) limit locked table n in
    rw e (record {
      row = row;
      in_table = old;
      was_processing = expired_processing now row expired;
      in_new_table = in_written (recover max_attempts jitter later) selected table old n;
      same_task = recover_same max_attempts jitter later row;
      outcome = recover_outcome max_attempts jitter later row (short row.id);
    })
