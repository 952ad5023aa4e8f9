-- ===== src/System/Added.antt =====
-- Rows that are added to a table whose keys are in order.
use domain_process_e2e.Prelude.{
  ℕ, true, false, List, [], ◌∷◌, ◌++◌, map, ◌<◌, any, ◌≡◌, refl, sym, ap, subst, inl, inr, map-Memᴰ,
  Memᴰ-map, Memᴰ-any, arith, update_where,
}
use mathlib.Core.List.{Memᴰ, map-append}
use domain_process_e2e.Prelude.Distinct.{
  Distinct, append-Distinct, Memᴰ-append, Distinct-unique, update_where-kept,
}
use domain_process_e2e.Text.{Text, text_eq_refl}
use domain_process_e2e.Model.{Domain, Task, IdempotencyRecord}
use domain_process_e2e.Domains.{reactivate}
use domain_process_e2e.Idempotency.{has_key}
use domain_process_e2e.Tasks.Budget.{IsTaskValid, IsTable}
use domain_process_e2e.Routes.Create.{name_of, inactive_ids, has_some_id}
use domain_process_e2e.Routes.Fresh.{task_id, domain_id, IsNew}
use domain_process_e2e.System.Schema.{key_of}

-- A row more, under a new key.
pub one_more-Distinct {ℓ κ} :
    {A : Type ℓ} {B : Type κ} (key : A → B) (xs : List A) (x : A)
    → Distinct (map key xs)
    → ¬ Memᴰ (key x) (map key xs)
    → Distinct (map key (xs ++ x ∷ []))
one_more-Distinct key xs x d new = rw (map-append key xs (x ∷ [])) (
    append-Distinct (map key xs) (key x ∷ []) d (λ m. elim m [ ], tt)
      (λ k m n. elim n [
        | Memᴰ.head e ↦ new (subst (λ k. Memᴰ k (map key xs)) e m)
        | Memᴰ.tail k ↦ elim k [ ]
      ]))

pub IsNew-valid :
    (max_attempts : ℕ) (fresh : ℕ → ℕ) (j : ℕ) (Q : ℕ → Type 0) (t : Task)
    → 0 < max_attempts
    → IsNew fresh j Q t
    → IsTaskValid max_attempts t
IsNew-valid max_attempts fresh j Q t some_tries new = record {
  within = omega (arith, new.attempts);
  waits = λ e. omega (arith, new.attempts);
  unleased = λ e. new.lease;
  leased = λ e. elim new.status [ inl f ↦ absurd (cc (e, f)) | inr f ↦ absurd (cc (e, f)) ];
  counted = λ e. elim new.status [ inl f ↦ absurd (cc (e, f)) | inr f ↦ absurd (cc (e, f)) ];
}

-- Valid rows under new ids can be added.
pub append-IsTable :
    (max_attempts : ℕ) (table new : List Task)
    → IsTable max_attempts table
    → Distinct (map task_id new)
    → ((t : Task) → Memᴰ t new → IsTaskValid max_attempts t)
    → ((t : Task) → Memᴰ t new → ¬ Memᴰ t.id (map task_id table))
    → IsTable max_attempts (table ++ new)
append-IsTable max_attempts table new h distinct valid apart = record {
  unique = λ s t m n e. elim (Memᴰ-append table new m) [
    | inl old ↦ elim (Memᴰ-append table new n) [
      | inl old' ↦ h.unique s t old old' e
      | inr late ↦
          absurd
            (apart t late (subst (λ i. Memᴰ i (map task_id table)) e (Memᴰ-map task_id table old)))
    ]
    | inr late ↦ elim (Memᴰ-append table new n) [
      | inl old ↦ absurd (
          apart s late
            (subst (λ i. Memᴰ i (map task_id table)) (sym e) (Memᴰ-map task_id table old)))
      | inr late' ↦ Distinct-unique task_id new distinct late late' e
    ]
  ];
  rows = λ t m. elim (Memᴰ-append table new m) [ inl old ↦ h.rows t old | inr late ↦ valid t late ];
}

-- A free key is none of the keys of the table.
pub free_key :
    (table : List IdempotencyRecord) (r : IdempotencyRecord)
    → any (has_key r.client_id r.idempotency_key) table ≡ false
    → ¬ Memᴰ (key_of r) (map key_of table)
free_key table r free m =
    let (s, n, e) = map-Memᴰ key_of table m in
    let client : s.client_id ≡ r.client_id = ap (λ (k : Text × Text). k.0) (sym e) in
    let key : s.idempotency_key ≡ r.idempotency_key = ap (λ (k : Text × Text). k.1) (sym e) in
    let hit : has_key r.client_id r.idempotency_key s ≡ true =
      rw (client, key, text_eq_refl r.client_id, text_eq_refl r.idempotency_key) refl in
    absurd (cc (free, Memᴰ-any (has_key r.client_id r.idempotency_key) table n hit))

pub reactivated-ids :
    (vs : List Domain) (now : ℕ) (table : List Domain)
    → map domain_id (update_where (has_some_id (inactive_ids vs)) (reactivate now) table)
      ≡ map domain_id table
reactivated-ids vs now table = update_where-kept domain_id _ (reactivate now) table (λ d. refl)

pub reactivated-names :
    (vs : List Domain) (now : ℕ) (table : List Domain)
    → map name_of (update_where (has_some_id (inactive_ids vs)) (reactivate now) table)
      ≡ map name_of table
reactivated-names vs now table = update_where-kept name_of _ (reactivate now) table (λ d. refl)
