-- ===== src/System/Rewrites.antt =====
-- A write to the details, or the removal of some, keeps one row for each domain.
use domain_process_e2e.Prelude.{
  ℕ, ◌+◌, Bool, List, map, any, none, ◌≡◌, refl, sym, subst, inl, inr, Bool-cases, Option-cases,
  map-Memᴰ, Memᴰ-map, filter, filter-Memᴰ, ==_refl, [], ◌∷◌, ◌==◌,
}
use mathlib.Core.List.{Memᴰ}
use domain_process_e2e.Prelude.Distinct.{Distinct, update_where-kept}
use domain_process_e2e.Model.{DomainDetail}
use domain_process_e2e.Details.{
  stored, get, at_version, with_values, insert_or_raise, upsert_with_occ,
}
use domain_process_e2e.Domains.{clear_domain_details_batch}
use domain_process_e2e.Routes.CreateJob.{clear_details}
use domain_process_e2e.Pipeline.{Env}
use domain_process_e2e.Pipeline.Keeps.{Stored, untouched, by_others, by_upsert}
use domain_process_e2e.System.{Upserts, no_upsert, then_upsert}
use domain_process_e2e.System.Schema.{domain_of}
use domain_process_e2e.System.Added.{one_more-Distinct}

stored-injective : {a b : List DomainDetail} → stored a ≡ stored b → a ≡ b
stored-injective h = cc

filter-Distinct :
    (p : DomainDetail → Bool) (table : List DomainDetail)
    → Distinct (map domain_of table)
    → Distinct (map domain_of (filter p table))
filter-Distinct p [] d = tt
filter-Distinct p (row ∷ table) (new, d) = elim (Bool-cases (p row)) [
  | inl e ↦ rw e (
    λ m.
        let (x, n, q) = map-Memᴰ domain_of (filter p table) m in
        new (
          subst (λ i. Memᴰ i (map domain_of table)) (sym q)
            (Memᴰ-map domain_of table (filter-Memᴰ p table n).0)),
    filter-Distinct p table d,
  )
  | inr e ↦ rw e (filter-Distinct p table d)
]

pub clear_details-Distinct :
    (ids : List ℕ) (table : List DomainDetail)
    → Distinct (map domain_of table)
    → Distinct (map domain_of (clear_details ids table))
unfolding clear_domain_details_batch
clear_details-Distinct [] table d = d
clear_details-Distinct (i ∷ ids) table d = filter-Distinct _ table d

-- no row for a domain that is not found
get_none : (table : List DomainDetail) (i : ℕ) → get table i ≡ none → ¬ Memᴰ i (map domain_of table)
unfolding get
get_none [] i e m = elim m [ ]
get_none (d ∷ table) i e m = elim (Bool-cases (d.domain_id == i)) [
  | inl f ↦ absurd (cc (rw f at e))
  | inr f ↦ elim m [
    | Memᴰ.head q ↦ absurd (cc (f, ==_refl d.domain_id, q))
    | Memᴰ.tail n ↦ get_none table i (rw f at e) n
  ]
]

upsert_with_occ-Distinct :
    (detail : DomainDetail) (version : ℕ) (table after : List DomainDetail)
    → upsert_with_occ detail version table ≡ stored after
    → Distinct (map domain_of table)
    → Distinct (map domain_of after)
unfolding upsert_with_occ insert_or_raise
upsert_with_occ-Distinct detail version table after h d =
    elim (Bool-cases (any (at_version detail.domain_id version) table)) [
      | inl e ↦
          subst (λ t. Distinct (map domain_of t)) (stored-injective (rw e at h))
            (subst Distinct
              (sym (
                update_where-kept domain_of (at_version detail.domain_id version)
                  (with_values detail (version + 1)) table (λ row. refl)))
              d)
      | inr e ↦ elim (Option-cases (get table detail.domain_id)) [
        | inl f ↦
            subst (λ t. Distinct (map domain_of t)) (stored-injective (rw (e, f) at h))
              (one_more-Distinct domain_of table (record detail { version = 1 }) d
                (get_none table detail.domain_id f))
        | inr (row, f) ↦ absurd (cc (rw (e, f) at h))
      ]
    ]

Upserts-Distinct :
    {before after : List DomainDetail}
    → Upserts before after
    → Distinct (map domain_of before)
    → Distinct (map domain_of after)
Upserts-Distinct no_upsert d = d
Upserts-Distinct (then_upsert {table = table} {after = after} detail version e u) d =
    upsert_with_occ-Distinct detail version table after e (Upserts-Distinct u d)

module _ (env : Env)
    (writes : (i : ℕ) (table : List DomainDetail) → Upserts table (env.others i table)) where
  -- Neither the writes of a run nor those of others add a second row for a domain.
  pub Stored-Distinct :
      {before after : List DomainDetail}
      → Stored env before after
      → Distinct (map domain_of before)
      → Distinct (map domain_of after)
  Stored-Distinct untouched d = d
  Stored-Distinct (by_others {table = table} i s) d =
      Upserts-Distinct (writes i table) (Stored-Distinct s d)
  Stored-Distinct (by_upsert {table = table} {after = after} detail version e s) d =
      upsert_with_occ-Distinct detail version table after e (Stored-Distinct s d)
