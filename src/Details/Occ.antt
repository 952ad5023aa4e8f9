-- ===== src/Details/Occ.antt =====
-- Optimistic concurrency: a write goes through on the version that was read, and raises that
-- version by one; a second write from the same version is refused.
use domain_process_e2e.Prelude.{
  ℕ, ◌+◌, true, false, List, [], ◌∷◌, ◌++◌, ◌==◌, none, some, any, update_where, ◌≡◌, ◌≢◌, refl,
  arith, Bool-cases, inl, inr, sym, ap, ◌∙◌, subst, ==→eq, ==_refl,
}
use mathlib.Core.Option.{some-injective}
use domain_process_e2e.Model.{DomainDetail}
use domain_process_e2e.Details.{
  of_domain, get, with_values, stored, occ_conflict, at_version, upsert_with_occ,
}

-- `domain_id` is the primary key: no later row is of the same domain.
abbrev pub IsKey : List DomainDetail → Type 0
IsKey [] = Unit
IsKey (d ∷ ds) = (any (of_domain d.domain_id) ds ≡ false) × IsKey ds

no_row_at_version :
    (i v : ℕ) (table : List DomainDetail)
    → any (of_domain i) table ≡ false
    → any (at_version i v) table ≡ false
no_row_at_version i v [] h = refl
no_row_at_version i v (d ∷ table) h = ground (arith, no_row_at_version i v table)

-- Only the domain's own row decides whether the statement updates anything.
any-at_version :
    (i v : ℕ) (table : List DomainDetail) {row : DomainDetail}
    → IsKey table
    → get table i ≡ some row
    → any (at_version i v) table ≡ (row.version == v)
unfolding get
any-at_version i v [] k h = absurd (cc)
any-at_version i v (d ∷ table) {row} (fresh, k) h = elim (Bool-cases (of_domain i d)) [
  | inl e ↦
      let own : d.domain_id ≡ i = ==→eq d.domain_id i e in
      let none_left =
        no_row_at_version i v table (subst (λ j. any (of_domain j) table ≡ false) own fresh) in
      let is_d : d ≡ row = some-injective d row (rw e at h) in
      rw (e, none_left, ← is_d) (ground arith)
  | inr e ↦ rw e (any-at_version i v table k (rw e at h))
]

get-update_where :
    (i v : ℕ) (f : DomainDetail → DomainDetail) (table : List DomainDetail) {row : DomainDetail}
    → ((d : DomainDetail) → (f d).domain_id ≡ d.domain_id)
    → get table i ≡ some row
    → (row.version == v) ≡ true
    → get (update_where (at_version i v) f table) i ≡ some (f row)
unfolding get
get-update_where i v f [] keeps h e = absurd (cc)
get-update_where i v f (d ∷ table) {row} keeps h e =
    ground (arith, keeps d, get-update_where i v f table {row = row} keeps)

any-update_where :
    (i j v : ℕ) (f : DomainDetail → DomainDetail) (table : List DomainDetail)
    → ((d : DomainDetail) → (f d).domain_id ≡ d.domain_id)
    → any (of_domain j) (update_where (at_version i v) f table) ≡ any (of_domain j) table
any-update_where i j v f [] keeps = refl
any-update_where i j v f (d ∷ table) keeps =
    ground (arith, keeps d, any-update_where i j v f table keeps)

update_where-IsKey :
    (i v : ℕ) (f : DomainDetail → DomainDetail) (table : List DomainDetail)
    → ((d : DomainDetail) → (f d).domain_id ≡ d.domain_id)
    → IsKey table
    → IsKey (update_where (at_version i v) f table)
update_where-IsKey i v f [] keeps k = tt
update_where-IsKey i v f (d ∷ table) keeps (fresh, k) = (
  ground (arith, keeps d, any-update_where i d.domain_id v f table keeps),
  update_where-IsKey i v f table keeps k,
)

get-none :
    (i : ℕ) (table : List DomainDetail) → get table i ≡ none → any (of_domain i) table ≡ false
unfolding get
get-none i [] h = refl
get-none i (d ∷ table) h = ground (arith, get-none i table)

ne→==_false : {a b : ℕ} → a ≢ b → (a == b) ≡ false
ne→==_false n = ground arith

stored_injective : {s t : List DomainDetail} → stored s ≡ stored t → s ≡ t
stored_injective h = cc

module _ (detail : DomainDetail) where
  -- The table after an accepted write from version `v`.
  abbrev pub after_write : ℕ → List DomainDetail → List DomainDetail
  after_write v = update_where (at_version detail.domain_id v) (with_values detail (v + 1))

  -- From the version that the domain's row has, the write goes through, and the row has the new
  -- values at the next version.
  pub upsert_with_occ_current :
      (table : List DomainDetail) (row : DomainDetail)
      → IsKey table
      → get table detail.domain_id ≡ some row
      → (upsert_with_occ detail row.version table ≡ stored (after_write row.version table))
        × (get (after_write row.version table) detail.domain_id
            ≡ some (with_values detail (row.version + 1) row))
  unfolding upsert_with_occ
  upsert_with_occ_current table row k h =
      let hit : any (at_version detail.domain_id row.version) table ≡ true =
        any-at_version detail.domain_id row.version table k h ∙ ==_refl row.version in
      (
        rw hit,
        get-update_where detail.domain_id row.version (with_values detail (row.version + 1)) table
            (λ d. refl) h (==_refl row.version),
      )

  -- From any version but the one that the domain's row has, the write is refused with a conflict.
  pub upsert_with_occ_stale :
      (v : ℕ) (table : List DomainDetail) (row : DomainDetail)
      → IsKey table
      → get table detail.domain_id ≡ some row
      → row.version ≢ v
      → upsert_with_occ detail v table ≡ occ_conflict v row.version
  unfolding upsert_with_occ
  upsert_with_occ_stale v table row k h n =
      let miss : any (at_version detail.domain_id v) table ≡ false =
        any-at_version detail.domain_id v table k h ∙ ne→==_false n in
      rw (miss, h)

  -- For a domain with no row, whatever version is expected, the row is inserted at version 1.
  pub upsert_with_occ_new :
      (v : ℕ) (table : List DomainDetail)
      → get table detail.domain_id ≡ none
      → upsert_with_occ detail v table ≡ stored (table ++ record detail { version = 1 } ∷ [])
  unfolding upsert_with_occ
  upsert_with_occ_new v table h =
      rw (no_row_at_version detail.domain_id v table (get-none detail.domain_id table h), h)

-- Of two writers that read the same version of a domain's row, once the first has stored, the
-- second is refused with a conflict, for a table in which the domain is a key.
pub no_lost_update :
    (first second row : DomainDetail) (table table' : List DomainDetail)
    → IsKey table
    → first.domain_id ≡ second.domain_id
    → get table first.domain_id ≡ some row
    → upsert_with_occ first row.version table ≡ stored table'
    → upsert_with_occ second row.version table' ≡ occ_conflict row.version (row.version + 1)
no_lost_update first second row table table' k same h e =
    let (goes_through, row_after) = upsert_with_occ_current first table row k h in
    let is_after : after_write first row.version table ≡ table' =
      stored_injective (sym goes_through ∙ e) in
    let row' = with_values first (row.version + 1) row in
    let key_after =
      update_where-IsKey first.domain_id row.version (with_values first (row.version + 1)) table
        (λ d. refl) k in
    upsert_with_occ_stale second row.version table' row' (subst IsKey is_after key_after)
      (ap (λ i. get table' i) (sym same)
        ∙ subst (λ t. get t first.domain_id ≡ some row') is_after row_after)
      (omega arith)
