-- ===== src/Details.antt =====
-- src/domain_processing_service/repositories/domain_detail.py: the cached observations, one row for
-- each domain, written under a version check.
pub mod Occ
use domain_process_e2e.Prelude.{
  ℕ, zero, suc, ◌+◌, Bool, true, false, ◌&&◌, List, [], ◌∷◌, ◌++◌, ltb, leb, ◌==◌, if◌then◌else◌,
  Option, none, some, is_some, find, filter, any, take, map, update_where,
}
use domain_process_e2e.Prelude.Sort.{sort}
use domain_process_e2e.Text.{Text}
use domain_process_e2e.Model.{DomainDetail, Domain}

abbrev pub of_domain : ℕ → DomainDetail → Bool
of_domain domain_id d = d.domain_id == domain_id

unfoldable pub create : DomainDetail → List DomainDetail → List DomainDetail
create detail table = table ++ detail ∷ []

unfoldable pub get : List DomainDetail → ℕ → Option DomainDetail
get table domain_id = find (of_domain domain_id) table

-- Every column but the key and the version.
abbrev pub with_values : DomainDetail → ℕ → DomainDetail → DomainDetail
with_values detail version row = record detail { domain_id = row.domain_id; version = version }

-- INSERT … ON CONFLICT DO UPDATE
unfoldable pub upsert : DomainDetail → List DomainDetail → List DomainDetail
unfolding get
upsert detail table =
    if is_some (get table detail.domain_id)
    then update_where (of_domain detail.domain_id) (with_values detail detail.version) table
    else table ++ detail ∷ []

-- What `upsert_with_occ` does to the table: it stores, or raises with the version expected and the
-- version found.
pub data Upsert : Type 0 where
  stored : List DomainDetail → Upsert
  occ_conflict : ℕ → ℕ → Upsert

abbrev pub at_version : ℕ → ℕ → DomainDetail → Bool
at_version domain_id version d = of_domain domain_id d && d.version == version

-- no row was updated
unfoldable pub insert_or_raise : DomainDetail → ℕ → List DomainDetail → Option DomainDetail → Upsert
insert_or_raise detail expected_version table none =
    stored (table ++ record detail { version = 1 } ∷ [])
insert_or_raise detail expected_version table (some existing) =
    occ_conflict expected_version existing.version

unfoldable pub upsert_with_occ : DomainDetail → ℕ → List DomainDetail → Upsert
unfolding insert_or_raise
upsert_with_occ detail expected_version table =
    if any (at_version detail.domain_id expected_version) table
    then stored (
        update_where (at_version detail.domain_id expected_version)
          (with_values detail (expected_version + 1)) table)
    else insert_or_raise detail expected_version table (get table detail.domain_id)

abbrev refresh_leq : DomainDetail → DomainDetail → Bool
refresh_leq d e = leb d.next_refresh_at e.next_refresh_at

unfoldable pub get_stale_domains : ℕ → ℕ → List DomainDetail → List DomainDetail
get_stale_domains limit now table =
    take limit (sort refresh_leq (filter (λ d. leb d.next_refresh_at now) table))

-- Domain.id == DomainDetail.domain_id AND Domain.is_active
abbrev pub is_active_domain : List Domain → DomainDetail → Bool
is_active_domain domains d = any (λ (x : Domain). x.id == d.domain_id && x.is_active) domains

-- the domain ids of the rows; the names are only logged
unfoldable pub get_domains_needing_refresh : ℕ → ℕ → List Domain → List DomainDetail → List ℕ
get_domains_needing_refresh limit now domains table =
    map (λ (d : DomainDetail). d.domain_id)
      (take limit (
        sort refresh_leq
          (filter (λ d. is_active_domain domains d && leb d.next_refresh_at now) table)))
