-- ===== src/Domains.antt =====
-- src/domain_processing_service/repositories/domain.py. `fresh` is the id that uuid4 gives.
use domain_process_e2e.Prelude.{
  ℕ, Bool, true, false, not, List, [], ◌∷◌, ◌++◌, ◌==◌, if◌then◌else◌, Option, none, some, is_some,
  find, filter, any, update_where,
}
use domain_process_e2e.Text.{Text, text_eq}
use domain_process_e2e.Model.{Domain, DomainDetail}
use domain_process_e2e.Tasks.{or_keep, or_keep_option}

unfoldable pub create_batch : List Domain → List Domain → List Domain
create_batch table domains = table ++ domains

unfoldable pub get : List Domain → ℕ → Option Domain
get table domain_id = find (λ d. d.id == domain_id) table

unfoldable pub get_by_normalized_domain : List Domain → Text → Option Domain
get_by_normalized_domain table name = find (λ d. text_eq d.normalized_domain name) table

unfoldable pub get_by_normalized_domains : List Domain → List Text → List Domain
get_by_normalized_domains table names = filter (λ d. any (text_eq d.normalized_domain) names) table

abbrev pub new_domain : ℕ → Text → ℕ → Domain
new_domain fresh name now = record {
  id = fresh;
  normalized_domain = name;
  is_active = true;
  deactivated_at = none;
  created_at = now;
  updated_at = now;
}

abbrev or_create : ℕ → Text → ℕ → List Domain → Option Domain → List Domain × Domain
or_create fresh name now table none =
    (table ++ new_domain fresh name now ∷ [], new_domain fresh name now)
or_create fresh name now table (some domain) = (table, domain)

unfoldable pub get_or_create : ℕ → Text → ℕ → List Domain → List Domain × Domain
unfolding get_by_normalized_domain
get_or_create fresh name now table =
    or_create fresh name now table (get_by_normalized_domain table name)

-- update: the new table, and whether there is such a domain
unfoldable pub update : ℕ → Option Bool → Option ℕ → ℕ → List Domain → List Domain × Bool
unfolding get
update domain_id is_active deactivated_at now table =
    if is_some (get table domain_id)
    then (
      update_where (λ d. d.id == domain_id)
          (λ d. record d {
            is_active = or_keep is_active d.is_active;
            deactivated_at = or_keep_option deactivated_at d.deactivated_at;
            updated_at = now;
          })
          table,
      true,
    )
    else (table, false)

abbrev pub reactivate : ℕ → Domain → Domain
reactivate now d = record d { is_active = true; deactivated_at = none; updated_at = now }

-- the domain found, reactivated if it was inactive
unfoldable pub reactivate_found :
    ℕ → Text → ℕ → List Domain → Option Domain → List Domain × Domain × Bool
reactivate_found fresh name now table none =
    (table ++ new_domain fresh name now ∷ [], new_domain fresh name now, false)
reactivate_found fresh name now table (some domain) =
    if not domain.is_active
    then (update_where (λ d. d.id == domain.id) (reactivate now) table, reactivate now domain, true)
    else (table, domain, false)

unfoldable pub get_or_create_with_reactivation :
    ℕ → Text → ℕ → List Domain → List Domain × Domain × Bool
unfolding get_by_normalized_domain reactivate_found
get_or_create_with_reactivation fresh name now table =
    reactivate_found fresh name now table (get_by_normalized_domain table name)

-- clear_domain_details_batch; clear_domain_detail is the list of one id
unfoldable pub clear_domain_details_batch : List ℕ → List DomainDetail → List DomainDetail
clear_domain_details_batch domain_ids details =
    filter (λ (x : DomainDetail). not (any (λ i. i == x.domain_id) domain_ids)) details
