-- ===== src/Routes/Missing.antt =====
-- The domains that create_job adds, each under an id of its own and for a new name.
use domain_process_e2e.Prelude.{
  ℕ, suc, true, false, List, [], ◌∷◌, ◌++◌, map, is_some, any, ◌≡◌, refl, sym, ◌∙◌, inl, inr,
  Bool-cases, map-Memᴰ, Memᴰ-filter, Memᴰ-any,
}
use mathlib.Core.List.{Memᴰ}
use domain_process_e2e.Prelude.Distinct.{Distinct}
use domain_process_e2e.Text.{Text, text_eq, text_eq_refl}
use domain_process_e2e.Model.{Domain}
use domain_process_e2e.Domains.{new_domain, get_by_normalized_domains}
use domain_process_e2e.Routes.Create.{name_of, dict_get, missing_domains}
use domain_process_e2e.Routes.Dict.{dict_get-hit, dict_get-append, in_back}
use domain_process_e2e.Routes.Fresh.{IsInjective, domain_id, later, later-IsInjective, first_new}

-- A domain that the loop adds: under one of the ids, and for a name that was asked and not found.
pub record IsMissing (fresh : ℕ → ℕ) (known : List Domain) (names : List Text) (d : Domain)
    : Type 0 where
  pub number : ℕ
  pub id : d.id ≡ fresh number
  pub asked : Memᴰ d.normalized_domain names
  pub unknown : is_some (dict_get name_of known d.normalized_domain) ≡ false

unknown_before :
    (known added : List Domain) (name : Text)
    → is_some (dict_get name_of (known ++ added) name) ≡ false
    → is_some (dict_get name_of known name) ≡ false
unknown_before known added name h = elim (Bool-cases (is_some (dict_get name_of known name))) [
  | inl e ↦ absurd (cc (h, dict_get-append name_of known added name e))
  | inr e ↦ e
]

pub missing_domains-IsMissing :
    (fresh : ℕ → ℕ) (now : ℕ) (known : List Domain) (names : List Text) (d : Domain)
    → Memᴰ d (missing_domains fresh now known names)
    → IsMissing fresh known names d
unfolding missing_domains
missing_domains-IsMissing fresh now known [] d m = elim m [ ]
missing_domains-IsMissing fresh now known (w ∷ names) d m =
    elim (Bool-cases (is_some (dict_get name_of known w))) [
      | inl e ↦
          let r = missing_domains-IsMissing fresh now known names d (rw e at m) in
          record { number = r.number; id = r.id; asked = Memᴰ.tail r.asked; unknown = r.unknown }
      | inr e ↦
          let n : Memᴰ d (
              new_domain (fresh 0) w now
              ∷ missing_domains (later fresh) now (known ++ new_domain (fresh 0) w now ∷ [])
                  names) =
            rw e at m in
          elim n [
            | Memᴰ.head q ↦
                rw q (record { number = 0; id = refl; asked = Memᴰ.head refl; unknown = e })
            | Memᴰ.tail k ↦
                let r =
                  missing_domains-IsMissing (later fresh) now
                    (known ++ new_domain (fresh 0) w now ∷ []) names d k in
                record {
                  number = suc r.number;
                  id = r.id;
                  asked = Memᴰ.tail r.asked;
                  unknown = unknown_before known _ d.normalized_domain r.unknown;
                }
          ]
    ]

pub missing_domains-Distinct :
    (fresh : ℕ → ℕ) (now : ℕ) (known : List Domain) (names : List Text)
    → IsInjective fresh
    → Distinct (map domain_id (missing_domains fresh now known names))
      × Distinct (map name_of (missing_domains fresh now known names))
unfolding missing_domains
missing_domains-Distinct fresh now known [] one = (tt, tt)
missing_domains-Distinct fresh now known (w ∷ names) one =
    elim (Bool-cases (is_some (dict_get name_of known w))) [
      | inl e ↦ rw e (missing_domains-Distinct fresh now known names one)
      | inr e ↦
          let known1 = known ++ new_domain (fresh 0) w now ∷ [] in
          let rest = missing_domains (later fresh) now known1 names in
          let (ids, its_names) =
            missing_domains-Distinct (later fresh) now known1 names (later-IsInjective fresh one) in
          rw e (
            (
              λ m.
                  let (d, n, q) = map-Memᴰ domain_id rest m in
                  let r = missing_domains-IsMissing (later fresh) now known1 names d n in
                  first_new fresh r.number one (q ∙ r.id),
              ids,
            ),
            (
              λ m.
                  let (d, n, q) = map-Memᴰ name_of rest m in
                  let r = missing_domains-IsMissing (later fresh) now known1 names d n in
                  absurd (
                    cc (
                      r.unknown,
                      dict_get-hit name_of known1 d.normalized_domain
                          {x = new_domain (fresh 0) w now} (in_back known _ (Memᴰ.head refl)) q,
                    )),
              its_names,
            ),
          )
    ]

-- A name that a domain of the table has is found, so no domain is added for it.
pub missing_domains-new_name :
    (fresh : ℕ → ℕ) (now : ℕ) (table : List Domain) (names : List Text) (x : Text)
    → Memᴰ x (map name_of table)
    → ¬ Memᴰ x
        (map name_of (missing_domains fresh now (get_by_normalized_domains table names) names))
unfolding get_by_normalized_domains
missing_domains-new_name fresh now table names x old m =
    let known = get_by_normalized_domains table names in
    let (d, n, q) = map-Memᴰ name_of table old in
    let (e, k, p) = map-Memᴰ name_of (missing_domains fresh now known names) m in
    let r = missing_domains-IsMissing fresh now known names e k in
    let same : e.normalized_domain ≡ d.normalized_domain = sym p ∙ q in
    let asked : any (text_eq d.normalized_domain) names ≡ true =
      Memᴰ-any (text_eq d.normalized_domain) names r.asked
        (rw same (text_eq_refl d.normalized_domain)) in
    let there =
      Memᴰ-filter (λ (d : Domain). any (text_eq d.normalized_domain) names) table n asked in
    absurd (cc (r.unknown, dict_get-hit name_of known e.normalized_domain {x = d} there (sym same)))
