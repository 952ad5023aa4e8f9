-- ===== src/Routes/Dict.antt =====
-- Looking up in the dictionaries of create_job.
use domain_process_e2e.Prelude.{
  ℕ, suc, Bool, true, false, List, [], ◌∷◌, ◌++◌, if◌then◌else◌, Option, none, some, is_some,
  length, ◌≡◌, refl, sym, ap, ◌∙◌, ◌⊎◌, inl, inr, arith, Bool-cases,
}
use mathlib.Core.List.{Memᴰ, append_assoc}
use mathlib.Core.Option.{some-injective}
use domain_process_e2e.Text.{Text, text_eq, text_eq_refl, text_eq→eq}
use domain_process_e2e.Model.{Domain}
use domain_process_e2e.Domains.{new_domain}
use domain_process_e2e.Routes.Create.{
  dict_get, keep_found, cons_some, domains_of, missing_domains, name_of,
}

is_some→some {ℓ} : {A : Type ℓ} (o : Option A) → is_some o ≡ true → (a : A) × (o ≡ some a)
is_some→some none h = absurd (cc)
is_some→some (some a) h = (a, refl)

cons_some-tail {ℓ} :
    {A : Type ℓ} (o : Option A) {x : A} {xs : List A} → Memᴰ x xs → Memᴰ x (cons_some o xs)
cons_some-tail none m = m
cons_some-tail (some y) m = Memᴰ.tail m

pub in_front {ℓ} : {A : Type ℓ} (xs ys : List A) {x : A} → Memᴰ x xs → Memᴰ x (xs ++ ys)
in_front [] ys m = elim m [ ]
in_front (x ∷ xs) ys (Memᴰ.head e) = Memᴰ.head e
in_front (x ∷ xs) ys (Memᴰ.tail m) = Memᴰ.tail (in_front xs ys m)

pub in_back {ℓ} : {A : Type ℓ} (xs ys : List A) {x : A} → Memᴰ x ys → Memᴰ x (xs ++ ys)
in_back [] ys m = m
in_back (x ∷ xs) ys m = Memᴰ.tail (in_back xs ys m)

module _ {ℓ} {A : Type ℓ} (key : A → Text) where
  got :
      (b : Bool) (later : Option A) (x : A) {y : A}
      → (if is_some later then later else if b then some x else none) ≡ some y
      → (later ≡ some y) ⊎ ((b ≡ true) × (x ≡ y))
  got b (some z) x h = inl h
  got true none x h = inr (refl, some-injective _ _ h)
  got false none x h = absurd (cc)

  -- What is found is an entry, under its key.
  pub dict_get-Memᴰ :
      (xs : List A) (k : Text) {y : A} → dict_get key xs k ≡ some y → Memᴰ y xs × (key y ≡ k)
  dict_get-Memᴰ [] k h = absurd (cc)
  dict_get-Memᴰ (x ∷ xs) k {y} h = elim (got (text_eq (key x) k) (dict_get key xs k) x {y = y} h) [
    | inl later ↦ let (m, e) = dict_get-Memᴰ xs k {y = y} later in (Memᴰ.tail m, e)
    | inr (e, q) ↦ (Memᴰ.head (sym q), sym (ap key q) ∙ text_eq→eq (key x) k e)
  ]

  -- A key that an entry has is found.
  pub dict_get-hit :
      (xs : List A) (k : Text) {x : A} → Memᴰ x xs → key x ≡ k → is_some (dict_get key xs k) ≡ true
  dict_get-hit [] k m e = elim m [ ]
  dict_get-hit (y ∷ xs) k {x} (Memᴰ.head q) e =
      let hit : text_eq (key y) k ≡ true = rw (← e, q) (text_eq_refl (key y)) in ground (arith, hit)
  dict_get-hit (y ∷ xs) k (Memᴰ.tail m) e = let later = dict_get-hit xs k m e in rw later later

  pub dict_get-append :
      (xs ys : List A) (k : Text)
      → is_some (dict_get key xs k) ≡ true
      → is_some (dict_get key (xs ++ ys) k) ≡ true
  dict_get-append [] ys k h = absurd (cc)
  dict_get-append (x ∷ xs) ys k h = ground (arith, dict_get-append xs ys k)

  pub keep_found-Memᴰ :
      (xs : List A) (vs : List Text) (v : Text)
      → Memᴰ v vs
      → is_some (dict_get key xs v) ≡ true
      → (x : A) × Memᴰ x (keep_found (dict_get key xs) vs) × (key x ≡ v)
  keep_found-Memᴰ xs [] v m h = elim m [ ]
  keep_found-Memᴰ xs (w ∷ vs) v (Memᴰ.head q) h =
      let (x, e) = is_some→some (dict_get key xs w) (rw q at h) in
      let (_, same) = dict_get-Memᴰ xs w {y = x} e in rw e (x, Memᴰ.head refl, same ∙ sym q)
  keep_found-Memᴰ xs (w ∷ vs) v (Memᴰ.tail n) h =
      let (x, m, e) = keep_found-Memᴰ xs vs v n h in (x, cons_some-tail (dict_get key xs w) m, e)

-- Every name is found after the loop, in what was there or in what it adds.
pub missing_domains-covers :
    (fresh : ℕ → ℕ) (now : ℕ) (known : List Domain) (names : List Text) (v : Text)
    → Memᴰ v names
    → is_some (dict_get name_of (known ++ missing_domains fresh now known names) v) ≡ true
unfolding missing_domains
missing_domains-covers fresh now known [] v m = elim m [ ]
missing_domains-covers fresh now known (w ∷ names) v m =
    elim (Bool-cases (is_some (dict_get name_of known w))) [
      | inl e ↦ rw e (elim m [
        | Memᴰ.head q ↦ dict_get-append name_of known _ v (rw q e)
        | Memᴰ.tail n ↦ missing_domains-covers fresh now known names v n
      ])
      | inr e ↦ rw e (elim m [
        | Memᴰ.head q ↦
            dict_get-hit name_of _ v {x = new_domain (fresh 0) w now}
              (in_back known _ (Memᴰ.head refl)) (sym q)
        | Memᴰ.tail n ↦
            rw
              (sym (
                append_assoc known (new_domain (fresh 0) w now ∷ []) (
                  missing_domains (λ i. fresh (suc i)) now
                    (known ++ new_domain (fresh 0) w now ∷ []) names)))
              (missing_domains-covers (λ i. fresh (suc i)) now
                (known ++ new_domain (fresh 0) w now ∷ []) names v n)
      ])
    ]

pub domains_of-total :
    (domain_map : List Domain) (vs : List Text)
    → ((v : Text) → Memᴰ v vs → is_some (dict_get name_of domain_map v) ≡ true)
    → (ds : List Domain) × (domains_of domain_map vs ≡ some ds) × (length ds ≡ length vs)
domains_of-total domain_map [] h = ([], refl, refl)
domains_of-total domain_map (v ∷ vs) h =
    let (d, e) = is_some→some (dict_get name_of domain_map v) (h v (Memᴰ.head refl)) in
    let (ds, q, n) = domains_of-total domain_map vs (λ w m. h w (Memᴰ.tail m)) in
    rw (e, q) (d ∷ ds, refl, ap suc n)
