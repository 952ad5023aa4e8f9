-- ===== src/Normalization/Dedup.antt =====
-- `deduplicate_domains` keeps the first of the inputs with one key, in order.
use domain_process_e2e.Prelude.{
  true, false, List, [], ◌∷◌, if◌then◌else◌, ◌≡◌, ◌⊎◌, refl, any, map, arith, sym, ◌∙◌, ap,
  Bool-cases, inl, inr, subst, any_cases,
}
use mathlib.Core.List.{Memᴰ}
use domain_process_e2e.Text.{Text, text_eq, text_eq→eq}
use domain_process_e2e.Normalization.{
  Unicode, normalize_domain, dedup_key, dedup_value, dedup_from, deduplicate_domains,
}
use domain_process_e2e.Normalization.Idempotent.{normalize_domain_idempotent}

-- No text is equal to one of `seen` or to one further down.
abbrev pub Distinct : List Text → List Text → Type 0
Distinct seen [] = Unit
Distinct seen (v ∷ vs) = (any (text_eq v) seen ≡ false) × Distinct (v ∷ seen) vs

shift :
    {k y : Text} {seen rest : List Text}
    → Memᴰ k (y ∷ seen) ⊎ Memᴰ k rest
    → Memᴰ k seen ⊎ Memᴰ k (y ∷ rest)
shift (inl (Memᴰ.head q)) = inr (Memᴰ.head q)
shift (inl (Memᴰ.tail m)) = inl m
shift (inr m) = inr (Memᴰ.tail m)

module _ (u : Unicode) where
  -- The inputs that are kept.
  kept : List Text → List Text → List Text
  kept seen [] = []
  kept seen (d ∷ ds) =
      let skip = kept seen ds in
      let keep = d ∷ kept (dedup_key u d ∷ seen) ds in
      if any (text_eq (dedup_key u d)) seen then skip else keep

  dedup_from-kept :
      (seen ds : List Text) → dedup_from u seen ds ≡ map (dedup_value u) (kept seen ds)
  unfolding dedup_from kept
  dedup_from-kept seen [] = refl
  dedup_from-kept seen (d ∷ ds) =
      ground (arith, dedup_from-kept seen ds, dedup_from-kept (dedup_key u d ∷ seen) ds)

  -- The keys of what is kept are pairwise distinct, and new.
  kept-Distinct : (seen ds : List Text) → Distinct seen (map (dedup_key u) (kept seen ds))
  unfolding kept
  kept-Distinct seen [] = tt
  kept-Distinct seen (d ∷ ds) = elim (Bool-cases (any (text_eq (dedup_key u d)) seen)) [
    | inl e ↦ rw e (kept-Distinct seen ds)
    | inr e ↦ rw e (e, kept-Distinct (dedup_key u d ∷ seen) ds)
  ]

  -- Each input's key was seen before or is the key of something kept.
  kept-covers :
      (seen ds : List Text) (d : Text)
      → Memᴰ d ds
      → Memᴰ (dedup_key u d) seen ⊎ Memᴰ (dedup_key u d) (map (dedup_key u) (kept seen ds))
  unfolding kept
  kept-covers seen [] d m = elim m [ ]
  kept-covers seen (x ∷ ds) d (Memᴰ.head q) =
      elim (Bool-cases (any (text_eq (dedup_key u x)) seen)) [
        | inl e ↦
            let (y, m, same) = any_cases (text_eq (dedup_key u x)) seen e in
            inl (
              subst (λ k. Memᴰ k seen)
                (sym (ap (dedup_key u) q ∙ text_eq→eq (dedup_key u x) y same)) m)
        | inr e ↦ rw e (inr (Memᴰ.head (ap (dedup_key u) q)))
      ]
  kept-covers seen (x ∷ ds) d (Memᴰ.tail n) =
      elim (Bool-cases (any (text_eq (dedup_key u x)) seen)) [
        | inl e ↦ rw e (kept-covers seen ds d n)
        | inr e ↦ rw e (shift (kept-covers (dedup_key u x ∷ seen) ds d n))
      ]

  dedup_key_valid :
      (d : Text)
      → (normalize_domain u d).is_valid ≡ true
      → dedup_key u d ≡ (normalize_domain u d).value
  unfolding dedup_key
  dedup_key_valid d h = rw h

  dedup_value_valid :
      (d : Text)
      → (normalize_domain u d).is_valid ≡ true
      → dedup_value u d ≡ (normalize_domain u d).value
  unfolding dedup_value
  dedup_value_valid d h = rw h

  dedup_value_invalid : (d : Text) → (normalize_domain u d).is_valid ≡ false → dedup_value u d ≡ d
  unfolding dedup_value
  dedup_value_invalid d h = rw h

  -- What is kept has the key of the input that it stands for.
  dedup_key-dedup_value : (d : Text) → dedup_key u (dedup_value u d) ≡ dedup_key u d
  dedup_key-dedup_value d = elim (Bool-cases (normalize_domain u d).is_valid) [
    | inl e ↦ valid_case e
    | inr e ↦ ap (dedup_key u) (dedup_value_invalid d e)
  ]
    where
      valid_case :
          (normalize_domain u d).is_valid ≡ true → dedup_key u (dedup_value u d) ≡ dedup_key u d
      valid_case e =
          let v : Text = (normalize_domain u d).value in
          let same = normalize_domain_idempotent u d e in
          rw (dedup_value_valid d e) (
            dedup_key_valid v (ap (λ r. r.is_valid) same ∙ e)
            ∙ ap (λ r. r.value) same
            ∙ sym (dedup_key_valid d e))

  map-key-value :
      (ds : List Text) → map (dedup_key u) (map (dedup_value u) ds) ≡ map (dedup_key u) ds
  map-key-value [] = refl
  map-key-value (d ∷ ds) = cc (dedup_key-dedup_value d, map-key-value ds)

  keys :
      (ds : List Text)
      → map (dedup_key u) (deduplicate_domains u ds) ≡ map (dedup_key u) (kept [] ds)
  unfolding deduplicate_domains
  keys ds = rw (dedup_from-kept [] ds) (map-key-value (kept [] ds))

  -- No two texts of the result have the same key.
  pub deduplicate_domains-Distinct :
      (ds : List Text) → Distinct [] (map (dedup_key u) (deduplicate_domains u ds))
  deduplicate_domains-Distinct ds = rw (keys ds) (kept-Distinct [] ds)

  -- The key of every input is the key of a text of the result.
  pub deduplicate_domains-covers :
      (ds : List Text) (d : Text)
      → Memᴰ d ds
      → Memᴰ (dedup_key u d) (map (dedup_key u) (deduplicate_domains u ds))
  deduplicate_domains-covers ds d m = elim (kept-covers [] ds d m) [
    | inl n ↦ elim n [ ]
    | inr n ↦ rw (keys ds) n
  ]
