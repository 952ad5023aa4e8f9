-- ===== src/Routes/Names.antt =====
-- Which names of a request survive the deduplication: every valid one.
use domain_process_e2e.Prelude.{
  true, false, List, [], ◌∷◌, map, any, ◌≡◌, refl, sym, ap, ◌∙◌, subst, inl, inr, Bool-cases,
  Memᴰ-filter, filter-Memᴰ, Memᴰ-map, map-Memᴰ,
}
use mathlib.Core.List.{Memᴰ}
use domain_process_e2e.Text.{Text, text_eq, text_eq→eq}
use domain_process_e2e.Normalization.{
  Unicode, NormalizedDomain, normalize_domain, dedup_key, dedup_value, dedup_from,
  deduplicate_domains,
}
use domain_process_e2e.Normalization.Idempotent.{normalize_domain_idempotent}
use domain_process_e2e.Routes.Create.{value_of, valid_domains, final_valid}
use domain_process_e2e.Routes.Dict.{keep_found-Memᴰ, dict_get-hit}

module _ (u : Unicode) where
  -- A text that is its own normal form, and valid.
  abbrev Normal : Text → Type 0
  Normal v = ((normalize_domain u v).is_valid ≡ true) × ((normalize_domain u v).value ≡ v)

  dedup_from-Memᴰ :
      (seen vs : List Text) (v : Text)
      → ((w : Text) → Memᴰ w vs → Normal w)
      → Memᴰ v vs
      → any (text_eq v) seen ≡ false
      → Memᴰ v (dedup_from u seen vs)
  unfolding dedup_from dedup_key dedup_value
  dedup_from-Memᴰ seen [] v normal m h = elim m [ ]
  dedup_from-Memᴰ seen (w ∷ vs) v normal (Memᴰ.head q) h =
      let (good, same) = normal w (Memᴰ.head refl) in
      let new : any (text_eq w) seen ≡ false = rw q at h in rw (good, same, new) (Memᴰ.head q)
  dedup_from-Memᴰ seen (w ∷ vs) v normal (Memᴰ.tail n) h =
      let (good, same) = normal w (Memᴰ.head refl) in
      let later = λ (x : Text) (m : Memᴰ x vs). normal x (Memᴰ.tail m) in
      elim (Bool-cases (any (text_eq w) seen)) [
        | inl e ↦ rw (good, same, e) (dedup_from-Memᴰ seen vs v later n h)
        | inr e ↦
            rw (good, same, e)
              (elim (Bool-cases (text_eq v w)) [
                | inl f ↦ Memᴰ.head (text_eq→eq v w f)
                | inr f ↦ Memᴰ.tail (dedup_from-Memᴰ (w ∷ seen) vs v later n (rw (f, h) refl))
              ])
      ]

  valid-Normal : (ds : List Text) (w : Text) → Memᴰ w (map value_of (valid_domains u ds)) → Normal w
  unfolding valid_domains
  valid-Normal ds w m =
      let (r, n, e) = map-Memᴰ value_of (valid_domains u ds) m in
      let (old, good) =
        filter-Memᴰ (λ (r : NormalizedDomain). r.is_valid) (map (normalize_domain u) ds) n in
      let (d, _, q) = map-Memᴰ (normalize_domain u) ds old in
      let same : normalize_domain u w ≡ normalize_domain u d =
        rw (e, q) (normalize_domain_idempotent u d (rw q at good)) in
      (
        ap (λ (r : NormalizedDomain). r.is_valid) same ∙ (rw q at good),
        ap value_of same ∙ sym (e ∙ ap value_of q),
      )

  -- Every valid name of the request is among those that get a task.
  pub final_valid-Memᴰ :
      (ds : List Text) (d : Text)
      → Memᴰ d ds
      → (normalize_domain u d).is_valid ≡ true
      → Memᴰ (normalize_domain u d).value (map value_of (final_valid u (valid_domains u ds)))
  unfolding valid_domains final_valid deduplicate_domains
  final_valid-Memᴰ ds d m good =
      let valid = valid_domains u ds in
      let v = (normalize_domain u d).value in
      let here : Memᴰ (normalize_domain u d) valid =
        Memᴰ-filter (λ (r : NormalizedDomain). r.is_valid) _ (Memᴰ-map (normalize_domain u) ds m)
          good in
      let kept : Memᴰ v (deduplicate_domains u (map value_of valid)) =
        dedup_from-Memᴰ [] (map value_of valid) v (valid-Normal ds) (Memᴰ-map value_of valid here)
          refl in
      let (r, found, e) =
        keep_found-Memᴰ value_of valid (deduplicate_domains u (map value_of valid)) v kept
          (dict_get-hit value_of valid v here refl) in
      subst (λ w. Memᴰ w (map value_of (final_valid u valid))) e
        (Memᴰ-map value_of (final_valid u valid) found)
