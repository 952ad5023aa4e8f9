-- ===== src/Logging/Attributes.antt =====
-- The fields of a payload, and the loop that adds the attributes of a record.
use domain_process_e2e.Prelude.{
  false, ◌||◌, [], ◌∷◌, ◌++◌, Option, none, some, is_some, ◌≡◌, refl, ◌∙◌, inl, inr, Bool-cases,
}
use mathlib.Core.Option.{some-injective}
use domain_process_e2e.Text.{Text, text_eq, text_eq→eq, text_eq_refl}
use domain_process_e2e.Logging.{FieldValue, is_null, Fields, lookup, is_reserved, add_attributes}

-- No key stands twice.
abbrev pub DistinctKeys : Fields → Type 0
DistinctKeys [] = Unit
DistinctKeys ((k, v) ∷ fields) = (lookup k fields ≡ none) × DistinctKeys fields

pub lookup-front :
    (k : Text) (xs ys : Fields) (v : FieldValue)
    → lookup k xs ≡ some v
    → lookup k (xs ++ ys) ≡ some v
unfolding lookup
lookup-front k [] ys v h = absurd (cc)
lookup-front k ((l, w) ∷ xs) ys v h = elim (Bool-cases (text_eq l k)) [
  | inl e ↦ rw e (rw e at h)
  | inr e ↦ rw e (lookup-front k xs ys v (rw e at h))
]

pub lookup-back :
    (k : Text) (xs ys : Fields) → lookup k xs ≡ none → lookup k (xs ++ ys) ≡ lookup k ys
unfolding lookup
lookup-back k [] ys h = refl
lookup-back k ((l, w) ∷ xs) ys h = elim (Bool-cases (text_eq l k)) [
  | inl e ↦ absurd (cc (rw e at h))
  | inr e ↦ rw e (lookup-back k xs ys (rw e at h))
]

-- A field more, under a new key.
pub one_more-DistinctKeys :
    (xs : Fields) (k : Text) (v : FieldValue)
    → DistinctKeys xs
    → lookup k xs ≡ none
    → DistinctKeys (xs ++ (k, v) ∷ [])
unfolding lookup
one_more-DistinctKeys [] k v d h = (refl, tt)
one_more-DistinctKeys ((l, w) ∷ xs) k v (new, d) h = elim (Bool-cases (text_eq l k)) [
  | inl e ↦ absurd (cc (rw e at h))
  | inr e ↦
      (lookup-back l xs ((k, v) ∷ []) new ∙ other l k e, one_more-DistinctKeys xs k v d (rw e at h))
]
  where
    other : (l k : Text) → text_eq l k ≡ false → lookup l ((k, v) ∷ []) ≡ none
    other l k e = elim (Bool-cases (text_eq k l)) [
      | inl f ↦ absurd (cc (e, text_eq_refl k, text_eq→eq k l f))
      | inr f ↦ rw f refl
    ]

is_some-none : (o : Option FieldValue) → is_some o ≡ false → o ≡ none
is_some-none none h = refl
is_some-none (some v) h = absurd (cc)

-- What holds of a payload, and of one with an attribute more under a new key that is not reserved,
-- holds after the loop.
pub by_attributes {ℓ} :
    (P : Fields → Type ℓ)
    → ((k : Text) (v : FieldValue) (payload : Fields)
        → lookup k payload ≡ none
        → is_reserved k ≡ false
        → P payload
        → P (payload ++ (k, v) ∷ []))
    → (attributes payload : Fields) → P payload
    → P (add_attributes attributes payload)
unfolding add_attributes
by_attributes P more [] payload h = h
by_attributes P more ((k, v) ∷ attributes) payload h = elim (Bool-cases (is_reserved k)) [
  | inl e ↦ rw e (by_attributes P more attributes payload h)
  | inr e ↦ elim (Bool-cases (is_some (lookup k payload))) [
    | inl f ↦ rw (e, f) (by_attributes P more attributes payload h)
    | inr f ↦ elim (Bool-cases (is_null v)) [
      | inl g ↦ rw (e, f, g) (by_attributes P more attributes payload h)
      | inr g ↦
          rw (e, f, g)
            (by_attributes P more attributes (payload ++ (k, v) ∷ [])
              (more k v payload (is_some-none (lookup k payload) f) e h))
    ]
  ]
]

pub add_attributes-kept :
    (attributes payload : Fields) (k : Text) (v : FieldValue)
    → lookup k payload ≡ some v
    → lookup k (add_attributes attributes payload) ≡ some v
add_attributes-kept attributes payload k v =
    by_attributes (λ p. lookup k p ≡ some v) (λ l w p new free h. lookup-front k p _ v h) attributes
      payload

-- An attribute whose key is neither reserved nor in the payload gets in, unless it is None.
pub gets_in :
    (attributes payload : Fields) (k : Text) (v : FieldValue)
    → lookup k attributes ≡ some v
    → is_null v ≡ false
    → is_reserved k ≡ false
    → lookup k payload ≡ none
    → lookup k (add_attributes attributes payload) ≡ some v
unfolding lookup add_attributes
gets_in [] payload k v h value free new = absurd (cc)
gets_in ((l, w) ∷ attributes) payload k v h value free new = elim (Bool-cases (text_eq l k)) [
  | inl e ↦
      let same : l ≡ k = text_eq→eq l k e in
      let this : w ≡ v = some-injective w v (rw e at h) in
      let own : lookup k ((k, v) ∷ []) ≡ some v = rw (text_eq_refl k) refl in
      rw (same, this, free, new, value)
        (add_attributes-kept attributes (payload ++ (k, v) ∷ []) k v
          (lookup-back k payload _ new ∙ own))
  | inr e ↦
      let later : lookup k attributes ≡ some v = rw e at h in
      let still : lookup k (payload ++ (l, w) ∷ []) ≡ none =
        lookup-back k payload _ new ∙ rw e refl in
      elim (Bool-cases (is_reserved l || is_some (lookup l payload) || is_null w)) [
        | inl f ↦ rw f (gets_in attributes payload k v later value free new)
        | inr f ↦ rw f (gets_in attributes (payload ++ (l, w) ∷ []) k v later value free still)
      ]
]
