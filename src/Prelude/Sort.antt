-- ===== src/Prelude/Sort.antt =====
-- ORDER BY, as insertion sort by a Boolean order.
use domain_process_e2e.Prelude.Tests.{if◌then◌else◌, Bool-cases}
use domain_process_e2e.Prelude.Lists.{all, filter, length, take, drop, all-Memᴰ, drop-Memᴰ}
use Prim.Native.Nat.{ℕ, zero, suc}
use mathlib.Core.Path.{◌≡◌, refl, ap, ◌∙◌}
use mathlib.Core.Logic.{◌⊎◌, inl, inr}
use mathlib.Core.Bool.{Bool, true, false, ◌&&◌}
use mathlib.Core.List.{List, [], ◌∷◌, Memᴰ}
use native.Mathlib.Omega.{arith}

module _ {ℓ} {A : Type ℓ} (leq : A → A → Bool) where
  unfoldable pub insert : A → List A → List A
  insert x [] = x ∷ []
  insert x (y ∷ ys) = let later = y ∷ insert x ys in if leq x y then x ∷ y ∷ ys else later

  unfoldable pub sort : List A → List A
  unfolding insert
  sort [] = []
  sort (x ∷ xs) = insert x (sort xs)

  -- Each element comes before all that follow it.
  abbrev pub Sorted : List A → Type 0
  Sorted [] = Unit
  Sorted (x ∷ xs) = (all (leq x) xs ≡ true) × Sorted xs

  insert-Memᴰ-if :
      (b : Bool) (x y : A) {z : A} {ys zs : List A}
      → (Memᴰ z zs → (z ≡ x) ⊎ Memᴰ z ys)
      → Memᴰ z (if b then x ∷ y ∷ ys else y ∷ zs)
      → (z ≡ x) ⊎ Memᴰ z (y ∷ ys)
  insert-Memᴰ-if true x y ih (Memᴰ.head e) = inl e
  insert-Memᴰ-if true x y ih (Memᴰ.tail m) = inr m
  insert-Memᴰ-if false x y ih (Memᴰ.head e) = inr (Memᴰ.head e)
  insert-Memᴰ-if false x y ih (Memᴰ.tail m) = elim (ih m) [
    | inl e ↦ inl e
    | inr n ↦ inr (Memᴰ.tail n)
  ]

  insert-Memᴰ : (x : A) {z : A} (ys : List A) → Memᴰ z (insert x ys) → (z ≡ x) ⊎ Memᴰ z ys
  unfolding insert
  insert-Memᴰ x [] (Memᴰ.head e) = inl e
  insert-Memᴰ x [] (Memᴰ.tail m) = inr m
  insert-Memᴰ x (y ∷ ys) m = insert-Memᴰ-if (leq x y) x y (insert-Memᴰ x ys) m

  pub sort-Memᴰ : {z : A} (xs : List A) → Memᴰ z (sort xs) → Memᴰ z xs
  unfolding sort
  sort-Memᴰ [] m = m
  sort-Memᴰ (x ∷ xs) m = elim (insert-Memᴰ x (sort xs) m) [
    | inl e ↦ Memᴰ.head e
    | inr n ↦ Memᴰ.tail (sort-Memᴰ xs n)
  ]

  Memᴰ-insert : (x : A) {z : A} (ys : List A) → (z ≡ x) ⊎ Memᴰ z ys → Memᴰ z (insert x ys)
  unfolding insert
  Memᴰ-insert x [] (inl e) = Memᴰ.head e
  Memᴰ-insert x [] (inr m) = Memᴰ.tail m
  Memᴰ-insert x {z} (y ∷ ys) h = elim (Bool-cases (leq x y)) [
    | inl e ↦ rw e (front h)
    | inr e ↦ rw e (back h (λ k. Memᴰ-insert x ys k))
  ]
    where
      front : (z ≡ x) ⊎ Memᴰ z (y ∷ ys) → Memᴰ z (x ∷ y ∷ ys)
      front (inl e) = Memᴰ.head e
      front (inr m) = Memᴰ.tail m

      back :
          (z ≡ x) ⊎ Memᴰ z (y ∷ ys)
          → ((z ≡ x) ⊎ Memᴰ z ys → Memᴰ z (insert x ys))
          → Memᴰ z (y ∷ insert x ys)
      back (inl e) ih = Memᴰ.tail (ih (inl e))
      back (inr (Memᴰ.head e)) ih = Memᴰ.head e
      back (inr (Memᴰ.tail m)) ih = Memᴰ.tail (ih (inr m))

  pub Memᴰ-sort : {z : A} (xs : List A) → Memᴰ z xs → Memᴰ z (sort xs)
  unfolding sort
  Memᴰ-sort [] m = m
  Memᴰ-sort (x ∷ xs) (Memᴰ.head e) = Memᴰ-insert x (sort xs) (inl e)
  Memᴰ-sort (x ∷ xs) (Memᴰ.tail m) = Memᴰ-insert x (sort xs) (inr (Memᴰ-sort xs m))

  all-insert : (p : A → Bool) (x : A) (ys : List A) → all p (insert x ys) ≡ (p x && all p ys)
  unfolding insert
  all-insert p x [] = refl
  all-insert p x (y ∷ ys) = ground (arith, all-insert p x ys)

  pub all-sort : (p : A → Bool) (xs : List A) → all p (sort xs) ≡ all p xs
  unfolding sort
  all-sort p [] = refl
  all-sort p (x ∷ xs) = all-insert p x (sort xs) ∙ ap (λ b. p x && b) (all-sort p xs)

  length-insert : (x : A) (ys : List A) → length (insert x ys) ≡ suc (length ys)
  unfolding insert
  length-insert x [] = refl
  length-insert x (y ∷ ys) = ground (arith, length-insert x ys)

  pub length-sort : (xs : List A) → length (sort xs) ≡ length xs
  unfolding sort
  length-sort [] = refl
  length-sort (x ∷ xs) = length-insert x (sort xs) ∙ ap suc (length-sort xs)

  all-filter : (p q : A → Bool) (xs : List A) → all q xs ≡ true → all q (filter p xs) ≡ true
  all-filter p q [] h = refl
  all-filter p q (x ∷ xs) h = ground (arith, all-filter p q xs)

  insert_first : (x : A) (ys : List A) → all (leq x) ys ≡ true → insert x ys ≡ x ∷ ys
  unfolding insert
  insert_first x [] h = refl
  insert_first x (y ∷ ys) h = ground arith

  sort-if :
      (b : Bool) (x : A) (zs : List A)
      → (if b then insert x (sort zs) else sort zs) ≡ sort (if b then x ∷ zs else zs)
  unfolding sort
  sort-if true x zs = refl
  sort-if false x zs = refl

  -- Of a sorted list, what is taken comes before what is left.
  pub take-drop-leq :
      (n : ℕ) {a b : A} (xs : List A)
      → Sorted xs
      → Memᴰ a (take n xs)
      → Memᴰ b (drop n xs)
      → leq a b ≡ true
  take-drop-leq zero xs s m k = elim m [ ]
  take-drop-leq (suc n) [] s m k = elim m [ ]
  take-drop-leq (suc n) {a} {b} (x ∷ xs) (h, s) (Memᴰ.head e) k =
      rw e (all-Memᴰ (leq x) xs h (drop-Memᴰ n xs k))
  take-drop-leq (suc n) (x ∷ xs) (h, s) (Memᴰ.tail m) k = take-drop-leq n xs s m k

  -- For a total preorder.
  module _ (total : (x y : A) → leq x y ≡ false → leq y x ≡ true)
      (trans : (x y z : A) → leq x y ≡ true → leq y z ≡ true → leq x z ≡ true) where
    all_trans :
        (x y : A) (zs : List A) → leq x y ≡ true → all (leq y) zs ≡ true → all (leq x) zs ≡ true
    all_trans x y [] e h = refl
    all_trans x y (z ∷ zs) e h = ground (arith, trans x y z, all_trans x y zs)

    insert-Sorted : (x : A) (ys : List A) → Sorted ys → Sorted (insert x ys)
    unfolding insert
    insert-Sorted x [] s = (refl, tt)
    insert-Sorted x (y ∷ ys) (h, s) = elim (Bool-cases (leq x y)) [
      | inl e ↦ rw e (ground (arith, all_trans x y ys e h), (h, s))
      | inr e ↦ rw e (ground (arith, all-insert (leq y) x ys, total x y e), insert-Sorted x ys s)
    ]

    pub sort-Sorted : (xs : List A) → Sorted (sort xs)
    unfolding sort
    sort-Sorted [] = tt
    sort-Sorted (x ∷ xs) = insert-Sorted x (sort xs) (sort-Sorted xs)

    filter-insert :
        (p : A → Bool) (x : A) (ys : List A)
        → Sorted ys
        → filter p (insert x ys) ≡ (if p x then insert x (filter p ys) else filter p ys)
    unfolding insert
    filter-insert p x [] s = ground arith
    filter-insert p x (y ∷ ys) (h, s) = elim (Bool-cases (leq x y)) [
      | inl e ↦
          let all_after : all (leq x) (filter p (y ∷ ys)) ≡ true =
            all-filter p (leq x) (y ∷ ys) (ground (arith, all_trans x y ys e h)) in
          ground (arith, insert_first x (filter p (y ∷ ys)) all_after)
      | inr e ↦ ground (arith, filter-insert p x ys s)
    ]

    -- Filtering commutes with sorting.
    pub filter-sort : (p : A → Bool) (xs : List A) → filter p (sort xs) ≡ sort (filter p xs)
    unfolding sort
    filter-sort p [] = refl
    filter-sort p (x ∷ xs) =
        filter-insert p x (sort xs) (sort-Sorted xs)
        ∙ rw (filter-sort p xs) (sort-if (p x) x (filter p xs))
