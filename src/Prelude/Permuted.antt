-- ===== src/Prelude/Permuted.antt =====
-- Sorting by an antisymmetric order forgets the order of the list.
use mathlib.Core.Path.{◌≡◌, refl, sym, ap, ◌∙◌}
use mathlib.Core.Bool.{Bool, true, false}
use mathlib.Core.Logic.{inl, inr}
use mathlib.Core.List.{List, [], ◌∷◌, Permᴰ, map}
use domain_process_e2e.Prelude.Lists.{length}
use native.Mathlib.Omega.{arith}
use domain_process_e2e.Prelude.Tests.{Bool-cases}
use domain_process_e2e.Prelude.Sort.{insert, sort}

module _ {ℓ} {A : Type ℓ} (leq : A → A → Bool)
    (total : (x y : A) → leq x y ≡ false → leq y x ≡ true)
    (trans : (x y z : A) → leq x y ≡ true → leq y z ≡ true → leq x z ≡ true)
    (antisym : (x y : A) → leq x y ≡ true → leq y x ≡ true → x ≡ y) where
  insert_before :
      (x y : A) (zs : List A)
      → leq x y ≡ true
      → leq y x ≡ false
      → insert leq x (insert leq y zs) ≡ insert leq y (insert leq x zs)
  unfolding insert
  insert_before x y [] e f = rw (e, f) refl
  insert_before x y (z ∷ zs) e f = elim (Bool-cases (leq y z)) [
    | inl g ↦ rw (g, e, trans x y z e g, f, g) refl
    | inr g ↦ elim (Bool-cases (leq x z)) [
      | inl h ↦ rw (g, h, f, g) refl
      | inr h ↦ rw (g, h, g) (ap (◌∷◌ z) (insert_before x y zs e f))
    ]
  ]

  insert_comm :
      (x y : A) (zs : List A) → insert leq x (insert leq y zs) ≡ insert leq y (insert leq x zs)
  insert_comm x y zs = elim (Bool-cases (leq x y)) [
    | inl e ↦ elim (Bool-cases (leq y x)) [
      | inl f ↦ rw (antisym x y e f) refl
      | inr f ↦ insert_before x y zs e f
    ]
    | inr e ↦ sym (insert_before y x zs (total x y e) e)
  ]

  pub sort-Permᴰ : {xs ys : List A} → Permᴰ xs ys → sort leq xs ≡ sort leq ys
  unfolding sort
  sort-Permᴰ Permᴰ.nil = refl
  sort-Permᴰ (Permᴰ.cons e p) = rw (e, sort-Permᴰ p) refl
  sort-Permᴰ (Permᴰ.swap {l = l} e f) = rw (e, f) (insert_comm _ _ (sort leq l))
  sort-Permᴰ (Permᴰ.trans p q) = sort-Permᴰ p ∙ sort-Permᴰ q

pub map-Permᴰ {ℓ κ} :
    {A : Type ℓ} {B : Type κ} (f : A → B) {xs ys : List A}
    → Permᴰ xs ys
    → Permᴰ (map f xs) (map f ys)
map-Permᴰ f Permᴰ.nil = Permᴰ.nil
map-Permᴰ f (Permᴰ.cons e p) = Permᴰ.cons (ap f e) (map-Permᴰ f p)
map-Permᴰ f (Permᴰ.swap e e') = Permᴰ.swap (ap f e) (ap f e')
map-Permᴰ f (Permᴰ.trans p q) = Permᴰ.trans (map-Permᴰ f p) (map-Permᴰ f q)

pub length-Permᴰ {ℓ} : {A : Type ℓ} {xs ys : List A} → Permᴰ xs ys → length xs ≡ length ys
length-Permᴰ Permᴰ.nil = refl
length-Permᴰ (Permᴰ.cons e p) = omega (arith, length-Permᴰ p)
length-Permᴰ (Permᴰ.swap e e') = refl
length-Permᴰ (Permᴰ.trans p q) = length-Permᴰ p ∙ length-Permᴰ q
