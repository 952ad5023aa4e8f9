-- ===== src/Prelude/Distinct.antt =====
-- Lists without repetition, for the unique columns of a table.
use mathlib.Core.Path.{◌≡◌, refl, sym, ap, ◌∙◌, subst}
use mathlib.Core.Logic.{◌⊎◌, inl, inr}
use mathlib.Core.Bool.{Bool, true, false}
use mathlib.Core.List.{List, [], ◌∷◌, ◌++◌, map, Memᴰ}
use domain_process_e2e.Prelude.Lists.{update_where, Memᴰ-map}
use domain_process_e2e.Prelude.Tests.{if◌then◌else◌}

module _ {ℓ} {A : Type ℓ} where
  abbrev pub Distinct : List A → Type ℓ
  Distinct [] = Unit
  Distinct (x ∷ xs) = ¬ Memᴰ x xs × Distinct xs

  pub Memᴰ-append : (xs ys : List A) {x : A} → Memᴰ x (xs ++ ys) → Memᴰ x xs ⊎ Memᴰ x ys
  Memᴰ-append [] ys m = inr m
  Memᴰ-append (y ∷ xs) ys (Memᴰ.head e) = inl (Memᴰ.head e)
  Memᴰ-append (y ∷ xs) ys (Memᴰ.tail m) = elim (Memᴰ-append xs ys m) [
    | inl n ↦ inl (Memᴰ.tail n)
    | inr n ↦ inr n
  ]

  pub append-Distinct :
      (xs ys : List A)
      → Distinct xs
      → Distinct ys
      → ((x : A) → Memᴰ x xs → ¬ Memᴰ x ys)
      → Distinct (xs ++ ys)
  append-Distinct [] ys d e apart = e
  append-Distinct (x ∷ xs) ys (new, d) e apart = (
    λ m. elim (Memᴰ-append xs ys m) [ inl n ↦ new n | inr n ↦ apart x (Memᴰ.head refl) n ],
    append-Distinct xs ys d e (λ y m. apart y (Memᴰ.tail m)),
  )

module _ {ℓ κ} {A : Type ℓ} {B : Type κ} (key : A → B) where
  -- Of rows with distinct keys, the key tells which one it is.
  pub Distinct-unique :
      (xs : List A) {x y : A}
      → Distinct (map key xs)
      → Memᴰ x xs
      → Memᴰ y xs
      → key x ≡ key y
      → x ≡ y
  Distinct-unique [] d m n e = elim m [ ]
  Distinct-unique (z ∷ xs) d (Memᴰ.head p) (Memᴰ.head q) e = p ∙ sym q
  Distinct-unique (z ∷ xs) (new, d) (Memᴰ.head p) (Memᴰ.tail n) e =
      absurd (new (subst (λ k. Memᴰ k (map key xs)) (sym e ∙ ap key p) (Memᴰ-map key xs n)))
  Distinct-unique (z ∷ xs) (new, d) (Memᴰ.tail m) (Memᴰ.head q) e =
      absurd (new (subst (λ k. Memᴰ k (map key xs)) (e ∙ ap key q) (Memᴰ-map key xs m)))
  Distinct-unique (z ∷ xs) (new, d) (Memᴰ.tail m) (Memᴰ.tail n) e = Distinct-unique xs d m n e

  -- A write that leaves the key alone.
  pub map-kept :
      (f : A → A) (xs : List A) → ((x : A) → key (f x) ≡ key x) → map key (map f xs) ≡ map key xs
  map-kept f [] kept = refl
  map-kept f (x ∷ xs) kept = λ i. kept x i ∷ map-kept f xs kept i

  if_kept : (b : Bool) (f : A → A) (x : A) → key (f x) ≡ key x → key (if b then f x else x) ≡ key x
  if_kept true f x e = e
  if_kept false f x e = refl

  pub update_where-kept :
      (p : A → Bool) (f : A → A) (xs : List A)
      → ((x : A) → key (f x) ≡ key x)
      → map key (update_where p f xs) ≡ map key xs
  update_where-kept p f [] kept = refl
  update_where-kept p f (x ∷ xs) kept =
      λ i. if_kept (p x) f x (kept x) i ∷ update_where-kept p f xs kept i

  pub map-if-kept :
      (p : A → Bool) (f : A → A) (xs : List A)
      → ((x : A) → key (f x) ≡ key x)
      → map key (map (λ x. if p x then f x else x) xs) ≡ map key xs
  map-if-kept p f xs kept =
      map-kept (λ x. if p x then f x else x) xs (λ x. if_kept (p x) f x (kept x))
