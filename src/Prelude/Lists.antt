-- ===== src/Prelude/Lists.antt =====
-- Lists over the native numbers; `filter`, `any` and `all` take Boolean tests, as the code does.
use Prim.Native.Nat.{ℕ, zero, suc, ◌+◌, ◌≤◌, min}
use mathlib.Core.Path.{◌≡◌, refl, ap, sym, ◌∙◌}
use mathlib.Core.Logic.{◌⊎◌, inl, inr}
use mathlib.Core.Bool.{Bool, true, false, ◌&&◌, ◌||◌}
use mathlib.Core.Option.{Option, none, some, some-injective}
use mathlib.Core.List.{List, [], ◌∷◌, ◌++◌, map, Memᴰ}
use native.Mathlib.Omega.{arith}
use domain_process_e2e.Prelude.Tests.{if◌then◌else◌, Bool-cases, and_true}

module _ {ℓ} {A : Type ℓ} where
  abbrev pub length : List A → ℕ
  length [] = 0
  length (x ∷ xs) = suc (length xs)

  abbrev pub take : ℕ → List A → List A
  take zero xs = []
  take (suc n) [] = []
  take (suc n) (x ∷ xs) = x ∷ take n xs

  abbrev pub drop : ℕ → List A → List A
  drop zero xs = xs
  drop (suc n) [] = []
  drop (suc n) (x ∷ xs) = drop n xs

  abbrev pub filter : (A → Bool) → List A → List A
  filter p [] = []
  filter p (x ∷ xs) = let rest = filter p xs in if p x then x ∷ rest else rest

  abbrev pub any : (A → Bool) → List A → Bool
  any p [] = false
  any p (x ∷ xs) = p x || any p xs

  abbrev pub all : (A → Bool) → List A → Bool
  all p [] = true
  all p (x ∷ xs) = p x && all p xs

  abbrev pub flatten : List (List A) → List A
  flatten [] = []
  flatten (xs ∷ xss) = xs ++ flatten xss

  -- UPDATE … WHERE
  abbrev pub update_where : (A → Bool) → (A → A) → List A → List A
  update_where p f [] = []
  update_where p f (x ∷ xs) = (if p x then f x else x) ∷ update_where p f xs

  -- The first element that passes the test.
  abbrev pub find : (A → Bool) → List A → Option A
  find p [] = none
  find p (x ∷ xs) = let rest = find p xs in if p x then some x else rest

  abbrev pub last : A → List A → A
  last d [] = d
  last d (x ∷ xs) = last x xs

module _ {ℓ} {A : Type ℓ} where
  pub length-append : (xs ys : List A) → length (xs ++ ys) ≡ length xs + length ys
  length-append [] ys = omega arith
  length-append (x ∷ xs) ys = omega (arith, length-append xs ys)

  pub length-take-le : (n : ℕ) (xs : List A) → length (take n xs) ≤ n
  length-take-le zero xs = omega arith
  length-take-le (suc n) [] = omega arith
  length-take-le (suc n) (x ∷ xs) = omega (arith, length-take-le n xs)

  pub any_cases :
      (p : A → Bool) (xs : List A) → any p xs ≡ true → (x : A) × Memᴰ x xs × (p x ≡ true)
  any_cases p [] h = cc
  any_cases p (x ∷ xs) h = elim (Bool-cases (p x)) [
    | inl here ↦ (x, Memᴰ.head refl, here)
    | inr there ↦ let (y, m, e) = any_cases p xs (rw there at h) in (y, Memᴰ.tail m, e)
  ]

  pub all-Memᴰ : (p : A → Bool) {x : A} (xs : List A) → all p xs ≡ true → Memᴰ x xs → p x ≡ true
  all-Memᴰ p [] h m = elim m [ ]
  all-Memᴰ p (y ∷ ys) h (Memᴰ.head e) = rw e ((and_true (p y) (all p ys) h).0)
  all-Memᴰ p (y ∷ ys) h (Memᴰ.tail m) = all-Memᴰ p ys ((and_true (p y) (all p ys) h).1) m

  Memᴰ-if :
      (b : Bool) {x y : A} {xs : List A}
      → Memᴰ x (if b then y ∷ xs else xs)
      → ((x ≡ y) × (b ≡ true)) ⊎ Memᴰ x xs
  Memᴰ-if true (Memᴰ.head e) = inl (e, refl)
  Memᴰ-if true (Memᴰ.tail m) = inr m
  Memᴰ-if false m = inr m

  pub filter-Memᴰ :
      (p : A → Bool) {x : A} (xs : List A) → Memᴰ x (filter p xs) → Memᴰ x xs × (p x ≡ true)
  filter-Memᴰ p [] m = elim m [ ]
  filter-Memᴰ p {x} (y ∷ xs) m = elim (Memᴰ-if (p y) m) [
    | inl (e, h) ↦ (Memᴰ.head e, rw e h)
    | inr n ↦ let (old, h) = filter-Memᴰ p xs n in (Memᴰ.tail old, h)
  ]

  if-Memᴰ : (b : Bool) (y : A) {x : A} {xs : List A} → Memᴰ x xs → Memᴰ x (if b then y ∷ xs else xs)
  if-Memᴰ true y m = Memᴰ.tail m
  if-Memᴰ false y m = m

  pub Memᴰ-filter :
      (p : A → Bool) {x : A} (xs : List A) → Memᴰ x xs → p x ≡ true → Memᴰ x (filter p xs)
  Memᴰ-filter p [] m h = elim m [ ]
  Memᴰ-filter p (y ∷ xs) (Memᴰ.head e) h = rw (rw e at h) (Memᴰ.head e)
  Memᴰ-filter p (y ∷ xs) (Memᴰ.tail m) h = if-Memᴰ (p y) y (Memᴰ-filter p xs m h)

  pub take-Memᴰ : (n : ℕ) {x : A} (xs : List A) → Memᴰ x (take n xs) → Memᴰ x xs
  take-Memᴰ zero xs m = elim m [ ]
  take-Memᴰ (suc n) [] m = elim m [ ]
  take-Memᴰ (suc n) (y ∷ xs) (Memᴰ.head e) = Memᴰ.head e
  take-Memᴰ (suc n) (y ∷ xs) (Memᴰ.tail m) = Memᴰ.tail (take-Memᴰ n xs m)

  pub drop-Memᴰ : (n : ℕ) {x : A} (xs : List A) → Memᴰ x (drop n xs) → Memᴰ x xs
  drop-Memᴰ zero xs m = m
  drop-Memᴰ (suc n) [] m = m
  drop-Memᴰ (suc n) (y ∷ xs) m = Memᴰ.tail (drop-Memᴰ n xs m)

  pub take-drop-Memᴰ :
      (n : ℕ) {x : A} (xs : List A) → Memᴰ x xs → Memᴰ x (take n xs) ⊎ Memᴰ x (drop n xs)
  take-drop-Memᴰ zero xs m = inr m
  take-drop-Memᴰ (suc n) [] m = inr m
  take-drop-Memᴰ (suc n) (y ∷ xs) (Memᴰ.head e) = inl (Memᴰ.head e)
  take-drop-Memᴰ (suc n) (y ∷ xs) (Memᴰ.tail m) = elim (take-drop-Memᴰ n xs m) [
    | inl k ↦ inl (Memᴰ.tail k)
    | inr k ↦ inr k
  ]

  pub length-take : (n : ℕ) (xs : List A) → length (take n xs) ≡ min n (length xs)
  length-take zero xs = omega arith
  length-take (suc n) [] = omega arith
  length-take (suc n) (x ∷ xs) = omega (arith, length-take n xs)

  pub Memᴰ-any : (p : A → Bool) {x : A} (xs : List A) → Memᴰ x xs → p x ≡ true → any p xs ≡ true
  Memᴰ-any p [] m h = elim m [ ]
  Memᴰ-any p (y ∷ xs) (Memᴰ.head e) h = rw (rw e at h)
  Memᴰ-any p (y ∷ xs) (Memᴰ.tail m) h = ground (arith, Memᴰ-any p xs m h)

  find-if :
      (b : Bool) {x y : A} {rest : Option A}
      → (if b then some x else rest) ≡ some y
      → ((b ≡ true) × (x ≡ y)) ⊎ (rest ≡ some y)
  find-if true {x} {y} h = inl (refl, some-injective x y h)
  find-if false h = inr h

  -- What a search finds is in the list and passes the test.
  pub find-Memᴰ :
      (p : A → Bool) (xs : List A) {y : A} → find p xs ≡ some y → Memᴰ y xs × (p y ≡ true)
  find-Memᴰ p [] h = absurd (cc)
  find-Memᴰ p (x ∷ xs) {y} h = elim (find-if (p x) {x = x} {y = y} {rest = find p xs} h) [
    | inl (e, q) ↦ (Memᴰ.head (sym q), sym (ap p q) ∙ e)
    | inr k ↦ let (m, e) = find-Memᴰ p xs k in (Memᴰ.tail m, e)
  ]

module _ {ℓ κ} {A : Type ℓ} {B : Type κ} (f : A → B) where
  pub map-Memᴰ : (xs : List A) {y : B} → Memᴰ y (map f xs) → (x : A) × Memᴰ x xs × (y ≡ f x)
  map-Memᴰ [] m = elim m [ ]
  map-Memᴰ (x ∷ xs) (Memᴰ.head e) = (x, Memᴰ.head refl, e)
  map-Memᴰ (x ∷ xs) (Memᴰ.tail m) = let (z, n, e) = map-Memᴰ xs m in (z, Memᴰ.tail n, e)

  pub Memᴰ-map : {x : A} (xs : List A) → Memᴰ x xs → Memᴰ (f x) (map f xs)
  Memᴰ-map [] m = elim m [ ]
  Memᴰ-map (y ∷ xs) (Memᴰ.head e) = Memᴰ.head (ap f e)
  Memᴰ-map (y ∷ xs) (Memᴰ.tail m) = Memᴰ.tail (Memᴰ-map xs m)

  pub length-map : (xs : List A) → length (map f xs) ≡ length xs
  length-map [] = refl
  length-map (x ∷ xs) = ap suc (length-map xs)
