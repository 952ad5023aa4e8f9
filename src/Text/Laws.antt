-- ===== src/Text/Laws.antt =====
-- What the operations on texts leave unchanged, and how `split` and `join` meet.
use domain_process_e2e.Prelude.{
  ℕ, Bool, true, false, not, ◌||◌, List, [], ◌∷◌, ◌==◌, if◌then◌else◌, ◌≡◌, ◌≢◌, refl, sym, ap, ◌∙◌,
  arith, all, Bool-cases, ==→eq, inl, inr,
}
use domain_process_e2e.Text.{
  Text, strip_onto, drop_while, rstrip_by, is_space, strip, rstrip, split, join, onto_first,
  last_is, is_empty,
}

drop_while_id : (p : ℕ → Bool) (t : Text) → all (λ c. not (p c)) t ≡ true → drop_while p t ≡ t
drop_while_id p [] h = refl
drop_while_id p (c ∷ t) h = ground arith

rstrip_by_id : (p : ℕ → Bool) (t : Text) → all (λ c. not (p c)) t ≡ true → rstrip_by p t ≡ t
unfolding rstrip_by
rstrip_by_id p [] h = refl
rstrip_by_id p (c ∷ []) h = ground arith
rstrip_by_id p (c ∷ d ∷ t) h = ground (arith, rstrip_by_id p (d ∷ t))

pub strip_id : (t : Text) → all (λ c. not (is_space c)) t ≡ true → strip t ≡ t
unfolding strip
strip_id t h = rw (drop_while_id is_space t h) (rstrip_by_id is_space t h)

-- A text that does not end in `c` is not shortened.
pub rstrip_id : (c : ℕ) (t : Text) → last_is c t ≡ false → rstrip c t ≡ t
unfolding rstrip
rstrip_id c [] h = refl
rstrip_id c (a ∷ []) h = ground arith
rstrip_id c (a ∷ b ∷ t) h = ap (λ r. strip_onto (a == c) a r) (rstrip_id c (b ∷ t) h)

pub split-cases :
    (c d : ℕ) (t : Text)
    → split c (d ∷ t) ≡ (if d == c then [] ∷ split c t else onto_first d (split c t))
unfolding split
split-cases c d t = ground arith

pub split-ne-nil : (c : ℕ) (t : Text) → split c t ≢ []
unfolding split
split-ne-nil c [] h = ground arith
split-ne-nil c (d ∷ t) h = ground arith

join-onto_first : (c d : ℕ) (ls : List Text) → ls ≢ [] → join c (onto_first d ls) ≡ d ∷ join c ls
unfolding join
join-onto_first c d [] h = absurd (h refl)
join-onto_first c d (l ∷ []) h = refl
join-onto_first c d (l ∷ m ∷ ls) h = refl

join-nil : (c : ℕ) (ls : List Text) → ls ≢ [] → join c ([] ∷ ls) ≡ c ∷ join c ls
unfolding join
join-nil c [] h = absurd (h refl)
join-nil c (l ∷ ls) h = refl

-- Joining the parts gives the text back.
pub join-split : (c : ℕ) (t : Text) → join c (split c t) ≡ t
unfolding split
join-split c [] = unfold join in refl
join-split c (d ∷ t) = elim (Bool-cases (d == c)) [
  | inl e ↦
      rw e
        (join-nil c (split c t) (split-ne-nil c t) ∙ rw (==→eq d c e) (ap (◌∷◌ c) (join-split c t)))
  | inr n ↦ rw n (join-onto_first c d (split c t) (split-ne-nil c t) ∙ ap (◌∷◌ d) (join-split c t))
]

-- If every part passes the test, so does every code point that is not the separator.
module _ (c : ℕ) (p : ℕ → Bool) where
  all-onto_first :
      (d : ℕ) (ls : List Text)
      → all (all p) (onto_first d ls) ≡ true
      → (p d ≡ true) × (all (all p) ls ≡ true)
  all-onto_first d [] h = ground arith
  all-onto_first d (l ∷ ls) h = ground arith

  pub all-split : (t : Text) → all (all p) (split c t) ≡ true → all (λ d. p d || d == c) t ≡ true
  unfolding split
  all-split [] h = refl
  all-split (d ∷ t) h = elim (Bool-cases (d == c)) [
    | inl e ↦ ground (arith, all-split t (rw e at h))
    | inr n ↦
        let (first, others) = all-onto_first d (split c t) (rw n at h) in
        ground (arith, all-split t others)
  ]

abbrev full : Text → Bool
full l = not (is_empty l)

abbrev full_tail : List Text → Bool
full_tail [] = true
full_tail (l ∷ ls) = all full ls

full_tail-onto_first : (d : ℕ) (ls : List Text) → full_tail (onto_first d ls) ≡ full_tail ls
full_tail-onto_first d [] = refl
full_tail-onto_first d (l ∷ ls) = refl

module _ (c : ℕ) where
  all-full-split :
      (e : ℕ) (t : Text)
      → all full (split c (e ∷ t)) ≡ true
      → ((e == c) ≡ false) × (full_tail (split c t) ≡ true)
  unfolding split is_empty
  all-full-split e t h = elim (Bool-cases (e == c)) [
    | inl q ↦ ground arith
    | inr q ↦ (
      q,
      sym (full_tail-onto_first e (split c t))
          ∙ all_full→tail (onto_first e (split c t)) (rw q at h),
    )
  ]
    where
      all_full→tail : (ls : List Text) → all full ls ≡ true → full_tail ls ≡ true
      all_full→tail [] k = refl
      all_full→tail (l ∷ ls) k = ground arith

  last_is-full_tail :
      (d : ℕ) (t : Text)
      → (d == c) ≡ false
      → full_tail (split c t) ≡ true
      → last_is c (d ∷ t) ≡ false
  unfolding split is_empty
  last_is-full_tail d [] n h = n
  last_is-full_tail d (b ∷ []) n h = elim (Bool-cases (b == c)) [
    | inl q ↦ absurd (no_part (rw (split-cases c b [], q) at h))
    | inr q ↦ q
  ]
    where
      no_part : all full (split c []) ≡ true → ⊥
      no_part k = ground arith
  last_is-full_tail d (b ∷ e ∷ t) n h = elim (Bool-cases (b == c)) [
    | inl q ↦
        let (e≢c, more) = all-full-split e t (rw (split-cases c b (e ∷ t), q) at h) in
        last_is-full_tail e t e≢c more
    | inr q ↦
        last_is-full_tail b (e ∷ t) q
          (sym (full_tail-onto_first b (split c (e ∷ t))) ∙ rw (split-cases c b (e ∷ t), q) at h)
  ]

  -- If no part is empty, the text does not end in the separator.
  pub last_is-split : (t : Text) → all full (split c t) ≡ true → last_is c t ≡ false
  last_is-split [] h = refl
  last_is-split (d ∷ t) h = let (d≢c, more) = all-full-split d t h in last_is-full_tail d t d≢c more
