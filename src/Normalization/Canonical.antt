-- ===== src/Normalization/Canonical.antt =====
-- What `_validate_domain_syntax` accepts.
use domain_process_e2e.Prelude.{
  ℕ, ◌≤◌, Bool, true, false, not, ◌||◌, List, [], ◌∷◌, ◌==◌, ◌≡◌, ◌≢◌, refl, none, length, all,
  arith, Bool-cases, inl, inr,
}
use domain_process_e2e.Text.{Text, split, starts_with, ends_with, is_empty, last_is}
use domain_process_e2e.Text.Laws.{all-split, last_is-split}
use domain_process_e2e.Normalization.{
  label_char, is_valid_domain_label, check_labels, validate_domain_syntax,
}

-- A label of a host name: 1 to 63 of a-z, 0-9 and `-`, with no `-` at either end.
pub record IsLabel (l : Text) : Type 0 where
  pub nonempty : l ≢ []
  pub short : length l ≤ 63
  pub chars : all label_char l ≡ true
  pub no_leading : starts_with l (b'-' ∷ []) ≡ false
  pub no_trailing : ends_with l b'-' ≡ false

abbrev pub AllLabels : List Text → Type 0
AllLabels [] = Unit
AllLabels (l ∷ ls) = IsLabel l × AllLabels ls

pub record IsCanonical (v : Text) : Type 0 where
  pub fits : length v ≤ 253
  pub two_labels : 2 ≤ length (split b'.' v)
  pub labels : AllLabels (split b'.' v)

pub is_valid_domain_label-IsLabel : (l : Text) → is_valid_domain_label l ≡ true → IsLabel l
unfolding is_valid_domain_label
is_valid_domain_label-IsLabel [] h = ground arith
is_valid_domain_label-IsLabel (c ∷ l) h = record {
  nonempty = λ e. cc;
  short = ground arith;
  chars = ground arith;
  no_leading = ground arith;
  no_trailing = ground arith;
}

IsLabel-is_valid_domain_label : (l : Text) → IsLabel l → is_valid_domain_label l ≡ true
unfolding is_valid_domain_label
IsLabel-is_valid_domain_label [] h = absurd (h.nonempty refl)
IsLabel-is_valid_domain_label (c ∷ l) h = ground arith

check_labels-AllLabels : (ls : List Text) → check_labels ls ≡ none → AllLabels ls
unfolding check_labels
check_labels-AllLabels [] h = tt
check_labels-AllLabels (l ∷ ls) h = elim (Bool-cases (is_valid_domain_label l)) [
  | inl e ↦ (is_valid_domain_label-IsLabel l e, check_labels-AllLabels ls (rw e at h))
  | inr n ↦ absurd (cc (rw n at h))
]

AllLabels-check_labels : (ls : List Text) → AllLabels ls → check_labels ls ≡ none
unfolding check_labels
AllLabels-check_labels [] h = refl
AllLabels-check_labels (l ∷ ls) (h, hs) =
    rw (IsLabel-is_valid_domain_label l h) (AllLabels-check_labels ls hs)

pub validate-IsCanonical : (v : Text) → validate_domain_syntax v ≡ none → IsCanonical v
unfolding validate_domain_syntax
validate-IsCanonical [] h = ground arith
validate-IsCanonical (c ∷ t) h = record {
  fits = ground arith;
  two_labels = ground arith;
  labels = check_labels-AllLabels (split b'.' (c ∷ t)) (ground arith);
}

-- A text of at most 253 code points with two labels or more, each a label of a host name, is valid.
pub IsCanonical-validate : (v : Text) → IsCanonical v → validate_domain_syntax v ≡ none
unfolding validate_domain_syntax
IsCanonical-validate [] h = absurd (omega (arith, h.two_labels))
IsCanonical-validate (c ∷ t) h =
    ground (arith, AllLabels-check_labels (split b'.' (c ∷ t)) h.labels)

-- a-z, 0-9, `-` and the dot between labels
abbrev pub name_char : ℕ → Bool
name_char c = label_char c || c == b'.'

AllLabels-chars : (ls : List Text) → AllLabels ls → all (all label_char) ls ≡ true
AllLabels-chars [] h = refl
AllLabels-chars (l ∷ ls) (h, hs) = ground (arith, h.chars, AllLabels-chars ls hs)

pub IsCanonical-chars : (v : Text) → IsCanonical v → all name_char v ≡ true
IsCanonical-chars v h = all-split b'.' label_char v (AllLabels-chars (split b'.' v) h.labels)

AllLabels-full : (ls : List Text) → AllLabels ls → all (λ l. not (is_empty l)) ls ≡ true
unfolding is_empty
AllLabels-full [] h = refl
AllLabels-full ([] ∷ ls) (h, hs) = absurd (h.nonempty refl)
AllLabels-full ((c ∷ l) ∷ ls) (h, hs) = AllLabels-full ls hs

pub IsCanonical-last_is : (v : Text) → IsCanonical v → last_is b'.' v ≡ false
IsCanonical-last_is v h = last_is-split b'.' v (AllLabels-full (split b'.' v) h.labels)

pub IsCanonical-ne_nil : IsCanonical [] → ⊥
unfolding split
IsCanonical-ne_nil h = omega (arith, h.two_labels)
