-- ===== src/Normalization/Idempotent.antt =====
-- A canonical name is a fixed point of `normalize_domain`, which returns nothing else as valid.
use domain_process_e2e.Prelude.{
  ℕ, ◌≤◌, true, false, not, ◌&&◌, List, [], ◌∷◌, ◌==◌, ◌≡◌, ◌≢◌, refl, Option, none, some, all, map,
  arith, sym, ◌∙◌, Bool-cases, inl, inr, Option-cases, and_true,
}
use domain_process_e2e.Text.{Text, split, join, strip, rstrip, is_empty, is_space}
use domain_process_e2e.Text.Laws.{strip_id, rstrip_id, join-split}
use domain_process_e2e.Normalization.{
  Unicode, encoded, NormalizedDomain, valid, judge, label_char, validate_domain_syntax, is_ascii,
  ascii_lower, after_scheme_chars, strip_url, encode_labels, judge_labels, normalize_host,
  normalize_domain,
}
use domain_process_e2e.Normalization.Canonical.{
  AllLabels, IsCanonical, name_char, IsCanonical-chars, IsCanonical-last_is, validate-IsCanonical,
  IsCanonical-validate, IsCanonical-ne_nil,
}

-- What the code points of a canonical name are not.
name_char_range : (c : ℕ) → name_char c ≡ true → (45 ≤ c) × (c ≤ 122) × (c ≢ 58)
name_char_range c h = ground arith

name_char-is_space : (c : ℕ) → name_char c ≡ true → is_space c ≡ false
unfolding is_space
name_char-is_space c h = let (low, high, _) = name_char_range c h in ground arith

name_char-ascii_lower : (c : ℕ) → name_char c ≡ true → ascii_lower c ≡ c
name_char-ascii_lower c h = ground arith

all-is_space : (t : Text) → all name_char t ≡ true → all (λ c. not (is_space c)) t ≡ true
all-is_space [] h = refl
all-is_space (c ∷ t) h =
    let (here, rest) = and_true (name_char c) (all name_char t) h in
    rw (name_char-is_space c here) (all-is_space t rest)

all-is_ascii : (t : Text) → all name_char t ≡ true → all is_ascii t ≡ true
all-is_ascii [] h = refl
all-is_ascii (c ∷ t) h =
    let (here, rest) = and_true (name_char c) (all name_char t) h in
    ground (arith, name_char_range c here, all-is_ascii t rest)

map-ascii_lower : (t : Text) → all name_char t ≡ true → map ascii_lower t ≡ t
map-ascii_lower [] h = refl
map-ascii_lower (c ∷ t) h =
    let (here, rest) = and_true (name_char c) (all name_char t) h in
    cc (name_char-ascii_lower c here, map-ascii_lower t rest)

-- No colon, no scheme.
after_scheme_chars-name : (t : Text) → all name_char t ≡ true → after_scheme_chars t ≡ none
unfolding after_scheme_chars
after_scheme_chars-name [] h = refl
after_scheme_chars-name (c ∷ t) h =
    let (here, rest) = and_true (name_char c) (all name_char t) h in
    ground (arith, name_char_range c here, after_scheme_chars-name t rest)

strip_url-name : (t : Text) → all name_char t ≡ true → strip_url t ≡ t
unfolding strip_url
strip_url-name [] h = refl
strip_url-name (c ∷ t) h =
    let (here, rest) = and_true (name_char c) (all name_char t) h in
    ground (arith, after_scheme_chars-name t rest)

label_ascii :
    (l : Text) → all label_char l ≡ true → all (λ c. is_ascii c && not (c == b'.')) l ≡ true
label_ascii [] h = refl
label_ascii (c ∷ l) h =
    let (here, rest) = and_true (label_char c) (all label_char l) h in
    ground (arith, label_ascii l rest)

-- A result marked valid carries a canonical name and no error.
abbrev IsJudged : NormalizedDomain → Type 0
IsJudged r = IsCanonical r.value × (r ≡ valid r.value)

module _ (u : Unicode) where
  encode_labels_id : (ls : List Text) → AllLabels ls → encode_labels u ls ≡ some ls
  unfolding encode_labels
  encode_labels_id [] h = refl
  encode_labels_id (l ∷ ls) (h, hs) =
      let same : u.idna l ≡ encoded l =
        u.idna_ascii l (label_ascii l h.chars) (omega (arith, h.short)) in
      cc (same, encode_labels_id ls hs)

  pub normalize_host_fixed : (v : Text) → IsCanonical v → normalize_host u v ≡ valid v
  unfolding normalize_host
  normalize_host_fixed [] h = absurd (IsCanonical-ne_nil h)
  normalize_host_fixed (c ∷ t) h =
      let v : Text = c ∷ t in
      let chars = IsCanonical-chars v h in
      let lowered : u.lower v ≡ v =
        u.lower_ascii v (all-is_ascii v chars) ∙ map-ascii_lower v chars in
      rw (
        lowered,
        rstrip_id b'.' v (IsCanonical-last_is v h),
        encode_labels_id (split b'.' v) h.labels,
        join-split b'.' v,
        IsCanonical-validate v h,
      )

  -- A canonical name is its own normal form.
  pub normalize_domain_fixed : (v : Text) → IsCanonical v → normalize_domain u v ≡ valid v
  unfolding normalize_domain
  normalize_domain_fixed [] h = absurd (IsCanonical-ne_nil h)
  normalize_domain_fixed (c ∷ t) h =
      let v : Text = c ∷ t in
      let chars = IsCanonical-chars v h in
      rw (strip_id v (all-is_space v chars), strip_url-name v chars) (normalize_host_fixed v h)

  judge-IsJudged :
      (v : Text)
      → (judge v (validate_domain_syntax v)).is_valid ≡ true
      → IsJudged (judge v (validate_domain_syntax v))
  judge-IsJudged v h = elim (Option-cases (validate_domain_syntax v)) [
    | inl e ↦ rw e (validate-IsCanonical v e, refl)
    | inr (x, e) ↦ absurd (cc (rw e at h))
  ]

  judge_labels-IsJudged :
      (n : Text) (ls : Option (List Text))
      → (judge_labels n ls).is_valid ≡ true
      → IsJudged (judge_labels n ls)
  unfolding judge_labels
  judge_labels-IsJudged n none h = absurd (cc)
  judge_labels-IsJudged n (some ls) h = judge-IsJudged (join b'.' ls) h

  normalize_host-IsJudged :
      (host : Text) → (normalize_host u host).is_valid ≡ true → IsJudged (normalize_host u host)
  unfolding normalize_host
  normalize_host-IsJudged host h =
      let n = rstrip b'.' (u.lower host) in
      elim (Bool-cases (is_empty n)) [
        | inl e ↦ absurd (cc (rw e at h))
        | inr e ↦ rw e (judge_labels-IsJudged n (encode_labels u (split b'.' n)) (rw e at h))
      ]

  normalize_domain-IsJudged :
      (d : Text) → (normalize_domain u d).is_valid ≡ true → IsJudged (normalize_domain u d)
  unfolding normalize_domain
  normalize_domain-IsJudged d h = elim (Bool-cases (is_empty (strip d))) [
    | inl e ↦ absurd (cc (rw e at h))
    | inr e ↦ rw e (normalize_host-IsJudged (strip_url (strip d)) (rw e at h))
  ]

  -- Whatever the input and whatever Unicode does, a result marked valid is a canonical host name.
  pub normalize_domain-IsCanonical :
      (d : Text) → (normalize_domain u d).is_valid ≡ true → IsCanonical (normalize_domain u d).value
  normalize_domain-IsCanonical d h = (normalize_domain-IsJudged d h).0

  -- Normalising a valid result again gives the same result.
  pub normalize_domain_idempotent :
      (d : Text)
      → (normalize_domain u d).is_valid ≡ true
      → normalize_domain u (normalize_domain u d).value ≡ normalize_domain u d
  normalize_domain_idempotent d h =
      let (canonical, same) = normalize_domain-IsJudged d h in
      normalize_domain_fixed (normalize_domain u d).value canonical ∙ sym same
