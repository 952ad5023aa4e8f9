-- ===== src/Normalization.antt =====
-- src/domain_processing_service/normalization.py. A `str` is the list of its code points. What
-- `str.lower` and the "idna" codec do outside ASCII is the parameter `Unicode`.
pub mod Canonical
pub mod Idempotent
pub mod Dedup
pub mod Url
use domain_process_e2e.Prelude.{
  ℕ, zero, suc, ◌+◌, ◌<◌, ◌≤◌, Bool, true, false, not, ◌&&◌, ◌||◌, List, [], ◌∷◌, ◌++◌, ltb, leb,
  ◌==◌, if◌then◌else◌, ◌≡◌, Option, none, some, length, all, any, map,
}
use domain_process_e2e.Text.{
  Text, text_eq, strip, rstrip, before, split, join, starts_with, ends_with, is_empty,
}

abbrev pub is_ascii : ℕ → Bool
is_ascii c = ltb c 128

abbrev pub is_upper : ℕ → Bool
is_upper c = leb b'A' c && leb c b'Z'

abbrev pub ascii_lower : ℕ → ℕ
ascii_lower c = if is_upper c then c + 32 else c

-- `label.encode("idna").decode("ascii")`: the text, `UnicodeError`, or another exception.
pub data Encoded : Type 0 where
  encoded : Text → Encoded
  unicode_error : Encoded
  other_error : Encoded

-- What CPython's tables decide: `str.lower`, and the "idna" codec on one label. On ASCII both are
-- documented: letters are lowered one by one, and a label below 64
-- code points, with no dot, is unchanged.
pub record Unicode : Type 0 where
  pub lower : Text → Text
  pub idna : Text → Encoded
  pub lower_ascii : (t : Text) → all is_ascii t ≡ true → lower t ≡ map ascii_lower t
  pub idna_ascii :
      (t : Text)
      → all (λ c. is_ascii c && not (c == b'.')) t ≡ true
      → length t < 64
      → idna t ≡ encoded t

pub data NormalizeError : Type 0 where
  empty_after_trimming empty_after_normalization idna_failed empty_domain too_long : NormalizeError
  too_few_labels : NormalizeError
  invalid_label : Text → NormalizeError

pub record NormalizedDomain : Type 0 where
  pub value : Text
  pub is_valid : Bool
  pub error : Option NormalizeError

abbrev pub invalid : Text → NormalizeError → NormalizedDomain
invalid v e = record { value = v; is_valid = false; error = some e }

abbrev pub valid : Text → NormalizedDomain
valid v = record { value = v; is_valid = true; error = none }

-- [a-z0-9-]
abbrev pub label_char : ℕ → Bool
label_char c = (leb b'a' c && leb c b'z') || (leb b'0' c && leb c b'9') || c == b'-'

unfoldable pub is_valid_domain_label : Text → Bool
unfolding starts_with ends_with is_empty
is_valid_domain_label label =
    if is_empty label
    then false
    else if ltb 63 (length label)
    then false
    else if starts_with label (b'-' ∷ []) || ends_with label b'-'
    then false
    else if not (all label_char label)
    then false
    else true

-- the `for` loop over the labels
unfoldable pub check_labels : List Text → Option NormalizeError
unfolding is_valid_domain_label
check_labels [] = none
check_labels (l ∷ ls) =
    let rest = check_labels ls in
    if not (is_valid_domain_label l) then some (invalid_label l) else rest

-- `none` is the result (True, None)
unfoldable pub validate_domain_syntax : Text → Option NormalizeError
unfolding check_labels split is_empty
validate_domain_syntax domain =
    if is_empty domain
    then some empty_domain
    else if ltb 253 (length domain)
    then some too_long
    else (let labels = split b'.' domain in
        if ltb (length labels) 2 then some too_few_labels else check_labels labels)

abbrev pub is_letter : ℕ → Bool
is_letter c = (leb b'a' c && leb c b'z') || is_upper c

-- [a-zA-Z0-9+.-]
abbrev pub scheme_char : ℕ → Bool
scheme_char c = is_letter c || (leb b'0' c && leb c b'9') || c == b'+' || c == b'.' || c == b'-'

-- the rest behind [a-zA-Z0-9+.-]*://
unfoldable pub after_scheme_chars : Text → Option Text
after_scheme_chars [] = none
after_scheme_chars (c ∷ t) =
    let rest = after_scheme_chars t in
    if scheme_char c
    then rest
    else if c == b':'
    then (elim t [ b ∷ d ∷ u ↦ if b == b'/' && d == b'/' then some u else none | _ ↦ none ])
    else none

-- scheme_pattern.match, with what follows the match
unfoldable pub after_scheme : Text → Option Text
unfolding after_scheme_chars
after_scheme [] = none
after_scheme (c ∷ t) = if is_letter c then after_scheme_chars t else none

unfoldable pub host_of : Text → Text
unfolding before
host_of t = before b':' (before b'#' (before b'?' (before b'/' t)))

unfoldable pub strip_url : Text → Text
unfolding after_scheme host_of
strip_url t = elim (after_scheme t) [ none ↦ t | some rest ↦ host_of rest ]

-- the `for` loop over the labels in step 5; `none` is the outer `except`
unfoldable pub encode_labels : Unicode → List Text → Option (List Text)
encode_labels u [] = some []
encode_labels u (l ∷ ls) =
    let rest = encode_labels u ls in
    elim (u.idna l) [
      | encoded t ↦ elim rest [ none ↦ none | some ts ↦ some (t ∷ ts) ]
      | unicode_error ↦ elim rest [ none ↦ none | some ts ↦ some (l ∷ ts) ]
      | other_error ↦ none
    ]

abbrev pub judge : Text → Option NormalizeError → NormalizedDomain
judge v none = valid v
judge v (some e) = invalid v e

-- step 6, on the outcome of step 5
unfoldable pub judge_labels : Text → Option (List Text) → NormalizedDomain
judge_labels normalized none = invalid normalized idna_failed
judge_labels normalized (some labels) =
    judge (join b'.' labels) (validate_domain_syntax (join b'.' labels))

-- steps 3 to 6, on the host
unfoldable pub normalize_host : Unicode → Text → NormalizedDomain
unfolding is_empty judge_labels
normalize_host u host =
    let normalized = rstrip b'.' (u.lower host) in
    if is_empty normalized
    then invalid [] empty_after_normalization
    else judge_labels normalized (encode_labels u (split b'.' normalized))

unfoldable pub normalize_domain : Unicode → Text → NormalizedDomain
unfolding is_empty
normalize_domain u domain =
    let trimmed = strip domain in
    if is_empty trimmed
    then invalid [] empty_after_trimming
    else normalize_host u (strip_url trimmed)

-- `norm_value`: the canonical form, or for an invalid input the marker "__invalid__" and the input
abbrev pub invalid_marker : Text
invalid_marker = b'_' ∷ b'_' ∷ b'i' ∷ b'n' ∷ b'v' ∷ b'a' ∷ b'l' ∷ b'i' ∷ b'd' ∷ b'_' ∷ b'_' ∷ []

unfoldable pub dedup_key : Unicode → Text → Text
dedup_key u domain =
    let result = normalize_domain u domain in
    if result.is_valid then result.value else invalid_marker ++ u.lower (strip domain)

-- what is appended to `result`
unfoldable pub dedup_value : Unicode → Text → Text
dedup_value u domain =
    let result = normalize_domain u domain in if result.is_valid then result.value else domain

-- the `for` loop, from the set `seen`
unfoldable pub dedup_from : Unicode → List Text → List Text → List Text
dedup_from u seen [] = []
dedup_from u seen (d ∷ ds) =
    let key = dedup_key u d in
    let skipped = dedup_from u seen ds in
    let kept = dedup_value u d ∷ dedup_from u (key ∷ seen) ds in
    if any (text_eq key) seen then skipped else kept

unfoldable pub deduplicate_domains : Unicode → List Text → List Text
unfolding dedup_from
deduplicate_domains u domains = dedup_from u [] domains
