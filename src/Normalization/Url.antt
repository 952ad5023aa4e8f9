-- ===== src/Normalization/Url.antt =====
-- A URL of a canonical host normalises to the host: the scheme, the path, the query, the fragment
-- and the port go away.
use domain_process_e2e.Prelude.{
  ℕ, Bool, true, false, [], ◌∷◌, ◌++◌, ◌==◌, ◌≡◌, ◌⊎◌, refl, all, sym, ◌∙◌, ap, Bool-cases, inl,
  inr, and_true, ==→eq,
}
use mathlib.Core.Bool.{false≢true}
use mathlib.Core.List.{append-nil}
use domain_process_e2e.Text.{Text, strip, is_space, before, rstrip_by, strip_onto}
use domain_process_e2e.Normalization.{Unicode, valid, host_of, strip_url, normalize_domain}
use domain_process_e2e.Normalization.Canonical.{IsCanonical, name_char, IsCanonical-chars}
use domain_process_e2e.Normalization.Idempotent.{normalize_host_fixed}

abbrev pub https_prefix : Text
https_prefix = b'h' ∷ b't' ∷ b't' ∷ b'p' ∷ b's' ∷ b':' ∷ b'/' ∷ b'/' ∷ []

-- What ends a host: the path, the query, the fragment or the port.
abbrev pub EndsHost : ℕ → Type 0
EndsHost c = (c ≡ b'/') ⊎ (c ≡ b'?') ⊎ (c ≡ b'#') ⊎ (c ≡ b':')

-- Nothing in front of a code point that is kept is stripped.
rstrip_by-append :
    (p : ℕ → Bool) (c : ℕ) (t s : Text)
    → p c ≡ false
    → rstrip_by p (s ++ c ∷ t) ≡ s ++ c ∷ rstrip_by p t
unfolding rstrip_by
rstrip_by-append p c t [] h = onto (rstrip_by p t)
  where
    onto : (r : Text) → strip_onto (p c) c r ≡ c ∷ r
    onto [] = rw h
    onto (d ∷ r) = refl
rstrip_by-append p c t (a ∷ []) h = ap (strip_onto (p a) a) (rstrip_by-append p c t [] h)
rstrip_by-append p c t (a ∷ b ∷ s) h = ap (strip_onto (p a) a) (rstrip_by-append p c t (b ∷ s) h)

before-append :
    (c : ℕ) (v t : Text)
    → (name_char c ≡ false)
    → all name_char v ≡ true
    → before c (v ++ t) ≡ v ++ before c t
unfolding before
before-append c [] t n h = refl
before-append c (a ∷ v) t n h = elim (Bool-cases (a == c)) [
  | inl e ↦ absurd (not_name (==→eq a c e) (and_true (name_char a) (all name_char v) h).0)
  | inr e ↦ rw e (ap (◌∷◌ a) (before-append c v t n (and_true (name_char a) (all name_char v) h).1))
]
  where
    not_name : a ≡ c → name_char a ≡ true → ⊥
    not_name q m = false≢true (sym n ∙ sym (ap name_char q) ∙ m)

host_of-append :
    (v : Text) (c : ℕ) (t : Text) → all name_char v ≡ true → EndsHost c → host_of (v ++ c ∷ t) ≡ v
unfolding host_of
host_of-append v c t h e =
    rw
      (
        before-append b'/' v (c ∷ t) refl h,
        before-append b'?' v (before b'/' (c ∷ t)) refl h,
        before-append b'#' v (before b'?' (before b'/' (c ∷ t))) refl h,
        before-append b':' v (before b'#' (before b'?' (before b'/' (c ∷ t)))) refl h,
      )
      (rw (nothing_left e) (append-nil v))
  where
    nothing_left : EndsHost c → before b':' (before b'#' (before b'?' (before b'/' (c ∷ t)))) ≡ []
    nothing_left (inl q) = rw q
    nothing_left (inr (inl q)) = rw q
    nothing_left (inr (inr (inl q))) = rw q
    nothing_left (inr (inr (inr q))) = rw q

strip_url-https_prefix : (t : Text) → strip_url (https_prefix ++ t) ≡ host_of t
unfolding strip_url
strip_url-https_prefix t = refl

not_space : {c : ℕ} → EndsHost c → is_space c ≡ false
unfolding is_space
not_space (inl q) = rw q
not_space (inr (inl q)) = rw q
not_space (inr (inr (inl q))) = rw q
not_space (inr (inr (inr q))) = rw q

module _ (u : Unicode) where
  -- A URL of a canonical host, "https://", the host, one of `/`, `?`, `#` and `:`, and any text,
  -- normalises to the host.
  pub normalize_domain-url :
      (v : Text) (c : ℕ) (t : Text)
      → IsCanonical v
      → EndsHost c
      → normalize_domain u (https_prefix ++ v ++ c ∷ t) ≡ valid v
  unfolding normalize_domain strip
  normalize_domain-url v c t h e =
      rw (rstrip_by-append is_space c t (https_prefix ++ v) (not_space e)) (
        rw (strip_url-https_prefix (v ++ c ∷ rstrip_by is_space t)) (
          rw (host_of-append v c (rstrip_by is_space t) (IsCanonical-chars v h) e)
            (normalize_host_fixed u v h)))
