-- ===== src/Config/Accepted.antt =====
-- What the accepted settings give the other modules.
use domain_process_e2e.Prelude.{
  ℕ, Bool, true, false, not, ◌&&◌, List, [], ◌∷◌, ◌++◌, all, ltb, ◌==◌, none, some, is_some, ◌≡◌,
  refl, ap, ◌∙◌, arith, and_true, inl, inr, Bool-cases,
}
use domain_process_e2e.Text.{Text, split, strip, join, is_space, is_empty}
use domain_process_e2e.Text.Laws.{strip_id}
use domain_process_e2e.Queue
use domain_process_e2e.Workers.{new_pool}
use domain_process_e2e.App.{create_app}
use domain_process_e2e.Routes.{page_limit}
use domain_process_e2e.Config.{
  AppSettings, as_text, accepts, validate_page_size_bounds, stripped, parse_dns_nameservers,
}

-- Accepted settings have a page that is not cut by default, and a pool of workers that can be made.
pub accepts-serves :
    (s : AppSettings) (ids : ℕ → Text) (enable_worker_pool enable_scheduler : Bool)
    → accepts s ≡ true
    → (page_limit s.default_page_size s.max_page_size none ≡ some s.default_page_size)
      × (is_some (
            create_app s.worker_queue_capacity s.worker_concurrency ids enable_worker_pool
              enable_scheduler)
          ≡ true)
unfolding accepts page_limit create_app new_pool Queue.new validate_page_size_bounds
accepts-serves s ids enable_worker_pool enable_scheduler h =
    let some_page : (s.default_page_size == 0) ≡ false = ground arith in
    let fits : ltb s.max_page_size s.default_page_size ≡ false = ground arith in
    let some_room : (s.worker_queue_capacity == 0) ≡ false = ground arith in
    (
      rw (some_page, fits) refl,
      elim (Bool-cases enable_worker_pool) [ inl e ↦ rw (e, some_room) refl | inr e ↦ rw e refl ],
    )

-- No space and no comma in it, and not empty.
abbrev is_plain : Text → Bool
is_plain t = not (is_empty t) && all (λ c. not (is_space c) && not (c == b',')) t

module _ (c : ℕ) where
  split_last : (l : Text) → all (λ d. not (d == c)) l ≡ true → split c l ≡ l ∷ []
  unfolding split
  split_last [] h = refl
  split_last (d ∷ l) h =
      let other : (d == c) ≡ false = ground arith in rw (other, split_last l (ground arith)) refl

  split_front :
      (l rest : Text)
      → all (λ d. not (d == c)) l ≡ true
      → split c (l ++ c ∷ rest) ≡ l ∷ split c rest
  unfolding split
  split_front [] rest h = let same : (c == c) ≡ true = ground arith in rw same refl
  split_front (d ∷ l) rest h =
      let other : (d == c) ≡ false = ground arith in
      rw (other, split_front l rest (ground arith)) refl

  -- Splitting gives the parts that were joined, if none has the separator.
  split-join :
      (l : Text) (ls : List Text)
      → all (λ t. all (λ d. not (d == c)) t) (l ∷ ls) ≡ true
      → split c (join c (l ∷ ls)) ≡ l ∷ ls
  unfolding join
  split-join l [] h = split_last l (ground arith)
  split-join l (m ∷ ls) h =
      let (e, k) = and_true (all (λ d. not (d == c)) l) _ h in
      split_front l (join c (m ∷ ls)) e ∙ ap (λ ts. l ∷ ts) (split-join m ls k)

all_imp {ℓ} :
    {A : Type ℓ} (q p : A → Bool) (xs : List A)
    → ((x : A) → q x ≡ true → p x ≡ true)
    → all q xs ≡ true
    → all p xs ≡ true
all_imp q p [] imp h = refl
all_imp q p (x ∷ xs) imp h =
    let (e, k) = and_true (q x) (all q xs) h in rw (imp x e) (all_imp q p xs imp k)

plain_strip : (t : Text) → is_plain t ≡ true → strip t ≡ t
plain_strip t h =
    let (_, k) = and_true (not (is_empty t)) _ h in
    strip_id t (
      all_imp (λ c. not (is_space c) && not (c == b',')) (λ c. not (is_space c)) t
        (λ c e. (and_true _ _ e).0) k)

plain_comma : (t : Text) → is_plain t ≡ true → all (λ d. not (d == b',')) t ≡ true
plain_comma t h =
    let (_, k) = and_true (not (is_empty t)) _ h in
    all_imp (λ c. not (is_space c) && not (c == b',')) (λ c. not (c == b',')) t
      (λ c e. (and_true _ _ e).1) k

stripped_plain : (ts : List Text) → all is_plain ts ≡ true → stripped ts ≡ ts
unfolding stripped
stripped_plain [] h = refl
stripped_plain (t ∷ ts) h =
    let (e, k) = and_true (is_plain t) (all is_plain ts) h in
    let (full, _) = and_true (not (is_empty t)) _ e in
    rw (plain_strip t e, full) (ap (λ us. t ∷ us) (stripped_plain ts k))

-- The nameservers that are written as a list with commas are the ones that are parsed, when each is
-- not empty and has neither a space nor a comma.
pub parse_dns_nameservers-join :
    (t : Text) (ts : List Text)
    → all is_plain (t ∷ ts) ≡ true
    → parse_dns_nameservers (as_text (join b',' (t ∷ ts))) ≡ t ∷ ts
unfolding parse_dns_nameservers
parse_dns_nameservers-join t ts h =
    let commas : all (λ t. all (λ d. not (d == b',')) t) (t ∷ ts) ≡ true =
      all_imp is_plain (λ t. all (λ d. not (d == b',')) t) (t ∷ ts) plain_comma h in
    ap stripped (split-join b',' t ts commas) ∙ stripped_plain (t ∷ ts) h
