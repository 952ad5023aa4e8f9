-- ===== src/Routes/Walk.antt =====
-- A client that follows the cursors of get_job gets every task of the job, once, in order.
use domain_process_e2e.Prelude.{
  ℕ, zero, suc, ◌+◌, ◌-◌, ◌<◌, ◌≤◌, Bool, true, false, List, [], ◌∷◌, ◌++◌, ltb, Option, none, some,
  length, take, drop, filter, all, ◌≡◌, refl, sym, ap, ◌∙◌, subst, arith, Bool-cases, inl, inr,
  length-take, and_true, ltb→lt,
}
use mathlib.Core.List.{append_assoc, append-nil}
use domain_process_e2e.Prelude.Sort.{sort, sort-Sorted, filter-sort, length-sort}
use domain_process_e2e.Model.{Task}
use domain_process_e2e.Tasks.{cursor_leq, of_job, in_range, get_by_job_id_paginated}
use domain_process_e2e.Routes.{Page, last_cursor, page_of, get_job_page}
use domain_process_e2e.Routes.Pages.{
  DistinctIds, Ascending, after, Sorted-Ascending, sort-DistinctIds, filter-DistinctIds, filter-all,
  last_of, last_cursor_of, all-last_of, filter-after_last,
}

cursor_leq_total : (s t : Task) → cursor_leq s t ≡ false → cursor_leq t s ≡ true
cursor_leq_total s t h = ground arith

cursor_leq_trans :
    (r s t : Task) → cursor_leq r s ≡ true → cursor_leq s t ≡ true → cursor_leq r t ≡ true
cursor_leq_trans r s t h k = ground arith

module _ {ℓ} {A : Type ℓ} where
  take-take : (n m : ℕ) (xs : List A) → n ≤ m → take n (take m xs) ≡ take n xs
  take-take zero m xs h = refl
  take-take (suc n) zero xs h = absurd (omega arith)
  take-take (suc n) (suc m) [] h = refl
  take-take (suc n) (suc m) (x ∷ xs) h = ap (◌∷◌ x) (take-take n m xs (omega arith))

  take_all : (n : ℕ) (xs : List A) → length xs ≤ n → take n xs ≡ xs
  take_all zero [] h = refl
  take_all zero (x ∷ xs) h = absurd (omega arith)
  take_all (suc n) [] h = refl
  take_all (suc n) (x ∷ xs) h = ap (◌∷◌ x) (take_all n xs (omega arith))

  take-drop : (n : ℕ) (xs : List A) → take n xs ++ drop n xs ≡ xs
  take-drop zero xs = refl
  take-drop (suc n) [] = refl
  take-drop (suc n) (x ∷ xs) = ap (◌∷◌ x) (take-drop n xs)

  length-drop : (n : ℕ) (xs : List A) → length (drop n xs) ≡ length xs - n
  length-drop zero xs = omega arith
  length-drop (suc n) [] = omega arith
  length-drop (suc n) (x ∷ xs) = omega (arith, length-drop n xs)

  take_cons :
      (n : ℕ) (xs : List A) → 0 < n → 0 < length xs → (x : A) × (ys : List A) × (take n xs ≡ x ∷ ys)
  take_cons zero xs h k = absurd (omega arith)
  take_cons (suc n) [] h k = absurd (omega arith)
  take_cons (suc n) (x ∷ xs) h k = (x, take n xs, refl)

all_reaches :
    (p : Task → Bool) (pre : List Task) (t : Task) (ts rest : List Task)
    → all p ((pre ++ t ∷ ts) ++ rest) ≡ true
    → p (last_of t ts) ≡ true
all_reaches p [] t ts rest h =
    let (e, l) = and_true (p t) (all p (ts ++ rest)) h in all-last_of p t ts rest e l
all_reaches p (s ∷ pre) t ts rest h =
    all_reaches p pre t ts rest (and_true (p s) (all p ((pre ++ t ∷ ts) ++ rest)) h).1

filter-after_front :
    (pre : List Task) (t : Task) (ts rest : List Task)
    → Ascending ((pre ++ t ∷ ts) ++ rest)
    → filter (after (last_of t ts)) ((pre ++ t ∷ ts) ++ rest) ≡ rest
filter-after_front [] t ts rest a = filter-after_last t ts rest a
filter-after_front (s ∷ pre) t ts rest (h, a) =
    let later : after s (last_of t ts) ≡ true = all_reaches (after s) pre t ts rest h in
    let before : after (last_of t ts) s ≡ false = ground arith in
    rw before (filter-after_front pre t ts rest a)

all-in_range : (ts : List Task) → all (in_range none) ts ≡ true
all-in_range [] = refl
all-in_range (t ∷ ts) = all-in_range ts

-- What follows a page.
abbrev pub onward : (ℕ × ℕ → List Task) → Option (ℕ × ℕ) → List Task
onward next none = []
onward next (some cursor) = next cursor

module _ (table : List Task) (job_id limit : ℕ) where
  -- The results of at most so many pages, each asked for with the cursor of the one before.
  unfoldable pub pages : ℕ → Option (ℕ × ℕ) → List Task
  pages zero cursor = []
  pages (suc n) cursor =
      let page = get_job_page table job_id limit cursor in
      page.results ++ onward (λ c. pages n (some c)) page.next_cursor

  abbrev pub in_order : List Task
  in_order = sort cursor_leq (filter (of_job job_id) table)

  query_rest :
      (cursor : Option (ℕ × ℕ)) (rest : List Task)
      → filter (in_range cursor) in_order ≡ rest
      → get_by_job_id_paginated table job_id (limit + 1) cursor ≡ take (limit + 1 + 1) rest
  unfolding get_by_job_id_paginated
  query_rest cursor rest e = ap (take (limit + 1 + 1)) (
      sym (
        filter-sort cursor_leq cursor_leq_total cursor_leq_trans (in_range cursor)
          (filter (of_job job_id) table))
      ∙ e)

  last_page :
      (rest : List Task)
      → length rest ≤ limit
      → page_of limit (take (limit + 1 + 1) rest) ≡ record { results = rest; next_cursor = none }
  last_page rest h =
      let whole : take (limit + 1 + 1) rest ≡ rest =
        take_all (limit + 1 + 1) rest (omega (arith, h)) in
      let short : ltb limit (length rest) ≡ false = ground arith in rw (whole, short) refl

  full_page :
      (rest : List Task)
      → limit < length rest
      → page_of limit (take (limit + 1 + 1) rest)
        ≡ record { results = take limit rest; next_cursor = last_cursor (take limit rest) }
  full_page rest h =
      let long : limit < length (take (limit + 1 + 1) rest) =
        omega (arith, h, length-take (limit + 1 + 1) rest) in
      let more : ltb limit (length (take (limit + 1 + 1) rest)) ≡ true = ground arith in
      rw (more, take-take limit (limit + 1 + 1) rest (omega arith)) refl

  -- the page and what follows it
  abbrev and_onward : ℕ → Page → List Task
  and_onward n page = page.results ++ onward (λ c. pages n (some c)) page.next_cursor

  module _ (positive : 0 < limit) (ascending : Ascending in_order) where
    -- From a cursor after which `rest` is what is left of the list.
    pages_rest :
        (n : ℕ) (cursor : Option (ℕ × ℕ)) (pre rest : List Task)
        → in_order ≡ pre ++ rest
        → filter (in_range cursor) in_order ≡ rest
        → length rest < n
        → pages n cursor ≡ rest
    unfolding pages get_job_page
    pages_rest zero cursor pre rest split e short = absurd (omega (arith, short))
    pages_rest (suc n) cursor pre rest split e short = elim (Bool-cases (ltb limit (length rest))) [
      | inr small ↦
          ap (λ tasks. and_onward n (page_of limit tasks)) (query_rest cursor rest e)
          ∙ ap (and_onward n) (last_page rest (ground arith))
          ∙ append-nil rest
      | inl big ↦
          let long : limit < length rest = ltb→lt limit (length rest) big in
          let (t, ts, q) = take_cons limit rest positive (omega (arith, long)) in
          let cursor_is = ap last_cursor q ∙ last_cursor_of t ts in
          let split_later : in_order ≡ (pre ++ t ∷ ts) ++ drop limit rest =
            split
            ∙ ap (λ xs. pre ++ xs) (sym (take-drop limit rest) ∙ ap (λ xs. xs ++ drop limit rest) q)
            ∙ sym (append_assoc pre (t ∷ ts) (drop limit rest)) in
          let left : filter (after (last_of t ts)) in_order ≡ drop limit rest =
            ap (filter (after (last_of t ts))) split_later
            ∙ filter-after_front pre t ts (drop limit rest)
                (subst Ascending split_later ascending) in
          let later : pages n (some ((last_of t ts).created_at, (last_of t ts).id))
              ≡ drop limit rest =
            pages_rest n (some ((last_of t ts).created_at, (last_of t ts).id)) (pre ++ t ∷ ts)
              (drop limit rest) split_later left
              (omega (arith, short, positive, long, length-drop limit rest)) in
          ap (λ tasks. and_onward n (page_of limit tasks)) (query_rest cursor rest e)
          ∙ ap (and_onward n) (full_page rest long)
          ∙ ap (λ c. take limit rest ++ onward (λ c. pages n (some c)) c) cursor_is
          ∙ ap (λ xs. take limit rest ++ xs) later
          ∙ take-drop limit rest
    ]

  -- If no two tasks have one id and the limit is positive, the pages of a job, from the first on
  -- and each from the cursor of the one before, are together the tasks of the job in order of
  -- creation and id: none is missed and none comes twice. More pages than tasks are enough.
  pub pages_complete :
      (n : ℕ)
      → 0 < limit
      → DistinctIds table
      → length (filter (of_job job_id) table) < n
      → pages n none ≡ in_order
  pages_complete n positive distinct short =
      pages_rest positive
        (Sorted-Ascending in_order
          (sort-DistinctIds (filter (of_job job_id) table)
            (filter-DistinctIds (of_job job_id) table distinct))
          (sort-Sorted cursor_leq cursor_leq_total cursor_leq_trans (filter (of_job job_id) table)))
        n none [] in_order refl (filter-all (in_range none) in_order (all-in_range in_order))
        (omega (arith, short, length-sort cursor_leq (filter (of_job job_id) table)))
