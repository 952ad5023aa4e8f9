-- ===== src/Routes/Pages.antt =====
-- The pages of a job, one after the other, are its tasks in the order of creation.
use domain_process_e2e.Prelude.{
  ℕ, Bool, true, false, List, [], ◌∷◌, ◌++◌, some, filter, any, all, ◌≡◌, refl, ◌∙◌, arith,
  Bool-cases, inl, inr, and_true,
}
use domain_process_e2e.Prelude.Sort.{sort, insert, Sorted}
use domain_process_e2e.Model.{Task}
use domain_process_e2e.Tasks.{is_after, cursor_leq, has_id}
use domain_process_e2e.Routes.{last_cursor}

-- No two tasks of the list have one id.
abbrev pub DistinctIds : List Task → Type 0
DistinctIds [] = Unit
DistinctIds (t ∷ ts) = (any (has_id t.id) ts ≡ false) × DistinctIds ts

abbrev pub after : Task → Task → Bool
after s t = is_after s.created_at s.id t

-- Each task is strictly before all that follow it.
abbrev pub Ascending : List Task → Type 0
Ascending [] = Unit
Ascending (t ∷ ts) = (all (after t) ts ≡ true) × Ascending ts

all-after :
    (t : Task) (ts : List Task)
    → any (has_id t.id) ts ≡ false
    → all (cursor_leq t) ts ≡ true
    → all (after t) ts ≡ true
all-after t [] h k = refl
all-after t (s ∷ ts) h k = ground (arith, all-after t ts)

pub Sorted-Ascending : (ts : List Task) → DistinctIds ts → Sorted cursor_leq ts → Ascending ts
Sorted-Ascending [] d s = tt
Sorted-Ascending (t ∷ ts) (h, d) (k, s) = (all-after t ts h k, Sorted-Ascending ts d s)

any-insert :
    (i : ℕ) (t : Task) (ts : List Task)
    → any (has_id i) (insert cursor_leq t ts) ≡ any (has_id i) (t ∷ ts)
unfolding insert
any-insert i t [] = refl
any-insert i t (s ∷ ts) = ground (arith, any-insert i t ts)

any-sort : (i : ℕ) (ts : List Task) → any (has_id i) (sort cursor_leq ts) ≡ any (has_id i) ts
unfolding sort
any-sort i [] = refl
any-sort i (t ∷ ts) = ground (arith, any-insert i t (sort cursor_leq ts), any-sort i ts)

insert-DistinctIds :
    (t : Task) (ts : List Task)
    → any (has_id t.id) ts ≡ false
    → DistinctIds ts
    → DistinctIds (insert cursor_leq t ts)
unfolding insert
insert-DistinctIds t [] h d = (refl, tt)
insert-DistinctIds t (s ∷ ts) h (k, d) = elim (Bool-cases (cursor_leq t s)) [
  | inl e ↦ rw e (h, (k, d))
  | inr e ↦ rw e (ground (arith, any-insert s.id t ts), insert-DistinctIds t ts (ground arith) d)
]

pub sort-DistinctIds : (ts : List Task) → DistinctIds ts → DistinctIds (sort cursor_leq ts)
unfolding sort
sort-DistinctIds [] d = tt
sort-DistinctIds (t ∷ ts) (h, d) =
    insert-DistinctIds t (sort cursor_leq ts) (any-sort t.id ts ∙ h) (sort-DistinctIds ts d)

any-filter :
    (i : ℕ) (p : Task → Bool) (ts : List Task)
    → any (has_id i) ts ≡ false
    → any (has_id i) (filter p ts) ≡ false
any-filter i p [] h = refl
any-filter i p (t ∷ ts) h = ground (arith, any-filter i p ts)

pub filter-DistinctIds :
    (p : Task → Bool) (ts : List Task) → DistinctIds ts → DistinctIds (filter p ts)
filter-DistinctIds p [] d = tt
filter-DistinctIds p (t ∷ ts) (h, d) = elim (Bool-cases (p t)) [
  | inl e ↦ rw e (any-filter t.id p ts h, filter-DistinctIds p ts d)
  | inr e ↦ rw e (filter-DistinctIds p ts d)
]

pub filter-all : (p : Task → Bool) (ts : List Task) → all p ts ≡ true → filter p ts ≡ ts
filter-all p [] h = refl
filter-all p (t ∷ ts) h = ground (arith, filter-all p ts)

-- The last task of a list, which begins with `t`.
abbrev pub last_of : Task → List Task → Task
last_of t [] = t
last_of t (s ∷ ts) = last_of s ts

pub last_cursor_of :
    (t : Task) (ts : List Task)
    → last_cursor (t ∷ ts) ≡ some ((last_of t ts).created_at, (last_of t ts).id)
last_cursor_of t [] = refl
last_cursor_of t (s ∷ ts) = last_cursor_of s ts

pub all-last_of :
    (p : Task → Bool) (t : Task) (ts rest : List Task)
    → p t ≡ true
    → all p (ts ++ rest) ≡ true
    → p (last_of t ts) ≡ true
all-last_of p t [] rest h k = h
all-last_of p t (s ∷ ts) rest h k =
    let (e, l) = and_true (p s) (all p (ts ++ rest)) k in all-last_of p s ts rest e l

-- After the last task of a front part come exactly the others.
pub filter-after_last :
    (t : Task) (ts rest : List Task)
    → Ascending (t ∷ ts ++ rest)
    → filter (after (last_of t ts)) (t ∷ ts ++ rest) ≡ rest
filter-after_last t [] rest (h, a) =
    let self : after t t ≡ false = ground arith in rw self (filter-all (after t) rest h)
filter-after_last t (s ∷ ts) rest (h, a) =
    let (e, l) = and_true (after t s) (all (after t) (ts ++ rest)) h in
    let later : after t (last_of s ts) ≡ true = all-last_of (after t) s ts rest e l in
    let before : after (last_of s ts) t ≡ false = ground arith in
    rw before (filter-after_last s ts rest a)
