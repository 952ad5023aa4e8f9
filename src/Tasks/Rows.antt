-- ===== src/Tasks/Rows.antt =====
-- The rows of a table after some of them were written.
use domain_process_e2e.Prelude.{
  ℕ, Bool, true, false, not, ◌&&◌, List, if◌then◌else◌, any, ◌≡◌, arith, Bool-cases, inl, inr,
  map-Memᴰ, Memᴰ-any, filter, filter-Memᴰ, take-Memᴰ, length, ◌≤◌, length-take-le,
}
use mathlib.Core.List.{Memᴰ}
use domain_process_e2e.Prelude.Sort.{sort, sort-Memᴰ}
use domain_process_e2e.Model.{Task}
use domain_process_e2e.Tasks.{has_id, write_back, claim_leq, select_for_update}

-- The write left the row alone, or it is the image of a selected one.
pub data Written (f : Task → Task) (selected table : List Task) (t : Task) : Type 0 where
  same : Memᴰ t table → any (has_id t.id) selected ≡ false → Written f selected table t
  written :
      (row : Task)
      → Memᴰ row table
      → any (has_id row.id) selected ≡ true
      → t ≡ f row
      → Written f selected table t

write_back-if :
    (f : Task → Task) (selected table : List Task) (row t : Task)
    → Memᴰ row table
    → t ≡ (if any (has_id row.id) selected then f row else row)
    → Written f selected table t
write_back-if f selected table row t m e = elim (Bool-cases (any (has_id row.id) selected)) [
  | inl h ↦ written row m h (rw h at e)
  | inr h ↦ let q : t ≡ row = rw h at e in rw q (same m h)
]

pub write_back-Written :
    (f : Task → Task) (selected table : List Task) {t : Task}
    → Memᴰ t (write_back f selected table)
    → Written f selected table t
unfolding write_back
write_back-Written f selected table {t} m =
    let (row, old, e) =
      map-Memᴰ (λ (t : Task). if any (has_id t.id) selected then f t else t) table m in
    write_back-if f selected table row t old e

pub selected_any :
    (t : Task) {c : Task} (selected : List Task)
    → Memᴰ c selected
    → c.id ≡ t.id
    → any (has_id t.id) selected ≡ true
selected_any t {c} selected m e = Memᴰ-any (has_id t.id) selected m (ground arith)

-- A selected row is in the table, meets the condition and is not locked.
pub select-Memᴰ :
    (where_ : Task → Bool) (limit : ℕ) (locked : ℕ → Bool) (table : List Task) {t : Task}
    → Memᴰ t (select_for_update where_ limit locked table)
    → Memᴰ t table × (where_ t ≡ true) × (locked t.id ≡ false)
unfolding select_for_update
select-Memᴰ where_ limit locked table {t} m =
    let chosen = filter (λ t. where_ t && not (locked t.id)) table in
    let (old, h) =
      filter-Memᴰ _ table
        (sort-Memᴰ claim_leq chosen (take-Memᴰ limit (sort claim_leq chosen) m)) in
    (old, ground arith, ground arith)

pub length-select-le :
    (where_ : Task → Bool) (limit : ℕ) (locked : ℕ → Bool) (table : List Task)
    → length (select_for_update where_ limit locked table) ≤ limit
unfolding select_for_update
length-select-le where_ limit locked table =
    length-take-le limit (sort claim_leq (filter (λ t. where_ t && not (locked t.id)) table))
