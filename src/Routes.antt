-- ===== src/Routes.antt =====
-- src/domain_processing_service/routes.py, get_job: one page of a job's tasks and the cursor to the
-- next. The cursor is the pair that Cursor.encode writes and Cursor.decode reads.
pub mod Pages
pub mod Walk
pub mod Create
pub mod CreateJob
pub mod Commits
pub mod Fresh
pub mod Missing
pub mod Dict
pub mod Names
pub mod Atomic
pub mod Started
pub mod Replay
pub mod Rows
pub mod Created
pub mod Total
pub mod Cursor
pub mod GetJob
pub mod Api
use domain_process_e2e.Prelude.{
  ℕ, ◌+◌, Bool, List, [], ◌∷◌, ltb, leb, if◌then◌else◌, Option, none, some, length, take, ◌==◌,
}
use domain_process_e2e.Model.{Task}
use domain_process_e2e.Tasks.{get_by_job_id_paginated}

pub record Page : Type 0 where
  pub results : List Task
  pub next_cursor : Option (ℕ × ℕ)

-- The limit of a page from the query and the settings; `none` is the answer 400, which a negative
-- limit gets as 0 does.
unfoldable pub page_limit : ℕ → ℕ → Option ℕ → Option ℕ
page_limit default_page_size max_page_size limit = checked (chosen limit)
  where
    chosen : Option ℕ → ℕ
    chosen none = default_page_size
    chosen (some n) = n

    checked : ℕ → Option ℕ
    checked n = if n == 0 then none else some (if ltb max_page_size n then max_page_size else n)

-- the cursor of `tasks[-1]`
abbrev pub last_cursor : List Task → Option (ℕ × ℕ)
last_cursor [] = none
last_cursor (t ∷ []) = some (t.created_at, t.id)
last_cursor (t ∷ s ∷ ts) = last_cursor (s ∷ ts)

abbrev pub page_of : ℕ → List Task → Page
page_of limit tasks =
    if ltb limit (length tasks)
    then record { results = take limit tasks; next_cursor = last_cursor (take limit tasks) }
    else record { results = tasks; next_cursor = none }

unfoldable pub get_job_page : List Task → ℕ → ℕ → Option (ℕ × ℕ) → Page
get_job_page table job_id limit cursor =
    page_of limit (get_by_job_id_paginated table job_id (limit + 1) cursor)
