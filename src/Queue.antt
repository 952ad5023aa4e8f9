-- ===== src/Queue.antt =====
-- src/domain_processing_service/worker/worker.py, BoundedQueue: asyncio.Queue behind counters. A
-- put that would wait on a full queue, and a get on an empty one, give `none`.
pub mod Invariant
use domain_process_e2e.Prelude.{
  ℕ, suc, ◌+◌, ◌-◌, ◌≤◌, Bool, List, [], ◌∷◌, ◌++◌, ltb, leb, ◌==◌, if◌then◌else◌, Option, none,
  some, length,
}

pub record QueueStats : Type 0 where
  pub capacity : ℕ
  pub size : ℕ
  pub max_size_reached : ℕ
  pub total_enqueued : ℕ
  pub total_dequeued : ℕ

-- `items` is the front first; `unfinished` is the count behind task_done and join.
pub record BoundedQueue {ℓ} (A : Type ℓ) : Type ℓ where
  pub items : List A
  pub unfinished : ℕ
  pub stats : QueueStats

module _ {ℓ} {A : Type ℓ} where
  -- `none` is the ValueError.
  unfoldable pub new : ℕ → Option (BoundedQueue A)
  new capacity =
      if capacity == 0
      then none
      else some (record {
        items = [];
        unfinished = 0;
        stats = record {
          capacity = capacity;
          size = 0;
          max_size_reached = 0;
          total_enqueued = 0;
          total_dequeued = 0;
        };
      })

  unfoldable pub size : BoundedQueue A → ℕ
  size q = length q.items

  unfoldable pub available_capacity : BoundedQueue A → ℕ
  available_capacity q = q.stats.capacity - length q.items

  unfoldable pub is_full : BoundedQueue A → Bool
  is_full q = leb q.stats.capacity (length q.items)

  unfoldable pub is_empty : BoundedQueue A → Bool
  is_empty q = length q.items == 0

  -- put and put_nowait, on a queue with room
  unfoldable pub put : BoundedQueue A → A → Option (BoundedQueue A)
  unfolding is_full
  put q item =
      if is_full q
      then none
      else (let items = q.items ++ item ∷ [] in
          let n = length items in
          some (record {
            items = items;
            unfinished = q.unfinished + 1;
            stats = record {
              capacity = q.stats.capacity;
              size = n;
              max_size_reached =
                  if ltb q.stats.max_size_reached n then n else q.stats.max_size_reached;
              total_enqueued = q.stats.total_enqueued + 1;
              total_dequeued = q.stats.total_dequeued;
            };
          }))

  get_from : BoundedQueue A → List A → Option (A × BoundedQueue A)
  get_from q [] = none
  get_from q (item ∷ items) = some (
    item,
    record {
      items = items;
      unfinished = q.unfinished;
      stats = record {
        capacity = q.stats.capacity;
        size = length items;
        max_size_reached = q.stats.max_size_reached;
        total_enqueued = q.stats.total_enqueued;
        total_dequeued = q.stats.total_dequeued + 1;
      };
    },
  )

  -- get and get_nowait
  unfoldable pub get : BoundedQueue A → Option (A × BoundedQueue A)
  unfolding get_from
  get q = get_from q q.items

  -- `none` is asyncio's ValueError: more calls than items.
  unfoldable pub task_done : BoundedQueue A → Option (BoundedQueue A)
  task_done q =
      if q.unfinished == 0 then none else some (record q { unfinished = q.unfinished - 1 })
