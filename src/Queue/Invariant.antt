-- ===== src/Queue/Invariant.antt =====
-- What holds of a queue between two operations, and the order of its items.
use domain_process_e2e.Prelude.{
  ◌+◌, ◌≤◌, ◌<◌, List, [], ◌∷◌, ◌++◌, Option, none, some, length, length-append, ◌≡◌, arith,
  is_some, true, ◌↔◌,
}
use domain_process_e2e.Queue.{BoundedQueue, put, get, available_capacity}

-- A caller's operations. One that cannot go on leaves the queue alone.
pub data Op {ℓ} (A : Type ℓ) : Type ℓ where
  puts : A → Op A
  gets : Op A

-- The queue after the operations, what was accepted and what was handed out, in order.
pub record Run {ℓ} (A : Type ℓ) : Type ℓ where
  pub queue : BoundedQueue A
  pub accepted : List A
  pub handed_out : List A

module _ {ℓ} {A : Type ℓ} where
  -- The counters agree with the items, and neither the items nor the peak pass the capacity.
  pub record IsValid (q : BoundedQueue A) : Type 0 where
    pub bounded : length q.items ≤ q.stats.capacity
    pub size_exact : q.stats.size ≡ length q.items
    pub balance : q.stats.total_enqueued ≡ q.stats.total_dequeued + length q.items
    pub peak :
        (q.stats.size ≤ q.stats.max_size_reached) × (q.stats.max_size_reached ≤ q.stats.capacity)
    pub unfinished_le : length q.items ≤ q.unfinished

  pub put-IsValid :
      (q q' : BoundedQueue A) (item : A) → IsValid q → put q item ≡ some q' → IsValid q'
  unfolding put
  put-IsValid q q' item v h = ground (arith, length-append q.items (item ∷ []))

  -- On a valid queue a put goes through exactly if there is capacity left.
  pub put_iff_room :
      (q : BoundedQueue A) (item : A)
      → IsValid q
      → (is_some (put q item) ≡ true) ↔ (0 < available_capacity q)
  unfolding put available_capacity
  put_iff_room q item v = (λ h. ground arith, λ h. ground arith)

  abbrev after_put : Run A → A → Option (BoundedQueue A) → Run A
  after_put r item none = r
  after_put r item (some q) = record r { queue = q; accepted = r.accepted ++ item ∷ [] }

  abbrev after_get : Run A → Option (A × BoundedQueue A) → Run A
  after_get r none = r
  after_get r (some (item, q)) = record r { queue = q; handed_out = r.handed_out ++ item ∷ [] }

  abbrev step : Run A → Op A → Run A
  step r (puts item) = after_put r item (put r.queue item)
  step r gets = after_get r (get r.queue)

  pub run : Run A → List (Op A) → Run A
  run r [] = r
  run r (op ∷ ops) = run (step r op) ops

  -- What was accepted is what was handed out and then what is still queued.
  pub record IsFifo (r : Run A) : Type ℓ where
    pub valid : IsValid r.queue
    pub in_order : r.accepted ≡ r.handed_out ++ r.queue.items
