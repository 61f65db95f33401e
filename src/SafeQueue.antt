-- ===== src/SafeQueue.antt =====
-- base/safequeue.h: the queue between the thread that pushes and the thread of one stream. Each
-- operation holds the mutex, so it is one step.
pub mod Streams
pub mod Invariant
pub mod Delivery
pub mod Examples
use bftrader.Prelude.{Bool, true, false, Option, none, some, List, [], ◌∷◌, ◌++◌, if◌then◌else◌}

-- `deleted` lists what dequeue() has freed without returning it, the oldest first.
pub record SafeQueue (A : Type 0) : Type 0 where
  pub items : List A
  pub is_shutdown : Bool
  pub deleted : List A

-- One pass of dequeue() under the lock: it waits on the condition variable, or returns a pointer,
-- where `none` is nullptr.
pub data Outcome (A : Type 0) : Type 0 where
  waits : Outcome A
  returns : Option A → Outcome A

module _ {A : Type 0} where
  abbrev pub empty_queue : SafeQueue A
  empty_queue = record { items = []; is_shutdown = false; deleted = [] }

  unfoldable pub enqueue : A → SafeQueue A → SafeQueue A
  enqueue t q = record q { items = q.items ++ t ∷ [] }

  unfoldable pub shutdown : SafeQueue A → SafeQueue A
  shutdown q = record q { is_shutdown = true }

  -- The loop that empties the queue; the result lists what is deleted by then.
  unfoldable pub drain : List A → List A → List A
  drain deleted [] = deleted
  drain deleted (val ∷ rest) = drain (deleted ++ val ∷ []) rest

  unfoldable pub dequeue_items : List A → SafeQueue A → Outcome A × SafeQueue A
  dequeue_items [] q = if q.is_shutdown then (returns none, q) else (waits, q)
  dequeue_items (val ∷ rest) q =
      if q.is_shutdown
      then (
        returns none,
        record { items = []; is_shutdown = true; deleted = drain q.deleted (val ∷ rest) },
      )
      else (returns (some val), record q { items = rest })

  unfoldable pub dequeue : SafeQueue A → Outcome A × SafeQueue A
  unfolding dequeue_items drain
  dequeue q = dequeue_items q.items q
