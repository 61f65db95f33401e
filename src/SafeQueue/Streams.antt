-- ===== src/SafeQueue/Streams.antt =====
-- The thread of ConnectPush in ctpgateway/rpcservice.cpp and its copies in btgateway and cta: it
-- takes messages from its queue and writes them to the stream until the queue is shut down or a
-- write fails. Other threads push and shut down between its steps.
use bftrader.Prelude.{
  ℕ, zero, suc, ◌+◌, ◌≡◌, Bool, true, none, some, List, [], ◌∷◌, ◌++◌, if◌then◌else◌,
}
use bftrader.SafeQueue.{SafeQueue, Outcome, waits, returns, empty_queue, enqueue, shutdown, dequeue}

-- The thread is about to call dequeue(), sleeps in it, was woken in it, or has left the loop.
pub data Phase : Type 0 where
  calling sleeping woken exited : Phase

-- `written` lists what was passed to Write, `delivered` those of it where Write returned true, and
-- `lost` those where it returned false; `sent` lists what was enqueued, `disconnects` counts the posted
-- calls of disconnectClient.
pub record Stream (A : Type 0) : Type 0 where
  pub queue : SafeQueue A
  pub phase : Phase
  pub written : List A
  pub delivered : List A
  pub lost : List A
  pub sent : List A
  pub disconnects : ℕ

-- cv_.notify_one(); one thread at most waits on a queue.
unfoldable pub notify_one : Phase → Phase
notify_one sleeping = woken
notify_one p = p

-- The phases in which the thread can take its next step.
abbrev pub CanRun : Phase → Type 0
CanRun calling = Unit {0}
CanRun woken = Unit {0}
CanRun _ = ⊥

module _ {A : Type 0} where
  abbrev pub new_stream : Stream A
  new_stream = record {
    queue = empty_queue;
    phase = calling;
    written = [];
    delivered = [];
    lost = [];
    sent = [];
    disconnects = 0;
  }

  unfoldable pub push : A → Stream A → Stream A
  push t s = record s {
    queue = enqueue t s.queue;
    phase = notify_one s.phase;
    sent = s.sent ++ t ∷ [];
  }

  unfoldable pub close : Stream A → Stream A
  close s = record s { queue = shutdown s.queue; phase = notify_one s.phase }

  -- What follows one pass of dequeue(); the Boolean is the result of writer->Write,
  -- after which the message is deleted.
  unfoldable pub after_dequeue : Bool → Outcome A × SafeQueue A → Stream A → Stream A
  after_dequeue ok (waits, q) s = record s { queue = q; phase = sleeping }
  after_dequeue ok (returns none, q) s = record s { queue = q; phase = exited }
  after_dequeue ok (returns (some t), q) s = record s {
    queue = q;
    written = s.written ++ t ∷ [];
    delivered = if ok then s.delivered ++ t ∷ [] else s.delivered;
    lost = if ok then s.lost else s.lost ++ t ∷ [];
    phase = if ok then calling else exited;
    disconnects = if ok then s.disconnects else s.disconnects + 1;
  }

  unfoldable pub connect_push : Bool → Stream A → Stream A
  unfolding after_dequeue dequeue
  connect_push ok s = after_dequeue ok (dequeue s.queue) s

  -- `stirs` is a spurious return of cv_.wait.
  pub data Step (s : Stream A) : Stream A → Type 0 where
    pushes : (t : A) → Step s (push t s)
    closes : Step s (close s)
    runs : (ok : Bool) → CanRun s.phase → Step s (connect_push ok s)
    stirs : s.phase ≡ sleeping → Step s (record s { phase = woken })

  pub data Reachable : Stream A → Type 0 where
    start : Reachable new_stream
    later : {s t : Stream A} → Reachable s → Step s t → Reachable t

  -- 1 for a pass of the loop, 0 for a step of another thread.
  abbrev pub passes : {s t : Stream A} → Step s t → ℕ
  passes (runs ok c) = 1
  passes _ = 0

  -- Steps from one state to another, with the passes of the loop among them.
  pub data Steps (s : Stream A) : ℕ → Stream A → Type 0 where
    done : Steps s 0 s
    next : {t u : Stream A} {n : ℕ} → Steps s n t → (x : Step t u) → Steps s (n + passes x) u

  -- Passes of the loop whose writes succeed.
  unfoldable pub write_on : ℕ → Stream A → Stream A
  write_on zero s = s
  write_on (suc n) s = write_on n (connect_push true s)
