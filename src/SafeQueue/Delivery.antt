-- ===== src/SafeQueue/Delivery.antt =====
-- What a stream delivers: every message once and in order, no lost wake-up, and an end after the
-- shutdown of its queue.
use mathlib.Core.List.{append_assoc, append-nil}
use bftrader.Prelude.{
  ℕ, suc, ◌+◌, ◌≡◌, ◌≤◌, refl, sym, ◌∙◌, Bool, true, false, List, [], ◌∷◌, ◌++◌, length, arith,
  Bool-cases, ◌⊎◌, inl, inr, ◌≢◌,
}
use bftrader.SafeQueue.{enqueue, shutdown, dequeue, dequeue_items}
use bftrader.SafeQueue.Invariant.{stream, Reachable-Inv}
use bftrader.SafeQueue.Streams.{
  Phase, calling, sleeping, woken, exited, Stream, notify_one, push, close, after_dequeue,
  connect_push, Step, pushes, closes, runs, stirs, Reachable, passes, Steps, done, next, write_on,
}

exited-cases : (p : Phase) → (p ≡ exited) ⊎ (p ≢ exited)
exited-cases calling = inr (λ e. cc)
exited-cases sleeping = inr (λ e. cc)
exited-cases woken = inr (λ e. cc)
exited-cases exited = inl refl

module _ {A : Type 0} where
  -- In every state of a stream that any order of pushes, shutdowns, passes of its thread and
  -- spurious wake-ups leads to, the messages that were enqueued are, in order, those written to the
  -- stream, then those that dequeue() deleted, then those still queued, and none is deleted unless
  -- the queue was shut down.
  pub Reachable-accounts :
      {s : Stream A}
      → Reachable s
      → (s.sent ≡ s.written ++ (s.queue.deleted ++ s.queue.items))
        × ((s.queue.is_shutdown ≡ true) ⊎ (s.queue.deleted ≡ []))
  Reachable-accounts {s} r =
      let i = Reachable-Inv r in
      (i.accounts, elim (Bool-cases s.queue.is_shutdown) [ inl e ↦ inl e | inr e ↦ inr (i.kept e) ])

  -- In every state that a stream reaches, a thread that sleeps in dequeue() has nothing to do: the
  -- queue is empty and not shut down. No push and no shutdown is missed.
  pub Reachable-sleeping :
      {s : Stream A}
      → Reachable s
      → s.phase ≡ sleeping
      → (s.queue.items ≡ []) × (s.queue.is_shutdown ≡ false)
  Reachable-sleeping r = (Reachable-Inv r).asleep

  -- A stream that has ended was shut down and has asked for no disconnect, or has asked for one.
  pub Reachable-exited :
      {s : Stream A}
      → Reachable s
      → s.phase ≡ exited
      → ((s.queue.is_shutdown ≡ true) × (s.disconnects ≡ 0)) ⊎ (s.disconnects ≡ 1)
  Reachable-exited r = (Reachable-Inv r).over

  -- What was passed to Write was delivered, up to the messages whose writes failed, one for each
  -- disconnect that was asked for, and at most one.
  pub Reachable-delivered :
      {s : Stream A}
      → Reachable s
      → (s.written ≡ s.delivered ++ s.lost) × (length s.lost ≡ s.disconnects) × (s.disconnects ≤ 1)
  Reachable-delivered {s} r =
      let i = Reachable-Inv r in
      (
        i.parts,
        i.losses,
        elim (exited-cases s.phase) [
          | inl e ↦ ground (arith, i.over e)
          | inr h ↦ ground (arith, i.open_still h)
        ],
      )

  abbrev Ended : Stream A → Stream A → Type 0
  Ended s t =
      (t.phase ≡ exited)
      × (t.written ≡ s.written)
      × (t.queue.is_shutdown ≡ true)
      × (t.queue.items ≡ [])

  -- A pass of the loop on a queue that was shut down ends the stream.
  pass-Ended :
      (ok : Bool) (xs : List A) (b : Bool) (d : List A) (p : Phase) (w v f l : List A) (n : ℕ)
      → b ≡ true
      → let s = stream xs b d p w v f l n in Ended s (connect_push ok s)
  unfolding connect_push after_dequeue dequeue dequeue_items
  pass-Ended ok [] true d p w v f l n h = (refl, refl, refl, refl)
  pass-Ended ok (x ∷ xs) true d p w v f l n h = (refl, refl, refl, refl)
  pass-Ended ok xs false d p w v f l n h = cc

  connect_push-Ended :
      (ok : Bool) (s : Stream A) → s.queue.is_shutdown ≡ true → Ended s (connect_push ok s)
  connect_push-Ended ok s h =
      pass-Ended ok s.queue.items s.queue.is_shutdown s.queue.deleted s.phase s.written s.delivered
        s.lost s.sent s.disconnects h

  -- What steps after a shutdown leave: a stream that has made no pass, or has ended by one.
  abbrev Closed : Stream A → ℕ → Stream A → Type 0
  Closed s n t =
      (t.queue.is_shutdown ≡ true)
      × (t.written ≡ s.written)
      × (((n ≡ 0) × (t.phase ≢ sleeping)) ⊎ ((n ≡ 1) × (t.phase ≡ exited)))

  Step-Closed :
      (s : Stream A) (n : ℕ) {t u : Stream A}
      → Closed s n t
      → (x : Step t u) → Closed s (n + passes x) u
  unfolding push enqueue close shutdown notify_one
  Step-Closed s n (a, b, c) (pushes v) = (a, b, ground arith)
  Step-Closed s n (a, b, c) closes = (refl, b, ground arith)
  Step-Closed s n {t} (a, b, c) (runs ok can) =
      let (e, w, h, _) = connect_push-Ended ok t a in (h, w ∙ b, inr (ground arith, e))
  Step-Closed s n (a, b, c) (stirs e) = (a, b, ground arith)

  Steps-Closed :
      {s t : Stream A} {n : ℕ}
      → s.queue.is_shutdown ≡ true
      → s.phase ≢ sleeping
      → Steps s n t
      → Closed s n t
  Steps-Closed h q done = (h, refl, inl (refl, q))
  Steps-Closed {s} h q (next {n = n} r x) = Step-Closed s n (Steps-Closed h q r) x

  -- From a reachable state whose queue was shut down, whatever else happens, the thread of the
  -- stream writes nothing more, does not sleep again, and makes at most one further pass, after
  -- which it has left its loop.
  pub Steps-shutdown :
      {s t : Stream A} {n : ℕ}
      → Reachable s
      → s.queue.is_shutdown ≡ true
      → Steps s n t
      → (t.written ≡ s.written)
        × (((n ≡ 0) × (t.phase ≢ sleeping)) ⊎ ((n ≡ 1) × (t.phase ≡ exited)))
  Steps-shutdown r h x =
      let c = Steps-Closed h (λ e. ground (arith, (Reachable-Inv r).asleep e)) x in (c.1, c.2)

  write_on-stream :
      (xs : List A) (b : Bool) (d : List A) (p : Phase) (w v f l : List A) (n : ℕ)
      → b ≡ false
      → let t = write_on (suc (length xs)) (stream xs b d p w v f l n) in
        (t.written ≡ w ++ xs) × (t.queue.items ≡ []) × (t.phase ≡ sleeping)
  unfolding write_on connect_push after_dequeue dequeue dequeue_items
  write_on-stream xs true d p w v f l n h = cc
  write_on-stream [] false d p w v f l n h = (sym (append-nil w), refl, refl)
  write_on-stream (x ∷ xs) false d p w v f l n h =
      let (a, b, c) = write_on-stream xs false d calling (w ++ x ∷ []) (v ++ x ∷ []) f l n refl in
      (a ∙ append_assoc w (x ∷ []) xs, b, c)

  -- Enough passes of the loop with open stream write the whole queue, and the thread sleeps.
  pub write_on-items :
      (s : Stream A)
      → s.queue.is_shutdown ≡ false
      → let t = write_on (suc (length s.queue.items)) s in
        (t.written ≡ s.written ++ s.queue.items) × (t.queue.items ≡ []) × (t.phase ≡ sleeping)
  write_on-items s h =
      write_on-stream s.queue.items s.queue.is_shutdown s.queue.deleted s.phase s.written
        s.delivered s.lost s.sent s.disconnects h
