-- ===== src/SafeQueue/Examples.antt =====
-- A stream that gets two messages, writes one of them and is shut down; and one that sleeps.
use bftrader.Prelude.{ℕ, ◌≡◌, refl, true, false, [], ◌∷◌, ◌++◌, ◌⊎◌, ◌≢◌}
use bftrader.SafeQueue.{enqueue, shutdown, dequeue}
use bftrader.SafeQueue.Streams.{
  sleeping, exited, Stream, new_stream, push, close, notify_one, connect_push, pushes, closes, runs,
  Reachable, start, later, done, next, write_on,
}
use bftrader.SafeQueue.Delivery.{
  Reachable-accounts, Reachable-sleeping, Reachable-exited, Steps-shutdown, write_on-items,
}

abbrev two_sent : Stream ℕ
two_sent = push 2 (push 1 new_stream)

abbrev one_written : Stream ℕ
one_written = connect_push true two_sent

abbrev closing : Stream ℕ
closing = close one_written

abbrev closed_stream : Stream ℕ
closed_stream = connect_push true closing

two_sent-Reachable : Reachable two_sent
two_sent-Reachable = later (later start (pushes 1)) (pushes 2)

closing-Reachable : Reachable closing
unfolding connect_push push notify_one dequeue enqueue
closing-Reachable = later (later two_sent-Reachable (runs true tt)) closes

closed_stream-Reachable : Reachable closed_stream
unfolding connect_push push notify_one dequeue enqueue close shutdown
closed_stream-Reachable = later closing-Reachable (runs true tt)

closed_run :
    (closed_stream.written ≡ 1 ∷ [])
    × (closed_stream.queue.deleted ≡ 2 ∷ [])
    × (closed_stream.phase ≡ exited)
unfolding connect_push push notify_one dequeue enqueue close shutdown
closed_run = (refl, refl, refl)

Reachable-accounts_example :
    (closed_stream.sent
      ≡ closed_stream.written ++ (closed_stream.queue.deleted ++ closed_stream.queue.items))
    × ((closed_stream.queue.is_shutdown ≡ true) ⊎ (closed_stream.queue.deleted ≡ []))
Reachable-accounts_example = Reachable-accounts closed_stream-Reachable

abbrev asleep : Stream ℕ
asleep = connect_push true new_stream

asleep-Reachable : Reachable asleep
asleep-Reachable = later start (runs true tt)

Reachable-sleeping_example : (asleep.queue.items ≡ []) × (asleep.queue.is_shutdown ≡ false)
unfolding connect_push dequeue
Reachable-sleeping_example = Reachable-sleeping asleep-Reachable refl

closed_ended :
    ((closed_stream.queue.is_shutdown ≡ true) × (closed_stream.disconnects ≡ 0))
    ⊎ (closed_stream.disconnects ≡ 1)
unfolding connect_push push notify_one dequeue enqueue close shutdown
closed_ended = Reachable-exited closed_stream-Reachable refl

Steps-shutdown_example :
    (closed_stream.written ≡ closing.written)
    × (((◌≡◌ {A = ℕ} 1 0) × (closed_stream.phase ≢ sleeping))
        ⊎ ((◌≡◌ {A = ℕ} 1 1) × (closed_stream.phase ≡ exited)))
unfolding connect_push push notify_one dequeue enqueue close shutdown
Steps-shutdown_example = Steps-shutdown closing-Reachable refl (next done (runs true tt))

two_written :
    ((write_on 3 two_sent).written ≡ 1 ∷ 2 ∷ [])
    × ((write_on 3 two_sent).queue.items ≡ [])
    × ((write_on 3 two_sent).phase ≡ sleeping)
unfolding push enqueue
two_written = write_on-items two_sent refl
