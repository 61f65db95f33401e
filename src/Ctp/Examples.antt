-- ===== src/Ctp/Examples.antt =====
-- ctpgateway: the ring buffer and the queue of requests at concrete values.
use bftrader.Prelude.{
  arith, ℕ, ◌≡◌, refl, some, none, List, [], ◌∷◌, map, length, ◌==◌, if◌then◌else◌,
}
use bftrader.Ctp.RingBuffer.{RingBuffer, init, get_latest_tick, get_pre_latest_tick, nulls}
use bftrader.Ctp.RingBuffer.Latest.{latest-put_all, put_all}
use bftrader.Ctp.Commands.{
  CtpCmd, Queue, Event, runs, elapses, after_events, too_many_per_second, calls, run_cmd,
  on_run_cmd_interval, run_queue, after_event,
}
use bftrader.Ctp.Commands.Order.{
  held_or_freed, held_or_freed-after_events, occurrences, submitted, identifiers-after_events,
  countdown, intervals, intervals-drain,
}

abbrev three_slots : RingBuffer ℕ
three_slots = record { item_count = 3; head = none; items = none ∷ none ∷ none ∷ [] }

-- Four puts into three slots.
put_all_run :
    (get_latest_tick (put_all (14 ∷ 13 ∷ 12 ∷ 11 ∷ []) three_slots) ≡ some 14)
    × (get_pre_latest_tick (put_all (14 ∷ 13 ∷ 12 ∷ 11 ∷ []) three_slots) ≡ some 13)
unfolding init nulls
put_all_run = latest-put_all 400 3 three_slots (14 ∷ 13 ∷ 12 ∷ 11 ∷ []) (omega arith) refl

abbrev login : CtpCmd
login = record { call = 7; delay_tick = 1000; expires = 0 }

abbrev query : CtpCmd
query = record { call = 8; delay_tick = 0; expires = 0 }

-- The first request is too fast, every other is accepted.
abbrev busy_once : ℕ → ℕ → ℕ
busy_once call id = if id == 1 then too_many_per_second else 0

-- A login waits a second; a query is refused once and goes out behind it.
abbrev morning : List Event
morning =
    elapses 2100 ∷ elapses 2050 ∷ elapses 1010 ∷ elapses 500 ∷ runs 20 query ∷ runs 0 login ∷ []

morning_test : (after_events busy_once morning).sent ≡ (8, 3) ∷ (7, 2) ∷ (8, 1) ∷ []
unfolding after_event run_cmd on_run_cmd_interval run_queue
morning_test = refl

held_or_freed-after_events_example :
    held_or_freed 8 (after_events busy_once morning) ≡ occurrences 8 (submitted morning)
held_or_freed-after_events_example = held_or_freed-after_events busy_once 8 morning

identifiers-after_events_example :
    map (λ s. s.1) (after_events busy_once morning).sent
    ≡ countdown (length (after_events busy_once morning).sent)
unfolding after_event run_cmd on_run_cmd_interval run_queue
identifiers-after_events_example = identifiers-after_events busy_once morning (omega arith)

abbrev two_due : Queue
two_due = record {
  cmds = record login { expires = 1000 } ∷ record query { expires = 1150 } ∷ [];
  req_id = 1;
  sent = (8, 1) ∷ [];
  failed = [];
  freed = [];
}

abbrev accepting : ℕ → ℕ → ℕ
accepting call id = 0

-- The first clock is too early for the login, the third for the query.
abbrev clocks : List ℕ
clocks = 950 ∷ 1050 ∷ 1100 ∷ 1200 ∷ 1300 ∷ []

intervals-drain_example :
    ((intervals accepting clocks two_due).cmds ≡ [])
    × (map (λ s. s.0) (intervals accepting clocks two_due).sent ≡ 8 ∷ 7 ∷ 8 ∷ [])
unfolding calls
intervals-drain_example = intervals-drain accepting clocks two_due (λ call id. refl) refl
