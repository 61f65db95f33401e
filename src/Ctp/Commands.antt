-- ===== src/Ctp/Commands.antt =====
-- ctpgateway/gatewaymgr.cpp: the queue of requests to CTP, which go out one per interval and again
-- when CTP refuses them as too fast.
pub mod Order
use bftrader.Prelude.{ℕ, ◌-◌, ◌^◌, ◌||◌, List, [], ◌∷◌, ◌++◌, map, add32, ltb, ◌==◌, if◌then◌else◌}

-- `call` tells which request `fn` makes.
pub record CtpCmd : Type 0 where
  pub call : ℕ
  pub delay_tick : ℕ
  pub expires : ℕ

-- `sent` lists the requests made, with their identifiers, `failed` the errors emitted and `freed`
-- the commands deleted, each the newest first.
pub record Queue : Type 0 where
  pub cmds : List CtpCmd
  pub req_id : ℕ
  pub sent : List (ℕ × ℕ)
  pub failed : List (ℕ × ℕ)
  pub freed : List ℕ

-- The results -3 and -2 of an int.
abbrev pub too_many_per_second : ℕ
too_many_per_second = 2 ^ 32 - 3

abbrev pub too_many_pending : ℕ
too_many_pending = 2 ^ 32 - 2

abbrev pub requested : ℕ → ℕ → Queue → Queue
requested call id q = record q { req_id = id; sent = (call, id) ∷ q.sent }

-- `answer call id` is what the interface returns to a request.
module _ (answer : ℕ → ℕ → ℕ) where
  -- The body of onRunCmdInterval, on the commands of the queue.
  unfoldable pub run_queue : ℕ → List CtpCmd → Queue → Queue
  run_queue now [] q = q
  run_queue now (cmd ∷ rest) q =
      let id = add32 q.req_id 1 in
      let q' = requested cmd.call id q in
      if ltb now cmd.expires
      then q
      else if answer cmd.call id == too_many_per_second
      then record q' {
        cmds = record cmd { expires = add32 now 1000 } ∷ rest;
        failed = (too_many_per_second, id) ∷ q'.failed;
      }
      else record q' { cmds = rest; freed = cmd.call ∷ q'.freed }

  unfoldable pub on_run_cmd_interval : ℕ → Queue → Queue
  on_run_cmd_interval now q = run_queue now q.cmds q

  unfoldable pub run_cmd : ℕ → CtpCmd → Queue → Queue
  run_cmd now cmd q =
      let id = add32 q.req_id 1 in
      let q' = requested cmd.call id q in
      let result = answer cmd.call id in
      if cmd.delay_tick == 0
      then (if result == too_many_per_second || result == too_many_pending
          then record q' {
            cmds = q'.cmds ++ record cmd { expires = add32 now 1000 } ∷ [];
            failed = (result, id) ∷ q'.failed;
          }
          else record q' { freed = cmd.call ∷ q'.freed })
      else record q { cmds = q.cmds ++ record cmd { expires = add32 now cmd.delay_tick } ∷ [] }

unfoldable pub calls : List CtpCmd → List ℕ
calls [] = []
calls (cmd ∷ cmds) = cmd.call ∷ calls cmds

unfoldable pub reset_cmds : Queue → Queue
reset_cmds q = record q { cmds = []; freed = calls q.cmds ++ q.freed }

-- What happens to the queue, one event after another.
pub data Event : Type 0 where
  runs : ℕ → CtpCmd → Event
  elapses : ℕ → Event
  resets : Event

unfoldable pub after_event : (ℕ → ℕ → ℕ) → Event → Queue → Queue
after_event answer (runs now cmd) q = run_cmd answer now cmd q
after_event answer (elapses now) q = on_run_cmd_interval answer now q
after_event answer resets q = reset_cmds q

abbrev pub new_queue : Queue
new_queue = record { cmds = []; req_id = 0; sent = []; failed = []; freed = [] }

-- The events of the list, whose first item happens last.
abbrev pub after_events : (ℕ → ℕ → ℕ) → List Event → Queue
after_events answer [] = new_queue
after_events answer (e ∷ es) = after_event answer e (after_events answer es)
