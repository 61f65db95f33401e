-- ===== src/Ctp/Commands/Order.antt =====
-- ctpgateway/gatewaymgr.cpp: no command is lost, freed twice or sent under a used identifier, and a
-- queue that CTP accepts empties in its order.
use mathlib.Core.Path.{subst}
use bftrader.Prelude.{
  ℕ, zero, suc, ◌+◌, ◌^◌, ◌<◌, ◌||◌, Bool, true, false, List, [], ◌∷◌, ◌++◌, map, ◌≡◌, refl, ap,
  ◌∙◌, sym, length, add32, ltb, ◌==◌, if◌then◌else◌, arith, Bool-cases, inl, inr, ◌⊎◌,
}
use bftrader.Ctp.Commands.{
  CtpCmd, Queue, Event, runs, elapses, resets, run_queue, on_run_cmd_interval, run_cmd, calls,
  reset_cmds, after_event, after_events, too_many_per_second, too_many_pending,
}

abbrev pub occurrences : ℕ → List ℕ → ℕ
occurrences c [] = 0
occurrences c (x ∷ xs) = (if x == c then 1 else 0) + occurrences c xs

occurrences-append :
    (c : ℕ) (xs ys : List ℕ) → occurrences c (xs ++ ys) ≡ occurrences c xs + occurrences c ys
occurrences-append c [] ys = omega arith
occurrences-append c (x ∷ xs) ys = omega (arith, occurrences-append c xs ys)

calls-append :
    (xs : List CtpCmd) (cmd : CtpCmd) → calls (xs ++ cmd ∷ []) ≡ calls xs ++ cmd.call ∷ []
unfolding calls
calls-append [] cmd = refl
calls-append (x ∷ xs) cmd = rw (calls-append xs cmd) refl

-- The commands handed to runCmd.
abbrev pub submitted : List Event → List ℕ
submitted [] = []
submitted (runs now cmd ∷ es) = cmd.call ∷ submitted es
submitted (elapses now ∷ es) = submitted es
submitted (resets ∷ es) = submitted es

abbrev pub held_or_freed : ℕ → Queue → ℕ
held_or_freed c q = occurrences c (calls q.cmds) + occurrences c q.freed

occurrences-submitted :
    (c : ℕ) (e : Event) (es : List Event)
    → occurrences c (submitted (e ∷ es))
      ≡ occurrences c (submitted (e ∷ [])) + occurrences c (submitted es)
occurrences-submitted c (runs now cmd) es = omega arith
occurrences-submitted c (elapses now) es = omega arith
occurrences-submitted c resets es = omega arith

-- The items of the first list one after another onto the second.
abbrev pub moved : List ℕ → List ℕ → List ℕ
moved [] ys = ys
moved (x ∷ xs) ys = moved xs (x ∷ ys)

-- n, n - 1 and so on down to 1.
abbrev pub countdown : ℕ → List ℕ
countdown zero = []
countdown (suc n) = suc n ∷ countdown n

module _ (answer : ℕ → ℕ → ℕ) where
  run_queue-held :
      (c now : ℕ) (cmds : List CtpCmd) (q : Queue)
      → q.cmds ≡ cmds
      → held_or_freed c (run_queue answer now cmds q) ≡ held_or_freed c q
  unfolding run_queue calls
  run_queue-held c now [] q e = refl
  run_queue-held c now (cmd ∷ rest) q e = rw e (ground arith)

  after_event-held :
      (c : ℕ) (e : Event) (q : Queue)
      → held_or_freed c (after_event answer e q)
        ≡ occurrences c (submitted (e ∷ [])) + held_or_freed c q
  unfolding after_event on_run_cmd_interval run_cmd reset_cmds calls
  after_event-held c (runs now cmd) q = ground (
    arith,
    calls-append q.cmds (record cmd { expires = add32 now 1000 }),
    calls-append q.cmds (record cmd { expires = add32 now cmd.delay_tick }),
    occurrences-append c (calls q.cmds) (cmd.call ∷ []),
  )
  after_event-held c (elapses now) q = omega (arith, run_queue-held c now q.cmds q refl)
  after_event-held c resets q = omega (arith, occurrences-append c (calls q.cmds) q.freed)

  -- After any events every command that was submitted is queued or has been freed, as often as it
  -- was submitted.
  pub held_or_freed-after_events :
      (c : ℕ) (es : List Event)
      → held_or_freed c (after_events answer es) ≡ occurrences c (submitted es)
  unfolding calls
  held_or_freed-after_events c [] = refl
  held_or_freed-after_events c (e ∷ es) =
      after_event-held c e (after_events answer es)
      ∙ (rw (held_or_freed-after_events c es) (sym (occurrences-submitted c e es)))

  -- Nothing is sent, or one request under the next identifier.
  abbrev Sends : Queue → Queue → Type 0
  Sends q q' =
      ((q'.sent ≡ q.sent) × (q'.req_id ≡ q.req_id))
      ⊎ ((call : ℕ) × (q'.sent ≡ (call, add32 q.req_id 1) ∷ q.sent)
          × (q'.req_id ≡ add32 q.req_id 1))

  run_queue-Sends :
      (now : ℕ) (cmds : List CtpCmd) (q : Queue) → Sends q (run_queue answer now cmds q)
  unfolding run_queue
  run_queue-Sends now [] q = inl (refl, refl)
  run_queue-Sends now (cmd ∷ rest) q = elim (Bool-cases (ltb now cmd.expires)) [
    | inl e ↦ rw e (inl (refl, refl))
    | inr e ↦ rw e (elim (Bool-cases (answer cmd.call (add32 q.req_id 1) == too_many_per_second)) [
      | inl a ↦ rw a (inr (cmd.call, refl, refl))
      | inr a ↦ rw a (inr (cmd.call, refl, refl))
    ])
  ]

  after_event-Sends : (e : Event) (q : Queue) → Sends q (after_event answer e q)
  unfolding after_event on_run_cmd_interval run_cmd reset_cmds
  after_event-Sends (runs now cmd) q =
      let result = answer cmd.call (add32 q.req_id 1) in
      elim (Bool-cases (cmd.delay_tick == 0)) [
        | inl e ↦
            rw e (elim (Bool-cases (result == too_many_per_second || result == too_many_pending)) [
              | inl a ↦ rw a (inr (cmd.call, refl, refl))
              | inr a ↦ rw a (inr (cmd.call, refl, refl))
            ])
        | inr e ↦ rw e (inl (refl, refl))
      ]
  after_event-Sends (elapses now) q = run_queue-Sends now q.cmds q
  after_event-Sends resets q = inl (refl, refl)

  -- While fewer than 2 ^ 32 requests have gone out, the last identifier is their number.
  abbrev Numbered : Queue → Type 0
  Numbered q =
      length q.sent < 2 ^ 32
      → (q.req_id ≡ length q.sent) × (map (λ s. s.1) q.sent ≡ countdown (length q.sent))

  Sends-Numbered : (q q' : Queue) → Sends q q' → Numbered q → Numbered q'
  Sends-Numbered q q' (inl (s, r)) n w = rw (s, r) (n (subst (λ x. length x < 2 ^ 32) s w))
  Sends-Numbered q q' (inr (call, s, r)) n w =
      let low : suc (length q.sent) < 2 ^ 32 = subst (λ x. length x < 2 ^ 32) s w in
      let (e, ids) = n (omega (arith, low)) in
      let next : add32 q.req_id 1 ≡ suc (length q.sent) = omega (arith, low, e) in
      rw (s, r) (rw (next, ids) (refl, refl))

  numbered : (es : List Event) → Numbered (after_events answer es)
  numbered [] w = (refl, refl)
  numbered (e ∷ es) w =
      Sends-Numbered (after_events answer es) (after_events answer (e ∷ es))
        (after_event-Sends e (after_events answer es)) (numbered es) w

  -- While fewer than 2 ^ 32 requests have gone out, they carry the identifiers 1, 2, 3 and so on,
  -- each once and in this order.
  pub identifiers-after_events :
      (es : List Event)
      → length (after_events answer es).sent < 2 ^ 32
      → map (λ s. s.1) (after_events answer es).sent
        ≡ countdown (length (after_events answer es).sent)
  identifiers-after_events es w = (numbered es w).1

  -- The timer fires once for each clock that it reads.
  abbrev pub intervals : List ℕ → Queue → Queue
  intervals [] q = q
  intervals (now ∷ nows) q = intervals nows (on_run_cmd_interval answer now q)

  -- The clocks reach the expiry of each command in turn, some of them too early for the one in front.
  abbrev pub reached : List ℕ → List CtpCmd → Bool
  reached [] [] = true
  reached [] (cmd ∷ cmds) = false
  reached (now ∷ nows) [] = true
  reached (now ∷ nows) (cmd ∷ cmds) =
      reached nows (if ltb now cmd.expires then cmd ∷ cmds else cmds)

  reached-nil : (nows : List ℕ) → reached nows [] ≡ true
  reached-nil [] = refl
  reached-nil (now ∷ nows) = refl

  -- What an interval makes of a queue with the given commands.
  abbrev after_interval : ℕ → CtpCmd → List CtpCmd → Queue → Queue
  after_interval now cmd rest q = if ltb now cmd.expires then q else record {
    cmds = rest;
    req_id = add32 q.req_id 1;
    sent = (cmd.call, add32 q.req_id 1) ∷ q.sent;
    failed = q.failed;
    freed = cmd.call ∷ q.freed;
  }

  run_queue_accepted :
      (now : ℕ) (cmd : CtpCmd) (rest : List CtpCmd) (q : Queue)
      → (answer cmd.call (add32 q.req_id 1) == too_many_per_second) ≡ false
      → run_queue answer now (cmd ∷ rest) q ≡ after_interval now cmd rest q
  unfolding run_queue
  run_queue_accepted now cmd rest q ok = rw ok refl

  run_queue-nil : (now : ℕ) (q : Queue) → q.cmds ≡ [] → on_run_cmd_interval answer now q ≡ q
  unfolding on_run_cmd_interval run_queue
  run_queue-nil now q e = rw e refl

  abbrev pub Drained : List CtpCmd → Queue → Queue → Type 0
  Drained cmds q q' =
      (q'.cmds ≡ []) × (map (λ s. s.0) q'.sent ≡ moved (calls cmds) (map (λ s. s.0) q.sent))

  drain :
      (nows : List ℕ) (cmds : List CtpCmd) (q : Queue)
      → q.cmds ≡ cmds
      → ((call id : ℕ) → (answer call id == too_many_per_second) ≡ false)
      → reached nows cmds ≡ true
      → Drained cmds q (intervals nows q)
  unfolding on_run_cmd_interval calls
  drain [] [] q e ok due = (e, refl)
  drain [] (cmd ∷ rest) q e ok due = cc
  drain (now ∷ nows) [] q e ok due =
      subst (λ x. Drained [] q (intervals nows x)) (sym (run_queue-nil now q e))
        (drain nows [] q e ok (reached-nil nows))
  drain (now ∷ nows) (cmd ∷ rest) q e ok due =
      let step =
        ap (λ cmds. run_queue answer now cmds q) e ∙ run_queue_accepted now cmd rest q (ok _ _) in
      subst (λ x. Drained (cmd ∷ rest) q (intervals nows x)) (sym step)
        (elim (Bool-cases (ltb now cmd.expires)) [
          | inl early ↦ rw early (drain nows (cmd ∷ rest) q e ok (rw early at due))
          | inr late ↦ rw late (drain nows rest _ refl ok (rw late at due))
        ])

  -- When CTP refuses no request as too fast and the clocks that the intervals read reach the expiry
  -- of each queued command in turn, as the code compares them, the queue is empty after these
  -- intervals, and the requests have gone out in its order; an interval whose clock is before the
  -- expiry of the command in front may come between.
  pub intervals-drain :
      (nows : List ℕ) (q : Queue)
      → ((call id : ℕ) → (answer call id == too_many_per_second) ≡ false)
      → reached nows q.cmds ≡ true
      → ((intervals nows q).cmds ≡ [])
        × (map (λ s. s.0) (intervals nows q).sent ≡ moved (calls q.cmds) (map (λ s. s.0) q.sent))
  intervals-drain nows q ok due = drain nows q.cmds q refl ok due
