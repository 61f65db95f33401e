-- ===== src/Backtest/Replay/Threads.antt =====
-- The reader threads of the replay: those that started are joined, read, or were lost by a second
-- start.
use bftrader.Prelude.{
  ℕ, ◌+◌, ◌≡◌, refl, ap, ◌∙◌, Bool, true, false, not, ◌&&◌, Option, none, some, List, [], ◌∷◌,
  if◌then◌else◌, Text, arith,
}
use bftrader.Backtest.Replay.{
  DatafeedClient, DbService, new_db_service, stopped, free_client, push_tick, shutdown,
  connect_datafeed, disconnect_datafeed, on_ping, on_trade_will_begin, on_trade_stopped,
}

-- The slots; `ok` is the answer of the datafeed.
pub data Call : Type 0 where
  connects : Text → Call
  disconnects pings stops : Call
  begins : (ok : Bool) → Call

unfoldable pub call : Call → DbService → DbService
call (connects client_id) s = connect_datafeed client_id s
call disconnects s = disconnect_datafeed s
call pings s = on_ping s
call stops s = on_trade_stopped s
call (begins ok) s = on_trade_will_begin ok s

abbrev pub call_all : List Call → DbService → DbService
call_all [] s = s
call_all (c ∷ cs) s = call_all cs (call c s)

-- The threads that client_ holds.
abbrev pub held : Option DatafeedClient → ℕ
held none = 0
held (some c) = if c.reading then 1 else 0

-- Whether no replay begins while another one may run.
abbrev pub apart : (may_run : Bool) → List Call → Bool
apart b [] = true
apart b (begins ok ∷ cs) = not b && apart true cs
apart b (pings ∷ cs) = apart b cs
apart b (c ∷ cs) = apart false cs

abbrev Balanced : DbService → Type 0
Balanced s = s.started ≡ s.joined + s.lost + held s.client

-- A replay may run only where `b` says so, and no thread is lost so far.
abbrev Quiet : Bool → DbService → Type 0
Quiet b s = (s.lost ≡ 0) × ((b ≡ false) → held s.client ≡ 0)

-- By the client, which is none or has the given fields.
freed :
    (o : Option DatafeedClient) (t : Bool) (g p st j l : ℕ)
    → let s : DbService = record {
      client = o;
      timer = t;
      got_contracts = g;
      pings = p;
      started = st;
      joined = j;
      lost = l;
    } in
      let s' = free_client s in
      Balanced s → (s'.started ≡ s'.joined + s'.lost) × (s'.lost ≡ l) × (s'.client ≡ none)
unfolding free_client stopped
freed none t g p st j l b = (omega (arith, b), refl, refl)
freed (some c) t g p st j l b = ground (arith, b)

free_client-Balanced :
    (s : DbService)
    → Balanced s
    → let s' = free_client s in
      (s'.started ≡ s'.joined + s'.lost) × (s'.lost ≡ s.lost) × (s'.client ≡ none)
free_client-Balanced s b =
    freed s.client s.timer s.got_contracts s.pings s.started s.joined s.lost b

begun :
    (ok : Bool) (o : Option DatafeedClient) (t : Bool) (g p st j l : ℕ)
    → let s : DbService = record {
      client = o;
      timer = t;
      got_contracts = g;
      pings = p;
      started = st;
      joined = j;
      lost = l;
    } in
      let s' = on_trade_will_begin ok s in Balanced s → Balanced s' × (held o ≡ 0 → s'.lost ≡ l)
unfolding on_trade_will_begin push_tick
begun ok none t g p st j l b = (b, λ h. refl)
begun true (some c) t g p st j l b = (ground (arith, b), λ h. ground arith)
begun false (some c) t g p st j l b = (b, λ h. refl)

ended :
    (o : Option DatafeedClient) (t : Bool) (g p st j l : ℕ)
    → let s : DbService = record {
      client = o;
      timer = t;
      got_contracts = g;
      pings = p;
      started = st;
      joined = j;
      lost = l;
    } in
      let s' = on_trade_stopped s in Balanced s → Balanced s' × (s'.lost ≡ l) × (held s'.client ≡ 0)
unfolding on_trade_stopped stopped
ended none t g p st j l b = (b, refl, refl)
ended (some c) t g p st j l b = (ground (arith, b), ground arith, ground arith)

pinged :
    (s : DbService)
    → Balanced s
    → Balanced (on_ping s) × ((on_ping s).lost ≡ s.lost) × (held (on_ping s).client ≡ held s.client)
unfolding on_ping
pinged s b = ground (arith, b)

call-Balanced : (c : Call) (s : DbService) → Balanced s → Balanced (call c s)
unfolding call connect_datafeed disconnect_datafeed
call-Balanced (connects client_id) s b =
    let (e, _, _) = free_client-Balanced s b in omega (arith, e)
call-Balanced disconnects s b = let (e, _, c) = free_client-Balanced s b in ground (arith, e, c)
call-Balanced pings s b = (pinged s b).0
call-Balanced stops s b =
    (ended s.client s.timer s.got_contracts s.pings s.started s.joined s.lost b).0
call-Balanced (begins ok) s b =
    (begun ok s.client s.timer s.got_contracts s.pings s.started s.joined s.lost b).0

call_all-Balanced : (cs : List Call) (s : DbService) → Balanced s → Balanced (call_all cs s)
call_all-Balanced [] s b = b
call_all-Balanced (c ∷ cs) s b = call_all-Balanced cs (call c s) (call-Balanced c s b)

call_all-lost :
    (cs : List Call) (b : Bool) (s : DbService)
    → Balanced s
    → Quiet b s
    → apart b cs ≡ true
    → (call_all cs s).lost ≡ 0
unfolding call connect_datafeed disconnect_datafeed
call_all-lost [] b s h q a = q.0
call_all-lost (connects client_id ∷ cs) b s h q a =
    let (_, l, _) = free_client-Balanced s h in
    call_all-lost cs false (connect_datafeed client_id s) (call-Balanced (connects client_id) s h)
      (l ∙ q.0, λ e. refl) a
call_all-lost (disconnects ∷ cs) b s h q a =
    let (_, l, c) = free_client-Balanced s h in
    call_all-lost cs false (disconnect_datafeed s) (call-Balanced disconnects s h)
      (l ∙ q.0, λ e. ap held c) a
call_all-lost (pings ∷ cs) b s h q a =
    let (h', l, k) = pinged s h in call_all-lost cs b (on_ping s) h' (l ∙ q.0, λ e. k ∙ q.1 e) a
call_all-lost (stops ∷ cs) b s h q a =
    let (h', l, k) = ended s.client s.timer s.got_contracts s.pings s.started s.joined s.lost h in
    call_all-lost cs false (on_trade_stopped s) h' (l ∙ q.0, λ e. k) a
call_all-lost (begins ok ∷ cs) b s h q a =
    let (h', keeps) =
      begun ok s.client s.timer s.got_contracts s.pings s.started s.joined s.lost h in
    call_all-lost cs true (on_trade_will_begin ok s) h' (keeps (q.1 (ground arith)) ∙ q.0, λ e. cc)
      (ground arith)

-- After any slots in which a replay is stopped, or its client replaced, before the next one begins,
-- the reader threads that were started are those joined and the one still held, and after
-- shutdown() all of them are joined and the client is deleted.
pub shutdown-call_all-apart :
    (cs : List Call)
    → apart false cs ≡ true
    → let s = call_all cs new_db_service in
      (s.started ≡ s.joined + held s.client)
      × ((shutdown s).started ≡ (shutdown s).joined)
      × ((shutdown s).client ≡ none)
unfolding shutdown
shutdown-call_all-apart cs a =
    let s = call_all cs new_db_service in
    let b = call_all-Balanced cs new_db_service refl in
    let l = call_all-lost cs false new_db_service refl (refl, λ e. refl) a in
    let (e, l', c) = free_client-Balanced (record s { timer = false }) b in
    (omega (arith, b, l), omega (arith, e, l', l), c)
