-- ===== src/Clients/Examples.antt =====
-- The clients of the gateways, the strategy database and the recorder at concrete inputs.
use bftrader.Prelude.{
  ◌+◌, ◌≡◌, ◌≤◌, refl, true, none, some, false, List, [], ◌∷◌, ◌++◌, map, length, Text, lit, All,
  total, Returns, find, insert,
}
use bftrader.Proto.{notification_beginqueryorders}
use bftrader.Datafeed.Messages.{BfContractData, BfGetContractReq}
use bftrader.SafeQueue.Streams.{
  Stream, new_stream, push, connect_push, notify_one, pushes, runs, Reachable, start, later,
}
use bftrader.SafeQueue.{enqueue, dequeue}
use bftrader.Push.Messages.{BfConnectPushReq, Any, ping, notification}
use bftrader.Push.Service.{note_of}
use bftrader.Push.Subscriptions.{received}
use bftrader.Datafeed.Examples.{empty, empty-IsTyped, tick}
use bftrader.Datafeed.Insert.{invalid_tick}
use bftrader.Datafeed.Ticks.{get_tick}
use bftrader.Datafeed.Outcomes.{exactly}
use bftrader.Datafeed.Memory.{memory, memory_laws}
use bftrader.Datafeed.Encoding.{ticks, bars, contracts, ticks_law, bars_law, contracts_law}
use bftrader.Services.Examples.{six, running, running-IsUp, six-Distinct}
use bftrader.Clients.{Answer, new_mgr, shutdown, connect_gateway, on_ping}
use bftrader.Clients.Threads.{
  Call, connects, disconnected, pings, call, call_all, readers, one, shutdown-call_all,
}
use bftrader.Clients.Dispatch.{got_ping, got_tick, read_push, content, source, read_push-received}
use bftrader.Clients.DbService.{
  DbService, new_db_service, init, connect_datafeed, disconnect_datafeed, slots-init,
}
use bftrader.Clients.DbService
use bftrader.Clients.Recorder.{Recorder, recorded_all, handle_all, get_tick-recorded}

abbrev watcher : BfConnectPushReq
watcher = record {
  clientid = lit "watcher";
  tickhandler = true;
  tradehandler = true;
  loghandler = true;
  symbol = lit "*";
  exchange = lit "*";
  int_param = 0;
  str_param = [];
}

abbrev evening : List Call
evening =
    connects (lit "ctpgateway") watcher
    ∷ pings (λ id. true)
    ∷ pings (λ id. true)
    ∷ disconnected (lit "ctpgateway")
    ∷ pings (λ id. true)
    ∷ []

shutdown-call_all_example :
    let s = call_all evening new_mgr in
    let w = (shutdown s).world in
    (s.world.started ≡ s.world.joined + total readers s.clients)
    × (s.world.created ≡ s.world.deleted + total one s.clients)
    × ((shutdown s).clients ≡ [])
    × (w.started ≡ w.joined)
    × (w.created ≡ w.deleted)
shutdown-call_all_example = shutdown-call_all evening

-- A client that is connected does not connect again.
evening_run :
    (call_all
      (connects (lit "ctpgateway") watcher ∷ pings (λ id. true) ∷ pings (λ id. true) ∷ [])
      new_mgr).world.started
    ≡ 1
unfolding call connect_gateway on_ping find insert
evening_run = refl

abbrev hello : Any
hello = ping (record { message = lit "ctpgateway" })

abbrev begins : Any
begins = notification (note_of notification_beginqueryorders)

-- The first write succeeds, the second fails, and a third message comes too late.
abbrev half_read : Stream Any
half_read =
    push hello (connect_push false (connect_push true (push begins (push hello new_stream))))

half_read-Reachable : Reachable half_read
unfolding push notify_one connect_push dequeue enqueue
half_read-Reachable =
    later
      (later (later (later (later start (pushes hello)) (pushes begins)) (runs true tt))
        (runs false tt))
      (pushes hello)

half_read_run : (half_read.delivered ≡ hello ∷ []) × (half_read.lost ≡ begins ∷ [])
unfolding push notify_one connect_push dequeue enqueue
half_read_run = (refl, refl)

read_push-received_example :
    Returns
      (λ rd.
        ((map content rd.emitted ++ [])
            ++ (half_read.lost ++ (half_read.queue.deleted ++ half_read.queue.items))
          ≡ received watcher (hello ∷ begins ∷ hello ∷ []))
        × All (λ g. source g ≡ lit "ctpgateway") rd.emitted
        × (rd.disconnected ≡ lit "ctpgateway")
        × (length half_read.lost ≡ half_read.disconnects)
        × (half_read.disconnects ≤ 1))
      (read_push (lit "ctpgateway") (hello ∷ []))
unfolding connect_push push dequeue enqueue notify_one
read_push-received_example =
    read_push-received (lit "ctpgateway") watcher (hello ∷ begins ∷ hello ∷ []) (hello ∷ []) []
      half_read half_read-Reachable refl refl

slots-init_example :
    Returns
      (λ s.
        (s.timer ≡ true)
        × (DbService.on_ping 2 running s ≡ none)
        × (connect_datafeed 2 running (lit "cta") s ≡ none)
        × (disconnect_datafeed 2 running s ≡ none))
      (init (lit "o") (lit "t") 2 running (some []) new_db_service)
slots-init_example =
    slots-init (lit "o") (lit "t") six running [] (lit "cta") running-IsUp six-Distinct

abbrev recorder : Recorder
recorder = record { client = some (lit "datarecorder"); pings = 0 }

abbrev no_contracts : Text → BfGetContractReq → Answer BfContractData
no_contracts id req = record { items = []; is_ok = true }

get_tick-recorded_example :
    Returns
      (λ x'. get_tick memory ticks (λ n. true) (exactly tick) x' ≡ some (tick ∷ []))
      (handle_all ticks bars contracts memory
        (recorded_all no_contracts new_mgr recorder (
          got_ping (lit "ctpgateway") (record { message = lit "ctpgateway" })
          ∷ got_tick (lit "ctpgateway") tick
          ∷ []))
        empty)
unfolding invalid_tick
get_tick-recorded_example =
    get_tick-recorded ticks bars contracts memory memory_laws ticks_law bars_law contracts_law
      no_contracts new_mgr (λ n. true) (λ n. refl) recorder (lit "datarecorder") (lit "ctpgateway")
      (got_ping (lit "ctpgateway") (record { message = lit "ctpgateway" }) ∷ []) tick empty refl
      refl empty-IsTyped
