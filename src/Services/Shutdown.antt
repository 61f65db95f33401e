-- ===== src/Services/Shutdown.antt =====
-- Start and shutdown: each service is started and shut down in its own thread, and deleted once all
-- threads have ended.
use bftrader.Prelude.{
  ℕ, ◌≡◌, refl, Bool, true, false, Option, none, some, List, [], ◌∷◌, ◌++◌, if◌then◌else◌, ◌>>=◌,
  arith, Returns, All, ap, ◌∙◌,
}
use bftrader.Services.{
  ThreadType, external, main, db, push, rpc, blogic, flogic, Service, logger, profile, db_service,
  push_service, rpc_service, gateway_mgr, cta_mgr, Action, inits, shuts, joins, deletes, ServiceMgr,
  act, Threads, check, on_thread, is_current_on, check_current_on, service_of, thread_started,
  thread_finished, thread_of, without, end_thread, shutdown_services, shutdown, init, new_mgr,
}
use bftrader.Services.Current.{IsUp}

check_current_on-own :
    (p : ThreadType) (id : ℕ) (s : ServiceMgr)
    → s.is_init ≡ true
    → s.is_shutdown ≡ false
    → thread_of p s ≡ some id
    → check_current_on p id s ≡ some tt
unfolding check_current_on is_current_on check on_thread
check_current_on-own external id s i d e = cc
check_current_on-own main id s i d e = ground arith
check_current_on-own db id s i d e = ground arith
check_current_on-own push id s i d e = ground arith
check_current_on-own rpc id s i d e = ground arith
check_current_on-own blogic id s i d e = ground arith
check_current_on-own flogic id s i d e = ground arith

abbrev ended : ThreadType → Service → ℕ → ServiceMgr → ServiceMgr
ended p x id s = without p (act (joins p) (act (shuts x id) s))

end_thread-lem :
    (p : ThreadType) (x : Service) (id : ℕ) (s : ServiceMgr)
    → s.is_init ≡ true
    → s.is_shutdown ≡ false
    → thread_of p s ≡ some id
    → service_of p ≡ some x
    → end_thread p s ≡ some (ended p x id s)
unfolding end_thread thread_finished
end_thread-lem p x id s i d e h = rw e (rw (check_current_on-own p id s i d e) (rw h refl))

-- What shutdown() does, the newest first.
abbrev pub shutdown_log : Threads → List Action
shutdown_log t =
    deletes logger
    ∷ deletes profile
    ∷ deletes db_service
    ∷ deletes push_service
    ∷ deletes rpc_service
    ∷ deletes gateway_mgr
    ∷ deletes cta_mgr
    ∷ shuts logger t.current
    ∷ shuts profile t.current
    ∷ joins db
    ∷ shuts db_service t.for_db
    ∷ joins push
    ∷ shuts push_service t.for_push
    ∷ joins rpc
    ∷ shuts rpc_service t.for_rpc
    ∷ joins blogic
    ∷ shuts gateway_mgr t.for_blogic
    ∷ joins flogic
    ∷ shuts cta_mgr t.for_flogic
    ∷ []

abbrev gone : Threads → ServiceMgr → ServiceMgr
gone t s = record {
  main_thread = none;
  db_thread = none;
  push_thread = none;
  rpc_thread = none;
  blogic_thread = none;
  flogic_thread = none;
  is_init = s.is_init;
  is_shutdown = true;
  done = shutdown_log t ++ s.done;
}

module _ (t : Threads) (s : ServiceMgr) (u : IsUp t s) where
  shutdown_services_up : shutdown_services t.current s ≡ some (gone t s)
  unfolding shutdown_services
  shutdown_services_up =
      let s1 = ended flogic cta_mgr t.for_flogic s in
      let s2 = ended blogic gateway_mgr t.for_blogic s1 in
      let s3 = ended rpc rpc_service t.for_rpc s2 in
      let s4 = ended push push_service t.for_push s3 in
      rw (
        end_thread-lem flogic cta_mgr t.for_flogic s u.has_init u.not_shutdown u.has_flogic refl,
        end_thread-lem blogic gateway_mgr t.for_blogic s1 u.has_init u.not_shutdown u.has_blogic
            refl,
        end_thread-lem rpc rpc_service t.for_rpc s2 u.has_init u.not_shutdown u.has_rpc refl,
        end_thread-lem push push_service t.for_push s3 u.has_init u.not_shutdown u.has_push refl,
        end_thread-lem db db_service t.for_db s4 u.has_init u.not_shutdown u.has_db refl,
      )

  shutdown_up : shutdown t.current s ≡ some (gone t s)
  unfolding shutdown
  shutdown_up =
      ap (λ (b : Bool). if b then none else shutdown_services t.current s) u.not_shutdown
      ∙ shutdown_services_up

-- The threads that QThread::start() brings up.
abbrev pub IsWorker : ThreadType → Type 0
IsWorker external = ⊥
IsWorker main = ⊥
IsWorker p = Unit {0}

abbrev pub id_of : Threads → ThreadType → ℕ
id_of t db = t.for_db
id_of t push = t.for_push
id_of t rpc = t.for_rpc
id_of t blogic = t.for_blogic
id_of t flogic = t.for_flogic
id_of t p = t.current

abbrev pub start_all : Threads → List ThreadType → ServiceMgr → Option ServiceMgr
start_all t [] s = some s
start_all t (p ∷ ps) s = do s' ← thread_started p (id_of t p) s; start_all t ps s'

-- What the started threads do, put before what was done.
abbrev pub start_log : Threads → List ThreadType → List Action → List Action
start_log t [] log = log
start_log t (p ∷ ps) log =
    start_log t ps (elim (service_of p) [ none ↦ log | some x ↦ inits x (id_of t p) ∷ log ])

service_of_worker : (p : ThreadType) → IsWorker p → (x : Service) × (service_of p ≡ some x)
service_of_worker external w = absurd w
service_of_worker main w = absurd w
service_of_worker db w = (_, refl)
service_of_worker push w = (_, refl)
service_of_worker rpc w = (_, refl)
service_of_worker blogic w = (_, refl)
service_of_worker flogic w = (_, refl)

thread_of_up :
    (t : Threads) (p : ThreadType) (s : ServiceMgr)
    → IsWorker p
    → IsUp t s
    → thread_of p s ≡ some (id_of t p)
thread_of_up t external s w u = absurd w
thread_of_up t main s w u = absurd w
thread_of_up t db s w u = u.has_db
thread_of_up t push s w u = u.has_push
thread_of_up t rpc s w u = u.has_rpc
thread_of_up t blogic s w u = u.has_blogic
thread_of_up t flogic s w u = u.has_flogic

act-IsUp : (t : Threads) (a : Action) (s : ServiceMgr) → IsUp t s → IsUp t (act a s)
act-IsUp t a s u = record {
  has_init = u.has_init;
  not_shutdown = u.not_shutdown;
  has_main = u.has_main;
  has_db = u.has_db;
  has_push = u.has_push;
  has_rpc = u.has_rpc;
  has_blogic = u.has_blogic;
  has_flogic = u.has_flogic;
}

start_all-IsUp :
    (t : Threads) (ps : List ThreadType) (s : ServiceMgr)
    → All IsWorker ps
    → IsUp t s
    → Returns (λ s'. IsUp t s' × (s'.done ≡ start_log t ps s.done)) (start_all t ps s)
unfolding thread_started
start_all-IsUp t [] s w u = (s, refl, (u, refl))
start_all-IsUp t (p ∷ ps) s w u =
    let (x, h) = service_of_worker p w.0 in
    let own =
      check_current_on-own p (id_of t p) s u.has_init u.not_shutdown (thread_of_up t p s w.0 u) in
    let s1 : ServiceMgr = act (inits x (id_of t p)) s in
    let (s', e, kept) = start_all-IsUp t ps s1 w.1 (act-IsUp t _ s u) in
    (s', rw own (rw h e), (kept.0, rw h (kept.1)))

init_again : (t : Threads) (s : ServiceMgr) → s.is_init ≡ true → init t s ≡ none
unfolding init
init_again t s e = ground arith

-- A process from its start to its end.
unfoldable pub process : Threads → List ThreadType → Option ServiceMgr
process t ps = do s ← init t new_mgr; s' ← start_all t ps s; shutdown t.current s'

-- A process in which any of the service threads start, in any order, comes to the end of
-- shutdown(): each service was started and shut down in its own thread, the threads are joined
-- before any service is deleted, and from then on every thread check, a second shutdown() and a
-- second init() stop the program.
pub process_lem :
    (t : Threads) (ps : List ThreadType)
    → All IsWorker ps
    → Returns
        (λ s.
          (s.done
            ≡ shutdown_log t
              ++ start_log t ps (inits profile t.current ∷ inits logger t.current ∷ []))
          × ((p : ThreadType) (cur : ℕ) → is_current_on p cur s ≡ none)
          × ((cur : ℕ) → shutdown cur s ≡ none)
          × (init t s ≡ none))
        (process t ps)
unfolding process init is_current_on check shutdown
process_lem t ps w =
    let s0 : ServiceMgr = act (inits profile t.current) (
      act (inits logger t.current) (record {
        main_thread = some t.current;
        db_thread = some t.for_db;
        push_thread = some t.for_push;
        rpc_thread = some t.for_rpc;
        blogic_thread = some t.for_blogic;
        flogic_thread = some t.for_flogic;
        is_init = true;
        is_shutdown = false;
        done = [];
      })) in
    let u0 : IsUp t s0 = record {
      has_init = refl;
      not_shutdown = refl;
      has_main = refl;
      has_db = refl;
      has_push = refl;
      has_rpc = refl;
      has_blogic = refl;
      has_flogic = refl;
    } in
    let (s1, e, (u, log)) = start_all-IsUp t ps s0 w u0 in
    (
      gone t s1,
      rw e (shutdown_up t s1 u),
      (
        ap (◌++◌ (shutdown_log t)) log,
        λ p cur. refl,
        λ cur. refl,
        init_again t (gone t s1) u.has_init,
      ),
    )
