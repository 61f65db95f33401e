-- ===== src/Services.antt =====
-- servicemgr.cpp, which is the same file in ctpgateway, btgateway, cta, datafeed and datarecorder:
-- the services of a process, each in a thread of its own, their start and their shutdown.
pub mod Current
pub mod Shutdown
pub mod Examples
use bftrader.Prelude.{
  ℕ, Bool, true, false, not, ◌&&◌, ◌||◌, Option, none, some, List, [], ◌∷◌, if◌then◌else◌, ◌>>=◌,
  ◌==◌,
}

pub data ThreadType : Type 0 where
  external main db push rpc blogic flogic : ThreadType

pub data Service : Type 0 where
  logger profile db_service push_service rpc_service gateway_mgr cta_mgr : Service

-- A call of init() or shutdown() of a service in the thread with the given number, the end of a
-- thread, and the delete of a service.
pub data Action : Type 0 where
  inits shuts : Service → ℕ → Action
  joins : ThreadType → Action
  deletes : Service → Action

-- Threads are numbered, `none` is a null pointer; `done` lists what was done, the newest first.
pub record ServiceMgr : Type 0 where
  pub main_thread : Option ℕ
  pub db_thread : Option ℕ
  pub push_thread : Option ℕ
  pub rpc_thread : Option ℕ
  pub blogic_thread : Option ℕ
  pub flogic_thread : Option ℕ
  pub is_init : Bool
  pub is_shutdown : Bool
  pub done : List Action

abbrev pub act : Action → ServiceMgr → ServiceMgr
act a s = record s { done = a ∷ s.done }

-- `none` is a call of qFatal, or of a method of a null pointer.
unfoldable pub check : ServiceMgr → Option (Unit {0})
check s = if s.is_shutdown || not s.is_init then none else some tt

-- The comparison of QThread::currentThread() with a pointer.
abbrev pub is_thread : ℕ → Option ℕ → Bool
is_thread cur none = false
is_thread cur (some t) = cur == t

unfoldable pub on_thread : ThreadType → ℕ → ServiceMgr → Bool
on_thread main cur s = is_thread cur s.main_thread
on_thread db cur s = is_thread cur s.db_thread
on_thread push cur s = is_thread cur s.push_thread
on_thread rpc cur s = is_thread cur s.rpc_thread
on_thread blogic cur s = is_thread cur s.blogic_thread
on_thread flogic cur s = is_thread cur s.flogic_thread
on_thread external cur s =
    not (is_thread cur s.main_thread)
    && (not (is_thread cur s.db_thread)
        && (not (is_thread cur s.push_thread)
            && (not (is_thread cur s.rpc_thread)
                && (not (is_thread cur s.blogic_thread) && not (is_thread cur s.flogic_thread)))))

unfoldable pub is_current_on : ThreadType → ℕ → ServiceMgr → Option Bool
unfolding check on_thread
is_current_on p cur s = do _ ← check s; some (on_thread p cur s)

unfoldable pub check_current_on : ThreadType → ℕ → ServiceMgr → Option (Unit {0})
unfolding is_current_on
check_current_on p cur s = do on ← is_current_on p cur s; if not on then none else some tt

-- EXTERNAL is no thread: qFatal.
unfoldable pub get_thread : ThreadType → ServiceMgr → Option (Option ℕ)
unfolding check
get_thread p s = do
  _ ← check s
  elim p [
    | main ↦ some s.main_thread
    | db ↦ some s.db_thread
    | push ↦ some s.push_thread
    | rpc ↦ some s.rpc_thread
    | blogic ↦ some s.blogic_thread
    | flogic ↦ some s.flogic_thread
    | external ↦ none
  ]

-- The service that lives in a thread.
abbrev pub service_of : ThreadType → Option Service
service_of db = some db_service
service_of push = some push_service
service_of rpc = some rpc_service
service_of blogic = some gateway_mgr
service_of flogic = some cta_mgr
service_of _ = none

abbrev pub new_mgr : ServiceMgr
new_mgr = record {
  main_thread = none;
  db_thread = none;
  push_thread = none;
  rpc_thread = none;
  blogic_thread = none;
  flogic_thread = none;
  is_init = false;
  is_shutdown = false;
  done = [];
}

-- The numbers of the current thread and of the five new ones.
pub record Threads : Type 0 where
  pub current : ℕ
  pub for_db : ℕ
  pub for_push : ℕ
  pub for_rpc : ℕ
  pub for_blogic : ℕ
  pub for_flogic : ℕ

unfoldable pub init : Threads → ServiceMgr → Option ServiceMgr
init t s =
    if s.is_init
    then none
    else some (
        act (inits profile t.current) (
          act (inits logger t.current) (record s {
            is_init = true;
            main_thread = some t.current;
            db_thread = some t.for_db;
            push_thread = some t.for_push;
            rpc_thread = some t.for_rpc;
            blogic_thread = some t.for_blogic;
            flogic_thread = some t.for_flogic;
          })))

-- dbThreadStarted and its like, which run in the thread that starts.
unfoldable pub thread_started : ThreadType → ℕ → ServiceMgr → Option ServiceMgr
unfolding check_current_on
thread_started p cur s = do
  _ ← check_current_on p cur s
  service ← service_of p
  some (act (inits service cur) s)

-- dbThreadFinished and its like, which run in the thread that ends.
unfoldable pub thread_finished : ThreadType → ℕ → ServiceMgr → Option ServiceMgr
unfolding check_current_on
thread_finished p cur s = do
  _ ← check_current_on p cur s
  service ← service_of p
  some (act (shuts service cur) s)

abbrev pub thread_of : ThreadType → ServiceMgr → Option ℕ
thread_of external s = none
thread_of main s = s.main_thread
thread_of db s = s.db_thread
thread_of push s = s.push_thread
thread_of rpc s = s.rpc_thread
thread_of blogic s = s.blogic_thread
thread_of flogic s = s.flogic_thread

abbrev pub without : ThreadType → ServiceMgr → ServiceMgr
without external s = s
without main s = record s { main_thread = none }
without db s = record s { db_thread = none }
without push s = record s { push_thread = none }
without rpc s = record s { rpc_thread = none }
without blogic s = record s { blogic_thread = none }
without flogic s = record s { flogic_thread = none }

-- quit(), wait(), delete and the reset of the pointer; wait() returns after the thread has run its
-- handler of finished().
unfoldable pub end_thread : ThreadType → ServiceMgr → Option ServiceMgr
unfolding thread_finished
end_thread p s = do
  cur ← thread_of p s
  s' ← thread_finished p cur s
  some (without p (act (joins p) s'))

-- The body of shutdown() after its test; the argument is the number of the current thread.
unfoldable pub shutdown_services : ℕ → ServiceMgr → Option ServiceMgr
unfolding end_thread
shutdown_services cur s = do
  s1 ← end_thread flogic s
  s2 ← end_thread blogic s1
  s3 ← end_thread rpc s2
  s4 ← end_thread push s3
  s5 ← end_thread db s4
  let s6 = act (shuts logger cur) (act (shuts profile cur) s5)
  let s7 = act (deletes gateway_mgr) (act (deletes cta_mgr) s6)
  let s8 = act (deletes push_service) (act (deletes rpc_service) s7)
  let s9 = act (deletes logger) (act (deletes profile) (act (deletes db_service) s8))
  some (record s9 { main_thread = none; is_shutdown = true })

unfoldable pub shutdown : ℕ → ServiceMgr → Option ServiceMgr
unfolding shutdown_services
shutdown cur s = if s.is_shutdown then none else shutdown_services cur s
