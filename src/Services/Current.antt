-- ===== src/Services/Current.antt =====
-- In a process that runs, each thread is of exactly one type, and a handler of the wrong thread
-- stops the process.
use bftrader.Prelude.{ℕ, ◌≡◌, ◌≢◌, Bool, true, false, ◌==◌, some, if◌then◌else◌, arith}
use bftrader.Services.{
  ThreadType, external, main, db, push, rpc, blogic, flogic, ServiceMgr, Threads, check, on_thread,
  is_current_on,
}

abbrev pub Distinct : Threads → Type 0
Distinct t =
    (t.current ≢ t.for_db)
    × (t.current ≢ t.for_push)
    × (t.current ≢ t.for_rpc)
    × (t.current ≢ t.for_blogic)
    × (t.current ≢ t.for_flogic)
    × (t.for_db ≢ t.for_push)
    × (t.for_db ≢ t.for_rpc)
    × (t.for_db ≢ t.for_blogic)
    × (t.for_db ≢ t.for_flogic)
    × (t.for_push ≢ t.for_rpc)
    × (t.for_push ≢ t.for_blogic)
    × (t.for_push ≢ t.for_flogic)
    × (t.for_rpc ≢ t.for_blogic)
    × (t.for_rpc ≢ t.for_flogic)
    × (t.for_blogic ≢ t.for_flogic)

-- Between init() and shutdown(), with these threads.
pub record IsUp (t : Threads) (s : ServiceMgr) : Type 0 where
  pub has_init : s.is_init ≡ true
  pub not_shutdown : s.is_shutdown ≡ false
  pub has_main : s.main_thread ≡ some t.current
  pub has_db : s.db_thread ≡ some t.for_db
  pub has_push : s.push_thread ≡ some t.for_push
  pub has_rpc : s.rpc_thread ≡ some t.for_rpc
  pub has_blogic : s.blogic_thread ≡ some t.for_blogic
  pub has_flogic : s.flogic_thread ≡ some t.for_flogic

-- The type of a thread.
abbrev pub type_of : Threads → ℕ → ThreadType
type_of t cur =
    if cur == t.current
    then main
    else if cur == t.for_db
    then db
    else if cur == t.for_push
    then push
    else if cur == t.for_rpc
    then rpc
    else if cur == t.for_blogic
    then blogic
    else if cur == t.for_flogic
    then flogic
    else external

abbrev pub same_type : ThreadType → ThreadType → Bool
same_type external external = true
same_type main main = true
same_type db db = true
same_type push push = true
same_type rpc rpc = true
same_type blogic blogic = true
same_type flogic flogic = true
same_type p q = false

on_thread-type_of :
    (t : Threads) (p : ThreadType) (cur : ℕ) (s : ServiceMgr)
    → IsUp t s
    → Distinct t
    → on_thread p cur s ≡ same_type p (type_of t cur)
unfolding on_thread
on_thread-type_of t main cur s u d = ground (arith, u.has_main)
on_thread-type_of t db cur s u d = ground (arith, u.has_db)
on_thread-type_of t push cur s u d = ground (arith, u.has_push)
on_thread-type_of t rpc cur s u d = ground (arith, u.has_rpc)
on_thread-type_of t blogic cur s u d = ground (arith, u.has_blogic)
on_thread-type_of t flogic cur s u d = ground (arith, u.has_flogic)
on_thread-type_of t external cur s u d = ground (arith)

-- Between init() and shutdown(), with six distinct threads, isCurrentOn answers with true for
-- exactly one type: that of the current thread, which is EXTERNAL for all others.
pub is_current_on-type_of :
    (t : Threads) (p : ThreadType) (cur : ℕ) (s : ServiceMgr)
    → IsUp t s
    → Distinct t
    → is_current_on p cur s ≡ some (same_type p (type_of t cur))
unfolding is_current_on check
is_current_on-type_of t p cur s u d =
    ground (arith, on_thread-type_of t p cur s u d, u.has_init, u.not_shutdown)
