-- ===== src/Ctp/Sessions/Quiet.antt =====
-- No state change reads through a null pointer, and after stop() no session logs in again.
use bftrader.Prelude.{
  ℕ, ◌+◌, ◌*◌, ◌≡◌, refl, ◌∙◌, ap, Bool, true, false, not, ◌&&◌, Option, some, List, [], ◌∷◌,
  if◌then◌else◌, arith, if_both, Returns, Bool-cases, inl, inr,
}
use bftrader.Ctp.Sessions.{
  MdState, mdsm_disconnected, mdsm_connected, mdsm_logined, mdsm_loginfail, mdsm_stopped, TdState,
  tdsm_disconnected, tdsm_connected, tdsm_logined, tdsm_loginfail, tdsm_logouted, tdsm_logoutfail,
  tdsm_stopped, Action, resets_cmds, logs_in_md, logs_in_td, Sessions, act, md_stopped, td_stopped,
  md_stop, td_stop, start_md_sm, start_td_sm, start, begin_trade, try_start_subscrible,
  on_md_sm_state_changed, on_td_sm_state_changed, stop_md_part, stop_td_part, stop, Change,
  md_changes, td_changes, changes, change_all,
}

-- A flag of a login is set only while its session exists.
abbrev pub IsLinked : Sessions → Type 0
IsLinked s = (s.md_logined ≡ true → s.mdsm ≡ true) × (s.td_logined ≡ true → s.tdsm ≡ true)

start-IsLinked : (a b : Bool) (s : Sessions) → IsLinked s → IsLinked (start a b s)
unfolding start start_td_sm start_md_sm
start-IsLinked a b s (m, t) = (ground arith, ground arith)

stop-IsLinked : (s : Sessions) → IsLinked s → IsLinked (stop s)
unfolding stop stop_md_part stop_td_part md_stop td_stop md_stopped td_stopped
stop-IsLinked s (m, t) = (ground arith, ground arith)

try_start_subscrible-IsLinked :
    (s : Sessions) → IsLinked s → Returns IsLinked (try_start_subscrible true s)
unfolding try_start_subscrible begin_trade start_td_sm
try_start_subscrible-IsLinked s (m, t) = elim (Bool-cases (s.md_logined && s.td_logined)) [
  | inl both ↦
      let linked : s.tdsm ≡ true = ground (arith, t) in
      rw both (rw linked (_, refl, (m, λ e. refl)))
  | inr e ↦ rw e (elim (Bool-cases s.tdsm) [
    | inl td ↦ rw td (_, refl, (m, λ e. refl))
    | inr td ↦ rw td (start_td_sm s, refl, (m, λ e. refl))
  ])
]

-- A change that a session reports is ignored once the session is gone.
ignored_or :
    (b : Bool) (s : Sessions) (m : Option Sessions)
    → IsLinked s
    → (b ≡ true → Returns IsLinked m)
    → Returns IsLinked (if not b then some s else m)
ignored_or true s m l h = h refl
ignored_or false s m l h = (s, refl, l)

either :
    (b : Bool) (x y : Sessions)
    → IsLinked x
    → IsLinked y
    → Returns IsLinked (some (if b then x else y))
either b x y h h' = (_, refl, if_both IsLinked b x y h h')

md-IsLinked :
    (c : MdState) (s : Sessions) → IsLinked s → Returns IsLinked (on_md_sm_state_changed true c s)
unfolding on_md_sm_state_changed md_stop md_stopped
md-IsLinked mdsm_connected s (m, t) =
    let s' = record s { md_logined = false } in
    ignored_or s.mdsm s _ (m, t)
      (λ e.
        either s.auto_login_md (act (logs_in_md 1000) s') (md_stop s') (λ f. cc, t) (λ f. cc, t))
md-IsLinked mdsm_disconnected s (m, t) =
    let s' = record s { md_logined = false } in
    ignored_or s.mdsm s _ (m, t)
      (λ e. either (not s.auto_login_md) (md_stop s') s' (λ f. cc, t) (λ f. cc, t))
md-IsLinked mdsm_logined s (m, t) =
    ignored_or s.mdsm s _ (m, t)
      (λ e. try_start_subscrible-IsLinked (record s { md_logined = true }) (λ f. e, t))
md-IsLinked mdsm_loginfail s (m, t) =
    ignored_or s.mdsm s _ (m, t)
      (λ e. either s.auto_login_md (act (logs_in_md (60 * 1000)) s) (md_stop s) (m, t) (λ f. cc, t))
md-IsLinked mdsm_stopped s (m, t) =
    ignored_or s.mdsm s _ (m, t) (λ e. (md_stopped s, refl, (λ f. cc, t)))

td-IsLinked :
    (c : TdState) (s : Sessions) → IsLinked s → Returns IsLinked (on_td_sm_state_changed true c s)
unfolding on_td_sm_state_changed td_stop td_stopped
td-IsLinked tdsm_connected s (m, t) =
    let s' = record s { td_logined = false } in
    ignored_or s.tdsm s _ (m, t)
      (λ e.
        either s.auto_login_td (act (logs_in_td 1000) s') (td_stop s') (m, λ f. cc) (m, λ f. cc))
td-IsLinked tdsm_disconnected s (m, t) =
    let s' = record (act resets_cmds s) { td_logined = false } in
    ignored_or s.tdsm s _ (m, t)
      (λ e. either (not s.auto_login_td) (td_stop s') s' (m, λ f. cc) (m, λ f. cc))
td-IsLinked tdsm_logined s (m, t) =
    ignored_or s.tdsm s _ (m, t)
      (λ e. try_start_subscrible-IsLinked (record s { td_logined = true }) (m, λ f. e))
td-IsLinked tdsm_loginfail s (m, t) =
    ignored_or s.tdsm s _ (m, t)
      (λ e. either s.auto_login_td (act (logs_in_td (60 * 1000)) s) (td_stop s) (m, t) (m, λ f. cc))
td-IsLinked tdsm_logouted s (m, t) =
    ignored_or s.tdsm s _ (m, t)
      (λ e. (td_stop (record s { td_logined = false }), refl, (m, λ f. cc)))
td-IsLinked tdsm_logoutfail s (m, t) =
    ignored_or s.tdsm s _ (m, t)
      (λ e. (td_stop (record s { td_logined = false }), refl, (m, λ f. cc)))
td-IsLinked tdsm_stopped s (m, t) =
    ignored_or s.tdsm s _ (m, t) (λ e. (td_stopped s, refl, (m, λ f. cc)))

-- With valid parameters and each login flag bound to its session, every state change of a session
-- is handled to the end, and the flags stay bound.
pub changes-IsLinked :
    (c : Change) (s : Sessions) → IsLinked s → Returns IsLinked (changes true c s)
unfolding changes
changes-IsLinked (md_changes c) s l = md-IsLinked c s l
changes-IsLinked (td_changes c) s l = td-IsLinked c s l

-- The logins that the manager has asked for.
abbrev pub logins : List Action → ℕ
logins [] = 0
logins (logs_in_md n ∷ rest) = 1 + logins rest
logins (logs_in_td n ∷ rest) = 1 + logins rest
logins (a ∷ rest) = logins rest

-- No session that could log in again is left.
abbrev pub IsQuiet : Sessions → Type 0
IsQuiet s = (s.mdsm ≡ false) × (s.md_logined ≡ false) × (s.tdsm ≡ true → s.auto_login_td ≡ false)

stop-IsQuiet :
    (s : Sessions) → IsLinked s → IsQuiet (stop s) × (logins (stop s).done ≡ logins s.done)
unfolding stop stop_md_part stop_td_part md_stop td_stop md_stopped td_stopped
stop-IsQuiet s (m, t) = ((ground arith, ground arith, ground arith), ground arith)

-- A change in a quiet state leaves it quiet and asks for no login.
abbrev KeepsQuiet : Sessions → Sessions → Type 0
KeepsQuiet s s' = IsQuiet s' × (logins s'.done ≡ logins s.done)

md-KeepsQuiet :
    (v : Bool) (c : MdState) (s : Sessions)
    → IsQuiet s
    → Returns (KeepsQuiet s) (on_md_sm_state_changed v c s)
unfolding on_md_sm_state_changed
md-KeepsQuiet v mdsm_connected s q = rw (q.0) (_, refl, ((refl, q.1, q.2), refl))
md-KeepsQuiet v mdsm_disconnected s q = rw (q.0) (_, refl, ((refl, q.1, q.2), refl))
md-KeepsQuiet v mdsm_logined s q = rw (q.0) (_, refl, ((refl, q.1, q.2), refl))
md-KeepsQuiet v mdsm_loginfail s q = rw (q.0) (_, refl, ((refl, q.1, q.2), refl))
md-KeepsQuiet v mdsm_stopped s q = rw (q.0) (_, refl, ((refl, q.1, q.2), refl))

gone-KeepsQuiet :
    (b : Bool) (s : Sessions) (m : Option Sessions)
    → IsQuiet s
    → (b ≡ true → Returns (KeepsQuiet s) m)
    → Returns (KeepsQuiet s) (if not b then some s else m)
gone-KeepsQuiet true s m q h = h refl
gone-KeepsQuiet false s m q h = (s, refl, (q, refl))

try_start_subscrible-KeepsQuiet :
    (v : Bool) (s : Sessions)
    → IsQuiet s
    → s.tdsm ≡ true
    → Returns (KeepsQuiet s) (try_start_subscrible v (record s { td_logined = true }))
unfolding try_start_subscrible begin_trade
try_start_subscrible-KeepsQuiet v s q e = rw (q.1) (rw e (_, refl, ((q.0, refl, λ f. q.2 e), refl)))

chosen :
    (s : Sessions) (b c : Bool) (x y : Sessions)
    → b ≡ c
    → KeepsQuiet s (if c then x else y)
    → Returns (KeepsQuiet s) (some (if b then x else y))
chosen s true true x y e h = (x, refl, h)
chosen s true false x y e h = cc
chosen s false true x y e h = cc
chosen s false false x y e h = (y, refl, h)

td-KeepsQuiet :
    (v : Bool) (c : TdState) (s : Sessions)
    → IsQuiet s
    → Returns (KeepsQuiet s) (on_td_sm_state_changed v c s)
unfolding on_td_sm_state_changed td_stop td_stopped
td-KeepsQuiet v tdsm_connected s q = gone-KeepsQuiet s.tdsm s _ q (λ e.
    chosen s s.auto_login_td false (act (logs_in_td 1000) (record s { td_logined = false }))
      (td_stop (record s { td_logined = false })) (q.2 e) ((q.0, q.1, λ f. cc), refl))
td-KeepsQuiet v tdsm_disconnected s q = gone-KeepsQuiet s.tdsm s _ q (λ e.
    let s' = record (act resets_cmds s) { td_logined = false } in
    chosen s (not s.auto_login_td) true (td_stop s') s' (ap not (q.2 e))
      ((q.0, q.1, λ f. cc), refl))
td-KeepsQuiet v tdsm_logined s q =
    gone-KeepsQuiet s.tdsm s _ q (try_start_subscrible-KeepsQuiet v s q)
td-KeepsQuiet v tdsm_loginfail s q = gone-KeepsQuiet s.tdsm s _ q (λ e.
    chosen s s.auto_login_td false (act (logs_in_td (60 * 1000)) s) (td_stop s) (q.2 e)
      ((q.0, q.1, λ f. cc), refl))
td-KeepsQuiet v tdsm_logouted s q =
    gone-KeepsQuiet s.tdsm s _ q
      (λ e. (td_stop (record s { td_logined = false }), refl, ((q.0, q.1, λ f. cc), refl)))
td-KeepsQuiet v tdsm_logoutfail s q =
    gone-KeepsQuiet s.tdsm s _ q
      (λ e. (td_stop (record s { td_logined = false }), refl, ((q.0, q.1, λ f. cc), refl)))
td-KeepsQuiet v tdsm_stopped s q =
    gone-KeepsQuiet s.tdsm s _ q (λ e. (td_stopped s, refl, ((q.0, q.1, λ f. cc), refl)))

changes-KeepsQuiet :
    (v : Bool) (c : Change) (s : Sessions) → IsQuiet s → Returns (KeepsQuiet s) (changes v c s)
unfolding changes
changes-KeepsQuiet v (md_changes c) s q = md-KeepsQuiet v c s q
changes-KeepsQuiet v (td_changes c) s q = td-KeepsQuiet v c s q

change_all-KeepsQuiet :
    (v : Bool) (cs : List Change) (s : Sessions)
    → IsQuiet s
    → Returns (KeepsQuiet s) (change_all v cs s)
change_all-KeepsQuiet v [] s q = (s, refl, (q, refl))
change_all-KeepsQuiet v (c ∷ cs) s q =
    let (s1, e, kept) = changes-KeepsQuiet v c s q in
    let (s2, e', kept') = change_all-KeepsQuiet v cs s1 kept.0 in
    (s2, rw e e', (kept'.0, kept'.1 ∙ kept.1))

-- After stop() in a state where each login flag is bound to its session, the manager handles any
-- state changes of the two sessions, late answers included, without asking for another login, and
-- the session for market data is gone.
pub change_all-stop :
    (td_valid : Bool) (cs : List Change) (s : Sessions)
    → IsLinked s
    → Returns
        (λ s'. (logins s'.done ≡ logins s.done) × (s'.mdsm ≡ false))
        (change_all td_valid cs (stop s))
change_all-stop v cs s l =
    let (quiet, same) = stop-IsQuiet s l in
    let (s', e, kept) = change_all-KeepsQuiet v cs (stop s) quiet in
    (s', e, (kept.1 ∙ same, kept.0.0))
