-- ===== src/Services/Examples.antt =====
-- A process with six threads.
use bftrader.Prelude.{ℕ, ◌≡◌, refl, true, false, none, some, List, [], ◌∷◌, ◌++◌, Returns, arith}
use bftrader.Services.{
  ThreadType, db, push, rpc, blogic, flogic, logger, profile, inits, ServiceMgr, Threads, new_mgr,
  init, is_current_on, shutdown,
}
use bftrader.Services.Current.{IsUp, Distinct, is_current_on-type_of}
use bftrader.Services.Shutdown.{start_log, shutdown_log, process, process_lem}

abbrev pub six : Threads
six = record { current = 1; for_db = 2; for_push = 3; for_rpc = 4; for_blogic = 5; for_flogic = 6 }

abbrev pub running : ServiceMgr
running = record new_mgr {
  main_thread = some 1;
  db_thread = some 2;
  push_thread = some 3;
  rpc_thread = some 4;
  blogic_thread = some 5;
  flogic_thread = some 6;
  is_init = true;
}

pub running-IsUp : IsUp six running
running-IsUp = record {
  has_init = refl;
  not_shutdown = refl;
  has_main = refl;
  has_db = refl;
  has_push = refl;
  has_rpc = refl;
  has_blogic = refl;
  has_flogic = refl;
}

pub six-Distinct : Distinct six
six-Distinct = omega arith

is_current_on-type_of_example : is_current_on push 2 running ≡ some false
is_current_on-type_of_example = is_current_on-type_of six push 2 running running-IsUp six-Distinct

abbrev order_of_start : List ThreadType
order_of_start = push ∷ db ∷ flogic ∷ rpc ∷ blogic ∷ []

process_lem_example :
    Returns
      (λ s.
        (s.done
          ≡ shutdown_log six
            ++ start_log six order_of_start (inits profile 1 ∷ inits logger 1 ∷ []))
        × ((p : ThreadType) (cur : ℕ) → is_current_on p cur s ≡ none)
        × ((cur : ℕ) → shutdown cur s ≡ none)
        × (init six s ≡ none))
      (process six order_of_start)
process_lem_example = process_lem six order_of_start (tt, (tt, (tt, (tt, (tt, tt)))))
