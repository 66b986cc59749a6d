-- ===== src/Examples/FlashRuns.antt =====
-- The theorems on the file logger, at a ring and a file system that can be run.
use pcan_alterative.Base.{ℕ, refl, List, [], ◌∷◌, err}
use pcan_alterative.Base.{enospc, arith, true, false, Result, ok, subst}
use pcan_alterative.Flash.Record.{FlashLogFrame, IsFlashLogFrame}
use pcan_alterative.Flash.Log.{FileSystem, State, drain_to_file, flash_log_start}
use pcan_alterative.Flash.Log.Drain.{Drains, drain_to_file-Drains}
use pcan_alterative.Flash.Log.Failure.{WritesSome, Ends, drain_to_file-Ends}
use pcan_alterative.Flash.Log.Events.{Event, logs, flushes, writes, stops, run}
use pcan_alterative.Flash.Log.Session.{Logs, given, run-Logs}
use pcan_alterative.Flash.Log.Stop.{Readable, session-Readable}
use pcan_alterative.Flash.Main.{Outside}
use pcan_alterative.Flash.Main.Burst.{Recorded, main-Recorded}
use pcan_alterative.Examples.Bytes.{order, order_laws}
use pcan_alterative.Examples.ClpRuns.{zeros}
use pcan_alterative.Examples.Store.{Bytes, ring, ring_laws, fresh, files, files_laws}

abbrev a_frame : FlashLogFrame
a_frame = record { id = 0x123; flags = 0; dlc = 8; bytes = zeros; timestamp = 77 }

a_frame-IsFlashLogFrame : IsFlashLogFrame a_frame
a_frame-IsFlashLogFrame = record {
  id_32 = omega arith;
  timestamp_64 = omega arith;
  bytes_64 = refl;
}

abbrev logger : Bytes → List ℕ → State order ring files
logger r f = record {
  log_rb = r;
  log_file = f;
  active = true;
  flush_req = false;
  mounted = true;
  wake = false;
  stat_queued = 0;
  stat_dropped = 0;
  stat_bytes = 0;
  stat_flush = 0;
  stat_werr = 0;
}

abbrev mounted_only : State order ring files
mounted_only = record (logger (fresh 8192) []) { active = false }

abbrev events : List Event
events = logs a_frame ∷ flushes ∷ writes ∷ logs a_frame ∷ stops ∷ []

session-Readable_example :
    Readable order ring files order_laws ring_laws files_laws
      (flash_log_start order ring files mounted_only 1 2).0
      events
      2
session-Readable_example =
    session-Readable order ring files order_laws ring_laws files_laws mounted_only 1 2 events refl
      refl refl (a_frame-IsFlashLogFrame, (tt, (tt, (a_frame-IsFlashLogFrame, (tt, tt)))))

run-Logs_example :
    Logs order ring files order_laws ring_laws files_laws
      (logger (fresh 8192) [])
      (given events)
      (run order ring files (logger (fresh 8192) []) events)
run-Logs_example =
    run-Logs order ring files order_laws ring_laws files_laws events (logger (fresh 8192) []) refl
      (a_frame-IsFlashLogFrame, (tt, (tt, (a_frame-IsFlashLogFrame, (tt, tt)))))

abbrev full_logger : State order ring files
full_logger = logger (record { cap = 20; items = 1 ∷ 2 ∷ 3 ∷ []; held = omega arith }) (9 ∷ [])

drain_to_file-Drains_example :
    Drains order ring files ring_laws files_laws full_logger 1
      (drain_to_file order ring files full_logger 1)
drain_to_file-Drains_example =
    drain_to_file-Drains order ring files ring_laws files_laws full_logger 1

-- A file system that refuses every write.
abbrev worn_out : FileSystem
worn_out = record files { write = λ f xs. (f, err enospc) }

abbrev IsErr : Result ℕ → Type 0
IsErr (ok n) = ⊥
IsErr (err e) = Unit

abbrev worn_out_laws : WritesSome worn_out
worn_out_laws = record {
  content = λ f. f;
  write_fails = λ f xs e h. refl;
  write_count = λ f xs n h. absurd (subst IsErr h tt);
  write_appends = λ f xs n h. absurd (subst IsErr h tt);
}

drain_to_file-Ends_example :
    Ends order ring worn_out ring_laws worn_out_laws full_logger 1
      (drain_to_file order ring worn_out full_logger 1)
drain_to_file-Ends_example =
    drain_to_file-Ends order ring worn_out ring_laws worn_out_laws full_logger 1

-- A writer that runs three times after each frame.
abbrev outside : Outside
outside = record { clock = λ i. 1000; rounds = λ i. 3 }

main-Recorded_example :
    Recorded order ring files order_laws ring_laws files_laws outside 1 2
      (record mounted_only { mounted = false })
main-Recorded_example =
    main-Recorded order ring files order_laws ring_laws files_laws outside 1 2
      (record mounted_only { mounted = false }) refl refl refl refl (omega arith) (λ i. omega arith)
