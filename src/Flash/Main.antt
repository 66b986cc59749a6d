-- ===== src/Flash/Main.antt =====
-- apps/flash_log/src/main.c: a burst of frames given to the file logger. The writer thread runs in
-- between, as often as the scheduler lets it.
pub mod Burst
use pcan_alterative.Base.{ℕ, zero, suc, ◌+◌, List, [], ◌∷◌, ◌++◌, Option, none, some, Result, ok}
use pcan_alterative.Base.{err, replicate, bit_and, bit_or, bytes_from}
use pcan_alterative.Base.ByteOrder.{ByteOrder}
use pcan_alterative.Zephyr.RingBuf.{RingBuf}
use pcan_alterative.Flash.Record.{FlashLogFrame}
use pcan_alterative.Flash.Log.{
  FileSystem, State, flash_log_init, flash_log_start, stop_end, flash_log_get_stats,
}
use pcan_alterative.Flash.Log.Events.{Event, logs, flushes, writes, stops, run}

-- FRAME_FLAG_FDF and FRAME_FLAG_BRS
abbrev pub frame_flag_fdf : ℕ
frame_flag_fdf = 0x01

abbrev pub frame_flag_brs : ℕ
frame_flag_brs = 0x02

-- `f` in the round `i` of the loop
abbrev pub burst_frame : ℕ → ℕ → FlashLogFrame
burst_frame i ticks = record {
  id = 0x100 + bit_and i 0x7f;
  flags = bit_or frame_flag_fdf frame_flag_brs;
  dlc = 8;
  bytes = bytes_from 8 i ++ replicate 56 0;
  timestamp = ticks;
}

-- What comes from outside: the clock in each round, and how often the writer runs after it. The
-- rounds 200 and 201 are the flush and the wait in the stop.
pub record Outside : Type 0 where
  pub clock : ℕ → ℕ
  pub rounds : ℕ → ℕ

abbrev pub writer : Outside → ℕ → List Event
writer x i = replicate (x.rounds i) writes

-- The loop, from the round `i` on.
unfoldable pub burst : Outside → ℕ → ℕ → List Event
burst x zero i = []
burst x (suc n) i = logs (burst_frame i (x.clock i)) ∷ (writer x i ++ burst x n (i + 1))

-- From the loop up to the wait in `flash_log_stop`, while the file is open.
abbrev pub session : Outside → List Event
session x = burst x 200 0 ++ (flushes ∷ (writer x 200 ++ (stops ∷ writer x 201)))

-- How `main` ends: early, or with the result of the stop and the statistics.
pub data End : Type 0 where
  stopped_early : End
  logged : Result (Unit {0}) → ℕ × ℕ × ℕ × ℕ × ℕ → End

module _ (o : ByteOrder) (rb : RingBuf) (fs : FileSystem) where
  -- The end of the stop, and the statistics behind it.
  unfoldable pub after_stop :
      Option (State o rb fs × Result (Unit {0})) → Option (State o rb fs × End)
  after_stop none = none
  after_stop (some (u, result)) = some (u, logged result (flash_log_get_stats o rb fs u))

  unfoldable pub after_session :
      Option (State o rb fs × List FlashLogFrame) → Option (State o rb fs × End)
  unfolding after_stop stop_end
  after_session none = none
  after_session (some (u, accepted)) = after_stop (stop_end o rb fs u)

  -- From the result of `flash_log_start` on.
  unfoldable pub after_start :
      Outside → State o rb fs × Result (Unit {0}) → Option (State o rb fs × End)
  unfolding after_session
  after_start x (u, err e) = some (u, stopped_early)
  after_start x (u, ok done) = after_session (run o rb fs u (session x))

  -- From the result of `flash_log_init` on; the two numbers are the readings of the clock in the
  -- start.
  unfoldable pub after_init :
      Outside → ℕ → ℕ → State o rb fs × Result (Unit {0}) → Option (State o rb fs × End)
  unfolding after_start flash_log_start
  after_init x name_ticks ticks (u, err e) = some (u, stopped_early)
  after_init x name_ticks ticks (u, ok done) =
      after_start x (flash_log_start o rb fs u name_ticks ticks)

  unfoldable pub main : Outside → ℕ → ℕ → State o rb fs → Option (State o rb fs × End)
  unfolding after_init flash_log_init
  main x name_ticks ticks u = after_init x name_ticks ticks (flash_log_init o rb fs u)
