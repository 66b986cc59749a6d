-- ===== src/Flash/Log.antt =====
-- apps/flash_log/src/flash_log.c: the ring, the writer and the file. The module's static variables
-- are one record; the file system is a parameter.
pub mod Drain
pub mod Failure
pub mod Recording
pub mod Events
pub mod Session
pub mod Stop
pub mod Whole
use pcan_alterative.Base.{
  ℕ, zero, suc, ◌+◌, ◌%◌, ◌/◌, ◌^◌, Bool, true, false, not, List, Option, none,
}
use pcan_alterative.Base.{
  some, Result, ok, err, enodev, ealready, eperm, enospc, length, take, drop,
}
use pcan_alterative.Base.{ltb, ◌==◌, if◌then◌else◌}
use pcan_alterative.Base.ByteOrder.{ByteOrder}
use pcan_alterative.Zephyr.RingBuf.{RingBuf}
use pcan_alterative.Clp.Parser.{inc32}
use pcan_alterative.Flash.Record.{
  FlashLogFrame, record_bytes, record_count, rec_fixed, header_bytes,
}

abbrev pub write_chunk : ℕ
write_chunk = 1024

abbrev pub flash_log_ring_size : ℕ
flash_log_ring_size = 8192

-- Zephyr's `fs/fs.h`, for the one file object: `open` is given the ticks in the name, `write` gives
-- the number of bytes that it took, `sync` whether it returned 0.
pub record FileSystem : Type 1 where
  pub File : Type 0
  pub mount : Result (Unit {0})
  pub init : File → File
  pub open_named : File → ℕ → File × Result (Unit {0})
  pub write : File → List ℕ → File × Result ℕ
  pub sync : File → File × Bool
  pub close : File → File × Result (Unit {0})

-- `wake` is the semaphore of limit 1.
pub record FlashLog (R F : Type 0) : Type 0 where
  pub log_rb : R
  pub log_file : F
  pub active : Bool
  pub flush_req : Bool
  pub mounted : Bool
  pub wake : Bool
  pub stat_queued : ℕ
  pub stat_dropped : ℕ
  pub stat_bytes : ℕ
  pub stat_flush : ℕ
  pub stat_werr : ℕ

module _ (o : ByteOrder) (rb : RingBuf) (fs : FileSystem) where
  abbrev pub State : Type 0
  State = FlashLog rb.Ring fs.File

  -- What `drain_to_file` does with the result of `fs_write`, and whether its loop goes on.
  unfoldable pub written : State → List ℕ → Result ℕ → State × Bool
  written u buf (err e) = (record u { stat_werr = inc32 u.stat_werr }, false)
  written u buf (ok w) =
      let u' : State = record u { stat_bytes = (u.stat_bytes + w) % 2 ^ 32 } in
      if ltb w (length buf)
      then (record u' { log_rb = (rb.put u.log_rb (drop w buf)).0 }, false)
      else (u', true)

  -- The loop of `drain_to_file`, on fuel.
  unfoldable pub drain : ℕ → State → ℕ → Option State
  unfolding written
  drain zero u min_bytes = none
  drain (suc fuel) u min_bytes =
      let (r, buf) = rb.get u.log_rb write_chunk in
      let (f, w) = fs.write u.log_file buf in
      let (u', goes_on) = written (record u { log_rb = r; log_file = f }) buf w in
      let rest = drain fuel u' min_bytes in
      if ltb (rb.size_get u.log_rb) min_bytes
      then some u
      else if length buf == 0
      then some (record u { log_rb = r })
      else if goes_on
      then rest
      else some u'

  -- A round takes at least one byte out of the ring, so this is fuel enough.
  unfoldable pub drain_to_file : State → ℕ → Option State
  unfolding drain
  drain_to_file u min_bytes = drain (suc (rb.size_get u.log_rb)) u min_bytes

  -- `fs_sync` of `writer_fn`, for a flush.
  unfoldable pub sync_counted : State → State
  sync_counted u =
      let (f, synced) = fs.sync u.log_file in
      if synced
      then record u { log_file = f; stat_flush = inc32 u.stat_flush }
      else record u { log_file = f; stat_werr = inc32 u.stat_werr }

  unfoldable pub synced_if : Bool → Option State → Option State
  unfolding sync_counted
  synced_if flush none = none
  synced_if flush (some u) = some (if flush then sync_counted u else u)

  -- One round of `writer_fn`.
  unfoldable pub writer_pass : State → Option State
  unfolding drain_to_file synced_if
  writer_pass u =
      let flush = u.flush_req in
      let u' : State = record u { wake = false; flush_req = false } in
      let drained = drain_to_file u' (if flush then 1 else write_chunk) in
      if u.active then synced_if flush drained else some u'

  unfoldable pub flash_log_init : State → State × Result (Unit {0})
  flash_log_init u =
      let u' : State = record u { log_file = fs.init u.log_file } in
      if u.mounted
      then (u, ok tt)
      else elim fs.mount [ ok x ↦ (record u' { mounted = true }, ok tt) | err e ↦ (u', err e) ]

  -- The header has been written, or not.
  unfoldable pub started : State → Result ℕ → State × Result (Unit {0})
  started u (ok n) = (record u { stat_bytes = (u.stat_bytes + n) % 2 ^ 32; active = true }, ok tt)
  started u (err e) = (record u { log_file = (fs.close u.log_file).0 }, err e)

  unfoldable pub opened : State → Result (Unit {0}) → ℕ → State × Result (Unit {0})
  unfolding started
  opened u (err e) ticks = (u, err e)
  opened u (ok x) ticks =
      let (f, w) = fs.write u.log_file (header_bytes o ticks) in
      started (record u { log_file = f }) w

  -- `name_ticks` and `ticks` are the two readings of `k_uptime_ticks`.
  unfoldable pub flash_log_start : State → (name_ticks ticks : ℕ) → State × Result (Unit {0})
  unfolding opened
  flash_log_start u name_ticks ticks =
      let (f, result) = fs.open_named u.log_file name_ticks in
      if not u.mounted
      then (u, err enodev)
      else if u.active
      then (u, err ealready)
      else opened (record u { log_file = f }) result ticks

  unfoldable pub flash_log_record : State → FlashLogFrame → State × Result (Unit {0})
  flash_log_record u f =
      let rec = record_bytes o f in
      let (r, wrote) = rb.put u.log_rb rec in
      let u' : State = record u { log_rb = r } in
      if not u.active
      then (u, err eperm)
      else if ltb (rb.space_get u.log_rb) (rec_fixed + record_count f)
      then (record u { stat_dropped = inc32 u.stat_dropped }, err enospc)
      else if wrote == rec_fixed + record_count f
      then (
        record u' {
          stat_queued = inc32 u.stat_queued;
          wake = if ltb (rb.size_get r) (flash_log_ring_size / 2) then u.wake else true;
        },
        ok tt,
      )
      else (record u' { stat_dropped = inc32 u.stat_dropped }, err enospc)

  unfoldable pub flash_log_flush : State → State × Result (Unit {0})
  flash_log_flush u =
      if u.active then (record u { flush_req = true; wake = true }, ok tt) else (u, err eperm)

  abbrev pub flash_log_active : State → Bool
  flash_log_active u = u.active

  -- records_queued, records_dropped, bytes_written, flush_count, write_errors
  abbrev pub flash_log_get_stats : State → ℕ × ℕ × ℕ × ℕ × ℕ
  flash_log_get_stats u = (u.stat_queued, u.stat_dropped, u.stat_bytes, u.stat_flush, u.stat_werr)

  -- `flash_log_stop` up to the wait, in which the writer and the producers run.
  unfoldable pub stop_begin : State → State × Result (Unit {0})
  stop_begin u =
      if u.active then (record u { flush_req = true; wake = true }, ok tt) else (u, err ealready)

  -- `flash_log_stop` from the second lock on, given the drained state.
  unfoldable pub closed : Option State → Option (State × Result (Unit {0}))
  closed none = none
  closed (some u) =
      let (f, result) = fs.close (fs.sync u.log_file).0 in
      some (record u { log_file = f; stat_flush = inc32 u.stat_flush }, result)

  unfoldable pub stop_end : State → Option (State × Result (Unit {0}))
  unfolding drain_to_file closed
  stop_end u = closed (drain_to_file (record u { active = false }) 1)
