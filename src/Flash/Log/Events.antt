-- ===== src/Flash/Log/Events.antt =====
-- What happens while a file is open, one event after the other.
use mathlib.Core.Path.{subst}
use pcan_alterative.Base.{ℕ, ◌≡◌, refl, ◌∙◌, ap, ap₂, sym, Bool, true, false, List, [], ◌∷◌, ◌++◌}
use pcan_alterative.Base.{Option, none, some, Result, ok, err, Bool-cases, inl, inr, if◌then◌else◌}
use pcan_alterative.Base.ByteOrder.{ByteOrder}
use pcan_alterative.Zephyr.RingBuf.{RingBuf, RingBufLaws}
use pcan_alterative.Flash.Record.{FlashLogFrame, IsFlashLogFrame}
use pcan_alterative.Flash.Log.{
  FileSystem, State, write_chunk, drain_to_file, writer_pass, synced_if, sync_counted,
  flash_log_record, flash_log_flush, stop_begin,
}
use pcan_alterative.Flash.Log.Drain.{TakesAll, drain_to_file-Drains}

-- What happens while a file is open, the start of a stop included.
pub data Event : Type 0 where
  logs : FlashLogFrame → Event
  flushes writes stops : Event

abbrev pub IsValidEvent : Event → Type 0
IsValidEvent (logs f) = IsFlashLogFrame f
IsValidEvent flushes = Unit
IsValidEvent writes = Unit
IsValidEvent stops = Unit

-- The frame, if its record was accepted.
abbrev pub accepted : FlashLogFrame → Result (Unit {0}) → List FlashLogFrame
accepted f (ok x) = f ∷ []
accepted f (err e) = []

module _ (o : ByteOrder) (rb : RingBuf) (fs : FileSystem) where
  abbrev pub with_none : Option (State o rb fs) → Option (State o rb fs × List FlashLogFrame)
  with_none none = none
  with_none (some u) = some (u, [])

  abbrev pub step : State o rb fs → Event → Option (State o rb fs × List FlashLogFrame)
  step u (logs f) = let (u', result) = flash_log_record o rb fs u f in some (u', accepted f result)
  step u flushes = some ((flash_log_flush o rb fs u).0, [])
  step u writes = with_none (writer_pass o rb fs u)
  step u stops = some ((stop_begin o rb fs u).0, [])

  abbrev pub and_more :
      List FlashLogFrame
      → Option (State o rb fs × List FlashLogFrame)
      → Option (State o rb fs × List FlashLogFrame)
  and_more took none = none
  and_more took (some (u, more)) = some (u, took ++ more)

  abbrev pub and_then :
      Option (State o rb fs × List FlashLogFrame)
      → (State o rb fs → Option (State o rb fs × List FlashLogFrame))
      → Option (State o rb fs × List FlashLogFrame)
  and_then none k = none
  and_then (some (u, took)) k = and_more took (k u)

  -- All events, with the frames accepted.
  abbrev pub run : State o rb fs → List Event → Option (State o rb fs × List FlashLogFrame)
  run u [] = some (u, [])
  run u (e ∷ es) = and_then (step u e) (λ u'. run u' es)

module _ (o : ByteOrder) (rb : RingBuf) (fs : FileSystem) (rl : RingBufLaws rb)
    (fl : TakesAll fs) where
  open rl use {contents, capacity}
  open fl use {content, sync_keeps}

  abbrev pub bytes_of : State o rb fs → List ℕ
  bytes_of u = content u.log_file ++ contents u.log_rb

  -- The event ends, with the file still open, and nothing came in or was lost.
  pub record Quiet (u : State o rb fs) (result : Option (State o rb fs × List FlashLogFrame))
      : Type 0 where
    pub end : State o rb fs
    pub ends : result ≡ some (end, [])
    pub still : end.active ≡ true
    pub same : bytes_of end ≡ bytes_of u
    pub roomy : capacity end.log_rb ≡ capacity u.log_rb
    pub queued : end.stat_queued ≡ u.stat_queued
    pub dropped : end.stat_dropped ≡ u.stat_dropped

  pub flush-Quiet : (u : State o rb fs) → u.active ≡ true → Quiet u (step o rb fs u flushes)
  unfolding flash_log_flush
  flush-Quiet u h = record {
    end = record u { flush_req = true; wake = true };
    ends = rw h refl;
    still = h;
    same = refl;
    roomy = refl;
    queued = refl;
    dropped = refl;
  }

  pub stop-Quiet : (u : State o rb fs) → u.active ≡ true → Quiet u (step o rb fs u stops)
  unfolding stop_begin
  stop-Quiet u h = record {
    end = record u { flush_req = true; wake = true };
    ends = rw h refl;
    still = h;
    same = refl;
    roomy = refl;
    queued = refl;
    dropped = refl;
  }

  -- Counting a sync changes the file and its own two counters only.
  sync_counted_lem :
      (u : State o rb fs)
      → (content (sync_counted o rb fs u).log_file ≡ content u.log_file)
        × (sync_counted o rb fs u ≡ record u {
          log_file = (sync_counted o rb fs u).log_file;
          stat_flush = (sync_counted o rb fs u).stat_flush;
          stat_werr = (sync_counted o rb fs u).stat_werr;
        })
  unfolding sync_counted
  sync_counted_lem u = elim (Bool-cases (fs.sync u.log_file).1) [
    | inl done ↦ rw done (sync_keeps u.log_file, refl)
    | inr failed ↦ rw failed (sync_keeps u.log_file, refl)
  ]

  -- The end of a round of the writer, from the drained state `v` on.
  synced-Quiet :
      (u v : State o rb fs) (flush : Bool)
      → v.active ≡ true
      → bytes_of v ≡ bytes_of u
      → capacity v.log_rb ≡ capacity u.log_rb
      → v.stat_queued ≡ u.stat_queued
      → v.stat_dropped ≡ u.stat_dropped
      → Quiet u (with_none o rb fs (synced_if o rb fs flush (some v)))
  unfolding synced_if
  synced-Quiet u v true h e roomy queued dropped =
      let (file, rest) = sync_counted_lem v in
      record {
        end = sync_counted o rb fs v;
        ends = refl;
        still = ap (λ s. s.active) rest ∙ h;
        same = ap₂ (λ f r. f ++ contents r) file (ap (λ s. s.log_rb) rest) ∙ e;
        roomy = ap (λ s. capacity s.log_rb) rest ∙ roomy;
        queued = ap (λ s. s.stat_queued) rest ∙ queued;
        dropped = ap (λ s. s.stat_dropped) rest ∙ dropped;
      }
  synced-Quiet u v false h e roomy queued dropped = record {
    end = v;
    ends = refl;
    still = h;
    same = e;
    roomy = roomy;
    queued = queued;
    dropped = dropped;
  }

  writer_pass-active :
      (u : State o rb fs)
      → u.active ≡ true
      → writer_pass o rb fs u
        ≡ synced_if o rb fs u.flush_req (
            drain_to_file o rb fs
              (record u { wake = false; flush_req = false })
              (if u.flush_req then 1 else write_chunk))
  unfolding writer_pass
  writer_pass-active u h = rw h refl

  pub writer-Quiet : (u : State o rb fs) → u.active ≡ true → Quiet u (step o rb fs u writes)
  writer-Quiet u h =
      let u' : State o rb fs = record u { wake = false; flush_req = false } in
      let min_bytes : ℕ = if u.flush_req then 1 else write_chunk in
      let d = drain_to_file-Drains o rb fs rl fl u' min_bytes in
      subst (λ r. Quiet u (with_none o rb fs r))
        (sym (writer_pass-active u h ∙ ap (synced_if o rb fs u.flush_req) d.ends))
        (synced-Quiet u d.end u.flush_req (ap (λ s. s.active) d.same ∙ h) d.kept d.roomy
          (ap (λ s. s.stat_queued) d.same) (ap (λ s. s.stat_dropped) d.same))
