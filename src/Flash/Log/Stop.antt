-- ===== src/Flash/Log/Stop.antt =====
-- The start and the end of a session, and what a reader finds in its file.
use pcan_alterative.Base.{ℕ, suc, ◌<◌, ◌≡◌, ◌⊎◌, refl, ◌∙◌, ap, ap₂, sym, true}
use pcan_alterative.Base.{false, List, [], ◌++◌, some, Result, ok, length}
use pcan_alterative.Base.{arith, inl, inr, append-nil, length-append}
use pcan_alterative.Base.{All, map, drop, drop-append_length, nil_of_length}
use pcan_alterative.Base.Kept.{Kept}
use pcan_alterative.Base.ByteOrder.{ByteOrder, ByteOrderLaws}
use pcan_alterative.Zephyr.RingBuf.{RingBuf, RingBufLaws}
use pcan_alterative.Clp.Parser.{inc32}
use pcan_alterative.Flash.Record.{
  FlashLogFrame, entry_of, header_bytes, records, read_records, read-records,
}
use pcan_alterative.Flash.Log.{
  FileSystem, State, drain_to_file, flash_log_start, opened, started, stop_end, closed,
}
use pcan_alterative.Flash.Log.Events.{Event, IsValidEvent, run, bytes_of}
use pcan_alterative.Flash.Log.Session.{given, run-Logs}
use pcan_alterative.Flash.Log.Drain.{TakesAll, drain_to_file-Drains}

module _ (o : ByteOrder) (rb : RingBuf) (fs : FileSystem) (ol : ByteOrderLaws o)
    (rl : RingBufLaws rb) (fl : TakesAll fs) where
  open rl use {contents}
  open fl use {content, open_ok, open_empty, write_count, write_appends, sync_keeps, close_keeps}

  -- A start on a mounted file system, with no file open, writes the header and opens the session.
  pub flash_log_start_lem :
      (u : State o rb fs) (name_ticks ticks : ℕ)
      → u.mounted ≡ true
      → u.active ≡ false
      → let (u', result) = flash_log_start o rb fs u name_ticks ticks in
        (result ≡ ok tt)
        × (u'.active ≡ true)
        × (content u'.log_file ≡ header_bytes o ticks)
        × (u'.log_rb ≡ u.log_rb)
  unfolding flash_log_start opened started
  flash_log_start_lem u name_ticks ticks hm ha =
      let f = (fs.open_named u.log_file name_ticks).0 in
      rw (hm, ha, open_ok u.log_file name_ticks, write_count f (header_bytes o ticks))
        (
          refl,
          refl,
          write_appends f (header_bytes o ticks)
              ∙ ap (λ t. t ++ header_bytes o ticks) (open_empty u.log_file name_ticks),
          refl,
        )

  none_left : {xs : List ℕ} → (length xs < 1) ⊎ (xs ≡ []) → xs ≡ []
  none_left {xs = xs} (inl few) = nil_of_length xs (omega (arith, few))
  none_left (inr nil) = nil

  stop_end-closed :
      (u : State o rb fs)
      → stop_end o rb fs u ≡ closed o rb fs (drain_to_file o rb fs (record u { active = false }) 1)
  unfolding stop_end
  stop_end-closed u = refl

  -- The stop ended, with this state.
  pub record Stopped (u : State o rb fs) : Type 0 where
    pub end : State o rb fs
    pub result : Result (Unit {0})
    pub ends : stop_end o rb fs u ≡ some (end, result)
    pub inactive : end.active ≡ false
    pub empty : contents end.log_rb ≡ []
    pub all : content end.log_file ≡ bytes_of o rb fs rl fl u

  pub stop_end-Stopped : (u : State o rb fs) → Stopped u
  unfolding closed
  stop_end-Stopped u =
      let u' : State o rb fs = record u { active = false } in
      let d = drain_to_file-Drains o rb fs rl fl u' 1 in
      let e = d.end in
      let synced = (fs.sync e.log_file).0 in
      let empty = none_left d.less in
      record {
        end = record e { log_file = (fs.close synced).0; stat_flush = inc32 e.stat_flush };
        result = (fs.close synced).1;
        ends = stop_end-closed u ∙ ap (closed o rb fs) d.ends;
        inactive = ap (λ s. s.active) d.same;
        empty = empty;
        all =
            close_keeps synced
            ∙ sync_keeps e.log_file
            ∙ sym (append-nil (content e.log_file))
            ∙ ap (λ t. content e.log_file ++ t) (sym empty)
            ∙ d.kept;
      }

  -- The run and the stop after it come to an end; the closed file has the header and behind it the
  -- records of the accepted frames, and a reader of the format finds exactly those frames.
  pub record Readable (u : State o rb fs) (es : List Event) (ticks : ℕ) : Type 0 where
    pub before : State o rb fs
    pub after : State o rb fs
    pub result : Result (Unit {0})
    pub frames : List FlashLogFrame
    pub lost : ℕ
    pub from_given : Kept (given es) frames lost
    pub ran : run o rb fs u es ≡ some (before, frames)
    pub inactive : after.active ≡ false
    pub stopped : stop_end o rb fs before ≡ some (after, result)
    pub file : content after.log_file ≡ header_bytes o ticks ++ records o frames
    pub read :
        read_records o (suc (length frames)) (drop 16 (content after.log_file))
        ≡ some (map (entry_of o) frames)

  pub length-header_bytes : (ticks : ℕ) → length (header_bytes o ticks) ≡ 16
  unfolding header_bytes
  length-header_bytes ticks =
      let v = o.put_le16 1 in
      let n = o.put_le16 16 in
      let t = o.put_le64 ticks in
      omega (
        arith,
        length-append v (n ++ t),
        length-append n t,
        ol.le16.length_put 1,
        ol.le16.length_put 16,
        ol.le64.length_put ticks,
      )

  -- A whole session on a mounted file system that takes every write whole: a start with nothing
  -- queued, any events on valid frames in any order, and the end of a stop. It comes to an end; the
  -- closed file is the header and the records of exactly the accepted frames, which are frames that
  -- were given, in their order, and a reader of the format finds those frames in it.
  pub session-Readable :
      (u : State o rb fs) (name_ticks ticks : ℕ) (es : List Event)
      → u.mounted ≡ true
      → u.active ≡ false
      → contents u.log_rb ≡ []
      → All IsValidEvent es
      → Readable (flash_log_start o rb fs u name_ticks ticks).0 es ticks
  session-Readable u name_ticks ticks es hm ha nil vs =
      let (started_ok, active, header, same_ring) = flash_log_start_lem u name_ticks ticks hm ha in
      let s = (flash_log_start o rb fs u name_ticks ticks).0 in
      let l = run-Logs o rb fs ol rl fl es s active vs in
      let z = stop_end-Stopped l.end in
      let file : content z.end.log_file ≡ header_bytes o ticks ++ records o l.frames =
        z.all
        ∙ l.logged
        ∙ ap (λ t. t ++ records o l.frames)
            (ap₂ (λ c r. c ++ r) header (ap contents same_ring ∙ nil)
              ∙ append-nil (header_bytes o ticks)) in
      record {
        before = l.end;
        after = z.end;
        result = z.result;
        frames = l.frames;
        lost = l.lost;
        from_given = l.from_given;
        ran = l.ends;
        inactive = z.inactive;
        stopped = z.ends;
        file = file;
        read =
            ap (λ t. read_records o (suc (length l.frames)) (drop 16 t)) file
            ∙ ap (read_records o (suc (length l.frames))) (
                drop-append_length 16 (header_bytes o ticks) (records o l.frames)
                  (length-header_bytes ticks))
            ∙ read-records o ol l.frames (suc (length l.frames)) l.valid (omega arith);
      }
