-- ===== src/Flash/Log/Whole.antt =====
-- Sessions in which the ring has room for everything: nothing is lost.
use pcan_alterative.Base.{ℕ, ◌+◌, ◌≤◌, ◌≡◌, refl, ◌∙◌, ap, sym, true, false, List, [], ◌∷◌, ◌++◌}
use pcan_alterative.Base.{
  Option, some, none, length, length-append, arith, append_assoc, append-nil, All,
}
use pcan_alterative.Base.ByteOrder.{ByteOrder, ByteOrderLaws}
use pcan_alterative.Zephyr.RingBuf.{RingBuf, RingBufLaws}
use pcan_alterative.Flash.Record.{
  FlashLogFrame, IsFlashLogFrame, record_bytes, records, length-record_bytes,
}
use pcan_alterative.Flash.Log.{FileSystem, State, flash_log_record, flash_log_start}
use pcan_alterative.Flash.Log.Recording.{record_cases}
use pcan_alterative.Flash.Log.Drain.{TakesAll}
use pcan_alterative.Flash.Log.Events.{
  Event, logs, flushes, writes, stops, IsValidEvent, step, and_more, and_then, run, bytes_of, Quiet,
  flush-Quiet, stop-Quiet, writer-Quiet,
}
use pcan_alterative.Flash.Log.Session.{given_by, given, records-append, one_more}
use pcan_alterative.Flash.Log.Stop.{Readable, flash_log_start_lem, length-header_bytes}

module _ (o : ByteOrder) (rb : RingBuf) (fs : FileSystem) (ol : ByteOrderLaws o)
    (rl : RingBufLaws rb) (fl : TakesAll fs) where
  open rl use {contents, capacity, bounded, space}
  open fl use {content}

  abbrev bytes : State o rb fs → List ℕ
  bytes u = bytes_of o rb fs rl fl u

  -- All of the frames `gs` are accepted.
  pub record Whole (u : State o rb fs) (gs : List FlashLogFrame)
      (result : Option (State o rb fs × List FlashLogFrame)) : Type 0 where
    pub end : State o rb fs
    pub ends : result ≡ some (end, gs)
    pub still : end.active ≡ true
    pub logged : bytes end ≡ bytes u ++ records o gs
    pub roomy : capacity end.log_rb ≡ capacity u.log_rb

  record-Whole :
      (u : State o rb fs) (f : FlashLogFrame)
      → u.active ≡ true
      → IsFlashLogFrame f
      → length (bytes u) + length (record_bytes o f) ≤ capacity u.log_rb
      → Whole u (f ∷ []) (step o rb fs u (logs f))
  record-Whole u f h v fits =
      let (result, queued, file, still, counted, none_lost, roomy) =
        (record_cases o rb fs ol rl u f h v).0 (
          omega (
            arith,
            length-record_bytes o ol f v,
            length-append (content u.log_file) (contents u.log_rb),
            space u.log_rb,
          )) in
      let u' = (flash_log_record o rb fs u f).0 in
      record {
        end = u';
        ends = rw result refl;
        still = still;
        logged = one_more o rb fs ol rl fl u u' f queued file;
        roomy = roomy;
      }

  Quiet-Whole :
      (u : State o rb fs) (result : Option (State o rb fs × List FlashLogFrame))
      → Quiet o rb fs rl fl u result
      → Whole u [] result
  Quiet-Whole u result q = record {
    end = q.end;
    ends = q.ends;
    still = q.still;
    logged = q.same ∙ sym (append-nil (bytes u));
    roomy = q.roomy;
  }

  step-Whole :
      (e : Event) (u : State o rb fs)
      → u.active ≡ true
      → IsValidEvent e
      → length (bytes u) + length (records o (given_by e)) ≤ capacity u.log_rb
      → Whole u (given_by e) (step o rb fs u e)
  step-Whole (logs f) u h v fits =
      record-Whole u f h v (omega (arith, length-append (record_bytes o f) []))
  step-Whole flushes u h v fits = Quiet-Whole u _ (flush-Quiet o rb fs rl fl u h)
  step-Whole writes u h v fits = Quiet-Whole u _ (writer-Quiet o rb fs rl fl u h)
  step-Whole stops u h v fits = Quiet-Whole u _ (stop-Quiet o rb fs rl fl u h)

  pub run-Whole :
      (es : List Event) (u : State o rb fs)
      → u.active ≡ true
      → All IsValidEvent es
      → length (bytes u) + length (records o (given es)) ≤ capacity u.log_rb
      → Whole u (given es) (run o rb fs u es)
  run-Whole [] u h vs fits = record {
    end = u;
    ends = refl;
    still = h;
    logged = sym (append-nil (bytes u));
    roomy = refl;
  }
  run-Whole (e ∷ es) u h (v, vs) fits =
      let xs = given_by e in
      let ys = given es in
      let split : length (records o (xs ++ ys)) ≡ length (records o xs) + length (records o ys) =
        ap length (records-append o xs ys) ∙ length-append (records o xs) (records o ys) in
      let a = step-Whole e u h v (omega (arith, split)) in
      let b = run-Whole es a.end a.still vs (
        omega
          (arith, split, a.roomy, ap length a.logged, length-append (bytes u) (records o xs))) in
      record {
        end = b.end;
        ends =
            ap (λ r. and_then o rb fs r (λ u'. run o rb fs u' es)) a.ends
            ∙ ap (and_more o rb fs xs) b.ends;
        still = b.still;
        logged =
            b.logged
            ∙ ap (λ t. t ++ records o ys) a.logged
            ∙ append_assoc (bytes u) (records o xs) (records o ys)
            ∙ ap (λ t. bytes u ++ t) (sym (records-append o xs ys));
        roomy = b.roomy ∙ a.roomy;
      }

  abbrev frames_of :
      List FlashLogFrame → Option (State o rb fs × List FlashLogFrame) → List FlashLogFrame
  frames_of d none = d
  frames_of d (some (u, gs)) = gs

  -- A session on a mounted file system that takes every write whole, with nothing queued before and
  -- a ring with room for the header and the records of all the frames given: all of them are
  -- accepted, whatever the writer does meanwhile.
  pub recorded_whole :
      (u : State o rb fs) (name_ticks ticks : ℕ) (es : List Event)
      → u.mounted ≡ true
      → u.active ≡ false
      → contents u.log_rb ≡ []
      → (vs : All IsValidEvent es) → 16 + length (records o (given es)) ≤ capacity u.log_rb
      → (r : Readable o rb fs ol rl fl (flash_log_start o rb fs u name_ticks ticks).0 es ticks)
      → r.frames ≡ given es
  recorded_whole u name_ticks ticks es hm ha nil vs fits r =
      let (started_ok, active, header, same_ring) =
        flash_log_start_lem o rb fs ol rl fl u name_ticks ticks hm ha in
      let s = (flash_log_start o rb fs u name_ticks ticks).0 in
      let all = run-Whole es s active vs (
        omega (
          arith,
          length-append (content s.log_file) (contents s.log_rb),
          ap length header,
          length-header_bytes o rb fs ol rl fl ticks,
          ap (λ x. length (contents x)) same_ring,
          ap length nil,
          ap capacity same_ring,
        )) in
      ap (frames_of []) (sym r.ran ∙ all.ends)
