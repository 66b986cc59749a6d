-- ===== src/Flash/Log/Session.antt =====
-- A logging session: whatever the producers and the writer do and in which order, the file and the
-- ring together have the accepted records, and the counters say what is missing.
use pcan_alterative.Base.{ℕ, ◌+◌, ◌%◌, ◌^◌, ◌≡◌, refl, ◌∙◌, ap, ap₂, sym, true, List, [], ◌∷◌, ◌++◌}
use pcan_alterative.Base.{Option, some, ltb, length, length-append, arith, Bool-cases, inl, inr}
use pcan_alterative.Base.{append_assoc, append-nil, All, All-append}
use pcan_alterative.Base.ByteOrder.{ByteOrder, ByteOrderLaws}
use pcan_alterative.Base.Kept.{Kept, none_left, kept, lose, Kept-append}
use pcan_alterative.Zephyr.RingBuf.{RingBuf, RingBufLaws}
use pcan_alterative.Clp.Parser.{inc32}
use pcan_alterative.Flash.Record.{
  FlashLogFrame, IsFlashLogFrame, record_bytes, record_count, records, rec_fixed,
}
use pcan_alterative.Flash.Log.{FileSystem, State, flash_log_record}
use pcan_alterative.Flash.Log.Recording.{record_cases}
use pcan_alterative.Flash.Log.Drain.{TakesAll}
use pcan_alterative.Flash.Log.Events.{
  Event, logs, flushes, writes, stops, IsValidEvent, step, and_more, and_then, run, bytes_of, Quiet,
  flush-Quiet, stop-Quiet, writer-Quiet,
}

-- The frames that an event and some events give to be logged.
abbrev pub given_by : Event → List FlashLogFrame
given_by (logs f) = f ∷ []
given_by flushes = []
given_by writes = []
given_by stops = []

abbrev pub given : List Event → List FlashLogFrame
given [] = []
given (e ∷ es) = given_by e ++ given es

pub records-append :
    (o : ByteOrder) (xs ys : List FlashLogFrame)
    → records o (xs ++ ys) ≡ records o xs ++ records o ys
records-append o [] ys = refl
records-append o (x ∷ xs) ys =
    ap (λ t. record_bytes o x ++ t) (records-append o xs ys)
    ∙ sym (append_assoc (record_bytes o x) (records o xs) (records o ys))

module _ (o : ByteOrder) (rb : RingBuf) (fs : FileSystem) (ol : ByteOrderLaws o)
    (rl : RingBufLaws rb) (fl : TakesAll fs) where
  open rl use {contents, capacity, bounded, space}
  open fl use {content}

  abbrev bytes : State o rb fs → List ℕ
  bytes u = bytes_of o rb fs rl fl u

  -- The events end in a state with the file still open; `frames` were accepted, all of them valid,
  -- and behind the bytes in the file and in the ring stand their records. They are the frames `gs`
  -- without `lost` of them, and the two counters say how many were accepted and how many not.
  pub record Logs (u : State o rb fs) (gs : List FlashLogFrame)
      (result : Option (State o rb fs × List FlashLogFrame)) : Type 0 where
    pub end : State o rb fs
    pub frames : List FlashLogFrame
    pub lost : ℕ
    pub ends : result ≡ some (end, frames)
    pub still : end.active ≡ true
    pub valid : All IsFlashLogFrame frames
    pub logged : bytes end ≡ bytes u ++ records o frames
    pub from_given : Kept gs frames lost
    pub queued : end.stat_queued % 2 ^ 32 ≡ (u.stat_queued + length frames) % 2 ^ 32
    pub dropped : end.stat_dropped % 2 ^ 32 ≡ (u.stat_dropped + lost) % 2 ^ 32
    pub roomy : capacity end.log_rb ≡ capacity u.log_rb

  pub one_more :
      (u u' : State o rb fs) (f : FlashLogFrame)
      → contents u'.log_rb ≡ contents u.log_rb ++ record_bytes o f
      → u'.log_file ≡ u.log_file
      → bytes u' ≡ bytes u ++ records o (f ∷ [])
  one_more u u' f queued file =
      ap₂ (λ s t. s ++ t) (ap content file)
        (queued ∙ ap (λ t. contents u.log_rb ++ t) (sym (append-nil (record_bytes o f))))
      ∙ sym (append_assoc (content u.log_file) (contents u.log_rb) (records o (f ∷ [])))

  record-Logs :
      (u : State o rb fs) (f : FlashLogFrame)
      → u.active ≡ true
      → IsFlashLogFrame f
      → Logs u (f ∷ []) (step o rb fs u (logs f))
  record-Logs u f h v =
      let (room, full) = record_cases o rb fs ol rl u f h v in
      let n = rec_fixed + record_count f in
      let u' = (flash_log_record o rb fs u f).0 in
      elim (Bool-cases (ltb (rb.space_get u.log_rb) n)) [
        | inl lt ↦
            let (result, same) = full (ground arith) in
            record {
              end = record u { stat_dropped = inc32 u.stat_dropped };
              frames = [];
              lost = 1;
              ends = rw (result, same) refl;
              still = h;
              valid = tt;
              logged = sym (append-nil (bytes u));
              from_given = lose f none_left;
              queued = omega arith;
              dropped = omega arith;
              roomy = refl;
            }
        | inr ge ↦
            let (result, queued, file, still, counted, none, roomy) = room (ground arith) in
            record {
              end = u';
              frames = f ∷ [];
              lost = 0;
              ends = rw result refl;
              still = still;
              valid = (v, tt);
              logged = one_more u u' f queued file;
              from_given = kept f none_left;
              queued = omega (arith, counted);
              dropped = omega (arith, none);
              roomy = roomy;
            }
      ]

  Quiet-Logs :
      (u : State o rb fs) (result : Option (State o rb fs × List FlashLogFrame))
      → Quiet o rb fs rl fl u result
      → Logs u [] result
  Quiet-Logs u result q = record {
    end = q.end;
    frames = [];
    lost = 0;
    ends = q.ends;
    still = q.still;
    valid = tt;
    logged = q.same ∙ sym (append-nil (bytes u));
    from_given = none_left;
    queued = omega (arith, q.queued);
    dropped = omega (arith, q.dropped);
    roomy = q.roomy;
  }

  step-Logs :
      (e : Event) (u : State o rb fs)
      → u.active ≡ true
      → IsValidEvent e
      → Logs u (given_by e) (step o rb fs u e)
  step-Logs (logs f) u h v = record-Logs u f h v
  step-Logs flushes u h v = Quiet-Logs u _ (flush-Quiet o rb fs rl fl u h)
  step-Logs writes u h v = Quiet-Logs u _ (writer-Quiet o rb fs rl fl u h)
  step-Logs stops u h v = Quiet-Logs u _ (stop-Quiet o rb fs rl fl u h)

  -- On a file system that takes every write whole, while a file is open, whatever is logged, flushed and written and in which order, also after
  -- the start of a stop: the run comes to an end with the file still open, and behind the bytes
  -- that the file and the ring had stand the records of the accepted frames, whole and in order.
  -- These are the frames given, without as many as the counter of dropped records, modulo 2 ^ 32,
  -- has grown by; the counter of queued records has grown by their number.
  pub run-Logs :
      (es : List Event) (u : State o rb fs)
      → u.active ≡ true
      → All IsValidEvent es
      → Logs u (given es) (run o rb fs u es)
  run-Logs [] u h vs = record {
    end = u;
    frames = [];
    lost = 0;
    ends = refl;
    still = h;
    valid = tt;
    logged = sym (append-nil (bytes u));
    from_given = none_left;
    queued = omega arith;
    dropped = omega arith;
    roomy = refl;
  }
  run-Logs (e ∷ es) u h (v, vs) =
      let a = step-Logs e u h v in
      let b = run-Logs es a.end a.still vs in
      record {
        end = b.end;
        frames = a.frames ++ b.frames;
        lost = a.lost + b.lost;
        ends =
            ap (λ r. and_then o rb fs r (λ u'. run o rb fs u' es)) a.ends
            ∙ ap (and_more o rb fs a.frames) b.ends;
        still = b.still;
        valid = All-append IsFlashLogFrame a.frames b.frames a.valid b.valid;
        logged =
            b.logged
            ∙ ap (λ t. t ++ records o b.frames) a.logged
            ∙ append_assoc (bytes u) (records o a.frames) (records o b.frames)
            ∙ ap (λ t. bytes u ++ t) (sym (records-append o a.frames b.frames));
        from_given = Kept-append a.from_given b.from_given;
        queued = omega (arith, a.queued, b.queued, length-append a.frames b.frames);
        dropped = omega (arith, a.dropped, b.dropped);
        roomy = b.roomy ∙ a.roomy;
      }
