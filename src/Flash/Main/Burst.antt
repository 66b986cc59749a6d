-- ===== src/Flash/Main/Burst.antt =====
-- What is in the file when the program has run.
use pcan_alterative.Base.{
  ℕ, zero, suc, ◌+◌, ◌*◌, ◌^◌, ◌<◌, ◌≤◌, ◌≡◌, refl, ◌∙◌, ap, sym, subst, true, false, List,
}
use pcan_alterative.Base.{
  [], ◌∷◌, ◌++◌, some, Result, ok, length, length-append, arith, All, All-append,
}
use pcan_alterative.Base.{All-replicate, append-nil, append_assoc, map, drop, replicate}
use pcan_alterative.Base.{bit_and-le}
use pcan_alterative.Base.ByteOrder.{ByteOrder, ByteOrderLaws}
use pcan_alterative.Zephyr.RingBuf.{RingBuf, RingBufLaws}
use pcan_alterative.Flash.Record.{
  FlashLogFrame, IsFlashLogFrame, record_bytes, record_count, records, entry_of,
  length-record_bytes, header_bytes, read_records, dlc_to_bytes,
}
use pcan_alterative.Flash.Log.{
  FileSystem, State, flash_log_init, flash_log_start, flash_log_get_stats,
}
use pcan_alterative.Flash.Log.Drain.{TakesAll}
use pcan_alterative.Flash.Log.Events.{Event, flushes, writes, stops, IsValidEvent, run}
use pcan_alterative.Flash.Log.Session.{given_by, given}
use pcan_alterative.Flash.Log.Stop.{session-Readable, flash_log_start_lem}
use pcan_alterative.Flash.Log.Whole.{recorded_whole}
use pcan_alterative.Flash.Main.{
  Outside, logged, burst_frame, writer, burst, session, after_stop, after_session, after_start,
  after_init, main,
}

-- The clock has 64 bits.
abbrev pub IsClock : Outside → Type 0
IsClock x = (i : ℕ) → x.clock i < 2 ^ 64

burst_frame-IsFlashLogFrame : (i ticks : ℕ) → ticks < 2 ^ 64 → IsFlashLogFrame (burst_frame i ticks)
burst_frame-IsFlashLogFrame i ticks h = record {
  id_32 = omega (arith, bit_and-le i 0x7f);
  timestamp_64 = h;
  bytes_64 = refl;
}

-- The frames of the burst.
unfoldable pub burst_frames : Outside → ℕ → ℕ → List FlashLogFrame
burst_frames x zero i = []
burst_frames x (suc n) i = burst_frame i (x.clock i) ∷ burst_frames x n (i + 1)

given-append : (xs ys : List Event) → given (xs ++ ys) ≡ given xs ++ given ys
given-append [] ys = refl
given-append (e ∷ es) ys =
    ap (λ t. given_by e ++ t) (given-append es ys)
    ∙ sym (append_assoc (given_by e) (given es) (given ys))

given-writer : (n : ℕ) → given (replicate n writes) ≡ []
given-writer zero = refl
given-writer (suc n) = given-writer n

given-burst : (x : Outside) (n i : ℕ) → given (burst x n i) ≡ burst_frames x n i
unfolding burst burst_frames
given-burst x zero i = refl
given-burst x (suc n) i =
    ap (λ t. burst_frame i (x.clock i) ∷ t)
      (given-append (writer x i) (burst x n (i + 1))
        ∙ rw (given-writer (x.rounds i), given-burst x n (i + 1)) refl)

given-session : (x : Outside) → given (session x) ≡ burst_frames x 200 0
given-session x =
    let ending = stops ∷ writer x 201 in
    given-append (burst x 200 0) (flushes ∷ (writer x 200 ++ ending))
    ∙ rw
        (
          given-append (writer x 200) ending,
          given-writer (x.rounds 200),
          given-writer (x.rounds 201),
          append-nil (given (burst x 200 0)),
        )
        (given-burst x 200 0)

burst-IsValidEvent : (x : Outside) → IsClock x → (n i : ℕ) → All IsValidEvent (burst x n i)
unfolding burst
burst-IsValidEvent x h zero i = tt
burst-IsValidEvent x h (suc n) i = (
  burst_frame-IsFlashLogFrame i (x.clock i) (h i),
  All-append IsValidEvent (writer x i) (burst x n (i + 1))
      (All-replicate IsValidEvent (x.rounds i) writes tt) (burst-IsValidEvent x h n (i + 1)),
)

session-IsValidEvent : (x : Outside) → IsClock x → All IsValidEvent (session x)
session-IsValidEvent x h =
    let rounds : (n : ℕ) → All IsValidEvent (replicate n writes) =
      λ n. All-replicate IsValidEvent n writes tt in
    All-append IsValidEvent (burst x 200 0) (flushes ∷ (writer x 200 ++ (stops ∷ writer x 201)))
      (burst-IsValidEvent x h 200 0)
      (
        tt,
        All-append IsValidEvent (writer x 200) (stops ∷ writer x 201) (rounds (x.rounds 200))
            (tt, rounds (x.rounds 201)),
      )

module _ (o : ByteOrder) (ol : ByteOrderLaws o) where
  length-burst_record :
      (i ticks : ℕ) → ticks < 2 ^ 64 → length (record_bytes o (burst_frame i ticks)) ≡ 24
  unfolding record_count dlc_to_bytes
  length-burst_record i ticks h =
      length-record_bytes o ol (burst_frame i ticks) (burst_frame-IsFlashLogFrame i ticks h)

  length-burst_records :
      (x : Outside) → IsClock x → (n i : ℕ) → length (records o (burst_frames x n i)) ≡ 24 * n
  unfolding burst_frames
  length-burst_records x h zero i = refl
  length-burst_records x h (suc n) i =
      let f = burst_frame i (x.clock i) in
      omega (
        arith,
        length-append (record_bytes o f) (records o (burst_frames x n (i + 1))),
        length-burst_record i (x.clock i) (h i),
        length-burst_records x h n (i + 1),
      )

module _ (o : ByteOrder) (rb : RingBuf) (fs : FileSystem) (ol : ByteOrderLaws o)
    (rl : RingBufLaws rb) (fl : TakesAll fs) where
  open rl use {contents, capacity}
  open fl use {content}

  -- The program comes to its end; the closed file is the header and the records of all 200 frames,
  -- and a reader of the format finds them.
  pub record Recorded (x : Outside) (name_ticks ticks : ℕ) (u : State o rb fs) : Type 0 where
    pub after : State o rb fs
    pub result : Result (Unit {0})
    pub ends :
        main o rb fs x name_ticks ticks u
        ≡ some (after, logged result (flash_log_get_stats o rb fs after))
    pub inactive : after.active ≡ false
    pub file : content after.log_file ≡ header_bytes o ticks ++ records o (burst_frames x 200 0)
    pub read :
        read_records o (suc (length (burst_frames x 200 0))) (drop 16 (content after.log_file))
        ≡ some (map (entry_of o) (burst_frames x 200 0))

  abbrev mounted_of : State o rb fs → State o rb fs
  mounted_of u = record u { log_file = fs.init u.log_file; mounted = true }

  main-run :
      (x : Outside) (name_ticks ticks : ℕ) (u : State o rb fs)
      → fs.mount ≡ ok tt
      → u.mounted ≡ false
      → u.active ≡ false
      → let s = (flash_log_start o rb fs (mounted_of u) name_ticks ticks).0 in
        main o rb fs x name_ticks ticks u ≡ after_session o rb fs (run o rb fs s (session x))
  unfolding main after_init after_start flash_log_init
  main-run x name_ticks ticks u hm hu ha =
      let v = mounted_of u in
      let s = (flash_log_start o rb fs v name_ticks ticks).0 in
      let initialised : flash_log_init o rb fs u ≡ (v, ok tt) = rw (hu, hm) refl in
      let begun : flash_log_start o rb fs v name_ticks ticks ≡ (s, ok tt) =
        ap (λ r. (s, r)) (flash_log_start_lem o rb fs ol rl fl v name_ticks ticks refl ha).0 in
      ap (after_init o rb fs x name_ticks ticks) initialised ∙ ap (after_start o rb fs x) begun

  -- The program on a file system that mounts and takes every write whole, from a logger that is
  -- neither mounted nor started, with an empty ring of at least 4816 bytes and a clock of 64 bits:
  -- however often the writer runs in between, the program comes to its end, the closed file is the
  -- header and the records of all 200 frames of the burst, and a reader of the format finds them.
  pub main-Recorded :
      (x : Outside) (name_ticks ticks : ℕ) (u : State o rb fs)
      → fs.mount ≡ ok tt
      → u.mounted ≡ false
      → u.active ≡ false
      → contents u.log_rb ≡ []
      → 4816 ≤ capacity u.log_rb
      → IsClock x
      → Recorded x name_ticks ticks u
  unfolding after_session after_stop
  main-Recorded x name_ticks ticks u hm hu ha nil room clock =
      let v = mounted_of u in
      let vs = session-IsValidEvent x clock in
      let r = session-Readable o rb fs ol rl fl v name_ticks ticks (session x) refl ha nil vs in
      let all : r.frames ≡ burst_frames x 200 0 =
        recorded_whole o rb fs ol rl fl v name_ticks ticks (session x) refl ha nil vs
          (omega (
            arith,
            ap (λ fs. length (records o fs)) (given-session x),
            length-burst_records o ol x clock 200 0,
          ))
          r
        ∙ given-session x in
      record {
        after = r.after;
        result = r.result;
        ends =
            main-run x name_ticks ticks u hm hu ha
            ∙ ap (after_session o rb fs) r.ran
            ∙ ap (after_stop o rb fs) r.stopped;
        inactive = r.inactive;
        file = r.file ∙ ap (λ t. header_bytes o ticks ++ records o t) all;
        read =
            subst
              (λ t.
                read_records o (suc (length t)) (drop 16 (content r.after.log_file))
                ≡ some (map (entry_of o) t))
              all r.read;
      }
