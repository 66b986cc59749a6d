-- ===== src/Clp/SelfTest/Verdict.antt =====
-- What the self-test finds out.
use pcan_alterative.Base.{
  ℕ, zero, suc, ◌+◌, ◌%◌, ◌^◌, ◌<◌, ◌≤◌, ◌≡◌, refl, ◌∙◌, ap, sym, subst, Bool, true, not, ◌&&◌,
  List, [], ◌∷◌, ◌++◌, some, ok, ◌==◌, length, arith, AreBytes,
}
use pcan_alterative.Zephyr.{Wire, WireLaws, CobsResync}
use pcan_alterative.Clp.Types.{can_rx, code, clp_max_wire, IsCanFrame, data_count, clp_dlc_to_bytes}
use pcan_alterative.Clp.Encode.{can_payload, clp_encode_can_frame}
use pcan_alterative.Clp.Encode.Framing.{wire_of, clp_encode_raw-fits}
use pcan_alterative.Clp.Decode.RoundTrip.{length-can_payload, data_count-le, decode-can_payload}
use pcan_alterative.Clp.Parser.Accounting.{IsSound}
use pcan_alterative.Clp.Parser.Resync.{feed-IsIdle}
use pcan_alterative.Clp.Parser.{Message, Parser, clp_parser_init, clp_parser_feed}
use pcan_alterative.Clp.Parser.Stream.{IsIdle, counted, feed-wire_of}
use pcan_alterative.Clp.SelfTest.{
  SelfTest, pattern_from, test_frame, fresh, flip_at, last_of, st_frame_cb, st_frames, matches,
  after_corruption, with_wire, started_with, clp_selftest,
}

pattern_from-AreBytes : (n i : ℕ) → AreBytes (pattern_from n i)
pattern_from-AreBytes zero i = tt
pattern_from-AreBytes (suc n) i = (omega arith, pattern_from-AreBytes n (i + 1))

pub test_frame-IsCanFrame : IsCanFrame test_frame
test_frame-IsCanFrame = record {
  id_u32 = omega arith;
  flags_u8 = omega arith;
  dlc_u8 = omega arith;
  tag_u16 = omega arith;
  timestamp_u64 = omega arith;
  bytes_64 = refl;
  bytes_u8 = pattern_from-AreBytes 64 0;
}

flip_at-append :
    (i : ℕ) (xs ys : List ℕ) → i < length xs → flip_at i (xs ++ ys) ≡ flip_at i xs ++ ys
flip_at-append i [] ys h = absurd (omega arith)
flip_at-append zero (x ∷ xs) ys h = refl
flip_at-append (suc i) (x ∷ xs) ys h = ap (λ t. x ∷ t) (flip_at-append i xs ys (omega arith))

one_more : (n : ℕ) → (n + 1 == 1) ≡ (n == 0)
one_more zero = refl
one_more (suc n) = ground arith

module _ (w : Wire) (wl : WireLaws w) where
  count-st_frames :
      (ms : List Message) (st : SelfTest) → (st_frames w st ms).st_count ≡ st.st_count + length ms
  unfolding st_frames st_frame_cb
  count-st_frames [] st = omega arith
  count-st_frames (m ∷ ms) st = omega (arith, count-st_frames ms (st_frame_cb w st m))

  short : length (can_payload w test_frame) ≤ 80
  short = omega (
    arith,
    length-can_payload w wl.order_laws test_frame test_frame-IsCanFrame,
    data_count-le test_frame.flags test_frame.dlc,
  )

  abbrev pub test_wire : ℕ → List ℕ
  test_wire seq = wire_of w wl can_rx seq (can_payload w test_frame)

  abbrev test_message : ℕ → Message
  test_message seq = record { type = code can_rx; seq = seq; payload = can_payload w test_frame }

  encoded :
      (seq : ℕ) → clp_encode_can_frame w can_rx seq test_frame clp_max_wire ≡ ok (test_wire seq)
  unfolding clp_encode_can_frame
  encoded seq =
      clp_encode_raw-fits w wl can_rx seq (can_payload w test_frame) clp_max_wire short
        (omega arith)

  heard :
      (seq : ℕ) (p : Parser w.Decoder)
      → IsIdle w p
      → clp_parser_feed w p (test_wire seq) ≡ (counted p, test_message seq ∷ [])
  heard seq p idle = feed-wire_of w wl p can_rx seq (can_payload w test_frame) idle short

  fresh_parser : IsIdle w (clp_parser_init w true)
  unfolding clp_parser_init
  fresh_parser = record { at_start = refl; no_bytes = refl; no_overflow = refl; listening = refl }

  counted_parser : IsSound (counted (clp_parser_init w true)).rx
  unfolding clp_parser_init
  counted_parser = record { room = omega arith; ok_u32 = omega arith; listening = refl }

  matched : matches w (st_frames w fresh (test_message 7 ∷ [])) test_frame ≡ true
  unfolding matches st_frames st_frame_cb last_of data_count clp_dlc_to_bytes
  matched = rw (decode-can_payload w wl.order_laws test_frame test_frame-IsCanFrame) refl

  -- The second good frame is delivered, and the verdict is on what the corrupted one did.
  judged :
      (p : Parser w.Decoder) (st : SelfTest)
      → IsIdle w p
      → after_corruption w p st (ok (test_wire 8))
        ≡ some ((st.st_count == 0) && not ((p.crc_errors + p.framing_errors) % 2 ^ 32 == 0))
  unfolding after_corruption st_frames st_frame_cb
  judged p st idle = rw (heard 8 p idle, one_more st.st_count) refl

  -- What the parser has and has delivered after the good frame and the corrupted one.
  abbrev pub corrupted : Parser w.Decoder × List Message
  corrupted = clp_parser_feed w (counted (clp_parser_init w true)) (flip_at 10 (test_wire 7))

  abbrev pub noticed : Parser w.Decoder × List Message → Bool
  noticed (p, out) = (length out == 0) && not ((p.crc_errors + p.framing_errors) % 2 ^ 32 == 0)

  with_wire-noticed : IsIdle w corrupted.0 → with_wire w (test_wire 7) ≡ some (noticed corrupted)
  unfolding with_wire
  with_wire-noticed idle =
      let (p, out) = corrupted in
      let st : SelfTest = record (st_frames w fresh (test_message 7 ∷ [])) { st_count = 0 } in
      rw (heard 7 (clp_parser_init w true) fresh_parser, matched, encoded 8)
        (judged p (st_frames w st out) idle
          ∙ ap (λ n. some ((n == 0) && not ((p.crc_errors + p.framing_errors) % 2 ^ 32 == 0)))
              (count-st_frames out st ∙ (let e : 0 + length out ≡ length out = omega arith in e)))

  -- The self-test passes exactly if the parser notices a corrupted frame. With a codec whose
  -- encoding of the test frame ends in the zero byte and has more than ten bytes before it, and
  -- whose zero byte resets the decoder, the self-test comes to a verdict, and that is whether the
  -- frame with byte 10 inverted is neither delivered nor left uncounted. Everything else that the
  -- test looks at holds.
  pub clp_selftest-noticed :
      (resync : CobsResync w) (b : ℕ) (front : List ℕ)
      → test_wire 7 ≡ (b ∷ front) ++ (0 ∷ [])
      → 10 < length (b ∷ front)
      → clp_selftest w ≡ some (noticed corrupted)
  unfolding clp_selftest started_with
  clp_selftest-noticed resync b front e long =
      let flipped : flip_at 10 (test_wire 7) ≡ flip_at 10 (b ∷ front) ++ (0 ∷ []) =
        ap (flip_at 10) e ∙ flip_at-append 10 (b ∷ front) (0 ∷ []) long in
      let p = counted (clp_parser_init w true) in
      let idle =
        subst (λ xs. IsIdle w (clp_parser_feed w p xs).0) (sym flipped)
          (feed-IsIdle w resync (flip_at 10 (b ∷ front)) p counted_parser) in
      ap (started_with w) (encoded 7)
      ∙ subst (λ xs. started_with w (ok xs) ≡ with_wire w xs) (sym e) refl
      ∙ with_wire-noticed idle
