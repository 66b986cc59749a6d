-- ===== src/Clp/SelfTest.antt =====
-- apps/usb_cdc/src/main.c: the self-test of the protocol that runs before the link is set up.
pub mod Verdict
use pcan_alterative.Base.{
  ℕ, zero, suc, ◌+◌, ◌%◌, ◌^◌, Bool, true, false, not, ◌&&◌, ◌||◌, List, [], ◌∷◌, ◌++◌, Option,
  none, some, Result, ok, err, ◌==◌, if◌then◌else◌, length, bit_xor, replicate,
}
use pcan_alterative.Zephyr.{Wire}
use pcan_alterative.Clp.Types.{can_rx, can_tx, code, clp_max_wire, CanFrame}
use pcan_alterative.Clp.Encode.{clp_encode_can_frame}
use pcan_alterative.Clp.Decode.{clp_decode_can_frame}
use pcan_alterative.Clp.Parser.{Message, Parser, clp_parser_init, clp_parser_feed}

-- `st_last`, `st_last_type` and `st_count`
pub record SelfTest : Type 0 where
  pub st_last : CanFrame
  pub st_last_type : ℕ
  pub st_count : ℕ

-- `(uint8_t)(i ^ 0xA5)` for `n` values of `i`
abbrev pub pattern_from : ℕ → ℕ → List ℕ
pattern_from zero i = []
pattern_from (suc n) i = bit_xor i 0xa5 % 256 ∷ pattern_from n (i + 1)

-- `in`: the flags FDF, BRS and IDE, and 64 data bytes.
abbrev pub test_frame : CanFrame
test_frame = record {
  can_id = 0x1abcdef0;
  flags = 11;
  dlc = 15;
  tag = 0;
  timestamp = 0x11223344556677;
  bytes = pattern_from 64 0;
}

-- The static variables before the first frame.
abbrev pub fresh : SelfTest
fresh = record {
  st_last = record {
    can_id = 0;
    flags = 0;
    dlc = 0;
    tag = 0;
    timestamp = 0;
    bytes = replicate 64 0;
  };
  st_last_type = 0;
  st_count = 0;
}

-- `bad[10] ^= 0xFF`, on a copy of the encoded frame
abbrev pub flip_at : ℕ → List ℕ → List ℕ
flip_at i [] = []
flip_at zero (x ∷ xs) = bit_xor x 0xff ∷ xs
flip_at (suc i) (x ∷ xs) = x ∷ flip_at i xs

-- `memcmp(xs, ys, 64) == 0`
abbrev pub same_bytes : List ℕ → List ℕ → Bool
same_bytes [] [] = true
same_bytes [] (y ∷ ys) = false
same_bytes (x ∷ xs) [] = false
same_bytes (x ∷ xs) (y ∷ ys) = (x == y) && same_bytes xs ys

module _ (w : Wire) where
  -- For a payload that cannot be decoded the code leaves in `st_last` what the decoder has written
  -- until it refused, and this keeps the old value; the test does not look at `st_last` then.
  unfoldable pub last_of : CanFrame → Result CanFrame → CanFrame
  last_of last (ok f) = f
  last_of last (err e) = last

  unfoldable pub st_frame_cb : SelfTest → Message → SelfTest
  unfolding last_of
  st_frame_cb st m =
      let is_can = (m.type == code can_rx) || (m.type == code can_tx) in
      record {
        st_last =
            if is_can then last_of st.st_last (clp_decode_can_frame w m.payload) else st.st_last;
        st_last_type = m.type;
        st_count = st.st_count + 1;
      }

  unfoldable pub st_frames : SelfTest → List Message → SelfTest
  unfolding st_frame_cb
  st_frames st [] = st
  st_frames st (m ∷ ms) = st_frames (st_frame_cb st m) ms

  -- The comparison of the happy path.
  unfoldable pub matches : SelfTest → CanFrame → Bool
  matches st f =
      (st.st_count == 1)
      && ((st.st_last_type == code can_rx)
          && ((st.st_last.can_id == f.can_id)
              && ((st.st_last.dlc == f.dlc)
                  && ((st.st_last.timestamp == f.timestamp)
                      && same_bytes st.st_last.bytes f.bytes))))

  -- From the feeding of the second good frame on, with its encoding. The code feeds it without a
  -- look at the result of the encoder: `none` is a negative number of bytes.
  unfoldable pub after_corruption : Parser w.Decoder → SelfTest → Result (List ℕ) → Option Bool
  unfolding st_frames
  after_corruption p st (err e) = none
  after_corruption p st (ok wire) =
      let (p', out) = clp_parser_feed w p wire in
      let errors = (p'.crc_errors + p'.framing_errors) % 2 ^ 32 in
      some (((st_frames st out).st_count == 1) && not (errors == 0))

  -- From the first feeding on.
  unfoldable pub with_wire : List ℕ → Option Bool
  unfolding matches after_corruption clp_parser_init clp_encode_can_frame
  with_wire wire =
      let (p, out) = clp_parser_feed w (clp_parser_init w true) wire in
      let st = st_frames fresh out in
      let (p', out') = clp_parser_feed w p (flip_at 10 wire) in
      let st' = st_frames (record st { st_count = 0 }) out' in
      if matches st test_frame
      then after_corruption p' st' (clp_encode_can_frame w can_rx 8 test_frame clp_max_wire)
      else some false

  -- `n <= 0`
  unfoldable pub started_with : Result (List ℕ) → Option Bool
  unfolding with_wire
  started_with (err e) = some false
  started_with (ok []) = some false
  started_with (ok (b ∷ bs)) = with_wire (b ∷ bs)

  unfoldable pub clp_selftest : Option Bool
  unfolding started_with clp_encode_can_frame
  clp_selftest = started_with (clp_encode_can_frame w can_rx 7 test_frame clp_max_wire)
