-- ===== src/Clp/Parser.antt =====
-- clp_proto.c, the streaming parser. A step returns the new state and the messages that it handed
-- to the registered callback.
pub mod Delivery
pub mod Resync
pub mod Stream
pub mod Accounting
pub mod Exact
use pcan_alterative.Base.{ℕ, ◌+◌, ◌^◌, ◌%◌, ◌-◌, Bool, true, false, List, [], ◌∷◌, ◌++◌, Option}
use pcan_alterative.Base.{none, some, ltb, ◌==◌, if◌then◌else◌, length, take, drop, slice, byte_at}
use pcan_alterative.Base.{◌||◌}
use pcan_alterative.Zephyr.{Wire}
use pcan_alterative.Clp.Types.{clp_version, clp_header_size, clp_crc_size, clp_max_frame}
use pcan_alterative.Clp.Encode.{clp_crc16}

-- What `clp_frame_cb_t` is called with.
pub record Message : Type 0 where
  pub type : ℕ
  pub seq : ℕ
  pub payload : List ℕ

-- The fields of `struct clp_parser` that the decoder's callback uses. `frame` is the part of the
-- buffer in use, so its length is `frame_len`; `has_cb` says that `cb` is not NULL.
pub record Receiver : Type 0 where
  pub has_cb : Bool
  pub frame : List ℕ
  pub overflow : Bool
  pub crc_errors : ℕ
  pub framing_errors : ℕ
  pub frames_ok : ℕ

-- `struct clp_parser`
pub record Parser (D : Type 0) : Type 0 where
  pub dec : D
  pub rx : Receiver
  pub open rx use *

-- `x++` on a `uint32_t`
abbrev pub inc32 : ℕ → ℕ
inc32 x = (x + 1) % 2 ^ 32

module _ (w : Wire) where
  unfoldable pub clp_parser_init : Bool → Parser w.Decoder
  clp_parser_init has_cb = record {
    dec = w.decoder_init;
    rx = record {
      has_cb = has_cb;
      frame = [];
      overflow = false;
      crc_errors = 0;
      framing_errors = 0;
      frames_ok = 0;
    };
  }

  -- The last part of `clp_parser_dispatch`: the CRC of a frame of consistent length.
  unfoldable pub check_crc : Receiver → ℕ → Receiver × List Message
  check_crc p plen =
      if w.get_le16 (slice p.frame (clp_header_size + plen) 2)
        == clp_crc16 w (take (clp_header_size + plen) p.frame)
      then (
        record p { frames_ok = inc32 p.frames_ok },
        if p.has_cb
            then record {
              type = byte_at p.frame 1;
              seq = byte_at p.frame 2;
              payload = slice p.frame clp_header_size plen;
            }
              ∷ []
            else [],
      )
      else (record p { crc_errors = inc32 p.crc_errors }, [])

  unfoldable pub clp_parser_dispatch : Receiver → Receiver × List Message
  clp_parser_dispatch p =
      let plen = w.get_le16 (slice p.frame 3 2) in
      let refused : Receiver × List Message =
        (record p { framing_errors = inc32 p.framing_errors }, []) in
      if length p.frame == 0
      then (p, [])
      else if p.overflow || ltb (length p.frame) (clp_header_size + clp_crc_size)
      then refused
      else if clp_header_size + plen + clp_crc_size == length p.frame
      then if byte_at p.frame 0 == clp_version then check_crc p plen else refused
      else refused

  unfoldable pub clp_cobs_cb : Receiver → Option (List ℕ) → Receiver × List Message
  clp_cobs_cb p none =
      let (p', out) = clp_parser_dispatch p in (record p' { frame = []; overflow = false }, out)
  clp_cobs_cb p (some buf) = (
    if ltb clp_max_frame (length p.frame + length buf)
        then record p { overflow = true }
        else record p { frame = p.frame ++ buf },
    [],
  )

  -- The callback calls that a decoder call makes, in order.
  unfoldable pub cobs_calls : Receiver → List (Option (List ℕ)) → Receiver × List Message
  cobs_calls p [] = (p, [])
  cobs_calls p (e ∷ evs) =
      let (p', out) = clp_cobs_cb p e in let (p'', more) = cobs_calls p' evs in (p'', out ++ more)

  -- One round of the loop of `clp_parser_feed`.
  unfoldable pub feed_byte : Parser w.Decoder → ℕ → Parser w.Decoder × List Message
  feed_byte p b =
      let (d, evs, failed) = w.decoder_write p.dec b in
      let (rx, out) = cobs_calls p.rx evs in
      let dropped : Receiver = record rx {
        frame = [];
        overflow = false;
        framing_errors = inc32 rx.framing_errors;
      } in
      (record { dec = d; rx = if failed then dropped else rx }, out)

  unfoldable pub clp_parser_feed : Parser w.Decoder → List ℕ → Parser w.Decoder × List Message
  clp_parser_feed p [] = (p, [])
  clp_parser_feed p (b ∷ bs) =
      let (p', out) = feed_byte p b in let (p'', more) = clp_parser_feed p' bs in (p'', out ++ more)
