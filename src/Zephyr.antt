-- ===== src/Zephyr.antt =====
-- The parts of Zephyr that clp_proto.c calls, as parameters of the model: the byte order helpers,
-- `crc16_ccitt` and the streaming COBS codec of `zephyr/data/cobs.h`.
pub mod RingBuf
pub mod Can
pub mod Calls
use pcan_alterative.Base.{ℕ, ◌+◌, ◌/◌, ◌≤◌, ◌<◌, ◌≡◌, Bool, true, false, ◌||◌, Option, none, some}
use pcan_alterative.Base.{List, [], ◌∷◌, ◌++◌, map, flatten, length, Result, ok, ◌⊎◌, AreBytes}
use pcan_alterative.Base.ByteOrder.{ByteOrder, ByteOrderLaws}

-- An encoder call reports the chunks that it hands to its sink callback, in order, and its result.
-- A decoder call is given one byte; it reports its callback calls (`none` is the NULL buffer that
-- marks the end of a frame) and whether it returned a negative value.
pub record Cobs : Type 1 where
  pub Encoder : Type 0
  pub encoder_init : Result Encoder
  pub encoder_write : Encoder → List ℕ → List (List ℕ) × Result Encoder
  pub encoder_close : Encoder → List (List ℕ) × Result (Unit {0})
  pub Decoder : Type 0
  pub decoder_init : Decoder
  pub decoder_write : Decoder → ℕ → Decoder × List (Option (List ℕ)) × Bool

pub record Wire : Type 1 where
  pub order : ByteOrder
  pub open order use *
  pub crc16_ccitt : ℕ → List ℕ → ℕ
  pub cobs : Cobs
  pub open cobs use *

-- What a decoder reports over a run of bytes: all callback calls, and whether any byte failed.
unfoldable pub decode_run :
    (w : Wire) → w.Decoder → List ℕ → w.Decoder × List (Option (List ℕ)) × Bool
decode_run w d [] = (d, [], false)
decode_run w d (b ∷ bs) =
    let (d', evs, failed) = w.decoder_write d b in
    let (d'', more, failed') = decode_run w d' bs in (d'', evs ++ more, failed || failed')

-- What an encoder writes for one frame.
pub record Encodes (w : Wire) (xs wire : List ℕ) : Type 0 where
  pub enc : w.Encoder
  pub enc' : w.Encoder
  pub body : List (List ℕ)
  pub tail : List (List ℕ)
  pub init_ok : w.encoder_init ≡ ok enc
  pub write_ok : w.encoder_write enc xs ≡ (body, ok enc')
  pub close_ok : w.encoder_close enc' ≡ (tail, ok tt)
  pub all_of : flatten body ++ flatten tail ≡ wire

-- A decoder at the start of a frame gives the frame back, in pieces, then the end mark, and is at
-- the start of a frame again.
pub record Decodes (w : Wire) (xs wire : List ℕ) : Type 0 where
  pub pieces : List (List ℕ)
  pub run_ok :
      decode_run w w.decoder_init wire ≡ (w.decoder_init, map some pieces ++ (none ∷ []), false)
  pub all_of : flatten pieces ≡ xs

-- The last callback call of a decoder was the end mark.
abbrev pub EndsFrame : List (Option (List ℕ)) → Type 0
EndsFrame [] = ⊥
EndsFrame (none ∷ []) = Unit
EndsFrame (some c ∷ []) = ⊥
EndsFrame (e ∷ f ∷ evs) = EndsFrame (f ∷ evs)

-- The documented behaviour of COBS with a trailing delimiter, for the frames below 254 bytes, where
-- one code byte and the delimiter are all the overhead.
pub record CobsLaws (w : Wire) : Type 0 where
  pub encoding : List ℕ → List ℕ
  pub encodes : (xs : List ℕ) → length xs < 254 → Encodes w xs (encoding xs)
  pub length_encoding : (xs : List ℕ) → length (encoding xs) ≤ length xs + length xs / 254 + 2
  pub decodes : (xs : List ℕ) → length xs < 254 → Decodes w xs (encoding xs)

-- The zero byte is an unambiguous resynchronisation point: whatever came before, it ends the frame
-- or is refused, and the decoder is at the start of a frame.
pub record CobsResync (w : Wire) : Type 0 where
  pub delimiter_resets : (d : w.Decoder) → (w.decoder_write d 0).0 ≡ w.decoder_init
  pub delimiter_ends :
      (d : w.Decoder) → ((w.decoder_write d 0).2 ≡ true) ⊎ EndsFrame (w.decoder_write d 0).1

pub record WireLaws (w : Wire) : Type 0 where
  pub order_laws : ByteOrderLaws w.order
  pub cobs_laws : CobsLaws w
