-- ===== src/Clp/Decode/RoundTrip.antt =====
-- A payload that an encoder built is decoded to the message that it was built from.
use pcan_alterative.Base.{ℕ, ◌+◌, ◌-◌, ◌≤◌, ◌≡◌, refl, List, [], ◌∷◌, ◌++◌, ok}
use pcan_alterative.Base.{length, take, replicate, slice, byte_at, arith}
use pcan_alterative.Base.{length-append, length-take, slice-middle, to_i16-to_u16}
use pcan_alterative.Base.{bit_and, zero, suc, All, take-all, take-append_length, slice-skip}
use pcan_alterative.Base.{byte_at-skip}
use pcan_alterative.Base.{to_u16, to_u16-lt}
use pcan_alterative.Base.ByteOrder.{ByteOrderLaws}
use pcan_alterative.Zephyr.{Wire}
use pcan_alterative.Clp.Types.{
  CanFrame, TxAck, Status, IsCanFrame, IsTxAck, IsStatus, data_count, clp_dlc_to_bytes, dlc_table,
}
use pcan_alterative.Clp.Encode.{can_payload, tx_ack_payload, status_payload}
use pcan_alterative.Clp.Decode.{clp_decode_can_frame, clp_decode_tx_ack, clp_decode_status}

table-le : (t : List ℕ) (i : ℕ) → All (λ n. n ≤ 64) t → byte_at t i ≤ 64
table-le [] i h = omega arith
table-le (n ∷ t) zero h = h.0
table-le (n ∷ t) (suc i) h = table-le t i h.1

-- No DLC, however large the number, stands for more than 64 bytes.
pub data_count-le : (flags dlc : ℕ) → data_count flags dlc ≤ 64
unfolding data_count clp_dlc_to_bytes
data_count-le flags dlc = ground (arith, table-le dlc_table (bit_and dlc 0x0f) (omega arith))

-- What survives the wire: the data bytes that count, and zeros behind them.
abbrev pub clip : CanFrame → CanFrame
clip f = record f {
  bytes = take (data_count f.flags f.dlc) f.bytes ++ replicate (64 - data_count f.flags f.dlc) 0;
}

-- The fields of a CAN frame's payload, where `clp_decode_can_frame` reads them.
module _ (w : Wire) (laws : ByteOrderLaws w.order) (f : CanFrame) (v : IsCanFrame f) where
  id_field : List ℕ
  id_field = w.put_le32 f.can_id

  tag_field : List ℕ
  tag_field = w.put_le16 f.tag

  time_field : List ℕ
  time_field = w.put_le64 f.timestamp

  count : ℕ
  count = data_count f.flags f.dlc

  data_field : List ℕ
  unfolding count
  data_field = take count f.bytes

  behind_dlc : List ℕ
  behind_dlc = tag_field ++ (time_field ++ data_field)

  behind_id : List ℕ
  behind_id = f.flags ∷ f.dlc ∷ behind_dlc

  length-data_field : length data_field ≡ count
  unfolding data_field
  length-data_field =
      omega (arith, length-take count f.bytes, v.bytes_64, data_count-le f.flags f.dlc)

  layout : can_payload w f ≡ id_field ++ behind_id
  unfolding can_payload id_field behind_id behind_dlc tag_field time_field data_field
  layout = refl

  length-layout : length (can_payload w f) ≡ 16 + count
  unfolding behind_id behind_dlc id_field tag_field time_field
  length-layout = rw layout (
      omega (
        arith,
        length-append id_field behind_id,
        length-append tag_field (time_field ++ data_field),
        length-append time_field data_field,
        length-data_field,
        laws.le32.length_put f.can_id,
        laws.le16.length_put f.tag,
        laws.le64.length_put f.timestamp,
      ))

  flags_read : byte_at (can_payload w f) 4 ≡ f.flags
  unfolding behind_id id_field
  flags_read = rw layout (byte_at-skip 4 0 id_field behind_id (laws.le32.length_put f.can_id))

  dlc_read : byte_at (can_payload w f) 5 ≡ f.dlc
  unfolding behind_id id_field
  dlc_read = rw layout (byte_at-skip 4 1 id_field behind_id (laws.le32.length_put f.can_id))

  id_read : w.get_le32 (slice (can_payload w f) 0 4) ≡ f.can_id
  unfolding id_field
  id_read =
      rw (layout, take-append_length 4 id_field behind_id (laws.le32.length_put f.can_id))
        (laws.le32.get_put f.can_id v.id_u32)

  tag_read : w.get_le16 (slice (can_payload w f) 6 2) ≡ f.tag
  unfolding id_field behind_id behind_dlc tag_field
  tag_read =
      rw
        (
          layout,
          slice-skip 4 2 2 id_field behind_id (laws.le32.length_put f.can_id),
          take-append_length 2 tag_field _ (laws.le16.length_put f.tag),
        )
        (laws.le16.get_put f.tag v.tag_u16)

  time_read : w.get_le64 (slice (can_payload w f) 8 8) ≡ f.timestamp
  unfolding id_field behind_id behind_dlc tag_field time_field
  time_read =
      rw
        (
          layout,
          slice-skip 4 4 8 id_field behind_id (laws.le32.length_put f.can_id),
          slice-skip 2 0 8 tag_field _ (laws.le16.length_put f.tag),
          take-append_length 8 time_field _ (laws.le64.length_put f.timestamp),
        )
        (laws.le64.get_put f.timestamp v.timestamp_u64)

  data_read : slice (can_payload w f) 16 count ≡ data_field
  unfolding id_field behind_id behind_dlc tag_field time_field
  data_read =
      rw
        (
          layout,
          slice-skip 4 12 count id_field behind_id (laws.le32.length_put f.can_id),
          slice-skip 2 8 count tag_field _ (laws.le16.length_put f.tag),
          slice-skip 8 0 count time_field _ (laws.le64.length_put f.timestamp),
        )
        (take-all count data_field (omega (arith, length-data_field)))

module _ (w : Wire) (laws : ByteOrderLaws w.order) where
  pub length-can_payload :
      (f : CanFrame) → IsCanFrame f → length (can_payload w f) ≡ 16 + data_count f.flags f.dlc
  unfolding count
  length-can_payload f v = length-layout w laws f v

  pub decode-can_payload :
      (f : CanFrame) → IsCanFrame f → clp_decode_can_frame w (can_payload w f) ≡ ok (clip f)
  unfolding clp_decode_can_frame count data_field
  decode-can_payload f v =
      rw (flags_read w laws f v, dlc_read w laws f v)
        (ground (
          arith,
          length-layout w laws f v,
          id_read w laws f v,
          tag_read w laws f v,
          time_read w laws f v,
          data_read w laws f v,
        ))

  pub decode-tx_ack_payload :
      (a : TxAck) → IsTxAck a → clp_decode_tx_ack w (tx_ack_payload w a) ≡ ok a
  unfolding clp_decode_tx_ack tx_ack_payload
  decode-tx_ack_payload a v =
      let t = w.put_le16 a.tag in
      let s = w.put_le16 (to_u16 a.status) in
      let c = w.put_le64 a.timestamp in
      ground (
        arith,
        length-append t (s ++ c),
        length-append s c,
        laws.le16.length_put a.tag,
        laws.le16.length_put (to_u16 a.status),
        laws.le64.length_put a.timestamp,
        slice-middle 0 2 [] t (s ++ c),
        slice-middle 2 2 t s c,
        slice-skip 2 2 8 t (s ++ c),
        slice-skip 2 0 8 s c,
        take-all 8 c,
        laws.le16.get_put a.tag,
        laws.le16.get_put (to_u16 a.status),
        laws.le64.get_put a.timestamp,
        to_u16-lt a.status,
        to_i16-to_u16 a.status v.status_i16,
      )

  pub decode-status_payload :
      (s : Status) → IsStatus s → clp_decode_status w (status_payload w s) ≡ ok s
  unfolding clp_decode_status status_payload
  decode-status_payload s v =
      let r = w.put_le32 s.rx_frames in
      let t = w.put_le32 s.tx_frames in
      let d = w.put_le32 s.rx_drops in
      let e : List ℕ = s.tx_err_cnt ∷ s.rx_err_cnt ∷ [] in
      ground (
        arith,
        length-append r (t ++ (d ++ e)),
        length-append t (d ++ e),
        length-append d e,
        laws.le32.length_put s.rx_frames,
        laws.le32.length_put s.tx_frames,
        laws.le32.length_put s.rx_drops,
        slice-middle 0 4 [] r (t ++ (d ++ e)),
        slice-middle 4 4 r t (d ++ e),
        slice-skip 4 4 4 r (t ++ (d ++ e)),
        slice-middle 4 4 t d e,
        byte_at-skip 4 8 r (t ++ (d ++ e)),
        byte_at-skip 4 4 t (d ++ e),
        byte_at-skip 4 0 d e,
        byte_at-skip 4 9 r (t ++ (d ++ e)),
        byte_at-skip 4 5 t (d ++ e),
        byte_at-skip 4 1 d e,
        laws.le32.get_put s.rx_frames,
        laws.le32.get_put s.tx_frames,
        laws.le32.get_put s.rx_drops,
      )
