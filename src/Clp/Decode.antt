-- ===== src/Clp/Decode.antt =====
-- clp_proto.c, the decoders of a payload. The list is the payload, and its length is `len`.
pub mod RoundTrip
pub mod Exact
use pcan_alterative.Base.{ℕ, ◌+◌, ◌-◌, List, ◌++◌, Result, ok, err, ebadmsg, ltb, ◌==◌, not}
use pcan_alterative.Base.{if◌then◌else◌, length, take, replicate, slice, byte_at, to_i16}
use pcan_alterative.Zephyr.{Wire}
use pcan_alterative.Clp.Types.{
  clp_canf_fixed, clp_tx_ack_size, clp_status_size, CanFrame, TxAck, Status, data_count,
}

module _ (w : Wire) where
  unfoldable pub clp_decode_can_frame : List ℕ → Result CanFrame
  clp_decode_can_frame payload =
      let flags = byte_at payload 4 in
      let dlc = byte_at payload 5 in
      let n = data_count flags dlc in
      if ltb (length payload) clp_canf_fixed
      then err ebadmsg
      else if length payload == clp_canf_fixed + n
      then ok (record {
        can_id = w.get_le32 (slice payload 0 4);
        flags = flags;
        dlc = dlc;
        tag = w.get_le16 (slice payload 6 2);
        timestamp = w.get_le64 (slice payload 8 8);
        bytes = slice payload clp_canf_fixed n ++ replicate (64 - n) 0;
      })
      else err ebadmsg

  unfoldable pub clp_decode_tx_ack : List ℕ → Result TxAck
  clp_decode_tx_ack payload =
      if length payload == clp_tx_ack_size
      then ok (record {
        tag = w.get_le16 (slice payload 0 2);
        status = to_i16 (w.get_le16 (slice payload 2 2));
        timestamp = w.get_le64 (slice payload 4 8);
      })
      else err ebadmsg

  unfoldable pub clp_decode_status : List ℕ → Result Status
  clp_decode_status payload =
      if length payload == clp_status_size
      then ok (record {
        bus_state = byte_at payload 0;
        rx_frames = w.get_le32 (slice payload 1 4);
        tx_frames = w.get_le32 (slice payload 5 4);
        rx_drops = w.get_le32 (slice payload 9 4);
        tx_err_cnt = byte_at payload 13;
        rx_err_cnt = byte_at payload 14;
      })
      else err ebadmsg
