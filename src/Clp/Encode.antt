-- ===== src/Clp/Encode.antt =====
-- clp_proto.c, the encoders. A result `ok wire` stands for the bytes that the function has written
-- to `out`, whose number it returns; `out_size` is the caller's limit.
pub mod Framing
use pcan_alterative.Base.{
  ℕ, suc, ◌+◌, ◌-◌, ◌^◌, ◌%◌, Bool, true, false, List, [], ◌∷◌, ◌++◌, Result,
}
use pcan_alterative.Base.{ok, err, einval, enomem, ◌>>=◌, ltb, if◌then◌else◌, length, take, bit_xor}
use pcan_alterative.Base.{Option, none, some, to_u16}
use pcan_alterative.Zephyr.{Wire}
use pcan_alterative.Clp.Types.{
  clp_version, clp_max_payload, clp_hello_fixed, MsgType, can_rx, can_tx, can_tx_ack, status, hello,
  code, CanFrame, TxAck, Status, data_count,
}

-- `struct cobs_sink`: `out` is what has been written, so its length is `pos`.
pub record Sink : Type 0 where
  pub out : List ℕ
  pub size : ℕ
  pub pos : ℕ

unfoldable pub cobs_sink_cb : Sink → List ℕ → Result Sink
cobs_sink_cb s buf =
    if ltb s.size (s.pos + length buf)
    then err enomem
    else ok (record s { out = s.out ++ buf; pos = s.pos + length buf })

-- The encoder's callback calls, up to the first that fails.
unfoldable pub deliver : Sink → List (List ℕ) → Result Sink
deliver s [] = ok s
deliver s (c ∷ cs) = do s' ← cobs_sink_cb s c; deliver s' cs

-- One call of the encoder: its callback calls, then its own result.
unfoldable pub run_encoder : {A : Type 0} → Sink → List (List ℕ) × Result A → Result (A × Sink)
run_encoder s (cs, ret) = do s' ← deliver s cs; a ← ret; ok (a, s')

module _ (w : Wire) where
  unfoldable pub clp_crc16 : List ℕ → ℕ
  clp_crc16 buf = bit_xor (w.crc16_ccitt 0xffff buf) 0xffff % 2 ^ 16

  -- The header and the payload, which the CRC covers.
  unfoldable pub covered : ℕ → ℕ → List ℕ → List ℕ
  covered type seq payload = clp_version ∷ type ∷ seq ∷ (w.put_le16 (length payload) ++ payload)

  unfoldable pub logical_frame : ℕ → ℕ → List ℕ → List ℕ
  logical_frame type seq payload =
      covered type seq payload ++ w.put_le16 (clp_crc16 (covered type seq payload))

  -- The second half of `clp_encode_raw`: the three encoder calls on the logical frame.
  unfoldable pub encode_frame : List ℕ → ℕ → Result (List ℕ)
  encode_frame logical out_size = do
    enc ← w.encoder_init
    (enc', sink) ←
        run_encoder (record { out = []; size = out_size; pos = 0 }) (w.encoder_write enc logical)
    (_, sink') ← run_encoder sink (w.encoder_close enc')
    ok sink'.out

  unfoldable pub clp_encode_raw : MsgType → ℕ → List ℕ → ℕ → Result (List ℕ)
  clp_encode_raw type seq payload out_size =
      if ltb clp_max_payload (length payload)
      then err einval
      else encode_frame (logical_frame (code type) seq payload) out_size

  unfoldable pub can_payload : CanFrame → List ℕ
  can_payload f =
      w.put_le32 f.can_id
      ++ (f.flags
          ∷ f.dlc
          ∷ (w.put_le16 f.tag
              ++ (w.put_le64 f.timestamp ++ take (data_count f.flags f.dlc) f.bytes)))

  unfoldable pub clp_encode_can_frame : MsgType → ℕ → CanFrame → ℕ → Result (List ℕ)
  clp_encode_can_frame can_rx seq f out_size = clp_encode_raw can_rx seq (can_payload f) out_size
  clp_encode_can_frame can_tx seq f out_size = clp_encode_raw can_tx seq (can_payload f) out_size
  clp_encode_can_frame can_tx_ack seq f out_size = err einval
  clp_encode_can_frame status seq f out_size = err einval
  clp_encode_can_frame hello seq f out_size = err einval

  unfoldable pub tx_ack_payload : TxAck → List ℕ
  tx_ack_payload a = w.put_le16 a.tag ++ (w.put_le16 (to_u16 a.status) ++ w.put_le64 a.timestamp)

  unfoldable pub clp_encode_tx_ack : ℕ → TxAck → ℕ → Result (List ℕ)
  clp_encode_tx_ack seq a out_size = clp_encode_raw can_tx_ack seq (tx_ack_payload a) out_size

  unfoldable pub status_payload : Status → List ℕ
  status_payload s =
      s.bus_state
      ∷ (w.put_le32 s.rx_frames
          ++ (w.put_le32 s.tx_frames
              ++ (w.put_le32 s.rx_drops ++ (s.tx_err_cnt ∷ s.rx_err_cnt ∷ []))))

  unfoldable pub clp_encode_status : ℕ → Status → ℕ → Result (List ℕ)
  clp_encode_status seq s out_size = clp_encode_raw status seq (status_payload s) out_size

  -- The version text is cut to what a payload holds; `none` is a NULL pointer.
  unfoldable pub hello_payload : Option (List ℕ) → List ℕ
  hello_payload none = clp_version ∷ w.put_le16 clp_max_payload
  hello_payload (some fw) =
      clp_version
      ∷ (w.put_le16 clp_max_payload
          ++ take
              (if ltb (clp_max_payload - clp_hello_fixed) (length fw)
                then clp_max_payload - clp_hello_fixed
                else length fw)
              fw)

  unfoldable pub clp_encode_hello : ℕ → Option (List ℕ) → ℕ → Result (List ℕ)
  clp_encode_hello seq fw_version out_size =
      clp_encode_raw hello seq (hello_payload fw_version) out_size
