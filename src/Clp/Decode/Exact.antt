-- ===== src/Clp/Decode/Exact.antt =====
-- The decoders accept exactly what the encoders write.
use pcan_alterative.Base.{ℕ, ◌+◌, ◌-◌, ◌^◌, ◌≤◌, ◌<◌, ◌≡◌, ◌≢◌, refl, ◌∙◌, ap, sym, subst, List, []}
use pcan_alterative.Base.{◌++◌, Result, ok, err, ebadmsg, ltb, ◌==◌, length, length-append, arith}
use pcan_alterative.Base.{drop, replicate, slice, byte_at, IsByte, AreBytes, Bool-cases, inl, inr}
use pcan_alterative.Base.{slice-drop, byte_at-drop, byte_at-IsByte, length-slice, slice-AreBytes}
use pcan_alterative.Base.{
  drop-all, to_i16-IsI16, take-all, take-append_length, length-drop, All-append, All-replicate,
}
use pcan_alterative.Base.{length-replicate, to_i16, to_u16-to_i16}
use pcan_alterative.Base.ByteOrder.{ByteOrderLaws}
use pcan_alterative.Zephyr.{Wire}
use pcan_alterative.Clp.Types.{
  CanFrame, TxAck, Status, IsCanFrame, IsTxAck, IsStatus, data_count, clp_canf_fixed,
}
use pcan_alterative.Clp.Encode.{can_payload, tx_ack_payload, status_payload}
use pcan_alterative.Clp.Decode.{clp_decode_can_frame, clp_decode_tx_ack, clp_decode_status}
use pcan_alterative.Clp.Decode.RoundTrip.{
  decode-can_payload, decode-tx_ack_payload, decode-status_payload, data_count-le, clip,
}

-- What a decoder does with a payload: it gives a value within its C types whose encoding the payload
-- is, or it refuses, and the payload is the encoding of no such value.
pub data Exactly {F : Type 0} (IsValid : F → Type 0) (payload_of : F → List ℕ) (payload : List ℕ)
    (result : Result F) : Type 0 where
  accepted :
      (f : F)
      → result ≡ ok f
      → IsValid f
      → payload_of f ≡ payload
      → Exactly IsValid payload_of payload result
  refused :
      result ≡ err ebadmsg
      → ((f : F) → IsValid f → payload_of f ≢ payload)
      → Exactly IsValid payload_of payload result

abbrev IsOk : {F : Type 0} → Result F → Type 0
IsOk (ok f) = Unit
IsOk (err e) = ⊥

-- A decoder that reads every encoding refuses nothing that is one.
refused_by :
    {F : Type 0} (IsValid : F → Type 0) (payload_of : F → List ℕ) (decode : List ℕ → Result F)
    (norm : F → F) (payload : List ℕ)
    → ((f : F) → IsValid f → decode (payload_of f) ≡ ok (norm f))
    → decode payload ≡ err ebadmsg
    → Exactly IsValid payload_of payload (decode payload)
refused_by IsValid payload_of decode norm payload reads e =
    refused e (λ f v same. subst IsOk (sym (reads f v) ∙ ap decode same ∙ e) tt)

module _ (w : Wire) (laws : ByteOrderLaws w.order) where
  abbrev data_of : List ℕ → ℕ
  data_of p = data_count (byte_at p 4) (byte_at p 5)

  -- The frame that is read, and its encoding.
  abbrev frame_in : List ℕ → CanFrame
  frame_in p = record {
    can_id = w.get_le32 (slice p 0 4);
    flags = byte_at p 4;
    dlc = byte_at p 5;
    tag = w.get_le16 (slice p 6 2);
    timestamp = w.get_le64 (slice p 8 8);
    bytes = slice p 16 (data_of p) ++ replicate (64 - data_of p) 0;
  }

  module _ (p : List ℕ) (bytes : AreBytes p) where
    stored16 : (i : ℕ) → i + 2 ≤ length p → w.put_le16 (w.get_le16 (slice p i 2)) ≡ slice p i 2
    stored16 i h =
        laws.le16.put_get (slice p i 2) (length-slice i 2 p h) (slice-AreBytes i 2 p bytes)

    stored32 : (i : ℕ) → i + 4 ≤ length p → w.put_le32 (w.get_le32 (slice p i 4)) ≡ slice p i 4
    stored32 i h =
        laws.le32.put_get (slice p i 4) (length-slice i 4 p h) (slice-AreBytes i 4 p bytes)

    stored64 : (i : ℕ) → i + 8 ≤ length p → w.put_le64 (w.get_le64 (slice p i 8)) ≡ slice p i 8
    stored64 i h =
        laws.le64.put_get (slice p i 8) (length-slice i 8 p h) (slice-AreBytes i 8 p bytes)

    bound16 : (i : ℕ) → i + 2 ≤ length p → w.get_le16 (slice p i 2) < 2 ^ 16
    bound16 i h =
        laws.le16.get_bound (slice p i 2) (length-slice i 2 p h) (slice-AreBytes i 2 p bytes)

    bound32 : (i : ℕ) → i + 4 ≤ length p → w.get_le32 (slice p i 4) < 2 ^ 32
    bound32 i h =
        laws.le32.get_bound (slice p i 4) (length-slice i 4 p h) (slice-AreBytes i 4 p bytes)

    bound64 : (i : ℕ) → i + 8 ≤ length p → w.get_le64 (slice p i 8) < 2 ^ 64
    bound64 i h =
        laws.le64.get_bound (slice p i 8) (length-slice i 8 p h) (slice-AreBytes i 8 p bytes)

    can_payload-frame_in : length p ≡ clp_canf_fixed + data_of p → can_payload w (frame_in p) ≡ p
    unfolding can_payload
    can_payload-frame_in h =
        let n = data_of p in
        let field : List ℕ = slice p 16 n in
        let last : field ≡ drop 16 p = take-all n (drop 16 p) (omega (arith, length-drop 16 p)) in
        rw
          (
            stored32 0 (omega arith),
            stored16 6 (omega arith),
            stored64 8 (omega arith),
            take-append_length n field (replicate (64 - n) 0) (length-slice 16 n p (omega arith)),
            last,
            slice-drop 8 8 p,
            slice-drop 6 2 p,
            byte_at-drop 5 p (omega arith),
            byte_at-drop 4 p (omega arith),
            slice-drop 0 4 p,
          )
          refl

    frame_in-IsCanFrame : length p ≡ clp_canf_fixed + data_of p → IsCanFrame (frame_in p)
    frame_in-IsCanFrame h =
        let n = data_of p in
        let field : List ℕ = slice p 16 n in
        record {
          id_u32 = bound32 0 (omega arith);
          flags_u8 = byte_at-IsByte 4 p bytes;
          dlc_u8 = byte_at-IsByte 5 p bytes;
          tag_u16 = bound16 6 (omega arith);
          timestamp_u64 = bound64 8 (omega arith);
          bytes_64 = omega (
            arith,
            length-append field (replicate (64 - n) 0),
            length-slice 16 n p (omega arith),
            length-replicate {A = ℕ} (64 - n) 0,
            data_count-le (byte_at p 4) (byte_at p 5),
          );
          bytes_u8 =
              All-append IsByte field (replicate (64 - n) 0) (slice-AreBytes 16 n p bytes)
                (All-replicate IsByte (64 - n) 0 (omega arith));
        }

    clp_decode_can_frame-Exactly : Exactly IsCanFrame (can_payload w) p (clp_decode_can_frame w p)
    unfolding clp_decode_can_frame
    clp_decode_can_frame-Exactly = elim (Bool-cases (ltb (length p) clp_canf_fixed)) [
      | inl short ↦
          refused_by IsCanFrame (can_payload w) (clp_decode_can_frame w) clip p
            (decode-can_payload w laws) (rw short refl)
      | inr long ↦ elim (Bool-cases (length p == clp_canf_fixed + data_of p)) [
        | inl fits ↦
            let h : length p ≡ clp_canf_fixed + data_of p = ground arith in
            accepted (frame_in p) (rw (long, fits) refl) (frame_in-IsCanFrame h)
              (can_payload-frame_in h)
        | inr unfit ↦
            refused_by IsCanFrame (can_payload w) (clp_decode_can_frame w) clip p
              (decode-can_payload w laws) (rw (long, unfit) refl)
      ]
    ]

    abbrev tx_ack_in : TxAck
    tx_ack_in = record {
      tag = w.get_le16 (slice p 0 2);
      status = to_i16 (w.get_le16 (slice p 2 2));
      timestamp = w.get_le64 (slice p 4 8);
    }

    tx_ack_payload-tx_ack_in : length p ≡ 12 → tx_ack_payload w tx_ack_in ≡ p
    unfolding tx_ack_payload
    tx_ack_payload-tx_ack_in h =
        let last : slice p 4 8 ≡ drop 4 p =
          take-all 8 (drop 4 p) (omega (arith, length-drop 4 p)) in
        rw
          (
            to_u16-to_i16 (w.get_le16 (slice p 2 2)) (bound16 2 (omega arith)),
            stored16 0 (omega arith),
            stored16 2 (omega arith),
            stored64 4 (omega arith),
            last,
            slice-drop 2 2 p,
            slice-drop 0 2 p,
          )
          refl

    clp_decode_tx_ack-Exactly : Exactly IsTxAck (tx_ack_payload w) p (clp_decode_tx_ack w p)
    unfolding clp_decode_tx_ack
    clp_decode_tx_ack-Exactly = elim (Bool-cases (length p == 12)) [
      | inl fits ↦
          let h : length p ≡ 12 = ground arith in
          accepted tx_ack_in (rw fits refl)
            (record {
              tag_u16 = bound16 0 (omega arith);
              status_i16 = to_i16-IsI16 (w.get_le16 (slice p 2 2)) (bound16 2 (omega arith));
              timestamp_u64 = bound64 4 (omega arith);
            })
            (tx_ack_payload-tx_ack_in h)
      | inr unfit ↦
          refused_by IsTxAck (tx_ack_payload w) (clp_decode_tx_ack w) (λ a. a) p
            (decode-tx_ack_payload w laws) (rw unfit refl)
    ]

    abbrev status_in : Status
    status_in = record {
      bus_state = byte_at p 0;
      rx_frames = w.get_le32 (slice p 1 4);
      tx_frames = w.get_le32 (slice p 5 4);
      rx_drops = w.get_le32 (slice p 9 4);
      tx_err_cnt = byte_at p 13;
      rx_err_cnt = byte_at p 14;
    }

    status_payload-status_in : length p ≡ 15 → status_payload w status_in ≡ p
    unfolding status_payload
    status_payload-status_in h =
        let last : [] ≡ drop 15 p = sym (drop-all 15 p (omega arith)) in
        rw
          (
            stored32 1 (omega arith),
            stored32 5 (omega arith),
            stored32 9 (omega arith),
            last,
            byte_at-drop 14 p (omega arith),
            byte_at-drop 13 p (omega arith),
            slice-drop 9 4 p,
            slice-drop 5 4 p,
            slice-drop 1 4 p,
            byte_at-drop 0 p (omega arith),
          )
          refl

    clp_decode_status-Exactly : Exactly IsStatus (status_payload w) p (clp_decode_status w p)
    unfolding clp_decode_status
    clp_decode_status-Exactly = elim (Bool-cases (length p == 15)) [
      | inl fits ↦
          let h : length p ≡ 15 = ground arith in
          accepted status_in (rw fits refl)
            (record {
              bus_state_u8 = byte_at-IsByte 0 p bytes;
              rx_frames_u32 = bound32 1 (omega arith);
              tx_frames_u32 = bound32 5 (omega arith);
              rx_drops_u32 = bound32 9 (omega arith);
              tx_err_u8 = byte_at-IsByte 13 p bytes;
              rx_err_u8 = byte_at-IsByte 14 p bytes;
            })
            (status_payload-status_in h)
      | inr unfit ↦
          refused_by IsStatus (status_payload w) (clp_decode_status w) (λ s. s) p
            (decode-status_payload w laws) (rw unfit refl)
    ]

  -- On any bytes each of the three decoders gives a value within its C types of which the bytes are
  -- the encoded payload, or it refuses with EBADMSG, and the bytes are the payload of no such value.
  pub decoders-Exactly :
      (p : List ℕ)
      → AreBytes p
      → Exactly IsCanFrame (can_payload w) p (clp_decode_can_frame w p)
        × Exactly IsTxAck (tx_ack_payload w) p (clp_decode_tx_ack w p)
        × Exactly IsStatus (status_payload w) p (clp_decode_status w p)
  decoders-Exactly p bytes = (
    clp_decode_can_frame-Exactly p bytes,
    clp_decode_tx_ack-Exactly p bytes,
    clp_decode_status-Exactly p bytes,
  )
