-- ===== src/Clp/Encode/Framing.antt =====
-- The COBS sink and `clp_encode_raw`.
use pcan_alterative.Base.{ℕ, ◌+◌, ◌≤◌, ◌<◌, ◌≡◌, ◌∙◌, ap, List, [], ◌∷◌, ◌++◌, arith}
use pcan_alterative.Base.{append-nil, append_assoc, flatten, length, length-append, Result, ok, err}
use pcan_alterative.Base.{einval, ◌≢◌, map, none, some, ge→ltb, lt→ltb, >>=-ok}
use pcan_alterative.Zephyr.{Wire, WireLaws, Encodes, Decodes, decode_run}
use pcan_alterative.Base.ByteOrder.{ByteOrderLaws}
use pcan_alterative.Clp.Types.{clp_max_payload, clp_max_wire, MsgType, code}
use pcan_alterative.Clp.Encode.{
  Sink, cobs_sink_cb, deliver, run_encoder, covered, logical_frame, clp_encode_raw, encode_frame,
  clp_crc16,
}

abbrev grown : Sink → List ℕ → Sink
grown s buf = record s { out = s.out ++ buf; pos = s.pos + length buf }

-- Chunks that fit are appended in order.
deliver-fits :
    (cs : List (List ℕ)) (s : Sink)
    → s.pos + length (flatten cs) ≤ s.size
    → deliver s cs ≡ ok (grown s (flatten cs))
unfolding deliver cobs_sink_cb
deliver-fits [] s h = ground (arith, append-nil s.out)
deliver-fits (c ∷ cs) s h =
    rw (ge→ltb s.size (s.pos + length c) (omega (arith, length-append c (flatten cs)))) (
      deliver-fits cs (grown s c) (omega (arith, length-append c (flatten cs)))
      ∙ ground (arith, length-append c (flatten cs), append_assoc s.out c (flatten cs)))

run_encoder-fits :
    {A : Type 0} (s : Sink) {call : List (List ℕ) × Result A} {cs : List (List ℕ)} {a : A}
    → call ≡ (cs, ok a)
    → s.pos + length (flatten cs) ≤ s.size
    → run_encoder s call ≡ ok (a, grown s (flatten cs))
unfolding run_encoder
run_encoder-fits s {cs = cs} {a = a} e h =
    ap (run_encoder s) e ∙ >>=-ok (λ s'. ok (a, s')) (deliver-fits cs s h)

module _ (w : Wire) where
  -- The three encoder calls write the encoding of the frame to a buffer that holds it.
  encode_frame-fits :
      (logical wire : List ℕ) (out_size : ℕ)
      → Encodes w logical wire
      → length wire ≤ out_size
      → encode_frame w logical out_size ≡ ok wire
  unfolding encode_frame
  encode_frame-fits logical wire out_size e h =
      >>=-ok _ e.init_ok
      ∙ >>=-ok _ (
          run_encoder-fits (record { out = []; size = out_size; pos = 0 }) e.write_ok
            (omega (arith, total)))
      ∙ >>=-ok _ (run_encoder-fits _ e.close_ok (omega (arith, total)))
      ∙ ap ok e.all_of
    where
      total : length (flatten e.body) + length (flatten e.tail) ≡ length wire
      total = rw (← length-append (flatten e.body) (flatten e.tail), e.all_of)

  pub length-covered :
      (type seq : ℕ) (payload : List ℕ)
      → ByteOrderLaws w.order
      → length (covered w type seq payload) ≡ length payload + 5
  unfolding covered
  length-covered type seq payload laws = omega (
    arith,
    length-append (w.put_le16 (length payload)) payload,
    laws.le16.length_put (length payload),
  )

  pub length-logical_frame :
      (type seq : ℕ) (payload : List ℕ)
      → ByteOrderLaws w.order
      → length (logical_frame w type seq payload) ≡ length payload + 7
  unfolding logical_frame
  length-logical_frame type seq payload laws =
      let c = covered w type seq payload in
      omega (
        arith,
        length-append c (w.put_le16 (clp_crc16 w c)),
        laws.le16.length_put (clp_crc16 w c),
        length-covered type seq payload laws,
      )

-- A decoder reports the end of a frame only when it is given bytes.
Decodes-nonempty : (w : Wire) (xs wire : List ℕ) → Decodes w xs wire → wire ≢ []
unfolding decode_run
Decodes-nonempty w xs [] d h =
    absurd
      (omega (arith, ap (λ r. length r.1) d.run_ok, length-append (map some d.pieces) (none ∷ [])))
Decodes-nonempty w xs (b ∷ bs) d h = cc

module _ (w : Wire) (laws : WireLaws w) where
  -- What the encoders write for a message.
  abbrev pub wire_of : MsgType → ℕ → List ℕ → List ℕ
  wire_of type seq payload = laws.cobs_laws.encoding (logical_frame w (code type) seq payload)

  pub length-wire_of :
      (type : MsgType) (seq : ℕ) (payload : List ℕ)
      → length payload ≤ clp_max_payload
      → length (wire_of type seq payload) ≤ clp_max_wire
  length-wire_of type seq payload h = omega (
    arith,
    laws.cobs_laws.length_encoding (logical_frame w (code type) seq payload),
    length-logical_frame w (code type) seq payload laws.order_laws,
  )

  pub wire_of-nonempty :
      (type : MsgType) (seq : ℕ) (payload : List ℕ)
      → length payload ≤ clp_max_payload
      → wire_of type seq payload ≢ []
  wire_of-nonempty type seq payload h =
      let l = logical_frame w (code type) seq payload in
      Decodes-nonempty w l (wire_of type seq payload) (
        laws.cobs_laws.decodes l
          (omega (arith, length-logical_frame w (code type) seq payload laws.order_laws)))

  -- `clp_encode_raw` writes the COBS encoding of the logical frame if the payload is in bounds and
  -- the buffer holds `CLP_MAX_WIRE` bytes.
  pub clp_encode_raw-fits :
      (type : MsgType) (seq : ℕ) (payload : List ℕ) (out_size : ℕ)
      → length payload ≤ clp_max_payload
      → clp_max_wire ≤ out_size
      → clp_encode_raw w type seq payload out_size ≡ ok (wire_of type seq payload)
  unfolding clp_encode_raw
  clp_encode_raw-fits type seq payload out_size hp ho =
      let l = logical_frame w (code type) seq payload in
      let n = length-logical_frame w (code type) seq payload laws.order_laws in
      rw (ge→ltb clp_max_payload (length payload) hp) (
        encode_frame-fits w l _ out_size (laws.cobs_laws.encodes l (omega (arith, n)))
          (omega (arith, length-wire_of type seq payload hp)))

  -- A payload over `CLP_MAX_PAYLOAD` is refused.
  pub clp_encode_raw-einval :
      (type : MsgType) (seq : ℕ) (payload : List ℕ) (out_size : ℕ)
      → clp_max_payload < length payload
      → clp_encode_raw w type seq payload out_size ≡ err einval
  unfolding clp_encode_raw
  clp_encode_raw-einval type seq payload out_size h = rw (lt→ltb clp_max_payload (length payload) h)
