-- ===== src/Clp/Parser/Exact.antt =====
-- Which frames `clp_parser_dispatch` hands over, and which it does not.
use pcan_alterative.Base.{
  ℕ, ◌+◌, ◌≤◌, ◌≡◌, ◌≢◌, refl, ◌∙◌, ap, sym, true, false, List, [], ◌∷◌, ◌++◌,
}
use pcan_alterative.Base.{
  length, take, drop, slice, AreBytes, ◌==◌, ltb, ne→==, Bool-cases, inl, inr, arith, append_assoc,
  take-append-drop, take-append_length, slice-last, length-append, length-take, length-drop,
  All-take, All-drop,
}
use pcan_alterative.Base.ByteOrder.{ByteOrderLaws}
use pcan_alterative.Zephyr.{Wire}
use pcan_alterative.Clp.Types.{clp_version, clp_max_payload}
use pcan_alterative.Clp.Encode.{clp_crc16, covered, logical_frame}
use pcan_alterative.Clp.Parser.{Message, Receiver, check_crc, clp_parser_dispatch}
use pcan_alterative.Clp.Parser.Delivery.{dispatch-logical_frame}

-- A message is handed over if its logical frame is in the buffer, and none otherwise.
pub data Dispatched (w : Wire) (frame : List ℕ) (out : List Message) : Type 0 where
  delivered :
      (m : Message)
      → out ≡ m ∷ []
      → frame ≡ logical_frame w m.type m.seq m.payload
      → Dispatched w frame out
  silent :
      out ≡ []
      → ((m : Message)
          → length m.payload ≤ clp_max_payload
          → frame ≢ logical_frame w m.type m.seq m.payload)
      → Dispatched w frame out

-- The bytes behind the version, the type and the sequence number, when the checks have passed.
module _ (w : Wire) (laws : ByteOrderLaws w.order) (type seq plen : ℕ) (r : List ℕ)
    (bytes : AreBytes r) (size : length r ≡ plen + 4) (stated : w.get_le16 (take 2 r) ≡ plen) where
  abbrev len_field : List ℕ
  len_field = take 2 r

  abbrev payload : List ℕ
  payload = take plen (drop 2 r)

  abbrev crc_field : List ℕ
  crc_field = drop plen (drop 2 r)

  abbrev body : List ℕ
  body = clp_version ∷ type ∷ seq ∷ (len_field ++ payload)

  parts : clp_version ∷ type ∷ seq ∷ r ≡ body ++ crc_field
  parts =
      ap (λ t. clp_version ∷ type ∷ seq ∷ t)
        (sym (
          append_assoc len_field payload crc_field
          ∙ ap (λ t. len_field ++ t) (take-append-drop plen (drop 2 r))
          ∙ take-append-drop 2 r))

  length-payload : length payload ≡ plen
  length-payload = omega (arith, length-take plen (drop 2 r), length-drop 2 r)

  length-body : length body ≡ 5 + plen
  length-body = omega (arith, length-append len_field payload, length-take 2 r, length-payload)

  length-crc_field : length crc_field ≡ 2
  length-crc_field = omega (arith, length-drop plen (drop 2 r), length-drop 2 r)

  body-covered : body ≡ covered w type seq payload
  unfolding covered
  body-covered =
      ap (λ t. clp_version ∷ type ∷ seq ∷ (t ++ payload))
        (sym (laws.le16.put_get len_field (omega (arith, length-take 2 r)) (All-take _ 2 r bytes))
          ∙ ap w.put_le16 (stated ∙ sym length-payload))

  checked :
      let f = clp_version ∷ type ∷ seq ∷ r in
      w.get_le16 (slice f (5 + plen) 2) ≡ clp_crc16 w (take (5 + plen) f)
      → f ≡ logical_frame w type seq payload
  unfolding logical_frame
  checked crc =
      let same : w.get_le16 crc_field ≡ clp_crc16 w body =
        ap w.get_le16 (
          sym (
            ap (λ t. slice t (5 + plen) 2) parts
            ∙ slice-last (5 + plen) 2 body crc_field length-body length-crc_field))
        ∙ crc
        ∙ ap (clp_crc16 w) (
            ap (take (5 + plen)) parts
            ∙ take-append_length (5 + plen) body crc_field length-body) in
      parts
      ∙ ap (λ t. body ++ t)
          (sym (
              laws.le16.put_get crc_field length-crc_field
                (All-drop _ plen (drop 2 r) (All-drop _ 2 r bytes)))
            ∙ ap w.put_le16 same)
      ∙ ap (λ t. t ++ w.put_le16 (clp_crc16 w t)) body-covered

module _ (w : Wire) (laws : ByteOrderLaws w.order) (c : Receiver) where
  -- A receiver with a callback and a frame that has not overflowed the buffer.
  abbrev pub holding : List ℕ → Receiver
  holding frame = record c { has_cb = true; frame = frame; overflow = false }

  quiet :
      (frame : List ℕ)
      → (clp_parser_dispatch w (holding frame)).1 ≡ []
      → Dispatched w frame (clp_parser_dispatch w (holding frame)).1
  quiet frame none_out = silent none_out (λ m h e.
      let out =
        ap (λ x. x.1)
          (dispatch-logical_frame w laws m.type m.seq m.payload (holding frame) h e refl refl) in
      absurd (omega (arith, ap length none_out, ap length out)))

  checked_frame :
      (v t s : ℕ) (r : List ℕ)
      → AreBytes r
      → let frame = v ∷ t ∷ s ∷ r in
        let plen = w.get_le16 (take 2 r) in
        v ≡ clp_version
        → length r ≡ plen + 4
        → w.get_le16 (slice frame (5 + plen) 2) ≡ clp_crc16 w (take (5 + plen) frame)
        → frame ≡ logical_frame w t s (take plen (drop 2 r))
  checked_frame v t s r bytes version size crc =
      let plen = w.get_le16 (take 2 r) in
      let put_back = ap (λ x. x ∷ t ∷ s ∷ r) version in
      put_back
      ∙ checked w laws t s plen r bytes size refl (
          ap (λ f. w.get_le16 (slice f (5 + plen) 2)) (sym put_back)
          ∙ crc
          ∙ ap (λ f. clp_crc16 w (take (5 + plen) f)) put_back)

  long_frame :
      (v t s : ℕ) (r : List ℕ)
      → AreBytes r
      → let frame = v ∷ t ∷ s ∷ r in Dispatched w frame (clp_parser_dispatch w (holding frame)).1
  unfolding clp_parser_dispatch check_crc
  long_frame v t s r bytes =
      let frame = v ∷ t ∷ s ∷ r in
      let plen = w.get_le16 (take 2 r) in
      let full = ne→== (length frame) 0 (λ e. absurd (omega (arith, e))) in
      let fail = quiet frame in
      elim (Bool-cases (ltb (length frame) 7)) [
        | inl short ↦ fail (rw (full, short) refl)
        | inr long ↦ elim (Bool-cases (5 + plen + 2 == length frame)) [
          | inr odd ↦ fail (rw (full, long, odd) refl)
          | inl even ↦ elim (Bool-cases (v == clp_version)) [
            | inr other ↦ fail (rw (full, long, even, other) refl)
            | inl same ↦
                let crc = clp_crc16 w (take (5 + plen) frame) in
                elim (Bool-cases (w.get_le16 (slice frame (5 + plen) 2) == crc)) [
                  | inr wrong ↦ fail (rw (full, long, even, same, wrong) refl)
                  | inl right ↦
                      let m : Message = record {
                        type = t;
                        seq = s;
                        payload = take plen (drop 2 r);
                      } in
                      delivered m (rw (full, long, even, same, right) refl) (
                        checked_frame v t s r bytes (ground arith) (ground arith)
                          (ground (arith, right)))
                ]
          ]
        ]
      ]

  -- `clp_parser_dispatch` hands a message over exactly if the buffer is the logical frame of it: for
  -- a receiver with a callback, whose buffer of bytes has not overflowed, either there is one message
  -- and the buffer is its version, type, sequence number, length, payload and CRC, or there is none
  -- and the buffer is not the logical frame of any message of at most CLP_MAX_PAYLOAD bytes.
  pub clp_parser_dispatch-Dispatched :
      (frame : List ℕ)
      → AreBytes frame
      → Dispatched w frame (clp_parser_dispatch w (holding frame)).1
  clp_parser_dispatch-Dispatched [] b = quiet [] (unfold clp_parser_dispatch in refl)
  clp_parser_dispatch-Dispatched (v ∷ []) b = quiet (v ∷ []) (unfold clp_parser_dispatch in refl)
  clp_parser_dispatch-Dispatched (v ∷ t ∷ []) b =
      quiet (v ∷ t ∷ []) (unfold clp_parser_dispatch in refl)
  clp_parser_dispatch-Dispatched (v ∷ t ∷ s ∷ r) (b, (b', (b'', bs))) = long_frame v t s r bs
