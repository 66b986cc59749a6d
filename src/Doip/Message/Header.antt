-- ===== src/Doip/Message/Header.antt =====
-- What `emit` writes, `doip_parse_header` reads.
use pcan_alterative.Base.{ℕ, ◌+◌, ◌^◌, ◌≤◌, ◌<◌, ◌≡◌, List, [], ◌∷◌, ◌++◌}
use pcan_alterative.Base.{ok, length, length-append, slice, slice-skip}
use pcan_alterative.Base.{take-append_length, arith, append_assoc, append-nil}
use pcan_alterative.Base.ByteOrder.{ByteOrder, ByteOrderLaws}
use pcan_alterative.Doip.Types.{doip_protocol_version, doip_inverse_version, doip_header_size}
use pcan_alterative.Doip.Message.{doip_parse_header, emit}

-- One message with nothing behind it.
unfoldable pub message : ByteOrder → ℕ → List ℕ → List ℕ
message bo type payload =
    doip_protocol_version
    ∷ doip_inverse_version
    ∷ (bo.put_be16 type ++ (bo.put_be32 (length payload) ++ payload))

module _ (bo : ByteOrder) (laws : ByteOrderLaws bo) where
  pub length-message :
      (type : ℕ) (payload : List ℕ) → length (message bo type payload) ≡ 8 + length payload
  unfolding message
  length-message type payload =
      let t = bo.put_be16 type in
      let n = bo.put_be32 (length payload) in
      omega (
        arith,
        length-append t (n ++ payload),
        length-append n payload,
        laws.be16.length_put type,
        laws.be32.length_put (length payload),
      )

  pub emit-fits :
      (resp_size type : ℕ) (payload : List ℕ)
      → length payload + 8 < 2 ^ 32
      → length payload + 8 ≤ resp_size
      → emit bo resp_size type payload ≡ ok (message bo type payload)
  unfolding emit message
  emit-fits resp_size type payload h1 h2 = ground arith

  -- The header of a message whose type has two bytes and whose length has four is read back,
  -- whatever follows it, and the payload stands behind it.
  pub parse_header-message :
      (type : ℕ) (payload rest : List ℕ)
      → type < 2 ^ 16
      → length payload < 2 ^ 32
      → (doip_parse_header bo (message bo type payload ++ rest) ≡ ok (type, length payload))
        × (slice (message bo type payload ++ rest) doip_header_size (length payload) ≡ payload)
  unfolding doip_parse_header message
  parse_header-message type payload rest ht hp =
      let t = bo.put_be16 type in
      let n = bo.put_be32 (length payload) in
      ground (
        arith,
        length-append (t ++ (n ++ payload)) rest,
        length-append t (n ++ payload),
        length-append n payload,
        append_assoc t (n ++ payload) rest,
        append_assoc n payload rest,
        laws.be16.length_put type,
        laws.be32.length_put (length payload),
        take-append_length 2 t (n ++ (payload ++ rest)),
        slice-skip 2 0 4 t (n ++ (payload ++ rest)),
        take-append_length 4 n (payload ++ rest),
        slice-skip 2 4 (length payload) t (n ++ (payload ++ rest)),
        slice-skip 4 0 (length payload) n (payload ++ rest),
        take-append_length (length payload) payload rest,
        laws.be16.get_put type,
        laws.be32.get_put (length payload),
      )

  pub parse_header-alone :
      (type : ℕ) (payload : List ℕ)
      → type < 2 ^ 16
      → length payload < 2 ^ 32
      → doip_parse_header bo (message bo type payload) ≡ ok (type, length payload)
  parse_header-alone type payload ht hp =
      let e = (parse_header-message type payload [] ht hp).0 in
      rw (append-nil (message bo type payload)) at e

  pub message_payload :
      (type : ℕ) (payload : List ℕ)
      → type < 2 ^ 16
      → length payload < 2 ^ 32
      → slice (message bo type payload) doip_header_size (length payload) ≡ payload
  message_payload type payload ht hp =
      let e = (parse_header-message type payload [] ht hp).1 in
      rw (append-nil (message bo type payload)) at e
