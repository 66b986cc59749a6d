-- ===== src/Clp/Parser/Delivery.antt =====
-- What the parser delivers when it is fed an encoded frame.
use pcan_alterative.Base.{ℕ, ◌+◌, ◌^◌, ◌≤◌, ◌<◌, ◌≡◌, refl, ◌∙◌, ap, sym, Bool, true, false}
use pcan_alterative.Base.{List, [], ◌∷◌, ◌++◌, Option, some, map, append-nil, append_assoc}
use pcan_alterative.Base.{flatten, length, length-append, arith, ◌||◌}
use pcan_alterative.Base.{slice, take, byte_at, slice-middle, slice-last, take-append_length}
use pcan_alterative.Base.ByteOrder.{ByteOrderLaws}
use pcan_alterative.Zephyr.{Wire, decode_run}
use pcan_alterative.Clp.Types.{clp_version, clp_max_payload, clp_max_frame}
use pcan_alterative.Clp.Encode.{logical_frame, covered, clp_crc16}
use pcan_alterative.Clp.Encode.Framing.{length-covered, length-logical_frame}
use pcan_alterative.Clp.Parser.{
  Receiver, inc32, check_crc, clp_parser_dispatch, clp_cobs_cb, cobs_calls, feed_byte,
  clp_parser_feed,
}

or-false_left : (a b : Bool) → (a || b) ≡ false → a ≡ false
or-false_left a b h = ground arith

or-false_right : (a b : Bool) → (a || b) ≡ false → b ≡ false
or-false_right a b h = ground arith

module _ (w : Wire) where
  pub cobs_calls-append :
      (c : Receiver) (xs ys : List (Option (List ℕ)))
      → cobs_calls w c (xs ++ ys) ≡ (
          let (c', out) = cobs_calls w c xs in
          let (c'', more) = cobs_calls w c' ys in (c'', out ++ more))
  unfolding cobs_calls
  cobs_calls-append c [] ys = refl
  cobs_calls-append c (x ∷ xs) ys =
      let (c', out) = clp_cobs_cb w c x in
      cc (
        cobs_calls-append c' xs ys,
        append_assoc out (cobs_calls w c' xs).1 (cobs_calls w (cobs_calls w c' xs).0 ys).1,
      )

  -- Pieces that fit are collected.
  pub cobs_calls-pieces :
      (pieces : List (List ℕ)) (c : Receiver)
      → length c.frame + length (flatten pieces) ≤ clp_max_frame
      → cobs_calls w c (map some pieces) ≡ (record c { frame = c.frame ++ flatten pieces }, [])
  unfolding cobs_calls clp_cobs_cb
  cobs_calls-pieces [] c h = ground (arith, append-nil c.frame)
  cobs_calls-pieces (x ∷ xs) c h = ground (
    arith,
    length-append x (flatten xs),
    length-append c.frame x,
    append_assoc c.frame x (flatten xs),
    cobs_calls-pieces xs (record c { frame = c.frame ++ x }),
  )

  -- Over bytes that the decoder takes, the parser makes the decoder's callback calls.
  pub feed-decode_run :
      (bs : List ℕ) (d : w.Decoder) (c : Receiver)
      → (decode_run w d bs).2 ≡ false
      → clp_parser_feed w (record { dec = d; rx = c }) bs ≡ (
          let (d', evs, failed) = decode_run w d bs in
          let (c', out) = cobs_calls w c evs in (record { dec = d'; rx = c' }, out))
  unfolding clp_parser_feed feed_byte decode_run cobs_calls
  feed-decode_run [] d c h = refl
  feed-decode_run (b ∷ bs) d c h =
      rw (or-false_left (w.decoder_write d b).2 (decode_run w d' bs).2 h) (
        ap (λ r. (r.0, (cobs_calls w c evs).1 ++ r.1)) (feed-decode_run bs d' c' rest_ok)
        ∙ ap (λ r. (record { dec = (decode_run w d' bs).0; rx = r.0 }, r.1))
            (sym (cobs_calls-append c evs (decode_run w d' bs).1)))
    where
      d' : w.Decoder
      d' = (w.decoder_write d b).0

      evs : List (Option (List ℕ))
      evs = (w.decoder_write d b).1

      c' : Receiver
      c' = (cobs_calls w c evs).0

      rest_ok : (decode_run w d' bs).2 ≡ false
      rest_ok = or-false_right (w.decoder_write d b).2 (decode_run w d' bs).2 h

-- The fields of a logical frame, where the parser reads them.
module _ (w : Wire) (laws : ByteOrderLaws w.order) (type seq : ℕ) (payload : List ℕ) where
  len_field : List ℕ
  len_field = w.put_le16 (length payload)

  crc_field : List ℕ
  crc_field = w.put_le16 (clp_crc16 w (covered w type seq payload))

  frame_layout :
      logical_frame w type seq payload
      ≡ (clp_version ∷ type ∷ seq ∷ []) ++ (len_field ++ (payload ++ crc_field))
  unfolding logical_frame covered len_field crc_field
  frame_layout = ap (λ t. clp_version ∷ type ∷ seq ∷ t) (append_assoc len_field payload crc_field)

  frame-len :
      length payload < 2 ^ 16
      → w.get_le16 (slice (logical_frame w type seq payload) 3 2) ≡ length payload
  unfolding len_field
  frame-len h =
      rw
        (
          frame_layout,
          slice-middle 3 2 (clp_version ∷ type ∷ seq ∷ []) len_field (payload ++ crc_field) refl
              (laws.le16.length_put (length payload)),
        )
        (laws.le16.get_put (length payload) h)

  frame-covered :
      (n : ℕ)
      → n ≡ length payload + 5
      → take n (logical_frame w type seq payload) ≡ covered w type seq payload
  unfolding logical_frame
  frame-covered n e =
      take-append_length n (covered w type seq payload) _
        (length-covered w type seq payload laws ∙ sym e)

  frame-crc :
      (n : ℕ)
      → n ≡ length payload + 5
      → w.get_le16 (slice (logical_frame w type seq payload) n 2)
        ≡ clp_crc16 w (covered w type seq payload)
  unfolding logical_frame
  frame-crc n e =
      let c = clp_crc16 w (covered w type seq payload) in
      rw
        (slice-last n 2 (covered w type seq payload) (w.put_le16 c)
          (length-covered w type seq payload laws ∙ sym e) (laws.le16.length_put c))
        (laws.le16.get_put c (unfold clp_crc16 in omega arith))

  frame-payload : slice (logical_frame w type seq payload) 5 (length payload) ≡ payload
  unfolding len_field
  frame-payload = rw frame_layout (
      rw (← append_assoc (clp_version ∷ type ∷ seq ∷ []) len_field (payload ++ crc_field)) (
        slice-middle 5 (length payload) ((clp_version ∷ type ∷ seq ∷ []) ++ len_field) payload
          crc_field (omega (arith, laws.le16.length_put (length payload))) refl))

  frame-bytes :
      (byte_at (logical_frame w type seq payload) 0 ≡ clp_version)
      × (byte_at (logical_frame w type seq payload) 1 ≡ type)
      × (byte_at (logical_frame w type seq payload) 2 ≡ seq)
  unfolding logical_frame covered
  frame-bytes = (refl, refl, refl)

  -- A logical frame passes every check of `clp_parser_dispatch`, and its message is handed over.
  pub dispatch-logical_frame :
      (c : Receiver)
      → length payload ≤ clp_max_payload
      → c.frame ≡ logical_frame w type seq payload
      → c.overflow ≡ false
      → c.has_cb ≡ true
      → clp_parser_dispatch w c ≡ (
        record c { frames_ok = inc32 c.frames_ok },
        record { type = type; seq = seq; payload = payload } ∷ [],
      )
  unfolding clp_parser_dispatch check_crc
  dispatch-logical_frame c h hf ho hc =
      let n : ℕ = 5 + length payload in
      ground (
        arith,
        frame-bytes,
        frame-len (omega arith),
        frame-covered n (omega arith),
        frame-crc n (omega arith),
        frame-payload,
        length-logical_frame w type seq payload laws,
      )
