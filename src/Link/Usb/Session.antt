-- ===== src/Link/Usb/Session.antt =====
-- What a host sees of a USB session: nothing is queued without it, and a connection starts with a
-- HELLO.
use pcan_alterative.Base.{ℕ, ◌+◌, ◌%◌, ◌≤◌, ◌<◌, ◌≡◌, ◌≢◌, refl, true, false}
use pcan_alterative.Base.{List, [], ◌∷◌, ◌++◌, some, ok, err, enotconn, enospc}
use pcan_alterative.Base.{length, length-append, arith, Bool-cases, inl, inr, ◌⊎◌, ltb}
use pcan_alterative.Zephyr.{Wire, WireLaws}
use pcan_alterative.Zephyr.RingBuf.{RingBuf, RingBufLaws}
use pcan_alterative.Clp.Types.{clp_max_wire, clp_max_payload, can_rx, hello, CanFrame, IsCanFrame}
use pcan_alterative.Clp.Encode.{clp_encode_can_frame, can_payload, clp_encode_hello, hello_payload}
use pcan_alterative.Clp.Encode.Framing.{wire_of, wire_of-nonempty, clp_encode_raw-fits}
use pcan_alterative.Clp.Decode.RoundTrip.{length-can_payload, data_count-le}
use pcan_alterative.Clp.Parser.{inc32}
use pcan_alterative.Link.Ring.{push_all-whole}
use pcan_alterative.Link.Usb.{
  State, tx_push, next_seq, usb_link_send_can_rx, send_hello, push_positive, on_line_state,
  usb_link_fw_version,
}

module _ (w : Wire) (rb : RingBuf) (wl : WireLaws w) (rl : RingBufLaws rb) where
  open rl use {contents, capacity}

  abbrev pub frame_wire : ℕ → CanFrame → List ℕ
  frame_wire seq f = wire_of w wl can_rx seq (can_payload w f)

  encoded :
      (seq : ℕ) (f : CanFrame)
      → IsCanFrame f
      → clp_encode_can_frame w can_rx seq f clp_max_wire ≡ ok (frame_wire seq f)
  unfolding clp_encode_can_frame
  encoded seq f v =
      clp_encode_raw-fits w wl can_rx seq (can_payload w f) clp_max_wire
        (omega (arith, length-can_payload w wl.order_laws f v, data_count-le f.flags f.dlc))
        (omega arith)

  pub send_cases :
      (u : State w rb) (f : CanFrame)
      → IsCanFrame f
      → let wire = frame_wire u.tx_seq f in
        let (u', result) = usb_link_send_can_rx w rb u f in
        (u.connected ≡ false → (result ≡ err enotconn) × (u' ≡ next_seq w rb u))
        × (u.connected ≡ true
            → capacity u.tx_rb < length (contents u.tx_rb) + length wire
            → (result ≡ err enospc)
              × (u' ≡ record (next_seq w rb u) { stat_rx_drops = inc32 u.stat_rx_drops }))
        × (u.connected ≡ true
            → length (contents u.tx_rb) + length wire ≤ capacity u.tx_rb
            → (result ≡ ok tt)
              × (contents u'.tx_rb ≡ contents u.tx_rb ++ wire)
              × (u'.tx_irq ≡ true)
              × (u'.tx_seq ≡ (u.tx_seq + 1) % 256)
              × (u'.stat_tx_frames ≡ inc32 u.stat_tx_frames))
  unfolding usb_link_send_can_rx tx_push
  send_cases u f v =
      let wire = frame_wire u.tx_seq f in
      let (fits, full) = push_all-whole rb rl u.tx_rb wire in
      (
        λ away. rw (encoded u.tx_seq f v, away) (refl, refl),
        λ here h. rw (encoded u.tx_seq f v, here, full h) (refl, refl),
        λ here h.
            let (all, queued) = fits h in
            rw (encoded u.tx_seq f v, here, all) (refl, queued, refl, refl, refl),
      )

  -- `usb_link_send_can_rx` on a valid frame, in its three cases. Without a host it fails with
  -- ENOTCONN, and with a host and no room with ENOSPC and one more drop; both leave the ring as it
  -- was. With a host and room, the whole encoding is queued behind what is there, the TX interrupt
  -- is enabled and the frame is counted. The sequence number moves on in every case.
  pub usb_link_send_can_rx_lem :
      (u : State w rb) (f : CanFrame)
      → IsCanFrame f
      → let wire = frame_wire u.tx_seq f in
        let need = length (contents u.tx_rb) + length wire in
        let (u', result) = usb_link_send_can_rx w rb u f in
        ((u.connected ≡ false) × (result ≡ err enotconn) × (u' ≡ next_seq w rb u))
        ⊎ (((u.connected ≡ true)
              × (capacity u.tx_rb < need)
              × (result ≡ err enospc)
              × (u' ≡ record (next_seq w rb u) { stat_rx_drops = inc32 u.stat_rx_drops }))
            ⊎ ((u.connected ≡ true)
                × (need ≤ capacity u.tx_rb)
                × (result ≡ ok tt)
                × (contents u'.tx_rb ≡ contents u.tx_rb ++ wire)
                × (u'.tx_irq ≡ true)
                × (u'.tx_seq ≡ (u.tx_seq + 1) % 256)
                × (u'.stat_tx_frames ≡ inc32 u.stat_tx_frames)))
  usb_link_send_can_rx_lem u f v =
      let need = length (contents u.tx_rb) + length (frame_wire u.tx_seq f) in
      let (away, full, fits) = send_cases u f v in
      elim (Bool-cases u.connected) [
        | inl here ↦ elim (Bool-cases (ltb (capacity u.tx_rb) need)) [
          | inl lt ↦
              let h : capacity u.tx_rb < need = ground arith in
              let (a, b) = full here h in inr (inl (here, h, a, b))
          | inr ge ↦
              let h : need ≤ capacity u.tx_rb = ground arith in
              let (a, b, c, d, e) = fits here h in inr (inr (here, h, a, b, c, d, e))
        ]
        | inr gone ↦ let (a, b) = away gone in inl (gone, a, b)
      ]

  abbrev pub hello_wire : ℕ → List ℕ
  hello_wire seq = wire_of w wl hello seq (hello_payload w (some usb_link_fw_version))

  pub hello_encoded :
      (seq : ℕ)
      → clp_encode_hello w seq (some usb_link_fw_version) clp_max_wire ≡ ok (hello_wire seq)
  unfolding clp_encode_hello
  hello_encoded seq =
      clp_encode_raw-fits w wl hello seq (hello_payload w (some usb_link_fw_version)) clp_max_wire
        (unfold hello_payload in
          omega (
            arith,
            length-append (w.put_le16 clp_max_payload) usb_link_fw_version,
            wl.order_laws.le16.length_put clp_max_payload,
          ))
        (omega arith)

  pub hello_wire-nonempty : (seq : ℕ) → hello_wire seq ≢ []
  hello_wire-nonempty seq =
      wire_of-nonempty w wl hello seq (hello_payload w (some usb_link_fw_version)) (
        unfold hello_payload in
        omega (
          arith,
          length-append (w.put_le16 clp_max_payload) usb_link_fw_version,
          wl.order_laws.le16.length_put clp_max_payload,
        ))

  push_positive-ok :
      (u : State w rb) (wire : List ℕ)
      → wire ≢ []
      → length (contents u.tx_rb) + length wire ≤ capacity u.tx_rb
      → let u' = push_positive w rb (record u { connected = true }) (ok wire) in
        (contents u'.tx_rb ≡ contents u.tx_rb ++ wire)
        × (u'.connected ≡ true)
        × (u'.tx_irq ≡ true)
        × (u'.tx_seq ≡ u.tx_seq)
  unfolding push_positive tx_push
  push_positive-ok u [] ne room = absurd (ne refl)
  push_positive-ok u (b ∷ bs) ne room =
      let (all, queued) = (push_all-whole rb rl u.tx_rb (b ∷ bs)).0 room in
      rw (push_positive, all) (queued, refl, refl, refl)

  pub connected_again : (u : State w rb) → u.connected ≡ true → on_line_state w rb u true ≡ u
  unfolding on_line_state
  connected_again u h = rw h refl

  -- The host raises DTR while it is not connected and the ring has room: the HELLO is queued behind
  -- what is there, both interrupts are enabled and the link is connected. After
  -- that, raising DTR again changes nothing, and dropping it clears the connected flag only.
  pub connect_says_hello :
      (u : State w rb)
      → u.connected ≡ false
      → length (contents u.tx_rb) + length (hello_wire u.tx_seq) ≤ capacity u.tx_rb
      → let u' = on_line_state w rb u true in
        (contents u'.tx_rb ≡ contents u.tx_rb ++ hello_wire u.tx_seq)
        × (u'.connected ≡ true)
        × (u'.tx_irq ≡ true)
        × (u'.rx_irq ≡ true)
        × (u'.tx_seq ≡ (u.tx_seq + 1) % 256)
        × (on_line_state w rb u' true ≡ u')
        × (on_line_state w rb u' false ≡ record u' { connected = false })
  unfolding on_line_state send_hello
  connect_says_hello u h room =
      let (queued, here, irq, seq) =
        push_positive-ok (next_seq w rb u) (hello_wire u.tx_seq) (hello_wire-nonempty u.tx_seq)
          room in
      rw (h, hello_encoded u.tx_seq) (queued, here, irq, refl, seq, connected_again _ here, refl)
