-- ===== src/Link/Uart/Send.antt =====
-- What is sent is what the host's parser delivers.
use pcan_alterative.Base.{ℕ, ◌+◌, ◌*◌, ◌%◌, ◌≤◌, ◌<◌, ◌≡◌, refl, ◌∙◌, ap, ap₂, sym, List, []}
use pcan_alterative.Base.{◌∷◌, ◌++◌, true, ok, err, enospc, length, length-append, All}
use pcan_alterative.Base.{
  append-nil, append_assoc, arith, map, Bool-cases, ltb, ◌==◌, inl, inr, ◌⊎◌, Result-cases,
}
use pcan_alterative.Zephyr.{Wire, WireLaws}
use pcan_alterative.Zephyr.RingBuf.{RingBuf, RingBufLaws}
use pcan_alterative.Clp.Types.{clp_max_wire, can_rx, CanFrame, IsCanFrame}
use pcan_alterative.Clp.Encode.{clp_encode_can_frame, can_payload}
use pcan_alterative.Clp.Encode.Framing.{wire_of, length-wire_of, clp_encode_raw-fits}
use pcan_alterative.Clp.Decode.RoundTrip.{length-can_payload, data_count-le}
use pcan_alterative.Clp.Parser.{inc32, Parser, clp_parser_feed}
use pcan_alterative.Clp.Parser.Stream.{IsIdle, Outgoing, FitsWire, received, wires, feed-wires}
use pcan_alterative.Link.Ring.{push_all, push_all-whole}
use pcan_alterative.Link.Uart.{State, tx_push, push_encoded, count_frame, clp_uart_send_can_rx}

-- The CAN_RX message of a frame.
abbrev pub outgoing : Wire → ℕ → CanFrame → Outgoing
outgoing w seq f = record { type = can_rx; seq = seq; payload = can_payload w f }

-- The messages of some frames, numbered as `tx_seq` counts.
abbrev pub numbered : Wire → ℕ → List CanFrame → List Outgoing
numbered w seq [] = []
numbered w seq (f ∷ fs) = outgoing w seq f ∷ numbered w ((seq + 1) % 256) fs

-- Frames sent one after the other.
unfoldable pub send_all : (w : Wire) (rb : RingBuf) → State w rb → List CanFrame → State w rb
send_all w rb u [] = u
send_all w rb u (f ∷ fs) = send_all w rb (clp_uart_send_can_rx w rb u f).0 fs

module _ (w : Wire) (rb : RingBuf) (wl : WireLaws w) (rl : RingBufLaws rb) where
  open rl use {contents, capacity}

  abbrev wire_of_frame : ℕ → CanFrame → List ℕ
  wire_of_frame seq f = wire_of w wl can_rx seq (can_payload w f)

  payload-le : (f : CanFrame) → IsCanFrame f → length (can_payload w f) ≤ 80
  payload-le f v =
      omega (arith, length-can_payload w wl.order_laws f v, data_count-le f.flags f.dlc)

  encoded :
      (seq : ℕ) (f : CanFrame)
      → IsCanFrame f
      → clp_encode_can_frame w can_rx seq f clp_max_wire ≡ ok (wire_of_frame seq f)
  unfolding clp_encode_can_frame
  encoded seq f v =
      clp_encode_raw-fits w wl can_rx seq (can_payload w f) clp_max_wire (payload-le f v)
        (omega arith)

  send_cases :
      (u : State w rb) (f : CanFrame)
      → IsCanFrame f
      → let wire = wire_of_frame u.tx_seq f in
        let (u', result) = clp_uart_send_can_rx w rb u f in
        (length (contents u.tx_rb) + length wire ≤ capacity u.tx_rb
          → (result ≡ ok tt)
            × (contents u'.tx_rb ≡ contents u.tx_rb ++ wire)
            × (u'.tx_irq ≡ true)
            × (u'.tx_seq ≡ (u.tx_seq + 1) % 256)
            × (u'.stat_tx_frames ≡ inc32 u.stat_tx_frames))
        × (capacity u.tx_rb < length (contents u.tx_rb) + length wire
            → (result ≡ err enospc)
              × (u' ≡ record u {
                tx_seq = (u.tx_seq + 1) % 256;
                stat_tx_drops = inc32 u.stat_tx_drops;
              }))
  unfolding clp_uart_send_can_rx tx_push
  send_cases u f v =
      let wire = wire_of_frame u.tx_seq f in
      let (fits, full) = push_all-whole rb rl u.tx_rb wire in
      (
        λ h.
            let (all, queued) = fits h in
            rw (encoded u.tx_seq f v, all) (refl, queued, refl, refl, refl),
        λ h. rw (encoded u.tx_seq f v, full h) (refl, refl),
      )

  -- `clp_uart_send_can_rx` on a valid frame for which the ring has room: the whole encoding is
  -- queued behind what is there, the TX interrupt is enabled and the frame is counted. Without
  -- room the frame is dropped and counted as such, and the ring keeps what it has. In both cases
  -- the sequence number moves on, so that the host can see the gap.
  pub clp_uart_send_can_rx_lem :
      (u : State w rb) (f : CanFrame)
      → IsCanFrame f
      → let wire = wire_of_frame u.tx_seq f in
        let need = length (contents u.tx_rb) + length wire in
        let (u', result) = clp_uart_send_can_rx w rb u f in
        ((need ≤ capacity u.tx_rb)
          × (result ≡ ok tt)
          × (contents u'.tx_rb ≡ contents u.tx_rb ++ wire)
          × (u'.tx_irq ≡ true)
          × (u'.tx_seq ≡ (u.tx_seq + 1) % 256)
          × (u'.stat_tx_frames ≡ inc32 u.stat_tx_frames))
        ⊎ ((capacity u.tx_rb < need)
            × (result ≡ err enospc)
            × (u' ≡ record u {
              tx_seq = (u.tx_seq + 1) % 256;
              stat_tx_drops = inc32 u.stat_tx_drops;
            }))
  clp_uart_send_can_rx_lem u f v =
      let need = length (contents u.tx_rb) + length (wire_of_frame u.tx_seq f) in
      let (fits, full) = send_cases u f v in
      elim (Bool-cases (ltb (capacity u.tx_rb) need)) [
        | inl lt ↦
            let h : capacity u.tx_rb < need = ground arith in let (a, b) = full h in inr (h, a, b)
        | inr ge ↦
            let h : need ≤ capacity u.tx_rb = ground arith in
            let (a, b, c, d, e) = fits h in inl (h, a, b, c, d, e)
      ]

  room_after :
      (u : State w rb) (f : CanFrame)
      → capacity (clp_uart_send_can_rx w rb u f).0.tx_rb ≡ capacity u.tx_rb
  unfolding clp_uart_send_can_rx push_encoded count_frame tx_push push_all
  room_after u f = elim (Result-cases (clp_encode_can_frame w can_rx u.tx_seq f clp_max_wire)) [
    | inl (wire, e) ↦ rw e (elim (Bool-cases (ltb (rb.space_get u.tx_rb) (length wire))) [
      | inl full ↦ rw full refl
      | inr room ↦ rw room (elim (Bool-cases ((rb.put u.tx_rb wire).1 == length wire)) [
        | inl all ↦ rw all (rl.put_capacity u.tx_rb wire)
        | inr part ↦ rw part (rl.put_capacity u.tx_rb wire)
      ])
    ])
    | inr (x, e) ↦ rw e refl
  ]

  -- Any number of valid frames, sent one after the other into a ring with room for that many
  -- encodings of the largest size: the ring then has what it had, followed by the encodings in
  -- order under consecutive sequence numbers.
  pub send_all-queues :
      (fs : List CanFrame) (u : State w rb)
      → All IsCanFrame fs
      → length (contents u.tx_rb) + clp_max_wire * length fs ≤ capacity u.tx_rb
      → contents (send_all w rb u fs).tx_rb
        ≡ contents u.tx_rb ++ wires w wl (numbered w u.tx_seq fs)
  unfolding send_all
  send_all-queues [] u h room = sym (append-nil (contents u.tx_rb))
  send_all-queues (f ∷ fs) u (v, vs) room =
      let wire = wire_of_frame u.tx_seq f in
      let u' = (clp_uart_send_can_rx w rb u f).0 in
      let short = length-wire_of w wl can_rx u.tx_seq (can_payload w f) (payload-le f v) in
      let (done, queued, irq, seq, counted) = (send_cases u f v).0 (omega (arith, short)) in
      let next = send_all-queues fs u' vs (
        omega (
          arith,
          short,
          room_after u f,
          ap length queued,
          length-append (contents u.tx_rb) wire,
        )) in
      next
      ∙ ap₂ (λ c n. c ++ wires w wl (numbered w n fs)) queued seq
      ∙ append_assoc (contents u.tx_rb) wire (wires w wl (numbered w ((u.tx_seq + 1) % 256) fs))

  fits : (fs : List CanFrame) (seq : ℕ) → All IsCanFrame fs → All FitsWire (numbered w seq fs)
  fits [] seq h = tt
  fits (f ∷ fs) seq (v, vs) = (payload-le f v, fits fs ((seq + 1) % 256) vs)

  -- From the sender to the host: valid frames sent into an empty ring with room for them are, as
  -- the bytes that the ring then holds, delivered by an idle parser one CAN_RX message each, in
  -- order and under consecutive sequence numbers, and the parser is idle again.
  pub send_all-delivered :
      (fs : List CanFrame) (u : State w rb) (host : Parser w.Decoder)
      → All IsCanFrame fs
      → contents u.tx_rb ≡ []
      → clp_max_wire * length fs ≤ capacity u.tx_rb
      → IsIdle w host
      → let (host', out) = clp_parser_feed w host (contents (send_all w rb u fs).tx_rb) in
        (out ≡ map received (numbered w u.tx_seq fs)) × IsIdle w host'
  send_all-delivered fs u host h empty room idle =
      rw (send_all-queues fs u h (omega (arith, ap length empty)), empty)
        (feed-wires w wl (numbered w u.tx_seq fs) host idle (fits fs u.tx_seq h))
