-- ===== src/Link/Uart/Receive.antt =====
-- What the receive thread makes of the bytes in its ring.
use pcan_alterative.Base.{ℕ, zero, suc, ◌<◌, ◌≡◌, refl, ◌∙◌, ap, sym, Bool, true, false, List, []}
use pcan_alterative.Base.{◌∷◌, ◌++◌, Option, some, length, drop, ◌==◌, append_assoc, arith}
use pcan_alterative.Base.{
  Bool-cases, inl, inr, nil_of_length, length-take, length-drop, take-append-drop,
}
use pcan_alterative.Base.{ap₂}
use pcan_alterative.Zephyr.{Wire}
use pcan_alterative.Zephyr.RingBuf.{RingBuf, RingBufLaws}
use pcan_alterative.Clp.Types.{CanFrame}
use pcan_alterative.Clp.Parser.{Message, clp_parser_feed}
use pcan_alterative.Clp.Parser.Stream.{clp_parser_feed-append}
use pcan_alterative.Link.Ring.{isr_chunk}
use pcan_alterative.Link.Uart.{State, on_clp_frame, on_clp_frames, rx_drain}

module _ (w : Wire) where
  on_clp_frames-append :
      (has_cb : Bool) (xs ys : List Message)
      → on_clp_frames w has_cb (xs ++ ys) ≡ on_clp_frames w has_cb xs ++ on_clp_frames w has_cb ys
  unfolding on_clp_frames
  on_clp_frames-append has_cb [] ys = refl
  on_clp_frames-append has_cb (x ∷ xs) ys =
      ap (λ t. on_clp_frame w has_cb x ++ t) (on_clp_frames-append has_cb xs ys)
      ∙ sym (
          append_assoc (on_clp_frame w has_cb x) (on_clp_frames w has_cb xs)
            (on_clp_frames w has_cb ys))

module _ (w : Wire) (rb : RingBuf) (rl : RingBufLaws rb) where
  open rl use {contents, get_takes, get_leaves}

  -- The drained ring, and the state that the loop ends in.
  pub record Drained (u : State w rb) (result : Option (State w rb × List CanFrame)) : Type 0 where
    pub ring : rb.Ring
    pub empty : contents ring ≡ []
    pub ends :
        let (p, ms) = clp_parser_feed w u.parser (contents u.rx_rb) in
        result ≡ some (record u { rx_rb = ring; parser = p }, on_clp_frames w u.has_tx_req_cb ms)

  nothing_left : (r : rb.Ring) → length (rb.get r isr_chunk).1 ≡ 0 → contents r ≡ []
  nothing_left r h =
      nil_of_length (contents r)
        (omega (arith, ap length (get_takes r isr_chunk), length-take isr_chunk (contents r)))

  -- The bytes of one round and those of the rounds after it, fed one after the other.
  feed_whole :
      (u : State w rb)
      → let (r, buf) = rb.get u.rx_rb isr_chunk in
        let (p, ms) = clp_parser_feed w u.parser buf in
        let (q, more) = clp_parser_feed w p (contents r) in
        clp_parser_feed w u.parser (contents u.rx_rb) ≡ (q, ms ++ more)
  feed_whole u =
      let (r, buf) = rb.get u.rx_rb isr_chunk in
      ap (clp_parser_feed w u.parser) (
        sym (
          ap₂ (λ s t. s ++ t) (get_takes u.rx_rb isr_chunk) (get_leaves u.rx_rb isr_chunk)
          ∙ take-append-drop isr_chunk (contents u.rx_rb)))
      ∙ clp_parser_feed-append w buf (contents r) u.parser

  last_round :
      (fuel : ℕ) (u : State w rb)
      → (length (rb.get u.rx_rb isr_chunk).1 == 0) ≡ true
      → Drained u (rx_drain w rb (suc fuel) u)
  unfolding rx_drain clp_parser_feed on_clp_frames
  last_round fuel u none_left =
      let nil = nothing_left u.rx_rb (ground arith) in
      record {
        ring = (rb.get u.rx_rb isr_chunk).0;
        empty = get_leaves u.rx_rb isr_chunk ∙ ap (drop isr_chunk) nil;
        ends = rw (none_left, nil) refl;
      }

  one_round :
      (fuel : ℕ) (u : State w rb)
      → let (r, buf) = rb.get u.rx_rb isr_chunk in
        let (p, ms) = clp_parser_feed w u.parser buf in
        let next : State w rb = record u { rx_rb = r; parser = p } in
        (length buf == 0) ≡ false
        → Drained next (rx_drain w rb fuel next)
        → Drained u (rx_drain w rb (suc fuel) u)
  unfolding rx_drain
  one_round fuel u some_bytes rest =
      let (r, buf) = rb.get u.rx_rb isr_chunk in
      let (p, ms) = clp_parser_feed w u.parser buf in
      record {
        ring = rest.ring;
        empty = rest.empty;
        ends =
            rw
              (
                some_bytes,
                rest.ends,
                feed_whole u,
                on_clp_frames-append w u.has_tx_req_cb ms (clp_parser_feed w p (contents r)).1,
              )
              refl;
      }

  -- With as much fuel as there are bytes and one, the receive loop ends; it has emptied the ring,
  -- its parser is as if it had been fed the ring's bytes at once, and the requests handed to the
  -- registered handler are those of the messages in them.
  pub rx_drain-Drained :
      (fuel : ℕ) (u : State w rb)
      → length (contents u.rx_rb) < fuel
      → Drained u (rx_drain w rb fuel u)
  rx_drain-Drained zero u h = absurd (omega arith)
  rx_drain-Drained (suc fuel) u h =
      let c = contents u.rx_rb in
      let (r, buf) = rb.get u.rx_rb isr_chunk in
      let next : State w rb = record u { rx_rb = r; parser = (clp_parser_feed w u.parser buf).0 } in
      elim (Bool-cases (length buf == 0)) [
        | inl none_left ↦ last_round fuel u none_left
        | inr some_bytes ↦ one_round fuel u some_bytes (
            rx_drain-Drained fuel next (
              ground (
                arith,
                ap length (get_takes u.rx_rb isr_chunk),
                length-take isr_chunk c,
                ap length (get_leaves u.rx_rb isr_chunk),
                length-drop isr_chunk c,
              )))
      ]
