-- ===== src/Link/Usb/Channel.antt =====
-- The USB link as a sender of messages to a host that comes and goes.
use pcan_alterative.Base.{
  ℕ, ◌+◌, ◌%◌, ◌^◌, ◌<◌, ◌≡◌, refl, ◌∙◌, ap, ap₂, sym, subst, Bool, true, false,
}
use pcan_alterative.Base.{List, [], ◌∷◌, ◌++◌, All, append-nil, arith}
use pcan_alterative.Base.{if◌then◌else◌}
use pcan_alterative.Base.Kept.{Kept, none_left, kept, lose}
use pcan_alterative.Zephyr.{Wire, WireLaws}
use pcan_alterative.Zephyr.RingBuf.{RingBuf, RingBufLaws}
use pcan_alterative.Clp.Types.{clp_max_wire, can_rx}
use pcan_alterative.Clp.Encode.{clp_encode_can_frame, clp_encode_tx_ack, clp_encode_status}
use pcan_alterative.Clp.Encode.Framing.{wire_of}
use pcan_alterative.Clp.Parser.Stream.{Outgoing, FitsWire, IsIdle}
use pcan_alterative.Link.Sender.{SenderLaws, Moves, Heard, run_events-Heard}
use pcan_alterative.Clp.Parser.{Parser}
use pcan_alterative.Link.Usb.{
  State, vbus_ready, vbus_removed, other_msg, control_line_state, push_encoded, next_seq,
  usb_link_send_can_rx, usb_link_send_tx_ack, usb_link_send_status, send_hello, cdc_isr,
  on_line_state, usbd_msg_cb,
}
use pcan_alterative.Link.Usb.Push.{Sent, away, queued, dropped, push_encoded-Sent}
use pcan_alterative.Link.Usb.Push.{count_frame-Sent, push_positive-Sent, listening-Sent}
use pcan_alterative.Link.Usb.Service.{cdc_isr-in_order, cdc_isr-SameSender}
use pcan_alterative.Link.Usb.Session.{
  connected_again, hello_wire, hello_encoded, hello_wire-nonempty,
}
use pcan_alterative.Link.Usb.Events.{
  Send, Event, View, sending, interrupt, usbd_message, can_rx_of, tx_ack_of, status_of, message,
  hello_message, asked, send, step, usb_sender, InChunks, message-FitsWire, hello-FitsWire, encoded,
}

module _ (w : Wire) (rb : RingBuf) (wl : WireLaws w) (rl : RingBufLaws rb)
    (can_detect_vbus : Bool) where
  open rl use {contents}

  abbrev pub queue : State w rb → List ℕ
  queue u = contents u.tx_rb

  abbrev wire : Outgoing → List ℕ
  wire o = wire_of w wl o.type o.seq o.payload

  abbrev pub Steps : State w rb → List Outgoing → View → State w rb × List ℕ → Type 0
  Steps u os v result = Moves w wl (usb_sender w rb can_detect_vbus) queue u os v result

  send-Sent :
      (u : State w rb) (s : Send)
      → Sent w rb rl (next_seq w rb u) (wire (message w u.tx_seq s)) (send w rb can_detect_vbus u s)
  unfolding usb_link_send_can_rx usb_link_send_tx_ack usb_link_send_status clp_encode_can_frame
      clp_encode_tx_ack clp_encode_status
  send-Sent u (can_rx_of f) =
      let (u', result) =
        push_encoded w rb (next_seq w rb u)
          (clp_encode_can_frame w can_rx u.tx_seq f clp_max_wire) in
      count_frame-Sent w rb rl (next_seq w rb u) _ u' result
        (push_encoded-Sent w rb rl (next_seq w rb u) _ _ (encoded w wl u.tx_seq (can_rx_of f)))
  send-Sent u (tx_ack_of a) =
      push_encoded-Sent w rb rl (next_seq w rb u) _ _ (encoded w wl u.tx_seq (tx_ack_of a))
  send-Sent u (status_of s) =
      push_encoded-Sent w rb rl (next_seq w rb u) _ _ (encoded w wl u.tx_seq (status_of s))

  abbrev if_here : Bool → Outgoing → List Outgoing
  if_here here o = if here then o ∷ [] else []

  Sent-Steps :
      (u : State w rb) (here : Bool) (o : Outgoing) (u' : State w rb)
      → u.stat_rx_drops < 2 ^ 32
      → Sent w rb rl (next_seq w rb (record u { connected = here })) (wire o) u'
      → Steps u (if_here here o) ((u.tx_seq + 1) % 256, here) (u', [])
  Sent-Steps u here o u' small h = elim h.pushed [
    | away gone same none ↦ record {
      log = [];
      lost = 0;
      from_offered = subst (λ b. Kept (if_here b o) [] 0) (sym gone) none_left;
      bytes = same ∙ sym (append-nil (contents u.tx_rb));
      counted = omega (arith, none);
      seen = ap₂ (λ n b. (n, b)) h.seq h.host;
    }
    | queued there more none ↦ record {
      log = o ∷ [];
      lost = 0;
      from_offered = subst (λ b. Kept (if_here b o) (o ∷ []) 0) (sym there) (kept o none_left);
      bytes = more ∙ ap (λ t. contents u.tx_rb ++ t) (sym (append-nil (wire o)));
      counted = omega (arith, none);
      seen = ap₂ (λ n b. (n, b)) h.seq h.host;
    }
    | dropped there full same one ↦ record {
      log = [];
      lost = 1;
      from_offered = subst (λ b. Kept (if_here b o) [] 1) (sym there) (lose o none_left);
      bytes = same ∙ sym (append-nil (contents u.tx_rb));
      counted = omega (arith, one);
      seen = ap₂ (λ n b. (n, b)) h.seq h.host;
    }
  ]

  -- An event that asks for nothing, and sends no byte of its own.
  quiet-Steps :
      (u u' : State w rb) (sent : List ℕ) (v : View)
      → u.stat_rx_drops < 2 ^ 32
      → sent ++ contents u'.tx_rb ≡ contents u.tx_rb
      → u'.stat_rx_drops ≡ u.stat_rx_drops
      → (u'.tx_seq, u'.connected) ≡ v
      → Steps u [] v (u', sent)
  quiet-Steps u u' sent v small same none seen = record {
    log = [];
    lost = 0;
    from_offered = none_left;
    bytes = same ∙ sym (append-nil (contents u.tx_rb));
    counted = omega (arith, none);
    seen = seen;
  }

  abbrev greet : State w rb → State w rb
  greet u = record (send_hello w rb (record u { connected = true })) { rx_irq = true }

  host_comes : (u : State w rb) → u.connected ≡ false → on_line_state w rb u true ≡ greet u
  unfolding on_line_state
  host_comes u gone = ap (λ b. if b then u else greet u) gone

  greeting-Steps :
      (u : State w rb)
      → u.stat_rx_drops < 2 ^ 32
      → Steps u (hello_message w u.tx_seq ∷ []) ((u.tx_seq + 1) % 256, true) (greet u, [])
  unfolding send_hello
  greeting-Steps u small =
      let v : State w rb = record u { connected = true } in
      let greeted =
        push_positive-Sent w rb rl (next_seq w rb v) _ (hello_wire w rb wl rl u.tx_seq)
          (hello_encoded w rb wl rl u.tx_seq) (hello_wire-nonempty w rb wl rl u.tx_seq) in
      Sent-Steps u true (hello_message w u.tx_seq) _ small (listening-Sent w rb rl _ _ _ greeted)

  line_state-Steps :
      (u : State w rb) (here dtr : Bool)
      → u.stat_rx_drops < 2 ^ 32
      → u.connected ≡ here
      → let (v, os) = asked w rb (u.tx_seq, here) (usbd_message (control_line_state dtr)) in
        Steps u os v (on_line_state w rb u dtr, [])
  unfolding on_line_state
  line_state-Steps u true true small h =
      subst (λ x. Steps u [] (u.tx_seq, true) (x, [])) (sym (connected_again w rb wl rl u h))
        (quiet-Steps u u [] (u.tx_seq, true) small refl refl (ap (λ b. (u.tx_seq, b)) h))
  line_state-Steps u false true small h =
      subst (λ x. Steps u (hello_message w u.tx_seq ∷ []) ((u.tx_seq + 1) % 256, true) (x, []))
        (sym (host_comes u h)) (greeting-Steps u small)
  line_state-Steps u true false small h =
      quiet-Steps u (record u { connected = false }) [] (u.tx_seq, false) small refl refl refl
  line_state-Steps u false false small h =
      quiet-Steps u (record u { connected = false }) [] (u.tx_seq, false) small refl refl refl

  pub usb_step_moves :
      (u : State w rb) (e : Event w rb)
      → u.stat_rx_drops < 2 ^ 32
      → InChunks w rb e
      → let (v, os) = asked w rb (u.tx_seq, u.connected) e in
        Steps u os v (step w rb can_detect_vbus u e)
  unfolding step usbd_msg_cb
  usb_step_moves u (sending s) small fine =
      Sent-Steps u u.connected (message w u.tx_seq s) _ small (send-Sent u s)
  usb_step_moves u (interrupt ps) small fine =
      let same = cdc_isr-SameSender w rb rl ps u in
      quiet-Steps u (cdc_isr w rb u ps).0 (cdc_isr w rb u ps).1 (u.tx_seq, u.connected) small
        (cdc_isr-in_order w rb rl ps u fine) same.drops (ap₂ (λ n b. (n, b)) same.seq same.host)
  usb_step_moves u (usbd_message vbus_ready) small fine =
      quiet-Steps u u [] (u.tx_seq, u.connected) small refl refl refl
  usb_step_moves u (usbd_message vbus_removed) small fine =
      quiet-Steps u u [] (u.tx_seq, u.connected) small refl refl refl
  usb_step_moves u (usbd_message other_msg) small fine =
      quiet-Steps u u [] (u.tx_seq, u.connected) small refl refl refl
  usb_step_moves u (usbd_message (control_line_state dtr)) small fine =
      line_state-Steps u u.connected dtr small refl

  pub usb_asked_fits : (v : View) (e : Event w rb) → All FitsWire (asked w rb v e).1
  usb_asked_fits (seq, true) (sending s) = (message-FitsWire w wl seq s, tt)
  usb_asked_fits (seq, false) (sending s) = tt
  usb_asked_fits (seq, here) (interrupt ps) = tt
  usb_asked_fits (seq, here) (usbd_message vbus_ready) = tt
  usb_asked_fits (seq, here) (usbd_message vbus_removed) = tt
  usb_asked_fits (seq, here) (usbd_message other_msg) = tt
  usb_asked_fits (seq, true) (usbd_message (control_line_state true)) = tt
  usb_asked_fits (seq, false) (usbd_message (control_line_state true)) =
      (hello-FitsWire w wl seq, tt)
  usb_asked_fits (seq, true) (usbd_message (control_line_state false)) = tt
  usb_asked_fits (seq, false) (usbd_message (control_line_state false)) = tt

  abbrev pub usb_sender_laws : SenderLaws w wl (usb_sender w rb can_detect_vbus)
  usb_sender_laws = record {
    queue = queue;
    IsFine = InChunks w rb;
    step_moves = usb_step_moves;
    asked_fits = usb_asked_fits;
  }

  -- The sender refines a channel to a host that comes and goes. For any sends, interrupts in which
  -- the FIFO takes whole chunks, and messages of the USB stack, from a link with nothing queued and a
  -- drop counter below 2 ^ 32: a host's idle parser, fed the bytes that were sent and those still
  -- queued, delivers a HELLO for each time that the host came and the messages sent while it was
  -- there, in order and under the sequence numbers that `tx_seq` counts, which has counted the sends
  -- without a host too, without those that the drop counter, modulo 2 ^ 32, counts as lost, and is
  -- idle again.
  pub run-Heard :
      (es : List (Event w rb)) (u : State w rb) (host : Parser w.Decoder)
      → u.stat_rx_drops < 2 ^ 32
      → All (InChunks w rb) es
      → contents u.tx_rb ≡ []
      → IsIdle w host
      → Heard w wl (usb_sender w rb can_detect_vbus) usb_sender_laws u es host
  run-Heard es u host small fine before idle =
      run_events-Heard w wl (usb_sender w rb can_detect_vbus) usb_sender_laws es u host small fine
        before idle
