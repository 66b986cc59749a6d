-- ===== src/Link/Uart/Refine.antt =====
-- The UART link's sender as a channel of messages: whatever sends and interrupts come in which
-- order, what goes out is a sequence of whole messages.
use pcan_alterative.Base.{ℕ, ◌+◌, ◌%◌, ◌^◌, ◌<◌, ◌≡◌, ◌∙◌, ap, sym, List, [], ◌∷◌, ◌++◌}
use pcan_alterative.Base.{All, append-nil, arith}
use pcan_alterative.Base.Kept.{none_left, kept, lose}
use pcan_alterative.Zephyr.{Wire, WireLaws}
use pcan_alterative.Zephyr.RingBuf.{RingBuf, RingBufLaws}
use pcan_alterative.Clp.Encode.Framing.{wire_of}
use pcan_alterative.Clp.Parser.{Parser}
use pcan_alterative.Clp.Parser.Stream.{Outgoing, FitsWire, IsIdle}
use pcan_alterative.Link.Sender.{
  Sender, SenderLaws, Moves, MovesBy, Heard, run_events, messages_offered, run_events-MovesBy,
  run_events-Heard,
}
use pcan_alterative.Link.Uart.{State, Pass, uart_isr}
use pcan_alterative.Link.Uart.Channel.{
  Send, message, send, message-FitsWire, queued, dropped, SentMessage, send-Sent,
}
use pcan_alterative.Link.Uart.Service.{TakesChunk, uart_isr-in_order, uart_isr-SameSender}

-- What happens to the sender.
pub data Event : Type 0 where
  sending : Send → Event
  interrupt : List Pass → Event

-- Every interrupt finds a FIFO that takes whole chunks.
abbrev pub InChunks : Event → Type 0
InChunks (sending s) = Unit
InChunks (interrupt ps) = All TakesChunk ps

-- A call asks for one message, under the number that `tx_seq` then has.
abbrev pub asked : Wire → ℕ → Event → ℕ × List Outgoing
asked w seq (sending s) = ((seq + 1) % 256, message w seq s ∷ [])
asked w seq (interrupt ps) = (seq, [])

module _ (w : Wire) (rb : RingBuf) where
  -- The state after one event, and the bytes that it has sent.
  unfoldable pub step : State w rb → Event → State w rb × List ℕ
  step u (sending s) = (send w rb u s, [])
  step u (interrupt ps) = uart_isr w rb u ps

  abbrev pub uart_sender : Sender
  uart_sender = record {
    State = State w rb;
    View = ℕ;
    Event = Event;
    step = step;
    view = λ u. u.tx_seq;
    asked = asked w;
    drops = λ u. u.stat_tx_drops;
  }

  abbrev pub run : State w rb → List Event → State w rb × List ℕ
  run u es = run_events uart_sender u es

  -- The messages that the events are to send, numbered as `tx_seq` counts.
  abbrev pub offered : ℕ → List Event → List Outgoing
  offered seq es = messages_offered uart_sender seq es

module _ (w : Wire) (rb : RingBuf) (wl : WireLaws w) (rl : RingBufLaws rb) where
  open rl use {contents}

  abbrev pub queue : State w rb → List ℕ
  queue u = contents u.tx_rb

  abbrev pub Steps : State w rb → List Outgoing → ℕ → State w rb × List ℕ → Type 0
  Steps u os seq result = Moves w wl (uart_sender w rb) queue u os seq result

  sent-Steps :
      (u : State w rb) (o : Outgoing) (u' : State w rb)
      → u.stat_tx_drops < 2 ^ 32
      → SentMessage w rb wl rl u o u'
      → Steps u (o ∷ []) ((u.tx_seq + 1) % 256) (u', [])
  sent-Steps u o u' small (queued more same seq) = record {
    log = o ∷ [];
    lost = 0;
    from_offered = kept o none_left;
    bytes =
        more
        ∙ ap (λ t. contents u.tx_rb ++ t) (sym (append-nil (wire_of w wl o.type o.seq o.payload)));
    counted = omega (arith, same);
    seen = seq;
  }
  sent-Steps u o u' small (dropped full more inc seq) = record {
    log = [];
    lost = 1;
    from_offered = lose o none_left;
    bytes = more ∙ sym (append-nil (contents u.tx_rb));
    counted = omega (arith, inc);
    seen = seq;
  }

  pub uart_step_moves :
      (u : State w rb) (e : Event)
      → u.stat_tx_drops < 2 ^ 32
      → InChunks e
      → let (seq, os) = asked w u.tx_seq e in Steps u os seq (step w rb u e)
  unfolding step
  uart_step_moves u (sending s) small fine =
      sent-Steps u (message w u.tx_seq s) (send w rb u s) small (send-Sent w rb wl rl u s)
  uart_step_moves u (interrupt ps) small fine =
      let same = uart_isr-SameSender w rb rl ps u in
      record {
        log = [];
        lost = 0;
        from_offered = none_left;
        bytes = uart_isr-in_order w rb rl ps u fine ∙ sym (append-nil (contents u.tx_rb));
        counted = omega (arith, same.drops);
        seen = same.seq;
      }

  pub uart_asked_fits : (seq : ℕ) (e : Event) → All FitsWire (asked w seq e).1
  uart_asked_fits seq (sending s) = (message-FitsWire w wl seq s, tt)
  uart_asked_fits seq (interrupt ps) = tt

  abbrev pub uart_sender_laws : SenderLaws w wl (uart_sender w rb)
  uart_sender_laws = record {
    queue = queue;
    IsFine = InChunks;
    step_moves = uart_step_moves;
    asked_fits = uart_asked_fits;
  }

  -- The bytes sent and those still queued are what was queued, then the encodings of the messages
  -- in the log; the log has all the messages but those that the drop counter counts.
  abbrev pub Channel : State w rb → List Event → State w rb × List ℕ → Type 0
  Channel u es result = MovesBy w wl (uart_sender w rb) uart_sender_laws u es result

  -- The sender refines a channel of messages. For any sequence of sends and interrupts in which the
  -- FIFO takes whole chunks, the bytes sent and then those still queued are what was queued before,
  -- followed by the whole encodings of a sublist of the messages offered, in their order and under
  -- consecutive sequence numbers; the messages that it lacks are as many as the drop counter, below
  -- 2 ^ 32, has grown by, modulo 2 ^ 32, and the sequence number has counted every one offered.
  pub run-Channel :
      (es : List Event) (u : State w rb)
      → u.stat_tx_drops < 2 ^ 32
      → All InChunks es
      → Channel u es (run w rb u es)
  run-Channel es u small fine =
      run_events-MovesBy w wl (uart_sender w rb) uart_sender_laws es u small fine

  -- What the host's parser has delivered, and what is missing.
  abbrev pub Delivered : State w rb → List Event → Parser w.Decoder → Type 0
  Delivered u es host = Heard w wl (uart_sender w rb) uart_sender_laws u es host

  -- From the sender to the host: if nothing is queued before the events, the host's idle parser,
  -- fed the bytes that were sent and those still queued, delivers the messages that were offered, in
  -- order, without those that were dropped, and is idle again.
  pub run-Delivered :
      (es : List Event) (u : State w rb) (host : Parser w.Decoder)
      → u.stat_tx_drops < 2 ^ 32
      → All InChunks es
      → contents u.tx_rb ≡ []
      → IsIdle w host
      → Delivered u es host
  run-Delivered es u host small fine before idle =
      run_events-Heard w wl (uart_sender w rb) uart_sender_laws es u host small fine before idle
