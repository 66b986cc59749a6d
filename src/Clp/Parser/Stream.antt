-- ===== src/Clp/Parser/Stream.antt =====
-- Whole streams: every frame of a well-formed stream is delivered, also after garbage.
use pcan_alterative.Base.{ℕ, ◌≤◌, ◌≡◌, refl, ◌∙◌, ap, sym, true, false, List, []}
use pcan_alterative.Base.{◌∷◌, ◌++◌, Option, none, some, map, flatten, length, arith, All}
use pcan_alterative.Base.{append_assoc}
use pcan_alterative.Zephyr.{Wire, WireLaws, EndsFrame, Decodes}
use pcan_alterative.Clp.Types.{clp_max_payload, MsgType, code}
use pcan_alterative.Clp.Encode.{logical_frame}
use pcan_alterative.Clp.Encode.Framing.{length-logical_frame, wire_of}
use pcan_alterative.Clp.Parser.{
  Message, Receiver, Parser, inc32, clp_cobs_cb, cobs_calls, feed_byte, clp_parser_feed,
}
use pcan_alterative.Clp.Parser.Delivery.{
  cobs_calls-append, cobs_calls-pieces, feed-decode_run, dispatch-logical_frame,
}

-- Between two frames, with a callback registered.
pub record IsIdle (w : Wire) (p : Parser w.Decoder) : Type 0 where
  pub at_start : p.dec ≡ w.decoder_init
  pub no_bytes : p.frame ≡ []
  pub no_overflow : p.overflow ≡ false
  pub listening : p.has_cb ≡ true

abbrev pub counted : {D : Type 0} → Parser D → Parser D
counted p = record p { rx = record p.rx { frames_ok = inc32 p.frames_ok } }

-- A message as its sender has it.
pub record Outgoing : Type 0 where
  pub type : MsgType
  pub seq : ℕ
  pub payload : List ℕ

abbrev pub FitsWire : Outgoing → Type 0
FitsWire o = length o.payload ≤ clp_max_payload

abbrev pub received : Outgoing → Message
received o = record { type = code o.type; seq = o.seq; payload = o.payload }

counted-IsIdle : (w : Wire) (p : Parser w.Decoder) → IsIdle w p → IsIdle w (counted p)
counted-IsIdle w p i = record {
  at_start = i.at_start;
  no_bytes = i.no_bytes;
  no_overflow = i.no_overflow;
  listening = i.listening;
}

module _ (w : Wire) (laws : WireLaws w) where
  -- The callback calls for one frame deliver its message.
  calls-logical_frame :
      (type seq : ℕ) (payload : List ℕ) (pieces : List (List ℕ)) (c : Receiver)
      → length payload ≤ clp_max_payload
      → flatten pieces ≡ logical_frame w type seq payload
      → c.frame ≡ []
      → c.overflow ≡ false
      → c.has_cb ≡ true
      → cobs_calls w c (map some pieces ++ (none ∷ [])) ≡ (
        record c { frames_ok = inc32 c.frames_ok },
        record { type = type; seq = seq; payload = payload } ∷ [],
      )
  unfolding cobs_calls clp_cobs_cb
  calls-logical_frame type seq payload pieces c h hp hf ho hc =
      let c' : Receiver = record c { frame = c.frame ++ flatten pieces } in
      ground (
        arith,
        cobs_calls-append w c (map some pieces) (none ∷ []),
        cobs_calls-pieces w pieces c,
        dispatch-logical_frame w laws.order_laws type seq payload c',
        length-logical_frame w type seq payload laws.order_laws,
      )

  feed-wire :
      (type seq : ℕ) (payload wire : List ℕ) (c : Receiver)
      → Decodes w (logical_frame w type seq payload) wire
      → length payload ≤ clp_max_payload
      → c.frame ≡ []
      → c.overflow ≡ false
      → c.has_cb ≡ true
      → clp_parser_feed w (record { dec = w.decoder_init; rx = c }) wire ≡ (
        record { dec = w.decoder_init; rx = record c { frames_ok = inc32 c.frames_ok } },
        record { type = type; seq = seq; payload = payload } ∷ [],
      )
  feed-wire type seq payload wire c d hp hf ho hc =
      feed-decode_run w wire w.decoder_init c (ap (λ r. r.2) d.run_ok)
      ∙ ap (λ r. (record { dec = r.0; rx = (cobs_calls w c r.1).0 }, (cobs_calls w c r.1).1))
          d.run_ok
      ∙ ap (λ r. (record { dec = w.decoder_init; rx = r.0 }, r.1))
          (calls-logical_frame type seq payload d.pieces c hp d.all_of hf ho hc)

  -- An idle parser that is fed the encoding of one message counts it, hands it to the callback, and
  -- is idle again.
  pub feed-wire_of :
      (p : Parser w.Decoder) (type : MsgType) (seq : ℕ) (payload : List ℕ)
      → IsIdle w p
      → length payload ≤ clp_max_payload
      → clp_parser_feed w p (wire_of w laws type seq payload)
        ≡ (counted p, record { type = code type; seq = seq; payload = payload } ∷ [])
  feed-wire_of p type seq payload i hp =
      let l = logical_frame w (code type) seq payload in
      ap (λ d. clp_parser_feed w (record { dec = d; rx = p.rx }) (wire_of w laws type seq payload))
        i.at_start
      ∙ feed-wire (code type) seq payload _ p.rx
          (laws.cobs_laws.decodes l
            (omega (arith, length-logical_frame w (code type) seq payload laws.order_laws)))
          hp i.no_bytes i.no_overflow i.listening
      ∙ ap
          (λ d. (
            record { dec = d; rx = record p.rx { frames_ok = inc32 p.frames_ok } },
            record { type = code type; seq = seq; payload = payload } ∷ [],
          ))
          (sym i.at_start)

module _ (w : Wire) where
  pub clp_parser_feed-append :
      (xs ys : List ℕ) (p : Parser w.Decoder)
      → clp_parser_feed w p (xs ++ ys) ≡ (
          let (p', out) = clp_parser_feed w p xs in
          let (p'', more) = clp_parser_feed w p' ys in (p'', out ++ more))
  unfolding clp_parser_feed
  clp_parser_feed-append [] ys p = refl
  clp_parser_feed-append (x ∷ xs) ys p =
      let (p', out) = feed_byte w p x in
      let (q, more) = clp_parser_feed w p' xs in
      ap (λ r. (r.0, out ++ r.1)) (clp_parser_feed-append xs ys p')
      ∙ ap (λ r. ((clp_parser_feed w q ys).0, r))
          (sym (append_assoc out more (clp_parser_feed w q ys).1))

  pub calls-EndsFrame :
      (evs : List (Option (List ℕ))) (c : Receiver)
      → EndsFrame evs
      → ((cobs_calls w c evs).0.frame ≡ []) × ((cobs_calls w c evs).0.overflow ≡ false)
  unfolding cobs_calls clp_cobs_cb
  calls-EndsFrame [] c h = absurd h
  calls-EndsFrame (none ∷ []) c h = (refl, refl)
  calls-EndsFrame (some x ∷ []) c h = absurd h
  calls-EndsFrame (none ∷ f ∷ evs) c h = calls-EndsFrame (f ∷ evs) (clp_cobs_cb w c none).0 h
  calls-EndsFrame (some x ∷ f ∷ evs) c h = calls-EndsFrame (f ∷ evs) (clp_cobs_cb w c (some x)).0 h

module _ (w : Wire) (laws : WireLaws w) where
  -- The bytes that the encoders write for a list of messages.
  abbrev pub wires : List Outgoing → List ℕ
  wires [] = []
  wires (o ∷ os) = wire_of w laws o.type o.seq o.payload ++ wires os

  pub wires-append : (os ps : List Outgoing) → wires (os ++ ps) ≡ wires os ++ wires ps
  wires-append [] ps = refl
  wires-append (o ∷ os) ps =
      let x = wire_of w laws o.type o.seq o.payload in
      ap (λ t. x ++ t) (wires-append os ps) ∙ sym (append_assoc x (wires os) (wires ps))

  -- An idle parser that is fed the encodings of any number of messages with payloads of at most
  -- CLP_MAX_PAYLOAD bytes, one after the other, delivers exactly those messages in their order,
  -- and is idle again.
  pub feed-wires :
      (os : List Outgoing) (p : Parser w.Decoder)
      → IsIdle w p
      → All FitsWire os
      → ((clp_parser_feed w p (wires os)).1 ≡ map received os)
        × IsIdle w (clp_parser_feed w p (wires os)).0
  feed-wires [] p i h = unfold clp_parser_feed in (refl, i)
  feed-wires (o ∷ os) p i (h, hs) =
      let x = wire_of w laws o.type o.seq o.payload in
      let e = feed-wire_of w laws p o.type o.seq o.payload i h in
      let (rest, idle) = feed-wires os (counted p) (counted-IsIdle w p i) hs in
      rw (clp_parser_feed-append w x (wires os) p, e) (ap (λ t. received o ∷ t) rest, idle)
