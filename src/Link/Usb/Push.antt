-- ===== src/Link/Usb/Push.antt =====
-- What the functions that send on USB make of the ring, the counters and the sequence number.
use pcan_alterative.Base.{ℕ, ◌+◌, ◌<◌, ◌≡◌, ◌≢◌, refl, true, false}
use pcan_alterative.Base.{List, [], ◌∷◌, ◌++◌, Result, ok, err, length, arith}
use pcan_alterative.Base.{Bool-cases, inl, inr, ltb}
use pcan_alterative.Zephyr.{Wire}
use pcan_alterative.Zephyr.RingBuf.{RingBuf, RingBufLaws}
use pcan_alterative.Clp.Parser.{inc32}
use pcan_alterative.Link.Ring.{push_all-whole}
use pcan_alterative.Link.Usb.{State, tx_push, push_encoded, count_frame, push_positive}

module _ (w : Wire) (rb : RingBuf) (rl : RingBufLaws rb) where
  open rl use {contents, capacity}

  -- What a send of `wire` makes of the state: nothing without a host; with one, all of it is queued,
  -- or nothing because the ring has no room for it.
  pub data Pushed (u : State w rb) (wire : List ℕ) (u' : State w rb) : Type 0 where
    away :
        u.connected ≡ false
        → contents u'.tx_rb ≡ contents u.tx_rb
        → u'.stat_rx_drops ≡ u.stat_rx_drops
        → Pushed u wire u'
    queued :
        u.connected ≡ true
        → contents u'.tx_rb ≡ contents u.tx_rb ++ wire
        → u'.stat_rx_drops ≡ u.stat_rx_drops
        → Pushed u wire u'
    dropped :
        u.connected ≡ true
        → capacity u.tx_rb < length (contents u.tx_rb) + length wire
        → contents u'.tx_rb ≡ contents u.tx_rb
        → u'.stat_rx_drops ≡ inc32 u.stat_rx_drops
        → Pushed u wire u'

  -- A send keeps the sequence number and the host, which its caller sets.
  pub record Sent (u : State w rb) (wire : List ℕ) (u' : State w rb) : Type 0 where
    pub pushed : Pushed u wire u'
    pub seq : u'.tx_seq ≡ u.tx_seq
    pub host : u'.connected ≡ u.connected

  tx_push-Sent : (u : State w rb) (wire : List ℕ) → Sent u wire (tx_push w rb u wire).0
  unfolding tx_push
  tx_push-Sent u wire =
      let (fits, full) = push_all-whole rb rl u.tx_rb wire in
      elim (Bool-cases u.connected) [
        | inr gone ↦ rw gone (record { pushed = away refl refl refl; seq = refl; host = refl })
        | inl here ↦
            elim (Bool-cases (ltb (capacity u.tx_rb) (length (contents u.tx_rb) + length wire))) [
              | inl lt ↦
                  rw (here, full (ground arith))
                    (record {
                      pushed = dropped refl (ground arith) refl refl;
                      seq = refl;
                      host = refl;
                    })
              | inr ge ↦
                  let (all, more) = fits (ground arith) in
                  rw (here, all)
                    (record { pushed = queued refl more refl; seq = refl; host = refl })
            ]
      ]

  pub push_encoded-Sent :
      (u : State w rb) (result : Result (List ℕ)) (wire : List ℕ)
      → result ≡ ok wire
      → Sent u wire (push_encoded w rb u result).0
  unfolding push_encoded
  push_encoded-Sent u result wire h = rw h (tx_push-Sent u wire)

  pub listening-Sent :
      (u : State w rb) (wire : List ℕ) (u' : State w rb)
      → Sent u wire u'
      → Sent u wire (record u' { rx_irq = true })
  listening-Sent u wire u' h =
      let p : Pushed u wire (record u' { rx_irq = true }) = elim h.pushed [
        | away a b c ↦ away a b c
        | queued a b c ↦ queued a b c
        | dropped a b c d ↦ dropped a b c d
      ] in
      record { pushed = p; seq = h.seq; host = h.host }

  pub count_frame-Sent :
      (u : State w rb) (wire : List ℕ) (u' : State w rb) (result : Result (Unit {0}))
      → Sent u wire u'
      → Sent u wire (count_frame w rb (u', result)).0
  unfolding count_frame
  count_frame-Sent u wire u' (err e) h = h
  count_frame-Sent u wire u' (ok x) h =
      let p : Pushed u wire (record u' { stat_tx_frames = inc32 u'.stat_tx_frames }) =
        elim h.pushed [
          | away a b c ↦ away a b c
          | queued a b c ↦ queued a b c
          | dropped a b c d ↦ dropped a b c d
        ] in
      record { pushed = p; seq = h.seq; host = h.host }

  pub push_positive-Sent :
      (u : State w rb) (result : Result (List ℕ)) (wire : List ℕ)
      → result ≡ ok wire
      → wire ≢ []
      → Sent u wire (push_positive w rb u result)
  unfolding push_positive
  push_positive-Sent u result [] h ne = absurd (ne refl)
  push_positive-Sent u result (b ∷ bs) h ne = rw h (tx_push-Sent u (b ∷ bs))
