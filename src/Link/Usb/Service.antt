-- ===== src/Link/Usb/Service.antt =====
-- What the rounds of the USB device's interrupt handler leave of the sender.
use pcan_alterative.Base.{◌≡◌, refl, ◌∙◌, ap, List, [], ◌∷◌, ◌++◌, ℕ}
use pcan_alterative.Base.{Option, none, some, All, append_assoc, inl}
use pcan_alterative.Zephyr.{Wire}
use pcan_alterative.Zephyr.RingBuf.{RingBuf, RingBufLaws}
use pcan_alterative.Link.Ring.{tx_service-in_order}
use pcan_alterative.Link.Uart.Service.{NoneOrChunk}
use pcan_alterative.Link.Usb.{State, Pass, rx_branch, tx_branch, cdc_isr}

module _ (w : Wire) (rb : RingBuf) where
  abbrev pub TakesChunk : Pass w rb → Type 0
  TakesChunk p = NoneOrChunk p.tx_ready

  -- What the sending functions depend on, other than the ring.
  pub record SameSender (u u' : State w rb) : Type 0 where
    pub seq : u'.tx_seq ≡ u.tx_seq
    pub drops : u'.stat_rx_drops ≡ u.stat_rx_drops
    pub host : u'.connected ≡ u.connected

module _ (w : Wire) (rb : RingBuf) (rl : RingBufLaws rb) where
  open rl use {contents}

  rx_branch-tx_rb : (u : State w rb) (r : Option (List ℕ)) → (rx_branch w rb u r).0.tx_rb ≡ u.tx_rb
  unfolding rx_branch
  rx_branch-tx_rb u none = refl
  rx_branch-tx_rb u (some bytes) = refl

  rx_branch-SameSender :
      (u : State w rb) (r : Option (List ℕ)) → SameSender w rb u (rx_branch w rb u r).0
  unfolding rx_branch
  rx_branch-SameSender u none = record { seq = refl; drops = refl; host = refl }
  rx_branch-SameSender u (some bytes) = record { seq = refl; drops = refl; host = refl }

  tx_branch-SameSender : (u : State w rb) (t : Option ℕ) → SameSender w rb u (tx_branch w rb u t).0
  unfolding tx_branch
  tx_branch-SameSender u none = record { seq = refl; drops = refl; host = refl }
  tx_branch-SameSender u (some n) = record { seq = refl; drops = refl; host = refl }

  tx_branch-in_order :
      (u : State w rb) (t : Option ℕ)
      → NoneOrChunk t
      → let (u', sent) = tx_branch w rb u t in sent ++ contents u'.tx_rb ≡ contents u.tx_rb
  unfolding tx_branch
  tx_branch-in_order u none h = refl
  tx_branch-in_order u (some n) h = tx_service-in_order rb rl u.tx_rb n (inl h)

  -- Any number of rounds of the interrupt handler in which the FIFO takes whole chunks: the bytes
  -- sent, followed by the bytes still queued, are the bytes that were queued.
  pub cdc_isr-in_order :
      (ps : List (Pass w rb)) (u : State w rb)
      → All (TakesChunk w rb) ps
      → let (u', sent, requests) = cdc_isr w rb u ps in sent ++ contents u'.tx_rb ≡ contents u.tx_rb
  unfolding cdc_isr
  cdc_isr-in_order [] u h = refl
  cdc_isr-in_order (p ∷ ps) u (h, hs) =
      let v = (rx_branch w rb u p.rx_ready).0 in
      let (u', sent) = tx_branch w rb v p.tx_ready in
      let (u'', more, requests) = cdc_isr w rb u' ps in
      append_assoc sent more (contents u''.tx_rb)
      ∙ ap (λ t. sent ++ t) (cdc_isr-in_order ps u' hs)
      ∙ tx_branch-in_order v p.tx_ready h
      ∙ ap contents (rx_branch-tx_rb u p.rx_ready)

  pub cdc_isr-SameSender :
      (ps : List (Pass w rb)) (u : State w rb) → SameSender w rb u (cdc_isr w rb u ps).0
  unfolding cdc_isr
  cdc_isr-SameSender [] u = record { seq = refl; drops = refl; host = refl }
  cdc_isr-SameSender (p ∷ ps) u =
      let v = (rx_branch w rb u p.rx_ready).0 in
      let u' = (tx_branch w rb v p.tx_ready).0 in
      let a = rx_branch-SameSender u p.rx_ready in
      let b = tx_branch-SameSender v p.tx_ready in
      let c = cdc_isr-SameSender ps u' in
      record {
        seq = c.seq ∙ b.seq ∙ a.seq;
        drops = c.drops ∙ b.drops ∙ a.drops;
        host = c.host ∙ b.host ∙ a.host;
      }
