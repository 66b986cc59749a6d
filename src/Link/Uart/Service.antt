-- ===== src/Link/Uart/Service.antt =====
-- What the rounds of the UART's interrupt handler make of the outgoing ring.
use pcan_alterative.Base.{ℕ, ◌-◌, ◌≤◌, ◌<◌, ◌≡◌, refl, ◌∙◌, ap, List, [], ◌∷◌, ◌++◌}
use pcan_alterative.Base.{Option, none, some, All, length, arith, append_assoc, inl, nil_of_length}
use pcan_alterative.Zephyr.{Wire}
use pcan_alterative.Zephyr.RingBuf.{RingBuf, RingBufLaws}
use pcan_alterative.Link.Ring.{isr_chunk, tx_service-in_order, tx_service-progress}
use pcan_alterative.Link.Uart.{State, Pass, rx_branch, rx_service, tx_branch, uart_isr}

-- The FIFO is not ready, or takes a whole chunk.
abbrev pub NoneOrChunk : Option ℕ → Type 0
NoneOrChunk none = Unit
NoneOrChunk (some accepts) = isr_chunk ≤ accepts

-- The FIFO is ready and takes at least a byte.
abbrev pub AtLeastByte : Option ℕ → Type 0
AtLeastByte none = ⊥
AtLeastByte (some accepts) = 0 < accepts

abbrev pub TakesChunk : Pass → Type 0
TakesChunk p = NoneOrChunk p.tx_ready

abbrev pub TakesByte : Pass → Type 0
TakesByte p = AtLeastByte p.tx_ready

module _ (w : Wire) (rb : RingBuf) where
  -- What the transmitting functions depend on.
  pub record SameSender (u u' : State w rb) : Type 0 where
    pub seq : u'.tx_seq ≡ u.tx_seq
    pub drops : u'.stat_tx_drops ≡ u.stat_tx_drops

module _ (w : Wire) (rb : RingBuf) (rl : RingBufLaws rb) where
  open rl use {contents}

  rx_branch-tx_rb : (u : State w rb) (r : Option (List ℕ)) → (rx_branch w rb u r).tx_rb ≡ u.tx_rb
  unfolding rx_branch rx_service
  rx_branch-tx_rb u none = refl
  rx_branch-tx_rb u (some []) = refl
  rx_branch-tx_rb u (some (b ∷ bs)) = refl

  rx_branch-SameSender :
      (u : State w rb) (r : Option (List ℕ)) → SameSender w rb u (rx_branch w rb u r)
  unfolding rx_branch rx_service
  rx_branch-SameSender u none = record { seq = refl; drops = refl }
  rx_branch-SameSender u (some []) = record { seq = refl; drops = refl }
  rx_branch-SameSender u (some (b ∷ bs)) = record { seq = refl; drops = refl }

  tx_branch-SameSender : (u : State w rb) (t : Option ℕ) → SameSender w rb u (tx_branch w rb u t).0
  unfolding tx_branch
  tx_branch-SameSender u none = record { seq = refl; drops = refl }
  tx_branch-SameSender u (some n) = record { seq = refl; drops = refl }

  tx_branch-in_order :
      (u : State w rb) (t : Option ℕ)
      → NoneOrChunk t
      → let (u', sent) = tx_branch w rb u t in sent ++ contents u'.tx_rb ≡ contents u.tx_rb
  unfolding tx_branch
  tx_branch-in_order u none h = refl
  tx_branch-in_order u (some n) h = tx_service-in_order rb rl u.tx_rb n (inl h)

  -- Any number of rounds of the interrupt handler in which the FIFO takes whole chunks: the bytes
  -- sent, followed by the bytes still queued, are the bytes that were queued.
  pub uart_isr-in_order :
      (ps : List Pass) (u : State w rb)
      → All TakesChunk ps
      → let (u', sent) = uart_isr w rb u ps in sent ++ contents u'.tx_rb ≡ contents u.tx_rb
  unfolding uart_isr
  uart_isr-in_order [] u h = refl
  uart_isr-in_order (p ∷ ps) u (h, hs) =
      let v = rx_branch w rb u p.rx_ready in
      let (u', sent) = tx_branch w rb v p.tx_ready in
      let (u'', more) = uart_isr w rb u' ps in
      append_assoc sent more (contents u''.tx_rb)
      ∙ ap (λ t. sent ++ t) (uart_isr-in_order ps u' hs)
      ∙ tx_branch-in_order v p.tx_ready h
      ∙ ap contents (rx_branch-tx_rb u p.rx_ready)

  pub uart_isr-SameSender :
      (ps : List Pass) (u : State w rb) → SameSender w rb u (uart_isr w rb u ps).0
  unfolding uart_isr
  uart_isr-SameSender [] u = record { seq = refl; drops = refl }
  uart_isr-SameSender (p ∷ ps) u =
      let v = rx_branch w rb u p.rx_ready in
      let u' = (tx_branch w rb v p.tx_ready).0 in
      let a = rx_branch-SameSender u p.rx_ready in
      let b = tx_branch-SameSender v p.tx_ready in
      let c = uart_isr-SameSender ps u' in
      record { seq = c.seq ∙ b.seq ∙ a.seq; drops = c.drops ∙ b.drops ∙ a.drops }

  tx_branch-progress :
      (u : State w rb) (t : Option ℕ)
      → AtLeastByte t
      → length (contents (tx_branch w rb u t).0.tx_rb) ≤ length (contents u.tx_rb) - 1
  unfolding tx_branch
  tx_branch-progress u none h = absurd h
  tx_branch-progress u (some n) h = tx_service-progress rb rl u.tx_rb n h

  -- The outgoing ring is emptied: as many rounds of the interrupt handler as there are bytes queued
  -- are enough if the FIFO takes at least one byte in each of them, whatever is received meanwhile.
  pub uart_isr-empties :
      (ps : List Pass) (u : State w rb)
      → All TakesByte ps
      → length (contents u.tx_rb) ≤ length ps
      → contents (uart_isr w rb u ps).0.tx_rb ≡ []
  unfolding uart_isr
  uart_isr-empties [] u h few = nil_of_length (contents u.tx_rb) (omega arith)
  uart_isr-empties (p ∷ ps) u (h, hs) few =
      let v = rx_branch w rb u p.rx_ready in
      uart_isr-empties ps (tx_branch w rb v p.tx_ready).0 hs (
        omega (
          arith,
          tx_branch-progress v p.tx_ready h,
          ap (λ r. length (contents r)) (rx_branch-tx_rb u p.rx_ready),
        ))
