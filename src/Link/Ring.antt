-- ===== src/Link/Ring.antt =====
-- What the two transports do with their outgoing ring, by the same statements.
use pcan_alterative.Base.{ℕ, ◌+◌, ◌≤◌, ◌<◌, ◌≡◌, ◌∙◌, ap, Bool, true, false, List, [], ◌++◌}
use pcan_alterative.Base.{length, take, drop, ltb, ◌==◌, if◌then◌else◌, arith}
use pcan_alterative.Base.{take-all, length-take, length-drop, take-append-drop, min}
use pcan_alterative.Base.{
  ge→ltb, lt→ltb, ne→==, ◌-◌, length-append, ◌⊎◌, inl, inr, ap₂, drop-all, nil_of_length, take-take,
  Bool-cases,
}
use pcan_alterative.Zephyr.RingBuf.{RingBuf, RingBufLaws}

abbrev pub isr_chunk : ℕ
isr_chunk = 64

module _ (rb : RingBuf) where
  -- The part of `tx_push` under the lock, and the check of what was stored: whether all went in.
  unfoldable pub push_all : rb.Ring → List ℕ → rb.Ring × Bool
  push_all r wire =
      let (r', wrote) = rb.put r wire in
      if ltb (rb.space_get r) (length wire) then (r, false) else (r', wrote == length wire)

  -- The TX branch of the interrupt handler. `accepts` is how many bytes `uart_fifo_fill` takes of
  -- those that it is offered; what it does not take is put back into the ring. The result is the
  -- new ring, the bytes that have been sent, and whether the TX interrupt stays enabled.
  unfoldable pub tx_service : rb.Ring → ℕ → rb.Ring × List ℕ × Bool
  tx_service r accepts =
      let (r', buf) = rb.get r isr_chunk in
      let sent = min accepts (length buf) in
      if length buf == 0
      then (r', [], false)
      else if ltb sent (length buf)
      then ((rb.put r' (drop sent buf)).0, take sent buf, true)
      else (r', buf, true)

module _ (rb : RingBuf) (laws : RingBufLaws rb) where
  open laws use {contents, capacity, bounded, space, put_stores, put_count, get_takes, get_leaves}
  open laws use {get_capacity}

  -- A frame goes into the ring whole and behind what is there, if there is room, and else the ring
  -- is left as it was: no part of a frame is ever queued.
  pub push_all-whole :
      (r : rb.Ring) (wire : List ℕ)
      → (length (contents r) + length wire ≤ capacity r
          → ((push_all rb r wire).1 ≡ true)
            × (contents (push_all rb r wire).0 ≡ contents r ++ wire))
        × (capacity r < length (contents r) + length wire → push_all rb r wire ≡ (r, false))
  unfolding push_all
  push_all-whole r wire = (
    λ fits. rw (ge→ltb (rb.space_get r) (length wire) (omega (arith, space r))) (
      ground (arith, put_count r wire, space r),
      put_stores r wire
          ∙ ap (λ t. contents r ++ t) (take-all (rb.space_get r) wire (omega (arith, space r))),
    ),
    λ full. rw (lt→ltb (rb.space_get r) (length wire) (omega (arith, space r))),
  )

  offered : (r : rb.Ring) → length (rb.get r isr_chunk).1 ≡ min isr_chunk (length (contents r))
  offered r = ap length (get_takes r isr_chunk) ∙ length-take isr_chunk (contents r)

  -- What the FIFO has not taken of a chunk goes behind the rest of the ring.
  put_back :
      (r : rb.Ring) (n : ℕ)
      → contents (rb.put (rb.get r isr_chunk).0 (drop n (rb.get r isr_chunk).1)).0
        ≡ drop isr_chunk (contents r) ++ drop n (take isr_chunk (contents r))
  put_back r n =
      let r' = (rb.get r isr_chunk).0 in
      let tail = drop n (rb.get r isr_chunk).1 in
      put_stores r' tail
      ∙ ap (λ t. contents r' ++ t)
          (take-all (rb.space_get r') tail (
            omega (
              arith,
              space r',
              get_capacity r isr_chunk,
              ap length (get_leaves r isr_chunk),
              length-drop isr_chunk (contents r),
              offered r,
              length-drop n (rb.get r isr_chunk).1,
              bounded r,
            )))
      ∙ ap₂ (λ s t. s ++ drop n t) (get_leaves r isr_chunk) (get_takes r isr_chunk)

  -- When the FIFO takes all that it is offered, or the ring holds no more than one chunk, the bytes
  -- sent and the bytes still queued are the bytes that were queued, in their order.
  pub tx_service-in_order :
      (r : rb.Ring) (accepts : ℕ)
      → (isr_chunk ≤ accepts) ⊎ (length (contents r) ≤ isr_chunk)
      → let (r', sent, enabled) = tx_service rb r accepts in sent ++ contents r' ≡ contents r
  unfolding tx_service
  tx_service-in_order r accepts h =
      let c = contents r in
      let buf = (rb.get r isr_chunk).1 in
      let whole = take-append-drop isr_chunk c in
      elim (Bool-cases (length buf == 0)) [
        | inl empty ↦ rw empty (
            get_leaves r isr_chunk
            ∙ cc (whole, nil_of_length (take isr_chunk c) (ground (arith, get_takes r isr_chunk))))
        | inr some_bytes ↦ elim (Bool-cases (ltb (min accepts (length buf)) (length buf))) [
          | inr all ↦
              rw (some_bytes, all)
                (ap₂ (λ s t. s ++ t) (get_takes r isr_chunk) (get_leaves r isr_chunk) ∙ whole)
          | inl short ↦
              let n = min accepts (length buf) in
              let few : length c ≤ isr_chunk = ground (arith, offered r) in
              rw (some_bytes, short)
                (ap₂ (λ s t. s ++ t) (ap (take n) (get_takes r isr_chunk)) (put_back r n)
                  ∙ ap (λ t. take n (take isr_chunk c) ++ (t ++ drop n (take isr_chunk c)))
                      (drop-all isr_chunk c few)
                  ∙ take-append-drop n (take isr_chunk c)
                  ∙ take-all isr_chunk c few)
        ]
      ]

  -- When the FIFO takes less than a chunk while more than a chunk is queued, the rest of the chunk
  -- is queued again behind the bytes that were to follow it.
  pub tx_service-reorders :
      (r : rb.Ring) (accepts : ℕ)
      → accepts < isr_chunk
      → isr_chunk < length (contents r)
      → let (r', sent, enabled) = tx_service rb r accepts in
        (sent ≡ take accepts (contents r))
        × (contents r' ≡ drop isr_chunk (contents r) ++ drop accepts (take isr_chunk (contents r)))
  unfolding tx_service
  tx_service-reorders r accepts h more =
      let buf = (rb.get r isr_chunk).1 in
      let n : min accepts (length buf) ≡ accepts = omega (arith, offered r) in
      rw
        (
          ne→== (length buf) 0 (omega (arith, offered r)),
          n,
          lt→ltb accepts (length buf) (omega (arith, offered r)),
        )
        (
          ap (take accepts) (get_takes r isr_chunk)
              ∙ take-take accepts isr_chunk (contents r) (omega arith),
          put_back r accepts,
        )

  -- A round in which the FIFO takes a byte leaves at least one byte fewer, unless there are none.
  pub tx_service-progress :
      (r : rb.Ring) (accepts : ℕ)
      → 0 < accepts
      → length (contents (tx_service rb r accepts).0) ≤ length (contents r) - 1
  unfolding tx_service
  tx_service-progress r accepts h =
      let c = contents r in
      let (r', buf) = rb.get r isr_chunk in
      let left = ap length (get_leaves r isr_chunk) in
      let count = length-drop isr_chunk c in
      elim (Bool-cases (length buf == 0)) [
        | inl empty ↦ rw empty (ground (arith, left, count, offered r))
        | inr some_bytes ↦ elim (Bool-cases (ltb (min accepts (length buf)) (length buf))) [
          | inr all ↦ rw (some_bytes, all) (ground (arith, left, count, offered r))
          | inl short ↦
              let n = min accepts (length buf) in
              let tail = drop n (take isr_chunk c) in
              rw (some_bytes, short)
                (ground (
                  arith,
                  ap length (put_back r n),
                  length-append (drop isr_chunk c) tail,
                  count,
                  length-drop n (take isr_chunk c),
                  length-take isr_chunk c,
                  offered r,
                ))
        ]
      ]
