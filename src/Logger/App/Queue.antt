-- ===== src/Logger/App/Queue.antt =====
-- The hand-over of frames from the CAN interrupt to the pump thread.
use pcan_alterative.Base.{
  ℕ, ◌+◌, ◌-◌, ◌%◌, ◌^◌, ◌<◌, ◌≤◌, ◌≡◌, refl, ◌∙◌, ap, ap₂, sym, subst, List, [], ◌∷◌, ◌++◌,
}
use pcan_alterative.Base.{
  Option, none, some, leb, ◌==◌, append-nil, append_assoc, Bool-cases, inl, inr, arith, length,
  nil_of_length, map,
}
use pcan_alterative.Base.Kept.{
  Kept, none_left, kept, lose, Kept-append, collect, cons_some, cons_some-append,
}
use pcan_alterative.Zephyr.{Wire}
use pcan_alterative.Zephyr.RingBuf.{RingBuf}
use pcan_alterative.Zephyr.Can.{CanApi, MsgQueue, MsgQueueLaws, first, rest}
use pcan_alterative.Clp.Parser.{inc32}
use pcan_alterative.Logger.CanIface.{CanlogFrame, DriverFrame, CanIface, can_iface_rx_isr}
use pcan_alterative.Logger.App.{
  AppState, Moment, on_can_rx, bus_frame, on_tx_request, send_status, pump_frame, announce,
  pump_status, pump_round,
}
use pcan_alterative.Logger.App.Actions.{
  Happening, arrives, pumps, requests, uart_ready, arrival, happen, work,
}

-- The frames that a `k_msgq_get` takes, and what it leaves.
first-rest {ℓ} : {A : Type ℓ} (xs : List A) → cons_some (first xs) [] ++ rest xs ≡ xs
first-rest [] = refl
first-rest (x ∷ xs) = refl

length-rest {ℓ} : {A : Type ℓ} (xs : List A) → length (rest xs) ≡ length xs - 1
length-rest [] = omega arith
length-rest (x ∷ xs) = omega arith

-- From the queue `q` and the drop counter `d` to `q'` and `d'`: of the frames that have arrived
-- those that were accepted are in the order of their arrival, and the counter has counted the
-- others; what was queued and then accepted is what has been handed on and what is still queued.
pub record Account (arrived q : List CanlogFrame) (d : ℕ) (handed q' : List CanlogFrame) (d' : ℕ)
    : Type 0 where
  pub accepted : List CanlogFrame
  pub lost : ℕ
  pub from_bus : Kept arrived accepted lost
  pub in_order : handed ++ q' ≡ q ++ accepted
  pub counted : d' ≡ (d + lost) % 2 ^ 32

nothing_new :
    (q handed q' : List CanlogFrame) (d : ℕ)
    → d < 2 ^ 32
    → handed ++ q' ≡ q
    → Account [] q d handed q' d
nothing_new q handed q' d small h = record {
  accepted = [];
  lost = 0;
  from_bus = none_left;
  in_order = h ∙ sym (append-nil q);
  counted = omega arith;
}

Account-append :
    {a b q h k q' q'' : List CanlogFrame} {d d' d'' : ℕ}
    → Account a q d h q' d'
    → Account b q' d' k q'' d''
    → Account (a ++ b) q d (h ++ k) q'' d''
Account-append {q = q} {h = h} {k = k} {q' = q'} {q'' = q''} x y = record {
  accepted = x.accepted ++ y.accepted;
  lost = x.lost + y.lost;
  from_bus = Kept-append x.from_bus y.from_bus;
  in_order =
      append_assoc h k q''
      ∙ ap (λ t. h ++ t) y.in_order
      ∙ sym (append_assoc h q' y.accepted)
      ∙ ap (λ t. t ++ y.accepted) x.in_order
      ∙ append_assoc q x.accepted y.accepted;
  counted = omega (arith, x.counted, y.counted);
}

module _ (w : Wire) (rb : RingBuf) (mq : MsgQueue CanlogFrame) (api : CanApi) (c : CanIface)
    (ql : MsgQueueLaws mq) where
  open ql use {queued}

  abbrev St : Type 0
  St = AppState w rb mq api

  abbrev pub Accounts : St → List CanlogFrame → St → List CanlogFrame → Type 0
  Accounts app arrived app' handed =
      Account arrived (queued app.can_rx_msgq) app.stat_rx_msgq_drops handed
        (queued app'.can_rx_msgq) app'.stat_rx_msgq_drops

  on_can_rx-Accounts :
      (app : St) (f : CanlogFrame)
      → app.stat_rx_msgq_drops < 2 ^ 32
      → Accounts app (f ∷ []) (on_can_rx w rb mq api app f) []
  unfolding on_can_rx
  on_can_rx-Accounts app f small = elim (Bool-cases (mq.put app.can_rx_msgq f).1) [
    | inl taken ↦ rw taken (record {
      accepted = f ∷ [];
      lost = 0;
      from_bus = kept f none_left;
      in_order = ql.put_taken app.can_rx_msgq f taken;
      counted = omega arith;
    })
    | inr full ↦ rw full (record {
      accepted = [];
      lost = 1;
      from_bus = lose f none_left;
      in_order = ql.put_refused app.can_rx_msgq f full ∙ sym (append-nil (queued app.can_rx_msgq));
      counted = refl;
    })
  ]

  bus_frame-Accounts :
      (app : St) (frame : DriverFrame) (ticks : ℕ)
      → app.stat_rx_msgq_drops < 2 ^ 32
      → Accounts app
          (cons_some (can_iface_rx_isr api c frame ticks) [])
          (bus_frame w rb mq api c app frame ticks)
          []
  unfolding bus_frame can_iface_rx_isr
  bus_frame-Accounts app frame ticks small = elim (Bool-cases c.has_handler) [
    | inl set ↦ rw set (on_can_rx-Accounts app _ small)
    | inr unset ↦
        rw unset (nothing_new (queued app.can_rx_msgq) [] _ app.stat_rx_msgq_drops small refl)
  ]

  -- What the pump does behind `k_msgq_get` leaves the queue and the requests alone.
  pub record SameQueue (app app' : St) : Type 0 where
    pub queue : app'.can_rx_msgq ≡ app.can_rx_msgq
    pub drops : app'.stat_rx_msgq_drops ≡ app.stat_rx_msgq_drops
    pub taken : app'.stat_tx_requests ≡ app.stat_tx_requests

  pump_frame-SameQueue :
      (app : St) (got : Option CanlogFrame) → SameQueue app (pump_frame w rb mq api app got)
  unfolding pump_frame
  pump_frame-SameQueue app none = record { queue = refl; drops = refl; taken = refl }
  pump_frame-SameQueue app (some f) = record { queue = refl; drops = refl; taken = refl }

  pump_status-SameQueue : (app : St) (t : Moment) → SameQueue app (pump_status w rb mq api app t)
  unfolding pump_status send_status announce
  pump_status-SameQueue app t = elim (Bool-cases (leb 1000 (t.now - app.last_status))) [
    | inr early ↦ rw early (record { queue = refl; drops = refl; taken = refl })
    | inl due ↦ rw due (elim (Bool-cases (inc32 app.status_ticks % 5 == 0)) [
      | inl fifth ↦ rw fifth (record { queue = refl; drops = refl; taken = refl })
      | inr other ↦ rw other (record { queue = refl; drops = refl; taken = refl })
    ])
  ]

  pub pump_round-SameQueue :
      (app : St) (t : Moment)
      → let (q, got) = mq.get app.can_rx_msgq in
        SameQueue (record app { can_rx_msgq = q }) (pump_round w rb mq api app t).0
  unfolding pump_round
  pump_round-SameQueue app t =
      let (q, got) = mq.get app.can_rx_msgq in
      let app' : St = record app { can_rx_msgq = q } in
      let a = pump_frame-SameQueue app' got in
      let b = pump_status-SameQueue (pump_frame w rb mq api app' got) t in
      record { queue = b.queue ∙ a.queue; drops = b.drops ∙ a.drops; taken = b.taken ∙ a.taken }

  pump_takes :
      (app : St) (t : Moment)
      → let (app', got) = pump_round w rb mq api app t in
        cons_some got [] ++ queued app'.can_rx_msgq ≡ queued app.can_rx_msgq
  unfolding pump_round
  pump_takes app t =
      let q = app.can_rx_msgq in
      ap (λ q'. cons_some (mq.get q).1 [] ++ queued q') (pump_round-SameQueue app t).queue
      ∙ ap₂ (λ o xs. cons_some o [] ++ xs) (ql.get_first q) (ql.get_rest q)
      ∙ first-rest (queued q)

  happen-Accounts :
      (app : St) (h : Happening)
      → app.stat_rx_msgq_drops < 2 ^ 32
      → let (app', sent, got) = happen w rb mq api c app h in
        Accounts app (cons_some (arrival w rb mq api c h) []) app' (cons_some got [])
  unfolding happen on_tx_request pump_round
  happen-Accounts app (arrives frame ticks) small = bus_frame-Accounts app frame ticks small
  happen-Accounts app (pumps t) small =
      let s = pump_round-SameQueue app t in
      record {
        accepted = [];
        lost = 0;
        from_bus = none_left;
        in_order = pump_takes app t ∙ sym (append-nil (queued app.can_rx_msgq));
        counted = omega (arith, s.drops);
      }
  happen-Accounts app (requests req a) small =
      nothing_new (queued app.can_rx_msgq) [] _ app.stat_rx_msgq_drops small refl
  happen-Accounts app (uart_ready ps) small =
      nothing_new (queued app.can_rx_msgq) [] _ app.stat_rx_msgq_drops small refl

  -- For any sequence of frames from the bus, rounds of the pump, requests and interrupts, the frames
  -- that were queued, followed by those that the handler was called with and that were accepted, are
  -- the frames that `k_msgq_get` has given followed by those still queued. Those that were not accepted
  -- are as many as the drop counter, below 2 ^ 32, has grown by, modulo 2 ^ 32.
  pub work-Accounts :
      (hs : List Happening) (app : St)
      → app.stat_rx_msgq_drops < 2 ^ 32
      → let (app', sent, handed) = work w rb mq api c app hs in
        Accounts app (collect (arrival w rb mq api c) hs) app' handed
  unfolding work
  work-Accounts [] app small =
      nothing_new (queued app.can_rx_msgq) [] _ app.stat_rx_msgq_drops small refl
  work-Accounts (h ∷ hs) app small =
      let f = arrival w rb mq api c in
      let (app', sent, got) = happen w rb mq api c app h in
      let (app'', more, handed) = work w rb mq api c app' hs in
      let one = happen-Accounts app h small in
      let others = work-Accounts hs app' (omega (arith, one.counted)) in
      subst (λ xs. Accounts app xs app'' (cons_some got handed))
        (cons_some-append (f h) (collect f hs))
        (subst (λ ys. Accounts app (cons_some (f h) [] ++ collect f hs) app'' ys)
          (cons_some-append got handed) (Account-append one others))

  -- When no frame arrives meanwhile, as many rounds of the pump as there are frames queued take all of
  -- them out of the queue in their order.
  pub pumps-empty :
      (ts : List Moment) (app : St)
      → length (queued app.can_rx_msgq) ≤ length ts
      → let (app', sent, handed) = work w rb mq api c app (map pumps ts) in
        (handed ≡ queued app.can_rx_msgq) × (queued app'.can_rx_msgq ≡ [])
  unfolding work happen
  pumps-empty [] app few =
      let nil = nil_of_length (queued app.can_rx_msgq) (omega arith) in (sym nil, nil)
  pumps-empty (t ∷ ts) app few =
      let (app', got) = pump_round w rb mq api app t in
      let takes = pump_takes app t in
      let (all, none_queued) = pumps-empty ts app' (
        omega (
          arith,
          ap (λ q. length (queued q)) (pump_round-SameQueue app t).queue,
          ap length (ql.get_rest app.can_rx_msgq),
          length-rest (queued app.can_rx_msgq),
        )) in
      (ap (cons_some got) all ∙ sym (cons_some-append got _) ∙ takes, none_queued)
