-- ===== src/Logger/App/OnBus.antt =====
-- The frames on the bus, and what the interrupt makes of them.
use pcan_alterative.Base.{ℕ, ◌≡◌, refl, ap, ap₂, sym, subst, List, [], ◌∷◌}
use pcan_alterative.Base.{Option, none, some, All, Bool-cases, inl, inr, true, false}
use pcan_alterative.Base.Kept.{collect, cons_some, IsSublist, Kept-all, Kept-prefix}
use pcan_alterative.Zephyr.{Wire}
use pcan_alterative.Zephyr.RingBuf.{RingBuf}
use pcan_alterative.Zephyr.Can.{CanApi, MsgQueue}
use pcan_alterative.Logger.CanIface.{CanlogFrame, DriverFrame, CanIface, can_iface_rx_isr}
use pcan_alterative.Logger.Wanted.{kept_frame, copied-masked}
use pcan_alterative.Logger.App.Actions.{Happening, arrives, pumps, requests, uart_ready, arrival}
use pcan_alterative.Logger.App.Frames.{IsDriverFrame, IsProper}

-- The frames that were on the bus, as the logger is to keep them.
abbrev pub on_bus : CanApi → Happening → Option CanlogFrame
on_bus api (arrives frame ticks) = some (kept_frame api frame ticks)
on_bus api (pumps t) = none
on_bus api (requests req a) = none
on_bus api (uart_ready ps) = none

module _ (api : CanApi) (c : CanIface) where
  pub isr-kept_frame :
      (frame : DriverFrame) (ticks : ℕ)
      → c.has_handler ≡ true
      → IsDriverFrame frame
      → can_iface_rx_isr api c frame ticks ≡ some (kept_frame api frame ticks)
  unfolding can_iface_rx_isr
  isr-kept_frame frame ticks set v = rw set (
      ap (λ bs. some (record (kept_frame api frame ticks) { bytes = bs }))
        (copied-masked api frame.dlc frame.bytes v.bytes_64))

module _ (w : Wire) (rb : RingBuf) (mq : MsgQueue CanlogFrame) (api : CanApi) (c : CanIface) where
  -- With a handler, every frame on the bus arrives as it is to be kept.
  pub arrivals-on_bus :
      (hs : List Happening)
      → c.has_handler ≡ true
      → All IsProper hs
      → collect (arrival w rb mq api c) hs ≡ collect (on_bus api) hs
  arrivals-on_bus [] set p = refl
  arrivals-on_bus (arrives frame ticks ∷ hs) set ((v, t), ps) =
      ap₂ cons_some (isr-kept_frame api c frame ticks set v) (arrivals-on_bus hs set ps)
  arrivals-on_bus (pumps t ∷ hs) set (p, ps) = arrivals-on_bus hs set ps
  arrivals-on_bus (requests req a ∷ hs) set (p, ps) = arrivals-on_bus hs set ps
  arrivals-on_bus (uart_ready u ∷ hs) set (p, ps) = arrivals-on_bus hs set ps

  -- Without one, none does.
  no_arrivals :
      (hs : List Happening) → c.has_handler ≡ false → collect (arrival w rb mq api c) hs ≡ []
  unfolding can_iface_rx_isr
  no_arrivals [] unset = refl
  no_arrivals (arrives frame ticks ∷ hs) unset = rw unset (no_arrivals hs unset)
  no_arrivals (pumps t ∷ hs) unset = no_arrivals hs unset
  no_arrivals (requests req a ∷ hs) unset = no_arrivals hs unset
  no_arrivals (uart_ready u ∷ hs) unset = no_arrivals hs unset

  pub arrivals-IsSublist :
      (hs : List Happening)
      → All IsProper hs
      → IsSublist (collect (arrival w rb mq api c) hs) (collect (on_bus api) hs)
  arrivals-IsSublist hs p = elim (Bool-cases c.has_handler) [
    | inl set ↦
        subst (λ xs. IsSublist xs (collect (on_bus api) hs)) (sym (arrivals-on_bus hs set p))
          (0, Kept-all (collect (on_bus api) hs))
    | inr unset ↦
        subst (λ xs. IsSublist xs (collect (on_bus api) hs)) (sym (no_arrivals hs unset))
          (_, Kept-prefix [] (collect (on_bus api) hs))
  ]
