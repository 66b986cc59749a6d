-- ===== src/Gpio/IoControl/Debounce.antt =====
-- The debounce window of the buttons.
use pcan_alterative.Base.{ℕ, ◌+◌, ◌≤◌, ◌<◌, ◌≡◌, refl, true, [], ◌∷◌, arith}
use pcan_alterative.Base.{bit_and, ◌==◌, if◌then◌else◌}
use pcan_alterative.Gpio.IoControl.{
  CaptureState, idle, logging, IoControl, debounce_ms, same, btn_start, btn_stop, set_state,
  button_isr,
}

-- Inside the window an edge of either button changes nothing, not even the time of the last edge.
pub edge_ignored :
    (now pins : ℕ) (io : IoControl)
    → now < io.last_edge_ms + debounce_ms
    → button_isr now pins io ≡ (io, [])
unfolding button_isr
edge_ignored now pins io h = ground arith

same_refl : (s : CaptureState) → same s s ≡ true
same_refl idle = refl
same_refl logging = refl

same_eq : (a b : CaptureState) → same a b ≡ true → b ≡ a
same_eq idle idle h = refl
same_eq idle logging h = cc
same_eq logging idle h = cc
same_eq logging logging h = refl

set_state-to :
    (s : CaptureState) (io : IoControl)
    → io.has_cb ≡ true
    → let (io', calls) = set_state s io in
      (io'.state ≡ s)
      × (io'.last_edge_ms ≡ io.last_edge_ms)
      × (calls ≡ (if same s io.state then [] else s ∷ []))
unfolding set_state
set_state-to s io h = ground (arith, same_refl s, same_eq s io.state)

-- Outside the window, with a callback registered: S1 starts and S2 alone stops the capture,
-- whatever its state was, the time of the edge is kept, and the callback runs with the new state
-- exactly if that is another one.
pub edge_taken :
    (now pins : ℕ) (io : IoControl)
    → io.last_edge_ms + debounce_ms ≤ now
    → io.has_cb ≡ true
    → let (io', calls) = button_isr now pins io in
      (io'.last_edge_ms ≡ now)
      × (io'.state ≡ (
          if bit_and pins btn_start == 0
          then if bit_and pins btn_stop == 0 then io.state else idle
          else logging))
      × (calls ≡ (if same io'.state io.state then [] else io'.state ∷ []))
unfolding button_isr
edge_taken now pins io h hc =
    let io' : IoControl = record io { last_edge_ms = now } in
    ground (arith, set_state-to logging io' hc, set_state-to idle io' hc, same_refl io.state)

-- A press of S2 that follows an accepted press of S1 within 40 ms is lost: the capture goes on.
pub stop_lost_after_start :
    (start stop : ℕ) (io : IoControl)
    → io.last_edge_ms + debounce_ms ≤ start
    → start ≤ stop
    → stop < start + debounce_ms
    → let (io', calls) = button_isr start btn_start io in
      (io'.state ≡ logging) × (button_isr stop btn_stop io' ≡ (io', []))
unfolding button_isr
stop_lost_after_start start stop io h1 h2 h3 = ground arith
