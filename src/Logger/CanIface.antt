-- ===== src/Logger/CanIface.antt =====
-- apps/can_logger/src/can_iface.c. The CAN driver's results are arguments, and the calls of it that
-- change the controller are reported as values.
pub mod Start
use pcan_alterative.Base.{
  ℕ, ◌+◌, ◌-◌, Bool, true, false, List, [], ◌∷◌, ◌++◌, Option, none, some, Result, ok,
}
use pcan_alterative.Base.{err, enodev, enotsup, einval, if◌then◌else◌, take, replicate, min, ℤ}
use pcan_alterative.Base.{zero, suc}
use pcan_alterative.Zephyr.Can.{CanApi}

-- `struct canlog_frame`; `bytes` is its array `data[CAN_MAX_DLEN]`.
pub record CanlogFrame : Type 0 where
  pub id : ℕ
  pub dlc : ℕ
  pub flags : ℕ
  pub bytes : List ℕ
  pub timestamp : ℕ

-- The fields of Zephyr's `struct can_frame` that the code uses.
pub record DriverFrame : Type 0 where
  pub id : ℕ
  pub dlc : ℕ
  pub flags : ℕ
  pub bytes : List ℕ

abbrev pub can_max_dlen : ℕ
can_max_dlen = 64

-- `struct can_filter`
pub record Filter : Type 0 where
  pub id : ℕ
  pub mask : ℕ
  pub ide : Bool

-- The entries of `filters`, a local of `can_iface_init`.
abbrev pub diagnostic_ids : Filter
diagnostic_ids = record { id = 0x100; mask = 0x700; ide = false }

abbrev pub standard_ids : Filter
standard_ids = record { id = 0; mask = 0; ide = false }

abbrev pub extended_ids : Filter
extended_ids = record { id = 0; mask = 0; ide = true }

abbrev pub filters : List Filter
filters = diagnostic_ids ∷ standard_ids ∷ extended_ids ∷ []

-- The calls that change the controller.
pub data CanCall : Type 0 where
  set_mode_fd start_controller : CanCall
  add_rx_filter : Filter → CanCall

-- What the driver returns in `can_iface_init`. Of the capabilities only the bit CAN_MODE_FD is read.
pub record CanDriver : Type 0 where
  pub ready : Bool
  pub capabilities : Result Bool
  pub set_mode : Result (Unit {0})
  pub add_filter : Filter → Result ℕ
  pub start : Result (Unit {0})

-- The module's static variables, of `rx_handler` whether it is set.
pub record CanIface : Type 0 where
  pub has_handler : Bool
  pub rx_filter_ids : List ℤ

-- A zeroed array `data` with the bytes of a DLC copied in.
unfoldable pub copied : CanApi → ℕ → List ℕ → List ℕ
copied api dlc bytes =
    let n = min (api.can_dlc_to_bytes dlc) can_max_dlen in
    take n bytes ++ replicate (can_max_dlen - n) 0

-- The frame that the handler is called with, if there is one.
unfoldable pub can_iface_rx_isr : CanApi → CanIface → DriverFrame → ℕ → Option CanlogFrame
unfolding copied
can_iface_rx_isr api c frame ticks =
    if c.has_handler
    then some (record {
      id = frame.id;
      dlc = frame.dlc;
      flags = frame.flags;
      bytes = copied api frame.dlc frame.bytes;
      timestamp = ticks;
    })
    else none

unfoldable pub can_iface_set_rx_handler : Bool → CanIface → CanIface
can_iface_set_rx_handler has_handler c = record c { has_handler = has_handler }

-- The frame handed to `can_send`; none for a NULL frame, which is refused with EINVAL.
unfoldable pub can_iface_send : CanApi → Option CanlogFrame → Result DriverFrame
unfolding copied
can_iface_send api none = err einval
can_iface_send api (some frame) = ok (record {
  id = frame.id;
  dlc = frame.dlc;
  flags = frame.flags;
  bytes = copied api frame.dlc frame.bytes;
})

-- The state, the calls made, and the result.
abbrev pub Outcome : Type 0
Outcome = CanIface × List CanCall × Result (Unit {0})

unfoldable pub started : CanDriver → CanIface → List CanCall → Outcome
started g c calls = (c, calls ++ (start_controller ∷ []), g.start)

-- xs[i] = x
abbrev pub set_at {ℓ} : {A : Type ℓ} → List A → ℕ → A → List A
set_at [] i x = []
set_at (y ∷ ys) zero x = x ∷ ys
set_at (y ∷ ys) (suc i) x = y ∷ set_at ys i x

-- The loop from the filter `i` on, and what follows it.
unfoldable pub add_filters : CanDriver → ℕ → List Filter → CanIface → List CanCall → Outcome
unfolding started
add_filters g i [] c calls = started g c calls
add_filters g i (f ∷ fs) c calls =
    let calls' = calls ++ (add_rx_filter f ∷ []) in
    elim (g.add_filter f) [
      | err e ↦ (c, calls', err e)
      | ok id ↦
          let c' : CanIface = record c { rx_filter_ids = set_at c.rx_filter_ids i (ℤ.pos id) } in
          add_filters g (suc i) fs c' calls'
    ]

unfoldable pub in_fd_mode : CanDriver → CanIface → Result (Unit {0}) → Outcome
unfolding add_filters
in_fd_mode g c (err e) = (c, set_mode_fd ∷ [], err e)
in_fd_mode g c (ok done) = add_filters g 0 filters c (set_mode_fd ∷ [])

unfoldable pub capable : CanDriver → CanIface → Result Bool → Outcome
unfolding in_fd_mode
capable g c (err e) = (c, [], err e)
capable g c (ok true) = in_fd_mode g c g.set_mode
capable g c (ok false) = (c, [], err enotsup)

unfoldable pub can_iface_init : CanDriver → CanIface → Outcome
unfolding capable
can_iface_init g c = if g.ready then capable g c g.capabilities else (c, [], err enodev)
