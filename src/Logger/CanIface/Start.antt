-- ===== src/Logger/CanIface/Start.antt =====
-- The order in which the controller is set up.
use pcan_alterative.Base.{
  ℕ, ◌≡◌, refl, ◌∙◌, inl, inr, Bool, true, false, List, [], ◌∷◌, ◌++◌, ok, err, ℤ, Result,
}
use pcan_alterative.Base.{Errno, enodev, enotsup, map, Result-cases, if◌then◌else◌}
use pcan_alterative.Base.{pos}
use pcan_alterative.Zephyr.Calls.{after, attempt}
use pcan_alterative.Logger.CanIface.{
  diagnostic_ids, standard_ids, extended_ids, filters, CanCall, set_mode_fd, start_controller,
  add_rx_filter, CanDriver, CanIface, Outcome, started, add_filters, in_fd_mode, capable,
  can_iface_init,
}

-- The calls behind `can_set_mode`, and the whole set-up, in the order in which they have to be made.
abbrev last : List CanCall
last = start_controller ∷ []

abbrev behind_mode : List CanCall
behind_mode = map add_rx_filter filters ++ last

abbrev pub full_setup : List CanCall
full_setup = set_mode_fd ∷ behind_mode

-- What the driver returns for a call, without the identifier of a filter.
abbrev without_id : Result ℕ → Result (Unit {0})
without_id (ok id) = ok tt
without_id (err e) = err e

abbrev pub reply : CanDriver → CanCall → Result (Unit {0})
reply g set_mode_fd = g.set_mode
reply g start_controller = g.start
reply g (add_rx_filter f) = without_id (g.add_filter f)

-- The calls that are to be made, and the result: those of the set-up until one fails, on a device
-- that is ready and can do FD.
abbrev for_capable : CanDriver → Result Bool → List CanCall × Result (Unit {0})
for_capable g (err e) = ([], err e)
for_capable g (ok false) = ([], err enotsup)
for_capable g (ok true) = attempt (reply g) full_setup

abbrev pub wanted : CanDriver → List CanCall × Result (Unit {0})
wanted g = if g.ready then for_capable g g.capabilities else ([], err enodev)

-- A success has made every call and recorded the three identifiers that the driver gave.
pub data SetUp (g : CanDriver) (b : Bool) (r : Outcome) : Type 0 where
  all_done :
      (i j k : ℕ)
      → wanted g ≡ (r.1, r.2)
      → r.1 ≡ full_setup
      → r.2 ≡ ok tt
      → g.add_filter diagnostic_ids ≡ ok i
      → g.add_filter standard_ids ≡ ok j
      → g.add_filter extended_ids ≡ ok k
      → r.0 ≡ record { has_handler = b; rx_filter_ids = pos i ∷ pos j ∷ pos k ∷ [] }
      → SetUp g b r
  gave_up : (e : Errno) → wanted g ≡ (r.1, r.2) → r.2 ≡ err e → r.0.has_handler ≡ b → SetUp g b r

-- The module with the filter identifiers that it has.
abbrev pub with_ids : Bool → List ℤ → CanIface
with_ids b ids = record { has_handler = b; rx_filter_ids = ids }

module _ (g : CanDriver) (b : Bool) (x y z : ℤ) where
  with_filters :
      wanted g ≡ after set_mode_fd (ok tt) (attempt (reply g) behind_mode)
      → SetUp g b (add_filters g 0 filters (with_ids b (x ∷ y ∷ z ∷ [])) (set_mode_fd ∷ []))
  unfolding add_filters started
  with_filters w = elim (Result-cases (g.add_filter diagnostic_ids)) [
    | inr (e, failed) ↦ rw failed (gave_up e (w ∙ rw failed refl) refl refl)
    | inl (i, added) ↦ rw added (elim (Result-cases (g.add_filter standard_ids)) [
      | inr (e, failed) ↦ rw failed (gave_up e (w ∙ rw (added, failed) refl) refl refl)
      | inl (j, added') ↦ rw added' (elim (Result-cases (g.add_filter extended_ids)) [
        | inr (e, failed) ↦ rw failed (gave_up e (w ∙ rw (added, added', failed) refl) refl refl)
        | inl (k, added'') ↦ rw added'' (elim (Result-cases g.start) [
          | inr (e, failed) ↦ gave_up e (w ∙ rw (added, added', added'', failed) refl) failed refl
          | inl (u, up) ↦
              all_done i j k (w ∙ rw (added, added', added'', up) refl) refl up added added' added''
                refl
        ])
      ])
    ])
  ]

  abbrev before : CanIface
  before = with_ids b (x ∷ y ∷ z ∷ [])

  with_mode :
      (ret : Result (Unit {0}))
      → wanted g ≡ after set_mode_fd ret (attempt (reply g) behind_mode)
      → SetUp g b (in_fd_mode g before ret)
  unfolding in_fd_mode
  with_mode (err e) w = gave_up e w refl refl
  with_mode (ok done) w = with_filters w

  with_capabilities :
      (caps : Result Bool) → wanted g ≡ for_capable g caps → SetUp g b (capable g before caps)
  unfolding capable
  with_capabilities (err e) w = gave_up e w refl refl
  with_capabilities (ok false) w = gave_up Errno.enotsup w refl refl
  with_capabilities (ok true) w = with_mode g.set_mode w

  when_ready :
      (ready : Bool)
      → wanted g ≡ (if ready then for_capable g g.capabilities else ([], err enodev))
      → SetUp g b (if ready then capable g before g.capabilities else (before, [], err enodev))
  when_ready true w = with_capabilities g.capabilities w
  when_ready false w = gave_up Errno.enodev w refl refl

-- `can_iface_init` makes the calls of the set-up in their order, each only if the device is ready and
-- can do FD and all calls before it have succeeded, and its result is that of the first step that
-- fails; a success has recorded the identifiers that the driver gave for the three filters. Whether
-- there is a handler is as it was. In particular the controller is started last, and never before
-- its filters are in place.
pub can_iface_init-SetUp :
    (g : CanDriver) (b : Bool) (x y z : ℤ)
    → SetUp g b (can_iface_init g (with_ids b (x ∷ y ∷ z ∷ [])))
unfolding can_iface_init
can_iface_init-SetUp g b x y z = when_ready g b x y z g.ready refl
