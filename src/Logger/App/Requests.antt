-- ===== src/Logger/App/Requests.antt =====
-- From a host's request to the driver, and back from the bus to a host.
use pcan_alterative.Base.{ℕ, ◌%◌, ◌≡◌, ap₂, true, List, some, none, Result, ok, err, Option}
use mathlib.Core.Option
use pcan_alterative.Base.{ℤ}
use pcan_alterative.Logger.CanIface.Start.{with_ids}
use pcan_alterative.Zephyr.Can.{CanApi, CanApiLaws}
use pcan_alterative.Clp.Types.{CanFrame, IsCanFrame}
use pcan_alterative.Logger.CanIface.{DriverFrame, can_iface_rx_isr, can_iface_send}
use pcan_alterative.Logger.Wanted.{masked, copied_thrice}
use pcan_alterative.Logger.Flags.{clp_flags_from_can-can_flags_from_clp}
use pcan_alterative.Logger.App.{rx_message, tx_frame}

module _ (api : CanApi) where
  -- What a logger with a handler reports of a frame that was put on the bus.
  abbrev pub heard : List ℤ → Result DriverFrame → ℕ → Option CanFrame
  heard ids (err e) ticks = none
  heard ids (ok d) ticks =
      Option.map (rx_message api) (can_iface_rx_isr api (with_ids true ids) d ticks)

  -- A frame that a host requests reaches the bus as it is: if the driver's frame for a request is
  -- received by a logger with a handler, that logger reports the identifier, the DLC and the five
  -- flags of the request, as many of its data bytes as the driver's table has for the DLC with zeros
  -- behind them, a zero tag and the time of reception. The request is within its C types, and the
  -- driver's flags are bits of their own.
  pub request_heard :
      (ids : List ℤ) (req : CanFrame) (ticks : ℕ)
      → CanApiLaws api
      → IsCanFrame req
      → heard ids (can_iface_send api (some (tx_frame api req))) ticks
        ≡ some (record req {
          flags = req.flags % 32;
          tag = 0;
          timestamp = ticks;
          bytes = masked (api.can_dlc_to_bytes req.dlc) req.bytes;
        })
  unfolding can_iface_send tx_frame can_iface_rx_isr rx_message
  request_heard ids req ticks laws v =
      ap₂
        (λ flags bytes.
          some (record req { flags = flags; tag = 0; timestamp = ticks; bytes = bytes }))
        (clp_flags_from_can-can_flags_from_clp api req.flags laws v.flags_u8)
        (copied_thrice api req.dlc req.bytes v.bytes_64)
