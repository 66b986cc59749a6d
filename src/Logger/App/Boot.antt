-- ===== src/Logger/App/Boot.antt =====
-- What `main` of the CAN logger leaves behind.
use pcan_alterative.Base.{ℕ, ◌≡◌, Bool, true, false, Errno, ok, err}
use pcan_alterative.Zephyr.{Wire}
use pcan_alterative.Zephyr.RingBuf.{RingBuf}
use pcan_alterative.Zephyr.Can.{CanApi, MsgQueue}
use pcan_alterative.Logger.CanIface.{CanlogFrame, CanDriver, CanIface}
use pcan_alterative.Logger.CanIface.Start.{full_setup, wanted}
use pcan_alterative.Logger.App.{AppState, Booted}

module _ (w : Wire) (rb : RingBuf) (mq : MsgQueue CanlogFrame) (api : CanApi) where
  -- Everything is set up, or the console UART is not ready, or the controller could not be set up.
  pub data IsBooted (g : CanDriver) (ready : Bool) (now : ℕ) (app : AppState w rb mq api)
      (b : Booted w rb mq api) : Type 0 where
    running :
        wanted g ≡ (full_setup, ok tt)
        → ready ≡ true
        → b.calls ≡ full_setup
        → b.pumping ≡ true
        → b.can.has_handler ≡ true
        → b.app.uart.has_tx_req_cb ≡ true
        → b.app.last_status ≡ now
        → IsBooted g ready now app b
    no_link :
        wanted g ≡ (full_setup, ok tt)
        → ready ≡ false
        → b.calls ≡ full_setup
        → b.pumping ≡ false
        → b.app ≡ app
        → IsBooted g ready now app b
    no_can :
        (e : Errno)
        → wanted g ≡ (b.calls, err e)
        → b.pumping ≡ false
        → b.app ≡ app
        → IsBooted g ready now app b
