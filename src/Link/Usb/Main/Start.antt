-- ===== src/Link/Usb/Main/Start.antt =====
-- What the program does with and without a host.
use pcan_alterative.Base.{
  ℕ, ◌^◌, ◌+◌, ◌%◌, ◌<◌, ◌≡◌, arith, refl, ◌∙◌, ap, sym, true, false, List, [], ◌∷◌, ◌++◌,
}
use pcan_alterative.Base.{
  some, Result, ok, err, enotconn, All, All-append, All-replicate, IsByte, bytes_from,
  bytes_from-AreBytes, replicate, ap₂, append-nil, if◌then◌else◌,
}
use pcan_alterative.Zephyr.{Wire, WireLaws}
use pcan_alterative.Zephyr.RingBuf.{RingBuf, RingBufLaws}
use pcan_alterative.Clp.Parser.{Parser, clp_parser_init}
use pcan_alterative.Clp.Parser.Stream.{IsIdle}
use pcan_alterative.Clp.SelfTest.{clp_selftest}
use pcan_alterative.Clp.Types.{IsCanFrame}
use pcan_alterative.Link.Usb.Session.{send_cases}
use pcan_alterative.Link.Sender.{Heard, run_events, run_events-append}
use pcan_alterative.Link.Usb.{
  State, usb_link_init, usb_link_set_tx_handler, usb_link_send_can_rx, usb_link_get_counters,
}
use pcan_alterative.Link.Usb.Events.{Event, sending, can_rx_of, InChunks, usb_sender, step}
use pcan_alterative.Link.Usb.Channel.{usb_sender_laws, run-Heard}
use pcan_alterative.Link.Usb.Main.{
  Platform, tried, live_frame, try_live, after_init, after_selftest, main,
}

-- The platform answers every call of the set-up with success.
pub record AllWell (env : Platform) : Type 0 where
  pub is_ready : env.ready ≡ true
  pub has_usbd : env.usbd ≡ true
  pub is_enabled : (if env.can_detect_vbus then ok tt else env.enabled) ≡ ok tt

module _ (w : Wire) (rb : RingBuf) (env : Platform) where
  -- The link after the set-up, with the handler registered.
  abbrev pub started : State w rb → State w rb
  started u = record u {
    parser = clp_parser_init w true;
    rx_irq = false;
    tx_irq = false;
    has_tx_req_cb = true;
  }

  abbrev pub with_live : ℕ → List (Event w rb) → List (Event w rb)
  with_live ticks between = between ++ (sending (can_rx_of (live_frame ticks)) ∷ [])

  initialised :
      (u : State w rb)
      → AllWell env
      → usb_link_init w rb env.ready env.usbd env.can_detect_vbus env.enabled u
        ≡ (record u { parser = clp_parser_init w true; rx_irq = false; tx_irq = false }, ok tt)
  unfolding usb_link_init
  initialised u well = rw (well.is_ready, well.has_usbd, well.is_enabled) refl

  main-run :
      (ticks : ℕ) (between : List (Event w rb)) (u : State w rb)
      → clp_selftest w ≡ some true
      → AllWell env
      → let sender = usb_sender w rb env.can_detect_vbus in
        let before = (run_events sender (started u) between).0 in
        let (u', sent) = run_events sender (started u) (with_live ticks between) in
        main w rb env ticks between u
        ≡ some (
          u',
          sent,
          tried
              (usb_link_send_can_rx w rb before (live_frame ticks)).1
              (usb_link_get_counters w rb u'),
        )
  unfolding main after_selftest after_init try_live usb_link_set_tx_handler run_events step
  main-run ticks between u passed well =
      let sender = usb_sender w rb env.can_detect_vbus in
      let (before, sent) = run_events sender (started u) between in
      let (after, result) = usb_link_send_can_rx w rb before (live_frame ticks) in
      let last : run_events sender (started u) (with_live ticks between) ≡ (after, sent) =
        run_events-append sender between (sending (can_rx_of (live_frame ticks)) ∷ []) (started u)
        ∙ ap (λ t. (after, t)) (append-nil sent) in
      ap (after_selftest w rb env ticks between u) passed
      ∙ ap (λ r. some (after_init w rb env ticks between r)) (initialised u well)
      ∙ ap (λ r. some (r.0, r.1, tried result (usb_link_get_counters w rb r.0))) (sym last)

module _ (w : Wire) (rb : RingBuf) (wl : WireLaws w) (rl : RingBufLaws rb) (env : Platform) where
  open rl use {contents}

  -- The program on a platform that answers well, with a self-test that passes, a link with nothing
  -- queued and a drop counter below 2 ^ 32, whatever events with an FIFO that takes whole chunks come
  -- before the send: it ends with the link as after these events and one send of the live frame,
  -- and what a host's idle parser delivers of all that are queued or sent is a HELLO for each time
  -- that the host came, and the live frame if it was there, without those counted as dropped.
  pub main-Heard :
      (ticks : ℕ) (between : List (Event w rb)) (u : State w rb) (host : Parser w.Decoder)
      → clp_selftest w ≡ some true
      → AllWell env
      → u.stat_rx_drops < 2 ^ 32
      → All (InChunks w rb) between
      → contents u.tx_rb ≡ []
      → IsIdle w host
      → let sender = usb_sender w rb env.can_detect_vbus in
        let laws = usb_sender_laws w rb wl rl env.can_detect_vbus in
        let es = with_live w rb env ticks between in
        let before = (run_events sender (started w rb env u) between).0 in
        let (u', sent) = run_events sender (started w rb env u) es in
        let result = (usb_link_send_can_rx w rb before (live_frame ticks)).1 in
        (main w rb env ticks between u
          ≡ some (u', sent, tried result (usb_link_get_counters w rb u')))
        × Heard w wl sender laws (started w rb env u) es host
  main-Heard ticks between u host passed well small fine empty idle = (
    main-run w rb env ticks between u passed well,
    run-Heard w rb wl rl env.can_detect_vbus (with_live w rb env ticks between) (started w rb env u)
        host small
        (All-append (InChunks w rb) between (sending (can_rx_of (live_frame ticks)) ∷ []) fine
          (tt, tt))
        empty idle,
  )

  live_frame-IsCanFrame : (ticks : ℕ) → ticks < 2 ^ 64 → IsCanFrame (live_frame ticks)
  live_frame-IsCanFrame ticks h = record {
    id_u32 = omega arith;
    flags_u8 = omega arith;
    dlc_u8 = omega arith;
    tag_u16 = omega arith;
    timestamp_u64 = h;
    bytes_64 = refl;
    bytes_u8 =
        All-append IsByte (bytes_from 8 0) (replicate 56 0) (bytes_from-AreBytes 8 0)
          (All-replicate IsByte 56 0 (omega arith));
  }

  -- Without a host the program's one send fails with ENOTCONN, queues nothing and is not counted,
  -- neither as sent nor as dropped.
  pub main_without_host :
      (ticks : ℕ) (u : State w rb)
      → ticks < 2 ^ 64
      → clp_selftest w ≡ some true
      → AllWell env
      → u.connected ≡ false
      → let u' = record (started w rb env u) { tx_seq = (u.tx_seq + 1) % 256 } in
        main w rb env ticks [] u
        ≡ some (u', [], tried (err enotconn) (u.stat_tx_frames, u.stat_rx_drops, 0, 0))
  unfolding usb_link_get_counters clp_parser_init run_events step
  main_without_host ticks u h passed well away =
      let (failed, left) =
        (send_cases w rb wl rl (started w rb env u) (live_frame ticks)
            (live_frame-IsCanFrame ticks h)).0
          away in
      main-run w rb env ticks [] u passed well
      ∙ ap
          (λ (x : State w rb × Result (Unit {0})).
            some (x.0, [], tried x.1 (usb_link_get_counters w rb x.0)))
          (ap₂ (λ a b. (a, b)) left failed)
