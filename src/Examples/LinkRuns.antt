-- ===== src/Examples/LinkRuns.antt =====
-- The theorems on the two transports, at a ring and a codec that can be run.
use pcan_alterative.Base.{◌≡◌, [], ◌∷◌, ◌++◌}
use pcan_alterative.Base.{arith, true, false, take, drop, replicate}
use pcan_alterative.Clp.Parser.{clp_parser_init}
use pcan_alterative.Link.Ring.{isr_chunk, tx_service, tx_service-reorders}
use pcan_alterative.Link.Uart.{Uart, rx_drain}
use pcan_alterative.Link.Uart.Receive.{Drained, rx_drain-Drained}
use pcan_alterative.Examples.Codec.{State, wire}
use pcan_alterative.Examples.Store.{Bytes, ring, ring_laws, fresh}

abbrev queued_80 : Bytes
queued_80 = record { cap = 100; items = replicate 80 7; held = omega arith }

tx_service-reorders_example :
    let (r', sent, enabled) = tx_service ring queued_80 10 in
    (sent ≡ take 10 queued_80.items)
    × (r'.items ≡ drop isr_chunk queued_80.items ++ drop 10 (take isr_chunk queued_80.items))
tx_service-reorders_example =
    tx_service-reorders ring ring_laws queued_80 10 (omega arith) (omega arith)

abbrev uart : Uart Bytes State
uart = record {
  tx_rb = fresh 2048;
  rx_rb = record { cap = 256; items = 1 ∷ 0 ∷ []; held = omega arith };
  rx_sem = true;
  tx_irq = false;
  rx_irq = true;
  parser = clp_parser_init wire true;
  has_tx_req_cb = true;
  tx_seq = 255;
  stat_tx_frames = 0;
  stat_tx_drops = 0;
}

rx_drain-Drained_example : Drained wire ring ring_laws uart (rx_drain wire ring 3 uart)
rx_drain-Drained_example = rx_drain-Drained wire ring ring_laws 3 uart (omega arith)
