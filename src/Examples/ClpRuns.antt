-- ===== src/Examples/ClpRuns.antt =====
-- The theorems on the CLP protocol, at a codec that can be run.
use pcan_alterative.Base.{
  ℕ, ◌≡◌, ◌≢◌, refl, List, [], ◌∷◌, ◌++◌, replicate, arith, true, map, All-replicate, IsByte,
}
use pcan_alterative.Base.{ok, false, pos}
use pcan_alterative.Clp.Types.{
  can_rx, status, hello, code, CanFrame, IsCanFrame, TxAck, IsTxAck, Status, IsStatus,
}
use pcan_alterative.Clp.Encode.{can_payload, tx_ack_payload, status_payload, clp_encode_can_frame}
use pcan_alterative.Clp.Decode.{clp_decode_can_frame, clp_decode_tx_ack, clp_decode_status}
use pcan_alterative.Clp.Decode.RoundTrip.{clip}
use pcan_alterative.Clp.EndToEnd.{Carries, can_rx_round_trip}
use pcan_alterative.Clp.Parser.{Receiver, Parser, clp_parser_init, clp_parser_feed}
use pcan_alterative.Clp.Parser.Stream.{IsIdle, Outgoing, received, wires}
use pcan_alterative.Clp.Parser.Resync.{feed-garbage-wires}
use pcan_alterative.Clp.Parser.Accounting.{IsSound, Keeps, clp_parser_feed-Keeps}
use pcan_alterative.Clp.Parser.{clp_parser_dispatch}
use pcan_alterative.Clp.Parser.Exact.{Dispatched, holding, clp_parser_dispatch-Dispatched}
use pcan_alterative.Clp.Decode.Exact.{Exactly, decoders-Exactly}
use pcan_alterative.Examples.Bytes.{order_laws}
use pcan_alterative.Examples.Codec.{State, wire, wire_laws, resync}

abbrev pub zeros : List ℕ
zeros = replicate 64 0

abbrev pub fd_frame : CanFrame
fd_frame = record { can_id = 0x123; flags = 3; dlc = 9; tag = 7; timestamp = 5; bytes = zeros }

pub fd_frame-IsCanFrame : IsCanFrame fd_frame
fd_frame-IsCanFrame = record {
  id_u32 = omega arith;
  flags_u8 = omega arith;
  dlc_u8 = omega arith;
  tag_u16 = omega arith;
  timestamp_u64 = omega arith;
  bytes_64 = refl;
  bytes_u8 = All-replicate IsByte 64 0 (omega arith);
}

abbrev pub host : Parser State
host = clp_parser_init wire true

pub host-IsIdle : IsIdle wire host
unfolding clp_parser_init
host-IsIdle = record { at_start = refl; no_bytes = refl; no_overflow = refl; listening = refl }

host-IsSound : IsSound (clp_parser_init wire true).rx
unfolding clp_parser_init
host-IsSound = record { room = omega arith; ok_u32 = omega arith; listening = refl }

can_rx_round_trip_example :
    Carries wire host
      (clp_encode_can_frame wire can_rx 1 fd_frame 89)
      (record { type = code can_rx; seq = 1; payload = can_payload wire fd_frame })
    × (clp_decode_can_frame wire (can_payload wire fd_frame) ≡ ok (clip fd_frame))
can_rx_round_trip_example =
    can_rx_round_trip wire wire_laws host host-IsIdle 1 fd_frame 89 fd_frame-IsCanFrame
      (omega arith)

abbrev an_ack : TxAck
an_ack = record { tag = 7; status = pos 0; timestamp = 5 }

an_ack-IsTxAck : IsTxAck an_ack
an_ack-IsTxAck = record {
  tag_u16 = omega arith;
  status_i16 = omega arith;
  timestamp_u64 = omega arith;
}

abbrev a_status : Status
a_status = record {
  bus_state = 1;
  rx_frames = 2;
  tx_frames = 3;
  rx_drops = 4;
  tx_err_cnt = 5;
  rx_err_cnt = 6;
}

a_status-IsStatus : IsStatus a_status
a_status-IsStatus = record {
  bus_state_u8 = omega arith;
  rx_frames_u32 = omega arith;
  tx_frames_u32 = omega arith;
  rx_drops_u32 = omega arith;
  tx_err_u8 = omega arith;
  rx_err_u8 = omega arith;
}

abbrev two : List Outgoing
two =
    record { type = hello; seq = 0; payload = 1 ∷ [] }
    ∷ record { type = status; seq = 1; payload = [] }
    ∷ []

feed-garbage-wires_example :
    let garbage : List ℕ = 9 ∷ 1 ∷ [] in
    let (p', out) = clp_parser_feed wire host ((garbage ++ (0 ∷ [])) ++ wires wire wire_laws two) in
    (out ≡ (clp_parser_feed wire host (garbage ++ (0 ∷ []))).1 ++ map received two) × IsIdle wire p'
feed-garbage-wires_example =
    feed-garbage-wires wire resync wire_laws (9 ∷ 1 ∷ []) two host host-IsSound
      (omega arith, (omega arith, tt))

clp_parser_feed-Keeps_example :
    let bytes : List ℕ = 9 ∷ 1 ∷ 0 ∷ [] in
    Keeps host.rx (clp_parser_feed wire host bytes).0.rx (clp_parser_feed wire host bytes).1
clp_parser_feed-Keeps_example = clp_parser_feed-Keeps wire (9 ∷ 1 ∷ 0 ∷ []) host host-IsSound

abbrev partial : Receiver
partial = record {
  has_cb = true;
  frame = 1 ∷ 2 ∷ [];
  overflow = false;
  crc_errors = 0;
  framing_errors = 0;
  frames_ok = 0;
}

partial-nonempty : partial.frame ≢ []
partial-nonempty h = cc

-- A frame with a wrong CRC, in a fresh parser.
abbrev wrong_crc : List ℕ
wrong_crc = 1 ∷ 5 ∷ 0 ∷ 0 ∷ 0 ∷ 0 ∷ 0 ∷ []

clp_parser_dispatch-Dispatched_example :
    Dispatched wire wrong_crc
      (clp_parser_dispatch wire (holding wire order_laws host.rx wrong_crc)).1
clp_parser_dispatch-Dispatched_example =
    clp_parser_dispatch-Dispatched wire order_laws host.rx wrong_crc (
      omega arith,
      (omega arith, (omega arith, (omega arith, (omega arith, (omega arith, (omega arith, tt)))))),
    )

decoders-Exactly_example :
    let p : List ℕ = replicate 15 1 in
    Exactly IsCanFrame (can_payload wire) p (clp_decode_can_frame wire p)
    × Exactly IsTxAck (tx_ack_payload wire) p (clp_decode_tx_ack wire p)
    × Exactly IsStatus (status_payload wire) p (clp_decode_status wire p)
decoders-Exactly_example =
    decoders-Exactly wire wire_laws.order_laws (replicate 15 1)
      (All-replicate IsByte 15 1 (omega arith))
