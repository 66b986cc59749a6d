-- ===== src/Examples/SelfTestRuns.antt =====
-- The theorem on the self-test, at a codec that can be run.
use pcan_alterative.Base.{ℕ, ◌<◌, ◌≡◌, refl, true, List, ◌∷◌, some, length, arith}
use pcan_alterative.Clp.Types.{can_rx, code}
use pcan_alterative.Clp.Encode.{can_payload, logical_frame}
use pcan_alterative.Clp.Encode.Framing.{length-logical_frame}
use pcan_alterative.Clp.Decode.RoundTrip.{length-can_payload}
use pcan_alterative.Clp.SelfTest.{
  clp_selftest, test_frame, started_with, with_wire, matches, after_corruption, st_frames,
  st_frame_cb, last_of,
}
use pcan_alterative.Clp.Encode.{
  clp_encode_can_frame, clp_encode_raw, encode_frame, covered, clp_crc16, run_encoder, deliver,
  cobs_sink_cb,
}
use pcan_alterative.Clp.Decode.{clp_decode_can_frame}
use pcan_alterative.Clp.Types.{clp_dlc_to_bytes, data_count}
use pcan_alterative.Clp.Parser.{
  clp_parser_init, clp_parser_feed, feed_byte, cobs_calls, clp_cobs_cb, clp_parser_dispatch,
  check_crc,
}
use pcan_alterative.Examples.Bytes.{put_le, get_le, flip}
use pcan_alterative.Examples.Codec.{split, encode, begin, decode, crc_byte, crc}
use pcan_alterative.Clp.SelfTest.Verdict.{
  test_frame-IsCanFrame, noticed, corrupted, clp_selftest-noticed,
}
use pcan_alterative.Examples.Bytes.{order_laws}
use pcan_alterative.Examples.Codec.{wire, wire_laws, resync, encode-ends}

abbrev logical : List ℕ
logical = logical_frame wire (code can_rx) 7 (can_payload wire test_frame)

long : 10 < length ((encode-ends logical).0 ∷ (encode-ends logical).1)
long = omega (
  arith,
  (encode-ends logical).3,
  length-logical_frame wire (code can_rx) 7 (can_payload wire test_frame) order_laws,
  length-can_payload wire order_laws test_frame test_frame-IsCanFrame,
)

clp_selftest-noticed_example :
    clp_selftest wire ≡ some (noticed wire wire_laws (corrupted wire wire_laws))
clp_selftest-noticed_example =
    let (b, front, ends, size) = encode-ends logical in
    clp_selftest-noticed wire wire_laws resync b front ends long

-- The self-test passes with this codec.
pub passes : clp_selftest wire ≡ some true
unfolding clp_selftest started_with with_wire matches after_corruption st_frames st_frame_cb last_of
    clp_encode_can_frame clp_encode_raw can_payload encode_frame logical_frame covered clp_crc16
    run_encoder deliver cobs_sink_cb clp_decode_can_frame clp_parser_init clp_parser_feed feed_byte
    cobs_calls clp_cobs_cb clp_parser_dispatch check_crc clp_dlc_to_bytes data_count put_le get_le
    flip split encode begin decode crc_byte crc
passes = refl
