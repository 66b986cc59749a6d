-- ===== src/Clp/Types.antt =====
-- clp_proto.h: constants, message types and the decoded messages.
-- A C integer is a number; `IsValid…` states the widths. An `int16_t` is an integer.
use pcan_alterative.Base.{ℕ, ◌+◌, ◌/◌, ◌^◌, ◌<◌, ◌≡◌, List, [], ◌∷◌, length}
use pcan_alterative.Base.{AreBytes, byte_at, bit_and, ◌==◌, if◌then◌else◌, ℤ, IsI16}

abbrev pub clp_version : ℕ
clp_version = 1

abbrev pub clp_header_size : ℕ
clp_header_size = 5

abbrev pub clp_crc_size : ℕ
clp_crc_size = 2

abbrev pub clp_max_payload : ℕ
clp_max_payload = 80

abbrev pub clp_max_frame : ℕ
clp_max_frame = clp_header_size + clp_max_payload + clp_crc_size

abbrev pub clp_max_wire : ℕ
clp_max_wire = clp_max_frame + clp_max_frame / 254 + 2

-- Sizes of the fixed parts of the payloads.
abbrev pub clp_canf_fixed : ℕ
clp_canf_fixed = 16

abbrev pub clp_tx_ack_size : ℕ
clp_tx_ack_size = 12

abbrev pub clp_status_size : ℕ
clp_status_size = 15

abbrev pub clp_hello_fixed : ℕ
clp_hello_fixed = 3

-- `enum clp_msg_type`, and the numbers that it stands for.
pub data MsgType : Type 0 where
  can_rx can_tx can_tx_ack status hello : MsgType

abbrev pub code : MsgType → ℕ
code can_rx = 1
code can_tx = 2
code can_tx_ack = 3
code status = 4
code hello = 5

-- BIT(0) to BIT(4): the wire's own flag bits.
abbrev pub clp_canf_fdf : ℕ
clp_canf_fdf = 1

abbrev pub clp_canf_brs : ℕ
clp_canf_brs = 2

abbrev pub clp_canf_esi : ℕ
clp_canf_esi = 4

abbrev pub clp_canf_ide : ℕ
clp_canf_ide = 8

abbrev pub clp_canf_rtr : ℕ
clp_canf_rtr = 16

-- `struct clp_can_frame`; `bytes` is its array `data[64]`.
pub record CanFrame : Type 0 where
  pub can_id : ℕ
  pub flags : ℕ
  pub dlc : ℕ
  pub tag : ℕ
  pub timestamp : ℕ
  pub bytes : List ℕ

pub record TxAck : Type 0 where
  pub tag : ℕ
  pub status : ℤ
  pub timestamp : ℕ

pub record Status : Type 0 where
  pub bus_state : ℕ
  pub rx_frames : ℕ
  pub tx_frames : ℕ
  pub rx_drops : ℕ
  pub tx_err_cnt : ℕ
  pub rx_err_cnt : ℕ

-- Each field is within its C type.
pub record IsCanFrame (f : CanFrame) : Type 0 where
  pub id_u32 : f.can_id < 2 ^ 32
  pub flags_u8 : f.flags < 256
  pub dlc_u8 : f.dlc < 256
  pub tag_u16 : f.tag < 2 ^ 16
  pub timestamp_u64 : f.timestamp < 2 ^ 64
  pub bytes_64 : length f.bytes ≡ 64
  pub bytes_u8 : AreBytes f.bytes

pub record IsTxAck (a : TxAck) : Type 0 where
  pub tag_u16 : a.tag < 2 ^ 16
  pub status_i16 : IsI16 a.status
  pub timestamp_u64 : a.timestamp < 2 ^ 64

pub record IsStatus (s : Status) : Type 0 where
  pub bus_state_u8 : s.bus_state < 256
  pub rx_frames_u32 : s.rx_frames < 2 ^ 32
  pub tx_frames_u32 : s.tx_frames < 2 ^ 32
  pub rx_drops_u32 : s.rx_drops < 2 ^ 32
  pub tx_err_u8 : s.tx_err_cnt < 256
  pub rx_err_u8 : s.rx_err_cnt < 256

-- `clp_dlc_to_bytes`
abbrev pub dlc_table : List ℕ
dlc_table = 0 ∷ 1 ∷ 2 ∷ 3 ∷ 4 ∷ 5 ∷ 6 ∷ 7 ∷ 8 ∷ 12 ∷ 16 ∷ 20 ∷ 24 ∷ 32 ∷ 48 ∷ 64 ∷ []

unfoldable pub clp_dlc_to_bytes : ℕ → ℕ
clp_dlc_to_bytes dlc = byte_at dlc_table (bit_and dlc 0x0f)

-- How many data bytes a frame carries: those of its DLC, and none if it is a remote frame.
-- `clp_encode_can_frame` and `clp_decode_can_frame` compute it by the same statements.
unfoldable pub data_count : ℕ → ℕ → ℕ
data_count flags dlc =
    let n = clp_dlc_to_bytes dlc in if bit_and flags clp_canf_rtr == 0 then n else 0
