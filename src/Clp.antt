-- ===== src/Clp.antt =====
-- apps/usb_cdc/src/clp_proto.c and its header: the CAN log protocol.
pub mod Types
pub mod Encode
pub mod Decode
pub mod Parser
pub mod EndToEnd
pub mod SelfTest
