-- ===== src/Logger.antt =====
-- apps/can_logger: the CAN interface (src/can_iface.c) and the main program (src/main.c), which
-- connects it to the CLP link of Link.Uart.
pub mod CanIface
pub mod Flags
pub mod App
pub mod Wanted
