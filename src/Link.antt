-- ===== src/Link.antt =====
-- The two transports of the CLP protocol: apps/can_logger/src/clp_uart.c and
-- apps/usb_cdc/src/usb_link.c.
pub mod Ring
pub mod Uart
pub mod Usb
pub mod Sender
