-- ===== src/Flash.antt =====
-- apps/flash_log: the logger of CAN frames to a file.
pub mod Record
pub mod Log
pub mod Main
