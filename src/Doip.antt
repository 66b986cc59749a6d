-- ===== src/Doip.antt =====
-- apps/eth_doip: DoIP messages and their handlers (src/doip.c), and the server (src/doip_server.c)
-- and the program that tests and starts them (src/main.c).
pub mod Types
pub mod Message
pub mod Uds
pub mod Udp
pub mod Tcp
pub mod Server
pub mod SelfTest
