-- ===== src/Gpio.antt =====
-- apps/gpio_timer: the capture buttons and LEDs, the periodic tick, and their wiring in main.c.
pub mod IoControl
pub mod LogTimer
pub mod Capture
