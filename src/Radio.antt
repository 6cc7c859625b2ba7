-- ===== src/Radio.antt =====
-- app/src/app_radio.c and .h: what both radios share.
pub mod Duty
pub mod Link
mod Tests
