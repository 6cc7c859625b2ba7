-- ===== src/History.antt =====
-- app/src/app_history.c: the record ring in RAM (the build without CONFIG_APP_HISTORY_FLASH).
pub mod Ram
pub mod Ring
pub mod Segments
pub mod Room
pub mod Views
pub mod Append
mod Tests
