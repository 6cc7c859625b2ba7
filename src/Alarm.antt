-- ===== src/Alarm.antt =====
-- app/src/app_alarm.c: the alarm engine. A rule's latch is a state, an evaluation gives the new latch
-- and the edges that it collects.
pub mod Latch
pub mod Threshold
pub mod State
pub mod Rate
pub mod NoData
pub mod Poll
pub mod Pairing
pub mod Steady
pub mod Run
pub mod Edges
pub mod Window
pub mod Hysteresis
mod Tests
