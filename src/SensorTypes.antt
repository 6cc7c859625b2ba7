-- ===== src/SensorTypes.antt =====
-- app/src/app_sensor_types.c and .h: the registry of sensor types and their channels.
pub mod Types
pub mod Motherboard
pub mod Table
pub mod Lookup
pub mod Laws
mod Tests
