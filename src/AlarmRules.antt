-- ===== src/AlarmRules.antt =====
-- app/src/app_alarm_rules.c: the alarm rules in the configuration and the decoded copy of them.
pub mod Float
pub mod Rule
pub mod Pack
pub mod Store
pub mod RoundTrip
pub mod Valid
pub mod Coherent
pub mod Reload
pub mod Crud
pub mod Count
pub mod Faults
mod Tests
