-- ===== src/Report.antt =====
-- app/src/app_report.c: the report cycle on its own work queue. A cycle is modelled by the calls that
-- it makes, in order; the kernel's timer and work items by whether they are set.
pub mod Queue
pub mod Laws
mod Tests
use sticker_firmware.Base.{
  ℕ, ◌/◌, ◌==◌, Bool, true, false, not, Option, none, some, List, [], ◌∷◌, ◌++◌, if◌then◌else◌, u32,
  Ret, ok, fail,
}
use sticker_firmware.Slot.{Slot, Next, next}
use sticker_firmware.Clock.{get_unix}

-- What a cycle reads of `g_app_config`.
pub record Config : Type 0 where
  pub interval_report : ℕ
  pub interval_sample : ℕ
  pub calibration : Bool

-- What a cycle reads of the rest: the uptime, the RTC, and whether the link is ready.
pub record World : Type 0 where
  pub uptime_ms : ℕ
  pub rtc : Option ℕ
  pub ready : Bool

-- The calls of one cycle.
pub data Effect : Type 0 where
  start_timer : ℕ → Effect
  save_counters : Effect
  sensor_sample : Effect
  capture_at : ℕ → Bool → Effect
  send_telemetry : Bool → Effect
  send_telemetry_now : Effect

abbrev pub is_synced : Ret × Option ℕ → Bool
is_synced (ok, _) = true
is_synced (fail _, _) = false

abbrev pub unix_or : Ret × Option ℕ → ℕ → ℕ
unix_or (ok, some unix_s) uptime_s = unix_s
unix_or (ok, none) uptime_s = uptime_s
unix_or (fail _, _) uptime_s = uptime_s

-- `schedule_next_report`: the grid, the slot of the run and the delay that the timer is started with.
pub schedule_next_report : Config → World → Slot → Bool → Next
schedule_next_report cfg w s periodic =
    let uptime_s = u32 (w.uptime_ms / 1000) in
    let reading = get_unix w.rtc in
    next s cfg.interval_report (unix_or reading uptime_s) (is_synced reading) uptime_s periodic

-- `run_report` after the calibration gate.
pub after_gate : Config → World → Bool → Bool → ℕ → Bool → List Effect
after_gate cfg w periodic now slot synced =
    (if cfg.interval_sample == 0 then sensor_sample ∷ [] else [])
    ++ (if periodic then capture_at slot synced ∷ [] else [])
    ++ (if not w.ready
        then []
        else if now
        then send_telemetry_now ∷ []
        else send_telemetry periodic ∷ [])

-- `run_report` after the cadence is re-armed.
pub report_body : Config → World → Bool → Bool → ℕ → Bool → List Effect
report_body cfg w periodic now slot synced =
    save_counters ∷ (if cfg.calibration then [] else after_gate cfg w periodic now slot synced)

-- `run_report`
pub run_report : Config → World → Slot → Bool → Bool → Slot × List Effect
run_report cfg w s periodic now =
    if periodic
    then (let r = schedule_next_report cfg w s true in
        (
          r.slot,
          start_timer r.delay ∷ report_body cfg w true now r.cur (is_synced (get_unix w.rtc)),
        ))
    else (s, report_body cfg w false now 0 false)
