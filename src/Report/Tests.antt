-- ===== src/Report/Tests.antt =====
-- Runs of app_report.c, and its theorems applied.
use sticker_firmware.Base.{
  ◌+◌, ◌≡◌, ◌≤◌, refl, some, List, [], ◌∷◌, true, false, ◌+ℤ◌, ◌-ℤ◌, tdiv, has_remainder,
}
use sticker_firmware.Slot.{Slot, floor_div, steps, round, lay, periodic_run, next}
use sticker_firmware.Clock.{get_unix}
use sticker_firmware.Report.{
  Config, World, Effect, schedule_next_report, after_gate, report_body, run_report,
}
use sticker_firmware.Report.Queue.{Queue, Event, run_work, expire, step, run_events, init}
use sticker_firmware.Report.Laws.{token, count, is_capture, cadence_from_boot, captures_on_cadence}

abbrev cfg : Config
cfg = record { interval_report = 60; interval_sample = 0; calibration = false }

abbrev at_slot : World
at_slot = record { uptime_ms = 65000; rtc = some 1800000065; ready = true }

abbrev grid : Slot
grid = record { anchor = 1800000005; interval = 60; synced = true; valid = true }

abbrev events : List Event
events =
    Event.timer_expires
    ∷ Event.trigger
    ∷ Event.run_trigger at_slot
    ∷ Event.run_periodic at_slot
    ∷ []

abbrev armed : Queue
armed = record {
  slot = grid;
  timer = some 60;
  periodic_work = false;
  trigger_work = false;
  force_work = false;
}

events_calls :
    (run_events cfg events armed).1
    ≡ Effect.save_counters
      ∷ Effect.sensor_sample
      ∷ Effect.send_telemetry false
      ∷ Effect.start_timer 60
      ∷ Effect.save_counters
      ∷ Effect.sensor_sample
      ∷ Effect.capture_at 1800000065 true
      ∷ Effect.send_telemetry true
      ∷ []
unfolding run_events step expire run_work run_report report_body after_gate schedule_next_report
    get_unix next lay periodic_run round steps floor_div ◌+ℤ◌ ◌-ℤ◌ tdiv has_remainder
events_calls = refl

cadence_from_boot_example : token (run_events cfg events (init cfg at_slot grid)).0 ≡ 1
cadence_from_boot_example = cadence_from_boot cfg at_slot grid events refl

captures_on_cadence_example : count is_capture (run_events cfg events armed).1 ≤ 0 + 1
captures_on_cadence_example = captures_on_cadence cfg events armed
