-- ===== src/Report/Queue.antt =====
-- app/src/app_report.c: the one-shot timer and the three work items on the report queue. Submitting
-- an item that is pending changes nothing, and cancelling one clears it, as Zephyr documents.
use sticker_firmware.Base.{
  ℕ, Bool, true, false, Option, none, some, List, [], ◌∷◌, ◌++◌, if◌then◌else◌,
}
use sticker_firmware.Slot.{Slot}
use sticker_firmware.Report.{Config, World, Effect, schedule_next_report, run_report}

-- `m_slot`, the delay that the timer runs with, and the pending work items.
pub record Queue : Type 0 where
  pub slot : Slot
  pub timer : Option ℕ
  pub periodic_work : Bool
  pub trigger_work : Bool
  pub force_work : Bool

-- What happens to the module: the timer expires, another module calls, or the work queue's thread
-- takes an item.
pub data Event : Type 0 where
  timer_expires : Event
  kick : Event
  trigger : Event
  force : Event
  suspend : Event
  run_periodic : World → Event
  run_trigger : World → Event
  run_force : World → Event

-- The delay of the timer after a cycle: the cycle starts it or leaves it.
abbrev pub timer_after : Option ℕ → List Effect → Option ℕ
timer_after t [] = t
timer_after t (Effect.start_timer delay ∷ _) = some delay
timer_after t (Effect.save_counters ∷ _) = t
timer_after t (Effect.sensor_sample ∷ _) = t
timer_after t (Effect.capture_at _ _ ∷ _) = t
timer_after t (Effect.send_telemetry _ ∷ _) = t
timer_after t (Effect.send_telemetry_now ∷ _) = t

-- A work handler: the item is no longer pending when it runs.
unfoldable pub run_work : Config → World → Queue → Bool → Bool → Queue × List Effect
run_work cfg w q periodic now =
    let (slot, effects) = run_report cfg w q.slot periodic now in
    (record q { slot = slot; timer = timer_after q.timer effects }, effects)

-- `report_timer_handler`, for a timer that runs: it is one-shot.
unfoldable pub expire : Queue → Option ℕ → Queue
expire q none = q
expire q (some _) = record q { timer = none; periodic_work = true }

-- One event: the handlers and entry points of the module.
unfoldable pub step : Config → Event → Queue → Queue × List Effect
step cfg timer_expires q = (expire q q.timer, [])
step cfg kick q = (record q { trigger_work = true }, [])
step cfg trigger q = (record q { trigger_work = true }, [])
step cfg force q = (record q { force_work = true }, [])
step cfg suspend q =
    (record q { timer = none; periodic_work = false; trigger_work = false; force_work = false }, [])
step cfg (run_periodic w) q =
    if q.periodic_work
    then run_work cfg w (record q { periodic_work = false }) true false
    else (q, [])
step cfg (run_trigger w) q =
    if q.trigger_work
    then run_work cfg w (record q { trigger_work = false }) false false
    else (q, [])
step cfg (run_force w) q =
    if q.force_work then run_work cfg w (record q { force_work = false }) false true else (q, [])

-- A run of events, with all the calls in order.
unfoldable pub run_events : Config → List Event → Queue → Queue × List Effect
run_events cfg [] q = (q, [])
run_events cfg (e ∷ es) q =
    let (q', effects) = step cfg e q in
    let (q'', rest) = run_events cfg es q' in (q'', effects ++ rest)

-- `app_report_init` arms the cadence at boot.
unfoldable pub init : Config → World → Slot → Queue
init cfg w s =
    let r = schedule_next_report cfg w s false in
    record {
      slot = r.slot;
      timer = some r.delay;
      periodic_work = false;
      trigger_work = false;
      force_work = false;
    }
