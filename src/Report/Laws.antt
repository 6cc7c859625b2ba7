-- ===== src/Report/Laws.antt =====
-- What the report cycle promises over any run of events.
use sticker_firmware.Base.{
  ℕ, ◌+◌, ◌≤◌, ◌≡◌, refl, ◌∙◌, arith, Bool, true, false, not, ◌&&◌, Option, none, some, List, [],
  ◌∷◌, ◌++◌, if◌then◌else◌,
}
use sticker_firmware.Slot.{Slot}
use sticker_firmware.Report.{Config, World, Effect, after_gate, report_body, run_report}
use sticker_firmware.Report.Queue.{
  Queue, Event, timer_after, run_work, expire, step, run_events, init,
}

abbrev pub as_count : Bool → ℕ
as_count b = if b then 1 else 0

abbrev pub is_capture : Effect → ℕ
is_capture (Effect.capture_at _ _) = 1
is_capture _ = 0

abbrev pub is_start : Effect → ℕ
is_start (Effect.start_timer _) = 1
is_start _ = 0

-- The calls of one kind.
pub count : (Effect → ℕ) → List Effect → ℕ
count kind [] = 0
count kind (e ∷ es) = kind e + count kind es

count-append :
    (kind : Effect → ℕ) (a b : List Effect) → count kind (a ++ b) ≡ count kind a + count kind b
unfolding count
count-append kind [] b = omega arith
count-append kind (e ∷ es) b = omega (arith, count-append kind es b)

run_report_calls :
    (cfg : Config) (w : World) (s : Slot) (periodic now : Bool)
    → let (slot, effects) = run_report cfg w s periodic now in
      (count is_capture effects ≡ (if cfg.calibration then 0 else as_count periodic))
      × (count is_start effects ≡ as_count periodic)
      × (periodic ≡ false → slot ≡ s)
unfolding run_report report_body after_gate count
run_report_calls cfg w s periodic now = ground arith

abbrev pub is_running : Option ℕ → Bool
is_running none = false
is_running (some _) = true

run_report_timer :
    (cfg : Config) (w : World) (s : Slot) (periodic now : Bool) (t : Option ℕ)
    → is_running (timer_after t (run_report cfg w s periodic now).1)
      ≡ (if periodic then true else is_running t)
unfolding run_report report_body
run_report_timer cfg w s periodic now t = ground arith

-- The cadence is held by the timer while it runs, and by the work item while that is pending.
abbrev pub token : Queue → ℕ
token q = as_count (is_running q.timer) + as_count q.periodic_work

abbrev pub is_suspend : Event → Bool
is_suspend Event.suspend = true
is_suspend _ = false

abbrev pub is_expiry : Event → ℕ
is_expiry Event.timer_expires = 1
is_expiry _ = 0

-- What one event does to the cadence.
pub record IsKept (e : Event) (q q' : Queue) (effects : List Effect) : Type 0 where
  token_kept : is_suspend e ≡ false → token q ≤ 1 → token q' ≡ token q
  token_none :
      token q ≡ 0 → (token q' ≡ 0) × (count is_capture effects ≡ 0) × (count is_start effects ≡ 0)
  budget :
      count is_capture effects + as_count q'.periodic_work ≤ as_count q.periodic_work + is_expiry e

run_work-IsKept :
    (cfg : Config) (w : World) (e : Event) (q q₀ : Queue) (periodic now : Bool)
    → q₀.timer ≡ q.timer
    → q₀.periodic_work ≡ (not periodic && q.periodic_work)
    → (periodic ≡ true → q.periodic_work ≡ true)
    → is_expiry e ≡ 0
    → let (q', effects) = run_work cfg w q₀ periodic now in IsKept e q q' effects
unfolding run_work
run_work-IsKept cfg w e q q₀ periodic now ht hp h x =
    let calls = run_report_calls cfg w q₀.slot periodic now in
    let timer = run_report_timer cfg w q₀.slot periodic now q₀.timer in
    record {
      token_kept = ground (arith, timer);
      token_none = ground (arith, calls, timer);
      budget = ground (arith, calls);
    }

idle-IsKept : (e : Event) (q : Queue) → is_expiry e ≡ 0 → IsKept e q q []
unfolding count
idle-IsKept e q x = record {
  token_kept = λ _ _. refl;
  token_none = ground arith;
  budget = ground arith;
}

guarded-IsKept :
    (pending : Bool) (e : Event) (q : Queue) (r : Queue × List Effect)
    → is_expiry e ≡ 0
    → (pending ≡ true → IsKept e q r.0 r.1)
    → let (q', effects) = if pending then r else (q, []) in IsKept e q q' effects
guarded-IsKept true e q r x h = h refl
guarded-IsKept false e q r x h = idle-IsKept e q x

step-IsKept :
    (cfg : Config) (e : Event) (q : Queue)
    → let (q', effects) = step cfg e q in IsKept e q q' effects
unfolding step expire count
step-IsKept cfg Event.timer_expires q = record {
  token_kept = ground arith;
  token_none = ground arith;
  budget = ground arith;
}
step-IsKept cfg Event.kick q = record {
  token_kept = ground arith;
  token_none = ground arith;
  budget = ground arith;
}
step-IsKept cfg Event.trigger q = record {
  token_kept = ground arith;
  token_none = ground arith;
  budget = ground arith;
}
step-IsKept cfg Event.force q = record {
  token_kept = ground arith;
  token_none = ground arith;
  budget = ground arith;
}
step-IsKept cfg Event.suspend q = record {
  token_kept = ground arith;
  token_none = ground arith;
  budget = ground arith;
}
step-IsKept cfg (Event.run_periodic w) q =
    guarded-IsKept q.periodic_work (Event.run_periodic w) q _ refl (λ e.
      run_work-IsKept cfg w (Event.run_periodic w) q (record q { periodic_work = false }) true false
        refl refl (λ _. e) refl)
step-IsKept cfg (Event.run_trigger w) q =
    guarded-IsKept q.trigger_work (Event.run_trigger w) q _ refl (λ e.
      run_work-IsKept cfg w (Event.run_trigger w) q (record q { trigger_work = false }) false false
        refl refl (λ x. ground arith) refl)
step-IsKept cfg (Event.run_force w) q =
    guarded-IsKept q.force_work (Event.run_force w) q _ refl (λ e.
      run_work-IsKept cfg w (Event.run_force w) q (record q { force_work = false }) false true refl
        refl (λ x. ground arith) refl)

abbrev pub no_suspend : List Event → Bool
no_suspend [] = true
no_suspend (e ∷ es) = not (is_suspend e) && no_suspend es

abbrev pub expiries : List Event → ℕ
expiries [] = 0
expiries (e ∷ es) = is_expiry e + expiries es

cadence_alive :
    (cfg : Config) (es : List Event) (q : Queue)
    → no_suspend es ≡ true
    → token q ≡ 1
    → token (run_events cfg es q).0 ≡ 1
unfolding run_events
cadence_alive cfg [] q n h = h
cadence_alive cfg (e ∷ es) q n h =
    let kept = step-IsKept cfg e q in
    cadence_alive cfg es (step cfg e q).0 (ground arith)
      (kept.token_kept (ground arith) (omega arith) ∙ h)

-- The cadence never stalls: from boot, through any events but a suspend, either the timer runs or
-- the periodic cycle is pending, and never both.
pub cadence_from_boot :
    (cfg : Config) (w : World) (s : Slot) (es : List Event)
    → no_suspend es ≡ true
    → token (run_events cfg es (init cfg w s)).0 ≡ 1
unfolding init
cadence_from_boot cfg w s es n = cadence_alive cfg es (init cfg w s) n refl

-- Triggers, forced reports and link-ready kicks never add to the history: with no cycle pending, any
-- run of events makes at most as many captures as the cadence timer expired.
pub captures_on_cadence :
    (cfg : Config) (es : List Event) (q : Queue)
    → count is_capture (run_events cfg es q).1 ≤ as_count q.periodic_work + expiries es
unfolding run_events count
captures_on_cadence cfg [] q = ground arith
captures_on_cadence cfg (e ∷ es) q =
    let kept = step-IsKept cfg e q in
    omega (
      arith,
      kept.budget,
      captures_on_cadence cfg es (step cfg e q).0,
      count-append is_capture (step cfg e q).1 (run_events cfg es (step cfg e q).0).1,
    )

stopped :
    (cfg : Config) (es : List Event) (q : Queue)
    → token q ≡ 0
    → let (q', effects) = run_events cfg es q in
      (token q' ≡ 0) × (count is_capture effects ≡ 0) × (count is_start effects ≡ 0)
unfolding run_events count
stopped cfg [] q h = (h, refl, refl)
stopped cfg (e ∷ es) q h =
    let (h', no_capture, no_start) = (step-IsKept cfg e q).token_none h in
    let (h'', no_captures, no_starts) = stopped cfg es (step cfg e q).0 h' in
    let calls = (step cfg e q).1 in
    let rest = (run_events cfg es (step cfg e q).0).1 in
    (
      h'',
      omega (arith, no_capture, no_captures, count-append is_capture calls rest),
      omega (arith, no_start, no_starts, count-append is_start calls rest),
    )

-- After a suspend, whatever was pending before and whatever triggers come, the timer stays off, no
-- cycle starts it, and nothing is captured.
pub suspend_ends :
    (cfg : Config) (es : List Event) (q : Queue)
    → let (q', effects) = run_events cfg (Event.suspend ∷ es) q in
      (token q' ≡ 0) × (count is_capture effects ≡ 0) × (count is_start effects ≡ 0)
unfolding run_events step
suspend_ends cfg es q = stopped cfg es (step cfg Event.suspend q).0 refl
