-- ===== src/Alarm/Rate.antt =====
-- app/src/app_alarm.c: `eval_count`, at the uptime `now`. The deltas of times and of counts are of
-- a later and an earlier value.
use sticker_firmware.Base.{
  ℕ, ◌-◌, ◌*◌, Bool, true, false, not, ◌&&◌, ◌||◌, leb, ltb, ◌==◌, if◌then◌else◌, to_i32,
}
use sticker_firmware.AlarmRules.Float.{le_f32, lt_f32, zero_f32}
use sticker_firmware.AlarmRules.Rule.{Rule}
use sticker_firmware.Alarm.Latch.{
  Arith, type_trigger, Latch, collect, Out, quiet, edge, rule_hold_ms,
}

-- A new window from `now` on.
abbrev pub new_window : Latch → ℕ → ℕ → Latch
new_window rt cur now = record rt { prev_count = cur; count_window_start = now }

unfoldable pub window_ms : Arith → Rule → ℕ → ℕ
window_ms ar r interval_report =
    if lt_f32 zero_f32 r.dwell then rule_hold_ms ar r else interval_report * 1000

-- The delta of the window reaches `hi`.
unfoldable pub is_over : Arith → Rule → Latch → ℕ → Bool
is_over ar r rt cur = lt_f32 zero_f32 r.hi && le_f32 r.hi (ar.of_u32 (cur - rt.prev_count))

-- The first pass of a latch, or a rule that is not enabled.
unfoldable pub baseline : ℕ → Rule → Latch → ℕ → ℕ → Out
baseline idx r rt cur now =
    let rt' = record rt {
      active = false;
      have_prev_count = true;
      prev_count = cur;
      count_window_start = now;
    } in
    if rt.active then edge rt' (collect idx r false type_trigger true (to_i32 cur)) else quiet rt'

-- The window, for a counter that did not drop.
unfoldable pub eval_window : ℕ → Rule → Latch → ℕ → ℕ → Bool → Bool → Out
eval_window idx r rt cur now over closed =
    if not rt.active
    then (if over
        then edge (new_window (record rt { active = true }) cur now)
            (collect idx r true type_trigger true (to_i32 cur))
        else if not closed
        then quiet rt
        else quiet (new_window rt cur now))
    else if not closed
    then quiet rt
    else if not over
    then edge (new_window (record rt { active = false }) cur now)
        (collect idx r false type_trigger true (to_i32 cur))
    else quiet (new_window rt cur now)

-- `eval_count`
unfoldable pub eval_count : Arith → ℕ → ℕ → Rule → Latch → ℕ → ℕ → Out
eval_count ar interval_report idx r rt cur now =
    if not rt.have_prev_count || r.enabled == 0
    then baseline idx r rt cur now
    else if ltb cur rt.prev_count
    then quiet (new_window rt cur now)
    else eval_window idx r rt cur now (is_over ar r rt cur)
        (leb (window_ms ar r interval_report) (now - rt.count_window_start))
