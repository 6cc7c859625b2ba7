-- ===== src/Alarm/State.antt =====
-- app/src/app_alarm.c: `eval_state`, at the uptime `now`.
use sticker_firmware.Base.{
  ℕ, ◌+◌, Bool, true, false, not, ◌&&◌, [], ◌∷◌, ◌++◌, leb, ◌==◌, if◌then◌else◌, pos,
}
use sticker_firmware.AlarmRules.Rule.{Rule}
use sticker_firmware.Alarm.Latch.{
  Arith, type_trigger, Latch, Event, collect, Out, quiet, edge, rule_hold_ms, rule_is_momentary,
  rule_is_stillness,
}

abbrev pub level_of : Bool → ℕ
level_of cur = if cur then 1 else 0

-- The end of each branch: the level seen is remembered.
abbrev pub seen : ℕ → Out → Out
seen lvl o = record o { latch = record o.latch { have_prev_state = true; prev_state = lvl } }

abbrev pub trigger : ℕ → Rule → Bool → ℕ → Event
trigger idx r active lvl = collect idx r active type_trigger true (pos lvl)

-- A rule that is not enabled.
unfoldable pub eval_disabled : ℕ → Rule → Latch → Out
eval_disabled idx r rt =
    if rt.active
    then edge (record rt { active = false; oneshot_expiry = 0; confirm_deadline = 0 })
        (trigger idx r false 0)
    else quiet (record rt { confirm_deadline = 0 })

-- A momentary channel, 0 -> 0.
unfoldable pub eval_stillness : ℕ → Rule → Latch → Bool → ℕ → ℕ → Out
eval_stillness idx r rt cur hold now =
    let rt' = record rt { confirm_deadline = now + hold } in
    if not cur
    then quiet rt
    else if rt.active
    then edge (record rt' { active = false }) (trigger idx r false 1)
    else quiet rt'

-- The lapsed window of a momentary channel.
unfoldable pub expire_momentary : ℕ → Rule → Latch → Bool → ℕ → Out
expire_momentary idx r rt is_edge now =
    let rt' = record rt { active = false; oneshot_expiry = 0 } in
    if rt.active && not (rt.oneshot_expiry == 0) && leb rt.oneshot_expiry now
    then (if is_edge then quiet rt' else edge rt' (trigger idx r false 0))
    else quiet rt

-- A pulse of a momentary channel, after its lapsed window.
unfoldable pub pulse : ℕ → Rule → Out → Bool → Bool → ℕ → ℕ → Out
pulse idx r o cur is_edge hold now =
    if cur && not o.latch.active
    then record {
      latch = record o.latch { active = true; oneshot_expiry = now + hold };
      events = o.events ++ trigger idx r true (level_of cur) ∷ [];
      send = true;
    }
    else if cur && not is_edge
    then record o { latch = record o.latch { oneshot_expiry = now + hold } }
    else o

unfoldable pub eval_momentary : ℕ → Rule → Latch → Bool → Bool → ℕ → ℕ → Out
eval_momentary idx r rt cur is_edge hold now =
    pulse idx r (expire_momentary idx r rt is_edge now) cur is_edge hold now

-- from != to: the transition, its confirm dwell, and the hold
unfoldable pub eval_edge : ℕ → Rule → Latch → ℕ → ℕ → ℕ → Out
eval_edge idx r rt lvl hold now =
    let raw_transition = rt.have_prev_state && rt.prev_state == r.from_state && lvl == r.to_state in
    if raw_transition && rt.confirm_deadline == 0
    then (if hold == 0
        then edge (record rt { active = true; oneshot_expiry = now }) (trigger idx r true lvl)
        else quiet (record rt { confirm_deadline = now + hold }))
    else if not (rt.confirm_deadline == 0) && not (lvl == r.to_state)
    then quiet (record rt { confirm_deadline = 0 })
    else if not (rt.confirm_deadline == 0) && leb rt.confirm_deadline now
    then edge (record rt { confirm_deadline = 0; active = true; oneshot_expiry = now + hold })
        (trigger idx r true lvl)
    else quiet rt

-- from == to: the level, gated by the confirm dwell
unfoldable pub eval_level : ℕ → Rule → Latch → ℕ → ℕ → ℕ → Out
eval_level idx r rt lvl hold now =
    if not (lvl == r.to_state)
    then (if rt.active
        then edge (record rt { confirm_deadline = 0; active = false }) (trigger idx r false lvl)
        else quiet (record rt { confirm_deadline = 0 }))
    else if rt.active
    then quiet rt
    else if hold == 0
    then edge (record rt { active = true }) (trigger idx r true lvl)
    else if rt.confirm_deadline == 0
    then quiet (record rt { confirm_deadline = now + hold })
    else if leb rt.confirm_deadline now
    then edge (record rt { confirm_deadline = 0; active = true }) (trigger idx r true lvl)
    else quiet rt

-- `eval_state`
unfoldable pub eval_state : Arith → ℕ → Rule → Latch → Bool → ℕ → Out
eval_state ar idx r rt cur now =
    let is_edge = not (r.from_state == r.to_state) in
    let lvl = level_of cur in
    let hold = rule_hold_ms ar r in
    seen lvl (
      if r.enabled == 0
      then eval_disabled idx r rt
      else if rule_is_momentary r && rule_is_stillness r
      then eval_stillness idx r rt cur hold now
      else if rule_is_momentary r
      then eval_momentary idx r rt cur is_edge hold now
      else if is_edge
      then eval_edge idx r rt lvl hold now
      else eval_level idx r rt lvl hold now)
