-- ===== src/Alarm/Threshold.antt =====
-- app/src/app_alarm.c: `eval_threshold`.
use sticker_firmware.Base.{
  ℕ, Bool, true, false, not, ◌&&◌, ◌||◌, [], ◌∷◌, ◌++◌, ◌==◌, if◌then◌else◌, pos,
}
use sticker_firmware.AlarmRules.Float.{is_nan, le_f32, lt_f32, zero_f32}
use sticker_firmware.AlarmRules.Rule.{Rule}
use sticker_firmware.Alarm.Latch.{
  Arith, type_none, type_low, type_high, Latch, collect, Out, quiet, edge, rule_scale,
}

-- `want_type`: the limit that the value is beyond
unfoldable pub want_type : Rule → ℕ → ℕ
want_type r value =
    if lt_f32 value r.lo then type_low else if lt_f32 r.hi value then type_high else type_none

-- `db`
unfoldable pub deadband : Rule → ℕ
deadband r = if le_f32 zero_f32 r.dwell then r.dwell else zero_f32

unfoldable pub is_cleared : Arith → Rule → Latch → ℕ → Bool
is_cleared ar r rt value =
    if rt.type == type_high
    then lt_f32 value (ar.sub_f32 r.hi (deadband r))
    else lt_f32 (ar.add_f32 r.lo (deadband r)) value

-- The end of `eval_threshold`, for a latch that is not active, with what was collected before.
unfoldable pub activate : Arith → ℕ → Rule → Out → ℕ → ℕ → Bool × Out
activate ar idx r o value want = if want == type_none then (false, o) else (
  true,
  record {
    latch = record o.latch { active = true; type = want };
    events = o.events ++ collect idx r true want true (rule_scale ar r value) ∷ [];
    send = true;
  },
)

unfoldable pub drop_latch : ℕ → Rule → Latch → Out
drop_latch idx r rt =
    if rt.active
    then edge (record rt { active = false }) (collect idx r false rt.type false (pos 0))
    else quiet rt

-- The branch of a latched rule.
unfoldable pub eval_latched : Arith → ℕ → Rule → Latch → ℕ → Bool × Out
eval_latched ar idx r rt value =
    let want = want_type r value in
    if want == rt.type
    then (true, quiet rt)
    else if not (is_cleared ar r rt value) && want == type_none
    then (true, quiet rt)
    else activate ar idx r
        (edge (record rt { active = false })
          (collect idx r false rt.type true (rule_scale ar r value)))
        value want

-- `eval_threshold`
unfoldable pub eval_threshold : Arith → ℕ → Rule → Latch → ℕ → Bool × Out
eval_threshold ar idx r rt value =
    if r.enabled == 0 || is_nan value
    then (false, drop_latch idx r rt)
    else if rt.active
    then eval_latched ar idx r rt value
    else activate ar idx r (quiet rt) value (want_type r value)
