-- ===== src/Alarm/Hysteresis.antt =====
-- A threshold rule is a comparator with hysteresis.
use sticker_firmware.Base.{ℕ, Bool, not, ◌==◌, if◌then◌else◌}
use sticker_firmware.AlarmRules.Float.{lt_f32}
use sticker_firmware.AlarmRules.Rule.{Rule}
use sticker_firmware.Alarm.Latch.{Arith, Latch, type_none, type_high}
use sticker_firmware.Alarm.Threshold.{deadband}

-- The side that is latched: ALARM_TYPE_NONE, LOW or HIGH.
pub side : Latch → ℕ
side rt = if rt.active then rt.type else type_none

-- The comparator: a limit that the value is beyond decides. Inside the limits a latched side is held
-- until the value is past the deadband of that side.
pub comparator : ℕ → ℕ → Bool → ℕ
comparator before beyond past_deadband =
    if not (beyond == type_none) then beyond else if past_deadband then type_none else before

-- The value is past the deadband of a side.
pub past_deadband : Arith → Rule → ℕ → ℕ → Bool
past_deadband ar r before value =
    if before == type_high
    then lt_f32 value (ar.sub_f32 r.hi (deadband r))
    else lt_f32 (ar.add_f32 r.lo (deadband r)) value
