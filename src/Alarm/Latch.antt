-- ===== src/Alarm/Latch.antt =====
-- app/src/app_alarm.c: the latch of a rule, the edges, and what the evaluations share. The arithmetic
-- of floats is the compiler's library, a parameter; the comparisons are those of AlarmRules.Float.
use sticker_firmware.Base.{
  ℕ, Bool, true, false, not, ◌&&◌, Option, none, some, List, [], ◌∷◌, ◌==◌, if◌then◌else◌, ℤ,
  bit_and,
}
use sticker_firmware.SensorTypes.Types.{Channel, flag_momentary}
use sticker_firmware.AlarmRules.Float.{le_f32, zero_f32}
use sticker_firmware.AlarmRules.Rule.{Rule, rule_channel}

-- The operations on floats: addition, subtraction, the conversion of a `uint32_t`, seconds to
-- milliseconds, and `lroundf` of a product.
pub record Arith : Type 0 where
  pub add_f32 : ℕ → ℕ → ℕ
  pub sub_f32 : ℕ → ℕ → ℕ
  pub of_u32 : ℕ → ℕ
  pub to_ms : ℕ → ℕ
  pub scaled : ℕ → ℕ → ℤ

-- ALARM_TYPE_NONE, ALARM_TYPE_LOW, ALARM_TYPE_HIGH, ALARM_TYPE_TRIGGER and ALARM_TYPE_NO_DATA
abbrev pub type_none : ℕ
type_none = 0

abbrev pub type_low : ℕ
type_low = 1

abbrev pub type_high : ℕ
type_high = 2

abbrev pub type_trigger : ℕ
type_trigger = 3

abbrev pub type_no_data : ℕ
type_no_data = 4

-- `struct rstate`; its times are uptimes in milliseconds.
pub record Latch : Type 0 where
  pub used : Bool
  pub active : Bool
  pub type : ℕ
  pub prev_state : ℕ
  pub have_prev_state : Bool
  pub prev_count : ℕ
  pub have_prev_count : Bool
  pub count_window_start : ℕ
  pub oneshot_expiry : ℕ
  pub confirm_deadline : ℕ
  pub last_rule : Rule

abbrev pub zero_rule : Rule
zero_rule = record {
  slot = 0;
  channel = 0;
  sensor_type = 0;
  enabled = 0;
  from_state = 0;
  to_state = 0;
  lo = 0;
  hi = 0;
  dwell = 0;
}

-- `(struct rstate){0}`
abbrev pub zero_latch : Latch
zero_latch = record {
  used = false;
  active = false;
  type = 0;
  prev_state = 0;
  have_prev_state = false;
  prev_count = 0;
  have_prev_count = false;
  count_window_start = 0;
  oneshot_expiry = 0;
  confirm_deadline = 0;
  last_rule = zero_rule;
}

-- `struct app_cmd_alarm_event` as far as it is collected; `active` is the activation edge.
pub record Event : Type 0 where
  pub rule : ℕ
  pub slot : ℕ
  pub channel : ℕ
  pub active : Bool
  pub type : ℕ
  pub sensor_type : ℕ
  pub has_value : Bool
  pub value : ℤ

-- `alarm_collect`
unfoldable pub collect : ℕ → Rule → Bool → ℕ → Bool → ℤ → Event
collect idx r active type has_value value = record {
  rule = idx;
  slot = r.slot;
  channel = r.channel;
  active = active;
  type = type;
  sensor_type = r.sensor_type;
  has_value = has_value;
  value = value;
}

-- The latch after an evaluation, the edges collected in it, and whether it sets `*should_send`.
pub record Out : Type 0 where
  pub latch : Latch
  pub events : List Event
  pub send : Bool

abbrev pub quiet : Latch → Out
quiet rt = record { latch = rt; events = []; send = false }

abbrev pub edge : Latch → Event → Out
edge rt e = record { latch = rt; events = e ∷ []; send = true }

abbrev scale_of : Option Channel → ℕ
scale_of none = 0x3f800000
scale_of (some c) = c.wire_scale

-- `rule_scale`
unfoldable pub rule_scale : Arith → Rule → ℕ → ℤ
rule_scale ar r v = ar.scaled v (scale_of (rule_channel r))

-- `rule_hold_ms`
unfoldable pub rule_hold_ms : Arith → Rule → ℕ
rule_hold_ms ar r = ar.to_ms (if le_f32 zero_f32 r.dwell then r.dwell else zero_f32)

unfoldable pub channel_momentary : Option Channel → Bool
channel_momentary none = false
channel_momentary (some c) = not (bit_and c.flags flag_momentary == 0)

-- `rule_is_momentary`
unfoldable pub rule_is_momentary : Rule → Bool
rule_is_momentary r = channel_momentary (rule_channel r)

-- `rule_is_stillness`
unfoldable pub rule_is_stillness : Rule → Bool
rule_is_stillness r = r.from_state == 0 && r.to_state == 0

-- `rt_edge_type`
unfoldable pub edge_type : Latch → ℕ
edge_type rt = if rt.type == type_none then type_trigger else rt.type
