-- ===== src/AlarmRules/Rule.antt =====
-- app/src/app_alarm_rules.c: which rules are valid, stale and armed. The subtraction of floats is the
-- compiler's library, a parameter.
use sticker_firmware.Base.{
  ℕ, zero, suc, ◌+◌, bit_and, Bool, true, false, not, ◌&&◌, ◌||◌, Option, none, some, ltb, leb,
  ◌==◌, if◌then◌else◌,
}
use sticker_firmware.SensorTypes.Types.{
  Kind, Field, Channel, SensorType, flag_retired, flag_watchdog_only, type_none, type_motherboard,
}
use sticker_firmware.SensorTypes.Lookup.{type_get, channel_get, cap_on}
use sticker_firmware.AlarmRules.Float.{le_f32, lt_f32, zero_f32, dwell_max_s, uint32_max_f32}

-- `struct app_alarm_rule`, with the bit patterns of its floats
pub record Rule : Type 0 where
  pub slot : ℕ
  pub channel : ℕ
  pub sensor_type : ℕ
  pub enabled : ℕ
  pub from_state : ℕ
  pub to_state : ℕ
  pub lo : ℕ
  pub hi : ℕ
  pub dwell : ℕ

-- The `sensorN_type` of a configuration.
pub record Types : Type 0 where
  pub sensor1_type : ℕ
  pub sensor2_type : ℕ
  pub sensor3_type : ℕ
  pub sensor4_type : ℕ

-- APP_ALARM_SLOT_MAX
abbrev pub slot_max : ℕ
slot_max = 4

-- `slot_type_in`
unfoldable pub slot_type_in : Types → ℕ → ℕ
slot_type_in c zero = type_motherboard
slot_type_in c (suc zero) = c.sensor1_type
slot_type_in c (suc (suc zero)) = c.sensor2_type
slot_type_in c (suc (suc (suc zero))) = c.sensor3_type
slot_type_in c (suc (suc (suc (suc zero)))) = c.sensor4_type
slot_type_in c (suc (suc (suc (suc (suc _))))) = type_none

abbrev pub bool_eq : Bool → Bool → Bool
bool_eq true b = b
bool_eq false b = not b

abbrev pub is_none : Kind → Bool
is_none Kind.none_kind = true
is_none _ = false

-- The last test of `app_alarm_rule_valid`.
unfoldable pub targets : Option Channel → Bool
targets none = false
targets (some c) = not (is_none c.kind) && bit_and c.flags (flag_retired + flag_watchdog_only) == 0

-- `app_alarm_rule_valid`, given what `app_sensor_type_get` returned.
unfoldable pub target_valid_for : Option SensorType → ℕ → ℕ → ℕ → Bool
target_valid_for none slot channel sensor_type = false
target_valid_for (some t) slot channel sensor_type =
    if ltb slot_max slot
    then false
    else if not (bool_eq (slot == 0) (sensor_type == type_motherboard))
        || not (slot == 0) && t.w1_family == 0
    then false
    else targets (channel_get sensor_type channel)

unfoldable pub target_valid : ℕ → ℕ → ℕ → Bool
target_valid slot channel sensor_type =
    target_valid_for (type_get sensor_type) slot channel sensor_type

-- `app_alarm_rule_channel`
unfoldable pub rule_channel : Rule → Option Channel
rule_channel r =
    if not (target_valid r.slot r.channel r.sensor_type)
    then none
    else channel_get r.sensor_type r.channel

-- `rule_stale_in`
unfoldable pub rule_stale_in : Types → Rule → Bool
rule_stale_in c r = not (r.sensor_type == slot_type_in c r.slot)

-- `app_alarm_rule_armed`, given the channel
unfoldable pub armed_on : (Field → ℕ) → Types → Rule → Option Channel → Bool
armed_on config c r none = false
armed_on config c r (some ch) =
    if r.enabled == 0 || rule_stale_in c r then false else cap_on config ch.cap

unfoldable pub rule_armed : (Field → ℕ) → Types → Rule → Bool
rule_armed config c r = armed_on config c r (rule_channel r)

-- `rule_dwell_range_valid`
unfoldable pub dwell_range_valid : (ℕ → ℕ → ℕ) → Rule → Kind → Bool
dwell_range_valid sub_f32 r Kind.threshold =
    le_f32 zero_f32 r.dwell && le_f32 r.dwell (sub_f32 r.hi r.lo)
dwell_range_valid sub_f32 r _ = le_f32 zero_f32 r.dwell && le_f32 r.dwell dwell_max_s

-- `rule_threshold_band_valid`
unfoldable pub threshold_band_valid : Rule → Kind → Bool
threshold_band_valid r Kind.threshold = lt_f32 r.lo r.hi
threshold_band_valid r _ = true

-- `rule_state_levels_valid`
unfoldable pub state_levels_valid : Rule → Kind → Bool
state_levels_valid r Kind.state = leb r.from_state 1 && leb r.to_state 1
state_levels_valid r _ = true

-- `rule_rate_limit_valid`
unfoldable pub rate_limit_valid : Rule → Kind → Bool
rate_limit_valid r Kind.rate = le_f32 zero_f32 r.hi && le_f32 r.hi uint32_max_f32
rate_limit_valid r _ = true

-- `rule_valid` for the channel of the rule.
unfoldable pub shape_valid : (ℕ → ℕ → ℕ) → Rule → Option Channel → Bool
shape_valid sub_f32 r none = false
shape_valid sub_f32 r (some c) =
    dwell_range_valid sub_f32 r c.kind
    && threshold_band_valid r c.kind
    && state_levels_valid r c.kind
    && rate_limit_valid r c.kind

-- `rule_valid`
unfoldable pub rule_valid : (ℕ → ℕ → ℕ) → Rule → Bool
rule_valid sub_f32 r = shape_valid sub_f32 r (rule_channel r)
