-- ===== src/AlarmRules/Valid.antt =====
-- What a rule that passes the checks can rely on.
use sticker_firmware.Base.{
  ℕ, ◌+◌, ◌≤◌, ◌≡◌, ◌≢◌, ◌↔◌, refl, arith, bit_and, true, false, Option, none, some,
}
use sticker_firmware.SensorTypes.Types.{
  Kind, Field, Channel, SensorType, flag_retired, flag_watchdog_only, type_motherboard,
}
use sticker_firmware.SensorTypes.Lookup.{type_get, channel_get, cap_on}
use sticker_firmware.AlarmRules.Float.{is_nan, lt_f32}
use sticker_firmware.AlarmRules.Rule.{
  Rule, Types, slot_type_in, is_none, targets, target_valid_for, target_valid, rule_channel,
  rule_stale_in, armed_on, rule_armed,
}

-- The shape that the kind of the channel asks for: no float that the evaluation compares is a NaN,
-- a threshold's band is not empty, and a state's levels are 0 or 1.
abbrev pub HasShape : Rule → Kind → Type 0
HasShape r Kind.threshold =
    (is_nan r.lo ≡ false)
    × (is_nan r.hi ≡ false)
    × (is_nan r.dwell ≡ false)
    × (lt_f32 r.lo r.hi ≡ true)
HasShape r Kind.state = (r.from_state ≤ 1) × (r.to_state ≤ 1) × (is_nan r.dwell ≡ false)
HasShape r Kind.rate = (is_nan r.hi ≡ false) × (is_nan r.dwell ≡ false)
HasShape r Kind.none_kind = ⊥

-- The target of a rule.
pub record IsTarget (r : Rule) (c : Channel) : Type 0 where
  pub found : channel_get r.sensor_type r.channel ≡ some c
  pub slot_in_range : r.slot ≤ 4
  pub motherboard_only : (r.slot ≡ 0) ↔ (r.sensor_type ≡ type_motherboard)
  pub alarms : is_none c.kind ≡ false
  pub not_retired : bit_and c.flags (flag_retired + flag_watchdog_only) ≡ 0

targets_lem :
    (o : Option Channel) (c : Channel)
    → o ≡ some c
    → targets o ≡ true
    → (is_none c.kind ≡ false) × (bit_and c.flags (flag_retired + flag_watchdog_only) ≡ 0)
unfolding targets
targets_lem o c e h = ground arith

target_valid_for-IsTarget :
    (o : Option SensorType) (r : Rule) (c : Channel)
    → channel_get r.sensor_type r.channel ≡ some c
    → target_valid_for o r.slot r.channel r.sensor_type ≡ true
    → IsTarget r c
unfolding target_valid_for
target_valid_for-IsTarget none r c e h = ground arith
target_valid_for-IsTarget (some t) r c e h =
    let on = targets_lem (channel_get r.sensor_type r.channel) c e in
    record {
      found = e;
      slot_in_range = ground arith;
      motherboard_only = ground arith;
      alarms = ground (arith, on);
      not_retired = ground (arith, on);
    }

rule_channel-IsTarget : (r : Rule) (c : Channel) → rule_channel r ≡ some c → IsTarget r c
unfolding rule_channel target_valid
rule_channel-IsTarget r c e =
    target_valid_for-IsTarget (type_get r.sensor_type) r c (ground arith) (ground arith)

armed_on_lem :
    (config : Field → ℕ) (types : Types) (r : Rule) (o : Option Channel)
    → armed_on config types r o ≡ true
    → (c : Channel) × (o ≡ some c)
      × (r.enabled ≢ 0)
      × (rule_stale_in types r ≡ false)
      × (cap_on config c.cap ≡ true)
unfolding armed_on
armed_on_lem config types r none h = ground arith
armed_on_lem config types r (some c) h = (c, refl, ground arith, ground arith, ground arith)

-- An armed rule is enabled, its slot holds the type that it was written for, and it targets an alarm
-- channel whose capability is on.
pub rule_armed_lem :
    (config : Field → ℕ) (types : Types) (r : Rule)
    → rule_armed config types r ≡ true
    → (c : Channel) × IsTarget r c
      × (r.enabled ≢ 0)
      × (r.sensor_type ≡ slot_type_in types r.slot)
      × (cap_on config c.cap ≡ true)
unfolding rule_armed rule_stale_in
rule_armed_lem config types r h =
    let (c, e, enabled, fresh, cap) = armed_on_lem config types r (rule_channel r) h in
    (c, rule_channel-IsTarget r c e, enabled, ground arith, cap)
