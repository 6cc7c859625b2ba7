-- ===== src/AlarmRules/Tests.antt =====
-- Runs of app_alarm_rules.c, and its theorems applied.
use sticker_firmware.Base.{ℕ, ◌≡◌, refl, arith, true, false, none, some, [], ◌∷◌}
use sticker_firmware.SensorTypes.Types.{Field}
use sticker_firmware.SensorTypes.Lookup.{find_type, type_get, channel_of, channel_get, cap_on}
use sticker_firmware.AlarmRules.Float.{le_f32, lt_f32}
use sticker_firmware.AlarmRules.Rule.{
  Rule, Types, slot_type_in, targets, target_valid_for, target_valid, rule_channel, rule_stale_in,
  armed_on, rule_armed, dwell_range_valid, threshold_band_valid, state_levels_valid,
  rate_limit_valid, shape_valid, rule_valid,
}
use sticker_firmware.AlarmRules.Pack.{pack_rule, unpack_rule}
use sticker_firmware.AlarmRules.Store.{
  Store, blank, get, clear_all, first_free_below, first_free, stale_count, reload_from_config,
}
use sticker_firmware.AlarmRules.RoundTrip.{Fits, normalized, unpack_rule-pack_rule}
use sticker_firmware.AlarmRules.Reload.{
  set_op, clear_op, reload_op, apply_all, apply_all-IsCoherent,
}
use sticker_firmware.AlarmRules.Coherent.{IsCoherent}
use sticker_firmware.AlarmRules.Crud.{clear_all_lem}
use sticker_firmware.AlarmRules.Faults.{stales_below, stale_count_lem}

-- A subtraction of floats that is right on the operands of these runs: 30 - 20.
abbrev sub_f32 : ℕ → ℕ → ℕ
sub_f32 a b = 0x41200000

-- The motherboard's temperature outside 20 to 30 degrees, with a deadband of 1.
abbrev warm : Rule
warm = record {
  slot = 0;
  channel = 0;
  sensor_type = 1;
  enabled = 7;
  from_state = 0;
  to_state = 0;
  lo = 0x41a00000;
  hi = 0x41f00000;
  dwell = 0x3f800000;
}

warm-Fits : Fits warm
warm-Fits = record { lo = omega arith; hi = omega arith; dwell = omega arith }

-- A band of one value would latch the alarm.
empty_band_refused : rule_valid sub_f32 (record warm { hi = 0x41a00000 }) ≡ false
unfolding rule_valid rule_channel target_valid target_valid_for targets shape_valid
    dwell_range_valid threshold_band_valid state_levels_valid rate_limit_valid le_f32 lt_f32
    channel_get type_get find_type channel_of
empty_band_refused = refl

abbrev types : Types
types = record { sensor1_type = 2; sensor2_type = 0; sensor3_type = 0; sensor4_type = 3 }

abbrev empty : Store
empty = record {
  types = types;
  field = λ _. blank;
  rules = λ _. record { used = false; rule = warm };
  invalid_mask = 0;
}

abbrev caps_on : Field → ℕ
caps_on _ = 1

warm_armed : rule_armed caps_on types warm ≡ true
unfolding rule_armed armed_on rule_stale_in slot_type_in cap_on rule_channel target_valid
    target_valid_for targets channel_get type_get find_type channel_of
warm_armed = refl

first_free_of_empty : first_free empty ≡ some 0
unfolding first_free first_free_below
first_free_of_empty = refl

unpack_rule-pack_rule_example : unpack_rule (pack_rule warm) ≡ some (normalized warm)
unpack_rule-pack_rule_example = unpack_rule-pack_rule warm warm-Fits

apply_all-IsCoherent_example : IsCoherent sub_f32 (
    apply_all sub_f32
      (set_op 3 warm warm-Fits ∷ clear_op 2 ∷ reload_op ∷ [])
      (reload_from_config sub_f32 empty).0)
apply_all-IsCoherent_example =
    apply_all-IsCoherent sub_f32 empty (set_op 3 warm warm-Fits ∷ clear_op 2 ∷ reload_op ∷ [])

clear_all_lem_example : get (clear_all empty) 5 ≡ none
clear_all_lem_example = clear_all_lem empty 5

stale_count_lem_example : stale_count empty ≡ stales_below types empty.rules 16
stale_count_lem_example = stale_count_lem empty
