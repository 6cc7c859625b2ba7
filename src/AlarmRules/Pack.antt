-- ===== src/AlarmRules/Pack.antt =====
-- app/src/app_alarm_rules.c: the 18 bytes of a rule in the configuration, little-endian.
use sticker_firmware.Base.{
  ℕ, ◌+◌, ◌*◌, ◌/◌, ◌%◌, ◌^◌, bit_or, bit_and, Bool, not, Option, none, some, List, [], ◌∷◌, ◌++◌,
  ◌==◌, if◌then◌else◌, get_or,
}
use sticker_firmware.AlarmRules.Rule.{Rule}

-- RULE_PACK_LEN, RULE_FLAG_PRESENT and RULE_FLAG_ENABLED
abbrev pub rule_pack_len : ℕ
rule_pack_len = 18

abbrev pub flag_present : ℕ
flag_present = 1

abbrev pub flag_enabled : ℕ
flag_enabled = 2

-- `memcpy` of a float to bytes, and back
abbrev pub store_le32 : ℕ → List ℕ
store_le32 w = w % 256 ∷ w / 2 ^ 8 % 256 ∷ w / 2 ^ 16 % 256 ∷ w / 2 ^ 24 % 256 ∷ []

abbrev pub get_le32 : List ℕ → ℕ → ℕ
get_le32 b i =
    get_or b i 0
    + get_or b (i + 1) 0 * 2 ^ 8
    + get_or b (i + 2) 0 * 2 ^ 16
    + get_or b (i + 3) 0 * 2 ^ 24

-- `pack_rule`
unfoldable pub pack_rule : Rule → List ℕ
pack_rule r =
    bit_or flag_present (if r.enabled == 0 then 0 else flag_enabled)
      ∷ r.slot
      ∷ r.channel
      ∷ r.sensor_type
      ∷ r.from_state
      ∷ r.to_state
      ∷ store_le32 r.lo
    ++ store_le32 r.hi
    ++ store_le32 r.dwell

unfoldable pub is_present : List ℕ → Bool
is_present field = not (bit_and (get_or field 0 0) flag_present == 0)

-- `unpack_rule`
unfoldable pub unpack_rule : List ℕ → Option Rule
unpack_rule field =
    if not (is_present field)
    then none
    else some record {
      enabled = if bit_and (get_or field 0 0) flag_enabled == 0 then 0 else 1;
      slot = get_or field 1 0;
      channel = get_or field 2 0;
      sensor_type = get_or field 3 0;
      from_state = get_or field 4 0;
      to_state = get_or field 5 0;
      lo = get_le32 field 6;
      hi = get_le32 field 10;
      dwell = get_le32 field 14;
    }
