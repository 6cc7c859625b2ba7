-- ===== src/AlarmRules/Float.antt =====
-- The comparisons of C on `float`, IEEE 754 binary32, that app/src/app_alarm_rules.c uses, on the bit
-- patterns of the operands. A NaN fails every comparison, and the two zeros are equal.
use sticker_firmware.Base.{ℕ, ◌+◌, ◌/◌, ◌%◌, ◌^◌, Bool, not, ◌&&◌, ltb, leb, ◌==◌, if◌then◌else◌}

-- The exponent and fraction, which order the values of one sign.
abbrev pub magnitude_bits : ℕ → ℕ
magnitude_bits w = w % 2 ^ 31

abbrev pub is_negative : ℕ → Bool
is_negative w = not (w / 2 ^ 31 % 2 == 0)

abbrev pub is_nan : ℕ → Bool
is_nan w = ltb 0x7f800000 (magnitude_bits w)

abbrev above_zero : ℕ → ℕ
above_zero w = if is_negative w then 0 else magnitude_bits w

abbrev below_zero : ℕ → ℕ
below_zero w = if is_negative w then magnitude_bits w else 0

-- a <= b
unfoldable pub le_f32 : ℕ → ℕ → Bool
le_f32 a b =
    not (is_nan a)
    && not (is_nan b)
    && leb (above_zero a + below_zero b) (above_zero b + below_zero a)

-- a < b
unfoldable pub lt_f32 : ℕ → ℕ → Bool
lt_f32 a b =
    not (is_nan a)
    && not (is_nan b)
    && ltb (above_zero a + below_zero b) (above_zero b + below_zero a)

-- 0.0f
abbrev pub zero_f32 : ℕ
zero_f32 = 0

-- RULE_DWELL_MAX_S, 3600.0f
abbrev pub dwell_max_s : ℕ
dwell_max_s = 0x45610000

-- (float)UINT32_MAX, which rounds to 2^32
abbrev pub uint32_max_f32 : ℕ
uint32_max_f32 = 0x4f800000
