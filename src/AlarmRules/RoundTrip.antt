-- ===== src/AlarmRules/RoundTrip.antt =====
-- The rule codec: what is packed is unpacked.
use sticker_firmware.Base.{
  ℕ, ◌+◌, ◌*◌, ◌/◌, ◌%◌, ◌^◌, ◌<◌, ◌≡◌, refl, arith, true, some, ◌==◌, if◌then◌else◌, Bool-cases,
  inl, inr, length,
}
use sticker_firmware.AlarmRules.Rule.{Rule}
use sticker_firmware.AlarmRules.Pack.{pack_rule, is_present, unpack_rule}

-- The floats of the rule are 32 bits wide.
pub record Fits (r : Rule) : Type 0 where
  pub lo : r.lo < 2 ^ 32
  pub hi : r.hi < 2 ^ 32
  pub dwell : r.dwell < 2 ^ 32

-- The enabled flag as 0 or 1.
unfoldable pub normalized : Rule → Rule
normalized r = record r { enabled = if r.enabled == 0 then 0 else 1 }

le32 :
    (w : ℕ)
    → w < 2 ^ 32
    → w % 256 + w / 2 ^ 8 % 256 * 2 ^ 8 + w / 2 ^ 16 % 256 * 2 ^ 16 + w / 2 ^ 24 % 256 * 2 ^ 24 ≡ w
le32 w h = omega arith

-- A rule that is packed is unpacked as it was, with the enabled flag as 0 or 1.
pub unpack_rule-pack_rule : (r : Rule) → Fits r → unpack_rule (pack_rule r) ≡ some (normalized r)
unfolding unpack_rule pack_rule is_present normalized
unpack_rule-pack_rule r fits = elim (Bool-cases (r.enabled == 0)) [
  | inl e ↦ rw (e, le32 r.lo fits.lo, le32 r.hi fits.hi, le32 r.dwell fits.dwell)
  | inr e ↦ rw (e, le32 r.lo fits.lo, le32 r.hi fits.hi, le32 r.dwell fits.dwell)
]

pub is_present-pack_rule : (r : Rule) → is_present (pack_rule r) ≡ true
unfolding pack_rule is_present
is_present-pack_rule r = elim (Bool-cases (r.enabled == 0)) [ inl e ↦ rw e | inr e ↦ rw e ]

pub length-pack_rule : (r : Rule) → length (pack_rule r) ≡ 18
unfolding pack_rule
length-pack_rule r = refl
