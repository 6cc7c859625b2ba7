-- ===== src/AlarmRules/Store.antt =====
-- app/src/app_alarm_rules.c: the rules by index. The configuration's fields alarm_0 to alarm_15 and
-- the cache `m_rules` are functions of the index, which every operation checks; each operation runs
-- under the lock, so the model has no interleaving inside one.
use sticker_firmware.Base.{
  ℕ, zero, suc, ◌+◌, ◌^◌, bit_or, Bool, true, false, not, ◌&&◌, Option, none, some, List, replicate,
  leb, ltb, ◌==◌, if◌then◌else◌, Ret, ok, fail, Errno, ◌/◌, ◌%◌,
}
use sticker_firmware.AlarmRules.Rule.{Rule, Types, rule_valid, rule_stale_in}
use sticker_firmware.AlarmRules.Pack.{pack_rule, unpack_rule, is_present, rule_pack_len}

-- APP_ALARM_RULE_COUNT
abbrev pub rule_count : ℕ
rule_count = 16

-- `struct app_alarm_entry`
pub record Entry : Type 0 where
  pub used : Bool
  pub rule : Rule

-- The configuration's slot types and rule fields, `m_rules` and `m_invalid_mask`.
pub record Store : Type 0 where
  pub types : Types
  pub field : ℕ → List ℕ
  pub rules : ℕ → Entry
  pub invalid_mask : ℕ

-- An array with one element written.
abbrev pub put {ℓ} : {A : Type ℓ} → (ℕ → A) → ℕ → A → ℕ → A
put f i v j = if i == j then v else f j

abbrev pub blank : List ℕ
blank = replicate rule_pack_len 0

-- `app_alarm_rules_count`
unfoldable pub count_below : (ℕ → Entry) → ℕ → ℕ
count_below rules zero = 0
count_below rules (suc i) = let n = count_below rules i in if (rules i).used then suc n else n

unfoldable pub count : Store → ℕ
count s = count_below s.rules rule_count

-- `app_alarm_rules_get`
unfoldable pub get : Store → ℕ → Option Rule
get s rule = if ltb rule rule_count && (s.rules rule).used then some (s.rules rule).rule else none

-- `app_alarm_rules_occupied`
unfoldable pub occupied : Store → ℕ → Bool
occupied s rule = if leb rule_count rule then false else (s.rules rule).used

abbrev pub or_here : Option ℕ → Bool → ℕ → Option ℕ
or_here (some j) used i = some j
or_here none used i = if used then none else some i

-- `app_alarm_rules_first_free`, none for -1
unfoldable pub first_free_below : (ℕ → Entry) → ℕ → Option ℕ
first_free_below rules zero = none
first_free_below rules (suc i) = or_here (first_free_below rules i) (rules i).used i

unfoldable pub first_free : Store → Option ℕ
first_free s = first_free_below s.rules rule_count

-- What `unpack_rule` leaves in `*r`: a field without a rule does not touch it.
abbrev pub unpacked_or : Option Rule → Rule → Rule
unpacked_or none r = r
unpacked_or (some r') r = r'

-- `app_alarm_rules_set`, for a rule that is not NULL
unfoldable pub set_rule : (ℕ → ℕ → ℕ) → Store → ℕ → Rule → Ret × Store
set_rule sub_f32 s rule r =
    if leb rule_count rule
    then (fail Errno.einval, s)
    else if not (rule_valid sub_f32 r)
    then (fail Errno.einval, s)
    else (
      ok,
      record s {
        field = put s.field rule (pack_rule r);
        rules = put s.rules rule record {
          used = true;
          rule = unpacked_or (unpack_rule (pack_rule r)) (s.rules rule).rule;
        };
      },
    )

-- `app_alarm_rules_clear`
unfoldable pub clear : Store → ℕ → Ret × Store
clear s rule = if leb rule_count rule then (fail Errno.einval, s) else (
  if (s.rules rule).used then ok else fail Errno.enoent,
  record s {
    field = put s.field rule blank;
    rules = put s.rules rule record { used = false; rule = (s.rules rule).rule };
  },
)

-- One turn of the loop of `app_alarm_rules_clear_all`.
unfoldable pub clear_one : ℕ → Store → Store
clear_one i s = record s {
  field = put s.field i blank;
  rules = put s.rules i record { used = false; rule = (s.rules i).rule };
}

unfoldable pub clear_below : Store → ℕ → Store
clear_below s zero = s
clear_below s (suc i) = clear_one i (clear_below s i)

-- `app_alarm_rules_clear_all`
unfoldable pub clear_all : Store → Store
clear_all s = clear_below s rule_count

-- `app_alarm_rules_stale_mask`
unfoldable pub stale_mask_below : Types → (ℕ → Entry) → ℕ → ℕ
stale_mask_below types rules zero = 0
stale_mask_below types rules (suc i) =
    let mask = stale_mask_below types rules i in
    if (rules i).used && rule_stale_in types (rules i).rule then bit_or mask (2 ^ i) else mask

unfoldable pub stale_mask : Store → ℕ
stale_mask s = stale_mask_below s.types s.rules rule_count

-- `__builtin_popcount` of a number of the given width
unfoldable pub popcount : ℕ → ℕ → ℕ
popcount zero n = 0
popcount (suc w) n = n % 2 + popcount w (n / 2)

-- `app_alarm_rules_stale_count`
unfoldable pub stale_count : Store → ℕ
stale_count s = popcount 32 (stale_mask s)

-- The branches of one turn of the loop of `app_alarm_rules_reload_from_config`, with the faults so far.
unfoldable pub keep : ℕ → Rule → Store × ℕ → Store × ℕ
keep i r (s, faults) = (
  record s { rules = put s.rules i record { used = true; rule = r } },
  if rule_stale_in s.types r then suc faults else faults,
)

unfoldable pub sanitize : ℕ → Store × ℕ → Store × ℕ
sanitize i (s, faults) =
    let present = is_present (s.field i) in
    (
      record s {
        invalid_mask = if present then bit_or s.invalid_mask (2 ^ i) else s.invalid_mask;
        field = put s.field i blank;
        rules = put s.rules i record { used = false; rule = (s.rules i).rule };
      },
      if present then suc faults else faults,
    )

-- One turn, for what `unpack_rule` makes of the field.
unfoldable pub reload_one : (ℕ → ℕ → ℕ) → ℕ → Option Rule → Store × ℕ → Store × ℕ
reload_one sub_f32 i none p = sanitize i p
reload_one sub_f32 i (some r) p = if rule_valid sub_f32 r then keep i r p else sanitize i p

unfoldable pub reload_below : (ℕ → ℕ → ℕ) → Store → ℕ → Store × ℕ
reload_below sub_f32 s zero = (record s { invalid_mask = 0 }, 0)
reload_below sub_f32 s (suc i) =
    let p = reload_below sub_f32 s i in reload_one sub_f32 i (unpack_rule (p.0.field i)) p

-- `app_alarm_rules_reload_from_config`: the store and the count of faults
unfoldable pub reload_from_config : (ℕ → ℕ → ℕ) → Store → Store × ℕ
reload_from_config sub_f32 s = reload_below sub_f32 s rule_count
