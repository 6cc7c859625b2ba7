-- ===== src/SensorTypes/Laws.antt =====
-- What the registry's table keeps to, and its lookups.
use sticker_firmware.Base.{
  ℕ, zero, suc, ◌≡◌, ◌≢◌, refl, arith, bit_and, Bool, true, false, not, ◌&&◌, ◌||◌, Option, none,
  some, List, [], ◌∷◌, get_elem?, ◌==◌, Option-cases, inl, inr,
}
use sticker_firmware.SensorTypes.Types.{Channel, SensorType, flag_momentary, flag_counter}
use sticker_firmware.SensorTypes.Table.{types}
use sticker_firmware.SensorTypes.Lookup.{
  find_type, type_get, find_family, type_by_family, channel_of, channel_get,
}

all_channels : (Channel → Bool) → List Channel → Bool
all_channels holds [] = true
all_channels holds (c ∷ cs) = holds c && all_channels holds cs

all_types : (SensorType → Bool) → List SensorType → Bool
all_types holds [] = true
all_types holds (t ∷ ts) = holds t && all_types holds ts

-- The channel counts the pulses of a momentary one.
pub counts_pulses : Option Channel → Bool
counts_pulses none = false
counts_pulses (some c) = not (bit_and c.flags flag_counter == 0)

unfoldable pub is_momentary : Channel → Bool
is_momentary c = not (bit_and c.flags flag_momentary == 0)

pulses_ok : SensorType → Channel → Bool
pulses_ok t c = not (is_momentary c) || counts_pulses (channel_of (some t) c.pulses_ch)

all_channels-at :
    (holds : Channel → Bool) (cs : List Channel) (i : ℕ) (c : Channel)
    → all_channels holds cs ≡ true
    → get_elem? cs i ≡ some c
    → holds c ≡ true
unfolding all_channels
all_channels-at holds [] i c h e = ground arith
all_channels-at holds (x ∷ xs) zero c h e = ground arith
all_channels-at holds (x ∷ xs) (suc i) c h e = all_channels-at holds xs i c (ground arith) e

find_type-at :
    (holds : SensorType → Bool) (ts : List SensorType) (id : ℕ) (t : SensorType)
    → all_types holds ts ≡ true
    → find_type ts id ≡ some t
    → holds t ≡ true
unfolding all_types find_type
find_type-at holds [] id t h e = ground arith
find_type-at holds (x ∷ xs) id t h e = ground (arith, find_type-at holds xs id t)

types_pulses_ok : all_types (λ t. all_channels (pulses_ok t) t.channels) types ≡ true
unfolding all_types all_channels pulses_ok is_momentary counts_pulses channel_of
types_pulses_ok = refl

counted :
    (t : SensorType) (ch : ℕ) (c : Channel)
    → all_channels (pulses_ok t) t.channels ≡ true
    → channel_of (some t) ch ≡ some c
    → is_momentary c ≡ true
    → counts_pulses (channel_of (some t) c.pulses_ch) ≡ true
unfolding channel_of pulses_ok
counted t ch c h e m = ground (arith, all_channels-at (pulses_ok t) t.channels ch c h)

none_of : (ch : ℕ) → channel_of none ch ≡ none
unfolding channel_of
none_of ch = refl

checked_type :
    (id : ℕ) (t : SensorType) → type_get id ≡ some t → all_channels (pulses_ok t) t.channels ≡ true
unfolding type_get
checked_type id t found =
    find_type-at (λ t. all_channels (pulses_ok t) t.channels) types id t types_pulses_ok found

-- Every momentary channel of the registry names a channel of its type that counts its pulses.
pub momentary-counts_pulses :
    (id ch : ℕ) (c : Channel)
    → channel_get id ch ≡ some c
    → is_momentary c ≡ true
    → counts_pulses (channel_get id c.pulses_ch) ≡ true
unfolding channel_get
momentary-counts_pulses id ch c e m = elim (Option-cases (type_get id)) [
  | inl missing ↦ ground (arith, missing, none_of ch)
  | inr (t, found) ↦ rw found (counted t ch c (checked_type id t found) (rw found at e) m)
]

-- The id of the type that a lookup found.
abbrev pub id_of : Option SensorType → Option ℕ
id_of none = none
id_of (some t) = some t.id

abbrev has_id : Option SensorType → ℕ → Bool
has_id none id = false
has_id (some t) id = t.id == id

family_ok : SensorType → Bool
family_ok t = t.w1_family == 0 || has_id (type_by_family t.w1_family) t.id

types_family_ok : all_types family_ok types ≡ true
unfolding all_types family_ok type_by_family find_family
types_family_ok = refl

find_type-id :
    (ts : List SensorType) (id : ℕ) (t : SensorType) → find_type ts id ≡ some t → t.id ≡ id
unfolding find_type
find_type-id [] id t e = ground arith
find_type-id (x ∷ xs) id t e = ground (arith, find_type-id xs id t)

ok_family :
    (t : SensorType) (id : ℕ)
    → t.id ≡ id
    → family_ok t ≡ true
    → t.w1_family ≢ 0
    → id_of (type_by_family t.w1_family) ≡ some id
unfolding family_ok
ok_family t id same checked n = ground arith

-- A 1-Wire type is found by its family: the family codes of the registry do not clash.
pub type_by_family_lem :
    (id : ℕ) (t : SensorType)
    → type_get id ≡ some t
    → t.w1_family ≢ 0
    → id_of (type_by_family t.w1_family) ≡ some id
unfolding type_get
type_by_family_lem id t e n =
    let same = find_type-id types id t e in
    let checked = find_type-at family_ok types id t types_family_ok e in
    ok_family t id same checked n
