-- ===== src/SensorTypes/Lookup.antt =====
-- app/src/app_sensor_types.c: the lookups in the registry.
use sticker_firmware.Base.{
  ℕ, ◌^◌, bit_and, Bool, true, not, ◌&&◌, Option, none, some, List, [], ◌∷◌, length, get_elem?, ltb,
  leb, ◌==◌, if◌then◌else◌,
}
use sticker_firmware.SensorTypes.Types.{Field, Cap, no_cap, bool_cap, enum_cap, Channel, SensorType}
use sticker_firmware.SensorTypes.Table.{types}

-- `app_sensor_type_get` over a table
unfoldable pub find_type : List SensorType → ℕ → Option SensorType
find_type [] id = none
find_type (t ∷ ts) id = let rest = find_type ts id in if t.id == id then some t else rest

unfoldable pub type_get : ℕ → Option SensorType
type_get id = find_type types id

-- `app_sensor_type_by_family` over a table
unfoldable pub find_family : List SensorType → ℕ → Option SensorType
find_family [] family = none
find_family (t ∷ ts) family =
    let rest = find_family ts family in
    if not (family == 0) && t.w1_family == family then some t else rest

unfoldable pub type_by_family : ℕ → Option SensorType
type_by_family family = find_family types family

-- `app_sensor_channel_get`, given the type
unfoldable pub channel_of : Option SensorType → ℕ → Option Channel
channel_of none ch = none
channel_of (some t) ch = if leb (length t.channels) ch then none else get_elem? t.channels ch

unfoldable pub channel_get : ℕ → ℕ → Option Channel
channel_get id ch = channel_of (type_get id) ch

-- `app_sensor_channel_cap_on`, with the first byte of each field of `g_app_config`.
unfoldable pub cap_on : (Field → ℕ) → Cap → Bool
cap_on config no_cap = true
cap_on config (bool_cap f) = not (config f == 0)
cap_on config (enum_cap f mask) = ltb (config f) 8 && not (bit_and mask (2 ^ config f) == 0)
