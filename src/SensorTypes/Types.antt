-- ===== src/SensorTypes/Types.antt =====
-- app/src/app_sensor_types.h: what the registry says of a channel and a type.
use sticker_firmware.Base.{ℕ, List}

-- `enum app_sensor_kind`
pub data Kind : Type 0 where
  threshold : Kind
  state : Kind
  rate : Kind
  none_kind : Kind

-- The fields of `struct app_config` that gate a channel.
pub data Field : Type 0 where
  cap_sht : Field
  cap_barometer : Field
  cap_light_sensor : Field
  cap_hall_left : Field
  cap_hall_right : Field
  cap_gpio_input_a : Field
  cap_gpio_input_b : Field
  cap_gpio_mode : Field
  cap_accelerometer : Field

-- `cap_off` and `cap_mask`: no gate, a bool, or an enum with a mask of the values that enable.
pub data Cap : Type 0 where
  no_cap : Cap
  bool_cap : Field → Cap
  enum_cap : Field → ℕ → Cap

-- `enum app_sensor_wire_type`
pub data WireType : Type 0 where
  sint32 : WireType
  uint32 : WireType

-- `enum app_sensor_hist_enc`
pub data HistEnc : Type 0 where
  none_enc : HistEnc
  u8 : HistEnc
  i16 : HistEnc
  u16 : HistEnc
  i32 : HistEnc
  u32 : HistEnc

-- `struct app_sensor_channel`, without its name; the floats are their bit patterns.
pub record Channel : Type 0 where
  pub kind : Kind
  pub flags : ℕ
  pub wire_type : WireType
  pub hist_enc : HistEnc
  pub cap : Cap
  pub pulses_ch : ℕ
  pub part : ℕ
  pub wire_scale : ℕ
  pub hist_scale : ℕ
  pub range_min : ℕ
  pub range_max : ℕ

-- `struct app_sensor_type`, without its name
pub record SensorType : Type 0 where
  pub channels : List Channel
  pub id : ℕ
  pub w1_family : ℕ
  pub part_count : ℕ

-- APP_SENSOR_F_MOMENTARY and APP_SENSOR_F_COUNTER
abbrev pub flag_momentary : ℕ
flag_momentary = 1

abbrev pub flag_counter : ℕ
flag_counter = 2

-- APP_SENSOR_F_WATCHDOG_ONLY and APP_SENSOR_F_RETIRED
abbrev pub flag_watchdog_only : ℕ
flag_watchdog_only = 8

abbrev pub flag_retired : ℕ
flag_retired = 16

-- APP_SENSOR_TYPE_NONE and APP_SENSOR_TYPE_MOTHERBOARD
abbrev pub type_none : ℕ
type_none = 0

abbrev pub type_motherboard : ℕ
type_motherboard = 1
