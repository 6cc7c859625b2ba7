-- ===== src/SensorTypes/Tests.antt =====
-- The registry's theorems applied.
use sticker_firmware.Base.{◌≡◌, refl, some, true}
use sticker_firmware.SensorTypes.Types.{Kind, WireType, HistEnc, Cap, Field, Channel, SensorType}
use sticker_firmware.SensorTypes.Table.{ch_dallas}
use sticker_firmware.SensorTypes.Lookup.{find_type, type_get, channel_of, channel_get}
use sticker_firmware.SensorTypes.Laws.{is_momentary}

-- Channel 15, the PIR.
abbrev pir : Channel
pir = record {
  kind = Kind.state;
  flags = 1;
  wire_type = WireType.uint32;
  hist_enc = HistEnc.u8;
  cap = Cap.enum_cap Field.cap_gpio_mode 4;
  pulses_ch = 16;
  part = 255;
  wire_scale = 0x3f800000;
  hist_scale = 0x3f800000;
  range_min = 0;
  range_max = 0;
}

pir_found : channel_get 1 15 ≡ some pir
unfolding channel_get type_get find_type channel_of
pir_found = refl

pir_momentary : is_momentary pir ≡ true
unfolding is_momentary
pir_momentary = refl

abbrev dallas : SensorType
dallas = record { channels = ch_dallas; id = 2; w1_family = 0x28; part_count = 1 }

dallas_found : type_get 2 ≡ some dallas
unfolding type_get find_type
dallas_found = refl
