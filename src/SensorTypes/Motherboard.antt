-- ===== src/SensorTypes/Motherboard.antt =====
-- app/src/app_sensor_types.c: the channels of the motherboard.
use sticker_firmware.Base.{List, [], ◌∷◌}
use sticker_firmware.SensorTypes.Types.{Kind, Field, Cap, WireType, HistEnc, Channel}

-- `m_ch_motherboard`
abbrev pub ch_motherboard : List Channel
ch_motherboard =
    record {
      kind = Kind.threshold;
      flags = 36;
      wire_type = WireType.sint32;
      hist_enc = HistEnc.i16;
      cap = Cap.bool_cap Field.cap_sht;
      pulses_ch = 255;
      part = 255;
      wire_scale = 0x42c80000;
      hist_scale = 0x42c80000;
      range_min = 0xc2340000;
      range_max = 0x43020000;
    }
    ∷ record {
      kind = Kind.threshold;
      flags = 36;
      wire_type = WireType.uint32;
      hist_enc = HistEnc.u8;
      cap = Cap.bool_cap Field.cap_sht;
      pulses_ch = 255;
      part = 255;
      wire_scale = 0x40000000;
      hist_scale = 0x40000000;
      range_min = 0x0;
      range_max = 0x42c80000;
    }
    ∷ record {
      kind = Kind.threshold;
      flags = 36;
      wire_type = WireType.uint32;
      hist_enc = HistEnc.u16;
      cap = Cap.bool_cap Field.cap_barometer;
      pulses_ch = 255;
      part = 255;
      wire_scale = 0x41200000;
      hist_scale = 0x41200000;
      range_min = 0x0;
      range_max = 0x44fa0000;
    }
    ∷ record {
      kind = Kind.threshold;
      flags = 32;
      wire_type = WireType.uint32;
      hist_enc = HistEnc.u16;
      cap = Cap.bool_cap Field.cap_light_sensor;
      pulses_ch = 255;
      part = 255;
      wire_scale = 0x3f800000;
      hist_scale = 0x3f000000;
      range_min = 0x0;
      range_max = 0x47a3cccd;
    }
    ∷ record {
      kind = Kind.threshold;
      flags = 32;
      wire_type = WireType.sint32;
      hist_enc = HistEnc.i16;
      cap = Cap.bool_cap Field.cap_barometer;
      pulses_ch = 255;
      part = 255;
      wire_scale = 0x42c80000;
      hist_scale = 0x42c80000;
      range_min = 0xc25c0000;
      range_max = 0x42fa0000;
    }
    ∷ record {
      kind = Kind.state;
      flags = 0;
      wire_type = WireType.uint32;
      hist_enc = HistEnc.u8;
      cap = Cap.bool_cap Field.cap_hall_left;
      pulses_ch = 255;
      part = 255;
      wire_scale = 0x3f800000;
      hist_scale = 0x3f800000;
      range_min = 0x0;
      range_max = 0x0;
    }
    ∷ record {
      kind = Kind.rate;
      flags = 2;
      wire_type = WireType.uint32;
      hist_enc = HistEnc.u32;
      cap = Cap.bool_cap Field.cap_hall_left;
      pulses_ch = 255;
      part = 255;
      wire_scale = 0x3f800000;
      hist_scale = 0x3f800000;
      range_min = 0x0;
      range_max = 0x0;
    }
    ∷ record {
      kind = Kind.state;
      flags = 0;
      wire_type = WireType.uint32;
      hist_enc = HistEnc.u8;
      cap = Cap.bool_cap Field.cap_hall_right;
      pulses_ch = 255;
      part = 255;
      wire_scale = 0x3f800000;
      hist_scale = 0x3f800000;
      range_min = 0x0;
      range_max = 0x0;
    }
    ∷ record {
      kind = Kind.rate;
      flags = 2;
      wire_type = WireType.uint32;
      hist_enc = HistEnc.u32;
      cap = Cap.bool_cap Field.cap_hall_right;
      pulses_ch = 255;
      part = 255;
      wire_scale = 0x3f800000;
      hist_scale = 0x3f800000;
      range_min = 0x0;
      range_max = 0x0;
    }
    ∷ record {
      kind = Kind.state;
      flags = 0;
      wire_type = WireType.uint32;
      hist_enc = HistEnc.u8;
      cap = Cap.enum_cap Field.cap_gpio_input_a 2;
      pulses_ch = 255;
      part = 255;
      wire_scale = 0x3f800000;
      hist_scale = 0x3f800000;
      range_min = 0x0;
      range_max = 0x0;
    }
    ∷ record {
      kind = Kind.rate;
      flags = 2;
      wire_type = WireType.uint32;
      hist_enc = HistEnc.u32;
      cap = Cap.enum_cap Field.cap_gpio_input_a 10;
      pulses_ch = 255;
      part = 255;
      wire_scale = 0x3f800000;
      hist_scale = 0x3f800000;
      range_min = 0x0;
      range_max = 0x0;
    }
    ∷ record {
      kind = Kind.threshold;
      flags = 36;
      wire_type = WireType.uint32;
      hist_enc = HistEnc.u16;
      cap = Cap.enum_cap Field.cap_gpio_input_a 4;
      pulses_ch = 255;
      part = 255;
      wire_scale = 0x447a0000;
      hist_scale = 0x447a0000;
      range_min = 0x0;
      range_max = 0x41f00000;
    }
    ∷ record {
      kind = Kind.state;
      flags = 0;
      wire_type = WireType.uint32;
      hist_enc = HistEnc.u8;
      cap = Cap.enum_cap Field.cap_gpio_input_b 2;
      pulses_ch = 255;
      part = 255;
      wire_scale = 0x3f800000;
      hist_scale = 0x3f800000;
      range_min = 0x0;
      range_max = 0x0;
    }
    ∷ record {
      kind = Kind.rate;
      flags = 2;
      wire_type = WireType.uint32;
      hist_enc = HistEnc.u32;
      cap = Cap.enum_cap Field.cap_gpio_input_b 10;
      pulses_ch = 255;
      part = 255;
      wire_scale = 0x3f800000;
      hist_scale = 0x3f800000;
      range_min = 0x0;
      range_max = 0x0;
    }
    ∷ record {
      kind = Kind.threshold;
      flags = 36;
      wire_type = WireType.uint32;
      hist_enc = HistEnc.u16;
      cap = Cap.enum_cap Field.cap_gpio_input_b 4;
      pulses_ch = 255;
      part = 255;
      wire_scale = 0x447a0000;
      hist_scale = 0x447a0000;
      range_min = 0x0;
      range_max = 0x41f00000;
    }
    ∷ record {
      kind = Kind.state;
      flags = 1;
      wire_type = WireType.uint32;
      hist_enc = HistEnc.u8;
      cap = Cap.enum_cap Field.cap_gpio_mode 4;
      pulses_ch = 16;
      part = 255;
      wire_scale = 0x3f800000;
      hist_scale = 0x3f800000;
      range_min = 0x0;
      range_max = 0x0;
    }
    ∷ record {
      kind = Kind.rate;
      flags = 2;
      wire_type = WireType.uint32;
      hist_enc = HistEnc.u32;
      cap = Cap.enum_cap Field.cap_gpio_mode 4;
      pulses_ch = 255;
      part = 255;
      wire_scale = 0x3f800000;
      hist_scale = 0x3f800000;
      range_min = 0x0;
      range_max = 0x0;
    }
    ∷ record {
      kind = Kind.state;
      flags = 1;
      wire_type = WireType.uint32;
      hist_enc = HistEnc.u8;
      cap = Cap.bool_cap Field.cap_accelerometer;
      pulses_ch = 18;
      part = 255;
      wire_scale = 0x3f800000;
      hist_scale = 0x3f800000;
      range_min = 0x0;
      range_max = 0x0;
    }
    ∷ record {
      kind = Kind.rate;
      flags = 2;
      wire_type = WireType.uint32;
      hist_enc = HistEnc.u32;
      cap = Cap.bool_cap Field.cap_accelerometer;
      pulses_ch = 255;
      part = 255;
      wire_scale = 0x3f800000;
      hist_scale = 0x3f800000;
      range_min = 0x0;
      range_max = 0x0;
    }
    ∷ record {
      kind = Kind.none_kind;
      flags = 0;
      wire_type = WireType.uint32;
      hist_enc = HistEnc.u8;
      cap = Cap.bool_cap Field.cap_accelerometer;
      pulses_ch = 255;
      part = 255;
      wire_scale = 0x3f800000;
      hist_scale = 0x3f800000;
      range_min = 0x0;
      range_max = 0x0;
    }
    ∷ record {
      kind = Kind.threshold;
      flags = 44;
      wire_type = WireType.uint32;
      hist_enc = HistEnc.u16;
      cap = Cap.no_cap;
      pulses_ch = 255;
      part = 255;
      wire_scale = 0x447a0000;
      hist_scale = 0x447a0000;
      range_min = 0x0;
      range_max = 0x40c00000;
    }
    ∷ record {
      kind = Kind.none_kind;
      flags = 32;
      wire_type = WireType.sint32;
      hist_enc = HistEnc.i16;
      cap = Cap.bool_cap Field.cap_barometer;
      pulses_ch = 255;
      part = 255;
      wire_scale = 0x41200000;
      hist_scale = 0x3f800000;
      range_min = 0xc42f0000;
      range_max = 0x462be000;
    }
    ∷ []
