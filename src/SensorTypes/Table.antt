-- ===== src/SensorTypes/Table.antt =====
-- app/src/app_sensor_types.c: the channels of the 1-Wire types, and the table of all types.
use sticker_firmware.Base.{List, [], ◌∷◌}
use sticker_firmware.SensorTypes.Types.{Kind, Cap, WireType, HistEnc, Channel, SensorType}
use sticker_firmware.SensorTypes.Motherboard.{ch_motherboard}

-- `m_ch_dallas`
abbrev pub ch_dallas : List Channel
ch_dallas =
    record {
      kind = Kind.threshold;
      flags = 32;
      wire_type = WireType.sint32;
      hist_enc = HistEnc.i16;
      cap = Cap.no_cap;
      pulses_ch = 255;
      part = 0;
      wire_scale = 0x42c80000;
      hist_scale = 0x42c80000;
      range_min = 0xc25c0000;
      range_max = 0x42fa0000;
    }
    ∷ []

-- `m_ch_machine_probe`
abbrev pub ch_machine_probe : List Channel
ch_machine_probe =
    record {
      kind = Kind.threshold;
      flags = 32;
      wire_type = WireType.sint32;
      hist_enc = HistEnc.i16;
      cap = Cap.no_cap;
      pulses_ch = 255;
      part = 0;
      wire_scale = 0x42c80000;
      hist_scale = 0x42c80000;
      range_min = 0xc2340000;
      range_max = 0x43020000;
    }
    ∷ record {
      kind = Kind.threshold;
      flags = 32;
      wire_type = WireType.uint32;
      hist_enc = HistEnc.u8;
      cap = Cap.no_cap;
      pulses_ch = 255;
      part = 0;
      wire_scale = 0x40000000;
      hist_scale = 0x40000000;
      range_min = 0x0;
      range_max = 0x42c80000;
    }
    ∷ record {
      kind = Kind.threshold;
      flags = 32;
      wire_type = WireType.sint32;
      hist_enc = HistEnc.i16;
      cap = Cap.no_cap;
      pulses_ch = 255;
      part = 1;
      wire_scale = 0x42c80000;
      hist_scale = 0x42c80000;
      range_min = 0xc2340000;
      range_max = 0x43020000;
    }
    ∷ record {
      kind = Kind.threshold;
      flags = 32;
      wire_type = WireType.uint32;
      hist_enc = HistEnc.u16;
      cap = Cap.no_cap;
      pulses_ch = 255;
      part = 2;
      wire_scale = 0x3f800000;
      hist_scale = 0x3f000000;
      range_min = 0x0;
      range_max = 0x47a3cccd;
    }
    ∷ record {
      kind = Kind.threshold;
      flags = 32;
      wire_type = WireType.sint32;
      hist_enc = HistEnc.i16;
      cap = Cap.no_cap;
      pulses_ch = 255;
      part = 3;
      wire_scale = 0x447a0000;
      hist_scale = 0x42c80000;
      range_min = 0xc34cb333;
      range_max = 0x434cb333;
    }
    ∷ record {
      kind = Kind.state;
      flags = 0;
      wire_type = WireType.uint32;
      hist_enc = HistEnc.u8;
      cap = Cap.no_cap;
      pulses_ch = 255;
      part = 4;
      wire_scale = 0x3f800000;
      hist_scale = 0x3f800000;
      range_min = 0x0;
      range_max = 0x0;
    }
    ∷ record {
      kind = Kind.threshold;
      flags = 32;
      wire_type = WireType.sint32;
      hist_enc = HistEnc.i16;
      cap = Cap.no_cap;
      pulses_ch = 255;
      part = 4;
      wire_scale = 0x42c80000;
      hist_scale = 0x42c80000;
      range_min = 0xc31ce666;
      range_max = 0x431ce666;
    }
    ∷ record {
      kind = Kind.threshold;
      flags = 32;
      wire_type = WireType.sint32;
      hist_enc = HistEnc.i16;
      cap = Cap.no_cap;
      pulses_ch = 255;
      part = 4;
      wire_scale = 0x42c80000;
      hist_scale = 0x42c80000;
      range_min = 0xc31ce666;
      range_max = 0x431ce666;
    }
    ∷ record {
      kind = Kind.threshold;
      flags = 32;
      wire_type = WireType.sint32;
      hist_enc = HistEnc.i16;
      cap = Cap.no_cap;
      pulses_ch = 255;
      part = 4;
      wire_scale = 0x42c80000;
      hist_scale = 0x42c80000;
      range_min = 0xc31ce666;
      range_max = 0x431ce666;
    }
    ∷ []

-- `m_types`
abbrev pub types : List SensorType
types =
    record { channels = ch_motherboard; id = 1; w1_family = 0x00; part_count = 0 }
    ∷ record { channels = ch_dallas; id = 2; w1_family = 0x28; part_count = 1 }
    ∷ record { channels = ch_machine_probe; id = 3; w1_family = 0x19; part_count = 5 }
    ∷ []
