-- ===== src/Alarm/Tests.antt =====
-- Runs of the alarm engine, and its theorems applied.
use sticker_firmware.Base.{ℕ, ◌≡◌, refl, arith, true, false, none, some, List, [], ◌∷◌, pos}
use sticker_firmware.SensorTypes.Types.{Field}
use sticker_firmware.AlarmRules.Rule.{Rule, Types}
use sticker_firmware.Alarm.Latch.{Arith, Latch, zero_latch}
use sticker_firmware.Alarm.NoData.{NodataLatch}
use sticker_firmware.Alarm.Poll.{Reading, Step, poll, event}
use sticker_firmware.Alarm.Window.{run_missing, any_late, no_data_window}

-- Float operations that are right on the operands of these runs: 30 - 1 and 20 + 1.
abbrev arithmetic : Arith
arithmetic = record {
  add_f32 = λ _ _. 0x41a80000;
  sub_f32 = λ _ _. 0x41e80000;
  of_u32 = λ n. n;
  to_ms = λ _. 1000;
  scaled = λ v _. pos v;
}

-- The motherboard's temperature outside 20 to 30 degrees, with a deadband of 1.
abbrev warm : Rule
warm = record {
  slot = 0;
  channel = 0;
  sensor_type = 1;
  enabled = 1;
  from_state = 0;
  to_state = 0;
  lo = 0x41a00000;
  hi = 0x41f00000;
  dwell = 0x3f800000;
}

-- 31 degrees.
abbrev hot : Reading
hot = record { value = 0x41f80000; level = none; counter = none }

abbrev caps_on : Field → ℕ
caps_on _ = 1

abbrev types : Types
types = record { sensor1_type = 2; sensor2_type = 0; sensor3_type = 0; sensor4_type = 3 }

-- Too hot, then a level event of another channel, then the rule is cleared.
abbrev steps : List Step
steps = poll (some warm) hot 3000 ∷ event (some warm) 5 true 4000 ∷ poll none hot 6000 ∷ []

abbrev watched : NodataLatch
watched = record { nan_since = 0; nan = false; active = false; seen = true; channel = 0 }

no_data_window_example :
    (run_missing 0 1 watched (4294967000 ∷ 4000 ∷ 5000 ∷ [])).active
    ≡ any_late 4294967000 (4000 ∷ 5000 ∷ [])
no_data_window_example =
    no_data_window 0 1 watched 4294967000 (4000 ∷ 5000 ∷ []) refl refl (omega arith)

late_after_wrap : any_late 4294967000 (4000 ∷ 5000 ∷ []) ≡ true
unfolding any_late
late_after_wrap = refl

abbrev counted : Latch
counted = record zero_latch {
  used = true;
  have_prev_count = true;
  prev_count = 10;
  count_window_start = 1000;
}
