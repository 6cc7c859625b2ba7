-- ===== src/Counters/Tests.antt =====
-- Runs of app_counters.c, and its theorems applied.
use sticker_firmware.Base.{◌≡◌, refl, arith, ◌^◌, ◌-◌, true, false, none, ok}
use sticker_firmware.Counters.{
  Counts, Flash, zero_counts, boot, same_counts, settings_set, save_one, save, add_counts, init,
}
use sticker_firmware.Counters.Laws.{IsSynced, Fits, entries, power_cycle}

abbrev counted : Counts
counted = record { hall_left = 5; hall_right = 7; input_a = 2 ^ 32 - 1; input_b = 0 }

abbrev pulses : Counts
pulses = record { hall_left = 1; hall_right = 0; input_a = 3; input_b = 4 }

abbrev empty : Flash
empty = record { stored = none; writes = 0 }

boot-IsSynced : IsSynced boot empty.stored
unfolding boot
boot-IsSynced = record { same = refl; version = refl }

saved_counts : (save boot counted false ok empty).0 ≡ ok
unfolding save save_one same_counts boot
saved_counts = refl

unchanged_not_written : (save boot zero_counts false ok empty).2.writes ≡ 0
unfolding save save_one same_counts boot
unchanged_not_written = refl

wrong_version :
    (settings_set boot record {
      key_matches = true;
      len = 20;
      read = 20;
      blob = record { version = 2; counts = counted };
    }).1
    ≡ boot
unfolding settings_set boot
wrong_version = refl

pulses-Fits : Fits pulses
pulses-Fits = ground arith

power_cycle_example :
    let (ret, s', flash') = save boot counted false ok empty in
    let (ret', s'', live'') = init boot ok ok (entries flash'.stored) pulses in
    (ret' ≡ ok) × IsSynced s'' flash'.stored × (live'' ≡ add_counts counted pulses)
power_cycle_example =
    power_cycle boot counted pulses false ok empty boot-IsSynced pulses-Fits saved_counts
