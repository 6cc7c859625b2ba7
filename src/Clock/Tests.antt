-- ===== src/Clock/Tests.antt =====
-- Runs of app_clock.c, and its theorems applied.
use sticker_firmware.Base.{◌≡◌, refl, some, List, [], ◌∷◌, ok, fail, Errno}
use sticker_firmware.Clock.{boot, write_rtc, set_unix, note_network_time, set_network_time}
use sticker_firmware.Clock.Laws.{Op, unix, network_time, apply, apply_all}

abbrev ops : List Op
ops = network_time 1800000000 ok 0 ∷ unix 4070908800 ok ∷ network_time 1800000060 ok 60000 ∷ []

ops_end : apply_all ops boot ≡ record {
  rtc = some 1800000060;
  network_time_at_ms = 60000;
  resync_timer = some 604800;
  timer_starts = 1;
  history_syncs = 1800000060 ∷ 1800000000 ∷ [];
}
unfolding apply_all apply set_network_time set_unix write_rtc note_network_time boot
ops_end = refl

last_second_of_2099 : (set_unix boot 4070908800 ok).0 ≡ fail Errno.einval
unfolding set_unix boot
last_second_of_2099 = refl
