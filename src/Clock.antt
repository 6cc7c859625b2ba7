-- ===== src/Clock.antt =====
-- app/src/app_clock.c: the wall clock in the RTC. The RTC driver and Zephyr's calendar functions are
-- not modelled: an operation takes the driver's answer, and the RTC holds a Unix time.
pub mod Laws
mod Tests
use sticker_firmware.Base.{
  ℕ, Bool, true, false, ◌||◌, Option, none, some, ◌+◌, ◌*◌, List, [], ◌∷◌, ltb, leb, ◌==◌,
  if◌then◌else◌, u32, Ret, ok, fail, Errno,
}

abbrev pub unix_min : ℕ
unix_min = 1704067200

abbrev pub unix_end : ℕ
unix_end = 4070908800

abbrev pub resync_period_s : ℕ
resync_period_s = 7 * 24 * 3600

-- The module's state, with the RTC, the re-sync timer's period when it runs, the times that it was
-- started, and the calls of `app_history_on_clock_sync`.
pub record Clock : Type 0 where
  pub rtc : Option ℕ
  pub network_time_at_ms : ℕ
  pub resync_timer : Option ℕ
  pub timer_starts : ℕ
  pub history_syncs : List ℕ

abbrev pub out_of_window : ℕ → Bool
out_of_window unix_s = ltb unix_s unix_min || leb unix_end unix_s

-- The static initialisers, with an RTC that was never set.
pub boot : Clock
boot = record {
  rtc = none;
  network_time_at_ms = 0;
  resync_timer = none;
  timer_starts = 0;
  history_syncs = [];
}

-- `app_clock_set_unix` from `rtc_set_time` on, given its answer.
pub write_rtc : Clock → ℕ → Ret → Ret × Clock
write_rtc c unix_s ok =
    (ok, record c { rtc = some unix_s; history_syncs = unix_s ∷ c.history_syncs })
write_rtc c unix_s (fail e) = (fail e, c)

-- `app_clock_set_unix`
pub set_unix : Clock → ℕ → Ret → Ret × Clock
set_unix c unix_s answer =
    if out_of_window unix_s then (fail Errno.einval, c) else write_rtc c unix_s answer

abbrev pub max1 : ℕ → ℕ
max1 n = if ltb n 1 then 1 else n

-- The end of `app_clock_set_network_time`, given what `app_clock_set_unix` returned.
pub note_network_time : Ret × Clock → ℕ → Ret × Clock
note_network_time (fail e, c) uptime_ms = (fail e, c)
note_network_time (ok, c) uptime_ms =
    if c.network_time_at_ms == 0
    then (
      ok,
      record c {
        network_time_at_ms = max1 uptime_ms;
        resync_timer = some resync_period_s;
        timer_starts = c.timer_starts + 1;
      },
    )
    else (ok, record c { network_time_at_ms = max1 uptime_ms })

-- `app_clock_set_network_time`
pub set_network_time : Clock → ℕ → Ret → ℕ → Ret × Clock
set_network_time c unix_s answer uptime_ms =
    if out_of_window unix_s
    then (fail Errno.erange, c)
    else note_network_time (set_unix c unix_s answer) uptime_ms

-- `app_clock_get_unix` for a pointer that is not null: the RTC answers -ENODATA until it is set.
unfoldable pub get_unix : Option ℕ → Ret × Option ℕ
get_unix none = (fail Errno.enodata, none)
get_unix (some t) = (ok, some (u32 t))
