-- ===== src/Alarm/NoData.antt =====
-- app/src/app_alarm.c: the no-data watchdog of one input, at the `uint32_t` uptime `now`, which wraps.
use sticker_firmware.Base.{
  ℕ, Bool, true, false, not, ◌&&◌, List, [], ◌∷◌, leb, if◌then◌else◌, sub_u32, pos,
}
use sticker_firmware.Alarm.Latch.{type_no_data, Event}

-- APP_ALARM_NO_DATA_MS and APP_ALARM_WATCHDOG_RULE
abbrev pub no_data_ms : ℕ
no_data_ms = 5000

abbrev pub watchdog_rule : ℕ
watchdog_rule = 0xff

-- `struct nodata_latch`
pub record NodataLatch : Type 0 where
  pub nan_since : ℕ
  pub nan : Bool
  pub active : Bool
  pub seen : Bool
  pub channel : ℕ

-- `alarm_collect_nodata`
unfoldable pub collect_nodata : ℕ → ℕ → ℕ → Bool → Event
collect_nodata slot channel sensor_type active = record {
  rule = watchdog_rule;
  slot = slot;
  channel = channel;
  active = active;
  type = type_no_data;
  sensor_type = sensor_type;
  has_value = false;
  value = pos 0;
}

-- `nodata_reset`
unfoldable pub nodata_reset : ℕ → ℕ → NodataLatch → NodataLatch × List Event
nodata_reset slot type l = (
  record l { nan = false; active = false; seen = false },
  if l.active then collect_nodata slot l.channel type false ∷ [] else [],
)

-- The input is missing: the timer runs from the first time.
unfoldable pub missing_since : NodataLatch → ℕ → NodataLatch
missing_since l now = if l.nan then l else record l { nan = true; nan_since = now }

unfoldable pub nodata_fire : ℕ → ℕ → NodataLatch → ℕ → NodataLatch × List Event
nodata_fire slot type l now =
    if not l.active && leb no_data_ms (sub_u32 now l.nan_since)
    then (record l { active = true }, collect_nodata slot l.channel type true ∷ [])
    else (l, [])

-- `nodata_step`
unfoldable pub nodata_step : ℕ → ℕ → NodataLatch → Bool → ℕ → NodataLatch × List Event
nodata_step slot type l ok now =
    if ok
    then (
      record l { nan = false; active = false },
      if l.active then collect_nodata slot l.channel type false ∷ [] else [],
    )
    else nodata_fire slot type (missing_since l now) now
