-- ===== src/Radio/Link/Stale.antt =====
-- app/src/app_radio.h, the stale-uplink policy: a node that is mute rejoins, unless the duty cycle
-- explains it. Times are milliseconds of uptime, 0 for none.
use sticker_firmware.Base.{
  ℕ, ◌+◌, ◌-◌, ◌*◌, ◌<◌, ◌≤◌, ◌≡◌, arith, Bool, true, false, not, ◌&&◌, ◌||◌, leb, ltb, ◌==◌,
  if◌then◌else◌,
}

-- `enum app_radio_stale`
pub data Stale : Type 0 where
  fine hold_dc rejoin : Stale

-- `struct app_radio_stale_dc`
pub record StaleDc : Type 0 where
  pub since_ms : ℕ
  pub last_ms : ℕ
  pub until_ms : ℕ

-- APP_RADIO_STALE_FACTOR, APP_RADIO_STALE_DC_HOLD_MAX_MS, APP_RADIO_STALE_DC_RECENT_MARGIN_MS
abbrev pub stale_factor : ℕ
stale_factor = 4

abbrev pub hold_max_ms : ℕ
hold_max_ms = 4500000

abbrev pub recent_margin_ms : ℕ
recent_margin_ms = 180000

-- `app_radio_stale_note`
unfoldable pub stale_note : StaleDc → Bool → Bool → ℕ → StaleDc
stale_note dc sent held now =
    if sent
    then (if ltb now dc.until_ms then dc else record { since_ms = 0; last_ms = 0; until_ms = 0 })
    else if held
    then record dc { since_ms = if dc.since_ms == 0 then now else dc.since_ms; last_ms = now }
    else dc

-- `app_radio_stale_note_hold`
unfoldable pub stale_note_hold : StaleDc → ℕ → ℕ → StaleDc
unfolding stale_note
stale_note_hold dc now hold =
    let noted = stale_note dc false true now in
    record noted {
      until_ms = if ltb noted.until_ms (now + hold) then now + hold else noted.until_ms;
    }

-- `app_radio_stale_check`; a difference below 0 counts as 0, which the tests against a positive
-- bound do not tell apart.
unfoldable pub stale_check : ℕ → ℕ → StaleDc → ℕ → Stale
stale_check now last_uplink dc interval_s =
    let interval = interval_s * 1000 in
    let recent = if ltb dc.last_ms dc.until_ms then dc.until_ms else dc.last_ms in
    if last_uplink == 0 || interval_s == 0
    then Stale.fine
    else if leb (now - last_uplink) (interval * stale_factor)
    then Stale.fine
    else if not (dc.since_ms == 0)
        && not (recent == 0)
        && leb (now - recent) (interval + recent_margin_ms)
        && ltb (now - dc.since_ms) hold_max_ms
    then Stale.hold_dc
    else Stale.rejoin

-- The hold ends: with a positive interval and an uplink on record, a check more than four intervals
-- after the last uplink, and at least 75 minutes after the start of the streak of held sends, asks
-- for the rejoin, whatever else the streak holds.
pub stale_check-rejoin :
    (now last_uplink : ℕ) (dc : StaleDc) (interval_s : ℕ)
    → 0 < last_uplink
    → 0 < interval_s
    → last_uplink + 4000 * interval_s < now
    → dc.since_ms + 4500000 ≤ now
    → stale_check now last_uplink dc interval_s ≡ Stale.rejoin
unfolding stale_check
stale_check-rejoin now last_uplink dc interval_s u i late over = ground arith
