-- ===== src/Slot/Delay.antt =====
-- `app_slot_next`: where the next report falls, and how the grid survives a change of the clock.
use sticker_firmware.Base.{
  ℕ, ◌+◌, ◌-◌, ◌*◌, ◌/◌, ◌%◌, ◌^◌, ◌≤◌, ◌<◌, ◌≡◌, ◌⊎◌, arith, Bool, true, false, ◌==◌, u32, sub_u32,
  pos, ◌-ℤ◌, ◌≤ℤ◌, to_i32,
}
use sticker_firmware.Slot.{Slot, Next, nonzero, steps, round, lay, periodic_run, arm, next, tol}
use sticker_firmware.Slot.Round.{round_nearest}

-- `cur` is at most `d` seconds away from `now`, round the end of `uint32_t`.
abbrev pub IsWithin : ℕ → ℕ → ℕ → Type 0
IsWithin d cur now = (now + d + 2 ^ 32 - cur) % 2 ^ 32 ≤ 2 * d

-- What a cadence run promises: its slot is near, and the next one is an interval after it.
pub record IsOnTime (interval now : ℕ) (r : Next) : Type 0 where
  pub near : IsWithin (tol interval) r.cur now
  pub soon : (1 ≤ r.delay) × (r.delay ≤ interval + tol interval)
  pub late : interval ≤ r.delay + tol interval
  pub spaced : u32 (now + r.delay) ≡ u32 (r.cur + interval)

periodic_run-IsOnTime :
    (s : Slot) (interval now : ℕ)
    → 0 < interval
    → interval < 2 ^ 30
    → now < 2 ^ 32
    → round s.anchor interval now < 2 ^ 32
    → IsOnTime interval now (periodic_run s interval now)
unfolding periodic_run ◌-ℤ◌
periodic_run-IsOnTime s interval now hi lt hn hc = ground arith

round-lt : (anchor interval t : ℕ) → round anchor interval t < 2 ^ 32
unfolding round
round-lt anchor interval t = omega arith

-- What the grid says of itself after a call.
pub record IsLaid (interval : ℕ) (synced : Bool) (s : Slot) : Type 0 where
  pub valid : s.valid ≡ true
  pub interval_set : s.interval ≡ interval
  pub domain : s.synced ≡ synced

lay-IsLaid :
    (s : Slot) (interval now : ℕ) (synced : Bool) (uptime : ℕ)
    → IsLaid interval synced (lay s interval now synced uptime)
unfolding lay
lay-IsLaid s interval now synced uptime = ground arith

slot-periodic_run :
    (s : Slot) (interval now : ℕ)
    → ((periodic_run s interval now).slot.valid ≡ s.valid)
      × ((periodic_run s interval now).slot.interval ≡ s.interval)
      × ((periodic_run s interval now).slot.synced ≡ s.synced)
unfolding periodic_run
slot-periodic_run s interval now = ground arith

-- A cadence run, from any state of the grid: its slot is at most MIN(interval / 2, 15) seconds away
-- from now, the next report is at that slot plus the interval, so between interval - 15 and
-- interval + 15 seconds ahead, and the grid is valid for this interval and clock.
pub next_periodic :
    (s : Slot) (interval now : ℕ) (synced : Bool) (uptime : ℕ)
    → 0 < interval
    → interval < 2 ^ 30
    → now < 2 ^ 32
    → let r = next s interval now synced uptime true in
      IsOnTime interval now r × IsLaid interval synced r.slot
unfolding next
next_periodic s interval now synced uptime hi lt hn =
    let real : (interval == 0) ≡ false = ground arith in
    let s' = lay s interval now synced uptime in
    rw real (
      periodic_run-IsOnTime s' interval now hi lt hn (round-lt s'.anchor interval now),
      ground (arith, slot-periodic_run s' interval now, lay-IsLaid s interval now synced uptime),
    )

-- Armed outside the cadence, the next report is the first slot strictly after now: at most one
-- interval ahead, and a whole number of intervals from the nearest slot.
pub next_arm :
    (s : Slot) (interval now : ℕ) (synced : Bool) (uptime : ℕ)
    → (let a = (lay s interval now synced uptime).anchor in
        to_i32 (sub_u32 now a) ≤ℤ pos (2 ^ 31 - 1 - interval / 2))
    → 0 < interval
    → interval < 2 ^ 30
    → now < 2 ^ 32
    → (lay s interval now synced uptime).anchor < 2 ^ 32
    → let r = next s interval now synced uptime false in
      (1 ≤ r.delay)
      × (r.delay ≤ interval)
      × ((u32 (now + r.delay) ≡ r.cur) ⊎ (u32 (now + r.delay) ≡ u32 (r.cur + interval)))
unfolding next arm
next_arm s interval now synced uptime room hi lt hn ha =
    let s' = lay s interval now synced uptime in
    ground (
      arith,
      round_nearest s'.anchor interval now ha hn hi (omega arith) room,
      round-lt s'.anchor interval now,
    )

-- The first RTC sync: the anchor moves by the offset of the two clocks, so now has the same place on
-- the grid in unix time as in uptime.
pub lay_keeps_phase :
    (s : Slot) (now uptime : ℕ)
    → s.valid ≡ true
    → s.synced ≡ false
    → sub_u32 now (lay s s.interval now true uptime).anchor ≡ sub_u32 uptime s.anchor
unfolding lay
lay_keeps_phase s now uptime v u = ground arith

shift_back :
    (a b x t u : ℕ) → sub_u32 t a ≡ sub_u32 u b → u32 (u32 (a + x) + u) ≡ u32 (u32 (b + x) + t)
shift_back a b x t u e = omega arith

-- Two readings at the same place of their grids have nearest slots that differ as the readings do.
round_shift :
    (a b interval t u : ℕ)
    → sub_u32 t a ≡ sub_u32 u b
    → u32 (round a interval t + u) ≡ u32 (round b interval u + t)
unfolding round
round_shift a b interval t u e =
    rw e (shift_back a b (steps (nonzero interval) (to_i32 (sub_u32 u b))) t u e)

-- The first RTC sync of a grid on uptime: the slot nearest to now in unix time is the slot nearest
-- in uptime, carried over by the offset of the two clocks, so the cadence does not jump.
pub sync_keeps_cadence :
    (s : Slot) (now uptime : ℕ)
    → s.valid ≡ true
    → s.synced ≡ false
    → u32 (round (lay s s.interval now true uptime).anchor s.interval now + uptime)
      ≡ u32 (round s.anchor s.interval uptime + now)
sync_keeps_cadence s now uptime v u =
    round_shift (lay s s.interval now true uptime).anchor s.anchor s.interval now uptime
      (lay_keeps_phase s now uptime v u)
