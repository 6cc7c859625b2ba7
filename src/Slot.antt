-- ===== src/Slot.antt =====
-- app/src/app_slot.c: the report cadence runs on a grid of wall-clock slots.
-- `uint32_t` sums and differences wrap at 2 ^ 32; `int32_t` values are integers.
pub mod Round
pub mod Delay
pub mod Cadence
mod Tests
use sticker_firmware.Base.{
  ℕ, ◌+◌, ◌-◌, ◌*◌, ◌/◌, ◌^◌, Bool, true, false, not, ◌&&◌, ◌||◌, ltb, ◌==◌, if◌then◌else◌, u32,
  sub_u32, ℤ, pos, negsuc, ◌+ℤ◌, ◌-ℤ◌, ltb_ℤ, to_i32, to_u32, tdiv, has_remainder,
}

unfoldable pub floor_div : ℤ → ℤ → ℤ
unfolding tdiv has_remainder ◌-ℤ◌
floor_div a b = let q = tdiv a b in if has_remainder a b && ltb_ℤ a (pos 0) then q -ℤ pos 1 else q

-- The interval 0 counts as 1 second.
abbrev pub nonzero : ℕ → ℕ
nonzero interval = if interval == 0 then 1 else interval

-- `k * interval` for the signed distance `d` from the anchor
unfoldable pub steps : ℕ → ℤ → ℕ
steps interval d =
    let half = interval / 2 in
    let k =
      if ltb_ℤ (pos (2 ^ 31 - 1 - half)) d
      then floor_div d (to_i32 interval) +ℤ pos 1
      else floor_div (d +ℤ pos half) (to_i32 interval) in
    to_u32 k * interval

unfoldable pub round : ℕ → ℕ → ℕ → ℕ
round anchor interval' t = u32 (anchor + steps (nonzero interval') (to_i32 (sub_u32 t anchor)))

-- `struct app_slot`
pub record Slot : Type 0 where
  pub anchor : ℕ
  pub interval : ℕ
  pub synced : Bool
  pub valid : Bool

-- APP_SLOT_TOLERANCE_S
abbrev pub tolerance_s : ℕ
tolerance_s = 15

abbrev pub bool_eq : Bool → Bool → Bool
bool_eq true b = b
bool_eq false b = not b

-- The first part of `app_slot_next`: lay a grid, or carry its anchor to the other clock.
unfoldable pub lay : Slot → ℕ → ℕ → Bool → ℕ → Slot
lay s interval now synced uptime_now =
    if not s.valid || not (s.interval == interval)
    then record { valid = true; interval = interval; synced = synced; anchor = now }
    else if not (bool_eq s.synced synced)
    then record s {
      anchor = if synced then u32 (s.anchor + sub_u32 now uptime_now) else now;
      synced = synced;
    }
    else s

pub record Next : Type 0 where
  pub slot : Slot
  pub cur : ℕ
  pub delay : ℕ

-- The tolerance of a cadence run.
abbrev pub tol : ℕ → ℕ
tol interval = if ltb (interval / 2) tolerance_s then interval / 2 else tolerance_s

-- `next - now`, at least one second
abbrev pub delay_to : ℕ → ℕ → ℕ
delay_to next now =
    let delay = to_i32 (sub_u32 next now) in if ltb_ℤ (pos 0) delay then to_u32 delay else 1

-- The periodic branch: off every slot by more than the tolerance, the grid is laid anew at `now`.
unfoldable pub periodic_run : Slot → ℕ → ℕ → Next
periodic_run s interval now =
    let cur = round s.anchor interval now in
    let off = to_i32 (sub_u32 now cur) in
    if ltb_ℤ (pos (tol interval)) off || ltb_ℤ off (pos 0 -ℤ pos (tol interval))
    then record {
      slot = record s { anchor = now };
      cur = now;
      delay = delay_to (u32 (now + interval)) now;
    }
    else record { slot = s; cur = cur; delay = delay_to (u32 (cur + interval)) now }

-- The other branch: the first slot strictly after `now`.
unfoldable pub arm : Slot → ℕ → ℕ → Next
arm s interval now =
    let cur = round s.anchor interval now in
    let next = if ltb_ℤ (pos 0) (to_i32 (sub_u32 cur now)) then cur else u32 (cur + interval) in
    record { slot = s; cur = cur; delay = delay_to next now }

-- `app_slot_next`: the new grid, the slot of this run (`*slot_out`) and the delay to the next one.
unfoldable pub next : Slot → ℕ → ℕ → Bool → ℕ → Bool → Next
next s interval' now synced uptime_now periodic =
    let interval = nonzero interval' in
    let s' = lay s interval now synced uptime_now in
    if periodic then periodic_run s' interval now else arm s' interval now
