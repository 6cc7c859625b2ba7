-- ===== src/Slot/Tests.antt =====
-- The slot grid at concrete clock readings.
use sticker_firmware.Base.{
  ◌+◌, ◌≤◌, ◌≡◌, ◌⊎◌, [], ◌∷◌, refl, arith, true, false, u32, ◌+ℤ◌, ◌-ℤ◌, tdiv, has_remainder,
}
use sticker_firmware.Slot.Cadence.{AreLate, none_late, late_by, cadence, evenly, cadence-evenly}
use sticker_firmware.Slot.{Slot, floor_div, steps, round, lay, next, periodic_run}
use sticker_firmware.Slot.Round.{OnGrid, IsNear, round_nearest}
use sticker_firmware.Slot.Delay.{IsOnTime, IsLaid, next_periodic, next_arm, sync_keeps_cadence}

-- A grid of 60 s on uptime, anchored at 7.
abbrev grid : Slot
grid = record { anchor = 7; interval = 60; synced = false; valid = true }

round_before : round 1000 60 931 ≡ 940
unfolding round steps floor_div ◌+ℤ◌ ◌-ℤ◌ tdiv has_remainder
round_before = refl

next_late : (next grid 60 130 false 130 true).delay ≡ 57
unfolding next periodic_run lay round steps floor_div ◌+ℤ◌ ◌-ℤ◌ tdiv has_remainder
next_late = refl

round_nearest_example : OnGrid 1000 60 (round 1000 60 931) × IsNear 60 (round 1000 60 931) 931
round_nearest_example =
    round_nearest 1000 60 931 (omega arith) (omega arith) (omega arith) (omega arith) (omega arith)

next_periodic_example :
    IsOnTime 60 130 (next grid 60 130 false 130 true)
    × IsLaid 60 false (next grid 60 130 false 130 true).slot
next_periodic_example =
    next_periodic grid 60 130 false 130 (omega arith) (omega arith) (omega arith)

next_arm_example :
    let r = next grid 60 130 false 130 false in
    (1 ≤ r.delay)
    × (r.delay ≤ 60)
    × ((u32 (130 + r.delay) ≡ r.cur) ⊎ (u32 (130 + r.delay) ≡ u32 (r.cur + 60)))
next_arm_example =
    next_arm grid 60 130 false 130 (unfold lay in omega arith) (omega arith) (omega arith)
      (omega arith) (unfold lay in omega arith)

sync_keeps_cadence_example :
    u32 (round (lay grid 60 1_800_000_000 true 130).anchor 60 1_800_000_000 + 130)
    ≡ u32 (round 7 60 130 + 1_800_000_000)
sync_keeps_cadence_example = sync_keeps_cadence grid 1_800_000_000 130 refl refl

three_late : AreLate 60 (3 ∷ 0 ∷ 15 ∷ [])
three_late =
    late_by 3 _ (omega arith) (omega arith)
      (late_by 0 _ (omega arith) (omega arith) (late_by 15 _ (omega arith) (omega arith) none_late))

abbrev minute_grid : Slot
minute_grid = record { anchor = 1800000000; interval = 60; synced = true; valid = true }

cadence-evenly_example :
    cadence minute_grid 60 true 1800000060 (3 ∷ 0 ∷ 15 ∷ [])
    ≡ 1800000060 ∷ 1800000120 ∷ 1800000180 ∷ []
unfolding evenly
cadence-evenly_example =
    cadence-evenly minute_grid 60 1 true (3 ∷ 0 ∷ 15 ∷ []) refl refl refl (omega arith)
      (omega arith) three_late (omega arith) (omega arith)
