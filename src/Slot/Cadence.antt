-- ===== src/Slot/Cadence.antt =====
-- The cadence over many runs: each report fires a little late, and the next is armed from its slot.
use sticker_firmware.Base.{
  ℕ, suc, ◌+◌, ◌-◌, ◌*◌, ◌/◌, ◌^◌, ◌≤◌, ◌<◌, ◌≡◌, refl, ap, ap₂, ◌∙◌, arith, Bool, true, List, [],
  ◌∷◌, length, ◌≤ℤ◌, sub_u32, pos, ◌+ℤ◌, ◌-ℤ◌, to_i32, tdiv,
}
use sticker_firmware.Slot.{Slot, round, lay, tol, periodic_run, next, floor_div}
use sticker_firmware.Slot.Round.{round_eq, le-mul}
use native.Mathlib.Nat.{div-eq_of_lt-le}

-- The slots of the runs that a cadence makes when the first timer expires at `due` and each run
-- starts late by the given seconds.
unfoldable pub cadence : Slot → ℕ → Bool → ℕ → List ℕ → List ℕ
cadence s interval synced due [] = []
cadence s interval synced due (late ∷ lates) =
    let now = due + late in
    let r = next s interval now synced now true in
    r.cur ∷ cadence r.slot interval synced (now + r.delay) lates

-- `n` points from `t`, an interval apart
unfoldable pub evenly : ℕ → ℕ → List ℕ → List ℕ
evenly t interval [] = []
evenly t interval (_ ∷ rest) = t ∷ evenly (t + interval) interval rest

-- A late run is past its slot by less than half an interval and no more than the tolerance.
pub data AreLate (interval : ℕ) : List ℕ → Type 0 where
  none_late : AreLate interval []
  late_by :
      (late : ℕ) (lates : List ℕ)
      → 2 * late < interval
      → late ≤ 15
      → AreLate interval lates
      → AreLate interval (late ∷ lates)

floor_div_pos : (n b : ℕ) → floor_div (pos n) (pos b) ≡ pos (n / b)
unfolding floor_div tdiv
floor_div_pos n b = ground arith

floor_div_near : (k i r : ℕ) → r < i → floor_div (pos (k * i + r)) (pos i) ≡ pos k
floor_div_near k i r h =
    floor_div_pos (k * i + r) i ∙ ap (λ q. pos q) (div-eq_of_lt-le i (omega arith) (omega arith))

sum_pos : (a b c : ℕ) → pos (a + b) +ℤ pos c ≡ pos (a + (b + c))
unfolding ◌+ℤ◌
sum_pos a b c = ground arith

le_of_mul : (k i : ℕ) → 0 < i → k * i < 2 ^ 32 → k < 2 ^ 32
le_of_mul k i hi h = omega (arith, le-mul k i hi)

-- A reading that is past a slot by less than half an interval has that slot as the nearest one.
round_late :
    (anchor k i late : ℕ)
    → 0 < i
    → i < 2 ^ 30
    → 2 * late < i
    → anchor + k * i + late < 2 ^ 32
    → k * i + late + i / 2 < 2 ^ 31
    → round anchor i (anchor + k * i + late) ≡ anchor + k * i
round_late anchor k i late hi lt h room room' =
    let d : to_i32 (sub_u32 (anchor + k * i + late) anchor) ≡ pos (k * i + late) = ground arith in
    let room'' : to_i32 (sub_u32 (anchor + k * i + late) anchor) ≤ℤ pos (2 ^ 31 - 1 - i / 2) =
      rw d (omega arith) in
    let q : floor_div (pos (k * i + (late + i / 2))) (pos i) ≡ pos k =
      floor_div_near k i (late + i / 2) (omega arith) in
    let sum : pos (k * i + late) +ℤ pos (i / 2) ≡ pos (k * i + (late + i / 2)) =
      sum_pos (k * i) late (i / 2) in
    let small : k < 2 ^ 32 = le_of_mul k i hi (omega arith) in
    rw (round_eq anchor i (anchor + k * i + late) hi (omega arith) room'', d, sum, q) (ground arith)

-- A grid that is valid for this interval and clock stays as it is, and the delay makes up for the
-- lateness.
next_late :
    (s : Slot) (i k late : ℕ) (synced : Bool) (uptime : ℕ)
    → s.valid ≡ true
    → s.interval ≡ i
    → s.synced ≡ synced
    → 0 < i
    → i < 2 ^ 30
    → 2 * late < i
    → late ≤ 15
    → s.anchor + suc k * i < 2 ^ 32
    → k * i + i < 2 ^ 31
    → next s i (s.anchor + k * i + late) synced uptime true
      ≡ record { slot = s; cur = s.anchor + k * i; delay = i - late }
unfolding next lay periodic_run ◌-ℤ◌
next_late s i k late synced uptime v e y hi lt h tol room room' =
    let r = round_late s.anchor k i late hi lt h (omega arith) (omega arith) in ground (arith, r)

-- The history time base: armed for slot k of a valid grid, the runs of a cadence, each late by less
-- than half an interval and at most 15 seconds, have the slots k, k + 1, k + 2 and so on, exactly
-- an interval apart: lateness never adds up. The clock stays below 2^32 seconds and the grid below
-- 2^31 seconds from its anchor.
pub cadence-evenly :
    (s : Slot) (i k : ℕ) (synced : Bool) (lates : List ℕ)
    → s.valid ≡ true
    → s.interval ≡ i
    → s.synced ≡ synced
    → 0 < i
    → i < 2 ^ 30
    → AreLate i lates
    → s.anchor + (k + length lates) * i < 2 ^ 32
    → (k + length lates) * i < 2 ^ 31
    → cadence s i synced (s.anchor + k * i) lates ≡ evenly (s.anchor + k * i) i lates
unfolding cadence evenly
cadence-evenly s i k synced [] v e y hi lt l room room' = refl
cadence-evenly s i k synced (late ∷ lates) v e y hi lt (late_by _ _ h tol l) room room' =
    let n : (k + length (late ∷ lates)) * i ≡ (suc k + length lates) * i = omega arith in
    let more : (suc k) * i ≤ (suc k + length lates) * i = ground arith in
    let below : k * i + i ≤ suc k * i = omega arith in
    rw
      (next_late s i k late synced (s.anchor + k * i + late) v e y hi lt h tol
        (omega (arith, n, more, room)) (omega (arith, n, more, below, room')))
      (ap₂ (λ (x : ℕ) (xs : List ℕ). x ∷ xs) refl
        (ap (λ due. cadence s i synced due lates) (omega arith)
          ∙ cadence-evenly s i (suc k) synced lates v e y hi lt l (omega (arith, n, room))
              (omega (arith, n, room'))
          ∙ ap (λ t. evenly t i lates) (omega arith)))
