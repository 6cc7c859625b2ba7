-- ===== src/Slot/Round.antt =====
-- `app_slot_round` gives the nearest slot of the grid.
use sticker_firmware.Base.{
  ℕ, suc, ◌+◌, ◌-◌, ◌*◌, ◌/◌, ◌%◌, ◌^◌, ◌≤◌, ◌<◌, ◌≡◌, ◌≢◌, false, sub_ℕ, ℕ_discrete, refl, ap,
  arith, ◌==◌, u32, sub_u32, ℤ, pos, negsuc, ◌+ℤ◌, ◌≤ℤ◌, to_i32, to_u32, pos_part, neg_part,
}
use native.Mathlib.Nat.{div-add-mod, div-add-mod', mod-lt}
use sticker_firmware.Slot.{floor_div, steps, round}

minus_parts : (q : ℕ) → (neg_part (sub_ℕ 0 q) ≡ q) × (pos_part (sub_ℕ 0 q) ≡ 0)
minus_parts q = ground arith

floor_div_exact : (n b : ℕ) → suc n % b ≡ 0 → floor_div (negsuc n) (pos b) ≡ sub_ℕ 0 (suc n / b)
unfolding floor_div
floor_div_exact n b e = rw e

floor_div_below : (n b : ℕ) → suc n % b ≢ 0 → floor_div (negsuc n) (pos b) ≡ negsuc (suc n / b)
unfolding floor_div
floor_div_below n b ne = let e' : (suc n % b == 0) ≡ false = ground arith in rw e' (ground arith)

-- `floor_div` rounds down: the quotient leaves a remainder in [0, b).
pub floor_div_lem :
    (a : ℤ) (b : ℕ)
    → 0 < b
    → (pos_part (floor_div a (pos b)) * b + neg_part a
        ≤ pos_part a + neg_part (floor_div a (pos b)) * b)
      × (pos_part a + neg_part (floor_div a (pos b)) * b
          < pos_part (floor_div a (pos b)) * b + neg_part a + b)
unfolding floor_div
floor_div_lem (pos n) b h = ground (arith, div-add-mod n b, mod-lt n h)
floor_div_lem (negsuc n) b h = elim (ℕ_discrete (suc n % b) 0) [
  | yes e ↦
      rw (floor_div_exact n b e, (minus_parts (suc n / b)).0, (minus_parts (suc n / b)).1)
        (omega (arith, div-add-mod' (suc n) b))
  | no ne ↦ rw (floor_div_below n b ne) (omega (arith, div-add-mod' (suc n) b, mod-lt (suc n) h))
]

-- `t` in [s - interval / 2, s + interval - interval / 2), round the end of `uint32_t`.
abbrev pub IsNear : ℕ → ℕ → ℕ → Type 0
IsNear interval s t = (t + interval / 2 + 2 ^ 32 - s) % 2 ^ 32 < interval

abbrev pub OnGrid : ℕ → ℕ → ℕ → Type 0
OnGrid anchor interval s = (k : ℤ) × (s ≡ u32 (anchor + to_u32 k * interval))

neg_mul : (m i : ℕ) → m < 2 ^ 32 → (2 ^ 32 - 1 - m) * i + suc m * i ≡ 2 ^ 32 * i
neg_mul m i h =
    let e : (2 ^ 32 - 1 - m) + suc m ≡ 2 ^ 32 = omega arith in
    omega (arith, ap (λ (x : ℕ). x * i) e)

IsNear-pos :
    (anchor i t q : ℕ)
    → anchor < 2 ^ 32
    → t < 2 ^ 32
    → q < 2 ^ 32
    → i < 2 ^ 31
    → let d = to_i32 (sub_u32 t anchor) in
      q * i + neg_part d ≤ pos_part d + i / 2
      → pos_part d + i / 2 < q * i + neg_part d + i
      → IsNear i (u32 (anchor + q * i)) t
IsNear-pos anchor i t q ha ht hq hi lo up = ground arith

IsNear-neg :
    (anchor i t m : ℕ)
    → anchor < 2 ^ 32
    → t < 2 ^ 32
    → m < 2 ^ 32
    → i < 2 ^ 31
    → let d = to_i32 (sub_u32 t anchor) in
      neg_part d ≤ pos_part d + i / 2 + suc m * i
      → pos_part d + i / 2 + suc m * i < neg_part d + i
      → IsNear i (u32 (anchor + (2 ^ 32 - 1 - m) * i)) t
IsNear-neg anchor i t m ha ht hm hi lo up = ground (arith, neg_mul m i hm)

-- The parts of d + interval / 2, as `IsNear-pos` and `IsNear-neg` take them.
shifted_parts :
    (d : ℤ) (h : ℕ) → pos_part (d +ℤ pos h) + neg_part d ≡ neg_part (d +ℤ pos h) + pos_part d + h
unfolding ◌+ℤ◌
shifted_parts d h = ground arith

pub le-mul : (q i : ℕ) → 0 < i → q ≤ q * i
le-mul q i h = grind arith

IsNear-floor :
    (anchor i t : ℕ) (k : ℤ)
    → anchor < 2 ^ 32
    → t < 2 ^ 32
    → 0 < i
    → i < 2 ^ 31
    → let d = to_i32 (sub_u32 t anchor) in
      pos_part k * i + neg_part d ≤ pos_part d + i / 2 + neg_part k * i
      → pos_part d + i / 2 + neg_part k * i < pos_part k * i + neg_part d + i
      → IsNear i (u32 (anchor + to_u32 k * i)) t
IsNear-floor anchor i t (pos q) ha ht pi hi lo up =
    let small : q < 2 ^ 32 = ground (arith, le-mul q i pi) in
    let cast : q % 2 ^ 32 ≡ q = omega arith in
    rw cast (IsNear-pos anchor i t q ha ht small hi (omega arith) (omega arith))
IsNear-floor anchor i t (negsuc m) ha ht pi hi lo up =
    let small : m < 2 ^ 32 = ground (arith, le-mul (suc m) i pi) in
    let cast : m % 2 ^ 32 ≡ m = omega arith in
    rw cast (IsNear-neg anchor i t m ha ht small hi (omega arith) (omega arith))

pub round_eq :
    (anchor interval t : ℕ)
    → 0 < interval
    → interval < 2 ^ 31
    → let d = to_i32 (sub_u32 t anchor) in
      d ≤ℤ pos (2 ^ 31 - 1 - interval / 2)
      → round anchor interval t
        ≡ u32 (anchor + to_u32 (floor_div (d +ℤ pos (interval / 2)) (pos interval)) * interval)
unfolding round steps
round_eq anchor interval t hi lt room = ground arith

-- With a positive interval below 2^31 and no overflow in `d + half`, `app_slot_round` gives a point of
-- the grid, and it is the nearest one to `t` (ties round up).
pub round_nearest :
    (anchor interval t : ℕ)
    → anchor < 2 ^ 32
    → t < 2 ^ 32
    → 0 < interval
    → interval < 2 ^ 31
    → to_i32 (sub_u32 t anchor) ≤ℤ pos (2 ^ 31 - 1 - interval / 2)
    → OnGrid anchor interval (round anchor interval t) × IsNear interval (round anchor interval t) t
round_nearest anchor interval t ha ht hi lt room = rw (round_eq anchor interval t hi lt room) (
  (k, refl),
  IsNear-floor anchor interval t k ha ht hi lt
      (omega (arith, bounds, shifted_parts d (interval / 2)))
      (omega (arith, bounds, shifted_parts d (interval / 2))),
)
  where
    d : ℤ
    d = to_i32 (sub_u32 t anchor)

    k : ℤ
    k = floor_div (d +ℤ pos (interval / 2)) (pos interval)

    bounds :
        (pos_part k * interval + neg_part (d +ℤ pos (interval / 2))
          ≤ pos_part (d +ℤ pos (interval / 2)) + neg_part k * interval)
        × (pos_part (d +ℤ pos (interval / 2)) + neg_part k * interval
            < pos_part k * interval + neg_part (d +ℤ pos (interval / 2)) + interval)
    bounds = floor_div_lem (d +ℤ pos (interval / 2)) interval hi
