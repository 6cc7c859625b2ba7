-- ===== src/AlarmRules/Faults.antt =====
-- The masks of stale and of invalid rules, and the faults that a reload reports.
use sticker_firmware.Base.{
  ℕ, zero, suc, ◌+◌, ◌/◌, ◌%◌, ◌^◌, ◌<◌, ◌≤◌, ◌≡◌, refl, arith, bit_or, bit_or_step, ◌&&◌,
  if◌then◌else◌,
}
use native.Mathlib.Nat.{pow-suc}
use sticker_firmware.AlarmRules.Rule.{Rule, Types, rule_stale_in}
use sticker_firmware.AlarmRules.Store.{
  Entry, Store, stale_mask_below, stale_mask, popcount, stale_count,
}

-- A new highest bit is an addition.
bit_or_high : (i m : ℕ) → m < 2 ^ i → bit_or m (2 ^ i) ≡ m + 2 ^ i
bit_or_high zero zero h = refl
bit_or_high zero (suc m) h = absurd (omega arith)
bit_or_high (suc i) m h =
    let half : 2 ^ suc i / 2 ≡ 2 ^ i = omega (arith, pow-suc 2 i) in
    let halved : bit_or (m / 2) (2 ^ suc i / 2) ≡ m / 2 + 2 ^ i =
      rw half (bit_or_high i (m / 2) (omega (arith, pow-suc 2 i))) in
    omega (arith, pow-suc 2 i, bit_or_step m (2 ^ suc i), halved)

popcount_zero : (w : ℕ) → popcount w 0 ≡ 0
unfolding popcount
popcount_zero zero = refl
popcount_zero (suc w) = omega (arith, popcount_zero w)

popcount_high : (w i m : ℕ) → i < w → m < 2 ^ i → popcount w (m + 2 ^ i) ≡ suc (popcount w m)
unfolding popcount
popcount_high zero i m lt h = absurd (omega arith)
popcount_high (suc w) zero zero lt h = omega (arith, popcount_zero w)
popcount_high (suc w) zero (suc m) lt h = absurd (omega arith)
popcount_high (suc w) (suc i) m lt h =
    rw half
      (omega (arith, odd, popcount_high w i (m / 2) (omega arith) (omega (arith, pow-suc 2 i))))
  where
    half : (m + 2 ^ suc i) / 2 ≡ m / 2 + 2 ^ i
    half = omega (arith, pow-suc 2 i)

    odd : (m + 2 ^ suc i) % 2 ≡ m % 2
    odd = omega (arith, pow-suc 2 i)

-- A mask with a new highest bit counts one more.
popcount_bit :
    (i m : ℕ)
    → i < 32
    → m < 2 ^ i
    → (popcount 32 (bit_or m (2 ^ i)) ≡ suc (popcount 32 m)) × (bit_or m (2 ^ i) < 2 ^ suc i)
popcount_bit i m lt h =
    rw (bit_or_high i m h) (popcount_high 32 i m lt h, omega (arith, pow-suc 2 i))

-- The stale entries below n.
pub stales_below : Types → (ℕ → Entry) → ℕ → ℕ
stales_below types rules zero = 0
stales_below types rules (suc i) =
    let n = stales_below types rules i in
    if (rules i).used && rule_stale_in types (rules i).rule then suc n else n

stale_mask_below_lem :
    (types : Types) (rules : ℕ → Entry) (n : ℕ)
    → n ≤ 32
    → (stale_mask_below types rules n < 2 ^ n)
      × (popcount 32 (stale_mask_below types rules n) ≡ stales_below types rules n)
unfolding stale_mask_below stales_below
stale_mask_below_lem types rules zero le = (omega arith, popcount_zero 32)
stale_mask_below_lem types rules (suc i) le =
    let (below, same) = stale_mask_below_lem types rules i (omega arith) in
    ground (arith, below, same, popcount_bit i (stale_mask_below types rules i), pow-suc 2 i)

-- `app_alarm_rules_stale_count` is the number of used entries whose rule is stale.
pub stale_count_lem : (s : Store) → stale_count s ≡ stales_below s.types s.rules 16
unfolding stale_count stale_mask
stale_count_lem s = (stale_mask_below_lem s.types s.rules 16 (omega arith)).1

-- The faults so far, after the first n fields.
pub record AreCounted (n : ℕ) (p : Store × ℕ) : Type 0 where
  pub low : p.0.invalid_mask < 2 ^ n
  pub faults : p.1 ≡ popcount 32 p.0.invalid_mask + stales_below p.0.types p.0.rules n
