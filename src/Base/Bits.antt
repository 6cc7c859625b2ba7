-- ===== src/Base/Bits.antt =====
-- Laws of the bit operations at variables: one step on the lowest digit, then induction on a
-- bound of the first operand.
use Prim.Native.Nat.{ℕ, zero, suc, ◌+◌, ◌-◌, ◌*◌, ◌/◌, ◌%◌, ◌^◌, ◌≤◌, ◌<◌, min, max}
use Prim.Native.Nat.{bit_xor, bit_or, bit_and, differ, digits, bitwise}
use Prim.Native.Nat.{bit_xor-bitwise, bit_or-bitwise, bit_and-bitwise}
use mathlib.Core.Path.{◌≡◌, refl, ap, ◌∙◌}
use mathlib.Core.Bool.{Bool, true, ◌&&◌}
use native.Mathlib.Nat.{le_refl, pow-suc}
use native.Mathlib.Omega.{arith}

-- `k` more units of fuel
raise : ℕ → ℕ → ℕ
raise zero n = n
raise (suc k) n = suc (raise k n)

raise-eq-add : (k n : ℕ) → raise k n ≡ k + n
unfolding raise
raise-eq-add zero n = omega arith
raise-eq-add (suc k) n = omega (arith, raise-eq-add k n)

module _ (rest : ℕ → ℕ) (pick : ℕ → ℕ → ℕ) where
  -- Fuel above the first operand is spare: one unit more changes nothing.
  digits-suc : (n x y : ℕ) → x ≤ n → digits rest pick (suc n) x y ≡ digits rest pick n x y
  digits-suc zero zero y small = refl
  digits-suc zero (suc x) y small = absurd (omega arith)
  digits-suc (suc n) zero y small = refl
  digits-suc (suc n) (suc x) y small =
      ap (λ t. t * 2 + pick (suc x % 2) (y % 2)) (digits-suc n (suc x / 2) (y / 2) (omega arith))

  digits-raise : (k n x y : ℕ) → x ≤ n → digits rest pick (raise k n) x y ≡ digits rest pick n x y
  unfolding raise
  digits-raise zero n x y small = refl
  digits-raise (suc k) n x y small =
      digits-suc (raise k n) x y (omega (arith, raise-eq-add k n)) ∙ digits-raise k n x y small

  -- The lowest digit and the others, with the fuel that `bitwise` gives itself.
  low_digit :
      (x y : ℕ)
      → bitwise rest pick (suc x) y
        ≡ bitwise rest pick (suc x / 2) (y / 2) * 2 + pick (suc x % 2) (y % 2)
  low_digit x y =
      let spare : raise (x - suc x / 2) (suc x / 2) ≡ x =
        omega (arith, raise-eq-add (x - suc x / 2) (suc x / 2)) in
      let same = digits-raise (x - suc x / 2) (suc x / 2) (suc x / 2) (y / 2) (le_refl _) in
      ap (λ t. t * 2 + pick (suc x % 2) (y % 2)) (rw spare at same)

pub bit_or_step : (x y : ℕ) → bit_or x y ≡ bit_or (x / 2) (y / 2) * 2 + max (x % 2) (y % 2)
bit_or_step zero y = simp bit_or-bitwise (omega arith)
bit_or_step (suc x) y = simp bit_or-bitwise (low_digit (λ d. d) max x y)

pub bit_and_step : (x y : ℕ) → bit_and x y ≡ bit_and (x / 2) (y / 2) * 2 + min (x % 2) (y % 2)
bit_and_step zero y = simp bit_and-bitwise (omega arith)
bit_and_step (suc x) y = simp bit_and-bitwise (low_digit (λ d. 0) min x y)

differ_mod : (x y : ℕ) → x < 2 → y < 2 → differ x y ≡ (x + y) % 2
differ_mod zero y p q = omega arith
differ_mod (suc x) zero p q = omega arith
differ_mod (suc zero) (suc zero) p q = refl
differ_mod (suc zero) (suc (suc y)) p q = absurd (omega arith)
differ_mod (suc (suc x)) (suc y) p q = absurd (omega arith)

pub bit_xor_step : (a b : ℕ) → bit_xor a b ≡ bit_xor (a / 2) (b / 2) * 2 + (a % 2 + b % 2) % 2
bit_xor_step zero b = simp bit_xor-bitwise (omega arith)
bit_xor_step (suc a) b = simp bit_xor-bitwise (
    low_digit (λ y. y) differ a b
    ∙ ap (λ d. bitwise (λ y. y) differ (suc a / 2) (b / 2) * 2 + d)
        (differ_mod (suc a % 2) (b % 2) (omega arith) (omega arith)))

bit_xor_half : (a b : ℕ) → bit_xor a b / 2 ≡ bit_xor (a / 2) (b / 2)
bit_xor_half a b = omega (arith, bit_xor_step a b)

bit_xor_odd : (a b : ℕ) → bit_xor a b % 2 ≡ (a % 2 + b % 2) % 2
bit_xor_odd a b = omega (arith, bit_xor_step a b)

cancel_below : (n a b : ℕ) → a ≤ n → b ≤ n → bit_xor (bit_xor a b) b ≡ a
cancel_below zero zero zero p q = refl
cancel_below zero zero (suc b) p q = absurd (omega arith)
cancel_below zero (suc a) b p q = absurd (omega arith)
cancel_below (suc n) a b p q =
    bit_xor_step (bit_xor a b) b
    ∙ rw bit_xor_half
        (omega (arith, bit_xor_odd a b, cancel_below n (a / 2) (b / 2) (omega arith) (omega arith)))

-- Exclusive or twice with the same key gives the value back.
pub bit_xor_cancel : (a b : ℕ) → bit_xor (bit_xor a b) b ≡ a
bit_xor_cancel a b = cancel_below (a + b) a b (omega arith) (omega arith)

eq_below : (n a b : ℕ) → a ≤ n → b ≤ n → bit_xor a b ≡ 0 → a ≡ b
eq_below zero a b p q h = omega arith
eq_below (suc n) a b p q h = omega (
  arith,
  bit_xor_step a b,
  eq_below n (a / 2) (b / 2) (omega arith) (omega arith) (omega (arith, bit_xor_step a b)),
)

-- Two values differ in no bit exactly when they are equal.
pub eq_of_bit_xor : (a b : ℕ) → bit_xor a b ≡ 0 → a ≡ b
eq_of_bit_xor a b = eq_below (a + b) a b (omega arith) (omega arith)

self_below : (n a : ℕ) → a ≤ n → bit_xor a a ≡ 0
self_below zero zero p = refl
self_below zero (suc a) p = absurd (omega arith)
self_below (suc n) a p = omega (arith, bit_xor_step a a, self_below n (a / 2) (omega arith))

pub bit_xor_self : (a : ℕ) → bit_xor a a ≡ 0
bit_xor_self a = self_below a a (le_refl _)

-- The result of an exclusive or has no more digits than its operands.
pub bit_xor-lt : (k a b : ℕ) → a < 2 ^ k → b < 2 ^ k → bit_xor a b < 2 ^ k
bit_xor-lt zero a b p q = omega (arith, self_below 0 0 (omega arith), zero_zero a b p q)
  where
    zero_zero : (a b : ℕ) → a < 1 → b < 1 → bit_xor a b ≡ 0
    zero_zero zero zero p q = refl
    zero_zero zero (suc b) p q = absurd (omega arith)
    zero_zero (suc a) b p q = absurd (omega arith)
bit_xor-lt (suc k) a b p q = omega (
  arith,
  pow-suc 2 k,
  bit_xor_step a b,
  bit_xor-lt k (a / 2) (b / 2) (omega (arith, pow-suc 2 k)) (omega (arith, pow-suc 2 k)),
)

or_zero_below : (n a b : ℕ) → a ≤ n → b ≤ n → bit_or a b ≡ 0 → (a ≡ 0) × (b ≡ 0)
or_zero_below zero a b p q h = omega arith
or_zero_below (suc n) a b p q h = omega (
  arith,
  bit_or_step a b,
  or_zero_below n (a / 2) (b / 2) (omega arith) (omega arith) (omega (arith, bit_or_step a b)),
)

-- An or is zero only if both operands are.
pub bit_or-eq-zero : (a b : ℕ) → bit_or a b ≡ 0 → (a ≡ 0) × (b ≡ 0)
bit_or-eq-zero a b = or_zero_below (a + b) a b (omega arith) (omega arith)

or_right_below : (n a : ℕ) → a ≤ n → bit_or a 0 ≡ a
or_right_below zero zero p = refl
or_right_below zero (suc a) p = absurd (omega arith)
or_right_below (suc n) a p = omega (arith, bit_or_step a 0, or_right_below n (a / 2) (omega arith))

pub bit_or-zero : (a : ℕ) → bit_or a 0 ≡ a
bit_or-zero a = or_right_below a a (le_refl _)

xor_right_below : (n a : ℕ) → a ≤ n → bit_xor a 0 ≡ a
xor_right_below zero zero p = refl
xor_right_below zero (suc a) p = absurd (omega arith)
xor_right_below (suc n) a p =
    omega (arith, bit_xor_step a 0, xor_right_below n (a / 2) (omega arith))

bit_xor_zero : (a : ℕ) → bit_xor a 0 ≡ a
bit_xor_zero a = xor_right_below a a (le_refl _)

double_pow : (q k : ℕ) → q * 2 ^ suc k ≡ 2 * (q * 2 ^ k)
double_pow q k = omega (arith, ap (λ (t : ℕ). q * t) (pow-suc 2 k))

-- Fields that do not overlap: the or is the sum.
pub bit_or_disjoint : (k q r : ℕ) → r < 2 ^ k → bit_or (q * 2 ^ k) r ≡ q * 2 ^ k + r
bit_or_disjoint zero q r fits = ground (arith, bit_or-zero q)
bit_or_disjoint (suc k) q r fits = ground (
  arith,
  bit_or_step (q * 2 ^ suc k) r,
  double_pow q k,
  pow-suc 2 k,
  bit_or_disjoint k q (r / 2) (omega (arith, pow-suc 2 k)),
)

-- Does `holds` pass at each byte value, from `k` values down? A table for the laws of a byte.
unfoldable pub passes : ℕ → (ℕ → Bool) → Bool
passes zero holds = true
passes (suc k) holds = passes k holds && holds k

pub passes-at : (holds : ℕ → Bool) (k v : ℕ) → v < k → passes k holds ≡ true → holds v ≡ true
unfolding passes
passes-at holds zero v below table = elim below [ ]
passes-at holds (suc k) v below table = ground (arith, passes-at holds k v)

-- The digits above the mask stay as they are.
pub bit_xor_low :
    (k q r s : ℕ) → r < 2 ^ k → s < 2 ^ k → bit_xor (q * 2 ^ k + r) s ≡ q * 2 ^ k + bit_xor r s
bit_xor_low zero q r s p h = ground (arith, bit_xor_zero q, bit_xor_self 0)
bit_xor_low (suc k) q r s p h = ground (
  arith,
  bit_xor_step (q * 2 ^ suc k + r) s,
  bit_xor_step r s,
  double_pow q k,
  pow-suc 2 k,
  bit_xor_low k q (r / 2) (s / 2) (omega (arith, pow-suc 2 k)) (omega (arith, pow-suc 2 k)),
)
