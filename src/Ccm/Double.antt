-- ===== src/Ccm/Double.antt =====
-- `double_gf128` as arithmetic: doubling in GF(2^128) of the number that the block stands for.
use sticker_firmware.Base.{
  ℕ, zero, suc, ◌+◌, ◌-◌, ◌*◌, ◌/◌, ◌^◌, ◌≤◌, ◌<◌, ◌≡◌, refl, sym, ap, List, [], ◌∷◌, arith, true,
  length, be_value, IsBytes, u8, bit_or, bit_and, bit_xor, bit_or_disjoint, bit_xor_low, passes,
  passes-at, ◌==◌, ==_iff, leb, if◌then◌else◌,
}
use native.Mathlib.Nat.{pow-suc}
use sticker_firmware.Ccm.{shift_left, xor_last, double_gf128}

-- 2 ^ (8 * n), the weight of the byte above `n` bytes
abbrev weight : ℕ → ℕ
weight n = 2 ^ (8 * n)

weight-suc : (n : ℕ) → weight (suc n) ≡ 256 * weight n
weight-suc n =
    let e : 8 * suc n ≡ suc (suc (suc (suc (suc (suc (suc (suc (8 * n)))))))) = omega arith in
    rw e (simp pow-suc (omega arith))

be_value-lt : (v : List ℕ) → IsBytes v → be_value v < weight (length v)
be_value-lt [] h = omega arith
be_value-lt (b ∷ v) h = grind (arith, weight-suc (length v), be_value-lt v h.1)

shifted_byte :
    (b c : ℕ)
    → b < 256
    → c < 256
    → (2 * b + c / 128) ≡ b / 128 * 256 + u8 (bit_or (b * 2) (c / 2 ^ 7))
shifted_byte b c h k = omega (arith, bit_or_disjoint 1 b (c / 128) (omega arith))

length-shift_left : (v : List ℕ) → length (shift_left v) ≡ length v
unfolding shift_left
length-shift_left [] = refl
length-shift_left (b ∷ []) = refl
length-shift_left (b ∷ c ∷ v) = ap suc (length-shift_left (c ∷ v))

-- One byte of the doubling, at any weight `p`.
double_step :
    (b q u hi p v s : ℕ)
    → 2 * b + q ≡ hi * 256 + u
    → 2 * v ≡ q * p + s
    → 2 * (b * p + v) ≡ hi * (256 * p) + (u * p + s)
double_step b q u hi p v s e h = omega (arith, ap (λ (t : ℕ). t * p) e)

-- The bytewise shift is doubling, with the top bit carried out.
shift_left_value :
    (b : ℕ) (v : List ℕ)
    → IsBytes (b ∷ v)
    → 2 * be_value (b ∷ v) ≡ b / 128 * weight (suc (length v)) + be_value (shift_left (b ∷ v))
unfolding shift_left
shift_left_value b [] h = omega arith
shift_left_value b (c ∷ v) h =
    rw (weight-suc (suc (length v)), length-shift_left (c ∷ v))
      (double_step b (c / 128) (u8 (bit_or (b * 2) (c / 2 ^ 7))) (b / 128) (weight (suc (length v)))
        (be_value (c ∷ v)) (be_value (shift_left (c ∷ v))) (shifted_byte b c h.0 h.1.0)
        (shift_left_value c v h.1))

length-xor_last : (v : List ℕ) (k : ℕ) → length (xor_last v k) ≡ length v
unfolding xor_last
length-xor_last [] k = refl
length-xor_last (b ∷ []) k = refl
length-xor_last (b ∷ c ∷ v) k = ap suc (length-xor_last (c ∷ v) k)

byte-le-weight : (n : ℕ) → 256 ≤ weight (suc n)
byte-le-weight zero = omega arith
byte-le-weight (suc n) = omega (arith, weight-suc (suc n), byte-le-weight n)

xor_last_value :
    (b k : ℕ) (v : List ℕ)
    → IsBytes (b ∷ v)
    → k < 256
    → be_value (xor_last (b ∷ v) k) ≡ bit_xor (be_value (b ∷ v)) k
unfolding xor_last
xor_last_value b k [] h q = let one : b * 1 + 0 ≡ b = omega arith in rw one (omega arith)
xor_last_value b k (c ∷ v) h q =
    rw (length-xor_last (c ∷ v) k, xor_last_value c k v h.1 q)
      (sym (
        bit_xor_low (8 * suc (length v)) b (be_value (c ∷ v)) k (be_value-lt (c ∷ v) h.1)
          (omega (arith, byte-le-weight (length v)))))

xor_last_nonempty :
    (w : List ℕ) (k : ℕ)
    → IsBytes w
    → 0 < length w
    → k < 256
    → be_value (xor_last w k) ≡ bit_xor (be_value w) k
xor_last_nonempty [] k h p q = absurd (omega arith)
xor_last_nonempty (b ∷ v) k h p q = xor_last_value b k v h q

msb_table : passes 256 (λ b. bit_and b 0x80 == b / 128 * 128) ≡ true
unfolding passes
msb_table = refl

msb_lem : (b : ℕ) → b < 256 → bit_and b 0x80 ≡ b / 128 * 128
msb_lem b h = (==_iff _ _).0 (passes-at _ 256 b h msb_table)

shift_left-IsBytes : (v : List ℕ) → IsBytes v → IsBytes (shift_left v)
unfolding shift_left
shift_left-IsBytes [] h = tt
shift_left-IsBytes (b ∷ []) h = (omega arith, tt)
shift_left-IsBytes (b ∷ c ∷ v) h = (omega arith, shift_left-IsBytes (c ∷ v) h.1)

-- On a block of 16 bytes, `double_gf128` doubles the big-endian number, and reduces by 0x87 when
-- the top bit was set.
pub double_gf128_value :
    (v : List ℕ)
    → IsBytes v
    → length v ≡ 16
    → be_value (double_gf128 v) ≡ (
        if leb (2 ^ 127) (be_value v)
        then bit_xor (2 * be_value v - 2 ^ 128) 0x87
        else 2 * be_value v)
unfolding double_gf128
double_gf128_value [] h e = absurd (omega arith)
double_gf128_value (b ∷ v) h e = ground (
  arith,
  msb_lem b h.0,
  rw lv at (be_value-lt v h.1),
  rw lv at (shift_left_value b v h),
  xor_last_nonempty (shift_left (b ∷ v)) 0x87 (shift_left-IsBytes (b ∷ v) h)
      (omega (arith, length-shift_left (b ∷ v))) (omega arith),
  lv,
)
  where
    lv : length v ≡ 15
    lv = omega arith
