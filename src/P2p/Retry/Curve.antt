-- ===== src/P2p/Retry/Curve.antt =====
-- app/src/app_radio.h: the backoff curve and its spread.
use sticker_firmware.Base.{
  ℕ, zero, suc, ◌+◌, ◌*◌, ◌/◌, ◌^◌, ◌<◌, ◌≤◌, ◌≡◌, min, ap, ◌∙◌, arith, ltb, u32, Bool-cases, inl,
  inr,
}
use native.Mathlib.Nat.{mul_assoc}
use sticker_firmware.P2p.Retry.{
  backoff_max_ms, backoff_loop, rejoin_backoff_ms, max_of, backoff_jitter_ms,
}

pow_pos : (n : ℕ) → 1 ≤ 2 ^ n
pow_pos zero = omega arith
pow_pos (suc n) = omega (arith, pow_pos n)

grows : (ms p : ℕ) → 1 ≤ p → ms ≤ ms * p
grows ms zero h = absurd (omega arith)
grows ms (suc p) h = omega arith

backoff_loop_lem :
    (n ms : ℕ)
    → 1 ≤ ms
    → ms < 2 ^ 31
    → min (backoff_loop n ms) backoff_max_ms ≡ min (ms * 2 ^ n) backoff_max_ms
unfolding backoff_loop
backoff_loop_lem zero ms h k = ap (λ v. min v backoff_max_ms) (omega arith)
backoff_loop_lem (suc n) ms h k = elim (Bool-cases (ltb ms backoff_max_ms)) [
  | inl less ↦
      let double : u32 (ms * 2) ≡ ms * 2 = ground (arith, less) in
      let ih = backoff_loop_lem n (ms * 2) (omega arith) (ground (arith, less)) in
      let twice : 2 * 2 ^ n ≡ 2 ^ suc n = omega arith in
      let shift : ms * 2 * 2 ^ n ≡ ms * 2 ^ suc n =
        mul_assoc ms 2 (2 ^ n) ∙ ap (λ q. ms * q) twice in
      rw (less, double) (ih ∙ ap (λ v. min v backoff_max_ms) shift)
  | inr reached ↦
      let above : ms ≤ ms * 2 ^ suc n = grows ms (2 ^ suc n) (pow_pos (suc n)) in
      rw reached (ground (arith, reached, above))
]

-- The delay before rejoin attempt k is 60 s times 2 ^ k, at most an hour, for every k.
pub rejoin_backoff_ms_lem : (k : ℕ) → rejoin_backoff_ms k ≡ min (60000 * 2 ^ k) 3600000
unfolding rejoin_backoff_ms
rejoin_backoff_ms_lem k = backoff_loop_lem k 60000 (omega arith) (omega arith)

-- The spread stays within a quarter, and never undercuts the floor.
pub backoff_jitter_ms_bounds :
    (wait floor base rand : ℕ)
    → base ≤ wait
    → let d = backoff_jitter_ms wait floor base rand in
      (floor ≤ d) × (wait ≤ d + base / 4) × (d ≤ max_of (wait + base / 4 + 1) floor)
unfolding backoff_jitter_ms
backoff_jitter_ms_bounds wait floor base rand h = (ground arith, ground arith, ground arith)
