-- ===== src/P2p/Retry/Policy.antt =====
-- app/src/app_radio_p2p.c: a join never gives up, and when the boot window ends.
use sticker_firmware.Base.{
  ℕ, ◌+◌, ◌-◌, ◌%◌, ◌<◌, ◌≤◌, ◌≡◌, refl, sym, ◌∙◌, arith, Bool, true, false, not, Option, none,
  some, ltb, if◌then◌else◌, fail, Errno, Bool-cases, inl, inr,
}
use sticker_firmware.P2p.Node.{Node, Link}
use sticker_firmware.P2p.Retry.{
  Next, retry_jitter_ms, max_of, rejoin_backoff_ms, backoff_jitter_ms, join_retry_delay_ms,
  is_blocked, set_rejoin_attempt, join_window_expired, window_closed, fast_policy, slow_round,
  schedule, scheduled, retry, attempted, join_work,
}
use sticker_firmware.P2p.Retry.Curve.{rejoin_backoff_ms_lem, backoff_jitter_ms_bounds}

retry_delay_fits :
    (elapsed duty w : ℕ)
    → join_retry_delay_ms false elapsed duty 0 retry_jitter_ms ≡ some w
    → (elapsed + w ≤ 120000) × (elapsed < 120000)
unfolding join_retry_delay_ms
retry_delay_fits elapsed duty w e = ground arith

module _ {Key : Type 0} where
  -- The next round is d ms away, at the time elapsed of the episode.
  pub record Retries (n n' : Node Key) (elapsed d : ℕ) (next : Next) : Type 0 where
    pub again : next ≡ Next.again d
    pub hour : d ≤ 4500001
    pub slow : n.join_slow ≡ true → n'.join_slow ≡ true
    pub window : n'.join_slow ≡ false → elapsed + d < 122000
    pub expired : 120000 ≤ elapsed → n'.join_slow ≡ true

  -- A slow node, which has no window.
  slow-Retries :
      (n n' : Node Key) (elapsed d : ℕ)
      → n'.join_slow ≡ true
      → d ≤ 4500001
      → Retries n n' elapsed d (Next.again d)
  slow-Retries n n' elapsed d s h = record {
    again = refl;
    hour = h;
    slow = λ _. s;
    window = λ f. absurd (true_false (sym s ∙ f));
    expired = λ _. s;
  }
    where
      true_false : ◌≡◌ {A = Bool} true false → ⊥
      true_false e = cc

  slow_round-slow :
      (n : Node Key) (duty rand : ℕ) → (slow_round n duty rand).0.join_slow ≡ n.join_slow
  unfolding slow_round set_rejoin_attempt
  slow_round-slow n duty rand = elim (Bool-cases (ltb n.rejoin_attempt 255)) [
    | inl more ↦ rw more refl
    | inr last ↦ rw last refl
  ]

  slow_round_delay :
      (n : Node Key) (duty rand : ℕ)
      → duty ≤ 3600000
      → (d : ℕ) × ((slow_round n duty rand).1 ≡ Next.again d) × (d ≤ 4500001)
  unfolding slow_round
  slow_round_delay n duty rand h =
      let base = rejoin_backoff_ms n.rejoin_attempt in
      let most : base ≤ 3600000 = omega (arith, rejoin_backoff_ms_lem n.rejoin_attempt) in
      let (_, _, high) =
        backoff_jitter_ms_bounds (max_of base duty) duty base rand (ground arith) in
      (backoff_jitter_ms (max_of base duty) duty base rand, refl, ground (arith, most, high))

  schedule-Retries :
      (slow round_end : Bool) (n m : Node Key) (elapsed wait duty rand : ℕ)
      → m.join_slow ≡ slow
      → duty ≤ 3600000
      → (slow ≡ false → (elapsed + wait ≤ 120000) × (elapsed < 120000))
      → (n.join_slow ≡ true → slow ≡ true)
      → let r = schedule slow round_end m wait duty rand in (d : ℕ) × Retries n r.0 elapsed d r.1
  unfolding schedule
  schedule-Retries true true n m elapsed wait duty rand s h fast keep =
      let (d, next, most) = slow_round_delay m duty rand h in
      (
        d,
        rw next (
            slow-Retries n (slow_round m duty rand).0 elapsed d (slow_round-slow m duty rand ∙ s)
              most),
      )
  schedule-Retries true false n m elapsed wait duty rand s h fast keep =
      let d = max_of 0 duty + rand % retry_jitter_ms in
      (d, slow-Retries n m elapsed d s (ground arith))
  schedule-Retries false round_end n m elapsed wait duty rand s h fast keep =
      let (low, before) = fast refl in
      (
        wait + rand % retry_jitter_ms,
        record {
          again = refl;
          hour = omega arith;
          slow = λ e. s ∙ keep e;
          window = λ e. omega arith;
          expired = λ e. absurd (omega arith);
        },
      )

  window_closed-Retries :
      (round_end : Bool) (n : Node Key) (elapsed duty rand : ℕ) (o : Option ℕ)
      → n.join_slow ≡ false
      → duty ≤ 3600000
      → ((w : ℕ) → o ≡ some w → (elapsed + w ≤ 120000) × (elapsed < 120000))
      → let r = scheduled round_end (window_closed n o) duty rand in
        (d : ℕ) × Retries n r.0 elapsed d r.1
  unfolding window_closed scheduled join_window_expired set_rejoin_attempt
  window_closed-Retries round_end n elapsed duty rand none s h within =
      schedule-Retries true round_end n (join_window_expired n) elapsed 0 duty rand refl h
        (λ e. absurd (cc)) (λ e. refl)
  window_closed-Retries round_end n elapsed duty rand (some w) s h within =
      schedule-Retries n.join_slow round_end n n elapsed w duty rand refl h (λ e. within w refl)
        (λ e. e)

  fast_policy-Retries :
      (slow round_end : Bool) (n : Node Key) (elapsed duty rand : ℕ)
      → n.join_slow ≡ slow
      → duty ≤ 3600000
      → let r = scheduled round_end (fast_policy slow n elapsed duty) duty rand in
        (d : ℕ) × Retries n r.0 elapsed d r.1
  unfolding fast_policy scheduled
  fast_policy-Retries true round_end n elapsed duty rand s h =
      schedule-Retries n.join_slow round_end n n elapsed 0 duty rand refl h (λ e. absurd (cc))
        (λ e. e)
  fast_policy-Retries false round_end n elapsed duty rand s h =
      window_closed-Retries round_end n elapsed duty rand
        (join_retry_delay_ms false elapsed duty 0 retry_jitter_ms) s h
        (λ w e. retry_delay_fits elapsed duty w e)

  -- A join attempt that fails, whatever its error, is always tried again, at most 4500001 ms later if
  -- the duty ledger answers at most an hour. A slow episode stays slow. A fast one wakes within 122 s
  -- of its start, and from 120 s on it is slow.
  pub join_work-Retries :
      (before n : Node Key) (e : Errno) (now duty rand : ℕ)
      → before.link ≡ Link.joining
      → duty ≤ 3600000
      → let r = join_work before (fail e, n) now duty rand in
        (d : ℕ) × Retries n r.0 (now - n.join_started_at) d r.1
  unfolding join_work attempted retry
  join_work-Retries before n e now duty rand j h = rw j (
      fast_policy-Retries n.join_slow (not (is_blocked e)) n (now - n.join_started_at)
        (if is_blocked e then duty else 0) rand refl (ground arith))
