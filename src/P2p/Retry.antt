-- ===== src/P2p/Retry.antt =====
-- app/src/app_radio_p2p.c: when a join is tried again (p2p_join_retry_delay_ms, join_work_handler),
-- with the backoff curve of app/src/app_radio.h. Times are milliseconds of uptime.
pub mod Curve
pub mod Policy
use sticker_firmware.Base.{
  ℕ, zero, suc, ◌+◌, ◌-◌, ◌*◌, ◌/◌, ◌%◌, ◌^◌, min, Bool, true, false, not, ◌&&◌, Option, none, some,
  leb, ltb, if◌then◌else◌, u32, Ret, ok, fail, Errno,
}
use sticker_firmware.P2p.Node.{Node, Link}

-- APP_RADIO_REJOIN_BACKOFF_BASE_MS, APP_RADIO_REJOIN_BACKOFF_MAX_MS
abbrev pub backoff_base_ms : ℕ
backoff_base_ms = 60000

abbrev pub backoff_max_ms : ℕ
backoff_max_ms = 3600000

-- P2P_JOIN_BOOT_WINDOW_MS, P2P_JOIN_RETRY_JITTER_MS
abbrev pub boot_window_ms : ℕ
boot_window_ms = 120000

abbrev pub retry_jitter_ms : ℕ
retry_jitter_ms = 2000

-- The loop of `app_radio_rejoin_backoff_ms`, over the rounds left.
unfoldable pub backoff_loop : ℕ → ℕ → ℕ
backoff_loop zero ms = ms
backoff_loop (suc n) ms =
    let rest = backoff_loop n (u32 (ms * 2)) in if ltb ms backoff_max_ms then rest else ms

-- `app_radio_rejoin_backoff_ms`
unfoldable pub rejoin_backoff_ms : ℕ → ℕ
rejoin_backoff_ms attempt = min (backoff_loop attempt backoff_base_ms) backoff_max_ms

-- `MAX`
abbrev pub max_of : ℕ → ℕ → ℕ
max_of a b = if ltb a b then b else a

-- `app_radio_backoff_jitter_ms`, for a floor of at least 0: what falls below 0 is the floor then.
unfoldable pub backoff_jitter_ms : ℕ → ℕ → ℕ → ℕ → ℕ
backoff_jitter_ms wait floor base rand = max_of (wait + rand % (base / 2 + 1) - base / 4) floor

-- `p2p_join_retry_delay_ms`, for a duty wait of at least 0: none for the answer below 0
unfoldable pub join_retry_delay_ms : Bool → ℕ → ℕ → ℕ → ℕ → Option ℕ
join_retry_delay_ms slow elapsed duty_wait backoff jitter =
    if slow
    then some (max_of backoff duty_wait)
    else if leb boot_window_ms elapsed
    then none
    else if leb (boot_window_ms - elapsed) (duty_wait + jitter)
    then some (boot_window_ms - elapsed)
    else some duty_wait

-- `ret == -EAGAIN`
abbrev pub is_blocked : Errno → Bool
is_blocked Errno.eagain = true
is_blocked e = false

-- What the work item does at its end: nothing, mark_ready, or wait for the next round.
pub data Next : Type 0 where
  idle ready : Next
  again : ℕ → Next

abbrev pub is_joining : Link → Bool
is_joining Link.joining = true
is_joining Link.paired = false
is_joining Link.unpaired = false

module _ {Key : Type 0} where
  -- `set_rejoin_attempt`
  unfoldable pub set_rejoin_attempt : Node Key → ℕ → Node Key
  set_rejoin_attempt n k = record n { rejoin_attempt = min k 255 }

  -- `start_join_episode` at now; the work item is due at once.
  unfoldable pub start_join_episode : Node Key → Bool → ℕ → Node Key × Next
  start_join_episode n slow now = (
    record (set_rejoin_attempt (record n { join_slow = slow }) 0) {
      link = Link.joining;
      join_started_at = now;
    },
    Next.again 0,
  )

  -- `join_window_expired`
  unfoldable pub join_window_expired : Node Key → Node Key
  join_window_expired n = set_rejoin_attempt (record n { join_slow = true }) 0

  unfoldable pub window_closed : Node Key → Option ℕ → Node Key × ℕ
  window_closed n none = (join_window_expired n, 0)
  window_closed n (some wait) = (n, wait)

  -- The fast policy, at the time elapsed.
  unfoldable pub fast_policy : Bool → Node Key → ℕ → ℕ → Node Key × ℕ
  fast_policy true n elapsed duty_wait = (n, 0)
  fast_policy false n elapsed duty_wait =
      window_closed n (join_retry_delay_ms false elapsed duty_wait 0 retry_jitter_ms)

  -- The slow policy at the end of a round.
  unfoldable pub slow_round : Node Key → ℕ → ℕ → Node Key × Next
  slow_round n duty_wait rand =
      let base = rejoin_backoff_ms n.rejoin_attempt in
      (
        if ltb n.rejoin_attempt 255 then set_rejoin_attempt n (n.rejoin_attempt + 1) else n,
        Next.again (backoff_jitter_ms (max_of base duty_wait) duty_wait base rand),
      )

  -- The delay, once it is known whether the policy is slow and the round is over.
  unfoldable pub schedule : Bool → Bool → Node Key → ℕ → ℕ → ℕ → Node Key × Next
  schedule true true n wait duty_wait rand = slow_round n duty_wait rand
  schedule true false n wait duty_wait rand =
      (n, Next.again (max_of 0 duty_wait + rand % retry_jitter_ms))
  schedule false round_end n wait duty_wait rand = (n, Next.again (wait + rand % retry_jitter_ms))

  unfoldable pub scheduled : Bool → Node Key × ℕ → ℕ → ℕ → Node Key × Next
  scheduled round_end (n, wait) duty_wait rand =
      schedule n.join_slow round_end n wait duty_wait rand

  -- Behind a failed attempt, at now; `duty_wait` is the answer of the ledger.
  unfoldable pub retry : Bool → Node Key → ℕ → ℕ → ℕ → Node Key × Next
  retry blocked n now duty_wait rand =
      let duty = if blocked then duty_wait else 0 in
      scheduled (not blocked) (fast_policy n.join_slow n (now - n.join_started_at) duty) duty rand

  unfoldable pub attempted : Ret → Node Key → ℕ → ℕ → ℕ → Node Key × Next
  attempted ok n now duty_wait rand = (n, Next.ready)
  attempted (fail e) n now duty_wait rand = retry (is_blocked e) n now duty_wait rand

  -- `join_work_handler`: the result of the attempt and the node behind it, if there is one
  unfoldable pub join_work : Node Key → Ret × Node Key → ℕ → ℕ → ℕ → Node Key × Next
  join_work n attempt now duty_wait rand =
      if is_joining n.link then attempted attempt.0 attempt.1 now duty_wait rand else (n, Next.idle)
