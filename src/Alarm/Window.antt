-- ===== src/Alarm/Window.antt =====
-- The windows of time: the no-data watchdog and the rate rules.
use sticker_firmware.Base.{
  ℕ, ◌-◌, ◌<◌, ◌≤◌, ◌^◌, ◌≡◌, ◌≢◌, arith, Bool, true, false, not, ◌&&◌, ◌||◌, List, [], ◌∷◌, leb,
  ltb, sub_u32,
}
use sticker_firmware.AlarmRules.Rule.{Rule}
use sticker_firmware.Alarm.Latch.{Arith, Latch}
use sticker_firmware.Alarm.NoData.{no_data_ms, NodataLatch, missing_since, nodata_fire, nodata_step}
use sticker_firmware.Alarm.Rate.{window_ms, is_over, baseline, eval_window, eval_count}

-- The watchdog over samples that are all missing, at the given uptimes.
pub run_missing : ℕ → ℕ → NodataLatch → List ℕ → NodataLatch
run_missing slot type l [] = l
run_missing slot type l (t ∷ ts) = run_missing slot type (nodata_step slot type l false t).0 ts

-- A sample of the list is the window or more after the first one.
unfoldable pub any_late : ℕ → List ℕ → Bool
any_late first [] = false
any_late first (t ∷ ts) = leb no_data_ms (sub_u32 t first) || any_late first ts

run_missing_lem :
    (slot type : ℕ) (l : NodataLatch) (ts : List ℕ)
    → l.nan ≡ true
    → (run_missing slot type l ts).active ≡ (l.active || any_late l.nan_since ts)
unfolding run_missing any_late nodata_step missing_since nodata_fire
run_missing_lem slot type l [] n = ground arith
run_missing_lem slot type l (t ∷ ts) n =
    let l' = (nodata_step slot type l false t).0 in ground (arith, run_missing_lem slot type l' ts)

-- An input that goes missing: the alarm is latched exactly if one of the missing samples comes 5000 ms
-- or more after the first one, on the clock that wraps at 2^32.
pub no_data_window :
    (slot type : ℕ) (l : NodataLatch) (first : ℕ) (ts : List ℕ)
    → l.nan ≡ false
    → l.active ≡ false
    → first < 2 ^ 32
    → (run_missing slot type l (first ∷ ts)).active ≡ any_late first ts
unfolding run_missing nodata_step missing_since nodata_fire
no_data_window slot type l first ts n a h =
    let l' = (nodata_step slot type l false first).0 in
    ground (arith, run_missing_lem slot type l' ts)

-- A rate rule is active exactly if: it was evaluated before and is enabled, and, for a counter that
-- did not drop, the delta of the window reaches the limit, or it was active and the window is still
-- open. A counter that dropped changes nothing, and starts a new window.
pub eval_count_lem :
    (ar : Arith) (interval idx : ℕ) (r : Rule) (rt : Latch) (cur now : ℕ)
    → let o = eval_count ar interval idx r rt cur now in
      let running = ltb (now - rt.count_window_start) (window_ms ar r interval) in
      (rt.have_prev_count ≡ false → o.latch.active ≡ false)
      × (r.enabled ≡ 0 → o.latch.active ≡ false)
      × (rt.have_prev_count ≡ true
          → r.enabled ≢ 0
          → cur < rt.prev_count
          → (o.latch.active ≡ rt.active) × (o.latch.prev_count ≡ cur) × (o.events ≡ []))
      × (rt.have_prev_count ≡ true
          → r.enabled ≢ 0
          → rt.prev_count ≤ cur
          → o.latch.active
            ≡ (is_over ar r rt cur && not (rt.active && running) || rt.active && running))
unfolding eval_count baseline eval_window
eval_count_lem ar interval idx r rt cur now =
    (ground arith, ground arith, ground arith, ground arith)
