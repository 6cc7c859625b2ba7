-- ===== src/Radio/Link.antt =====
-- app/src/app_radio.c and .h, the link supervision: failed link checks lead to WARNING and then to a
-- rejoin, and a node that is mute rejoins as well. What the backend answers is an argument.
pub mod Budget
pub mod Stale
use sticker_firmware.Base.{
  ℕ, zero, suc, ◌+◌, ◌-◌, ◌*◌, ◌%◌, ◌^◌, Bool, true, false, not, ◌&&◌, ◌||◌, List, [], ◌∷◌, ltb,
  leb, ◌==◌, if◌then◌else◌, u32, Ret, ok, fail,
}

-- `struct app_radio_link`
pub record Link : Type 0 where
  pub reports : ℕ
  pub fail_streak : ℕ
  pub warning_fails : ℕ
  pub warning : Bool

-- APP_RADIO_LINK_WARNING_THRESHOLD
abbrev pub warning_threshold : ℕ
warning_threshold = 3

-- The calls of the backend: warning_step and rejoin
pub data Call : Type 0 where
  step rejoin : Call

-- `link_clear`
unfoldable pub link_clear : Link → Link
link_clear l = record l { fail_streak = 0; warning = false; warning_fails = 0 }

-- The part of `app_radio_link_up` on `m_link`
unfoldable pub link_up : Link → Link
unfolding link_clear
link_up l = record (link_clear l) { reports = 0 }

-- `MAX(g_app_config.radio_link_check_fail_rejoin, 1)`
abbrev pub budget_of : ℕ → ℕ
budget_of cfg = if ltb cfg 1 then 1 else cfg

-- Behind the streak: not in WARNING, the threshold and the first rung.
unfoldable pub failed_healthy : Link → Link × List Call
failed_healthy l =
    if leb warning_threshold l.fail_streak
    then (record l { warning = true; warning_fails = 0 }, Call.step ∷ [])
    else (l, [])

-- The rejoin, which the backend can refuse.
unfoldable pub lost : Ret → Link → Link
lost ok l = l
lost (fail e) l = record l { warning_fails = 0 }

-- In WARNING: the rung, then the budget.
unfoldable pub failed_warning : ℕ → Bool → Ret → Link → Link × List Call
failed_warning cfg stepped rejoined l =
    let l' = record l { warning_fails = u32 (l.warning_fails + 1) } in
    if stepped || ltb l'.warning_fails (budget_of cfg)
    then (l', Call.step ∷ [])
    else (lost rejoined l', Call.step ∷ Call.rejoin ∷ [])

unfoldable pub failed : ℕ → Bool → Ret → Link → Link × List Call
failed cfg stepped rejoined l =
    if l.warning then failed_warning cfg stepped rejoined l else failed_healthy l

-- `app_radio_link_result`: whether the backend is HEALTHY, the result, and what the backend answers
unfoldable pub link_result : ℕ → Link → Bool → Bool → Bool → Ret → Link × List Call
link_result cfg l healthy good stepped rejoined =
    if not healthy
    then (l, [])
    else if good
    then (link_clear l, [])
    else failed cfg stepped rejoined (record l { fail_streak = u32 (l.fail_streak + 1) })

-- `app_radio_link_check_due`; the interval is 0 for one that is not positive.
unfoldable pub link_check_due : ℕ → ℕ → Bool → Bool
link_check_due report_idx interval warning =
    if warning then true else if interval == 0 then false else report_idx % interval == 0
