-- ===== src/Alarm/Poll.antt =====
-- app/src/app_alarm.c: one rule in `app_alarm_poll` and in `app_alarm_event`. What is read of the
-- sensors is an argument: the value of the channel, its level and its counter, if they can be read.
use sticker_firmware.Base.{
  ℕ, ◌+◌, Bool, true, false, not, ◌&&◌, ◌||◌, Option, none, some, List, [], ◌∷◌, ◌++◌, leb, ◌==◌,
  if◌then◌else◌, pos, bit_and,
}
use sticker_firmware.SensorTypes.Types.{Kind, Channel, Field, flag_counter}
use sticker_firmware.AlarmRules.Rule.{Rule, Types, rule_channel, rule_armed}
use sticker_firmware.Alarm.Latch.{
  Arith, type_trigger, Latch, zero_latch, collect, Out, quiet, edge, rule_hold_ms,
  channel_momentary, rule_is_momentary, rule_is_stillness, edge_type,
}
use sticker_firmware.Alarm.Threshold.{eval_threshold}
use sticker_firmware.Alarm.State.{eval_state}
use sticker_firmware.Alarm.Rate.{eval_count}

-- `memcmp` of two rules, whose padding is equal since both were unpacked.
unfoldable pub same_rule : Rule → Rule → Bool
same_rule a b =
    a.slot == b.slot
    && a.channel == b.channel
    && a.sensor_type == b.sensor_type
    && a.enabled == b.enabled
    && a.from_state == b.from_state
    && a.to_state == b.to_state
    && a.lo == b.lo
    && a.hi == b.hi
    && a.dwell == b.dwell

-- The deactivate edge of a latch that is reset.
unfoldable pub reset_to : ℕ → Latch → Latch → Out
reset_to idx rt fresh =
    if rt.active
    then edge fresh (collect idx rt.last_rule false (edge_type rt) false (pos 0))
    else quiet fresh

-- `rt_sync`, given what `app_alarm_rules_get` returned
unfoldable pub rt_sync : ℕ → Latch → Option Rule → Out
rt_sync idx rt none = if rt.used then reset_to idx rt zero_latch else quiet rt
rt_sync idx rt (some r) =
    if not rt.used || not (same_rule rt.last_rule r)
    then reset_to idx rt (record zero_latch { used = true; last_rule = r })
    else quiet rt

-- `rt_sync_armed`: the rule to evaluate, disabled if it is inert
unfoldable pub armed_or_inert : (Field → ℕ) → Types → Rule → Rule
armed_or_inert config types r = if rule_armed config types r then r else record r { enabled = 0 }

-- What a poll reads for a rule.
pub record Reading : Type 0 where
  pub value : ℕ
  pub level : Option Bool
  pub counter : Option ℕ

-- `read_poll_state` and `read_counter`, given what the sensors read: a momentary channel has no level
-- to poll, and only a counter channel of the motherboard has a counter.
unfoldable pub poll_level : Channel → Option Bool → Option Bool
poll_level c level = if channel_momentary (some c) then none else level

unfoldable pub poll_counter : Rule → Channel → Option ℕ → Option ℕ
poll_counter r c counter =
    if not (r.slot == 0) || bit_and c.flags flag_counter == 0 then none else counter

-- The STATE case of `eval_rule`.
unfoldable pub eval_polled_state : Arith → ℕ → Rule → Latch → Channel → Option Bool → ℕ → Out
eval_polled_state ar idx r rt c (some level) now = eval_state ar idx r rt level now
eval_polled_state ar idx r rt c none now =
    if r.enabled == 0 && rt.active && not (channel_momentary (some c))
    then eval_state ar idx r rt (not (rt.prev_state == 0)) now
    else quiet rt

unfoldable pub eval_polled_count : Arith → ℕ → ℕ → Rule → Latch → Option ℕ → ℕ → Out
eval_polled_count ar interval idx r rt none now = quiet rt
eval_polled_count ar interval idx r rt (some cur) now = eval_count ar interval idx r rt cur now

unfoldable pub eval_kind : Arith → ℕ → ℕ → Rule → Latch → Channel → Kind → Reading → ℕ → Out
eval_kind ar interval idx r rt c Kind.threshold reading now =
    (eval_threshold ar idx r rt reading.value).1
eval_kind ar interval idx r rt c Kind.state reading now =
    eval_polled_state ar idx r rt c (poll_level c reading.level) now
eval_kind ar interval idx r rt c Kind.rate reading now =
    eval_polled_count ar interval idx r rt (poll_counter r c reading.counter) now
eval_kind ar interval idx r rt c Kind.none_kind reading now = quiet rt

-- `eval_rule`, given the channel of the rule
unfoldable pub eval_on : Arith → ℕ → ℕ → Rule → Latch → Option Channel → Reading → ℕ → Out
eval_on ar interval idx r rt none reading now = quiet rt
eval_on ar interval idx r rt (some c) reading now =
    eval_kind ar interval idx r rt c c.kind reading now

unfoldable pub eval_rule : Arith → ℕ → ℕ → Rule → Latch → Reading → ℕ → Out
eval_rule ar interval idx r rt reading now =
    eval_on ar interval idx r rt (rule_channel r) reading now

-- One evaluation after another.
abbrev pub then_do : Out → (Latch → Out) → Out
then_do o f =
    let o' = f o.latch in
    record { latch = o'.latch; events = o.events ++ o'.events; send = o.send || o'.send }

-- One turn of the first loop of `app_alarm_poll`.
unfoldable pub poll_rule :
    Arith → (Field → ℕ) → Types → ℕ → ℕ → Latch → Option Rule → Reading → ℕ → Out
poll_rule ar config types interval idx rt none reading now = rt_sync idx rt none
poll_rule ar config types interval idx rt (some r) reading now =
    then_do (rt_sync idx rt (some r))
      (λ rt'. eval_rule ar interval idx (armed_or_inert config types r) rt' reading now)

-- The stillness part of one turn of the sweep of `app_alarm_poll`.
unfoldable pub sweep_stillness : Arith → (Field → ℕ) → Types → ℕ → Latch → ℕ → Out
sweep_stillness ar config types idx rt now =
    let r = rt.last_rule in
    if rule_armed config types r && rule_is_momentary r && rule_is_stillness r && not rt.active
    then (if rt.confirm_deadline == 0
        then quiet (record rt { confirm_deadline = now + rule_hold_ms ar r })
        else if leb rt.confirm_deadline now
        then edge (record rt { confirm_deadline = 0; active = true })
            (collect idx r true type_trigger true (pos 0))
        else quiet rt)
    else quiet rt

-- The part that expires a hold.
unfoldable pub sweep_expiry : ℕ → Latch → ℕ → Out
sweep_expiry idx rt now =
    let r = rt.last_rule in
    let rt' = record rt { active = false; oneshot_expiry = 0 } in
    if not (rt.oneshot_expiry == 0) && leb rt.oneshot_expiry now
    then (if rt.active && rule_is_momentary r && r.from_state == 1 && r.to_state == 1
        then edge rt' (collect idx r false type_trigger true (pos 0))
        else quiet rt')
    else quiet rt

-- One turn of the sweep.
unfoldable pub sweep : Arith → (Field → ℕ) → Types → ℕ → Latch → ℕ → Out
sweep ar config types idx rt now =
    if not rt.used
    then quiet rt
    else then_do (sweep_stillness ar config types idx rt now) (λ rt'. sweep_expiry idx rt' now)

abbrev pub is_state : Kind → Bool
is_state Kind.state = true
is_state _ = false

-- The test of `app_alarm_event` for a rule's channel.
unfoldable pub takes_event : Rule → ℕ → Option Channel → Bool
takes_event r channel none = false
takes_event r channel (some c) = r.slot == 0 && r.channel == channel && is_state c.kind

-- `app_alarm_event` for one rule that may be disabled.
unfoldable pub event_on : Arith → ℕ → Rule → Latch → ℕ → Bool → ℕ → Out
event_on ar idx r rt channel level now =
    if takes_event r channel (rule_channel r) then eval_state ar idx r rt level now else quiet rt

-- One turn of the loop of `app_alarm_event`.
unfoldable pub event_rule :
    Arith → (Field → ℕ) → Types → ℕ → Latch → Option Rule → ℕ → Bool → ℕ → Out
event_rule ar config types idx rt none channel level now = rt_sync idx rt none
event_rule ar config types idx rt (some r) channel level now =
    then_do (rt_sync idx rt (some r))
      (λ rt'. event_on ar idx (armed_or_inert config types r) rt' channel level now)

-- What happens to one rule: a poll of it with its sweep, or an event, each with the rule that is
-- stored at the time.
pub data Step : Type 0 where
  poll : Option Rule → Reading → ℕ → Step
  event : Option Rule → ℕ → Bool → ℕ → Step

abbrev pub stored : Step → Option Rule
stored (poll o _ _) = o
stored (event o _ _ _) = o

unfoldable pub step : Arith → (Field → ℕ) → Types → ℕ → ℕ → Latch → Step → Out
step ar config types interval idx rt (poll o reading now) =
    then_do (poll_rule ar config types interval idx rt o reading now)
      (λ rt'. sweep ar config types idx rt' now)
step ar config types interval idx rt (event o channel level now) =
    event_rule ar config types idx rt o channel level now

-- A run of them.
unfoldable pub run_steps : Arith → (Field → ℕ) → Types → ℕ → ℕ → Latch → List Step → Out
run_steps ar config types interval idx rt [] = quiet rt
run_steps ar config types interval idx rt (t ∷ ts) =
    then_do (step ar config types interval idx rt t)
      (λ rt'. run_steps ar config types interval idx rt' ts)
