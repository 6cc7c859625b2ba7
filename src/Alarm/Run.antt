-- ===== src/Alarm/Run.antt =====
-- The evaluations of a steady rule, whatever was read.
use sticker_firmware.Base.{
  ℕ, ◌≡◌, arith, Bool, true, false, not, ◌&&◌, ◌||◌, Option, none, some, ◌==◌, Bool-cases, inl, inr,
}
use sticker_firmware.SensorTypes.Types.{Kind, Channel, Field}
use sticker_firmware.AlarmRules.Rule.{Rule, Types, rule_channel}
use sticker_firmware.Alarm.Latch.{Arith, Latch, channel_momentary, rule_is_momentary}
use sticker_firmware.Alarm.Poll.{
  armed_or_inert, Reading, eval_polled_state, eval_polled_count, eval_kind, eval_on, eval_rule,
  is_state, takes_event, event_on, poll_level, poll_counter,
}
use sticker_firmware.Alarm.Steady.{
  kind_steady, is_steady, Steady, quiet-Steady, eval_threshold-Steady, eval_count-Steady,
  eval_state-Steady,
}

pub steady_parts :
    (r : Rule)
    → is_steady r ≡ true
    → (rule_is_momentary r ≡ false) × (kind_steady r (rule_channel r) ≡ true)
unfolding is_steady
steady_parts r h = ground arith

pub inert-is_steady :
    (config : Field → ℕ) (types : Types) (r : Rule)
    → is_steady (armed_or_inert config types r) ≡ is_steady r
unfolding armed_or_inert is_steady rule_is_momentary rule_channel
inert-is_steady config types r = ground arith

eval_polled_state-Steady :
    (ar : Arith) (idx : ℕ) (r : Rule) (rt : Latch) (c : Channel) (level : Option Bool) (now : ℕ)
    → rule_is_momentary r ≡ false
    → (r.from_state == r.to_state) ≡ true
    → Steady rt (eval_polled_state ar idx r rt c level now)
unfolding eval_polled_state
eval_polled_state-Steady ar idx r rt c (some level) now m e =
    eval_state-Steady ar idx r rt level now m e
eval_polled_state-Steady ar idx r rt c none now m e =
    elim (Bool-cases (r.enabled == 0 && rt.active && not (channel_momentary (some c)))) [
      | inl t ↦ rw t (eval_state-Steady ar idx r rt (not (rt.prev_state == 0)) now m e)
      | inr f ↦ rw f (quiet-Steady rt)
    ]

eval_polled_count-Steady :
    (ar : Arith) (interval idx : ℕ) (r : Rule) (rt : Latch) (counter : Option ℕ) (now : ℕ)
    → Steady rt (eval_polled_count ar interval idx r rt counter now)
unfolding eval_polled_count
eval_polled_count-Steady ar interval idx r rt none now = quiet-Steady rt
eval_polled_count-Steady ar interval idx r rt (some cur) now =
    eval_count-Steady ar interval idx r rt cur now

eval_kind-Steady :
    (ar : Arith) (interval idx : ℕ) (r : Rule) (rt : Latch) (c : Channel) (k : Kind)
    (reading : Reading) (now : ℕ)
    → rule_is_momentary r ≡ false
    → (not (is_state k) || r.from_state == r.to_state) ≡ true
    → Steady rt (eval_kind ar interval idx r rt c k reading now)
unfolding eval_kind
eval_kind-Steady ar interval idx r rt c Kind.threshold reading now m e =
    eval_threshold-Steady ar idx r rt reading.value
eval_kind-Steady ar interval idx r rt c Kind.state reading now m e =
    eval_polled_state-Steady ar idx r rt c (poll_level c reading.level) now m e
eval_kind-Steady ar interval idx r rt c Kind.rate reading now m e =
    eval_polled_count-Steady ar interval idx r rt (poll_counter r c reading.counter) now
eval_kind-Steady ar interval idx r rt c Kind.none_kind reading now m e = quiet-Steady rt

eval_on-Steady :
    (ar : Arith) (interval idx : ℕ) (r : Rule) (rt : Latch) (o : Option Channel) (reading : Reading)
    (now : ℕ)
    → rule_is_momentary r ≡ false
    → kind_steady r o ≡ true
    → Steady rt (eval_on ar interval idx r rt o reading now)
unfolding eval_on
eval_on-Steady ar interval idx r rt none reading now m e = quiet-Steady rt
eval_on-Steady ar interval idx r rt (some c) reading now m e =
    eval_kind-Steady ar interval idx r rt c c.kind reading now m e

pub eval_rule-Steady :
    (ar : Arith) (interval idx : ℕ) (r : Rule) (rt : Latch) (reading : Reading) (now : ℕ)
    → is_steady r ≡ true
    → Steady rt (eval_rule ar interval idx r rt reading now)
unfolding eval_rule
eval_rule-Steady ar interval idx r rt reading now h =
    let (m, k) = steady_parts r h in
    eval_on-Steady ar interval idx r rt (rule_channel r) reading now m k

state_of_event :
    (r : Rule) (channel : ℕ) (o : Option Channel)
    → takes_event r channel o ≡ true
    → kind_steady r o ≡ true
    → (r.from_state == r.to_state) ≡ true
unfolding takes_event
state_of_event r channel none t k = ground arith
state_of_event r channel (some c) t k = ground arith

pub event_on-Steady :
    (ar : Arith) (idx : ℕ) (r : Rule) (rt : Latch) (channel : ℕ) (level : Bool) (now : ℕ)
    → is_steady r ≡ true
    → Steady rt (event_on ar idx r rt channel level now)
unfolding event_on
event_on-Steady ar idx r rt channel level now h =
    let (m, k) = steady_parts r h in
    elim (Bool-cases (takes_event r channel (rule_channel r))) [
      | inl t ↦ rw t (
          eval_state-Steady ar idx r rt level now m (state_of_event r channel (rule_channel r) t k))
      | inr f ↦ rw f (quiet-Steady rt)
    ]
