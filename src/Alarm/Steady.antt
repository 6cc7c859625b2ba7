-- ===== src/Alarm/Steady.antt =====
-- The edges of a rule over any run of polls and events, for every rule but those that hold or clear
-- silently by design: the momentary channels and the transitions.
use sticker_firmware.Base.{
  ℕ, ◌≡◌, refl, arith, Bool, true, false, not, ◌&&◌, ◌||◌, Option, none, some, ◌==◌,
}
use sticker_firmware.SensorTypes.Types.{Channel}
use sticker_firmware.AlarmRules.Rule.{Rule, rule_channel}
use sticker_firmware.Alarm.Latch.{Arith, Latch, collect, Out, quiet, rule_is_momentary}
use sticker_firmware.Alarm.Threshold.{activate, drop_latch, eval_latched, eval_threshold}
use sticker_firmware.Alarm.State.{eval_disabled, eval_level, eval_state}
use sticker_firmware.Alarm.Rate.{baseline, eval_window, eval_count}
use sticker_firmware.Alarm.Poll.{is_state}
use sticker_firmware.Alarm.Pairing.{PairsUp, eval_threshold-PairsUp, eval_count-PairsUp}

abbrev pub kind_steady : Rule → Option Channel → Bool
kind_steady r none = true
kind_steady r (some c) = not (is_state c.kind) || r.from_state == r.to_state

-- A rule whose every clearing is reported.
unfoldable pub is_steady : Rule → Bool
is_steady r = not (rule_is_momentary r) && kind_steady r (rule_channel r)

-- What an evaluation of a steady rule does to its latch.
pub record Steady (rt : Latch) (o : Out) : Type 0 where
  pub pairs : PairsUp rt o
  pub no_hold : rt.oneshot_expiry ≡ 0 → o.latch.oneshot_expiry ≡ 0
  pub used : o.latch.used ≡ rt.used
  pub rule : o.latch.last_rule ≡ rt.last_rule

pub quiet-Steady : (rt : Latch) → Steady rt (quiet rt)
quiet-Steady rt = record { pairs = refl; no_hold = λ h. h; used = refl; rule = refl }

pub eval_threshold-Steady :
    (ar : Arith) (idx : ℕ) (r : Rule) (rt : Latch) (value : ℕ)
    → Steady rt (eval_threshold ar idx r rt value).1
unfolding eval_threshold eval_latched drop_latch activate
eval_threshold-Steady ar idx r rt value = record {
  pairs = eval_threshold-PairsUp ar idx r rt value;
  no_hold = ground arith;
  used = ground arith;
  rule = ground arith;
}

pub eval_count-Steady :
    (ar : Arith) (interval idx : ℕ) (r : Rule) (rt : Latch) (cur now : ℕ)
    → Steady rt (eval_count ar interval idx r rt cur now)
unfolding eval_count baseline eval_window
eval_count-Steady ar interval idx r rt cur now = record {
  pairs = eval_count-PairsUp ar interval idx r rt cur now;
  no_hold = ground arith;
  used = ground arith;
  rule = ground arith;
}

pub eval_state-Steady :
    (ar : Arith) (idx : ℕ) (r : Rule) (rt : Latch) (cur : Bool) (now : ℕ)
    → rule_is_momentary r ≡ false
    → (r.from_state == r.to_state) ≡ true
    → Steady rt (eval_state ar idx r rt cur now)
unfolding eval_state eval_disabled eval_level collect
eval_state-Steady ar idx r rt cur now m e =
    rw (m, e)
      record {
        pairs = ground arith;
        no_hold = ground arith;
        used = ground arith;
        rule = ground arith;
      }
