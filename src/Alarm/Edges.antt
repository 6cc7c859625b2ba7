-- ===== src/Alarm/Edges.antt =====
-- A rule through any run of polls, events and edits of the stored rule.
use sticker_firmware.Base.{◌≡◌, arith, Bool, true, ◌&&◌, Option, none, some, List, [], ◌∷◌}
use sticker_firmware.AlarmRules.Rule.{Rule, Types}
use sticker_firmware.Alarm.Latch.{Latch, Out}
use sticker_firmware.Alarm.Poll.{same_rule, Step, stored}
use sticker_firmware.Alarm.Pairing.{PairsUp}
use sticker_firmware.Alarm.Steady.{is_steady, Steady}

-- The latch between two steps: no hold runs, and the rule that it was synced to is steady.
pub record IsCalm (rt : Latch) : Type 0 where
  pub no_hold : rt.oneshot_expiry ≡ 0
  pub steady : rt.used ≡ true → is_steady rt.last_rule ≡ true

same_rule_iff : (a b : Rule) → same_rule a b ≡ true → a ≡ b
unfolding same_rule
same_rule_iff a b h = ground arith

-- What a step does: the edges pair up, and the latch stays calm.
pub record IsPaired (rt : Latch) (o : Out) : Type 0 where
  pub pairs : PairsUp rt o
  pub calm : IsCalm o.latch

abbrev pub option_steady : Option Rule → Bool
option_steady none = true
option_steady (some r) = is_steady r

abbrev pub all_steady : List Step → Bool
all_steady [] = true
all_steady (t ∷ ts) = option_steady (stored t) && all_steady ts
