-- ===== src/Alarm/Pairing.antt =====
-- The edges of a rule pair up: an activation only when it was not active, a deactivation only when it
-- was, and the latch is what the last edge says.
use sticker_firmware.Base.{ℕ, ◌≡◌, arith, Bool, true, not, List, [], ◌∷◌, ◌++◌}
use sticker_firmware.AlarmRules.Rule.{Rule}
use sticker_firmware.Alarm.Latch.{Arith, Latch, Event, collect, Out}
use sticker_firmware.Alarm.Threshold.{activate, drop_latch, eval_latched, eval_threshold}
use sticker_firmware.Alarm.State.{eval_level}
use sticker_firmware.Alarm.Rate.{baseline, eval_window, eval_count}

-- From `before` to `after`, through edges that each turn it over.
abbrev pub Pairs : Bool → List Event → Bool → Type 0
Pairs before [] after = before ≡ after
Pairs before (e ∷ es) after = (e.active ≡ not before) × Pairs e.active es after

-- An evaluation from a latch.
abbrev pub PairsUp : Latch → Out → Type 0
PairsUp rt o = Pairs rt.active o.events o.latch.active

pub Pairs-append :
    (a b c : Bool) (es es' : List Event) → Pairs a es b → Pairs b es' c → Pairs a (es ++ es') c
Pairs-append a b c [] es' h h' = rw h h'
Pairs-append a b c (e ∷ es) es' (first, rest) h' = (first, Pairs-append e.active b c es es' rest h')

drop_latch-PairsUp : (idx : ℕ) (r : Rule) (rt : Latch) → PairsUp rt (drop_latch idx r rt)
unfolding drop_latch collect
drop_latch-PairsUp idx r rt = ground arith

eval_latched-PairsUp :
    (ar : Arith) (idx : ℕ) (r : Rule) (rt : Latch) (value : ℕ)
    → rt.active ≡ true
    → PairsUp rt (eval_latched ar idx r rt value).1
unfolding eval_latched activate collect
eval_latched-PairsUp ar idx r rt value on = ground arith

pub eval_threshold-PairsUp :
    (ar : Arith) (idx : ℕ) (r : Rule) (rt : Latch) (value : ℕ)
    → PairsUp rt (eval_threshold ar idx r rt value).1
unfolding eval_threshold activate collect
eval_threshold-PairsUp ar idx r rt value =
    ground (arith, drop_latch-PairsUp idx r rt, eval_latched-PairsUp ar idx r rt value)

pub eval_count-PairsUp :
    (ar : Arith) (interval idx : ℕ) (r : Rule) (rt : Latch) (cur now : ℕ)
    → PairsUp rt (eval_count ar interval idx r rt cur now)
unfolding eval_count baseline eval_window collect
eval_count-PairsUp ar interval idx r rt cur now = ground arith

pub eval_level-PairsUp :
    (idx : ℕ) (r : Rule) (rt : Latch) (lvl hold now : ℕ)
    → PairsUp rt (eval_level idx r rt lvl hold now)
unfolding eval_level collect
eval_level-PairsUp idx r rt lvl hold now = ground arith
