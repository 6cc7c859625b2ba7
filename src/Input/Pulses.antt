-- ===== src/Input/Pulses.antt =====
-- app/src/app_input.c: a pulse counts once, however the contact bounces and whenever the poll runs.
use sticker_firmware.Base.{
  ℕ, ◌+◌, ◌-◌, ◌^◌, ◌<◌, ◌≤◌, ◌≡◌, refl, ◌∙◌, arith, Bool, true, false, not, Option, none, some,
  List, [], ◌∷◌, ltb, ◌==◌, if◌then◌else◌, u32, sub_u32, Result, done, err,
}
use sticker_firmware.Input.{
  PulseState, Inputs, Mode, debounce_ms, pulse_handler, poll_pin, read_pin, polled_both, poll_reads,
  poll,
}

-- An edge of the signal: its gap to the edge before, and the edges of its bounce, each with its gap
-- and the level that is read.
pub record Edge : Type 0 where
  pub gap : ℕ
  pub bounce : List (ℕ × Option ℕ)

pub data Event : Type 0 where
  edge : Edge → Event
  poll_at : Bool → Mode → Result Bool → Result Bool → Event

-- The input a, the uptime of the last edge, and whether the signal is away from its idle level.
pub record State : Type 0 where
  pub inputs : Inputs
  pub now : ℕ
  pub away : Bool

unfoldable pub bounced : PulseState → ℕ → List (ℕ × Option ℕ) → PulseState × ℕ
bounced st now [] = (st, now)
bounced st now ((gap, level) ∷ bs) = bounced (pulse_handler st (now + gap) level) (now + gap) bs

-- The level of the signal, against an idle level of 0 or 1
abbrev pub level_of : Bool → ℕ → ℕ
level_of true idle = 1 - idle
level_of false idle = idle

unfoldable pub edge_on : State → Edge → State
edge_on s e =
    let st = s.inputs.pulse_a in
    let first = pulse_handler st (s.now + e.gap) (some (level_of (not s.away) st.idle_level)) in
    let last = bounced first (s.now + e.gap) e.bounce in
    record { inputs = record s.inputs { pulse_a = last.0 }; now = last.1; away = not s.away }

-- The mode of the input a is a pulse input; that of b is part of the poll.
unfoldable pub step : Mode → State → Event → State
step m s (Event.edge e) = edge_on s e
step m s (Event.poll_at prime mb ra rb) = record s { inputs = (poll prime m mb s.inputs ra rb).1 }

unfoldable pub run : Mode → State → List Event → State
run m s [] = s
run m s (e ∷ es) = run m (step m s e) es

-- The gaps: at least the debounce before an edge, and less in its bounce.
abbrev pub Bounces : List (ℕ × Option ℕ) → Type 0
Bounces [] = Unit {0}
Bounces ((gap, level) ∷ bs) = (gap < 20) × Bounces bs

abbrev pub AreClean : List Event → Type 0
AreClean [] = Unit {0}
AreClean (Event.edge e ∷ es) = (20 ≤ e.gap) × (e.gap < 2 ^ 32) × Bounces e.bounce × AreClean es
AreClean (Event.poll_at prime mb ra rb ∷ es) = AreClean es

-- The pulses: the edges away from the idle level.
abbrev pub pulses : Bool → List Event → ℕ
pulses away [] = 0
pulses true (Event.edge e ∷ es) = pulses false es
pulses false (Event.edge e ∷ es) = 1 + pulses true es
pulses away (Event.poll_at prime mb ra rb ∷ es) = pulses away es

-- All that was counted, also what waits for the poll.
abbrev pub total : State → ℕ
total s = u32 (s.inputs.a.count + s.inputs.pulse_a.pending)

record IsCounting (s : State) : Type 0 where
  edge : s.inputs.pulse_a.last_edge_ms ≡ u32 s.now
  idle : s.inputs.pulse_a.idle_level ≤ 1

-- An edge within the debounce only moves the time of the last edge.
early_facts :
    (st : PulseState) (now gap : ℕ) (level : Option ℕ)
    → st.last_edge_ms ≡ u32 now
    → gap < 20
    → let st' = pulse_handler st (now + gap) level in
      (st'.last_edge_ms ≡ u32 (now + gap))
      × (st'.pending ≡ st.pending)
      × (st'.idle_level ≡ st.idle_level)
unfolding pulse_handler
early_facts st now gap none e h = (refl, refl, refl)
early_facts st now gap (some level) e h =
    let early : ltb (sub_u32 (u32 (now + gap)) st.last_edge_ms) debounce_ms ≡ true =
      ground (arith, e) in
    rw early (refl, refl, refl)

-- An edge behind the debounce counts if it leaves the idle level.
late_facts :
    (st : PulseState) (now gap : ℕ) (away : Bool)
    → st.last_edge_ms ≡ u32 now
    → st.idle_level ≤ 1
    → 20 ≤ gap
    → gap < 2 ^ 32
    → let st' = pulse_handler st (now + gap) (some (level_of away st.idle_level)) in
      (st'.last_edge_ms ≡ u32 (now + gap))
      × (st'.pending ≡ (if away then u32 (st.pending + 1) else st.pending))
      × (st'.idle_level ≡ st.idle_level)
unfolding pulse_handler
late_facts st now gap true e i low high =
    let late : ltb (sub_u32 (u32 (now + gap)) st.last_edge_ms) debounce_ms ≡ false =
      ground (arith, e) in
    let other : (1 - st.idle_level == st.idle_level) ≡ false = ground (arith, i) in
    rw (late, other) (refl, refl, refl)
late_facts st now gap false e i low high =
    let late : ltb (sub_u32 (u32 (now + gap)) st.last_edge_ms) debounce_ms ≡ false =
      ground (arith, e) in
    let same : (st.idle_level == st.idle_level) ≡ true = ground arith in
    rw (late, same) (refl, refl, refl)

bounced_facts :
    (st : PulseState) (now : ℕ) (bs : List (ℕ × Option ℕ))
    → st.last_edge_ms ≡ u32 now
    → Bounces bs
    → let (st', now') = bounced st now bs in
      (st'.last_edge_ms ≡ u32 now') × (st'.pending ≡ st.pending) × (st'.idle_level ≡ st.idle_level)
unfolding bounced
bounced_facts st now [] e b = (e, refl, refl)
bounced_facts st now ((gap, level) ∷ bs) e (h, b) =
    let (l, p, i) = early_facts st now gap level e h in
    let (l', p', i') = bounced_facts (pulse_handler st (now + gap) level) (now + gap) bs l b in
    (l', p' ∙ p, i' ∙ i)

record Keeps (s t : State) (n : ℕ) : Type 0 where
  counting : IsCounting t
  total : total t ≡ u32 (total s + n)

edge-Keeps :
    (s : State) (e : Edge)
    → IsCounting s
    → 20 ≤ e.gap
    → e.gap < 2 ^ 32
    → Bounces e.bounce
    → Keeps s (edge_on s e) (if not s.away then 1 else 0)
unfolding edge_on
edge-Keeps s e c low high b =
    let st = s.inputs.pulse_a in
    let (l, p, i) = late_facts st s.now e.gap (not s.away) c.edge c.idle low high in
    let (l', p', i') =
      bounced_facts (pulse_handler st (s.now + e.gap) (some (level_of (not s.away) st.idle_level)))
        (s.now + e.gap) e.bounce l b in
    record {
      counting = record { edge = l'; idle = omega (arith, i' ∙ i, c.idle) };
      total = ground (arith, p' ∙ p);
    }

polled_total :
    (prime : Bool) (m mb : Mode) (s : Inputs) (ra rb : Result Bool)
    → m.is_pulse ≡ true
    → let s' = (poll prime m mb s ra rb).1 in
      (u32 (s'.a.count + s'.pulse_a.pending) ≡ u32 (s.a.count + s.pulse_a.pending))
      × (s'.pulse_a.last_edge_ms ≡ s.pulse_a.last_edge_ms)
      × (s'.pulse_a.idle_level ≡ s.pulse_a.idle_level)
unfolding poll poll_reads polled_both poll_pin
polled_total prime m mb s ra rb pulse = go (read_pin m ra) (read_pin mb rb)
  where
    go :
        (qa qb : Result Bool)
        → let s' = (poll_reads prime m mb s qa qb).1 in
          (u32 (s'.a.count + s'.pulse_a.pending) ≡ u32 (s.a.count + s.pulse_a.pending))
          × (s'.pulse_a.last_edge_ms ≡ s.pulse_a.last_edge_ms)
          × (s'.pulse_a.idle_level ≡ s.pulse_a.idle_level)
    go (err e) qb = (refl, refl, refl)
    go (done x) (err e) = (refl, refl, refl)
    go (done x) (done y) = rw pulse (omega arith, refl, refl)

pulses-edge :
    (away : Bool) (e : Edge) (es : List Event)
    → pulses away (Event.edge e ∷ es) ≡ (if not away then 1 else 0) + pulses (not away) es
pulses-edge true e es = omega arith
pulses-edge false e es = omega arith

run-Keeps :
    (m : Mode) (s : State) (es : List Event)
    → m.is_pulse ≡ true
    → IsCounting s
    → AreClean es
    → Keeps s (run m s es) (pulses s.away es)
unfolding run step edge_on
run-Keeps m s [] pulse c clean = record { counting = c; total = omega arith }
run-Keeps m s (Event.edge e ∷ es) pulse c (low, high, b, clean) =
    let k = edge-Keeps s e c low high b in
    let r = run-Keeps m (edge_on s e) es pulse k.counting clean in
    record {
      counting = r.counting;
      total = omega (arith, r.total, k.total, pulses-edge s.away e es);
    }
run-Keeps m s (Event.poll_at prime mb ra rb ∷ es) pulse c clean =
    let (t, l, i) = polled_total prime m mb s.inputs ra rb pulse in
    let c' : IsCounting (step m s (Event.poll_at prime mb ra rb)) = record {
      edge = l ∙ c.edge;
      idle = omega (arith, i, c.idle);
    } in
    let r = run-Keeps m (step m s (Event.poll_at prime mb ra rb)) es pulse c' clean in
    record { counting = r.counting; total = omega (arith, r.total, t) }

-- For an input in pulse mode whose signal alternates between its idle level, 0 or 1, and the other
-- one, with edges at least 20 ms apart, each with any bounce whose gaps are below 20 ms, and with
-- polls in between, failed ones as well: from the time of the last edge on, what is counted or waits
-- for the poll grows, modulo 2 ^ 32, by exactly the edges away from the idle level.
pub pulses_counted :
    (m : Mode) (s : State) (es : List Event)
    → m.is_pulse ≡ true
    → s.inputs.pulse_a.last_edge_ms ≡ u32 s.now
    → s.inputs.pulse_a.idle_level ≤ 1
    → AreClean es
    → total (run m s es) ≡ u32 (total s + pulses s.away es)
pulses_counted m s es pulse last idle clean =
    (run-Keeps m s es pulse (record { edge = last; idle = idle }) clean).total
