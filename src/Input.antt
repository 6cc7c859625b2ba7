-- ===== src/Input.antt =====
-- app/src/app_input.c: the two inputs, counted by edges in the poll or by pulses in the interrupt.
-- The levels that are read are arguments; alarm calls are the effects.
pub mod Pulses
mod Tests
use sticker_firmware.Base.{
  ℕ, zero, suc, ◌+◌, ◌-◌, ◌%◌, ◌^◌, Bool, true, false, not, ◌&&◌, ◌||◌, Option, none, some, List,
  [], ◌∷◌, ◌++◌, ltb, ◌==◌, if◌then◌else◌, u32, sub_u32, Ret, ok, fail, Errno, Result, done, err,
}

-- PULSE_DEBOUNCE_MS
abbrev pub debounce_ms : ℕ
debounce_ms = 20

-- `struct pulse_state`, without the pin
pub record PulseState : Type 0 where
  pub pending : ℕ
  pub idle_level : ℕ
  pub last_edge_ms : ℕ

-- One input of `struct app_input_data`
pub record Pin : Type 0 where
  pub is_active : Bool
  pub count : ℕ

pub record Inputs : Type 0 where
  pub a : Pin
  pub b : Pin
  pub pulse_a : PulseState
  pub pulse_b : PulseState

-- What the configuration says of one input: cap_gpio_input_x is an input, and is a pulse one, and
-- input_x_counter.
pub record Mode : Type 0 where
  pub is_input : Bool
  pub is_pulse : Bool
  pub counter : Bool

-- app_alarm_event and app_alarm_activity, for the input a if true
pub data Effect : Type 0 where
  event : Bool → Bool → Effect
  activity : Bool → Effect

-- `pulse_handler`; none for a level that cannot be read.
unfoldable pub pulse_handler : PulseState → ℕ → Option ℕ → PulseState
pulse_handler st now none = record st { last_edge_ms = u32 now }
pulse_handler st now (some level) =
    if ltb (sub_u32 (u32 now) st.last_edge_ms) debounce_ms || level == st.idle_level
    then record st { last_edge_ms = u32 now }
    else record st { last_edge_ms = u32 now; pending = u32 (st.pending + 1) }

-- `pulse_setup`, on the state
unfoldable pub pulse_setup : PulseState → ℕ → Result ℕ → Ret × PulseState
pulse_setup st now (err e) = (fail e, st)
pulse_setup st now (done level) = (ok, record st { idle_level = level; last_edge_ms = u32 now })

-- One input in `poll_impl`, behind the reads: the pin, the pulses left, whether it rose and fell,
-- and whether pulses were counted.
pub record Polled : Type 0 where
  pub pin : Pin
  pub pulse : PulseState
  pub rise : Bool
  pub fall : Bool
  pub pulses : ℕ

unfoldable pub poll_pin : Bool → Mode → Pin → PulseState → Bool → Polled
poll_pin prime m p st active =
    let rise = not prime && not m.is_pulse && not p.is_active && active in
    let fall = not prime && not m.is_pulse && p.is_active && not active in
    let pulses = if m.is_pulse then st.pending else 0 in
    record {
      pin = record {
        is_active = active;
        count =
            if m.is_pulse
            then u32 (p.count + pulses)
            else if rise && m.counter
            then u32 (p.count + 1)
            else p.count;
      };
      pulse = record st { pending = if m.is_pulse then 0 else st.pending };
      rise = rise;
      fall = fall;
      pulses = pulses;
    }

unfoldable pub edge_events : Bool → Polled → List Effect
edge_events is_a q =
    if q.rise
    then Effect.event is_a true ∷ []
    else if q.fall
    then Effect.event is_a false ∷ []
    else []

unfoldable pub activities : Bool → Polled → List Effect
activities is_a q = if q.pulses == 0 then [] else Effect.activity is_a ∷ []

-- The read of a pin, if it is an input.
unfoldable pub read_pin : Mode → Result Bool → Result Bool
read_pin m r = if m.is_input then r else done false

unfoldable pub polled_both : Bool → Mode → Mode → Inputs → Bool → Bool → Ret × Inputs × List Effect
polled_both prime ma mb s active_a active_b =
    let qa = poll_pin prime ma s.a s.pulse_a active_a in
    let qb = poll_pin prime mb s.b s.pulse_b active_b in
    (
      ok,
      record { a = qa.pin; b = qb.pin; pulse_a = qa.pulse; pulse_b = qb.pulse },
      edge_events true qa ++ edge_events false qb ++ activities true qa ++ activities false qb,
    )

unfoldable pub poll_reads :
    Bool → Mode → Mode → Inputs → Result Bool → Result Bool → Ret × Inputs × List Effect
poll_reads prime ma mb s (err e) rb = (fail e, s, [])
poll_reads prime ma mb s (done active_a) (err e) = (fail e, s, [])
poll_reads prime ma mb s (done active_a) (done active_b) =
    polled_both prime ma mb s active_a active_b

-- `poll_impl`, with what gpio_pin_get_dt gives for the two pins
unfoldable pub poll :
    Bool → Mode → Mode → Inputs → Result Bool → Result Bool → Ret × Inputs × List Effect
poll prime ma mb s ra rb = poll_reads prime ma mb s (read_pin ma ra) (read_pin mb rb)

-- `app_input_reset_count`
unfoldable pub reset_count : Inputs → Bool → Bool → Inputs
reset_count s input_a input_b = record {
  a = if input_a then record { is_active = s.a.is_active; count = 0 } else s.a;
  b = if input_b then record { is_active = s.b.is_active; count = 0 } else s.b;
  pulse_a =
      if input_a
      then record {
        pending = 0;
        idle_level = s.pulse_a.idle_level;
        last_edge_ms = s.pulse_a.last_edge_ms;
      }
      else s.pulse_a;
  pulse_b =
      if input_b
      then record {
        pending = 0;
        idle_level = s.pulse_b.idle_level;
        last_edge_ms = s.pulse_b.last_edge_ms;
      }
      else s.pulse_b;
}

-- `app_input_set_counts`
unfoldable pub set_counts : Inputs → ℕ → ℕ → Inputs
set_counts s input_a input_b = record s {
  a = record { is_active = s.a.is_active; count = input_a };
  b = record { is_active = s.b.is_active; count = input_b };
}
