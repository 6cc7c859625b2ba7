-- ===== src/Input/Tests.antt =====
-- The pulse count at a concrete signal.
use sticker_firmware.Base.{
  ◌+◌, ◌≡◌, refl, arith, true, false, some, List, [], ◌∷◌, u32, done, err, Errno,
}
use sticker_firmware.Input.{Mode}
use sticker_firmware.Input.Pulses.{Event, State, run, total, pulses, pulses_counted}

abbrev meter : Mode
meter = record { is_input = true; is_pulse = true; counter = false }

abbrev start : State
start = record {
  inputs = record {
    a = record { is_active = false; count = 7 };
    b = record { is_active = false; count = 0 };
    pulse_a = record { pending = 1; idle_level = 1; last_edge_ms = 500 };
    pulse_b = record { pending = 0; idle_level = 0; last_edge_ms = 0 };
  };
  now = 500;
  away = false;
}

-- A pulse that bounces at both ends, a poll, a poll that fails, and the start of another pulse.
abbrev signal : List Event
signal =
    Event.edge (record { gap = 40; bounce = (2, some 1) ∷ (1, some 0) ∷ [] })
    ∷ Event.poll_at false meter (done true) (done false)
    ∷ Event.edge (record { gap = 30; bounce = (3, some 0) ∷ [] })
    ∷ Event.poll_at false meter (err Errno.eio) (done false)
    ∷ Event.edge (record { gap = 1000; bounce = [] })
    ∷ []

pulses_counted_example : total (run meter start signal) ≡ u32 (total start + pulses false signal)
pulses_counted_example =
    pulses_counted meter start signal refl (omega arith) (omega arith) (ground arith)
