-- ===== src/Radio/Tests.antt =====
-- The duty ledger at a concrete run of frames.
use sticker_firmware.Base.{◌+◌, ◌≡◌, ◌≤◌, ok, refl, true, false, arith, List, [], ◌∷◌}
use sticker_firmware.Radio.Link.{
  Link, link_up, budget_of, link_result, link_clear, failed, failed_warning, failed_healthy, lost,
}
use sticker_firmware.Radio.Link.Budget.{Event, row, after, link_after, rejoins, rejoin_price}
use sticker_firmware.Radio.Duty.Limit.{Attempt, transmit_all, hour_before, new_radio, duty_limit}

-- Two frames within the allowance, one that is held, and one of the next hour.
abbrev frames : List Attempt
frames =
    record { idle = 1000; flight = 20000; air = 20000 }
    ∷ record { idle = 5000; flight = 15000; air = 15000 }
    ∷ record { idle = 100000; flight = 9000; air = 9000 }
    ∷ record { idle = 3600000; flight = 9000; air = 9000 }
    ∷ []

duty_limit_example : hour_before 100000 (transmit_all (new_radio 36000) frames).log ≤ 36000
duty_limit_example =
    duty_limit 36000 frames 100000 (omega arith) (omega arith) (ground arith) (omega arith)

abbrev no_answer : Event
no_answer = Event.result true false false ok

abbrev fresh : Link
fresh = record { reports = 4; fail_streak = 0; warning_fails = 0; warning = false }

-- An answer, three failures to WARNING, and one in it.
abbrev before : List Event
before = no_answer ∷ no_answer ∷ no_answer ∷ no_answer ∷ Event.result true true false ok ∷ []

asks : rejoins (after 2 (link_after 2 (link_up fresh) before) no_answer).1 ≡ true
unfolding after link_after link_result link_up link_clear failed failed_warning failed_healthy lost
asks = refl

rejoin_price_example : 3 + budget_of 2 ≤ row (no_answer ∷ before)
rejoin_price_example = rejoin_price 2 fresh no_answer before (omega arith) asks
