-- ===== src/Clock/Laws.antt =====
-- What the clock promises over any run of its operations.
use sticker_firmware.Base.{
  ℕ, ◌≤◌, ◌<◌, ◌≡◌, ◌≢◌, Bool-cases, inl, inr, arith, false, Option, none, some, List, [], ◌∷◌,
  ◌==◌, if◌then◌else◌, Ret, ok, fail,
}
use sticker_firmware.Clock.{
  Clock, unix_min, unix_end, resync_period_s, out_of_window, write_rtc, set_unix, max1,
  note_network_time, set_network_time, get_unix,
}

-- The two setters, with the driver's answer and the uptime.
pub data Op : Type 0 where
  unix : ℕ → Ret → Op
  network_time : ℕ → Ret → ℕ → Op

unfoldable pub apply : Op → Clock → Ret × Clock
apply (unix t answer) c = set_unix c t answer
apply (network_time t answer uptime_ms) c = set_network_time c t answer uptime_ms

unfoldable pub apply_all : List Op → Clock → Clock
apply_all [] c = c
apply_all (op ∷ ops) c = apply_all ops (apply op c).1

abbrev pub InWindow : Option ℕ → Type 0
InWindow none = Unit
InWindow (some t) = (unix_min ≤ t) × (t < unix_end)

-- The RTC never leaves its window, and the re-sync timer was started once, at the first network
-- time, or not at all.
pub record IsValid (c : Clock) : Type 0 where
  pub window : InWindow c.rtc
  pub starts : c.timer_starts ≡ (if c.network_time_at_ms == 0 then 0 else 1)
  pub timer : c.resync_timer ≡ (if c.network_time_at_ms == 0 then none else some resync_period_s)

write_rtc-IsValid :
    (c : Clock) (t : ℕ) (answer : Ret)
    → out_of_window t ≡ false
    → IsValid c
    → IsValid (write_rtc c t answer).1
unfolding write_rtc
write_rtc-IsValid c t ok h v = record { window = ground arith; starts = v.starts; timer = v.timer }
write_rtc-IsValid c t (fail e) h v = v

set_unix-IsValid : (c : Clock) (t : ℕ) (answer : Ret) → IsValid c → IsValid (set_unix c t answer).1
unfolding set_unix
set_unix-IsValid c t answer v = elim (Bool-cases (out_of_window t)) [
  | inl e ↦ rw e v
  | inr e ↦ rw e (write_rtc-IsValid c t answer e v)
]

note-IsValid :
    (r : Ret) (c : Clock) (uptime : ℕ) → IsValid c → IsValid (note_network_time (r, c) uptime).1
unfolding note_network_time
note-IsValid (fail e) c uptime v = v
note-IsValid ok c uptime v = elim (Bool-cases (c.network_time_at_ms == 0)) [
  | inl e ↦
      let later : (max1 uptime == 0) ≡ false = ground arith in
      rw e record {
        window = v.window;
        starts = ground (arith, v.starts, later);
        timer = ground (arith, later);
      }
  | inr e ↦
      let later : (max1 uptime == 0) ≡ false = ground arith in
      rw e record {
        window = v.window;
        starts = ground (arith, v.starts, later);
        timer = ground (arith, v.timer, later);
      }
]

set_network_time-IsValid :
    (c : Clock) (t : ℕ) (answer : Ret) (uptime : ℕ)
    → IsValid c
    → IsValid (set_network_time c t answer uptime).1
unfolding set_network_time
set_network_time-IsValid c t answer uptime v = elim (Bool-cases (out_of_window t)) [
  | inl e ↦ rw e v
  | inr e ↦ rw e (
      note-IsValid (set_unix c t answer).0 (set_unix c t answer).1 uptime
        (set_unix-IsValid c t answer v))
]

pub apply-IsValid : (op : Op) (c : Clock) → IsValid c → IsValid (apply op c).1
unfolding apply
apply-IsValid (unix t answer) c v = set_unix-IsValid c t answer v
apply-IsValid (network_time t answer uptime) c v = set_network_time-IsValid c t answer uptime v

-- A network time that is accepted is what the RTC reads back, and history hears of it; one that is
-- not leaves the clock as it was. It is accepted if it is in the window and the driver writes it.
pub set_network_time_lem :
    (c : Clock) (t : ℕ) (answer : Ret) (uptime : ℕ)
    → let (ret, c') = set_network_time c t answer uptime in
      (ret ≡ ok → (get_unix c'.rtc ≡ (ok, some t)) × (c'.history_syncs ≡ t ∷ c.history_syncs))
      × (ret ≢ ok → c' ≡ c)
      × (unix_min ≤ t → t < unix_end → ret ≡ answer)
unfolding set_network_time set_unix write_rtc note_network_time get_unix
set_network_time_lem c t ok uptime = ground arith
set_network_time_lem c t (fail e) uptime = ground arith
