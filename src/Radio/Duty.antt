-- ===== src/Radio/Duty.antt =====
-- app/src/app_radio.c, the duty-cycle ledger. The ring of entries is the list of the live ones, oldest
-- first; times are the uptime cut to uint32_t, and differences wrap as in the source.
pub mod Window
pub mod Admit
pub mod Limit
use sticker_firmware.Base.{
  ℕ, zero, suc, ◌+◌, ◌-◌, ◌/◌, ◌%◌, ◌^◌, Bool, true, false, not, ◌&&◌, ◌||◌, List, [], ◌∷◌, leb,
  ltb, ◌==◌, if◌then◌else◌, length, u32, sub_u32,
}

-- `struct app_radio_duty_entry`
pub record Entry : Type 0 where
  pub end_ms : ℕ
  pub air_ms : ℕ

-- `struct app_radio_duty`
pub record Ledger : Type 0 where
  pub budget_ms : ℕ
  pub entries : List Entry

-- APP_RADIO_DUTY_WINDOW_MS, APP_RADIO_DUTY_SLOT_MS, APP_RADIO_DUTY_LEDGER_ENTRIES
abbrev pub window_ms : ℕ
window_ms = 3600000

abbrev pub slot_ms : ℕ
slot_ms = 75000

abbrev pub max_entries : ℕ
max_entries = 49

-- `now - end_ms < APP_RADIO_DUTY_WINDOW_MS`
abbrev pub in_window : ℕ → Entry → Bool
in_window now e = ltb (sub_u32 now e.end_ms) window_ms

-- `duty_expire`
unfoldable pub expire : ℕ → List Entry → List Entry
expire now [] = []
expire now (e ∷ es) = if in_window now e then e ∷ es else expire now es

-- `duty_fold_oldest`
unfoldable pub fold_oldest : List Entry → List Entry
fold_oldest [] = []
fold_oldest (e ∷ []) = []
fold_oldest (e ∷ f ∷ es) = record f { air_ms = u32 (f.air_ms + e.air_ms) } ∷ es

-- `app_radio_ledger_used_ms`
unfoldable pub used_ms : ℕ → List Entry → ℕ
used_ms now [] = 0
used_ms now (e ∷ es) = u32 ((if in_window now e then e.air_ms else 0) + used_ms now es)

-- `app_radio_ledger_init`
unfoldable pub ledger_init : ℕ → Ledger
ledger_init budget_ms = record { budget_ms = budget_ms; entries = [] }

-- The slot of the newest entry is that of `now`.
abbrev pub same_slot : ℕ → Entry → Bool
same_slot now e = ltb (sub_u32 now e.end_ms) slot_ms && now / slot_ms == e.end_ms / slot_ms

-- The newest entry takes the air, if it is of the same slot.
unfoldable pub coalesce : ℕ → ℕ → List Entry → List Entry
coalesce now air [] = []
coalesce now air (e ∷ []) = record { end_ms = now; air_ms = u32 (e.air_ms + air) } ∷ []
coalesce now air (e ∷ f ∷ es) = e ∷ coalesce now air (f ∷ es)

unfoldable pub newest_in_slot : ℕ → List Entry → Bool
newest_in_slot now [] = false
newest_in_slot now (e ∷ []) = same_slot now e
newest_in_slot now (e ∷ f ∷ es) = newest_in_slot now (f ∷ es)

unfoldable pub append : Entry → List Entry → List Entry
append new [] = new ∷ []
append new (e ∷ es) = e ∷ append new es

-- `app_radio_ledger_charge` behind the expiry
unfoldable pub charge_entries : ℕ → ℕ → List Entry → List Entry
charge_entries now air es =
    if newest_in_slot now es
    then coalesce now air es
    else append record { end_ms = now; air_ms = air }
        (if leb max_entries (length es) then fold_oldest es else es)

unfoldable pub charge : Ledger → ℕ → ℕ → Ledger
charge d now_ms air = record d {
  entries = charge_entries (u32 now_ms) air (expire (u32 now_ms) d.entries);
}

-- The entry whose leaving frees `over`, or the last one.
unfoldable pub freeing_end : ℕ → ℕ → List Entry → ℕ
freeing_end over freed [] = 0
freeing_end over freed (e ∷ []) = e.end_ms
freeing_end over freed (e ∷ f ∷ es) =
    let later = freeing_end over (u32 (freed + e.air_ms)) (f ∷ es) in
    if leb over (u32 (freed + e.air_ms)) then e.end_ms else later

abbrev pub is_empty : List Entry → Bool
is_empty [] = true
is_empty (_ ∷ _) = false

-- `app_radio_ledger_wait_ms` behind the expiry
unfoldable pub wait_entries : ℕ → ℕ → ℕ → List Entry → ℕ
wait_entries budget now air es =
    let used = used_ms now es in
    if budget == 0 || leb (u32 (used + air)) budget || is_empty es
    then 0
    else window_ms - sub_u32 now (freeing_end (u32 (used + air) - budget) 0 es)

-- The wait, and the ledger behind it.
unfoldable pub wait_ms : Ledger → ℕ → ℕ → ℕ × Ledger
wait_ms d now_ms air =
    let es = expire (u32 now_ms) d.entries in
    (wait_entries d.budget_ms (u32 now_ms) air es, record d { entries = es })
