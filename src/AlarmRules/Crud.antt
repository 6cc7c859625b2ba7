-- ===== src/AlarmRules/Crud.antt =====
-- The rules by index: what each write changes, and that nothing else does.
use sticker_firmware.Base.{
  ℕ, zero, suc, ◌<◌, ◌≤◌, ◌≡◌, ◌≢◌, ◌⊎◌, arith, true, false, none, some, ok, fail, Errno, inr,
}
use sticker_firmware.AlarmRules.Rule.{Rule, rule_valid}
use sticker_firmware.AlarmRules.RoundTrip.{Fits, normalized, unpack_rule-pack_rule}
use sticker_firmware.AlarmRules.Store.{
  Store, get, set_rule, clear, clear_one, clear_below, clear_all,
}

-- A set is accepted exactly for an index in range and a valid rule. It then reads back as it was set,
-- with the enabled flag as 0 or 1, every other rule is as before, and a set that is not accepted
-- changes nothing.
pub set_rule_lem :
    (sub_f32 : ℕ → ℕ → ℕ) (s : Store) (rule : ℕ) (r : Rule)
    → Fits r
    → let (ret, s') = set_rule sub_f32 s rule r in
      (rule < 16 → rule_valid sub_f32 r ≡ true → ret ≡ ok)
      × (ret ≡ ok → get s' rule ≡ some (normalized r))
      × ((j : ℕ) → j ≢ rule → get s' j ≡ get s j)
      × (ret ≢ ok → s' ≡ s)
unfolding set_rule get
set_rule_lem sub_f32 s rule r fits =
    rw (unpack_rule-pack_rule r fits)
      (ground arith, ground arith, λ j ne. ground arith, ground arith)

-- After a clear of an index in range the rule is gone and every other one is as before; the answer
-- tells whether there was one.
pub clear_lem :
    (s : Store) (rule : ℕ)
    → rule < 16
    → let (ret, s') = clear s rule in
      (get s' rule ≡ none)
      × ((j : ℕ) → j ≢ rule → get s' j ≡ get s j)
      × ((ret ≡ ok) ⊎ (ret ≡ fail Errno.enoent))
      × (ret ≡ ok → get s rule ≢ none)
      × (ret ≢ ok → get s rule ≡ none)
unfolding clear get
clear_lem s rule lt = (ground arith, λ j ne. ground arith, ground arith, ground arith, ground arith)

clear_below_get : (s : Store) (n j : ℕ) → ((clear_below s n).rules j).used ≡ false ⊎ n ≤ j
unfolding clear_below clear_one
clear_below_get s zero j = inr (omega arith)
clear_below_get s (suc n) j = ground (arith, clear_below_get s n j)

-- After a clear of all there is no rule, and the count is 0.
pub clear_all_lem : (s : Store) (j : ℕ) → get (clear_all s) j ≡ none
unfolding clear_all get
clear_all_lem s j = ground (arith, clear_below_get s 16 j)
