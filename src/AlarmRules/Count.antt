-- ===== src/AlarmRules/Count.antt =====
-- The free entries and the counts of the rules.
use sticker_firmware.Base.{
  ℕ, zero, suc, ◌<◌, ◌≤◌, ◌≡◌, refl, arith, Bool, true, false, Option, none, some, leb, ◌==◌, ok,
  Bool-cases, inl, inr,
}
use sticker_firmware.AlarmRules.Rule.{Rule, rule_valid}
use sticker_firmware.AlarmRules.Store.{
  Entry, Store, rule_count, put, set_rule, count_below, count, or_here, first_free_below,
  first_free,
}

-- The lowest unused index below n, or none if all are used.
abbrev pub IsLowest : (ℕ → Entry) → ℕ → Option ℕ → Type 0
IsLowest rules n none = (j : ℕ) → j < n → (rules j).used ≡ true
IsLowest rules n (some i) =
    (i < n) × ((rules i).used ≡ false) × ((j : ℕ) → j < i → (rules j).used ≡ true)

or_here-IsLowest :
    (rules : ℕ → Entry) (n : ℕ) (o : Option ℕ) (used : Bool)
    → (rules n).used ≡ used
    → IsLowest rules n o
    → IsLowest rules (suc n) (or_here o used n)
or_here-IsLowest rules n (some i) used e (lt, free, below) = (omega arith, free, below)
or_here-IsLowest rules n none true e all = λ j lt. elim (Bool-cases (j == n)) [
  | inl here ↦ let at : j ≡ n = ground arith in rw at e
  | inr other ↦ all j (ground arith)
]
or_here-IsLowest rules n none false e all = (omega arith, e, all)

first_free_below-IsLowest :
    (rules : ℕ → Entry) (n : ℕ) → IsLowest rules n (first_free_below rules n)
unfolding first_free_below
first_free_below-IsLowest rules zero = λ j lt. absurd (omega arith)
first_free_below-IsLowest rules (suc n) =
    or_here-IsLowest rules n (first_free_below rules n) (rules n).used refl
      (first_free_below-IsLowest rules n)

count_below-put_above :
    (rules : ℕ → Entry) (i n : ℕ) (e : Entry)
    → n ≤ i
    → count_below (put rules i e) n ≡ count_below rules n
unfolding count_below
count_below-put_above rules i zero e h = refl
count_below-put_above rules i (suc n) e h = ground (arith, count_below-put_above rules i n e)

count_below-put :
    (rules : ℕ → Entry) (i n : ℕ) (e : Entry)
    → i < n
    → (rules i).used ≡ false
    → e.used ≡ true
    → count_below (put rules i e) n ≡ suc (count_below rules n)
unfolding count_below
count_below-put rules i zero e lt free used = absurd (omega arith)
count_below-put rules i (suc n) e lt free used =
    ground (arith, count_below-put rules i n e, count_below-put_above rules i n e)

-- The first free index is unused, with every index before it used; there is none only if all 16 are.
pub first_free-IsLowest : (s : Store) → IsLowest s.rules 16 (first_free s)
unfolding first_free
first_free-IsLowest s = first_free_below-IsLowest s.rules 16

-- A valid rule set at the first free index is accepted and adds one to the count.
pub count-set_rule :
    (sub_f32 : ℕ → ℕ → ℕ) (s : Store) (i : ℕ) (r : Rule)
    → first_free s ≡ some i
    → rule_valid sub_f32 r ≡ true
    → let (ret, s') = set_rule sub_f32 s i r in (ret ≡ ok) × (count s' ≡ suc (count s))
unfolding set_rule count
count-set_rule sub_f32 s i r e v =
    let (lt, free, _) = rw e at (first_free-IsLowest s) in
    let in_range : leb rule_count i ≡ false = ground arith in
    rw (in_range, v) (refl, count_below-put s.rules i 16 _ lt free refl)
