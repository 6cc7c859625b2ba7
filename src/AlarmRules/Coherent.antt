-- ===== src/AlarmRules/Coherent.antt =====
-- The cache of the rules agrees with the configuration, through any run of operations.
use sticker_firmware.Base.{
  ℕ, zero, suc, ◌<◌, ◌≡◌, refl, ◌∙◌, arith, true, false, none, some, List, leb, ◌==◌, Bool-cases,
  inl, inr,
}
use sticker_firmware.AlarmRules.Rule.{
  Rule, rule_channel, shape_valid, dwell_range_valid, threshold_band_valid, state_levels_valid,
  rate_limit_valid, rule_valid,
}
use sticker_firmware.AlarmRules.Pack.{pack_rule, unpack_rule, is_present}
use sticker_firmware.AlarmRules.RoundTrip.{Fits, normalized, unpack_rule-pack_rule}
use sticker_firmware.AlarmRules.Store.{
  Entry, Store, rule_count, put, blank, unpacked_or, set_rule, clear, clear_one, clear_below,
}

-- A used entry is the valid rule that its field holds, and the field of an unused one holds none.
pub record Agrees (sub_f32 : ℕ → ℕ → ℕ) (e : Entry) (field : List ℕ) : Type 0 where
  pub held : e.used ≡ true → unpack_rule field ≡ some e.rule
  pub valid : e.used ≡ true → rule_valid sub_f32 e.rule ≡ true
  pub empty : e.used ≡ false → unpack_rule field ≡ none

pub record IsCoherent (sub_f32 : ℕ → ℕ → ℕ) (s : Store) : Type 0 where
  pub agrees : (i : ℕ) → i < 16 → Agrees sub_f32 (s.rules i) (s.field i)

pub unpack_rule-blank : unpack_rule blank ≡ none
unfolding unpack_rule is_present
unpack_rule-blank = refl

rule_valid-normalized :
    (sub_f32 : ℕ → ℕ → ℕ) (r : Rule) → rule_valid sub_f32 (normalized r) ≡ rule_valid sub_f32 r
unfolding rule_valid normalized rule_channel shape_valid dwell_range_valid threshold_band_valid
    state_levels_valid rate_limit_valid
rule_valid-normalized sub_f32 r = ground arith

-- What holds of the element that is written and of each other one holds of all.
pub put_both :
    {A B : Type 0} (P : A → B → Type 0) (f : ℕ → A) (g : ℕ → B) (i : ℕ) (a : A) (b : B) (j : ℕ)
    → P a b
    → ((i == j) ≡ false → P (f j) (g j))
    → P (put f i a j) (put g i b j)
put_both P f g i a b j new old = elim (Bool-cases (i == j)) [
  | inl e ↦ rw e new
  | inr e ↦ rw e (old e)
]

pub blank-Agrees :
    (sub_f32 : ℕ → ℕ → ℕ) (r : Rule) → Agrees sub_f32 (record { used = false; rule = r }) blank
blank-Agrees sub_f32 r = record {
  held = ground arith;
  valid = ground arith;
  empty = λ _. unpack_rule-blank;
}

packed-Agrees :
    (sub_f32 : ℕ → ℕ → ℕ) (r old : Rule)
    → Fits r
    → rule_valid sub_f32 r ≡ true
    → Agrees sub_f32
        (record { used = true; rule = unpacked_or (unpack_rule (pack_rule r)) old })
        (pack_rule r)
packed-Agrees sub_f32 r old fits v = rw (unpack_rule-pack_rule r fits) (record {
  held = λ _. unpack_rule-pack_rule r fits;
  valid = λ _. rule_valid-normalized sub_f32 r ∙ v;
  empty = ground arith;
})

pub set_rule-IsCoherent :
    (sub_f32 : ℕ → ℕ → ℕ) (s : Store) (rule : ℕ) (r : Rule)
    → Fits r
    → IsCoherent sub_f32 s
    → IsCoherent sub_f32 (set_rule sub_f32 s rule r).1
unfolding set_rule
set_rule-IsCoherent sub_f32 s rule r fits h = elim (Bool-cases (leb rule_count rule)) [
  | inl e ↦ rw e h
  | inr e ↦ rw e (elim (Bool-cases (rule_valid sub_f32 r)) [
    | inl v ↦ rw v record {
      agrees = λ j lt.
          put_both (Agrees sub_f32) s.rules s.field rule _ _ j
            (packed-Agrees sub_f32 r (s.rules rule).rule fits v) (λ _. h.agrees j lt);
    }
    | inr v ↦ rw v h
  ])
]

clear_one-IsCoherent :
    (sub_f32 : ℕ → ℕ → ℕ) (s : Store) (i : ℕ)
    → IsCoherent sub_f32 s
    → IsCoherent sub_f32 (clear_one i s)
unfolding clear_one
clear_one-IsCoherent sub_f32 s i h = record {
  agrees = λ j lt.
      put_both (Agrees sub_f32) s.rules s.field i _ _ j (blank-Agrees sub_f32 (s.rules i).rule)
        (λ _. h.agrees j lt);
}

pub clear-IsCoherent :
    (sub_f32 : ℕ → ℕ → ℕ) (s : Store) (rule : ℕ)
    → IsCoherent sub_f32 s
    → IsCoherent sub_f32 (clear s rule).1
unfolding clear clear_one
clear-IsCoherent sub_f32 s rule h = elim (Bool-cases (leb rule_count rule)) [
  | inl e ↦ rw e h
  | inr e ↦ rw e (clear_one-IsCoherent sub_f32 s rule h)
]

pub clear_below-IsCoherent :
    (sub_f32 : ℕ → ℕ → ℕ) (s : Store) (n : ℕ)
    → IsCoherent sub_f32 s
    → IsCoherent sub_f32 (clear_below s n)
unfolding clear_below
clear_below-IsCoherent sub_f32 s zero h = h
clear_below-IsCoherent sub_f32 s (suc n) h =
    clear_one-IsCoherent sub_f32 (clear_below s n) n (clear_below-IsCoherent sub_f32 s n h)
