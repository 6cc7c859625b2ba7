-- ===== src/AlarmRules/Reload.antt =====
-- The reload from the configuration: it makes the cache agree with whatever the fields hold.
use sticker_firmware.Base.{
  ℕ, zero, suc, ◌<◌, ◌≡◌, refl, sym, ap, ◌∙◌, arith, true, Option, none, some, List, [], ◌∷◌, ◌==◌,
  Bool-cases, inl, inr,
}
use sticker_firmware.AlarmRules.Rule.{Rule, rule_valid}
use sticker_firmware.AlarmRules.Pack.{unpack_rule}
use sticker_firmware.AlarmRules.RoundTrip.{Fits}
use sticker_firmware.AlarmRules.Store.{
  Store, rule_count, set_rule, clear, clear_all, keep, sanitize, reload_one, reload_below,
  reload_from_config,
}
use sticker_firmware.AlarmRules.Coherent.{
  Agrees, IsCoherent, put_both, blank-Agrees, set_rule-IsCoherent, clear-IsCoherent,
  clear_below-IsCoherent,
}

-- After n turns of the reload, the first n entries agree with their fields.
abbrev AgreesBelow : (ℕ → ℕ → ℕ) → ℕ → Store → Type 0
AgreesBelow sub_f32 n s = (j : ℕ) → j < n → Agrees sub_f32 (s.rules j) (s.field j)

sanitize-AgreesBelow :
    (sub_f32 : ℕ → ℕ → ℕ) (i : ℕ) (p : Store × ℕ)
    → AgreesBelow sub_f32 i p.0
    → AgreesBelow sub_f32 (suc i) (sanitize i p).0
unfolding sanitize
sanitize-AgreesBelow sub_f32 i p h j lt =
    put_both (Agrees sub_f32) p.0.rules p.0.field i _ _ j (blank-Agrees sub_f32 (p.0.rules i).rule)
      (λ e. h j (ground arith))

keep-AgreesBelow :
    (sub_f32 : ℕ → ℕ → ℕ) (i : ℕ) (r : Rule) (p : Store × ℕ)
    → unpack_rule (p.0.field i) ≡ some r
    → rule_valid sub_f32 r ≡ true
    → AgreesBelow sub_f32 i p.0
    → AgreesBelow sub_f32 (suc i) (keep i r p).0
unfolding keep
keep-AgreesBelow sub_f32 i r p e v h j lt = elim (Bool-cases (i == j)) [
  | inl same ↦
      let here : i ≡ j = ground arith in
      rw same record {
        held = λ _. ap (λ k. unpack_rule (p.0.field k)) (sym here) ∙ e;
        valid = λ _. v;
        empty = ground arith;
      }
  | inr other ↦ rw other (h j (ground arith))
]

reload_one-AgreesBelow :
    (sub_f32 : ℕ → ℕ → ℕ) (i : ℕ) (o : Option Rule) (p : Store × ℕ)
    → unpack_rule (p.0.field i) ≡ o
    → AgreesBelow sub_f32 i p.0
    → AgreesBelow sub_f32 (suc i) (reload_one sub_f32 i o p).0
unfolding reload_one
reload_one-AgreesBelow sub_f32 i none p e h = sanitize-AgreesBelow sub_f32 i p h
reload_one-AgreesBelow sub_f32 i (some r) p e h = elim (Bool-cases (rule_valid sub_f32 r)) [
  | inl v ↦ rw v (keep-AgreesBelow sub_f32 i r p e v h)
  | inr v ↦ rw v (sanitize-AgreesBelow sub_f32 i p h)
]

reload_below-AgreesBelow :
    (sub_f32 : ℕ → ℕ → ℕ) (s : Store) (n : ℕ) → AgreesBelow sub_f32 n (reload_below sub_f32 s n).0
unfolding reload_below
reload_below-AgreesBelow sub_f32 s zero = λ j lt. absurd (omega arith)
reload_below-AgreesBelow sub_f32 s (suc n) =
    let p = reload_below sub_f32 s n in
    reload_one-AgreesBelow sub_f32 n (unpack_rule (p.0.field n)) p refl
      (reload_below-AgreesBelow sub_f32 s n)

reload-IsCoherent :
    (sub_f32 : ℕ → ℕ → ℕ) (s : Store) → IsCoherent sub_f32 (reload_from_config sub_f32 s).0
unfolding reload_from_config
reload-IsCoherent sub_f32 s = record { agrees = reload_below-AgreesBelow sub_f32 s 16 }

-- The operations that write the rules; a set carries a rule of 32-bit floats.
pub data Op : Type 0 where
  set_op : (rule : ℕ) (r : Rule) → Fits r → Op
  clear_op : ℕ → Op
  clear_all_op : Op
  reload_op : Op

pub apply : (ℕ → ℕ → ℕ) → Op → Store → Store
apply sub_f32 (set_op rule r _) s = (set_rule sub_f32 s rule r).1
apply sub_f32 (clear_op rule) s = (clear s rule).1
apply sub_f32 clear_all_op s = clear_all s
apply sub_f32 reload_op s = (reload_from_config sub_f32 s).0

pub apply_all : (ℕ → ℕ → ℕ) → List Op → Store → Store
apply_all sub_f32 [] s = s
apply_all sub_f32 (op ∷ ops) s = apply_all sub_f32 ops (apply sub_f32 op s)

apply-IsCoherent :
    (sub_f32 : ℕ → ℕ → ℕ) (op : Op) (s : Store)
    → IsCoherent sub_f32 s
    → IsCoherent sub_f32 (apply sub_f32 op s)
unfolding apply clear_all
apply-IsCoherent sub_f32 (set_op rule r fits) s h = set_rule-IsCoherent sub_f32 s rule r fits h
apply-IsCoherent sub_f32 (clear_op rule) s h = clear-IsCoherent sub_f32 s rule h
apply-IsCoherent sub_f32 clear_all_op s h = clear_below-IsCoherent sub_f32 s rule_count h
apply-IsCoherent sub_f32 reload_op s h = reload-IsCoherent sub_f32 s

apply_all_keeps :
    (sub_f32 : ℕ → ℕ → ℕ) (ops : List Op) (s : Store)
    → IsCoherent sub_f32 s
    → IsCoherent sub_f32 (apply_all sub_f32 ops s)
unfolding apply_all
apply_all_keeps sub_f32 [] s h = h
apply_all_keeps sub_f32 (op ∷ ops) s h =
    apply_all_keeps sub_f32 ops (apply sub_f32 op s) (apply-IsCoherent sub_f32 op s h)

-- From the init with whatever bytes the configuration holds, through any operations: each used entry
-- of the cache is a valid rule and is what its field decodes to, and the field of an unused entry
-- holds no rule.
pub apply_all-IsCoherent :
    (sub_f32 : ℕ → ℕ → ℕ) (s : Store) (ops : List Op)
    → IsCoherent sub_f32 (apply_all sub_f32 ops (reload_from_config sub_f32 s).0)
apply_all-IsCoherent sub_f32 s ops =
    apply_all_keeps sub_f32 ops (reload_from_config sub_f32 s).0 (reload-IsCoherent sub_f32 s)
