-- ===== src/Radio/Duty/Window.antt =====
-- app/src/app_radio.c: in every sliding hour the frames that the ledger admitted stay within the
-- allowance.
use sticker_firmware.Base.{
  ℕ, ◌+◌, ◌^◌, ◌<◌, ◌≤◌, ◌≡◌, refl, arith, true, false, List, [], ◌∷◌, leb, ltb, if◌then◌else◌,
  length, u32, Bool-cases, inl, inr,
}
use sticker_firmware.Radio.Duty.{
  Entry, Ledger, window_ms, max_entries, in_window, expire, fold_oldest, used_ms, coalesce,
  newest_in_slot, append, charge_entries, charge, is_empty,
}

-- The air of the entries that a window which ends at t has not left behind.
abbrev pub recent : ℕ → List Entry → ℕ
recent t [] = 0
recent t (e ∷ es) = (if ltb t (e.end_ms + window_ms) then e.air_ms else 0) + recent t es

-- All ends are at most now.
abbrev pub EndBy : ℕ → List Entry → Type 0
EndBy now [] = Unit {0}
EndBy now (e ∷ es) = (e.end_ms ≤ now) × EndBy now es

-- The ends do not fall.
abbrev pub Ordered : List Entry → Type 0
Ordered [] = Unit {0}
Ordered (e ∷ []) = Unit {0}
Ordered (e ∷ f ∷ es) = (e.end_ms ≤ f.end_ms) × Ordered (f ∷ es)

abbrev pub total : List Entry → ℕ
total [] = 0
total (e ∷ es) = e.air_ms + total es

pub recent-le-total : (t : ℕ) (es : List Entry) → recent t es ≤ total es
recent-le-total t [] = omega arith
recent-le-total t (e ∷ es) = ground (arith, recent-le-total t es)

pub used_ms-recent :
    (now : ℕ) (es : List Entry)
    → now < 2 ^ 32
    → EndBy now es
    → total es < 2 ^ 32
    → used_ms now es ≡ recent now es
unfolding used_ms
used_ms-recent now [] h b t = refl
used_ms-recent now (e ∷ es) h (a, b) t =
    ground (arith, used_ms-recent now es h b (omega arith), recent-le-total now es)

pub EndBy-later : (now t : ℕ) (es : List Entry) → now ≤ t → EndBy now es → EndBy t es
EndBy-later now t [] h b = tt
EndBy-later now t (e ∷ es) h (a, b) = (omega arith, EndBy-later now t es h b)

pub Ordered-tail : (e : Entry) (es : List Entry) → Ordered (e ∷ es) → Ordered es
Ordered-tail e [] o = tt
Ordered-tail e (f ∷ es) o = o.1

-- What an expiry keeps, for a window that ends later.
pub expire_facts :
    (now : ℕ) (es : List Entry)
    → now < 2 ^ 32
    → EndBy now es
    → Ordered es
    → EndBy now (expire now es) × Ordered (expire now es) × (total (expire now es) ≤ total es)
unfolding expire
expire_facts now [] h b o = (tt, tt, omega arith)
expire_facts now (e ∷ es) h (a, b) o = elim (Bool-cases (in_window now e)) [
  | inl inside ↦ rw inside ((a, b), o, omega arith)
  | inr out ↦
      let (b', o', t) = expire_facts now es h b (Ordered-tail e es o) in
      rw out (b', o', omega arith)
]

pub recent-expire :
    (now t : ℕ) (es : List Entry)
    → now < 2 ^ 32
    → now ≤ t
    → EndBy now es
    → recent t (expire now es) ≡ recent t es
unfolding expire
recent-expire now t [] h le b = refl
recent-expire now t (e ∷ es) h le (a, b) = ground (arith, recent-expire now t es h le b)

fold_oldest_facts :
    (now : ℕ) (es : List Entry)
    → EndBy now es
    → Ordered es
    → 2 ≤ length es
    → total es < 2 ^ 32
    → EndBy now (fold_oldest es) × Ordered (fold_oldest es) × (total (fold_oldest es) ≤ total es)
unfolding fold_oldest
fold_oldest_facts now [] b o l t = absurd (omega arith)
fold_oldest_facts now (e ∷ []) b o l t = absurd (omega arith)
fold_oldest_facts now (e ∷ f ∷ []) (a, (c, b)) o l t = ((c, tt), tt, omega arith)
fold_oldest_facts now (e ∷ f ∷ g ∷ es) (a, (c, b)) (p, (q, o)) l t = ((c, b), (q, o), omega arith)

recent-fold_oldest :
    (t : ℕ) (es : List Entry)
    → Ordered es
    → 2 ≤ length es
    → total es < 2 ^ 32
    → recent t es ≤ recent t (fold_oldest es)
unfolding fold_oldest
recent-fold_oldest t [] o l b = absurd (omega arith)
recent-fold_oldest t (e ∷ []) o l b = absurd (omega arith)
recent-fold_oldest t (e ∷ f ∷ es) o l b = ground (arith, o)

append_facts :
    (now air t : ℕ) (es : List Entry)
    → EndBy now es
    → Ordered es
    → let new : Entry = record { end_ms = now; air_ms = air } in
      EndBy now (append new es)
      × Ordered (append new es)
      × (total (append new es) ≡ total es + air)
      × (recent t (append new es) ≡ recent t es + recent t (new ∷ []))
unfolding append
append_facts now air t [] b o = (omega arith, tt, omega arith, omega arith)
append_facts now air t (e ∷ []) b o = (omega arith, omega arith, omega arith, omega arith)
append_facts now air t (e ∷ f ∷ es) (a, b) (p, o) =
    let (b', o', s, r) = append_facts now air t (f ∷ es) b o in
    ((a, b'), (p, o'), omega (arith, s), omega (arith, r))

coalesce_facts :
    (now air t : ℕ) (es : List Entry)
    → EndBy now es
    → Ordered es
    → is_empty es ≡ false
    → now ≤ t
    → total es + air < 2 ^ 32
    → EndBy now (coalesce now air es)
      × Ordered (coalesce now air es)
      × (total (coalesce now air es) ≡ total es + air)
      × (recent t es + (if ltb t (now + window_ms) then air else 0)
          ≤ recent t (coalesce now air es))
unfolding coalesce
coalesce_facts now air t [] b o e le fits = absurd (cc)
coalesce_facts now air t (e ∷ []) (a, b) o h le fits = (omega arith, tt, omega arith, ground arith)
coalesce_facts now air t (e ∷ f ∷ []) (a, (b, c)) o h le fits =
    let (b', o', s, r) = coalesce_facts now air t (f ∷ []) (b, c) tt refl le (omega arith) in
    ((a, b'), omega arith, omega (arith, s), omega (arith, r))
coalesce_facts now air t (e ∷ f ∷ g ∷ es) (a, b) (p, o) h le fits =
    let (b', o', s, r) = coalesce_facts now air t (f ∷ g ∷ es) b o refl le (omega arith) in
    ((a, b'), (p, o'), omega (arith, s), omega (arith, r))

newest_in_slot-is_empty :
    (now : ℕ) (es : List Entry) → newest_in_slot now es ≡ true → is_empty es ≡ false
unfolding newest_in_slot
newest_in_slot-is_empty now [] h = absurd (cc)
newest_in_slot-is_empty now (e ∷ es) h = refl

-- The entries after a charge at now: nothing that a window still holds is under-counted.
pub record Charged (now air : ℕ) (es es' : List Entry) : Type 0 where
  pub by : EndBy now es'
  pub ordered : Ordered es'
  pub total : total es' ≤ total es + air
  pub counts :
      (t : ℕ) → now ≤ t → recent t es + (if ltb t (now + window_ms) then air else 0) ≤ recent t es'

charge_entries-Charged :
    (now air : ℕ) (es : List Entry)
    → EndBy now es
    → Ordered es
    → total es + air < 2 ^ 32
    → Charged now air es (charge_entries now air es)
unfolding charge_entries
charge_entries-Charged now air es b o fits = elim (Bool-cases (newest_in_slot now es)) [
  | inl same ↦
      let facts = λ (t : ℕ) (le : now ≤ t).
        coalesce_facts now air t es b o (newest_in_slot-is_empty now es same) le fits in
      let (b', o', s, _) = facts now (omega arith) in
      rw same (record {
        by = b';
        ordered = o';
        total = omega (arith, s);
        counts = λ t le. (facts t le).3;
      })
  | inr new ↦ elim (Bool-cases (leb max_entries (length es))) [
    | inl full ↦
        let (b', o', s) = fold_oldest_facts now es b o (ground (arith, full)) (omega arith) in
        let facts = λ (t : ℕ). append_facts now air t (fold_oldest es) b' o' in
        rw (new, full)
          (record {
            by = (facts 0).0;
            ordered = (facts 0).1;
            total = omega (arith, s, (facts 0).2);
            counts = λ t le. omega (
              arith,
              (facts t).3,
              recent-fold_oldest t es o (ground (arith, full)) (omega arith),
            );
          })
    | inr room ↦
        let facts = λ (t : ℕ). append_facts now air t es b o in
        rw (new, room)
          (record {
            by = (facts 0).0;
            ordered = (facts 0).1;
            total = omega (arith, (facts 0).2);
            counts = λ t le. omega (arith, (facts t).3);
          })
  ]
]

pub charge-Charged :
    (d : Ledger) (now air : ℕ)
    → now < 2 ^ 32
    → EndBy now d.entries
    → Ordered d.entries
    → total d.entries + air < 2 ^ 32
    → Charged now air d.entries (charge d now air).entries
unfolding charge
charge-Charged d now air h b o fits =
    let (b', o', s) = expire_facts now d.entries h b o in
    let c = charge_entries-Charged now air (expire now d.entries) b' o' (omega (arith, s)) in
    let cut : u32 now ≡ now = omega arith in
    rw cut (record {
      by = c.by;
      ordered = c.ordered;
      total = omega (arith, c.total, s);
      counts = λ t le. omega (arith, c.counts t le, recent-expire now t d.entries h le b);
    })
