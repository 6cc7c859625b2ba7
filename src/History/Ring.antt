-- ===== src/History/Ring.antt =====
-- The ring of records is a queue by absolute ordinal.
use sticker_firmware.Base.{
  ℕ, suc, ◌+◌, ◌-◌, ◌%◌, ◌^◌, ◌<◌, ◌≤◌, ◌≡◌, ◌⊎◌, refl, ap, ◌∙◌, arith, ◌||◌, none, some, List, ltb,
  leb, ◌==◌, if◌then◌else◌, u32, Bool-cases, inl, inr,
}
use native.Mathlib.Nat.{mod-eq_of_lt, mod-eq-sub-mod, mod-add-mod}
use sticker_firmware.History.Ram.{Ring, advance, drop_evicted, write, store, read}

-- The indices are in range, and the ordinals do not wrap.
pub record InRange (cap : ℕ) (r : Ring) : Type 0 where
  pub positive : 0 < cap
  pub width : cap < 2 ^ 16
  pub start : r.start < cap
  pub count : r.count ≤ cap
  pub room : r.first_abs + r.count + 1 < 2 ^ 32

-- The slot of the i-th record, written without the remainder.
slot_cases :
    (cap s i : ℕ)
    → s < cap
    → i ≤ cap
    → ((s + i < cap) × ((s + i) % cap ≡ s + i)) ⊎ ((cap ≤ s + i) × ((s + i) % cap ≡ s + i - cap))
slot_cases cap s i hs hi = elim (Bool-cases (ltb (s + i) cap)) [
  | inl e ↦ let small : s + i < cap = ground arith in inl (small, mod-eq_of_lt small)
  | inr e ↦
      let large : cap ≤ s + i = ground arith in
      let below : s + i - cap < cap = omega arith in
      inr (large, mod-eq-sub-mod large ∙ mod-eq_of_lt below)
]

-- The oldest n records are gone, and every other one reads as before.
pub read-advance :
    (cap : ℕ) (r : Ring) (n abs : ℕ)
    → InRange cap r
    → n ≤ r.count
    → read cap (advance cap r n) abs ≡ (if ltb abs (r.first_abs + n) then none else read cap r abs)
unfolding read advance
read-advance cap r n abs h le =
    let first : u32 (r.first_abs + n) ≡ r.first_abs + n = omega (arith, h.room) in
    rw first (elim (Bool-cases (ltb abs (r.first_abs + n))) [
      | inl e ↦ rw e refl
      | inr e ↦
          let slot : ((r.start + n) % cap + (abs - (r.first_abs + n))) % cap
              ≡ (r.start + (abs - r.first_abs)) % cap =
            mod-add-mod (r.start + n) cap (abs - (r.first_abs + n))
            ∙ ap (λ k. k % cap) (ground arith) in
          rw (e, slot) (ground arith)
    ])

free-slot :
    (cap : ℕ) (r : Ring) (i : ℕ)
    → InRange cap r
    → r.count < cap
    → i ≤ r.count
    → ((r.start + i) % cap == (r.start + r.count) % cap) ≡ (i == r.count)
free-slot cap r i h free le = ground (
  arith,
  slot_cases cap r.start i h.start (omega (arith, h.count, le)),
  slot_cases cap r.start r.count h.start h.count,
)

read-store_free :
    (cap : ℕ) (r : Ring) (rec : List ℕ) (abs : ℕ)
    → InRange cap r
    → r.count < cap
    → read cap
        (record r { ram = write r.ram ((r.start + r.count) % cap) rec; count = r.count + 1 })
        abs
      ≡ (if abs == r.first_abs + r.count
          then some rec
          else if ltb abs (r.first_abs + 0)
          then none
          else read cap r abs)
unfolding read
read-store_free cap r rec abs h free =
    elim (Bool-cases (ltb abs r.first_abs || ltb r.count (abs - r.first_abs))) [
      | inl out ↦ ground arith
      | inr in_range ↦
          let same = free-slot cap r (abs - r.first_abs) h free (ground arith) in
          rw same (ground arith)
    ]

full-slot :
    (cap : ℕ) (r : Ring) (i : ℕ)
    → InRange cap r
    → r.count ≡ cap
    → i < cap
    → (((r.start + 1) % cap + i) % cap ≡ (r.start + suc i) % cap)
      × (((r.start + suc i) % cap == r.start) ≡ (suc i == cap))
full-slot cap r i h full lt = (
  mod-add-mod (r.start + 1) cap i ∙ ap (λ k. k % cap) (omega arith),
  ground (arith, slot_cases cap r.start (suc i) h.start (omega arith), h.start),
)

read-store_full :
    (cap : ℕ) (r : Ring) (rec : List ℕ) (abs : ℕ)
    → InRange cap r
    → r.count ≡ cap
    → read cap
        (record r {
          ram = write r.ram r.start rec;
          start = (r.start + 1) % cap;
          first_abs = r.first_abs + 1;
          segments = drop_evicted (r.first_abs + 1) r.segments;
        })
        abs
      ≡ (if abs == r.first_abs + r.count
          then some rec
          else if ltb abs (r.first_abs + 1)
          then none
          else read cap r abs)
unfolding read
read-store_full cap r rec abs h full =
    elim (Bool-cases (ltb abs (r.first_abs + 1) || leb r.count (abs - (r.first_abs + 1)))) [
      | inl out ↦ ground arith
      | inr in_range ↦
          let i = abs - (r.first_abs + 1) in
          let (slot, same) = full-slot cap r i h full (ground arith) in
          let at : abs - r.first_abs ≡ suc i = ground arith in rw (slot, at, same) (ground arith)
    ]

-- After a store the new record reads back at the next ordinal, an evicted one not at all, and every
-- other one as before.
pub read-store :
    (cap : ℕ) (r : Ring) (rec : List ℕ) (abs : ℕ)
    → InRange cap r
    → let (r', n) = store cap r rec in
      read cap r' abs ≡ (
        if abs == r.first_abs + r.count
        then some rec
        else if ltb abs (r.first_abs + n)
        then none
        else read cap r abs)
unfolding store
read-store cap r rec abs h = elim (Bool-cases (leb cap r.count)) [
  | inl e ↦
      let first : u32 (r.first_abs + 1) ≡ r.first_abs + 1 = omega (arith, h.room) in
      rw (e, first) (read-store_full cap r rec abs h (ground (arith, h.count)))
  | inr e ↦ rw e (read-store_free cap r rec abs h (ground arith))
]
