-- ===== src/History/Segments.antt =====
-- app/src/app_history.c, the RAM ring: the segment table beside the records.
use sticker_firmware.Base.{
  ℕ, suc, ◌+◌, ◌^◌, ◌<◌, ◌≤◌, ◌≡◌, refl, ◌∙◌, arith, Bool, true, false, List, [], ◌∷◌, ◌++◌, length,
  leb, if◌then◌else◌, u32, Bool-cases, inl, inr,
}
use native.Mathlib.Nat.{mod-lt}
use sticker_firmware.History.Ram.{
  Segment, Ring, is_empty, second_origin, shift, drop_evicted, store,
}
use sticker_firmware.History.Ring.{InRange}

-- The origins rise from `low` on and lie before `past`.
abbrev pub Rising : ℕ → ℕ → List Segment → Type 0
Rising low past [] = Unit {0}
Rising low past (s ∷ segs) = (low ≤ s.origin) × (s.origin < past) × Rising (suc s.origin) past segs

-- The first segment holds the oldest record, and each later one starts at a stored record.
abbrev pub Covers : ℕ → ℕ → List Segment → Type 0
Covers first past [] = Unit {0}
Covers first past (s ∷ segs) = (s.origin ≤ first) × Rising (suc first) past segs

pub record IsValid (cap : ℕ) (r : Ring) : Type 0 where
  pub positive : 0 < cap
  pub width : cap < 2 ^ 16
  pub start : r.start < cap
  pub count : r.count ≤ cap
  pub covers : Covers r.first_abs (r.first_abs + r.count) r.segments
  pub some_segment : 0 < r.count → is_empty r.segments ≡ false
  pub few : length r.segments ≤ 4

Rising-wider :
    (low past : ℕ) (segs : List Segment) → Rising low past segs → Rising low (suc past) segs
Rising-wider low past [] h = tt
Rising-wider low past (s ∷ segs) (a, b, c) =
    (a, omega arith, Rising-wider (suc s.origin) past segs c)

Rising-append :
    (low past : ℕ) (segs : List Segment) (s : Segment)
    → low ≤ past
    → s.origin ≡ past
    → Rising low past segs
    → Rising low (suc past) (segs ++ s ∷ [])
Rising-append low past [] s le e h = (omega arith, omega arith, tt)
Rising-append low past (t ∷ segs) s le e (a, b, c) =
    (a, omega arith, Rising-append (suc t.origin) past segs s (omega arith) e c)

pub Covers-append :
    (first past : ℕ) (segs : List Segment) (s : Segment)
    → first ≤ past
    → (is_empty segs ≡ true → first ≡ past)
    → (is_empty segs ≡ false → first < past)
    → s.origin ≡ past
    → Covers first past segs
    → Covers first (suc past) (segs ++ s ∷ [])
Covers-append first past [] s le alone more e h = (omega (arith, alone refl), tt)
Covers-append first past (t ∷ segs) s le alone more e (a, b) =
    (a, Rising-append (suc first) past segs s (omega (arith, more refl)) e b)

Rising-lower :
    (low low' past : ℕ) (segs : List Segment)
    → low' ≤ low
    → Rising low past segs
    → Rising low' past segs
Rising-lower low low' past [] le h = tt
Rising-lower low low' past (s ∷ segs) le (a, b, c) = (omega arith, b, c)

if-Covers :
    (b : Bool) (first past : ℕ) (segs segs' : List Segment)
    → (b ≡ true → Covers first past segs)
    → (b ≡ false → Covers first past segs')
    → Covers first past (if b then segs else segs')
if-Covers true first past segs segs' h h' = h refl
if-Covers false first past segs segs' h h' = h' refl

Covers-drop_evicted :
    (first past : ℕ) (s : Segment) (segs : List Segment)
    → s.origin ≤ suc first
    → Rising (suc first) past segs
    → Covers (suc first) past (drop_evicted (suc first) (s ∷ segs))
unfolding drop_evicted
Covers-drop_evicted first past s [] a h = (a, tt)
Covers-drop_evicted first past s (t ∷ segs) a (b, c, d) =
    if-Covers (leb t.origin (suc first)) (suc first) past (drop_evicted (suc first) (t ∷ segs))
      (s ∷ t ∷ segs)
      (λ e.
        Covers-drop_evicted first past t segs (ground arith)
          (Rising-lower (suc t.origin) (suc first) past segs (omega arith) d))
      (λ e. (a, (ground arith, c, d)))

drop_evicted_facts :
    (first : ℕ) (segs : List Segment)
    → (length (drop_evicted first segs) ≤ length segs)
      × (is_empty (drop_evicted first segs) ≡ is_empty segs)
unfolding drop_evicted
drop_evicted_facts first [] = (omega arith, refl)
drop_evicted_facts first (s ∷ []) = (omega arith, refl)
drop_evicted_facts first (s ∷ t ∷ segs) = ground (arith, drop_evicted_facts first (t ∷ segs))

Covers-store :
    (first past : ℕ) (segs : List Segment)
    → Covers first past segs
    → Covers (suc first) past (drop_evicted (suc first) segs)
unfolding drop_evicted
Covers-store first past [] h = tt
Covers-store first past (s ∷ segs) (a, b) = Covers-drop_evicted first past s segs (omega arith) b

pub Covers-wider :
    (first past : ℕ) (segs : List Segment) → Covers first past segs → Covers first (suc past) segs
Covers-wider first past [] h = tt
Covers-wider first past (s ∷ segs) (a, b) = (a, Rising-wider (suc first) past segs b)

-- What a store keeps, given a segment for the record.
pub store-IsValid :
    (cap : ℕ) (r : Ring) (rec : List ℕ)
    → Covers r.first_abs (r.first_abs + r.count + 1) r.segments
    → is_empty r.segments ≡ false
    → length r.segments ≤ 4
    → InRange cap r
    → let (r', n) = store cap r rec in
      IsValid cap r'
      × (r'.first_abs ≡ r.first_abs + n)
      × (r'.first_abs + r'.count ≡ r.first_abs + r.count + 1)
unfolding store
store-IsValid cap r rec covers seg few h = elim (Bool-cases (leb cap r.count)) [
  | inl e ↦
      let first : u32 (r.first_abs + 1) ≡ suc r.first_abs = omega (arith, h.room) in
      let past : suc r.first_abs + r.count ≡ r.first_abs + r.count + 1 = omega arith in
      let facts = drop_evicted_facts (suc r.first_abs) r.segments in
      rw (e, first)
        (
          record {
            positive = h.positive;
            width = h.width;
            start = mod-lt (r.start + 1) h.positive;
            count = h.count;
            covers =
                rw past (Covers-store r.first_abs (r.first_abs + r.count + 1) r.segments covers);
            some_segment = λ _. facts.1 ∙ seg;
            few = omega (arith, facts.0, few);
          },
          omega arith,
          omega arith,
        )
  | inr e ↦
      let past : r.first_abs + (r.count + 1) ≡ r.first_abs + r.count + 1 = omega arith in
      rw e (
        record {
          positive = h.positive;
          width = h.width;
          start = h.start;
          count = ground arith;
          covers = rw past covers;
          some_segment = λ _. seg;
          few = few;
        },
        omega arith,
        omega arith,
      )
]

-- The second segment of a full table starts at a stored record.
pub second-stored :
    (first past : ℕ) (segs : List Segment)
    → Covers first past segs
    → length segs ≡ 4
    → (first < second_origin segs first)
      × (second_origin segs first < past)
      × Covers (second_origin segs first) past (shift segs)
      × (is_empty (shift segs) ≡ false)
      × (length (shift segs) ≡ 3)
second-stored first past [] h n = absurd (omega arith)
second-stored first past (s ∷ []) h n = absurd (omega arith)
second-stored first past (s ∷ t ∷ segs) (a, (b, c, d)) n =
    (omega arith, c, (omega arith, d), refl, omega arith)
