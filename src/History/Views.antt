-- ===== src/History/Views.antt =====
-- app/src/app_history.c, the RAM ring: backend_nseg and backend_seg, the segments as ranges of
-- ordinals.
use sticker_firmware.Base.{
  ℕ, suc, ◌+◌, ◌^◌, ◌<◌, ◌≡◌, arith, Bool, false, ◌&&◌, List, [], ◌∷◌, ltb, leb, ◌==◌,
  if◌then◌else◌, u32, Bool-cases, inl, inr,
}
use sticker_firmware.History.Ram.{Segment, Ring, is_empty}
use sticker_firmware.History.Segments.{Rising, Covers, IsValid}

-- `struct hist_seg`, whose `cur_boot` is always true here
pub record View : Type 0 where
  pub origin : ℕ
  pub first : ℕ
  pub end : ℕ
  pub base : ℕ
  pub synced : Bool

-- `backend_seg` for each index in turn: the first segment starts at the oldest record, and the last
-- one ends with the ring.
unfoldable pub views_from : ℕ → ℕ → List Segment → List View
views_from first past [] = []
views_from first past (s ∷ []) =
    record { origin = s.origin; first = first; end = past; base = s.base; synced = s.synced } ∷ []
views_from first past (s ∷ t ∷ segs) =
    record { origin = s.origin; first = first; end = t.origin; base = s.base; synced = s.synced }
    ∷ views_from t.origin past (t ∷ segs)

-- `backend_nseg` of them: none in an empty ring
unfoldable pub views : Ring → List View
views r =
    if r.count == 0 then [] else views_from r.first_abs (u32 (r.first_abs + r.count)) r.segments

-- How many segments have the ordinal.
abbrev pub holders : ℕ → List View → ℕ
holders abs [] = 0
holders abs (v ∷ vs) = (if leb v.first abs && ltb abs v.end then 1 else 0) + holders abs vs

holders-views_from :
    (abs first past : ℕ) (s : Segment) (segs : List Segment)
    → first < past
    → Rising (suc first) past segs
    → holders abs (views_from first past (s ∷ segs))
      ≡ (if leb first abs && ltb abs past then 1 else 0)
unfolding views_from
holders-views_from abs first past s [] lt h = ground arith
holders-views_from abs first past s (t ∷ segs) lt (a, b, c) =
    rw (holders-views_from abs t.origin past t segs b c) (ground arith)

holders-Covers :
    (abs first past : ℕ) (segs : List Segment)
    → first < past
    → is_empty segs ≡ false
    → Covers first past segs
    → holders abs (views_from first past segs) ≡ (if leb first abs && ltb abs past then 1 else 0)
holders-Covers abs first past [] lt e h = absurd (ground arith)
holders-Covers abs first past (s ∷ segs) lt e (a, b) = holders-views_from abs first past s segs lt b

-- The segments of a valid ring, below the end of the ordinals, cut its records up: a stored ordinal
-- is in exactly one of them, and any other ordinal in none.
pub views-partition :
    (cap : ℕ) (r : Ring) (abs : ℕ)
    → IsValid cap r
    → r.first_abs + r.count < 2 ^ 32
    → holders abs (views r)
      ≡ (if leb r.first_abs abs && ltb abs (r.first_abs + r.count) then 1 else 0)
unfolding views
views-partition cap r abs v room =
    let past : u32 (r.first_abs + r.count) ≡ r.first_abs + r.count = omega arith in
    elim (Bool-cases (r.count == 0)) [
      | inl e ↦ rw e (ground arith)
      | inr e ↦
          rw (e, past)
            (holders-Covers abs r.first_abs (r.first_abs + r.count) r.segments (ground arith)
              (v.some_segment (ground arith)) v.covers)
    ]
