-- ===== src/History/Append.antt =====
-- app/src/app_history.c, backend_append of the RAM ring: what an append does to the records.
use sticker_firmware.Base.{
  ℕ, ◌+◌, ◌^◌, ◌<◌, ◌≡◌, refl, ◌∙◌, arith, Bool, true, false, none, some, List, [], ◌==◌, ltb, leb,
  length, if◌then◌else◌, Bool-cases, inl, inr,
}
use sticker_firmware.History.Ram.{
  Ring, max_segments, make_room, add_segment, reset_logical, open_segment, store, without_records,
  append, read,
}
use sticker_firmware.History.Ring.{read-store}
use sticker_firmware.History.Segments.{IsValid, store-IsValid}
use sticker_firmware.History.Room.{IsReady, open_segment-IsReady, read-segments}

-- The record is the newest, the n oldest are gone, and the others read as before.
pub record Appends (cap : ℕ) (r : Ring) (rec : List ℕ) (p : Ring × ℕ) : Type 0 where
  pub valid : IsValid cap p.0
  pub first : p.0.first_abs ≡ r.first_abs + p.1
  pub past : p.0.first_abs + p.0.count ≡ r.first_abs + r.count + 1
  pub reads :
      (abs : ℕ)
      → read cap p.0 abs ≡ (
          if abs == r.first_abs + r.count
          then some rec
          else if ltb abs (r.first_abs + p.1)
          then none
          else read cap r abs)

read-stored :
    (cap : ℕ) (r : Ring) (rec : List ℕ) (p : Ring × ℕ) (abs : ℕ)
    → IsReady cap r p
    → read cap (store cap p.0 rec).0 abs ≡ (
        if abs == r.first_abs + r.count
        then some rec
        else if ltb abs (r.first_abs + (p.1 + (store cap p.0 rec).1))
        then none
        else read cap r abs)
read-stored cap r rec p abs h =
    read-store cap p.0 rec abs h.range ∙ rw (h.reads abs, h.past, h.first) (ground arith)

stored-Appends :
    (cap : ℕ) (r : Ring) (rec : List ℕ) (p : Ring × ℕ)
    → IsReady cap r p
    → Appends cap r rec ((store cap p.0 rec).0, p.1 + (store cap p.0 rec).1)
stored-Appends cap r rec p h =
    let (valid, first, past) = store-IsValid cap p.0 rec h.covers h.some_segment h.few h.range in
    record {
      valid = valid;
      first = omega (arith, first, h.first);
      past = omega (arith, past, h.past);
      reads = λ abs. read-stored cap r rec p abs h;
    }

empty-IsValid :
    (cap : ℕ) (r : Ring) → IsValid cap r → r.count ≡ 0 → IsValid cap (record r { segments = [] })
empty-IsValid cap r v e = record {
  positive = v.positive;
  width = v.width;
  start = v.start;
  count = v.count;
  covers = tt;
  some_segment = λ h. absurd (omega arith);
  few = omega arith;
}

emptied-IsReady :
    (cap : ℕ) (r : Ring) (p : Ring × ℕ)
    → IsReady cap (record r { segments = [] }) p
    → IsReady cap r p
emptied-IsReady cap r p h = record {
  range = h.range;
  covers = h.covers;
  some_segment = h.some_segment;
  few = h.few;
  stored = h.stored;
  first = h.first;
  past = h.past;
  reads = λ abs. h.reads abs ∙ rw (read-segments cap r [] abs) refl;
}

opened-IsReady :
    (cap : ℕ) (r : Ring) (base : ℕ) (synced split : Bool)
    → IsValid cap r
    → r.first_abs + r.count + 1 < 2 ^ 32
    → IsReady cap r (open_segment cap (without_records r) base synced split)
opened-IsReady cap r base synced split v room = elim (Bool-cases (r.count == 0)) [
  | inl e ↦
      let none_stored = record r { segments = [] } in
      rw e (
        emptied-IsReady cap r (open_segment cap none_stored base synced split) (
          open_segment-IsReady cap none_stored base synced split
            (empty-IsValid cap r v (ground arith)) room (λ h. absurd (ground arith))))
  | inr e ↦ rw e (open_segment-IsReady cap r base synced split v room (λ _. ground arith))
]

-- An append to a valid ring, below the end of the ordinals, gives a valid ring in which the record
-- reads back at the next ordinal, the evicted ones do not read, and every other one is as before.
pub append-Appends :
    (cap : ℕ) (r : Ring) (rec : List ℕ) (base : ℕ) (synced split : Bool)
    → IsValid cap r
    → r.first_abs + r.count + 1 < 2 ^ 32
    → Appends cap r rec (append cap r rec base synced split)
unfolding append
append-Appends cap r rec base synced split v room =
    stored-Appends cap r rec (open_segment cap (without_records r) base synced split)
      (opened-IsReady cap r base synced split v room)

none-make_room : (cap : ℕ) (r : Ring) → length r.segments < 4 → make_room cap r ≡ (r, 0)
unfolding make_room
none-make_room cap r few =
    let e : (length r.segments == max_segments) ≡ false = ground arith in rw e refl

-- An append to a valid ring with a free slot evicts nothing, unless it splits with a full segment
-- table.
pub append-none_evicted :
    (cap : ℕ) (r : Ring) (rec : List ℕ) (base : ℕ) (synced split : Bool)
    → IsValid cap r
    → r.count < cap
    → (split ≡ true → length r.segments < 4)
    → (append cap r rec base synced split).1 ≡ 0
unfolding append open_segment store add_segment
append-none_evicted cap r rec base synced split v free entry =
    let f : leb cap r.count ≡ false = ground arith in
    elim (Bool-cases (r.count == 0)) [
      | inl e ↦ rw (e, none-make_room cap (record r { segments = [] }) (omega arith), f) refl
      | inr e ↦ elim (Bool-cases split) [
        | inl s ↦ rw (e, v.some_segment (ground arith), s, none-make_room cap r (entry s), f) refl
        | inr s ↦ rw (e, v.some_segment (ground arith), s, f) refl
      ]
    ]

-- A reset gives a valid ring that ends where the old one did, and no ordinal of the old one reads.
pub reset_logical_lem :
    (cap : ℕ) (r : Ring) (abs : ℕ)
    → IsValid cap r
    → r.first_abs + r.count < 2 ^ 32
    → IsValid cap (reset_logical r)
      × ((reset_logical r).first_abs ≡ r.first_abs + r.count)
      × (read cap (reset_logical r) abs ≡ none)
unfolding reset_logical read
reset_logical_lem cap r abs v room = (
  record {
    positive = v.positive;
    width = v.width;
    start = v.positive;
    count = omega arith;
    covers = tt;
    some_segment = λ h. absurd (omega arith);
    few = omega arith;
  },
  omega arith,
  ground arith,
)
