-- ===== src/History/Room.antt =====
-- app/src/app_history.c, backend_append of the RAM ring: the segment the new record goes to.
use sticker_firmware.Base.{
  ℕ, suc, ◌+◌, ◌-◌, ◌^◌, ◌<◌, ◌≤◌, ◌≡◌, refl, sym, ◌∙◌, arith, Bool, false, ◌||◌, none, List, [],
  ◌∷◌, ◌++◌, length, length-append, ltb, ◌==◌, if◌then◌else◌, u16, u32, Bool-cases, inl, inr,
}
use native.Mathlib.Nat.{mod-lt}
use sticker_firmware.History.Ram.{
  Segment, Ring, is_empty, second_origin, shift, max_segments, advance, drop_oldest, add_segment,
  make_room, open_segment, read,
}
use sticker_firmware.History.Ring.{InRange, read-advance}
use sticker_firmware.History.Segments.{Covers, Covers-append, Covers-wider, IsValid, second-stored}

-- The oldest n records are gone, and the ring ends where it did.
pub record Drops (cap : ℕ) (r r' : Ring) (n : ℕ) : Type 0 where
  pub valid : IsValid cap r'
  pub stored : n ≤ r.count
  pub kept : 0 < r.count → n < r.count
  pub first : r'.first_abs ≡ r.first_abs + n
  pub past : r'.first_abs + r'.count ≡ r.first_abs + r.count
  pub reads :
      (abs : ℕ) → read cap r' abs ≡ (if ltb abs (r.first_abs + n) then none else read cap r abs)

pub read-segments :
    (cap : ℕ) (r : Ring) (segs : List Segment) (abs : ℕ)
    → read cap (record r { segments = segs }) abs ≡ read cap r abs
unfolding read
read-segments cap r segs abs = refl

read-none_early :
    (cap : ℕ) (r : Ring) (abs : ℕ)
    → read cap r abs ≡ (if ltb abs (r.first_abs + 0) then none else read cap r abs)
unfolding read
read-none_early cap r abs = ground arith

in_range : (cap : ℕ) (r : Ring) → IsValid cap r → r.first_abs + r.count + 1 < 2 ^ 32 → InRange cap r
in_range cap r v room = record {
  positive = v.positive;
  width = v.width;
  start = v.start;
  count = v.count;
  room = room;
}

none_dropped : (cap : ℕ) (r : Ring) → IsValid cap r → Drops cap r r 0
none_dropped cap r v = record {
  valid = v;
  stored = omega arith;
  kept = λ h. h;
  first = omega arith;
  past = refl;
  reads = read-none_early cap r;
}

advance-Drops :
    (cap : ℕ) (r : Ring) (n : ℕ) (segs : List Segment)
    → InRange cap r
    → n < r.count
    → Covers (r.first_abs + n) (r.first_abs + r.count) segs
    → is_empty segs ≡ false
    → length segs ≤ 4
    → Drops cap r (record (advance cap r n) { segments = segs }) n
unfolding advance
advance-Drops cap r n segs h le covers some_left few =
    let first : u32 (r.first_abs + n) ≡ r.first_abs + n = omega (arith, h.room) in
    let left : u16 (r.count + 2 ^ 16 - n) ≡ r.count - n = omega (arith, h.count, h.width, le) in
    let past : r.first_abs + n + (r.count - n) ≡ r.first_abs + r.count = omega arith in
    record {
      valid = record {
        positive = h.positive;
        width = h.width;
        start = mod-lt (r.start + n) h.positive;
        count = rw left (omega (arith, h.count));
        covers = rw (first, left, past) covers;
        some_segment = λ _. some_left;
        few = few;
      };
      stored = omega arith;
      kept = λ _. le;
      first = first;
      past = rw (first, left) past;
      reads = λ abs.
          read-segments cap (advance cap r n) segs abs ∙ read-advance cap r n abs h (omega arith);
    }

drop_oldest-Drops :
    (cap : ℕ) (r : Ring)
    → IsValid cap r
    → r.first_abs + r.count + 1 < 2 ^ 32
    → length r.segments ≡ 4
    → let (r', n) = drop_oldest cap r in
      Drops cap r r' n × (length r'.segments ≡ 3) × (is_empty r'.segments ≡ false)
unfolding drop_oldest
drop_oldest-Drops cap r v room full =
    let (above, below, covers, some_left, few) =
      second-stored r.first_abs (r.first_abs + r.count) r.segments v.covers full in
    let n = second_origin r.segments r.first_abs - r.first_abs in
    let narrow : u16 (second_origin r.segments r.first_abs + 2 ^ 32 - r.first_abs) ≡ n =
      omega (arith, v.count, v.width, above, below, room) in
    let at : r.first_abs + n ≡ second_origin r.segments r.first_abs = omega (arith, above) in
    rw narrow (
      advance-Drops cap r n (shift r.segments) (in_range cap r v room) (omega (arith, below))
          (rw at covers) some_left (omega (arith, few)),
      few,
      some_left,
    )

-- Room for one more segment.
record HasRoom (cap : ℕ) (r : Ring) (p : Ring × ℕ) : Type 0 where
  drops : Drops cap r p.0 p.1
  few : length p.0.segments ≤ 3
  same_empty : is_empty p.0.segments ≡ is_empty r.segments

not_empty : (segs : List Segment) → length segs ≡ 4 → is_empty segs ≡ false
not_empty [] h = absurd (omega arith)
not_empty (s ∷ segs) h = refl

make_room-HasRoom :
    (cap : ℕ) (r : Ring)
    → IsValid cap r
    → r.first_abs + r.count + 1 < 2 ^ 32
    → HasRoom cap r (make_room cap r)
unfolding make_room
make_room-HasRoom cap r v room = elim (Bool-cases (length r.segments == max_segments)) [
  | inl e ↦
      let full : length r.segments ≡ 4 = ground arith in
      let (drops, three, left) = drop_oldest-Drops cap r v room full in
      rw e record {
        drops = drops;
        few = omega (arith, three);
        same_empty = left ∙ sym (not_empty r.segments full);
      }
  | inr e ↦
      rw e record { drops = none_dropped cap r v; few = ground (arith, v.few); same_empty = refl }
]

-- Ready for a store: a segment is there for the record at the end of the ring.
pub record IsReady (cap : ℕ) (r : Ring) (p : Ring × ℕ) : Type 0 where
  pub range : InRange cap p.0
  pub covers : Covers p.0.first_abs (p.0.first_abs + p.0.count + 1) p.0.segments
  pub some_segment : is_empty p.0.segments ≡ false
  pub few : length p.0.segments ≤ 4
  pub stored : p.1 ≤ r.count
  pub first : p.0.first_abs ≡ r.first_abs + p.1
  pub past : p.0.first_abs + p.0.count ≡ r.first_abs + r.count
  pub reads :
      (abs : ℕ) → read cap p.0 abs ≡ (if ltb abs (r.first_abs + p.1) then none else read cap r abs)

suc_add : (a b : ℕ) → a + b + 1 ≡ suc (a + b)
suc_add a b = omega arith

add_segment-IsReady :
    (cap : ℕ) (r : Ring) (p : Ring × ℕ) (base : ℕ) (synced : Bool)
    → IsValid cap r
    → r.first_abs + r.count + 1 < 2 ^ 32
    → (is_empty r.segments ≡ false → 0 < r.count)
    → HasRoom cap r p
    → IsReady cap r (add_segment p.0 base synced, p.1)
unfolding add_segment
add_segment-IsReady cap r p base synced v room used h =
    let d = h.drops in
    let seg : Segment = record {
      origin = u32 (p.0.first_abs + p.0.count);
      base = base;
      synced = synced;
    } in
    let cast : u32 (p.0.first_abs + p.0.count) ≡ p.0.first_abs + p.0.count =
      omega (arith, d.past, room) in
    record {
      range = record {
        positive = v.positive;
        width = v.width;
        start = d.valid.start;
        count = d.valid.count;
        room = omega (arith, d.past, room);
      };
      covers = rw (suc_add p.0.first_abs p.0.count) (
          Covers-append p.0.first_abs (p.0.first_abs + p.0.count) p.0.segments seg (omega arith)
            (λ e. ground (arith, v.some_segment, h.same_empty, d.past, d.first, d.stored))
            (λ e. ground (arith, used, h.same_empty, d.kept, d.past, d.first)) cast d.valid.covers);
      some_segment = append-not_empty p.0.segments seg;
      few = omega (arith, h.few, length-append p.0.segments (seg ∷ []));
      stored = d.stored;
      first = d.first;
      past = d.past;
      reads = λ abs. read-segments cap p.0 (p.0.segments ++ seg ∷ []) abs ∙ d.reads abs;
    }
  where
    append-not_empty : (segs : List Segment) (s : Segment) → is_empty (segs ++ s ∷ []) ≡ false
    append-not_empty [] s = refl
    append-not_empty (t ∷ segs) s = refl

pub open_segment-IsReady :
    (cap : ℕ) (r : Ring) (base : ℕ) (synced split : Bool)
    → IsValid cap r
    → r.first_abs + r.count + 1 < 2 ^ 32
    → (is_empty r.segments ≡ false → 0 < r.count)
    → IsReady cap r (open_segment cap r base synced split)
unfolding open_segment
open_segment-IsReady cap r base synced split v room used =
    elim (Bool-cases (is_empty r.segments || split)) [
      | inl e ↦ rw e (
          add_segment-IsReady cap r (make_room cap r) base synced v room used
            (make_room-HasRoom cap r v room))
      | inr e ↦ rw e record {
        range = in_range cap r v room;
        covers =
            rw (suc_add r.first_abs r.count)
              (Covers-wider r.first_abs (r.first_abs + r.count) r.segments v.covers);
        some_segment = ground arith;
        few = v.few;
        stored = omega arith;
        first = omega arith;
        past = refl;
        reads = read-none_early cap r;
      }
    ]
