-- ===== src/History/Ram.antt =====
-- app/src/app_history.c: the RAM backend. `m_ram` holds one record in each slot; the segment table
-- with its count and its mask of synced segments is the list of the segments, oldest first.
use sticker_firmware.Base.{
  ℕ, ◌+◌, ◌-◌, ◌%◌, ◌^◌, Bool, true, false, ◌||◌, Option, none, some, List, [], ◌∷◌, ◌++◌, length,
  ltb, leb, ◌==◌, if◌then◌else◌, u16, u32,
}

-- `struct ram_seg`, and whether its base is unix time
pub record Segment : Type 0 where
  pub origin : ℕ
  pub base : ℕ
  pub synced : Bool

-- RAM_NSEG
abbrev pub max_segments : ℕ
max_segments = 4

pub record Ring : Type 0 where
  pub ram : ℕ → List ℕ
  pub start : ℕ
  pub count : ℕ
  pub first_abs : ℕ
  pub segments : List Segment

-- `backend_mount`: the RAM keeps what it held.
unfoldable pub mount : Ring → Ring
mount r = record r { start = 0; count = 0; first_abs = 0; segments = [] }

-- `ram_seg_shift`
abbrev pub shift : List Segment → List Segment
shift [] = []
shift (_ ∷ segs) = segs

abbrev pub is_empty : List Segment → Bool
is_empty [] = true
is_empty (_ ∷ _) = false

-- The origin of the second segment.
abbrev pub second_origin : List Segment → ℕ → ℕ
second_origin (_ ∷ s ∷ _) d = s.origin
second_origin (_ ∷ []) d = d
second_origin [] d = d

-- The oldest `n` records leave the ring.
unfoldable pub advance : ℕ → Ring → ℕ → Ring
advance cap r n = record r {
  start = (r.start + n) % cap;
  count = u16 (r.count + 2 ^ 16 - n);
  first_abs = u32 (r.first_abs + n);
}

-- The table is full: the oldest segment leaves with its records, `n0` of them.
unfoldable pub drop_oldest : ℕ → Ring → Ring × ℕ
drop_oldest cap r =
    let n0 = u16 (second_origin r.segments r.first_abs + 2 ^ 32 - r.first_abs) in
    (record (advance cap r n0) { segments = shift r.segments }, n0)

unfoldable pub add_segment : Ring → ℕ → Bool → Ring
add_segment r base synced = record r {
  segments =
      r.segments
      ++ record { origin = u32 (r.first_abs + r.count); base = base; synced = synced } ∷ [];
}

unfoldable pub make_room : ℕ → Ring → Ring × ℕ
make_room cap r = if length r.segments == max_segments then drop_oldest cap r else (r, 0)

-- The first part of `backend_append`: a new segment for the first record or at a split.
unfoldable pub open_segment : ℕ → Ring → ℕ → Bool → Bool → Ring × ℕ
open_segment cap r base synced split =
    if is_empty r.segments || split
    then (let (r', n0) = make_room cap r in (add_segment r' base synced, n0))
    else (r, 0)

-- The segments whose records are all evicted.
unfoldable pub drop_evicted : ℕ → List Segment → List Segment
drop_evicted first_abs [] = []
drop_evicted first_abs (s ∷ []) = s ∷ []
drop_evicted first_abs (s ∷ s' ∷ segs) =
    let rest = drop_evicted first_abs (s' ∷ segs) in
    if leb s'.origin first_abs then rest else s ∷ s' ∷ segs

abbrev pub write : (ℕ → List ℕ) → ℕ → List ℕ → ℕ → List ℕ
write ram slot rec i = if i == slot then rec else ram i

-- The second part: the slot of the new record, and the `memcpy`.
unfoldable pub store : ℕ → Ring → List ℕ → Ring × ℕ
store cap r rec =
    if leb cap r.count
    then (
      record r {
        ram = write r.ram r.start rec;
        start = (r.start + 1) % cap;
        first_abs = u32 (r.first_abs + 1);
        segments = drop_evicted (u32 (r.first_abs + 1)) r.segments;
      },
      1,
    )
    else (record r { ram = write r.ram ((r.start + r.count) % cap) rec; count = r.count + 1 }, 0)

-- `m_ram_nseg = 0` for an empty ring
abbrev pub without_records : Ring → Ring
without_records r = if r.count == 0 then record r { segments = [] } else r

-- `backend_append`: the ring and `*evicted`
unfoldable pub append : ℕ → Ring → List ℕ → ℕ → Bool → Bool → Ring × ℕ
append cap r rec base synced split =
    let (r', n0) = open_segment cap (without_records r) base synced split in
    let (r'', n1) = store cap r' rec in (r'', n0 + n1)

-- `backend_read`, none for -EIO
unfoldable pub read : ℕ → Ring → ℕ → Option (List ℕ)
read cap r abs =
    if ltb abs r.first_abs || leb r.count (abs - r.first_abs)
    then none
    else some (r.ram ((r.start + (abs - r.first_abs)) % cap))

-- `backend_reset_logical`
unfoldable pub reset_logical : Ring → Ring
reset_logical r = record r {
  first_abs = u32 (r.first_abs + r.count);
  start = 0;
  count = 0;
  segments = [];
}
