-- ===== src/History/Tests.antt =====
-- The RAM ring at a concrete state: two slots, both used, and two segments.
use sticker_firmware.Base.{
  ℕ, ◌^◌, ◌<◌, ◌≤◌, ◌≡◌, refl, arith, true, false, some, [], ◌∷◌, ◌==◌, if◌then◌else◌,
}
use sticker_firmware.History.Ram.{Ring, append, read, open_segment, make_room, add_segment, store}
use sticker_firmware.History.Segments.{IsValid}
use sticker_firmware.History.Views.{holders, views, views-partition}
use sticker_firmware.History.Append.{Appends, append-Appends}

abbrev full_ring : Ring
full_ring = record {
  ram = λ i. if i == 0 then 11 ∷ [] else 22 ∷ [];
  start = 1;
  count = 2;
  first_abs = 5;
  segments =
      record { origin = 4; base = 100; synced = false }
      ∷ record { origin = 6; base = 900; synced = true }
      ∷ [];
}

full_ring-IsValid : (cap : ℕ) → 2 ≤ cap → cap < 2 ^ 16 → IsValid cap full_ring
full_ring-IsValid cap two width = record {
  positive = omega arith;
  width = width;
  start = omega arith;
  count = two;
  covers = (omega arith, (omega arith, omega arith, tt));
  some_segment = λ _. refl;
  few = omega arith;
}

evicts_one : (append 2 full_ring (33 ∷ []) 960 true false).1 ≡ 1
unfolding append open_segment store
evicts_one = refl

reads_new : read 2 (append 2 full_ring (33 ∷ []) 960 true false).0 7 ≡ some (33 ∷ [])
unfolding append open_segment store read
reads_new = refl

reads_kept : read 2 (append 2 full_ring (33 ∷ []) 960 true true).0 6 ≡ some (11 ∷ [])
unfolding append open_segment make_room add_segment store read
reads_kept = refl

append-Appends_example : Appends 2 full_ring (33 ∷ []) (append 2 full_ring (33 ∷ []) 960 true true)
append-Appends_example =
    append-Appends 2 full_ring (33 ∷ []) 960 true true
      (full_ring-IsValid 2 (omega arith) (omega arith)) (omega arith)

views-partition_example : holders 6 (views full_ring) ≡ 1
views-partition_example =
    views-partition 2 full_ring 6 (full_ring-IsValid 2 (omega arith) (omega arith)) (omega arith)
