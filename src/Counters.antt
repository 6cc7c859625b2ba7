-- ===== src/Counters.antt =====
-- app/src/app_counters.c: the pulse totalizers in the settings store. The store itself (Zephyr
-- settings) is not modelled: what it answers to a call is an argument.
pub mod Laws
mod Tests
use sticker_firmware.Base.{
  ℕ, ◌+◌, ◌^◌, Bool, true, false, not, ◌&&◌, ◌||◌, Option, none, some, List, [], ◌∷◌, ◌==◌,
  if◌then◌else◌, u32, Ret, ok, fail, Errno,
}

-- The live counts of app_hall and app_input, or the four counts of a blob.
pub record Counts : Type 0 where
  pub hall_left : ℕ
  pub hall_right : ℕ
  pub input_a : ℕ
  pub input_b : ℕ

-- `struct counters_blob`
pub record Blob : Type 0 where
  pub version : ℕ
  pub counts : Counts

abbrev pub blob_version : ℕ
blob_version = 1

abbrev pub blob_size : ℕ
blob_size = 20

pub record Counters : Type 0 where
  pub last_saved : Blob
  pub loaded : Bool
  pub persist_disabled : Bool

abbrev pub zero_counts : Counts
zero_counts = record { hall_left = 0; hall_right = 0; input_a = 0; input_b = 0 }

-- The static initialisers.
pub boot : Counters
boot = record {
  last_saved = record { version = blob_version; counts = zero_counts };
  loaded = false;
  persist_disabled = false;
}

-- `gather`
pub gather : Counts → Blob
gather live = record { version = blob_version; counts = live }

pub same_counts : Counts → Counts → Bool
same_counts a b =
    a.hall_left == b.hall_left
    && a.hall_right == b.hall_right
    && a.input_a == b.input_a
    && a.input_b == b.input_b

-- One stored entry as the store hands it over: its key matches, its size, the bytes read and what
-- they hold.
pub record Stored : Type 0 where
  pub key_matches : Bool
  pub len : ℕ
  pub read : ℕ
  pub blob : Blob

-- `counters_settings_set`
pub settings_set : Counters → Stored → Ret × Counters
settings_set s e =
    if not e.key_matches
    then (fail Errno.enoent, s)
    else if not (e.len == blob_size)
    then (ok, s)
    else if not (e.read == blob_size)
    then (ok, s)
    else if not (e.blob.version == blob_version)
    then (ok, s)
    else (ok, record s { last_saved = e.blob; loaded = true })

-- The flash as this module sees it: the last blob written under its key, and the writes so far.
pub record Flash : Type 0 where
  pub stored : Option Blob
  pub writes : ℕ

-- `app_counters_save` from `settings_save_one` on, given its answer.
pub save_one : Counters → Counts → Flash → Ret → Ret × Counters × Flash
save_one s live flash (fail e) = (fail e, s, record flash { writes = flash.writes + 1 })
save_one s live flash ok = (
  ok,
  record s { last_saved = gather live },
  record { stored = some (gather live); writes = flash.writes + 1 },
)

-- `app_counters_save`, with the live counts and what the store answers to a write: a write that
-- fails leaves the entry it would replace.
pub save : Counters → Counts → Bool → Ret → Flash → Ret × Counters × Flash
save s live force answer flash =
    if s.persist_disabled
    then (fail Errno.eio, s, flash)
    else if not force && same_counts live s.last_saved.counts
    then (ok, s, flash)
    else save_one s live flash answer

-- The entries that `settings_load_subtree` delivers, in turn.
pub load_all : Counters → List Stored → Counters
load_all s [] = s
load_all s (e ∷ es) = load_all (settings_set s e).1 es

-- `uint32_t` sums of the stored totals and the pulses counted since boot
pub add_counts : Counts → Counts → Counts
add_counts a b = record {
  hall_left = u32 (a.hall_left + b.hall_left);
  hall_right = u32 (a.hall_right + b.hall_right);
  input_a = u32 (a.input_a + b.input_a);
  input_b = u32 (a.input_b + b.input_b);
}

abbrev pub registered : Ret → Bool
registered ok = true
registered (fail Errno.eexist) = true
registered (fail _) = false

-- `app_counters_init` after `settings_load_subtree`, given its answer.
pub restore : Ret → Counters → Counts → Ret × Counters × Counts
restore (fail e) s live = (fail e, record s { persist_disabled = true }, live)
restore ok s live = (ok, s, if s.loaded then add_counts s.last_saved.counts live else live)

-- `app_counters_init`: the answers of `settings_register` and `settings_load_subtree`, the entries
-- that the latter delivers, and the live counts; it returns the live counts that it leaves.
pub init : Counters → Ret → Ret → List Stored → Counts → Ret × Counters × Counts
init s register load entries live =
    if not (registered register)
    then (register, s, live)
    else restore load (load_all s entries) live
