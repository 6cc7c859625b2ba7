-- ===== src/Counters/Laws.antt =====
-- What the totalizers promise across saves and power cycles.
use sticker_firmware.Base.{
  ◌^◌, ◌<◌, ◌≡◌, ◌≢◌, refl, sym, ap, ◌∙◌, arith, Bool, true, Option, none, some, List, [], ◌∷◌,
  ◌==◌, Ret, ok, fail, Errno,
}
use sticker_firmware.Counters.{
  Counts, Blob, Counters, Stored, Flash, zero_counts, blob_size, blob_version, boot, gather,
  same_counts, settings_set, save_one, save, load_all, add_counts, restore, init,
}

same_counts_iff : (a b : Counts) → same_counts a b ≡ true → a ≡ b
unfolding same_counts
same_counts_iff a b h = ground arith

same_counts_refl : (a : Counts) → same_counts a a ≡ true
unfolding same_counts
same_counts_refl a = ground arith

-- The counts that the flash holds, of which there are none before the first save.
abbrev pub held : Option Blob → Counts
held none = zero_counts
held (some b) = b.counts

abbrev pub readable : Option Blob → Bool
readable none = true
readable (some b) = b.version == blob_version

-- The cached baseline is what the flash holds.
pub record IsSynced (s : Counters) (stored : Option Blob) : Type 0 where
  pub same : held stored ≡ s.last_saved.counts
  pub version : readable stored ≡ true

save_one_lem :
    (s : Counters) (live : Counts) (flash : Flash) (answer : Ret)
    → IsSynced s flash.stored
    → let (ret, s', flash') = save_one s live flash answer in
      IsSynced s' flash'.stored
      × (ret ≡ ok → s'.last_saved.counts ≡ live)
      × (ret ≢ ok → (s' ≡ s) × (flash'.stored ≡ flash.stored))
unfolding save_one gather
save_one_lem s live flash ok sync =
    (record { same = refl; version = refl }, λ _. refl, λ n. absurd (n refl))
save_one_lem s live flash (fail e) sync =
    (record { same = sync.same; version = sync.version }, λ h. ground arith, λ _. (refl, refl))

pub save_lem :
    (s : Counters) (live : Counts) (force : Bool) (answer : Ret) (flash : Flash)
    → IsSynced s flash.stored
    → let (ret, s', flash') = save s live force answer flash in
      IsSynced s' flash'.stored
      × (ret ≡ ok → s'.last_saved.counts ≡ live)
      × (ret ≢ ok → (s' ≡ s) × (flash'.stored ≡ flash.stored))
unfolding save
save_lem s live force answer flash sync =
    ground (arith, save_one_lem s live flash answer sync, same_counts_iff live s.last_saved.counts)

-- What `settings_load_subtree` delivers of the flash.
abbrev pub entries : Option Blob → List Stored
entries none = []
entries (some b) = record { key_matches = true; len = blob_size; read = blob_size; blob = b } ∷ []

abbrev pub Fits : Counts → Type 0
Fits c =
    (c.hall_left < 2 ^ 32) × (c.hall_right < 2 ^ 32) × (c.input_a < 2 ^ 32) × (c.input_b < 2 ^ 32)

add_zero_counts : (live : Counts) → Fits live → add_counts zero_counts live ≡ live
unfolding add_counts
add_zero_counts live fits = ground arith

-- A boot over the flash gives each live count the stored total on top of the pulses counted so far.
boot_restores :
    (stored : Option Blob) (live : Counts)
    → readable stored ≡ true
    → Fits live
    → let (ret, s, live') = init boot ok ok (entries stored) live in
      (ret ≡ ok) × IsSynced s stored × (live' ≡ add_counts (held stored) live)
unfolding init load_all settings_set restore boot
boot_restores none live h fits =
    (refl, record { same = refl; version = refl }, sym (add_zero_counts live fits))
boot_restores (some b) live h fits = ground (arith, h)

-- A power cycle after a save.
pub power_cycle :
    (s : Counters) (live live' : Counts) (force : Bool) (answer : Ret) (flash : Flash)
    → IsSynced s flash.stored
    → Fits live'
    → let (ret, s', flash') = save s live force answer flash in
      ret ≡ ok
      → let (ret', s'', live'') = init boot ok ok (entries flash'.stored) live' in
        (ret' ≡ ok) × IsSynced s'' flash'.stored × (live'' ≡ add_counts live live')
power_cycle s live live' force answer flash sync fits h =
    let (sync', after, _) = save_lem s live force answer flash sync in
    let (ret_ok, sync'', sum) =
      boot_restores (save s live force answer flash).2.stored live' sync'.version fits in
    (ret_ok, sync'', sum ∙ ap (λ c. add_counts c live') (sync'.same ∙ after h))

-- When the load fails at boot, after the handler was registered, its error is returned, the live counts
-- stay as they are, and no later save writes to the flash, forced or not.
pub failed_load :
    (s : Counters) (e : Errno) (es : List Stored) (live : Counts) (live' : Counts) (force : Bool)
    (answer : Ret) (flash : Flash)
    → let (ret, s', live_after) = init s ok (fail e) es live in
      (ret ≡ fail e)
      × (live_after ≡ live)
      × (save s' live' force answer flash ≡ (fail Errno.eio, s', flash))
unfolding init restore save
failed_load s e es live live' force answer flash = (refl, refl, refl)
