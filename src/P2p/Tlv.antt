-- ===== src/P2p/Tlv.antt =====
-- app/src/app_radio_p2p.c, the 0x91 control envelope: the list of its entries, which the join and
-- the control downlink walk.
pub mod Entries
use sticker_firmware.Base.{
  ℕ, zero, suc, ◌+◌, ◌-◌, Bool, ◌||◌, Option, none, some, List, [], ◌∷◌, leb, ltb, if◌then◌else◌,
  length, get_or, take, drop, Errno, Result, done, err,
}

-- `struct p2p_tlv`; the length is that of `val`.
pub record Tlv : Type 0 where
  pub cmd : ℕ
  pub val : List ℕ

-- `p2p_tlv_next`: none at the end of the list, else the entry and the next offset
unfoldable pub tlv_next : List ℕ → ℕ → Result (Option (Tlv × ℕ))
tlv_next buf off =
    let len = get_or buf (off + 1) 0 in
    if leb (length buf) off
    then done none
    else if ltb (length buf - off) 2 || ltb (length buf - off - 2) len
    then err Errno.ebadmsg
    else done (
        some
          (record { cmd = get_or buf off 0; val = take len (drop (off + 2) buf) }, off + 2 + len))

unfoldable pub entry_then : Result (Option (Tlv × ℕ)) → (ℕ → List Tlv) → List Tlv
entry_then (err e) next = []
entry_then (done none) next = []
entry_then (done (some (t, off))) next = t ∷ next off

-- The entries that a loop `while (p2p_tlv_next(...) > 0)` sees.
unfoldable pub entries_from : ℕ → List ℕ → ℕ → List Tlv
entries_from zero buf off = []
entries_from (suc fuel) buf off = entry_then (tlv_next buf off) (λ next. entries_from fuel buf next)

unfoldable pub entries : List ℕ → List Tlv
entries buf = entries_from (length buf + 1) buf 0
