-- ===== src/P2p/Tlv/Entries.antt =====
-- app/src/app_radio_p2p.c: the walk of a control list sees exactly its whole entries.
use sticker_firmware.Base.{
  ℕ, zero, suc, ◌+◌, ◌-◌, ◌<◌, ◌≤◌, ◌≡◌, refl, sym, ap, ◌∙◌, arith, Bool, true, ◌||◌, List, [], ◌∷◌,
  ◌++◌, append_assoc, leb, ltb, length, get_or, take, drop, Bool-cases, inl, inr, length-drop,
  length-take, get_or-at, get_or-drop, drop-drop, take-append-drop,
}
use sticker_firmware.P2p.Tlv.{Tlv, tlv_next, entry_then, entries_from, entries}

-- The bytes of a list of entries.
abbrev pub encode : List Tlv → List ℕ
encode [] = []
encode (t ∷ ts) = t.cmd ∷ length t.val ∷ t.val ++ encode ts

-- What does not start with a whole entry.
abbrev pub is_stuck : List ℕ → Bool
is_stuck rest = ltb (length rest) 2 || ltb (length rest - 2) (get_or rest 1 0)

pub record Walked (buf : List ℕ) (ts : List Tlv) : Type 0 where
  pub rest : List ℕ
  pub whole : buf ≡ encode ts ++ rest
  pub stuck : is_stuck rest ≡ true

two_head : (zs : List ℕ) → 2 ≤ length zs → zs ≡ get_or zs 0 0 ∷ get_or zs 1 0 ∷ drop 2 zs
two_head [] h = absurd (omega arith)
two_head (a ∷ []) h = absurd (omega arith)
two_head (a ∷ b ∷ zs) h = refl

cons_twice : {a b c d : ℕ} {xs ys : List ℕ} → a ≡ c → b ≡ d → xs ≡ ys → (a ∷ b ∷ xs) ≡ (c ∷ d ∷ ys)
cons_twice p q r = cc

-- A whole entry, and what follows it.
entry_whole :
    (buf : List ℕ) (off : ℕ) (ts : List Tlv) (rest : List ℕ)
    → off + 2 + get_or buf (off + 1) 0 ≤ length buf
    → drop (off + 2 + get_or buf (off + 1) 0) buf ≡ encode ts ++ rest
    → drop off buf
      ≡ encode (
          record {
            cmd = get_or buf off 0;
            val = take (get_or buf (off + 1) 0) (drop (off + 2) buf);
          }
          ∷ ts)
        ++ rest
entry_whole buf off ts rest fits ih =
    let len = get_or buf (off + 1) 0 in
    let val = take len (drop (off + 2) buf) in
    let size : length val ≡ len =
      omega (arith, length-take len (drop (off + 2) buf), length-drop (off + 2) buf) in
    let cmd : get_or (drop off buf) 0 0 ≡ get_or buf off 0 =
      get_or-drop off buf 0 ∙ get_or-at buf (off + 0) off (omega arith) in
    let behind : drop 2 (drop off buf) ≡ val ++ encode ts ++ rest =
      drop-drop off 2 buf
      ∙ sym (take-append-drop len (drop (off + 2) buf))
      ∙ ap (λ r. val ++ r) (drop-drop (off + 2) len buf ∙ ih)
      ∙ sym (append_assoc val (encode ts) rest) in
    two_head (drop off buf) (omega (arith, length-drop off buf))
    ∙ cons_twice cmd (get_or-drop off buf 1 ∙ sym size) behind

entries_from-Walked :
    (fuel : ℕ) (buf : List ℕ) (off : ℕ)
    → length buf - off < fuel
    → Walked (drop off buf) (entries_from fuel buf off)
unfolding entries_from entry_then tlv_next
entries_from-Walked zero buf off h = absurd (omega arith)
entries_from-Walked (suc fuel) buf off h =
    let len = get_or buf (off + 1) 0 in
    elim (Bool-cases (leb (length buf) off)) [
      | inl past ↦ rw past (record {
        rest = drop off buf;
        whole = refl;
        stuck = ground (arith, past, length-drop off buf);
      })
      | inr more ↦ elim (Bool-cases (ltb (length buf - off) 2 || ltb (length buf - off - 2) len)) [
        | inl cut ↦
            rw (more, cut)
              (record {
                rest = drop off buf;
                whole = refl;
                stuck = rw (length-drop off buf, get_or-drop off buf 1) cut;
              })
        | inr fits ↦
            let w = entries_from-Walked fuel buf (off + 2 + len) (ground (arith, more, fits)) in
            rw (more, fits)
              (record {
                rest = w.rest;
                whole =
                    entry_whole buf off (entries_from fuel buf (off + 2 + len)) w.rest
                      (ground (arith, more, fits)) w.whole;
                stuck = w.stuck;
              })
      ]
    ]

-- For any buffer, the loop over p2p_tlv_next sees the entries whose encodings the buffer starts with,
-- one behind the other, and ends only where no whole entry is left.
pub entries-Walked : (buf : List ℕ) → Walked buf (entries buf)
unfolding entries
entries-Walked buf = entries_from-Walked (length buf + 1) buf 0 (omega arith)
