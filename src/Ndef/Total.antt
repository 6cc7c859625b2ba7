-- ===== src/Ndef/Total.antt =====
-- The parser always ends, and hands only complete records to its callback.
use sticker_firmware.Base.{
  ℕ, zero, suc, ◌+◌, ◌≤◌, ◌<◌, ◌≡◌, ◌≢◌, ◌⊎◌, refl, arith, Option, List, [], ◌∷◌, length, drop,
  length-drop, get_be16, Errno, inl, inr, Option-cases, Bool, true, false, not, if◌then◌else◌, ◌==◌,
}
use sticker_firmware.Ndef.{
  Info, Parsed, parsed, invalid, Outcome, exhausted, Found, Tlv, value, bad, message, out_of_fuel,
  broken, read_tlv_length, read_tlv, find_message, read_record, deliver, has_flag, records_loop,
  parse_found, run, terminator, absent, skip_cc,
}
use sticker_firmware.Ndef.Record.{read_record-IsInside}

read_tlv-le :
    (buffer v rest : List ℕ) → read_tlv buffer ≡ value v rest → length rest ≤ length buffer
unfolding read_tlv read_tlv_length
read_tlv-le [] v rest h = cc
read_tlv-le (len ∷ buffer) v rest h = ground (
  arith,
  length-drop 2 buffer,
  length-drop len buffer,
  length-drop (get_be16 buffer 0) (drop 2 buffer),
)

Tlv-cases : (t : Tlv) → (t ≡ bad) ⊎ ((v : List ℕ) × (rest : List ℕ) × (t ≡ value v rest))
Tlv-cases bad = inl refl
Tlv-cases (value v rest) = inr (v, rest, refl)

Parsed-cases :
    (p : Parsed)
    → ((e : Errno) × (p ≡ invalid e)) ⊎ ((i : Info) × (rest : List ℕ) × (p ≡ parsed i rest))
Parsed-cases (invalid e) = inl (e, refl)
Parsed-cases (parsed i rest) = inr (i, rest, refl)

find_message_ends :
    (n : ℕ) (buffer : List ℕ) → length buffer < n → find_message n buffer ≢ out_of_fuel
unfolding find_message
find_message_ends zero buffer h = absurd (omega arith)
find_message_ends (suc n) [] h = λ e. cc
find_message_ends (suc n) (type ∷ buffer) h = elim (Tlv-cases (read_tlv buffer)) [
  | inl e ↦ ground (arith, e, find_message_ends n buffer)
  | inr (v, rest, e) ↦
      ground (
        arith,
        e,
        read_tlv-le buffer v rest e,
        find_message_ends n buffer,
        find_message_ends n rest,
      )
]

module _ {S : Type 0} (callback : Option (S → Info → ℕ × S)) where
  records_loop_ends :
      (n : ℕ) (msg : List ℕ) (s : S)
      → length msg < n
      → (records_loop callback n msg s).0 ≢ exhausted
  unfolding records_loop
  records_loop_ends zero msg s h = absurd (omega arith)
  records_loop_ends (suc n) [] s h = λ e. cc
  records_loop_ends (suc n) (header ∷ bytes) s h = elim (Parsed-cases (read_record header bytes)) [
    | inl (e, p) ↦ rw (p, records_loop) (λ q. cc)
    | inr (i, rest, p) ↦
        rw (p, records_loop)
          (λ q. ground (
            arith,
            read_record-IsInside header bytes i rest p,
            records_loop_ends n rest (deliver callback s i).1,
          ))
  ]

  parse_found_ends :
      (f : Found) (s : S) → f ≢ out_of_fuel → (parse_found callback f s).0 ≢ exhausted
  unfolding parse_found
  parse_found_ends terminator s h = λ e. cc
  parse_found_ends absent s h = λ e. cc
  parse_found_ends out_of_fuel s h = absurd (h refl)
  parse_found_ends (broken e) s h = λ e. cc
  parse_found_ends (message m) s h = records_loop_ends (length m + 1) m s (omega arith)

  -- The parser ends on every buffer: its loops never run out of the fuel that the length gives.
  pub run_ends : (buffer : List ℕ) (s : S) → (run callback buffer s).0 ≢ exhausted
  unfolding run
  run_ends buffer s = elim (Option-cases (skip_cc buffer)) [
    | inl e ↦ rw (e, run) (λ q. cc)
    | inr (tlvs, e) ↦
        rw (e, run)
          (parse_found_ends (find_message (length tlvs + 1) tlvs) s
            (find_message_ends (length tlvs + 1) tlvs (omega arith)))
  ]

  -- Whatever holds of the user data, and is kept by the callback on every record whose type and
  -- payload have the lengths given with them, holds at the end.
  module _ (P : S → Type 0)
      (keep : (s : S) (i : Info)
        → length i.type_bytes ≡ i.type_len
        → length i.payload ≡ i.payload_len
        → P s
        → P (deliver callback s i).1) where
    records_loop_keeps : (n : ℕ) (msg : List ℕ) (s : S) → P s → P (records_loop callback n msg s).1
    unfolding records_loop
    records_loop_keeps zero msg s h = h
    records_loop_keeps (suc n) [] s h = h
    records_loop_keeps (suc n) (header ∷ bytes) s h =
        elim (Parsed-cases (read_record header bytes)) [
          | inl (e, p) ↦ rw (p, records_loop) h
          | inr (i, rest, p) ↦
              let inside = read_record-IsInside header bytes i rest p in
              let h' = keep s i inside.whole_type inside.whole_payload h in
              rw (p, records_loop)
                (if-keeps (not ((deliver callback s i).0 == 0)) _ _ h' (
                  if-keeps (has_flag header 64) _ _ h'
                    (records_loop_keeps n rest (deliver callback s i).1 h')))
        ]
      where
        if-keeps : (c : Bool) (p q : Outcome × S) → P p.1 → P q.1 → P (if c then p else q).1
        if-keeps true p q hp hq = hp
        if-keeps false p q hp hq = hq

    parse_found_keeps : (f : Found) (s : S) → P s → P (parse_found callback f s).1
    unfolding parse_found
    parse_found_keeps terminator s h = h
    parse_found_keeps absent s h = h
    parse_found_keeps out_of_fuel s h = h
    parse_found_keeps (broken e) s h = h
    parse_found_keeps (message m) s h = records_loop_keeps (length m + 1) m s h

    pub run_keeps : (buffer : List ℕ) (s : S) → P s → P (run callback buffer s).1
    unfolding run
    run_keeps buffer s h = elim (Option-cases (skip_cc buffer)) [
      | inl e ↦ rw (e, run) h
      | inr (tlvs, e) ↦ rw (e, run) (parse_found_keeps (find_message (length tlvs + 1) tlvs) s h)
    ]
