-- ===== src/Ndef/RoundTrip.antt =====
-- A message laid out as the NFC Forum says is parsed into its records, in order.
use sticker_firmware.Base.{
  ℕ, zero, suc, ◌+◌, ◌*◌, ◌/◌, ◌^◌, ◌<◌, ◌≡◌, ◌≢◌, refl, sym, ap, ◌∙◌, arith, Bool, true, false,
  Option, none, some, List, [], ◌∷◌, ◌++◌, length, ltb, ltb→lt, inl, inr, Bool-cases, if◌then◌else◌,
  u8, take-append, drop-append, append_assoc, append-nil, length-append,
}
use native.Mathlib.Numerals.{add-one}
use sticker_firmware.Ndef.{
  Info, done, parsed, value, message, advance_buffer, read_tlv_length, read_tlv, skip_cc,
  find_message, read_fields, read_id, read_payload_len, read_record, has_flag, deliver,
  records_loop, parse_found, run,
}
use sticker_firmware.Ndef.Encode.{
  Entry, IsEncodable, header, header_flags, info, id_bytes, id_length, has_id, payload_length,
  encode_tail, encode_record,
}

advance-append : (xs ys : List ℕ) → advance_buffer (xs ++ ys) (length xs) ≡ some ys
unfolding advance_buffer
advance-append xs ys = ground (arith, length-append xs ys, drop-append xs ys)

read_fields_lem :
    (tnf : ℕ) (t i p rest : List ℕ)
    → read_fields tnf (length t) (length p) (length i) (t ++ (i ++ (p ++ rest)))
      ≡ parsed
          (record {
            tnf = tnf;
            type_len = length t;
            type_bytes = t;
            payload_len = length p;
            payload = p;
          })
          rest
unfolding read_fields
read_fields_lem tnf t i p rest = ground (
  arith,
  advance-append t (i ++ (p ++ rest)),
  advance-append i (p ++ rest),
  advance-append p rest,
  take-append t (i ++ (p ++ rest)),
  take-append p rest,
)

read_id_absent :
    (h tnf tl pl : ℕ) (bytes : List ℕ)
    → has_flag h 8 ≡ false
    → read_id h tnf tl pl bytes ≡ read_fields tnf tl pl 0 bytes
unfolding read_id
read_id_absent h tnf tl pl [] e = rw e
read_id_absent h tnf tl pl (b ∷ bytes) e = rw e

read_id_lem :
    (h tnf : ℕ) (t : List ℕ) (id : Option (List ℕ)) (p rest : List ℕ)
    → has_flag h 8 ≡ has_id id
    → read_id h tnf (length t) (length p) (id_length id ++ (t ++ (id_bytes id ++ (p ++ rest))))
      ≡ parsed
          (record {
            tnf = tnf;
            type_len = length t;
            type_bytes = t;
            payload_len = length p;
            payload = p;
          })
          rest
read_id_lem h tnf t none p rest e =
    read_id_absent h tnf (length t) (length p) (t ++ (p ++ rest)) e
    ∙ read_fields_lem tnf t [] p rest
read_id_lem h tnf t (some i) p rest e = unfold read_id in rw e (read_fields_lem tnf t i p rest)

be32_bytes :
    (n : ℕ)
    → n < 2 ^ 32
    → u8 (n / 2 ^ 24) * 2 ^ 24 + u8 (n / 2 ^ 16) * 2 ^ 16 + u8 (n / 2 ^ 8) * 2 ^ 8 + u8 n ≡ n
be32_bytes n h = omega arith

read_payload_len_lem :
    (h tnf tl n : ℕ) (short : Bool) (bytes : List ℕ)
    → has_flag h 16 ≡ short
    → n < 2 ^ 32
    → read_payload_len h tnf tl (payload_length short n ++ bytes) ≡ read_id h tnf tl n bytes
unfolding read_payload_len
read_payload_len_lem h tnf tl n true bytes e small = rw e
read_payload_len_lem h tnf tl n false bytes e small = rw (e, be32_bytes n small) (ground arith)

assoc_tail :
    (a b c d e rest : List ℕ)
    → (a ++ (b ++ (c ++ (d ++ e)))) ++ rest ≡ a ++ (b ++ (c ++ (d ++ (e ++ rest))))
assoc_tail a b c d e rest = simp append_assoc

-- A record is parsed into what was encoded, and the bytes behind it are left.
read_record-encode :
    (ends : Bool) (e : Entry) (rest : List ℕ)
    → IsEncodable e
    → read_record (header ends e) (length e.type_bytes ∷ (encode_tail e ++ rest))
      ≡ parsed (info e) rest
unfolding read_record
read_record-encode ends e rest good =
    let (me, cf, sr, il, tnf) = header_flags ends e good.small_tnf in
    rw (cf, tnf)
      (ap (read_payload_len (header ends e) e.tnf (length e.type_bytes)) (
          assoc_tail (payload_length e.short (length e.payload)) (id_length e.id) e.type_bytes
            (id_bytes e.id) e.payload rest)
        ∙ read_payload_len_lem (header ends e) e.tnf (length e.type_bytes) (length e.payload)
            e.short _ sr good.small_payload
        ∙ read_id_lem (header ends e) e.tnf e.type_bytes e.id e.payload rest il)

-- A message: its last record has the ME flag.
abbrev pub encode_message : List Entry → List ℕ
encode_message [] = []
encode_message (e ∷ []) = encode_record true e
encode_message (e ∷ f ∷ es) = encode_record false e ++ encode_message (f ∷ es)

abbrev pub AllEncodable : List Entry → Type 0
AllEncodable [] = Unit {0}
AllEncodable (e ∷ es) = IsEncodable e × AllEncodable es

-- The TLV of a message: type 3, then the length in one byte, or in three if it is 255 or more.
abbrev pub tlv_length : ℕ → List ℕ
tlv_length n = if ltb n 255 then n ∷ [] else 0xff ∷ u8 (n / 2 ^ 8) ∷ u8 n ∷ []

read_tlv_short :
    (msg rest : List ℕ) → length msg < 255 → read_tlv (length msg ∷ (msg ++ rest)) ≡ value msg rest
unfolding read_tlv read_tlv_length
read_tlv_short msg rest small =
    ground (arith, length-append msg rest, take-append msg rest, drop-append msg rest)

read_tlv_long :
    (n : ℕ) (msg rest : List ℕ)
    → n ≡ length msg
    → n < 2 ^ 16
    → read_tlv (0xff ∷ u8 (n / 2 ^ 8) ∷ u8 n ∷ (msg ++ rest)) ≡ value msg rest
unfolding read_tlv read_tlv_length
read_tlv_long n msg rest e small =
    let both : u8 (n / 2 ^ 8) * 2 ^ 8 + u8 n ≡ n = omega arith in
    ground (arith, both, length-append msg rest, take-append msg rest, drop-append msg rest)

read_tlv_lem :
    (msg rest : List ℕ)
    → length msg < 2 ^ 16
    → read_tlv (tlv_length (length msg) ++ (msg ++ rest)) ≡ value msg rest
read_tlv_lem msg rest small = elim (Bool-cases (ltb (length msg) 255)) [
  | inl short ↦ rw short (read_tlv_short msg rest (ltb→lt _ _ short))
  | inr long ↦ rw long (read_tlv_long (length msg) msg rest refl small)
]

find_message_lem :
    (n : ℕ) (msg rest : List ℕ)
    → length msg < 2 ^ 16
    → find_message (suc n) (3 ∷ (tlv_length (length msg) ++ (msg ++ rest))) ≡ message msg
find_message_lem n msg rest small = unfold find_message in rw (read_tlv_lem msg rest small)

skip_cc_lem : (a b c : ℕ) (ts : List ℕ) → b ≢ 0 → skip_cc (0xe1 ∷ a ∷ b ∷ c ∷ ts) ≡ some ts
unfolding skip_cc advance_buffer
skip_cc_lem a b c ts h = ground arith

module _ {S : Type 0} (store : S → Info → S) where
  -- A callback that never stops the parser.
  abbrev pub accept_all : Option (S → Info → ℕ × S)
  accept_all = some (λ s i. (0, store s i))

  abbrev pub store_all : S → List Entry → S
  store_all s [] = s
  store_all s (e ∷ es) = store_all (store s (info e)) es

  records_loop_step :
      (n h : ℕ) (bytes : List ℕ) (s : S) (i : Info) (rest : List ℕ)
      → read_record h bytes ≡ parsed i rest
      → records_loop accept_all (suc n) (h ∷ bytes) s
        ≡ (if has_flag h 64 then (done, store s i) else records_loop accept_all n rest (store s i))
  unfolding records_loop deliver
  records_loop_step n h bytes s i rest e = rw (e, records_loop)

  records_loop_lem :
      (n : ℕ) (es : List Entry) (s : S)
      → length (encode_message es) < n
      → AllEncodable es
      → records_loop accept_all n (encode_message es) s ≡ (done, store_all s es)
  records_loop_lem zero es s h good = absurd (omega arith)
  records_loop_lem (suc n) [] s h good = unfold records_loop in refl
  records_loop_lem (suc n) (e ∷ []) s h good =
      records_loop_step n (header true e) (length e.type_bytes ∷ encode_tail e) s (info e) [] (
        ap (λ t. read_record (header true e) (length e.type_bytes ∷ t))
          (sym (append-nil (encode_tail e)))
        ∙ read_record-encode true e [] good.0)
      ∙ rw (header_flags true e good.0.small_tnf).0
  records_loop_lem (suc n) (e ∷ f ∷ es) s h good =
      records_loop_step n (header false e)
        (length e.type_bytes ∷ (encode_tail e ++ encode_message (f ∷ es))) s (info e)
        (encode_message (f ∷ es)) (read_record-encode false e (encode_message (f ∷ es)) good.0)
      ∙ rw (header_flags false e good.0.small_tnf).0 (
          records_loop_lem n (f ∷ es) (store s (info e))
            (omega (arith, length-append (encode_tail e) (encode_message (f ∷ es)))) good.1)

  -- Behind a Capability Container of four bytes, the TLV of a message laid out by the NFC Forum's
  -- rules is parsed to its end: the callback takes every record, in order, with its type and
  -- payload, whatever follows the message.
  pub run_lem :
      (cc1 cc2 cc3 : ℕ) (es : List Entry) (rest : List ℕ) (s : S)
      → cc2 ≢ 0
      → length (encode_message es) < 2 ^ 16
      → AllEncodable es
      → run accept_all
          (0xe1
            ∷ cc1
            ∷ cc2
            ∷ cc3
            ∷ 3
            ∷ (tlv_length (length (encode_message es)) ++ (encode_message es ++ rest)))
          s
        ≡ (done, store_all s es)
  unfolding run
  run_lem cc1 cc2 cc3 es rest s magic small good =
      run_skip (tlv_length (length (encode_message es)) ++ (encode_message es ++ rest))
      ∙ ap (λ f. parse_found accept_all f s) (find_message_lem _ (encode_message es) rest small)
      ∙ parse_message
    where
      run_skip :
          (ts : List ℕ)
          → run accept_all (0xe1 ∷ cc1 ∷ cc2 ∷ cc3 ∷ 3 ∷ ts) s
            ≡ parse_found accept_all (find_message (suc (suc (length ts))) (3 ∷ ts)) s
      run_skip ts = rw (skip_cc_lem cc1 cc2 cc3 (3 ∷ ts) magic, run, add-one)

      parse_message :
          parse_found accept_all (message (encode_message es)) s ≡ (done, store_all s es)
      parse_message =
          unfold parse_found in
          records_loop_lem (length (encode_message es) + 1) es s (omega arith) good
