-- ===== src/Ndef.antt =====
-- app/src/app_nfc_parser.c: the NDEF parser. A pointer with the bytes left is the list of those
-- bytes; a loop has fuel, one unit for each byte, and `exhausted` is the outcome of a loop that
-- used it up.
pub mod Total
pub mod Record
pub mod RoundTrip
pub mod Encode
mod Tests
use sticker_firmware.Base.{
  ℕ, zero, suc, ◌+◌, ◌*◌, ◌^◌, Bool, true, false, not, ◌&&◌, ◌||◌, Option, none, some, List, [],
  ◌∷◌, ltb, leb, ◌==◌, if◌then◌else◌, length, get_or, take, drop, bit_and, get_be16, get_be32,
  Errno,
}

-- `struct app_nfc_parser_record_info`
pub record Info : Type 0 where
  pub tnf : ℕ
  pub type_len : ℕ
  pub type_bytes : List ℕ
  pub payload_len : ℕ
  pub payload : List ℕ

-- What `app_nfc_parser_run` returns: 0, an error, or the nonzero value of the callback.
pub data Outcome : Type 0 where
  done : Outcome
  failed : Errno → Outcome
  stopped : ℕ → Outcome
  exhausted : Outcome

-- `advance_buffer`
pub advance_buffer : List ℕ → ℕ → Option (List ℕ)
advance_buffer buffer step = if ltb (length buffer) step then none else some (drop step buffer)

-- `read_tlv_length`: the length, and the buffer behind the length field
pub read_tlv_length : List ℕ → Option (ℕ × List ℕ)
read_tlv_length [] = none
read_tlv_length (len ∷ buffer) =
    if len == 0xff
    then (if ltb (length buffer) 2 then none else some (get_be16 buffer 0, drop 2 buffer))
    else some (len, buffer)

-- Skips the Capability Container; `none` is -ENOMSG.
pub skip_cc : List ℕ → Option (List ℕ)
skip_cc buffer =
    if leb 4 (length buffer) && (get_or buffer 0 0 == 0xe1 || get_or buffer 0 0 == 0xe2)
    then advance_buffer buffer (if get_or buffer 2 0 == 0 then 8 else 4)
    else some buffer

pub data Found : Type 0 where
  message : List ℕ → Found
  terminator absent out_of_fuel : Found
  broken : Errno → Found

-- One TLV that carries a length, behind its type byte.
pub data Tlv : Type 0 where
  value : List ℕ → List ℕ → Tlv
  bad : Tlv

-- The value bytes of a TLV and the buffer behind them.
pub read_tlv : List ℕ → Tlv
read_tlv buffer = elim (read_tlv_length buffer) [
  | none ↦ bad
  | some (len, rest) ↦ if ltb (length rest) len then bad else value (take len rest) (drop len rest)
]

-- The scan for the NDEF Message TLV.
pub find_message : ℕ → List ℕ → Found
find_message zero buffer = out_of_fuel
find_message (suc n) [] = absent
find_message (suc n) (type ∷ buffer) =
    let padding = find_message n buffer in
    let skipped : Found = elim (read_tlv buffer) [
      | bad ↦ broken Errno.emsgsize
      | value v rest ↦ find_message n rest
    ] in
    let found : Found = elim (read_tlv buffer) [
      | bad ↦ broken Errno.emsgsize
      | value v rest ↦ message v
    ] in
    if type == 0xfe
    then terminator
    else if type == 0
    then padding
    else if type == 3
    then found
    else skipped

-- header & (1 << bit)
pub has_flag : ℕ → ℕ → Bool
has_flag header mask = not (bit_and header mask == 0)

pub data Parsed : Type 0 where
  parsed : Info → List ℕ → Parsed
  invalid : Errno → Parsed

-- TYPE, ID and PAYLOAD, with the lengths already read.
pub read_fields : ℕ → ℕ → ℕ → ℕ → List ℕ → Parsed
read_fields tnf type_len payload_len id_len record0 = elim (advance_buffer record0 type_len) [
  | none ↦ invalid Errno.emsgsize
  | some record1 ↦ elim (advance_buffer record1 id_len) [
    | none ↦ invalid Errno.emsgsize
    | some record2 ↦ elim (advance_buffer record2 payload_len) [
      | none ↦ invalid Errno.emsgsize
      | some record3 ↦
          parsed
            (record {
              tnf = tnf;
              type_len = type_len;
              type_bytes = take type_len record0;
              payload_len = payload_len;
              payload = take payload_len record2;
            })
            record3
    ]
  ]
]

-- ID_LENGTH, if IL is set; else no ID bytes are skipped.
pub read_id : ℕ → ℕ → ℕ → ℕ → List ℕ → Parsed
read_id header tnf type_len payload_len [] =
    if has_flag header 0x08
    then invalid Errno.emsgsize
    else read_fields tnf type_len payload_len 0 []
read_id header tnf type_len payload_len (b ∷ bytes) =
    if has_flag header 0x08
    then read_fields tnf type_len payload_len b bytes
    else read_fields tnf type_len payload_len 0 (b ∷ bytes)

-- PAYLOAD_LENGTH: one byte with SR, else four.
pub read_payload_len : ℕ → ℕ → ℕ → List ℕ → Parsed
read_payload_len header tnf type_len [] = invalid Errno.emsgsize
read_payload_len header tnf type_len (b ∷ bytes) =
    if has_flag header 0x10
    then read_id header tnf type_len b bytes
    else if ltb (length (b ∷ bytes)) 4
    then invalid Errno.emsgsize
    else read_id header tnf type_len (get_be32 (b ∷ bytes) 0) (drop 4 (b ∷ bytes))

-- One record, behind its header byte.
pub read_record : ℕ → List ℕ → Parsed
read_record header [] =
    if has_flag header 0x20 then invalid Errno.enotsup else invalid Errno.emsgsize
read_record header (type_len ∷ bytes) =
    if has_flag header 0x20
    then invalid Errno.enotsup
    else read_payload_len header (bit_and header 0x07) type_len bytes

-- The callback takes the user data and a record, and returns its value and the new user data.
module _ {S : Type 0} (callback : Option (S → Info → ℕ × S)) where
  -- `if (callback) { ret = callback(&info, user_data); ... }`
  pub deliver : S → Info → ℕ × S
  deliver s info = elim callback [ none ↦ (0, s) | some f ↦ f s info ]

  -- The loop over the records of the message.
  pub records_loop : ℕ → List ℕ → S → Outcome × S
  records_loop zero msg s = (exhausted, s)
  records_loop (suc n) [] s = (done, s)
  records_loop (suc n) (header ∷ bytes) s = elim (read_record header bytes) [
    | invalid e ↦ (failed e, s)
    | parsed info rest ↦
        let (ret, s') = deliver s info in
        let more = records_loop n rest s' in
        if not (ret == 0)
        then (stopped ret, s')
        else if has_flag header 0x40
        then (done, s')
        else more
  ]

  -- What follows the scan for the message.
  pub parse_found : Found → S → Outcome × S
  parse_found terminator s = (done, s)
  parse_found absent s = (failed Errno.enomsg, s)
  parse_found out_of_fuel s = (exhausted, s)
  parse_found (broken e) s = (failed e, s)
  parse_found (message m) s = records_loop (length m + 1) m s

  -- `app_nfc_parser_run`
  pub run : List ℕ → S → Outcome × S
  run buffer s = elim (skip_cc buffer) [
    | none ↦ (failed Errno.enomsg, s)
    | some tlvs ↦ parse_found (find_message (length tlvs + 1) tlvs) s
  ]
