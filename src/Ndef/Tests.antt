-- ===== src/Ndef/Tests.antt =====
-- The NDEF parser at concrete messages.
use sticker_firmware.Base.{
  ℕ, ◌+◌, ◌≡◌, ◌≢◌, refl, arith, true, false, none, some, [], ◌∷◌, ◌++◌, length, Errno,
}
use sticker_firmware.Ndef.{
  Info, done, failed, exhausted, run, parse_found, records_loop, find_message, skip_cc,
  advance_buffer, read_tlv, read_tlv_length, read_record, has_flag,
}
use sticker_firmware.Ndef.Total.{run_ends}
use sticker_firmware.Ndef.Encode.{Entry}
use sticker_firmware.Ndef.RoundTrip.{accept_all, encode_message, tlv_length, run_lem}

-- The callback counts the payload bytes.
abbrev add_payload : ℕ → Info → ℕ
add_payload n i = n + i.payload_len

abbrev text : Entry
text = record {
  tnf = 1;
  begins = true;
  short = true;
  type_bytes = 84 ∷ [];
  id = some (7 ∷ 8 ∷ []);
  payload = 2 ∷ 101 ∷ 110 ∷ [];
}

abbrev long : Entry
long = record {
  tnf = 2;
  begins = false;
  short = false;
  type_bytes = [];
  id = none;
  payload = 9 ∷ [];
}

-- A chunked record is refused.
chunked : run (accept_all add_payload) (3 ∷ 3 ∷ 0xb1 ∷ 0 ∷ 0 ∷ []) 0 ≡ (failed Errno.enotsup, 0)
unfolding run parse_found records_loop find_message skip_cc advance_buffer read_tlv read_tlv_length
    read_record has_flag
chunked = refl

run_ends_example : (run (accept_all add_payload) (3 ∷ 3 ∷ 0xb1 ∷ 0 ∷ 0 ∷ []) 0).0 ≢ exhausted
run_ends_example = run_ends (accept_all add_payload) (3 ∷ 3 ∷ 0xb1 ∷ 0 ∷ 0 ∷ []) 0

run_lem_example :
    run
      (accept_all add_payload)
      (0xe1
        ∷ 0x40
        ∷ 0x40
        ∷ 0
        ∷ 3
        ∷ (tlv_length (length (encode_message (text ∷ long ∷ [])))
            ++ (encode_message (text ∷ long ∷ []) ++ 0xfe ∷ [])))
      0
    ≡ (done, 4)
run_lem_example =
    run_lem add_payload 0x40 0x40 0 (text ∷ long ∷ []) (0xfe ∷ []) 0 (omega arith) (omega arith)
      (grind arith)
