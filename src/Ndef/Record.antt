-- ===== src/Ndef/Record.antt =====
-- One record: the bytes handed to the callback lie inside the message, and it is used up by them.
use sticker_firmware.Base.{
  ℕ, ◌≤◌, ◌≡◌, arith, List, [], ◌∷◌, length, drop, length-take, length-drop, get_be32, bit_and,
}
use sticker_firmware.Ndef.{
  Info, parsed, advance_buffer, read_fields, read_id, read_payload_len, read_record,
}

-- The type and the payload have the lengths that go with them, and what is left of the message is
-- not longer than `bytes`.
pub record IsInside (bytes : List ℕ) (i : Info) (rest : List ℕ) : Type 0 where
  pub whole_type : length i.type_bytes ≡ i.type_len
  pub whole_payload : length i.payload ≡ i.payload_len
  pub left : length rest ≤ length bytes

read_fields-IsInside :
    (tnf tl pl il : ℕ) (bytes : List ℕ) (i : Info) (rest : List ℕ)
    → read_fields tnf tl pl il bytes ≡ parsed i rest
    → IsInside bytes i rest
unfolding read_fields advance_buffer
read_fields-IsInside tnf tl pl il bytes i rest h = ground (
  arith,
  length-take tl bytes,
  length-take pl (drop il (drop tl bytes)),
  length-drop tl bytes,
  length-drop il (drop tl bytes),
  length-drop pl (drop il (drop tl bytes)),
)

read_id-IsInside :
    (header tnf tl pl : ℕ) (bytes : List ℕ) (i : Info) (rest : List ℕ)
    → read_id header tnf tl pl bytes ≡ parsed i rest
    → IsInside bytes i rest
unfolding read_id
read_id-IsInside header tnf tl pl [] i rest h =
    ground (arith, read_fields-IsInside tnf tl pl 0 [] i rest)
read_id-IsInside header tnf tl pl (b ∷ bytes) i rest h = ground (
  arith,
  read_fields-IsInside tnf tl pl b bytes i rest,
  read_fields-IsInside tnf tl pl 0 (b ∷ bytes) i rest,
)

read_payload_len-IsInside :
    (header tnf tl : ℕ) (bytes : List ℕ) (i : Info) (rest : List ℕ)
    → read_payload_len header tnf tl bytes ≡ parsed i rest
    → IsInside bytes i rest
unfolding read_payload_len
read_payload_len-IsInside header tnf tl [] i rest h = cc
read_payload_len-IsInside header tnf tl (b ∷ bytes) i rest h = ground (
  arith,
  read_id-IsInside header tnf tl b bytes i rest,
  read_id-IsInside header tnf tl (get_be32 (b ∷ bytes) 0) (drop 4 (b ∷ bytes)) i rest,
  length-drop 4 (b ∷ bytes),
)

-- A record that parses is complete, and its bytes come off the front of the message.
pub read_record-IsInside :
    (header : ℕ) (bytes : List ℕ) (i : Info) (rest : List ℕ)
    → read_record header bytes ≡ parsed i rest
    → IsInside bytes i rest
unfolding read_record
read_record-IsInside header [] i rest h = ground arith
read_record-IsInside header (tl ∷ bytes) i rest h =
    ground (arith, read_payload_len-IsInside header (bit_and header 7) tl bytes i rest)
