-- ===== src/Ndef/Encode.antt =====
-- The NFC Forum layout of an NDEF message, as an independent description, and the flags of a header.
use sticker_firmware.Base.{
  ℕ, ◌+◌, ◌*◌, ◌/◌, ◌%◌, ◌^◌, ◌<◌, ◌≡◌, refl, arith, Bool, true, false, Option, none, some, List,
  [], ◌∷◌, ◌++◌, length, ◌==◌, ==_iff, bit_and, passes, passes-at, u8,
}
use sticker_firmware.Ndef.{Info, has_flag}

pub record Entry : Type 0 where
  pub tnf : ℕ
  pub begins : Bool  -- the MB flag, which the parser does not read
  pub short : Bool  -- the SR flag: a payload length of one byte
  pub type_bytes : List ℕ
  pub id : Option (List ℕ)
  pub payload : List ℕ

abbrev pub id_bytes : Option (List ℕ) → List ℕ
id_bytes none = []
id_bytes (some b) = b

abbrev pub id_length : Option (List ℕ) → List ℕ
id_length none = []
id_length (some b) = length b ∷ []

abbrev pub has_id : Option (List ℕ) → Bool
has_id none = false
has_id (some b) = true

pub record IsEncodable (e : Entry) : Type 0 where
  pub small_tnf : e.tnf < 8
  pub small_type : length e.type_bytes < 256
  pub small_id : length (id_bytes e.id) < 256
  pub small_payload : length e.payload < 2 ^ 32
  pub short_payload : e.short ≡ true → length e.payload < 256

abbrev bit : Bool → ℕ
bit true = 1
bit false = 0

pub header : Bool → Entry → ℕ
header ends e =
    bit e.begins * 128 + bit ends * 64 + bit e.short * 16 + bit (has_id e.id) * 8 + e.tnf

abbrev pub payload_length : Bool → ℕ → List ℕ
payload_length true n = n ∷ []
payload_length false n = u8 (n / 2 ^ 24) ∷ u8 (n / 2 ^ 16) ∷ u8 (n / 2 ^ 8) ∷ u8 n ∷ []

-- A record behind its header and its type length.
abbrev pub encode_tail : Entry → List ℕ
encode_tail e =
    payload_length e.short (length e.payload)
    ++ (id_length e.id ++ (e.type_bytes ++ (id_bytes e.id ++ e.payload)))

-- `ends` is the ME flag.
abbrev pub encode_record : Bool → Entry → List ℕ
encode_record ends e = header ends e ∷ length e.type_bytes ∷ encode_tail e

abbrev pub info : Entry → Info
info e = record {
  tnf = e.tnf;
  type_len = length e.type_bytes;
  type_bytes = e.type_bytes;
  payload_len = length e.payload;
  payload = e.payload;
}

flags_table : passes 256 (λ h. bit_and h 0x40 == h / 64 % 2 * 64) ≡ true
unfolding passes
flags_table = refl

cf_table : passes 256 (λ h. bit_and h 0x20 == h / 32 % 2 * 32) ≡ true
unfolding passes
cf_table = refl

sr_table : passes 256 (λ h. bit_and h 0x10 == h / 16 % 2 * 16) ≡ true
unfolding passes
sr_table = refl

il_table : passes 256 (λ h. bit_and h 0x08 == h / 8 % 2 * 8) ≡ true
unfolding passes
il_table = refl

tnf_table : passes 256 (λ h. bit_and h 0x07 == h % 8) ≡ true
unfolding passes
tnf_table = refl

-- The flags and the TNF of a byte, as digits of the number.
flag_digits :
    (h : ℕ)
    → h < 256
    → (bit_and h 0x40 ≡ h / 64 % 2 * 64)
      × (bit_and h 0x20 ≡ h / 32 % 2 * 32)
      × (bit_and h 0x10 ≡ h / 16 % 2 * 16)
      × (bit_and h 0x08 ≡ h / 8 % 2 * 8)
      × (bit_and h 0x07 ≡ h % 8)
flag_digits h small = (
  (==_iff _ _).0 (passes-at _ 256 h small flags_table),
  (==_iff _ _).0 (passes-at _ 256 h small cf_table),
  (==_iff _ _).0 (passes-at _ 256 h small sr_table),
  (==_iff _ _).0 (passes-at _ 256 h small il_table),
  (==_iff _ _).0 (passes-at _ 256 h small tnf_table),
)

-- What the parser reads in a header.
pub header_flags :
    (ends : Bool) (e : Entry)
    → e.tnf < 8
    → (has_flag (header ends e) 0x40 ≡ ends)
      × (has_flag (header ends e) 0x20 ≡ false)
      × (has_flag (header ends e) 0x10 ≡ e.short)
      × (has_flag (header ends e) 0x08 ≡ has_id e.id)
      × (bit_and (header ends e) 0x07 ≡ e.tnf)
unfolding header has_flag
header_flags ends e small = ground (arith, flag_digits (header ends e))
