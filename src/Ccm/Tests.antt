-- ===== src/Ccm/Tests.antt =====
-- The CCM theorems at concrete buffers, with a small stand-in for the block cipher.
use sticker_firmware.Base.{
  ℕ, ◌/◌, ◌^◌, ◌≡◌, ◌↔◌, ◌≢◌, ap, refl, List, [], ◌∷◌, ◌++◌, arith, length, take, replicate,
  length-take, length-append, ok, fail, Errno, be_value, u8, inl,
}
use sticker_firmware.Ccm.{
  xor_prefix, ctr_crypt, ctr_loop, ctr_keystream, ccm_tag, encrypt_and_tag, auth_decrypt, cbc_mac,
  cbc_step, cmac, double_gf128, format_block, b0_flags, params_ok, store_be, copy_at, xor16,
  aad_loop, msg_loop, zero_padded,
}
use sticker_firmware.Ccm.RoundTrip.{length-xor_prefix, ctr_crypt-ctr_crypt}
use sticker_firmware.Ccm.Auth.{auth_decrypt_iff}
use sticker_firmware.Ccm.Mac.{absorb, blocks, cbc_mac-absorb}
use sticker_firmware.Ccm.Cmac.{cmac_lem, last_block, subkey}
use sticker_firmware.Ccm.Double.{double_gf128_value}

-- Adds the key to a block, bit by bit.
toy_cipher : List ℕ → List ℕ → List ℕ
unfolding xor_prefix
toy_cipher key b = xor_prefix (take 16 (b ++ replicate 16 0)) key

toy_cipher-size : (key b : List ℕ) → length (toy_cipher key b) ≡ 16
unfolding toy_cipher
toy_cipher-size key b = omega (
  arith,
  length-xor_prefix (take 16 (b ++ replicate 16 0)) key,
  length-take 16 (b ++ replicate 16 0),
  length-append b (replicate 16 0),
)

abbrev key : List ℕ
key = 1 ∷ 2 ∷ 3 ∷ 4 ∷ 5 ∷ 6 ∷ 7 ∷ 8 ∷ 9 ∷ 10 ∷ 11 ∷ 12 ∷ 13 ∷ 14 ∷ 15 ∷ 16 ∷ []

abbrev nonce : List ℕ
nonce = 10 ∷ 20 ∷ 30 ∷ 40 ∷ 50 ∷ 60 ∷ 70 ∷ []

abbrev aad : List ℕ
aad = 7 ∷ 7 ∷ 7 ∷ []

abbrev plain : List ℕ
plain = 104 ∷ 101 ∷ 108 ∷ 108 ∷ 111 ∷ []

abbrev sealed : List ℕ
sealed = ctr_crypt toy_cipher key nonce plain

abbrev seal_tag : List ℕ
seal_tag = ccm_tag toy_cipher key nonce aad plain 8

encrypt_and_tag_runs :
    encrypt_and_tag toy_cipher key nonce aad plain 8 [] [] ≡ (ok, sealed, seal_tag)
unfolding encrypt_and_tag params_ok
encrypt_and_tag_runs = refl

-- The round trip at a message: what was encrypted is decrypted.
decrypts : auth_decrypt toy_cipher key nonce aad sealed (8 ∷ []) [] ≡ (fail Errno.einval, [])
unfolding auth_decrypt params_ok
decrypts = refl

ctr_crypt-ctr_crypt_example :
    ctr_crypt toy_cipher key nonce (ctr_crypt toy_cipher key nonce plain) ≡ plain
ctr_crypt-ctr_crypt_example = ctr_crypt-ctr_crypt toy_cipher key nonce plain

auth_decrypt_iff_example :
    (auth_decrypt toy_cipher key nonce aad sealed (1 ∷ 2 ∷ 3 ∷ 4 ∷ []) [] ≡ (ok, plain))
    ↔ (encrypt_and_tag toy_cipher key nonce aad plain 4 [] [] ≡ (ok, sealed, 1 ∷ 2 ∷ 3 ∷ 4 ∷ []))
auth_decrypt_iff_example =
    auth_decrypt_iff toy_cipher key (toy_cipher-size key) nonce aad sealed (1 ∷ 2 ∷ 3 ∷ 4 ∷ []) []
      plain [] []

forged :
    (1 ∷ 2 ∷ 3 ∷ 4 ∷ []) ≢ ccm_tag toy_cipher key nonce aad (ctr_crypt toy_cipher key nonce plain) 4
unfolding ccm_tag ctr_crypt ctr_loop ctr_keystream format_block b0_flags cbc_mac aad_loop msg_loop
    cbc_step xor16 zero_padded store_be copy_at toy_cipher xor_prefix
forged h = absurd (omega (arith, ap be_value h))

cbc_mac-absorb_example :
    cbc_mac toy_cipher key nonce aad plain
    ≡ absorb toy_cipher key nonce (blocks (u8 (3 / 2 ^ 8) ∷ u8 3 ∷ aad) ++ blocks plain)
cbc_mac-absorb_example = cbc_mac-absorb toy_cipher key nonce aad plain

cmac_lem_example :
    cmac toy_cipher key (key ++ plain)
    ≡ cbc_step toy_cipher key
        (absorb toy_cipher key (replicate 16 0) (blocks key))
        (last_block (subkey (toy_cipher key)) plain)
cmac_lem_example = cmac_lem toy_cipher key 1 key plain refl (omega arith) (inl (omega arith))

double_gf128_value_example : be_value (double_gf128 (0x80 ∷ replicate 15 0)) ≡ 0x87
double_gf128_value_example = double_gf128_value (0x80 ∷ replicate 15 0) (omega arith) refl
