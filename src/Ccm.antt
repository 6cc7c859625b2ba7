-- ===== src/Ccm.antt =====
-- app/src/app_ccm.c: AES-CCM (RFC 3610) and AES-CMAC (RFC 4493) over a block cipher.
-- The block cipher is the parameter `encrypt_block` (the STM32 AES peripheral, or aes.h of the
-- LoRaMac-node module). A pointer with its length is the list of that length. The mutex `m_lock` only
-- serialises calls, each of which works on its own buffers.
pub mod Mac
pub mod RoundTrip
pub mod Auth
pub mod Cmac
pub mod Double
mod Tests
use sticker_firmware.Base.{
  ℕ, zero, suc, ◌+◌, ◌-◌, ◌*◌, ◌/◌, ◌%◌, ◌^◌, Bool, true, false, ◌&&◌, not, List, [], ◌∷◌, ◌++◌,
  leb, ltb, ◌==◌, if◌then◌else◌, length, get_or, set, take, drop, replicate, u8, u32, bit_xor,
  bit_or, bit_and, min, Ret, ok, fail, Errno,
}

-- AES_BLOCK
abbrev pub aes_block : ℕ
aes_block = 16

-- `dst[i] ^= src[i]` over the bytes of `dst`
unfoldable pub xor_prefix : List ℕ → List ℕ → List ℕ
xor_prefix [] _ = []
xor_prefix (x ∷ xs) [] = x ∷ xor_prefix xs []
xor_prefix (x ∷ xs) (s ∷ ss) = bit_xor x s ∷ xor_prefix xs ss

-- `xor16` on two blocks
unfoldable pub xor16 : List ℕ → List ℕ → List ℕ
xor16 dst src = xor_prefix dst src

-- `memset(block, 0, 16); memcpy(block, src, n)`, n ≤ 16
unfoldable pub zero_padded : List ℕ → List ℕ
zero_padded src = src ++ replicate (aes_block - length src) 0

-- `memcpy(&dst[at], src, len)`
unfoldable pub copy_at : List ℕ → ℕ → List ℕ → List ℕ
copy_at dst at [] = dst
copy_at dst at (x ∷ xs) = copy_at (set dst at x) (at + 1) xs

-- `for (i; i < L && i < 4; i++) a[15 - i] = (uint8_t)(value >> (8 * i))`, with the rounds left
unfoldable pub store_be : ℕ → ℕ → ℕ → List ℕ → List ℕ
store_be zero i value a = a
store_be (suc n) i value a = store_be n (i + 1) value (set a (15 - i) (u8 (value / 2 ^ (8 * i))))

-- The block that starts with `flags`, then the nonce, then `value` in the last L bytes.
unfoldable pub format_block : ℕ → List ℕ → ℕ → List ℕ
format_block flags nonce value =
    let l = 15 - length nonce in
    store_be (min l 4) 0 value (copy_at (set (replicate aes_block 0) 0 flags) 1 nonce)

-- The first byte of B0.
unfoldable pub b0_flags : ℕ → ℕ → ℕ
b0_flags tag_len l = u8 (bit_or (bit_or 0x40 ((tag_len - 2) / 2 * 2 ^ 3)) (l - 1))

-- `double_gf128`: the shift, byte by byte
unfoldable pub shift_left : List ℕ → List ℕ
shift_left [] = []
shift_left (b ∷ []) = u8 (b * 2) ∷ []
shift_left (b ∷ c ∷ bs) = u8 (bit_or (b * 2) (c / 2 ^ 7)) ∷ shift_left (c ∷ bs)

unfoldable pub xor_last : List ℕ → ℕ → List ℕ
xor_last [] k = []
xor_last (b ∷ []) k = bit_xor b k ∷ []
xor_last (b ∷ c ∷ bs) k = b ∷ xor_last (c ∷ bs) k

unfoldable pub double_gf128 : List ℕ → List ℕ
double_gf128 v =
    let msb = bit_and (get_or v 0 0) 0x80 in
    let shifted = shift_left v in if msb == 0 then shifted else xor_last shifted 0x87

unfoldable pub params_ok : ℕ → ℕ → ℕ → Bool
params_ok nonce_len aad_len tag_len =
    leb 7 nonce_len
    && leb nonce_len 13
    && leb 1 aad_len
    && leb aad_len 0xfeff
    && leb 4 tag_len
    && leb tag_len 16
    && (tag_len % 2 == 0)

-- `diff |= expected[i] ^ tag[i]`
unfoldable pub tag_diff : ℕ → List ℕ → List ℕ → ℕ
tag_diff diff (e ∷ es) (t ∷ ts) = tag_diff (bit_or diff (bit_xor e t)) es ts
tag_diff diff [] _ = diff
tag_diff diff (_ ∷ _) [] = diff

-- The block count of `app_ccm_cmac`: an empty message still has one padded block.
unfoldable pub n_blocks : ℕ → ℕ
n_blocks len = let n = (len + aes_block - 1) / aes_block in if n == 0 then 1 else n

-- `last_full`
unfoldable pub last_full : ℕ → Bool
last_full len = not (len == 0) && (len % aes_block == 0)

module _ (encrypt_block : List ℕ → List ℕ → List ℕ) (key : List ℕ) where
  -- X <- E(K, X ^ block)
  unfoldable pub cbc_step : List ℕ → List ℕ → List ℕ
  cbc_step x block = encrypt_block key (xor16 x block)

  -- The AAD loop of `cbc_mac`: MAC state, block buffer, fill index `bl`.
  unfoldable pub aad_loop : List ℕ → List ℕ → ℕ → List ℕ → List ℕ
  aad_loop x block bl [] = if bl == 0 then x else cbc_step x block
  aad_loop x block bl (a ∷ aad) =
      let block' = set block bl a in
      let full = aad_loop (cbc_step x block') (replicate aes_block 0) 0 aad in
      let more = aad_loop x block' (bl + 1) aad in if bl + 1 == aes_block then full else more

  -- The message loop of `cbc_mac` at `&msg[off]`; a round takes a whole block, so the length of
  -- the message bounds the rounds.
  unfoldable pub msg_loop : ℕ → List ℕ → List ℕ → List ℕ
  msg_loop zero x msg = x
  msg_loop (suc n) x msg =
      let rest = msg_loop n (cbc_step x (take aes_block msg)) (drop aes_block msg) in
      if leb aes_block (length msg)
      then rest
      else if ltb 0 (length msg)
      then cbc_step x (zero_padded msg)
      else x

  unfoldable pub cbc_mac : List ℕ → List ℕ → List ℕ → List ℕ
  cbc_mac x aad msg =
      let len = length aad in
      let block = set (set (replicate aes_block 0) 0 (u8 (len / 2 ^ 8))) 1 (u8 len) in
      msg_loop (length msg + 1) (aad_loop x block 2 aad) msg

  unfoldable pub ctr_keystream : List ℕ → ℕ → List ℕ
  ctr_keystream nonce counter =
      encrypt_block key (format_block (u8 (15 - length nonce - 1)) nonce counter)

  -- A round takes at least one byte, so the length bounds the rounds; `counter` is `uint32_t`.
  unfoldable pub ctr_loop : ℕ → List ℕ → ℕ → List ℕ → List ℕ
  ctr_loop zero nonce counter input = []
  ctr_loop (suc n) nonce counter input =
      let rest = ctr_loop n nonce (u32 (counter + 1)) (drop aes_block input) in
      if ltb 0 (length input)
      then xor_prefix (take aes_block input) (ctr_keystream nonce counter) ++ rest
      else []

  unfoldable pub ctr_crypt : List ℕ → List ℕ → List ℕ
  ctr_crypt nonce input = ctr_loop (length input) nonce 1 input

  unfoldable pub ccm_tag : List ℕ → List ℕ → List ℕ → ℕ → List ℕ
  ccm_tag nonce aad msg tag_len =
      let b0 = format_block (b0_flags tag_len (15 - length nonce)) nonce (length msg) in
      let x = cbc_mac (encrypt_block key b0) aad msg in
      xor_prefix (take tag_len x) (ctr_keystream nonce 0)

  -- `app_ccm_encrypt_and_tag`: status, ciphertext and tag; on error neither buffer is written.
  pub encrypt_and_tag : List ℕ → List ℕ → List ℕ → ℕ → List ℕ → List ℕ → Ret × List ℕ × List ℕ
  encrypt_and_tag nonce aad pt tag_len ct tag =
      if not (params_ok (length nonce) (length aad) tag_len)
      then (fail Errno.einval, ct, tag)
      else (ok, ctr_crypt nonce pt, ccm_tag nonce aad pt tag_len)

  -- `app_ccm_auth_decrypt`: status and the plaintext buffer, `pt` before the call.
  unfoldable pub auth_decrypt : List ℕ → List ℕ → List ℕ → List ℕ → List ℕ → Ret × List ℕ
  auth_decrypt nonce aad ct tag pt =
      if not (params_ok (length nonce) (length aad) (length tag))
      then (fail Errno.einval, pt)
      else (let plain = ctr_crypt nonce ct in
          let expected = ccm_tag nonce aad plain (length tag) in
          if tag_diff 0 expected tag == 0
          then (ok, plain)
          else (fail Errno.ebadmsg, replicate (length ct) 0))

  -- The block loop of `app_ccm_cmac`: `i + 1 < n_blocks`, with the rounds left.
  unfoldable pub cmac_loop : ℕ → ℕ → List ℕ → List ℕ → List ℕ
  cmac_loop zero i x msg = x
  cmac_loop (suc n) i x msg =
      cmac_loop n (i + 1) (cbc_step x (take aes_block (drop (i * aes_block) msg))) msg

  unfoldable pub cmac : List ℕ → List ℕ
  cmac msg =
      let len = length msg in
      let n = n_blocks len in
      let k1 = double_gf128 (encrypt_block key (replicate aes_block 0)) in
      let k2 = double_gf128 k1 in
      let x = cmac_loop (n - 1) 0 (replicate aes_block 0) msg in
      let last_off = (n - 1) * aes_block in
      let last_len = len - last_off in
      let tail = drop last_off msg in
      cbc_step x (
        if last_full len
        then xor16 (take aes_block tail) k1
        else xor16 (set (zero_padded tail) last_len 0x80) k2)
