-- ===== src/Ccm/Auth.antt =====
-- What `app_ccm_auth_decrypt` accepts: exactly what `app_ccm_encrypt_and_tag` makes.
use sticker_firmware.Base.{
  ℕ, zero, suc, ◌+◌, ◌-◌, ◌≤◌, ◌≡◌, ◌↔◌, ◌≢◌, refl, ap₂, true, List, [], ◌∷◌, arith, length, take,
  replicate, set, bit_xor, bit_or, bit_xor_self, eq_of_bit_xor, bit_or-eq-zero, length-take,
  Bool-cases, inl, inr, ok, fail, Errno, drop,
}
use sticker_firmware.Ccm.{
  xor16, ctr_crypt, ctr_keystream, ccm_tag, params_ok, tag_diff, encrypt_and_tag, auth_decrypt,
  cbc_mac, cbc_step, aad_loop, msg_loop, format_block, b0_flags, zero_padded,
}
use sticker_firmware.Ccm.RoundTrip.{length-xor_prefix, length-ctr_crypt, ctr_crypt-ctr_crypt}

tag_diff_self : (xs : List ℕ) → tag_diff 0 xs xs ≡ 0
unfolding tag_diff
tag_diff_self [] = refl
tag_diff_self (x ∷ xs) = rw bit_xor_self (tag_diff_self xs)

eq_of_tag_diff :
    (d : ℕ) (xs ys : List ℕ) → length xs ≡ length ys → tag_diff d xs ys ≡ 0 → (d ≡ 0) × (xs ≡ ys)
unfolding tag_diff
eq_of_tag_diff d [] [] e h = (h, refl)
eq_of_tag_diff d [] (y ∷ ys) e h = absurd (omega arith)
eq_of_tag_diff d (x ∷ xs) [] e h = absurd (omega arith)
eq_of_tag_diff d (x ∷ xs) (y ∷ ys) e h =
    let (z, tail) = eq_of_tag_diff (bit_or d (bit_xor x y)) xs ys (omega arith) h in
    let (dz, diff) = bit_or-eq-zero d (bit_xor x y) z in (dz, ap₂ ◌∷◌ (eq_of_bit_xor x y diff) tail)

params_ok-tag_le : (n a t : ℕ) → params_ok n a t ≡ true → t ≤ 16
unfolding params_ok
params_ok-tag_le n a t h = ground arith

module _ (encrypt_block : List ℕ → List ℕ → List ℕ) (key : List ℕ)
    (block_size : (b : List ℕ) → length (encrypt_block key b) ≡ 16) where
  length-aad_loop :
      (x block : List ℕ) (bl : ℕ) (aad : List ℕ)
      → length x ≡ 16
      → length (aad_loop encrypt_block key x block bl aad) ≡ 16
  unfolding aad_loop cbc_step
  length-aad_loop x block bl [] h = ground (arith, block_size (xor16 x block))
  length-aad_loop x block bl (a ∷ aad) h = ground (
    arith,
    block_size (xor16 x (set block bl a)),
    length-aad_loop x (set block bl a) (bl + 1) aad h,
    length-aad_loop (cbc_step encrypt_block key x (set block bl a)) (replicate 16 0) 0 aad
        (block_size (xor16 x (set block bl a))),
  )

  length-msg_loop :
      (n : ℕ) (x msg : List ℕ) → length x ≡ 16 → length (msg_loop encrypt_block key n x msg) ≡ 16
  unfolding msg_loop cbc_step
  length-msg_loop zero x msg h = h
  length-msg_loop (suc n) x msg h = ground (
    arith,
    block_size (xor16 x (take 16 msg)),
    block_size (xor16 x (zero_padded msg)),
    length-msg_loop n (cbc_step encrypt_block key x (take 16 msg)) (drop 16 msg),
  )

  length-cbc_mac :
      (x aad msg : List ℕ) → length x ≡ 16 → length (cbc_mac encrypt_block key x aad msg) ≡ 16
  unfolding cbc_mac
  length-cbc_mac x aad msg h = length-msg_loop _ _ msg (length-aad_loop x _ 2 aad h)

  pub length-ccm_tag :
      (nonce aad msg : List ℕ) (n : ℕ)
      → n ≤ 16
      → length (ccm_tag encrypt_block key nonce aad msg n) ≡ n
  unfolding ccm_tag
  length-ccm_tag nonce aad msg n h = omega (
    arith,
    length-xor_prefix (take n (cbc_mac encrypt_block key (encrypt_block key b0) aad msg))
        (ctr_keystream encrypt_block key nonce 0),
    length-take n (cbc_mac encrypt_block key (encrypt_block key b0) aad msg),
    length-cbc_mac (encrypt_block key b0) aad msg (block_size b0),
  )
    where
      b0 : List ℕ
      b0 = format_block (b0_flags n (15 - length nonce)) nonce (length msg)

  pub length-encrypt_and_tag :
      (nonce aad pt ct tag : List ℕ) (n : ℕ)
      → encrypt_and_tag encrypt_block key nonce aad pt n [] [] ≡ (ok, ct, tag)
      → (length ct ≡ length pt) × (length tag ≡ n)
  unfolding encrypt_and_tag
  length-encrypt_and_tag nonce aad pt ct tag n e =
      elim (Bool-cases (params_ok (length nonce) (length aad) n)) [
        | inl good ↦ ground (
          arith,
          good,
          length-ctr_crypt encrypt_block key nonce pt,
          length-ccm_tag nonce aad pt n (params_ok-tag_le _ _ _ good),
        )
        | inr bad ↦ absurd (ground (arith, bad))
      ]

  -- Decryption accepts a ciphertext and tag and returns `p` exactly when encrypting `p` under the
  -- same key, nonce and additional data makes that ciphertext and that tag.
  pub auth_decrypt_iff :
      (nonce aad ct tag pt p ct_buf tag_buf : List ℕ)
      → (auth_decrypt encrypt_block key nonce aad ct tag pt ≡ (ok, p)) ↔ (
          encrypt_and_tag encrypt_block key nonce aad p (length tag) ct_buf tag_buf ≡ (ok, ct, tag))
  unfolding auth_decrypt encrypt_and_tag
  auth_decrypt_iff nonce aad ct tag pt p ct_buf tag_buf =
      elim (Bool-cases (params_ok (length nonce) (length aad) (length tag))) [
        | inl good ↦ (
          λ h. ground (
            arith,
            good,
            eq_of_tag_diff 0
                (ccm_tag encrypt_block key nonce aad (ctr_crypt encrypt_block key nonce ct)
                  (length tag))
                tag (same_length good (ctr_crypt encrypt_block key nonce ct)),
            ctr_crypt-ctr_crypt encrypt_block key nonce ct,
          ),
          λ h.
              ground
                (arith, good, tag_diff_self tag, ctr_crypt-ctr_crypt encrypt_block key nonce p),
        )
        | inr bad ↦ rw bad ((λ h. cc), λ h. cc)
      ]
    where
      same_length :
          params_ok (length nonce) (length aad) (length tag) ≡ true
          → (m : List ℕ) → length (ccm_tag encrypt_block key nonce aad m (length tag)) ≡ length tag
      same_length good m = length-ccm_tag nonce aad m (length tag) (params_ok-tag_le _ _ _ good)

  -- A tag that the check refuses gives -EBADMSG, and the plaintext buffer holds only zeros.
  pub auth_decrypt_reject :
      (nonce aad ct tag pt : List ℕ)
      → params_ok (length nonce) (length aad) (length tag) ≡ true
      → tag
        ≢ ccm_tag encrypt_block key nonce aad (ctr_crypt encrypt_block key nonce ct) (length tag)
      → auth_decrypt encrypt_block key nonce aad ct tag pt
        ≡ (fail Errno.ebadmsg, replicate (length ct) 0)
  unfolding auth_decrypt
  auth_decrypt_reject nonce aad ct tag pt good bad = ground (
    arith,
    good,
    eq_of_tag_diff 0
        (ccm_tag encrypt_block key nonce aad (ctr_crypt encrypt_block key nonce ct) (length tag))
        tag
        (length-ccm_tag nonce aad (ctr_crypt encrypt_block key nonce ct) (length tag)
          (params_ok-tag_le _ _ _ good)),
  )
