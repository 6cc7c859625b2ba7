-- ===== src/Ccm/Cmac.antt =====
-- `app_ccm_cmac` against RFC 4493, and `double_gf128` as arithmetic on the big-endian number.
use sticker_firmware.Base.{
  ℕ, zero, suc, ◌+◌, ◌-◌, ◌*◌, ◌≤◌, ◌<◌, ◌≡◌, ◌⊎◌, sym, ap, ◌∙◌, List, [], ◌∷◌, ◌++◌, arith,
  append_assoc, length, take, drop, set, replicate, take-drop_piece, take_all, take-append-drop,
  length-append, length-take, length-drop, if◌then◌else◌, ◌==◌, inl,
}
use sticker_firmware.Ccm.{
  zero_padded, xor16, cbc_step, cmac_loop, cmac, double_gf128, n_blocks, last_full,
}
use sticker_firmware.Ccm.Mac.{absorb, blocks, blocks-take, blocks-nil}

-- The subkeys of RFC 4493.
abbrev pub subkey : (List ℕ → List ℕ) → List ℕ
subkey encrypt = double_gf128 (encrypt (replicate 16 0))

-- The last block: whole and masked with K1, or padded with 10...0 and masked with K2.
abbrev pub last_block : List ℕ → List ℕ → List ℕ
last_block k1 last =
    if length last == 16
    then xor16 last k1
    else xor16 (set (zero_padded last) (length last) 0x80) (double_gf128 k1)

n_blocks_lem : (j l : ℕ) → l ≤ 16 → (0 < l) ⊎ (j ≡ 0) → n_blocks (j * 16 + l) - 1 ≡ j
unfolding n_blocks
n_blocks_lem j l h some_left = ground arith

last_full_lem : (j l : ℕ) → l ≤ 16 → (0 < l) ⊎ (j ≡ 0) → last_full (j * 16 + l) ≡ (l == 16)
unfolding last_full
last_full_lem j l h some_left = ground arith

module _ (encrypt_block : List ℕ → List ℕ → List ℕ) (key : List ℕ) where
  cmac_loop_lem :
      (n i : ℕ) (x pre init last : List ℕ)
      → length pre ≡ i * 16
      → length init ≡ n * 16
      → cmac_loop encrypt_block key n i x (pre ++ (init ++ last))
        ≡ absorb encrypt_block key x (blocks init)
  unfolding cmac_loop
  cmac_loop_lem zero i x pre [] last h k = ap (absorb encrypt_block key x) (sym blocks-nil)
  cmac_loop_lem zero i x pre (b ∷ init) last h k = absurd (omega arith)
  cmac_loop_lem (suc n) i x pre init last h k =
      rw (dropped, taken)
        (rw regroup (
            cmac_loop_lem n (i + 1) (cbc_step encrypt_block key x (take 16 init))
              (pre ++ take 16 init) (drop 16 init) last
              (omega (arith, length-append pre (take 16 init), whole))
              (omega (arith, length-drop 16 init)))
          ∙ ap (absorb encrypt_block key x) (sym (blocks-take init (omega arith))))
    where
      whole : length (take 16 init) ≡ 16
      whole = omega (arith, length-take 16 init)

      dropped : drop (i * 16) (pre ++ (init ++ last)) ≡ init ++ last
      dropped = (take-drop_piece (i * 16) pre (init ++ last) (omega arith) (inl h)).1

      split : init ++ last ≡ take 16 init ++ (drop 16 init ++ last)
      split =
          ap (λ t. t ++ last) (sym (take-append-drop 16 init))
          ∙ append_assoc (take 16 init) (drop 16 init) last

      taken : take 16 (init ++ last) ≡ take 16 init
      taken =
          ap (take 16) split
          ∙ (take-drop_piece 16 (take 16 init) (drop 16 init ++ last) (omega (arith, whole))
              (inl whole)).0

      regroup : pre ++ (init ++ last) ≡ (pre ++ take 16 init) ++ (drop 16 init ++ last)
      regroup =
          ap (λ t. pre ++ t) split ∙ sym (append_assoc pre (take 16 init) (drop 16 init ++ last))

  -- RFC 4493: with the message cut into whole blocks and a last piece of at most 16 bytes, which is
  -- empty only if the whole message is, the CMAC is the encryption of the last block mixed into the
  -- CBC chain of the blocks before it.
  pub cmac_lem :
      (j : ℕ) (init last : List ℕ)
      → length init ≡ j * 16
      → length last ≤ 16
      → (0 < length last) ⊎ (j ≡ 0)
      → cmac encrypt_block key (init ++ last)
        ≡ cbc_step encrypt_block key
            (absorb encrypt_block key (replicate 16 0) (blocks init))
            (last_block (subkey (encrypt_block key)) last)
  unfolding cmac
  cmac_lem j init last h fits some_left = rw (size, counted, full, tail, loop, short, left)
    where
      size : length (init ++ last) ≡ j * 16 + length last
      size = omega (arith, length-append init last)

      counted : n_blocks (j * 16 + length last) - 1 ≡ j
      counted = n_blocks_lem j (length last) fits some_left

      full : last_full (j * 16 + length last) ≡ (length last == 16)
      full = last_full_lem j (length last) fits some_left

      tail : drop (j * 16) (init ++ last) ≡ last
      tail = (take-drop_piece (j * 16) init last (omega arith) (inl h)).1

      loop :
          cmac_loop encrypt_block key j 0 (replicate 16 0) (init ++ last)
          ≡ absorb encrypt_block key (replicate 16 0) (blocks init)
      loop = cmac_loop_lem j 0 (replicate 16 0) [] init last (omega arith) h

      short : take 16 last ≡ last
      short = take_all 16 last fits

      left : j * 16 + length last - j * 16 ≡ length last
      left = omega arith
