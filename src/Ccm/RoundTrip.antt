-- ===== src/Ccm/RoundTrip.antt =====
-- Counter mode undoes itself, so decryption gives back what encryption took, and nothing else
-- passes the tag check.
use sticker_firmware.Base.{
  ℕ, zero, suc, ◌+◌, ◌≤◌, ◌<◌, ◌≡◌, ◌⊎◌, refl, ap, ap₂, ◌∙◌, List, [], ◌∷◌, ◌++◌, arith, lt→ltb,
  length, take, drop, u32, bit_xor_cancel, take-append-drop, take-drop_piece, dec_lt, length-append,
  length-take, length-drop, inl, inr, min, drop_all,
}
use sticker_firmware.Ccm.{xor_prefix, ctr_loop, ctr_crypt, ctr_keystream}

pub length-xor_prefix : (xs ss : List ℕ) → length (xor_prefix xs ss) ≡ length xs
unfolding xor_prefix
length-xor_prefix [] ss = refl
length-xor_prefix (x ∷ xs) [] = ap suc (length-xor_prefix xs [])
length-xor_prefix (x ∷ xs) (s ∷ ss) = ap suc (length-xor_prefix xs ss)

xor_prefix_cancel : (xs ss : List ℕ) → xor_prefix (xor_prefix xs ss) ss ≡ xs
unfolding xor_prefix
xor_prefix_cancel [] ss = refl
xor_prefix_cancel (x ∷ xs) [] = ap (λ t. x ∷ t) (xor_prefix_cancel xs [])
xor_prefix_cancel (x ∷ xs) (s ∷ ss) = ap₂ ◌∷◌ (bit_xor_cancel x s) (xor_prefix_cancel xs ss)

module _ (encrypt_block : List ℕ → List ℕ → List ℕ) (key : List ℕ) where
  ctr_loop-nil : (n : ℕ) (nonce : List ℕ) (c : ℕ) → ctr_loop encrypt_block key n nonce c [] ≡ []
  unfolding ctr_loop
  ctr_loop-nil zero nonce c = refl
  ctr_loop-nil (suc n) nonce c = refl

  -- one round, on a message that is not empty
  ctr_loop-suc :
      (n : ℕ) (nonce : List ℕ) (c : ℕ) (xs : List ℕ)
      → 0 < length xs
      → ctr_loop encrypt_block key (suc n) nonce c xs
        ≡ xor_prefix (take 16 xs) (ctr_keystream encrypt_block key nonce c)
          ++ ctr_loop encrypt_block key n nonce (u32 (c + 1)) (drop 16 xs)
  unfolding ctr_loop
  ctr_loop-suc n nonce c xs h = rw (lt→ltb 0 (length xs) h)

  length-ctr_loop :
      (n : ℕ) (nonce : List ℕ) (c : ℕ) (xs : List ℕ)
      → length xs ≤ n
      → length (ctr_loop encrypt_block key n nonce c xs) ≡ length xs
  length-ctr_loop zero nonce c [] h = ap length (ctr_loop-nil 0 nonce c)
  length-ctr_loop zero nonce c (x ∷ xs) h = absurd (omega arith)
  length-ctr_loop (suc n) nonce c [] h = ap length (ctr_loop-nil (suc n) nonce c)
  length-ctr_loop (suc n) nonce c (x ∷ xs) h = rw (ctr_loop-suc n nonce c (x ∷ xs) (omega arith)) (
      omega (
        arith,
        length-append (xor_prefix (take 16 (x ∷ xs)) (ctr_keystream encrypt_block key nonce c))
            (ctr_loop encrypt_block key n nonce (u32 (c + 1)) (drop 16 (x ∷ xs))),
        length-xor_prefix (take 16 (x ∷ xs)) (ctr_keystream encrypt_block key nonce c),
        length-take 16 (x ∷ xs),
        length-drop 16 (x ∷ xs),
        length-ctr_loop n nonce (u32 (c + 1)) (drop 16 (x ∷ xs))
            (omega (arith, length-drop 16 (x ∷ xs))),
      ))

  ctr_loop_undo :
      (n m : ℕ) (nonce : List ℕ) (c : ℕ) (xs : List ℕ)
      → length xs ≤ n
      → length xs ≤ m
      → ctr_loop encrypt_block key m nonce c (ctr_loop encrypt_block key n nonce c xs) ≡ xs
  ctr_loop_undo n m nonce c [] h k = rw ctr_loop-nil (ctr_loop-nil m nonce c)
  ctr_loop_undo zero m nonce c (x ∷ xs) h k = absurd (omega arith)
  ctr_loop_undo (suc n) zero nonce c (x ∷ xs) h k = absurd (omega arith)
  ctr_loop_undo (suc n) (suc m) nonce c (x ∷ xs) h k =
      rw (ctr_loop-suc n nonce c (x ∷ xs) (omega arith)) (
        ctr_loop-suc m nonce c (head ++ rest) nonempty
        ∙ rw (cut.0, cut.1, xor_prefix_cancel)
            (rw
              (ctr_loop_undo n m nonce (u32 (c + 1)) (drop 16 (x ∷ xs))
                (omega (arith, length-drop 16 (x ∷ xs))) (omega (arith, length-drop 16 (x ∷ xs))))
              (take-append-drop 16 (x ∷ xs))))
    where
      stream : List ℕ
      stream = ctr_keystream encrypt_block key nonce c

      head : List ℕ
      head = xor_prefix (take 16 (x ∷ xs)) stream

      rest : List ℕ
      rest = ctr_loop encrypt_block key n nonce (u32 (c + 1)) (drop 16 (x ∷ xs))

      length-head : length head ≡ min 16 (length (x ∷ xs))
      length-head = length-xor_prefix (take 16 (x ∷ xs)) stream ∙ length-take 16 (x ∷ xs)

      nonempty : 0 < length (head ++ rest)
      nonempty = omega (arith, length-append head rest, length-head)

      last : (length head ≡ 16) ⊎ (rest ≡ [])
      last = elim (dec_lt (length (x ∷ xs)) 16) [
        | yes short ↦
            inr (rw (drop_all 16 (x ∷ xs) (omega arith)) (ctr_loop-nil n nonce (u32 (c + 1))))
        | no long ↦ inl (omega (arith, length-head))
      ]

      cut : (take 16 (head ++ rest) ≡ head) × (drop 16 (head ++ rest) ≡ rest)
      cut = take-drop_piece 16 head rest (omega (arith, length-head)) last

  pub length-ctr_crypt :
      (nonce xs : List ℕ) → length (ctr_crypt encrypt_block key nonce xs) ≡ length xs
  unfolding ctr_crypt
  length-ctr_crypt nonce xs = length-ctr_loop (length xs) nonce 1 xs (omega arith)

  -- Counter mode applied twice with one key and nonce gives the message back.
  pub ctr_crypt-ctr_crypt :
      (nonce xs : List ℕ)
      → ctr_crypt encrypt_block key nonce (ctr_crypt encrypt_block key nonce xs) ≡ xs
  unfolding ctr_crypt
  ctr_crypt-ctr_crypt nonce xs =
      ctr_loop_undo (length xs) (length (ctr_loop encrypt_block key (length xs) nonce 1 xs)) nonce 1
        xs (omega arith) (omega (arith, length-ctr_loop (length xs) nonce 1 xs))
