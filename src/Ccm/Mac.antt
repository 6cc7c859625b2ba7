-- ===== src/Ccm/Mac.antt =====
-- `cbc_mac` against RFC 3610: the two regions, each cut into zero-padded blocks, folded in order.
use sticker_firmware.Base.{
  ℕ, zero, suc, ◌+◌, ◌-◌, ◌/◌, ◌≤◌, ◌<◌, ◌≡◌, ◌⊎◌, refl, sym, ap, ap₂, ◌∙◌, List, [], ◌∷◌, ◌++◌,
  arith, append-nil, append_assoc, length, take, drop, set, replicate, u8, take-drop_piece,
  length-append, length-take, length-drop, take-append-drop, ◌≢◌, ◌^◌, dec_lt, ℕ_discrete, inl, inr,
}
use sticker_firmware.Ccm.{zero_padded, cbc_step, aad_loop, msg_loop, cbc_mac}

blocks_fuel : ℕ → List ℕ → List (List ℕ)
blocks_fuel zero d = []
blocks_fuel (suc n) [] = []
blocks_fuel (suc n) (b ∷ d) =
    let rest = blocks_fuel n (drop 16 (b ∷ d)) in zero_padded (take 16 (b ∷ d)) ∷ rest

-- A region as blocks of 16 bytes, the last one padded with zeros.
pub blocks : List ℕ → List (List ℕ)
unfolding blocks_fuel
blocks d = blocks_fuel (length d) d

blocks_fuel-nil : (n : ℕ) → blocks_fuel n [] ≡ []
unfolding blocks_fuel
blocks_fuel-nil zero = refl
blocks_fuel-nil (suc n) = refl

blocks_fuel_enough :
    (n m : ℕ) (d : List ℕ) → length d ≤ n → length d ≤ m → blocks_fuel n d ≡ blocks_fuel m d
unfolding blocks_fuel
blocks_fuel_enough n m [] h k = rw blocks_fuel-nil (sym (blocks_fuel-nil m))
blocks_fuel_enough zero m (b ∷ d) h k = absurd (omega arith)
blocks_fuel_enough (suc n) zero (b ∷ d) h k = absurd (omega arith)
blocks_fuel_enough (suc n) (suc m) (b ∷ d) h k =
    ap (λ t. zero_padded (take 16 (b ∷ d)) ∷ t)
      (blocks_fuel_enough n m (drop 16 (b ∷ d)) (omega (arith, length-drop 16 (b ∷ d)))
        (omega (arith, length-drop 16 (b ∷ d))))

-- A first piece that is a whole block, or the last piece of the region, is the first block.
blocks-append :
    (q r : List ℕ)
    → 0 < length q
    → length q ≤ 16
    → (length q ≡ 16) ⊎ (r ≡ [])
    → blocks (q ++ r) ≡ zero_padded q ∷ blocks r
unfolding blocks
blocks-append [] r pos h full = absurd (omega arith)
blocks-append (a ∷ q) r pos h full =
    let (t, d) = take-drop_piece 16 (a ∷ q) r h full in
    ap₂ ◌∷◌ (ap zero_padded t) (
      rw d (
        blocks_fuel_enough (length (q ++ r)) (length r) r (omega (arith, length-append q r))
          (omega arith)))

blocks_single : (q : List ℕ) → 0 < length q → length q ≤ 16 → blocks q ≡ zero_padded q ∷ []
blocks_single q pos h =
    ap blocks (sym (append-nil q)) ∙ blocks-append q [] pos h (inr refl) ∙ unfold blocks in refl

pub zero_padded_full : (b : List ℕ) → 16 ≤ length b → zero_padded b ≡ b
unfolding zero_padded
zero_padded_full b h =
    let none_left : 16 - length b ≡ 0 = omega arith in rw none_left (append-nil b)

pub blocks-take : (d : List ℕ) → 16 ≤ length d → blocks d ≡ take 16 d ∷ blocks (drop 16 d)
blocks-take d h =
    let whole : length (take 16 d) ≡ 16 = omega (arith, length-take 16 d) in
    ap blocks (sym (take-append-drop 16 d))
    ∙ blocks-append (take 16 d) (drop 16 d) (omega arith) (omega arith) (inl whole)
    ∙ ap (λ t. t ∷ blocks (drop 16 d)) (zero_padded_full (take 16 d) (omega arith))

pub blocks-nil : blocks [] ≡ []
unfolding blocks
blocks-nil = refl

set-zeros :
    (p : List ℕ) (k b : ℕ)
    → set (p ++ replicate (suc k) 0) (length p) b ≡ (p ++ (b ∷ [])) ++ replicate k 0
set-zeros [] k b = refl
set-zeros (a ∷ p) k b = ap (λ t. a ∷ t) (set-zeros p k b)

set-zero_padded :
    (p : List ℕ) (b : ℕ)
    → length p < 16
    → set (zero_padded p) (length p) b ≡ zero_padded (p ++ (b ∷ []))
unfolding zero_padded
set-zero_padded p b h =
    let room : 16 - length p ≡ suc (16 - length (p ++ (b ∷ []))) =
      omega (arith, length-append p (b ∷ [])) in
    rw room (set-zeros p (16 - length (p ++ (b ∷ []))) b)

module _ (encrypt_block : List ℕ → List ℕ → List ℕ) (key : List ℕ) where
  -- The MAC state after a run of blocks.
  abbrev pub absorb : List ℕ → List (List ℕ) → List ℕ
  absorb x [] = x
  absorb x (b ∷ bs) = absorb (cbc_step encrypt_block key x b) bs

  absorb-append :
      (x : List ℕ) (bs cs : List (List ℕ)) → absorb x (bs ++ cs) ≡ absorb (absorb x bs) cs
  absorb-append x [] cs = refl
  absorb-append x (b ∷ bs) cs = absorb-append (cbc_step encrypt_block key x b) bs cs

  aad_loop_end :
      (x block : List ℕ) (bl : ℕ)
      → 0 < bl
      → aad_loop encrypt_block key x block bl [] ≡ cbc_step encrypt_block key x block
  unfolding aad_loop
  aad_loop_end x block bl h = ground arith

  aad_loop_full :
      (x block : List ℕ) (bl b : ℕ) (aad : List ℕ)
      → bl ≡ 15
      → aad_loop encrypt_block key x block bl (b ∷ aad)
        ≡ aad_loop encrypt_block key
            (cbc_step encrypt_block key x (set block bl b))
            (replicate 16 0)
            0
            aad
  unfolding aad_loop
  aad_loop_full x block bl b aad h = ground arith

  aad_loop_more :
      (x block : List ℕ) (bl b : ℕ) (aad : List ℕ)
      → bl ≢ 15
      → aad_loop encrypt_block key x block bl (b ∷ aad)
        ≡ aad_loop encrypt_block key x (set block bl b) (bl + 1) aad
  unfolding aad_loop
  aad_loop_more x block bl b aad h = ground arith

  blocks_last :
      (x p : List ℕ)
      → length p < 16
      → aad_loop encrypt_block key x (zero_padded p) (length p) [] ≡ absorb x (blocks p)
  blocks_last x [] h = unfold aad_loop blocks in refl
  blocks_last x (a ∷ p) h =
      aad_loop_end x (zero_padded (a ∷ p)) (suc (length p)) (omega arith)
      ∙ ap (absorb x) (sym (blocks_single (a ∷ p) (omega arith) (omega arith)))

  aad_loop_lem :
      (x p aad : List ℕ)
      → length p < 16
      → aad_loop encrypt_block key x (zero_padded p) (length p) aad ≡ absorb x (blocks (p ++ aad))
  unfolding zero_padded
  aad_loop_lem x p [] h = rw append-nil (blocks_last x p h)
  aad_loop_lem x p (b ∷ aad) h = elim (ℕ_discrete (length p) 15) [
    | yes e ↦
        aad_loop_full x (zero_padded p) (length p) b aad e
        ∙ rw (set-zero_padded p b h) (
            aad_loop_lem (cbc_step encrypt_block key x (zero_padded (p ++ (b ∷ [])))) [] aad
              (omega arith)
            ∙ ap (absorb x) (
                sym (
                  blocks-append (p ++ (b ∷ [])) aad (omega (arith, wider)) (omega (arith, wider))
                    (inl (omega (arith, wider)))))
            ∙ ap (λ t. absorb x (blocks t)) (append_assoc p (b ∷ []) aad))
    | no ne ↦
        aad_loop_more x (zero_padded p) (length p) b aad ne
        ∙ rw (set-zero_padded p b h, ← wider)
            (aad_loop_lem x (p ++ (b ∷ [])) aad (omega (arith, wider))
              ∙ ap (λ t. absorb x (blocks t)) (append_assoc p (b ∷ []) aad))
  ]
    where
      wider : length (p ++ (b ∷ [])) ≡ length p + 1
      wider = length-append p (b ∷ [])

  msg_loop_block :
      (n : ℕ) (x msg : List ℕ)
      → 16 ≤ length msg
      → msg_loop encrypt_block key (suc n) x msg
        ≡ msg_loop encrypt_block key n (cbc_step encrypt_block key x (take 16 msg)) (drop 16 msg)
  unfolding msg_loop
  msg_loop_block n x msg h = ground arith

  msg_loop_tail :
      (n : ℕ) (x msg : List ℕ)
      → 0 < length msg
      → length msg < 16
      → msg_loop encrypt_block key (suc n) x msg ≡ cbc_step encrypt_block key x (zero_padded msg)
  unfolding msg_loop
  msg_loop_tail n x msg h k = ground arith

  msg_loop_lem :
      (n : ℕ) (x msg : List ℕ)
      → length msg < n
      → msg_loop encrypt_block key n x msg ≡ absorb x (blocks msg)
  msg_loop_lem zero x msg h = absurd (omega arith)
  msg_loop_lem (suc n) x [] h = unfold msg_loop blocks in refl
  msg_loop_lem (suc n) x (b ∷ msg) h = elim (dec_lt (length (b ∷ msg)) 16) [
    | yes short ↦
        msg_loop_tail n x (b ∷ msg) (omega arith) short
        ∙ ap (absorb x) (sym (blocks_single (b ∷ msg) (omega arith) (omega arith)))
    | no long ↦
        msg_loop_block n x (b ∷ msg) (omega arith)
        ∙ msg_loop_lem n (cbc_step encrypt_block key x (take 16 (b ∷ msg))) (drop 16 (b ∷ msg))
            (omega (arith, length-drop 16 (b ∷ msg)))
        ∙ ap (absorb x) (sym (blocks-take (b ∷ msg) (omega arith)))
  ]

  -- `cbc_mac` folds the length-prefixed additional data and then the message, each region cut into
  -- blocks of 16 bytes and padded with zeros on its own, into the MAC state, in order.
  pub cbc_mac-absorb :
      (x aad msg : List ℕ)
      → cbc_mac encrypt_block key x aad msg
        ≡ absorb x (blocks (u8 (length aad / 2 ^ 8) ∷ u8 (length aad) ∷ aad) ++ blocks msg)
  unfolding cbc_mac
  cbc_mac-absorb x aad msg =
      msg_loop_lem (length msg + 1) _ msg (omega arith)
      ∙ ap (λ t. absorb t (blocks msg)) (prefixed (u8 (length aad / 2 ^ 8)) (u8 (length aad)))
      ∙ sym
          (absorb-append x (blocks (u8 (length aad / 2 ^ 8) ∷ u8 (length aad) ∷ aad)) (blocks msg))
    where
      prefixed :
          (hi lo : ℕ)
          → aad_loop encrypt_block key x (set (set (replicate 16 0) 0 hi) 1 lo) 2 aad
            ≡ absorb x (blocks (hi ∷ lo ∷ aad))
      prefixed hi lo = unfold zero_padded in aad_loop_lem x (hi ∷ lo ∷ []) aad (omega arith)
