-- ===== src/P2p/Fsk/Packet.antt =====
-- app/src/app_radio_p2p.c: the fsk packet of a frame is the one packet that unwraps to it.
use sticker_firmware.Base.{
  ℕ, suc, ◌+◌, ◌*◌, ◌/◌, ◌^◌, ◌<◌, ◌≤◌, ◌≡◌, ◌↔◌, refl, sym, ap, ap₂, ◌∙◌, arith, false, not, List,
  [], ◌∷◌, ◌++◌, ltb, ◌==◌, length, get_or, take, drop, u8, get_be16, bit_xor_cancel, bit_xor-lt,
  IsBytes, get_or-lt, done, length-take, length-drop, get_or-at, get_or-drop, take-append,
  take-append-drop,
}
use sticker_firmware.P2p.Fsk.{pn9, pn9_loop, pn9_shifts, put_be16, wrap, unwrap, unwrap_plain}

pn9_loop_undo : (l : ℕ) (buf : List ℕ) → pn9_loop l (pn9_loop l buf) ≡ buf
unfolding pn9_loop
pn9_loop_undo l [] = refl
pn9_loop_undo l (b ∷ buf) = ap₂ ◌∷◌ (bit_xor_cancel b (u8 l)) (pn9_loop_undo (pn9_shifts 8 l) buf)

pn9-pn9 : (buf : List ℕ) → pn9 (pn9 buf) ≡ buf
unfolding pn9
pn9-pn9 buf = pn9_loop_undo 0x1ff buf

length-pn9_loop : (l : ℕ) (buf : List ℕ) → length (pn9_loop l buf) ≡ length buf
unfolding pn9_loop
length-pn9_loop l [] = refl
length-pn9_loop l (b ∷ buf) = ap suc (length-pn9_loop (pn9_shifts 8 l) buf)

length-pn9 : (buf : List ℕ) → length (pn9 buf) ≡ length buf
unfolding pn9
length-pn9 buf = length-pn9_loop 0x1ff buf

IsBytes-pn9_loop : (l : ℕ) (buf : List ℕ) → IsBytes buf → IsBytes (pn9_loop l buf)
unfolding pn9_loop
IsBytes-pn9_loop l [] h = tt
IsBytes-pn9_loop l (b ∷ buf) (a, h) =
    (bit_xor-lt 8 b (u8 l) a (omega arith), IsBytes-pn9_loop (pn9_shifts 8 l) buf h)

IsBytes-pn9 : (buf : List ℕ) → IsBytes buf → IsBytes (pn9 buf)
unfolding pn9
IsBytes-pn9 buf h = IsBytes-pn9_loop 0x1ff buf h

take-at : (xs : List ℕ) (i j : ℕ) → i ≡ j → take i xs ≡ take j xs
take-at xs i j e = ap (λ k. take k xs) e

get_or-append_length :
    (xs ys : List ℕ) (i : ℕ) → get_or (xs ++ ys) (length xs + i) 0 ≡ get_or ys i 0
get_or-append_length [] ys i = get_or-at ys (0 + i) i (omega arith)
get_or-append_length (x ∷ xs) ys i =
    ap (λ k. get_or (x ∷ (xs ++ ys)) k 0) (suc_add (length xs) i) ∙ get_or-append_length xs ys i
  where
    suc_add : (a b : ℕ) → suc a + b ≡ suc (a + b)
    suc_add a b = omega arith

-- A list of two bytes behind a head.
two_left :
    (xs : List ℕ) (a b : ℕ)
    → length xs ≡ 2
    → get_or xs 0 0 ≡ a
    → get_or xs 1 0 ≡ b
    → xs ≡ a ∷ b ∷ []
two_left [] a b h e f = absurd (omega arith)
two_left (x ∷ []) a b h e f = absurd (omega arith)
two_left (x ∷ y ∷ []) a b h e f = cc
two_left (x ∷ y ∷ z ∷ xs) a b h e f = absurd (omega arith)

module _ (crc : List ℕ → ℕ) (crc_width : (xs : List ℕ) → crc xs < 2 ^ 16) where
  unwrap_plain-packet :
      (frame : List ℕ)
      → length frame < 256
      → unwrap_plain crc
          (length frame ∷ frame ++ put_be16 (crc (length frame ∷ frame)))
          (length frame + 3)
        ≡ done frame
  unfolding unwrap_plain
  unwrap_plain-packet frame short =
      let n = length frame in
      let c = crc (n ∷ frame) in
      let air = n ∷ frame ++ put_be16 c in
      let head : take (n + 1) air ≡ n ∷ frame =
        take-at air (n + 1) (suc n) (omega arith) ∙ take-append (n ∷ frame) (put_be16 c) in
      let high : get_or air (n + 1) 0 ≡ u8 (c / 2 ^ 8) =
        get_or-at air (n + 1) (suc n + 0) (omega arith)
        ∙ get_or-append_length (n ∷ frame) (put_be16 c) 0 in
      let low : get_or air (n + 1 + 1) 0 ≡ u8 c =
        get_or-at air (n + 1 + 1) (suc n + 1) (omega arith)
        ∙ get_or-append_length (n ∷ frame) (put_be16 c) 1 in
      let fits : ltb (n + 3) (n + 3) ≡ false = ground arith in
      let same : not (crc (take (n + 1) air) == get_be16 air (n + 1)) ≡ false =
        rw (head, high, low) (ground (arith, crc_width (n ∷ frame))) in
      rw (fits, same) (ap done (take-append frame (put_be16 c)))

  unwrap_plain_parts :
      (n : ℕ) (air frame : List ℕ)
      → unwrap_plain crc (n ∷ air) (suc (length air)) ≡ done frame
      → (n + 3 ≤ suc (length air))
        × (crc (n ∷ take n air) ≡ get_or air n 0 * 2 ^ 8 + get_or air (n + 1) 0)
        × (take n air ≡ frame)
  unfolding unwrap_plain
  unwrap_plain_parts n air frame e =
      let at : n + 1 ≡ suc n = omega arith in let e' = rw at at e in ground (arith, e')

  plain-packet :
      (air frame : List ℕ)
      → IsBytes air
      → length air ≡ length frame + 3
      → unwrap_plain crc air (length air) ≡ done frame
      → length frame ∷ frame ++ put_be16 (crc (length frame ∷ frame)) ≡ air
  unfolding unwrap_plain
  plain-packet [] frame bytes size e = absurd (omega arith)
  plain-packet (n ∷ air) frame bytes size e =
      let (fits, check, whole) = unwrap_plain_parts n air frame e in
      let count : length frame ≡ n = omega (arith, ap length whole, length-take n air) in
      let c = crc (n ∷ frame) in
      let sum : c ≡ get_or air n 0 * 2 ^ 8 + get_or air (n + 1) 0 = rw (← whole) check in
      let high : get_or (drop n air) 0 0 ≡ u8 (c / 2 ^ 8) =
        get_or-drop n air 0
        ∙ get_or-at air (n + 0) n (omega arith)
        ∙ omega (arith, sum, get_or-lt air n bytes.1, get_or-lt air (n + 1) bytes.1) in
      let low : get_or (drop n air) 1 0 ≡ u8 c =
        get_or-drop n air 1
        ∙ omega (arith, sum, get_or-lt air n bytes.1, get_or-lt air (n + 1) bytes.1) in
      let tail =
        two_left (drop n air) (u8 (c / 2 ^ 8)) (u8 c)
          (omega (arith, size, count, length-drop n air)) high low in
      rw count (ap (λ t. n ∷ t) (rw (← tail) (rw (← whole) (take-append-drop n air))))

  -- For a frame shorter than 256 bytes and a packet of bytes that is three longer, the packet
  -- unwraps to the frame exactly when it is the packet that p2p_fsk_wrap makes of the frame.
  pub unwrap_iff :
      (frame air : List ℕ)
      → length frame < 256
      → IsBytes air
      → length air ≡ length frame + 3
      → (unwrap crc air ≡ done frame) ↔ (wrap crc frame ≡ air)
  unfolding unwrap wrap
  unwrap_iff frame air short bytes size =
      let long : ltb (length air) 3 ≡ false = ground arith in
      let narrow : u8 (length frame) ≡ length frame = omega arith in
      (
        λ u. rw narrow (
            ap pn9 (
              plain-packet (pn9 air) frame (IsBytes-pn9 air bytes) (length-pn9 air ∙ size)
                (rw (← length-pn9 air) at (rw long at u)))
            ∙ pn9-pn9 air),
        λ w.
            let plain : pn9 air ≡ length frame ∷ frame ++ put_be16 (crc (length frame ∷ frame)) =
              ap pn9 (sym w) ∙ pn9-pn9 _ ∙ rw narrow refl in
            rw (long, plain, size) (unwrap_plain-packet frame short),
      )
