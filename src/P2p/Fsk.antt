-- ===== src/P2p/Fsk.antt =====
-- app/src/app_radio_p2p.c, the fsk profile: length byte, frame and CRC-16, whitened with PN9. The CRC
-- (Zephyr's crc16 with P2P_FSK_CRC_POLY and P2P_FSK_CRC_SEED) is the parameter `crc`.
pub mod Packet
use sticker_firmware.Base.{
  ℕ, zero, suc, ◌+◌, ◌-◌, ◌*◌, ◌/◌, ◌%◌, ◌^◌, Bool, not, ◌||◌, List, [], ◌∷◌, ◌++◌, ltb, ◌==◌,
  if◌then◌else◌, length, get_or, take, drop, u8, u16, get_be16, bit_or, bit_xor, Errno, Result,
  done, err,
}

-- P2P_FSK_PN9_SEED, P2P_FSK_OVERHEAD
abbrev pub pn9_seed : ℕ
pn9_seed = 0x1ff

abbrev pub fsk_overhead : ℕ
fsk_overhead = 3

-- One shift of the register in `fsk_pn9`, and the eight behind a byte.
unfoldable pub pn9_shift : ℕ → ℕ
pn9_shift lfsr = u16 (bit_or (lfsr / 2) (bit_xor lfsr (lfsr / 2 ^ 5) % 2 * 2 ^ 8))

unfoldable pub pn9_shifts : ℕ → ℕ → ℕ
pn9_shifts zero lfsr = lfsr
pn9_shifts (suc b) lfsr = pn9_shifts b (pn9_shift lfsr)

unfoldable pub pn9_loop : ℕ → List ℕ → List ℕ
pn9_loop lfsr [] = []
pn9_loop lfsr (b ∷ buf) = bit_xor b (u8 lfsr) ∷ pn9_loop (pn9_shifts 8 lfsr) buf

-- `fsk_pn9`
unfoldable pub pn9 : List ℕ → List ℕ
pn9 buf = pn9_loop pn9_seed buf

-- `sys_put_be16`: the two bytes that it writes
abbrev pub put_be16 : ℕ → List ℕ
put_be16 v = u8 (v / 2 ^ 8) ∷ u8 v ∷ []

module _ (crc : List ℕ → ℕ) where
  -- `p2p_fsk_wrap`: the packet
  unfoldable pub wrap : List ℕ → List ℕ
  wrap frame = let air = u8 (length frame) ∷ frame in pn9 (air ++ put_be16 (crc air))

  -- `p2p_fsk_unwrap` behind the whitening: the frame at `air` + 1
  unfoldable pub unwrap_plain : List ℕ → ℕ → Result (List ℕ)
  unwrap_plain air air_len =
      let n = get_or air 0 0 in
      if ltb air_len (n + fsk_overhead) || not (crc (take (n + 1) air) == get_be16 air (n + 1))
      then err Errno.ebadmsg
      else done (take n (drop 1 air))

  unfoldable pub unwrap : List ℕ → Result (List ℕ)
  unwrap air =
      if ltb (length air) fsk_overhead
      then err Errno.ebadmsg
      else unwrap_plain (pn9 air) (length air)
