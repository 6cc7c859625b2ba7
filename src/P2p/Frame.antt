-- ===== src/P2p/Frame.antt =====
-- app/src/app_radio_p2p.c, the TOWER frame codec: the header, the CCM seal over it, the ACK payload
-- and the replay rule.
pub mod Header
pub mod Sealing
use sticker_firmware.Base.{
  ℕ, zero, suc, ◌+◌, ◌-◌, ◌*◌, ◌/◌, ◌%◌, ◌^◌, Bool, true, false, not, ◌&&◌, ◌||◌, Option, none,
  some, List, [], ◌∷◌, ◌++◌, leb, ltb, ◌==◌, if◌then◌else◌, length, get_or, take, drop, replicate,
  u8, put_le32, get_le32, bit_or, Ret, ok, fail, Errno, Result, done, err,
}
use sticker_firmware.Ccm.{encrypt_and_tag, auth_decrypt}

-- TWR_VERSION, TWR_HDR_LEN, TWR_TAG_LEN, TWR_NONCE_LEN
abbrev pub twr_version : ℕ
twr_version = 1

abbrev pub hdr_len : ℕ
hdr_len = 14

abbrev pub tag_len : ℕ
tag_len = 8

abbrev pub nonce_len : ℕ
nonce_len = 13

-- P2P_FRAME_MAX, TWR_PAYLOAD_MAX
abbrev pub frame_max : ℕ
frame_max = 96

abbrev pub payload_max : ℕ
payload_max = 74

-- `struct twr_hdr`
pub record Hdr : Type 0 where
  pub type : ℕ
  pub flags : ℕ
  pub src : ℕ
  pub dest : ℕ
  pub counter : ℕ

-- `twr_hdr_put`: the bytes that it writes
unfoldable pub hdr_put : Hdr → List ℕ
hdr_put h =
    u8 (bit_or (twr_version * 2 ^ 5) (h.type % 2 ^ 5)) ∷ h.flags ∷ put_le32 h.src
    ++ put_le32 h.dest
    ++ put_le32 h.counter

-- `twr_hdr_get`
unfoldable pub hdr_get : List ℕ → Result Hdr
hdr_get frame =
    if ltb (length frame) (hdr_len + tag_len) || ltb frame_max (length frame)
    then err Errno.emsgsize
    else if not (get_or frame 0 0 / 2 ^ 5 == twr_version)
    then err Errno.eproto
    else done record {
      type = get_or frame 0 0 % 2 ^ 5;
      flags = get_or frame 1 0;
      src = get_le32 frame 2;
      dest = get_le32 frame 6;
      counter = get_le32 frame 10;
    }

-- `twr_nonce`
unfoldable pub nonce : ℕ → ℕ → List ℕ
nonce src counter = put_le32 src ++ put_le32 counter ++ replicate 5 0

-- `struct twr_ack`, the tail as the bytes that it points to
pub record Ack : Type 0 where
  pub acked : ℕ
  pub rssi : ℕ
  pub pending : Bool
  pub tail : List ℕ

-- `pt[5] & TWR_ACK_PENDING` and `pt[5] & TWR_ACK_CTRL`
abbrev pub has_pending : ℕ → Bool
has_pending f = f % 2 == 1

abbrev pub has_ctrl : ℕ → Bool
has_ctrl f = f / 2 % 2 == 1

-- TWR_ACK_PAYLOAD_LEN
abbrev pub ack_payload_len : ℕ
ack_payload_len = 6

-- `twr_parse_ack`; `rssi` is the byte, before its cast to int8_t.
unfoldable pub parse_ack : List ℕ → Result Ack
parse_ack pt =
    if ltb (length pt) 4
    then err Errno.emsgsize
    else done record {
      acked = get_le32 pt 0;
      rssi = if ltb 4 (length pt) then get_or pt 4 0 else 0;
      pending = ltb 5 (length pt) && has_pending (get_or pt 5 0);
      tail =
          if ltb ack_payload_len (length pt) && has_ctrl (get_or pt 5 0)
          then drop ack_payload_len pt
          else [];
    }

-- P2P_RX_REPEAT, P2P_RX_FRESH
pub data Verdict : Type 0 where
  repeat fresh : Verdict

-- `p2p_replay_check`
unfoldable pub replay_check : ℕ → ℕ → Result Verdict
replay_check last counter =
    if counter == 0 || ltb counter last
    then err Errno.ealready
    else if counter == last
    then done Verdict.repeat
    else done Verdict.fresh

unfoldable pub seal_result : List ℕ → Ret × List ℕ × List ℕ → Result (List ℕ)
seal_result hdr (ok, ct, tag) = done (hdr ++ ct ++ tag)
seal_result hdr (fail e, _, _) = err e

unfoldable pub open_result : Hdr → Ret × List ℕ → Result (Hdr × List ℕ)
open_result h (ok, pt) = done (h, pt)
open_result h (fail e, _) = err e

module _ (encrypt_block : List ℕ → List ℕ → List ℕ) (key : List ℕ) where
  -- `twr_seal`
  unfoldable pub seal : Hdr → List ℕ → ℕ → Result (List ℕ)
  seal h pt frame_size =
      let len = hdr_len + length pt + tag_len in
      if ltb frame_size len || ltb frame_max len
      then err Errno.emsgsize
      else seal_result (hdr_put h)
          (encrypt_and_tag encrypt_block key (nonce h.src h.counter) (hdr_put h) pt tag_len [] [])

  -- The part of `twr_open` behind the header.
  unfoldable pub open_frame : List ℕ → ℕ → Hdr → Result (Hdr × List ℕ)
  open_frame frame pt_size h =
      let ct_len = length frame - hdr_len - tag_len in
      if ltb pt_size ct_len
      then err Errno.emsgsize
      else open_result h (
          auth_decrypt encrypt_block key (nonce h.src h.counter) (take hdr_len frame)
            (take ct_len (drop hdr_len frame)) (drop (length frame - tag_len) frame) [])

  unfoldable pub unseal_with : List ℕ → ℕ → Result Hdr → Result (Hdr × List ℕ)
  unseal_with frame pt_size (err e) = err e
  unseal_with frame pt_size (done h) = open_frame frame pt_size h

  -- `twr_open`: the header and the plaintext
  unfoldable pub unseal : List ℕ → ℕ → Result (Hdr × List ℕ)
  unseal frame pt_size = unseal_with frame pt_size (hdr_get frame)
