-- ===== src/P2p/Join.antt =====
-- app/src/app_radio_p2p.c, the join: the keys, the JoinRequest and the JoinAccept.
pub mod Accept
pub mod Attempt
use sticker_firmware.Base.{
  ℕ, zero, suc, ◌+◌, ◌-◌, ◌/◌, ◌%◌, ◌^◌, Bool, true, false, not, ◌&&◌, ◌||◌, List, [], ◌∷◌, ◌++◌,
  ltb, leb, ◌==◌, if◌then◌else◌, length, get_or, take, drop, replicate, u8, u32, get_be32, put_le32,
  get_le32, Ret, ok, fail, Errno, Result, done, err,
}
use sticker_firmware.Ccm.{cmac}
use sticker_firmware.P2p.Frame.{Hdr, hdr_get, seal, unseal, hdr_len, tag_len, payload_max}
use sticker_firmware.P2p.Node.{
  Node, Modulation, JoinAccept, is_reserved, rx_delay_max, rx_delay_default, tx_power_ok,
  dnonce_persist, pairing_persist,
}
use sticker_firmware.P2p.Tlv.{Tlv, entries}

-- The fields of `g_app_config` and the version that the join reads.
pub record Identity : Type 0 where
  pub app_key : List ℕ
  pub dev_eui : List ℕ
  pub version : List ℕ

-- `node_addr`
abbrev pub node_addr : Identity → ℕ
node_addr id = get_be32 id.dev_eui 4

-- P2P_ENV_CTRL, P2P_CTRL_JOIN_REQ, P2P_CTRL_JOIN_ACCEPT
abbrev pub env_ctrl : ℕ
env_ctrl = 0x91

abbrev pub ctrl_join_req : ℕ
ctrl_join_req = 7

abbrev pub ctrl_join_accept : ℕ
ctrl_join_accept = 8

-- P2P_JOIN_REQ_VALUE_LEN, P2P_JOIN_REQ_LEN, P2P_JOIN_ACCEPT_VALUE_LEN
abbrev pub join_req_value_len : ℕ
join_req_value_len = 14

abbrev pub join_req_len : ℕ
join_req_len = 39

abbrev pub join_accept_value_len : ℕ
join_accept_value_len = 13

-- P2P_JOIN_KEY_LABEL and P2P_SESSION_KEY_LABEL: HIO-TWR-JOIN and HIO-TWR-SES
abbrev pub join_key_label : List ℕ
join_key_label = 72 ∷ 73 ∷ 79 ∷ 45 ∷ 84 ∷ 87 ∷ 82 ∷ 45 ∷ 74 ∷ 79 ∷ 73 ∷ 78 ∷ []

abbrev pub session_key_label : List ℕ
session_key_label = 72 ∷ 73 ∷ 79 ∷ 45 ∷ 84 ∷ 87 ∷ 82 ∷ 45 ∷ 83 ∷ 69 ∷ 83 ∷ []

-- `sys_put_be32`: the four bytes that it writes
abbrev pub put_be32 : ℕ → List ℕ
put_be32 v = u8 (v / 2 ^ 24) ∷ u8 (v / 2 ^ 16) ∷ u8 (v / 2 ^ 8) ∷ u8 v ∷ []

-- `p2p_parse_join_accept`: the accept and its central_nonce
unfoldable pub parse_join_accept : List ℕ → ℕ → Result (JoinAccept × ℕ)
parse_join_accept val hdr_src =
    let net_id = get_le32 val 0 in
    let rx_delay = get_or val 8 0 in
    let tx_power = get_or val 9 0 in
    if ltb (length val) join_accept_value_len
    then err Errno.ebadmsg
    else if not (net_id == hdr_src) || is_reserved net_id
    then err Errno.ebadmsg
    else if ltb rx_delay 1 || ltb rx_delay_max rx_delay
    then err Errno.ebadmsg
    else done (
      record {
        net_id = net_id;
        rx_delay_s = rx_delay;
        tx_power_assigned = tx_power_ok tx_power;
        tx_power_dbm = if tx_power_ok tx_power then tx_power else 0;
      },
      get_le32 val 4,
    )

-- The first JoinAccept of the entries.
unfoldable pub first_accept : ℕ → List Tlv → Result (JoinAccept × ℕ)
first_accept hdr_src [] = err Errno.ebadmsg
first_accept hdr_src (t ∷ ts) =
    if t.cmd == ctrl_join_accept then parse_join_accept t.val hdr_src else first_accept hdr_src ts

module _ (encrypt_block : List ℕ → List ℕ → List ℕ) (id : Identity) where
  -- `derive_key`
  unfoldable pub derive_key : List ℕ → List ℕ → List ℕ
  derive_key label fields =
      let block = label ++ 1 ∷ fields in
      cmac encrypt_block id.app_key (block ++ replicate (32 - length block) 0)

  -- `derive_join_key`
  unfoldable pub derive_join_key : List ℕ
  unfolding derive_key
  derive_join_key = derive_key join_key_label id.dev_eui

  -- `derive_session_key`
  unfoldable pub derive_session_key : ℕ → ℕ → List ℕ
  unfolding derive_key
  derive_session_key dev_nonce central_nonce =
      derive_key session_key_label (put_be32 dev_nonce ++ put_be32 central_nonce ++ id.dev_eui)

  -- `join_request_build`
  unfoldable pub join_request_build : ℕ → Result (List ℕ)
  join_request_build dev_nonce =
      seal encrypt_block derive_join_key
        record { type = 0; flags = 0; src = node_addr id; dest = 0; counter = dev_nonce }
        (env_ctrl ∷ ctrl_join_req ∷ join_req_value_len ∷ 1 ∷ 1 ∷ id.dev_eui ++ id.version ++ 0 ∷ [])
        join_req_len

  -- The plaintext behind its envelope byte.
  unfoldable pub accept_of : ℕ → List ℕ → Result (JoinAccept × ℕ)
  accept_of src [] = err Errno.ebadmsg
  accept_of src (env ∷ list) =
      if not (env == env_ctrl) then err Errno.ebadmsg else first_accept src (entries list)

  unfoldable pub accept_opened : Result (Hdr × List ℕ) → Result (JoinAccept × ℕ)
  accept_opened (err e) = err Errno.ebadmsg
  accept_opened (done (h, pt)) = accept_of h.src pt

  unfoldable pub accept_headed : ℕ → List ℕ → Result Hdr → Result (JoinAccept × ℕ)
  accept_headed dev_nonce frame (err e) = err e
  accept_headed dev_nonce frame (done h) =
      if not (h.type == 0) || not (h.dest == node_addr id) || not (h.counter == dev_nonce)
      then err Errno.ebadmsg
      else accept_opened (unseal encrypt_block derive_join_key frame payload_max)

  -- `join_accept_open`
  unfoldable pub join_accept_open : ℕ → List ℕ → Result (JoinAccept × ℕ)
  join_accept_open dev_nonce frame = accept_headed dev_nonce frame (hdr_get frame)
