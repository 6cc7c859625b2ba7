-- ===== src/P2p/Join/Attempt.antt =====
-- app/src/app_radio_p2p.c: one attempt to join, keyed (send_join_request, recv_join_accept) or by a
-- TOWER pairing (twr_pair_attempt). What the duty ledger, the settings store and the modem answer,
-- and what is received, are arguments.
pub mod Counter
pub mod Spend
pub mod Nonces
pub mod Resume
use sticker_firmware.Base.{
  ℕ, zero, suc, ◌+◌, ◌^◌, Bool, true, false, not, ◌||◌, Option, none, some, List, [], ◌∷◌, ◌++◌,
  ltb, ◌==◌, if◌then◌else◌, length, take, u32, put_le32, get_le32, Ret, ok, fail, Errno, Result,
  done, err,
}
use sticker_firmware.P2p.Frame.{Hdr, hdr_get, seal, unseal, payload_max}
use sticker_firmware.P2p.Node.{
  Node, Modulation, JoinAccept, rx_delay_default, dnonce_persist, pairing_persist,
}
use sticker_firmware.P2p.Join.{
  Identity, node_addr, join_request_build, join_accept_open, derive_session_key,
}

-- A frame that was handed to the modem.
pub record Sent : Type 0 where
  pub counter : ℕ
  pub frame : List ℕ

-- What an attempt leaves.
pub record Attempt : Type 0 where
  pub ret : Ret
  pub node : Node (List ℕ)
  pub sent : List Sent

-- `MAX(m_dev_nonce, 1U)`
abbrev pub nonce_from : ℕ → ℕ
nonce_from n = if ltb n 1 then 1 else n

-- `ret == -EAGAIN ? -ETIMEDOUT : ret`
abbrev pub timed_out : Ret → Ret
timed_out (fail Errno.eagain) = fail Errno.etimedout
timed_out r = r

-- The answer of `twr_pair_resp_open`
pub record Response : Type 0 where
  pub gw : ℕ
  pub key : List ℕ
  pub challenge : ℕ

-- TWR_TYPE_JOIN_REQ, TWR_TYPE_JOIN_RESP, TWR_TYPE_JOIN_CONF
abbrev pub type_join_req : ℕ
type_join_req = 4

abbrev pub type_join_resp : ℕ
type_join_resp = 5

abbrev pub type_join_conf : ℕ
type_join_conf = 6

-- TWR_PAIR_REQ_LEN, TWR_PAIR_RESP_PT_LEN, TWR_PAIR_CONF_LEN
abbrev pub pair_req_len : ℕ
pair_req_len = 26

abbrev pub pair_resp_pt_len : ℕ
pair_resp_pt_len = 20

abbrev pub pair_conf_len : ℕ
pair_conf_len = 30

-- TWR_PAIRING_KEY: TOWER-PAIR-KEY! and its NUL
abbrev pub pairing_key : List ℕ
pairing_key = 84 ∷ 79 ∷ 87 ∷ 69 ∷ 82 ∷ 45 ∷ 80 ∷ 65 ∷ 73 ∷ 82 ∷ 45 ∷ 75 ∷ 69 ∷ 89 ∷ 33 ∷ 0 ∷ []

module _ (encrypt_block : List ℕ → List ℕ → List ℕ) (id : Identity) where
  unfoldable pub send_built :
      ℕ → Node (List ℕ) → Result (List ℕ) → Ret → Result ℕ × Node (List ℕ) × List Sent
  send_built nonce n (err e) tx = (err e, n, [])
  send_built nonce n (done frame) ok =
      (done nonce, n, record { counter = nonce; frame = frame } ∷ [])
  send_built nonce n (done frame) (fail e) =
      (err Errno.eio, n, record { counter = nonce; frame = frame } ∷ [])

  unfoldable pub send_saved : ℕ → Ret × Node (List ℕ) → Ret → Result ℕ × Node (List ℕ) × List Sent
  send_saved nonce (fail e, n) tx = (err Errno.eio, n, [])
  send_saved nonce (ok, n) tx = send_built nonce n (join_request_build encrypt_block id nonce) tx

  -- `send_join_request`; `tx` is the answer of lora_send.
  unfoldable pub send_join_request :
      Node (List ℕ) → Bool → Ret → Ret → Result ℕ × Node (List ℕ) × List Sent
  send_join_request n held saved tx =
      if held
      then (err Errno.eagain, n, [])
      else send_saved (nonce_from n.dev_nonce)
          (dnonce_persist n (u32 (nonce_from n.dev_nonce + 1)) saved) tx

  unfoldable pub joined :
      Modulation → Node (List ℕ) → ℕ → Result (JoinAccept × ℕ) → Ret → Ret → Ret × Node (List ℕ)
  joined modulation n nonce (err e) saved reserved = (fail e, n)
  joined modulation n nonce (done (ja, central_nonce)) saved reserved =
      pairing_persist modulation n ja (derive_session_key encrypt_block id nonce central_nonce)
        false saved reserved

  -- `recv_join_accept`; `window` is the answer of p2p_rx_window.
  unfoldable pub recv_join_accept :
      Modulation → Node (List ℕ) → ℕ → Result (List ℕ) → Ret → Ret → Ret × Node (List ℕ)
  recv_join_accept modulation n nonce (err e) saved reserved = (fail e, n)
  recv_join_accept modulation n nonce (done frame) saved reserved =
      joined modulation n nonce (join_accept_open encrypt_block id nonce frame) saved reserved

  unfoldable pub received : List Sent → Ret × Node (List ℕ) → Attempt
  received sent (ret, n) = record { ret = timed_out ret; node = n; sent = sent }

  unfoldable pub keyed_then :
      Modulation → Result ℕ × Node (List ℕ) × List Sent → Result (List ℕ) → Ret → Ret → Attempt
  keyed_then modulation (err e, n, sent) window saved reserved = record {
    ret = fail e;
    node = n;
    sent = sent;
  }
  keyed_then modulation (done nonce, n, sent) window saved reserved =
      received sent (recv_join_accept modulation n nonce window saved reserved)

  -- `keyed_join_attempt`
  unfoldable pub keyed_join_attempt :
      Modulation → Node (List ℕ) → Bool → Ret → Ret → Result (List ℕ) → Ret → Ret → Attempt
  keyed_join_attempt modulation n held nonce_saved tx window saved reserved =
      keyed_then modulation (send_join_request n held nonce_saved tx) window saved reserved

  -- `twr_pair_req_build`
  unfoldable pub twr_pair_req_build : ℕ → Result (List ℕ)
  twr_pair_req_build counter =
      seal encrypt_block pairing_key
        record { type = type_join_req; flags = 0; src = node_addr id; dest = 0; counter = counter }
        (put_le32 (node_addr id)) pair_req_len

  unfoldable pub pair_opened : Result (Hdr × List ℕ) → Option Response
  pair_opened (err e) = none
  pair_opened (done (h, pt)) =
      if ltb (length pt) pair_resp_pt_len
      then none
      else some record { gw = h.src; key = take 16 pt; challenge = get_le32 pt 16 }

  unfoldable pub pair_headed : List ℕ → Result Hdr → Option Response
  pair_headed frame (err e) = none
  pair_headed frame (done h) =
      if not (h.type == type_join_resp) || not (h.dest == node_addr id)
      then none
      else pair_opened (unseal encrypt_block pairing_key frame payload_max)

  -- `twr_pair_resp_open`: none for -EBADMSG
  unfoldable pub twr_pair_resp_open : List ℕ → Option Response
  twr_pair_resp_open frame = pair_headed frame (hdr_get frame)

  unfoldable pub or_later : Option Response → Option Response → Option Response
  or_later none rest = rest
  or_later (some r) rest = some r

  -- The response window: the first frame that opens.
  unfoldable pub wait_response : List (List ℕ) → Option Response
  wait_response [] = none
  wait_response (frame ∷ frames) = or_later (twr_pair_resp_open frame) (wait_response frames)

  -- `twr_pair_conf_build`
  unfoldable pub twr_pair_conf_build : ℕ → ℕ → ℕ → Result (List ℕ)
  twr_pair_conf_build counter gw challenge =
      seal encrypt_block pairing_key
        record {
          type = type_join_conf;
          flags = 0;
          src = node_addr id;
          dest = gw;
          counter = counter;
        }
        (put_le32 (node_addr id) ++ put_le32 challenge) pair_conf_len

  -- `twr_pair_commit`
  unfoldable pub twr_pair_commit :
      Modulation → Node (List ℕ) → ℕ → List ℕ → Ret → Ret × Node (List ℕ)
  twr_pair_commit modulation n gw key saved =
      pairing_persist modulation n
        record {
          net_id = gw;
          rx_delay_s = rx_delay_default;
          tx_power_assigned = false;
          tx_power_dbm = 0;
        }
        key true saved ok

  unfoldable pub confirmed : List Sent → Ret × Node (List ℕ) → Attempt
  confirmed sent (ret, n) = record { ret = ret; node = n; sent = sent }

  -- The JOIN_CONFIRM, and the commit once it is sent.
  unfoldable pub pair_confirm :
      Modulation → Node (List ℕ) → ℕ → List Sent → Response → Result (List ℕ) → Ret → Ret → Attempt
  pair_confirm modulation n counter sent r (err e) tx saved = record {
    ret = fail e;
    node = n;
    sent = sent;
  }
  pair_confirm modulation n counter sent r (done frame) (fail e) saved = record {
    ret = fail e;
    node = n;
    sent = sent ++ record { counter = counter; frame = frame } ∷ [];
  }
  pair_confirm modulation n counter sent r (done frame) ok saved =
      confirmed (sent ++ record { counter = counter; frame = frame } ∷ [])
        (twr_pair_commit modulation n r.gw r.key saved)

  unfoldable pub pair_answered :
      Modulation → Node (List ℕ) → ℕ → List Sent → Option Response → Ret → Ret → Attempt
  pair_answered modulation n counter sent none tx saved = record {
    ret = fail Errno.etimedout;
    node = n;
    sent = sent;
  }
  pair_answered modulation n counter sent (some r) tx saved =
      pair_confirm modulation n counter sent r (twr_pair_conf_build counter r.gw r.challenge) tx
        saved

  unfoldable pub pair_built :
      Modulation → Node (List ℕ) → ℕ → Result (List ℕ) → Ret → List (List ℕ) → Ret → Ret → Attempt
  pair_built modulation n counter (err e) tx window conf_tx saved = record {
    ret = fail e;
    node = n;
    sent = [];
  }
  pair_built modulation n counter (done frame) (fail e) window conf_tx saved = record {
    ret = fail e;
    node = n;
    sent = record { counter = counter; frame = frame } ∷ [];
  }
  pair_built modulation n counter (done frame) ok window conf_tx saved =
      pair_answered modulation n (u32 (counter + 1))
        (record { counter = counter; frame = frame } ∷ []) (wait_response window) conf_tx saved

  unfoldable pub pair_saved :
      Modulation → ℕ → Ret × Node (List ℕ) → Ret → List (List ℕ) → Ret → Ret → Attempt
  pair_saved modulation counter (fail e, n) tx window conf_tx saved = record {
    ret = fail Errno.eio;
    node = n;
    sent = [];
  }
  pair_saved modulation counter (ok, n) tx window conf_tx saved =
      pair_built modulation n counter (twr_pair_req_build counter) tx window conf_tx saved

  -- `twr_pair_attempt`; `tx` and `conf_tx` are the answers of p2p_tx_once.
  unfoldable pub twr_pair_attempt :
      Modulation → Node (List ℕ) → Bool → Ret → Ret → List (List ℕ) → Ret → Ret → Attempt
  twr_pair_attempt modulation n held nonce_saved tx window conf_tx saved =
      if held
      then record { ret = fail Errno.eagain; node = n; sent = [] }
      else pair_saved modulation (nonce_from n.dev_nonce)
          (dnonce_persist n (u32 (nonce_from n.dev_nonce + 2)) nonce_saved) tx window conf_tx saved
