-- ===== src/P2p/Node.antt =====
-- app/src/app_radio_p2p.c: the state of the module and what it keeps in the settings store. The
-- result of a settings call is an argument; `Key` is the type of a session key.
use sticker_firmware.Base.{
  ℕ, zero, suc, ◌+◌, ◌-◌, ◌^◌, Bool, true, false, ◌&&◌, ◌||◌, Option, none, some, List, [], ◌∷◌,
  leb, ltb, ◌==◌, if◌then◌else◌, u32, Ret, ok, fail, Errno, Result, done, err, ℤ,
}

-- `enum p2p_link_state`
pub data Link : Type 0 where
  unpaired joining paired : Link

-- APP_CONFIG_P2P_MODULATION_LORA and _FSK
pub data Modulation : Type 0 where
  lora fsk : Modulation

abbrev pub same_modulation : Modulation → Modulation → Bool
same_modulation Modulation.lora Modulation.lora = true
same_modulation Modulation.lora Modulation.fsk = false
same_modulation Modulation.fsk Modulation.lora = false
same_modulation Modulation.fsk Modulation.fsk = true

-- `struct p2p_join_accept`, without the nonce
pub record JoinAccept : Type 0 where
  pub net_id : ℕ
  pub rx_delay_s : ℕ
  pub tx_power_assigned : Bool
  pub tx_power_dbm : ℕ

-- The fields of the record p2pjoin/state.
pub record Pairing (Key : Type 0) : Type 0 where
  pub net_id : ℕ
  pub key : Key
  pub rx_delay_s : ℕ
  pub tx_power : ℕ
  pub modulation : Modulation

-- The numbers of `m_lc`, as the bytes that came in
pub record LinkCheck : Type 0 where
  pub rssi : ℕ
  pub snr : ℕ
  pub margin : ℕ
  pub gw_count : ℕ

-- The `m_` variables, then what p2pfc/base, p2pjoin/dnonce and p2pjoin/state hold. `backoff_s` is the
-- network backoff, which app_radio keeps.
pub record Node (Key : Type 0) : Type 0 where
  pub fcnt : ℕ
  pub fcnt_reserved : ℕ
  pub link : Link
  pub started : Bool
  pub net_id : ℕ
  pub key : Key
  pub rx_delay_s : ℕ
  pub tx_power_assigned : Bool
  pub tx_power_dbm : ℕ
  pub dev_nonce : ℕ
  pub gw_last : ℕ
  pub last_ack_valid : Bool
  pub lc_valid : Bool
  pub lc_outstanding : Bool
  pub time_req_valid : Bool
  pub answer_reports : ℕ
  pub ctrl_pending : ℕ
  pub ctrl_tries : ℕ
  pub retx : Option (ℕ × List ℕ)
  pub drains : ℕ
  pub home_gw_valid : Bool
  pub backoff_s : ℕ
  pub join_slow : Bool
  pub rejoin_attempt : ℕ
  pub join_started_at : ℕ
  pub lc : LinkCheck
  pub time_req_counter : ℕ
  pub time_req_done_ms : ℕ
  pub dl_rssi : ℤ
  pub dl_snr : ℤ
  pub ds_rssi : ℕ
  pub ds_snr : ℤ
  pub home_gw_addr : ℕ
  pub home_gw_flags : ℕ
  pub base : Option ℕ
  pub dnonce : Option ℕ
  pub pairing : Option (Pairing Key)

-- P2P_FCNT_RESERVE, UINT32_MAX
abbrev pub fcnt_window : ℕ
fcnt_window = 256

abbrev pub u32_max : ℕ
u32_max = 2 ^ 32 - 1

-- TWR_ADDR_NONE and TWR_ADDR_BROADCAST are reserved.
abbrev pub is_reserved : ℕ → Bool
is_reserved a = a == 0 || a == u32_max

-- P2P_RX1_DELAY_DEFAULT_S, P2P_RX1_DELAY_MAX_S
abbrev pub rx_delay_default : ℕ
rx_delay_default = 1

abbrev pub rx_delay_max : ℕ
rx_delay_max = 15

-- `CLAMP(v, 1, P2P_RX1_DELAY_MAX_S)`
abbrev pub clamp_rx_delay : ℕ → ℕ
clamp_rx_delay v = if ltb v 1 then 1 else if ltb rx_delay_max v then rx_delay_max else v

-- P2P_TX_POWER_MIN_DBM .. P2P_TX_POWER_MAX_DBM
abbrev pub tx_power_ok : ℕ → Bool
tx_power_ok p = leb 2 p && leb p 14

-- `memcmp` of two lengths and buffers
abbrev pub same_bytes : List ℕ → List ℕ → Bool
same_bytes [] [] = true
same_bytes [] (_ ∷ _) = false
same_bytes (_ ∷ _) [] = false
same_bytes (x ∷ xs) (y ∷ ys) = x == y && same_bytes xs ys

-- `attempt != P2P_NOT_RETRIED`
abbrev pub is_retried : Option ℕ → Bool
is_retried none = false
is_retried (some _) = true

module _ {Key : Type 0} where
  -- `fcnt_settings_set`: none for a record of another size, or one that cannot be read
  unfoldable pub fcnt_settings_set : Node Key → Option ℕ → Node Key
  fcnt_settings_set n none = n
  fcnt_settings_set n (some v) = record n { fcnt = v; fcnt_reserved = v }

  -- `fcnt_reserve`
  unfoldable pub fcnt_reserve : Node Key → ℕ → Ret → Ret × Node Key
  fcnt_reserve n high_water ok =
      (ok, record n { fcnt_reserved = high_water; base = some high_water })
  fcnt_reserve n high_water (fail e) = (fail e, n)

  unfoldable pub fcnt_take : Ret × Node Key → Result ℕ × Node Key
  fcnt_take (ok, n) = (done n.fcnt, record n { fcnt = n.fcnt + 1 })
  fcnt_take (fail e, n) = (err e, n)

  -- `fcnt_next`
  unfoldable pub fcnt_next : Node Key → Ret → Result ℕ × Node Key
  unfolding fcnt_reserve fcnt_take
  fcnt_next n saved =
      if n.fcnt == u32_max
      then (err Errno.eoverflow, n)
      else if leb n.fcnt_reserved n.fcnt
      then fcnt_take (
          fcnt_reserve n
            (if ltb (u32_max - fcnt_window) n.fcnt then u32_max else n.fcnt + fcnt_window) saved)
      else fcnt_take (ok, n)

  unfoldable pub skip_zero : Ret → Result ℕ × Node Key → Result ℕ × Node Key
  skip_zero saved (done zero, n) = fcnt_next n saved
  skip_zero saved (done (suc c), n) = (done (suc c), n)
  skip_zero saved (err e, n) = (err e, n)

  -- `twr_counter_next`, with the answers to the two writes that it may make
  unfoldable pub twr_counter_next : Node Key → Ret → Ret → Result ℕ × Node Key
  twr_counter_next n saved saved' = skip_zero saved' (fcnt_next n saved)

  -- `join_settings_set` for p2pjoin/dnonce
  unfoldable pub dnonce_settings_set : Node Key → Option ℕ → Node Key
  dnonce_settings_set n none = n
  dnonce_settings_set n (some v) = record n { dev_nonce = v }

  -- `join_settings_set` for p2pjoin/state, with the configured modulation
  unfoldable pub state_settings_set : Modulation → Node Key → Option (Pairing Key) → Node Key
  state_settings_set modulation n none = n
  state_settings_set modulation n (some p) =
      if is_reserved p.net_id
      then n
      else if same_modulation p.modulation modulation
      then record n {
        net_id = p.net_id;
        key = p.key;
        rx_delay_s = clamp_rx_delay p.rx_delay_s;
        tx_power_assigned = tx_power_ok p.tx_power;
        tx_power_dbm = if tx_power_ok p.tx_power then p.tx_power else 0;
        link = Link.paired;
      }
      else n

  -- `dnonce_persist`
  unfoldable pub dnonce_persist : Node Key → ℕ → Ret → Ret × Node Key
  dnonce_persist n v ok = (ok, record n { dev_nonce = v; dnonce = some v })
  dnonce_persist n v (fail e) = (fail e, n)

  -- `session_reset`
  unfoldable pub session_reset : Node Key → Node Key
  session_reset n = record n {
    gw_last = 0;
    last_ack_valid = false;
    lc_valid = false;
    lc_outstanding = false;
    time_req_valid = false;
    answer_reports = 0;
    ctrl_pending = 0;
    ctrl_tries = 0;
    retx = none;
    drains = 0;
    home_gw_valid = false;
    backoff_s = 0;
  }

  -- The record that `pairing_persist` saves, and the session that it starts once that is saved.
  unfoldable pub pairing_record : Modulation → JoinAccept → Key → Pairing Key
  pairing_record modulation ja key = record {
    net_id = ja.net_id;
    key = key;
    rx_delay_s = ja.rx_delay_s;
    tx_power = if ja.tx_power_assigned then ja.tx_power_dbm else 0;
    modulation = modulation;
  }

  unfoldable pub start_session : Node Key → JoinAccept → Key → Node Key
  unfolding session_reset
  start_session n ja key = session_reset record n {
    net_id = ja.net_id;
    key = key;
    rx_delay_s = ja.rx_delay_s;
    tx_power_assigned = ja.tx_power_assigned;
    tx_power_dbm = ja.tx_power_dbm;
    link = Link.paired;
  }

  -- `pairing_persist`, with the answers to its two writes
  unfoldable pub pairing_persist :
      Modulation → Node Key → JoinAccept → Key → Bool → Ret → Ret → Ret × Node Key
  unfolding fcnt_reserve pairing_record start_session
  pairing_persist modulation n ja key keep_fcnt (fail e) reserved = (fail e, n)
  pairing_persist modulation n ja key keep_fcnt ok reserved =
      let n' =
        start_session (record n { pairing = some (pairing_record modulation ja key) }) ja key in
      if keep_fcnt
      then (ok, n')
      else (ok, (fcnt_reserve (record n' { fcnt = 0 }) fcnt_window reserved).1)

  -- What a `settings_delete` of the pairing leaves in the store.
  abbrev pub deleted : Ret → Option (Pairing Key) → Option (Pairing Key)
  deleted ok p = none
  deleted (fail e) p = p

  -- `pairing_clear`
  unfoldable pub pairing_clear : Node Key → Ret → Ret × Node Key
  unfolding session_reset
  pairing_clear n removed = (
    removed,
    session_reset record n {
      pairing = deleted removed n.pairing;
      link = Link.unpaired;
      started = false;
      tx_power_assigned = false;
      tx_power_dbm = 0;
    },
  )

  -- `retx_counter`
  unfoldable pub retx_counter : Node Key → Option (ℕ × List ℕ) → List ℕ → Option ℕ
  retx_counter n none pt = none
  retx_counter n (some (counter, sent)) pt =
      if same_bytes sent pt && n.fcnt == u32 (counter + 1) then some counter else none

  unfoldable pub or_next : Node Key → Option ℕ → Ret → Ret → Result ℕ × Node Key
  or_next n (some counter) saved saved' = (done counter, n)
  or_next n none saved saved' = twr_counter_next n saved saved'

  -- The counter of a frame in `p2p_exchange`; `attempt` is none for P2P_NOT_RETRIED.
  unfoldable pub exchange_counter : Node Key → List ℕ → Option ℕ → Ret → Ret → Result ℕ × Node Key
  exchange_counter n pt none saved saved' = twr_counter_next n saved saved'
  exchange_counter n pt (some zero) saved saved' = twr_counter_next n saved saved'
  exchange_counter n pt (some (suc _)) saved saved' =
      or_next n (retx_counter n n.retx pt) saved saved'

  -- `m_retx` behind a seal in `p2p_exchange`
  unfoldable pub note_sealed : Node Key → ℕ → List ℕ → Bool → Option ℕ → Node Key
  note_sealed n counter pt confirmed attempt = record n {
    retx = if confirmed && is_retried attempt then some (counter, pt) else none;
  }

  -- A restart: the variables as the linker sets them, then the three settings handlers.
  unfoldable pub reboot : Modulation → Node Key → Node Key
  unfolding fcnt_settings_set dnonce_settings_set state_settings_set session_reset
  reboot modulation n =
      let blank = session_reset record n {
        fcnt = 0;
        fcnt_reserved = 0;
        link = Link.unpaired;
        started = false;
        net_id = 0;
        rx_delay_s = rx_delay_default;
        tx_power_assigned = false;
        tx_power_dbm = 0;
        dev_nonce = 0;
      } in
      state_settings_set modulation (dnonce_settings_set (fcnt_settings_set blank n.base) n.dnonce)
        n.pairing
