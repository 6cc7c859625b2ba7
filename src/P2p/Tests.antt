-- ===== src/P2p/Tests.antt =====
-- The P2P theorems at concrete frames and runs, with a small stand-in for the block cipher.
mod Join
use sticker_firmware.Base.{
  ℕ, ◌+◌, ◌-◌, ◌*◌, min, ◌^◌, ◌<◌, ◌≡◌, ◌↔◌, refl, arith, true, false, none, some, List, [], ◌∷◌,
  length, u8, u16, ok, fail, Errno, Result, done, err, pos,
}
use sticker_firmware.Ccm.{
  xor_prefix, xor16, zero_padded, copy_at, store_be, format_block, b0_flags, shift_left, xor_last,
  double_gf128, params_ok, tag_diff, n_blocks, last_full, cbc_step, aad_loop, msg_loop, cbc_mac,
  ctr_keystream, ctr_loop, ctr_crypt, ccm_tag, auth_decrypt, cmac_loop, cmac,
}
use sticker_firmware.P2p.Frame.{
  Hdr, seal, unseal, hdr_get, unseal_with, open_frame, open_result, nonce, payload_max, frame_max,
}
use sticker_firmware.P2p.Frame.Sealing.{unseal_iff}
use sticker_firmware.P2p.Node.{Node, Link, Modulation, JoinAccept, reboot}
use sticker_firmware.P2p.Nonce.{Event, run}
use sticker_firmware.P2p.Nonce.Laws.{seals_once, new_device}
use sticker_firmware.P2p.Nonce.Valid.{SealsOnce}
use sticker_firmware.P2p.Tlv.{entries, entries_from, entry_then, tlv_next}
use sticker_firmware.P2p.Tlv.Entries.{Walked, entries-Walked}
use sticker_firmware.P2p.Join.{
  Identity, join_accept_open, accept_headed, accept_opened, accept_of, first_accept,
  parse_join_accept, derive_key, derive_join_key, derive_session_key,
}
use sticker_firmware.P2p.Join.Accept.{Opened, join_accept_open-Opened}
use sticker_firmware.P2p.Join.Attempt.{recv_join_accept}
use sticker_firmware.P2p.Join.Attempt.Nonces.{join_counters-Descends}
use sticker_firmware.P2p.Join.Attempt.Resume.{InSession}
use sticker_firmware.P2p.Retry.{rejoin_backoff_ms, join_work}
use sticker_firmware.P2p.Retry.Curve.{rejoin_backoff_ms_lem}
use sticker_firmware.P2p.Retry.Policy.{Retries, join_work-Retries}
use sticker_firmware.P2p.Fsk.{wrap, unwrap}
use sticker_firmware.P2p.Fsk.Packet.{unwrap_iff}
use sticker_firmware.P2p.Exchange.{Rx, Rep, exchange}
use sticker_firmware.P2p.Exchange.Lane.{Exchanged}
use sticker_firmware.P2p.Exchange.Lanes.{exchange-Exchanged}
use sticker_firmware.P2p.Exchange.Deliver.{Call, deliveries, deliveries-Rises, Rises}

-- Adds the key to a block, byte by byte.
abbrev toy_cipher : List ℕ → List ℕ → List ℕ
toy_cipher [] b = []
toy_cipher (k ∷ key) [] = k ∷ toy_cipher key []
toy_cipher (k ∷ key) (x ∷ b) = u8 (x + k) ∷ toy_cipher key b

abbrev key : List ℕ
key = 1 ∷ 2 ∷ 3 ∷ 4 ∷ 5 ∷ 6 ∷ 7 ∷ 8 ∷ 9 ∷ 10 ∷ 11 ∷ 12 ∷ 13 ∷ 14 ∷ 15 ∷ 16 ∷ []

abbrev frame_of : Result (List ℕ) → List ℕ
frame_of (done frame) = frame
frame_of (err e) = []

abbrev report : Hdr
report = record { type = 0; flags = 1; src = 7; dest = 9; counter = 300 }

toy_cipher-length : (key b : List ℕ) → length (toy_cipher key b) ≡ length key
toy_cipher-length [] b = refl
toy_cipher-length (k ∷ key) [] = omega (arith, toy_cipher-length key [])
toy_cipher-length (k ∷ key) (x ∷ b) = omega (arith, toy_cipher-length key b)

abbrev sealed_report : List ℕ
sealed_report =
    32 ∷ 1 ∷ 7 ∷ 0 ∷ 0 ∷ 0 ∷ 9 ∷ 0 ∷ 0 ∷ 0 ∷ 44 ∷ 1 ∷ 0 ∷ 0 ∷ 7 ∷ 15 ∷ 93 ∷ 24 ∷ 42 ∷ 9 ∷ 9 ∷ 12
    ∷ 30 ∷ 16 ∷ []

abbrev ack_frame : List ℕ
ack_frame =
    33 ∷ 0 ∷ 9 ∷ 0 ∷ 0 ∷ 0 ∷ 7 ∷ 0 ∷ 0 ∷ 0 ∷ 50 ∷ 0 ∷ 0 ∷ 0 ∷ 47 ∷ 10 ∷ 3 ∷ 4 ∷ 205 ∷ 57 ∷ 117 ∷ 3
    ∷ 43 ∷ 8 ∷ 219 ∷ 125 ∷ 18 ∷ 16 ∷ []

abbrev dl_frame : List ℕ
dl_frame =
    32 ∷ 1 ∷ 9 ∷ 0 ∷ 0 ∷ 0 ∷ 7 ∷ 0 ∷ 0 ∷ 0 ∷ 51 ∷ 0 ∷ 0 ∷ 0 ∷ 79 ∷ 69 ∷ 21 ∷ 64 ∷ 42 ∷ 9 ∷ 19 ∷ 124
    ∷ 18 ∷ 16 ∷ []

abbrev packet : List ℕ
packet = 253 ∷ 160 ∷ 95 ∷ 154 ∷ 104 ∷ []

unseal_iff_example :
    (unseal toy_cipher key sealed_report payload_max ≡ done (report, 5 ∷ 6 ∷ []))
    ↔ (seal toy_cipher key report (5 ∷ 6 ∷ []) frame_max ≡ done sealed_report)
unseal_iff_example =
    unseal_iff toy_cipher key (toy_cipher-length key) report (5 ∷ 6 ∷ []) sealed_report
      (record {
        type = omega arith;
        flags = omega arith;
        src = omega arith;
        dest = omega arith;
        counter = omega arith;
      })
      (ground arith)

-- A sum in place of the CRC.
abbrev toy_crc : List ℕ → ℕ
toy_crc [] = 0
toy_crc (b ∷ bs) = u16 (b + toy_crc bs)

toy_crc-width : (xs : List ℕ) → toy_crc xs < 2 ^ 16
toy_crc-width [] = omega arith
toy_crc-width (b ∷ bs) = omega arith

unwrap_iff_example :
    (unwrap toy_crc packet ≡ done (65 ∷ 66 ∷ [])) ↔ (wrap toy_crc (65 ∷ 66 ∷ []) ≡ packet)
unwrap_iff_example =
    unwrap_iff toy_crc toy_crc-width (65 ∷ 66 ∷ []) packet (omega arith) (ground arith) refl

abbrev accept : JoinAccept
accept = record { net_id = 9; rx_delay_s = 1; tx_power_assigned = false; tx_power_dbm = 0 }

-- A confirmed frame and its retry, a power failure, and a new pairing that keeps the counter.
abbrev life : List Event
life =
    Event.pair Modulation.lora accept false ok ok
    ∷ Event.send (1 ∷ 2 ∷ []) true (some 0) ok ok
    ∷ Event.send (1 ∷ 2 ∷ []) true (some 1) ok ok
    ∷ Event.cut_next ok Modulation.lora
    ∷ Event.send (3 ∷ []) false none ok ok
    ∷ Event.pair Modulation.lora accept true ok ok
    ∷ Event.send (4 ∷ []) false none (fail Errno.eio) ok
    ∷ []

seals_once_example : SealsOnce (run new_device life).uses
seals_once_example = seals_once life

abbrev node : Node (List ℕ)
node = record {
  fcnt = 301;
  fcnt_reserved = 512;
  link = Link.paired;
  started = true;
  net_id = 9;
  key = key;
  rx_delay_s = 1;
  tx_power_assigned = false;
  tx_power_dbm = 0;
  dev_nonce = 4;
  gw_last = 40;
  last_ack_valid = false;
  lc_valid = false;
  lc_outstanding = false;
  time_req_valid = false;
  answer_reports = 0;
  ctrl_pending = 0;
  ctrl_tries = 0;
  retx = none;
  drains = 0;
  home_gw_valid = false;
  backoff_s = 0;
  join_slow = false;
  rejoin_attempt = 0;
  join_started_at = 0;
  lc = record { rssi = 0; snr = 0; margin = 0; gw_count = 0 };
  time_req_counter = 0;
  time_req_done_ms = 0;
  dl_rssi = pos 0;
  dl_snr = pos 0;
  ds_rssi = 0;
  ds_snr = pos 0;
  home_gw_addr = 0;
  home_gw_flags = 0;
  base = some 512;
  dnonce = some 4;
  pairing = none;
}

-- The ACK of 301 with a downlink pending, and the downlink, which asks for an ACK.
abbrev rx_of : List ℕ → Rx
rx_of buf = record { rssi = pos 3; snr = pos 5; buf = buf }

abbrev rep : Rep
rep = record {
  held = false;
  tx = ok;
  ack_window = rx_of sealed_report ∷ rx_of ack_frame ∷ rx_of dl_frame ∷ [];
  dl_window = rx_of dl_frame ∷ [];
  ack_held = false;
  ack_saved = ok;
  ack_saved' = ok;
}

exchange-Exchanged_example :
    let q =
      exchange toy_cipher 7 node false false false
        (1 ∷ 2 ∷ [])
        true
        (some 0)
        ok
        ok
        (rep ∷ rep ∷ []) in
    Exchanged toy_cipher 7 node q.1 q.2
exchange-Exchanged_example =
    exchange-Exchanged toy_cipher 7 node false false false (1 ∷ 2 ∷ []) true (some 0) ok ok
      (rep ∷ rep ∷ [])

abbrev uplink : Call
uplink = record {
  listening = false;
  too_long = false;
  held = false;
  pt = 1 ∷ 2 ∷ [];
  confirmed = true;
  attempt = some 0;
  saved = ok;
  saved' = ok;
  reps = rep ∷ rep ∷ [];
}

-- The second exchange meets the same frames again.
deliveries-Rises_example : Rises 40 (deliveries toy_cipher 7 node (uplink ∷ uplink ∷ []))
deliveries-Rises_example = deliveries-Rises toy_cipher 7 node (uplink ∷ uplink ∷ [])

-- Two entries, and a third that runs past the end.
abbrev control : List ℕ
control = 16 ∷ 0 ∷ 21 ∷ 2 ∷ 5 ∷ 0 ∷ 34 ∷ 9 ∷ 1 ∷ []

entries-Walked_example : Walked control (entries control)
entries-Walked_example = entries-Walked control
