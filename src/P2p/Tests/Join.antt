-- ===== src/P2p/Tests/Join.antt =====
-- The theorems on the join and on the control list at concrete frames and runs.
use sticker_firmware.Base.{
  ℕ, ◌-◌, ◌≡◌, refl, arith, true, false, none, List, [], ◌∷◌, ok, fail, Errno, done, err,
}
use sticker_firmware.Ccm.{
  xor_prefix, xor16, zero_padded, copy_at, store_be, format_block, b0_flags, shift_left, xor_last,
  double_gf128, params_ok, tag_diff, n_blocks, last_full, cbc_step, aad_loop, msg_loop, cbc_mac,
  ctr_keystream, ctr_loop, ctr_crypt, ccm_tag, auth_decrypt, cmac_loop, cmac,
}
use sticker_firmware.P2p.Frame.{unseal, hdr_get, unseal_with, open_frame, open_result, nonce}
use sticker_firmware.P2p.Node.{Node, Link, Modulation}
use sticker_firmware.P2p.Tlv.{entries, entries_from, entry_then, tlv_next}
use sticker_firmware.P2p.Join.{
  Identity, join_accept_open, accept_headed, accept_opened, accept_of, first_accept,
  parse_join_accept, derive_key, derive_join_key,
}
use sticker_firmware.P2p.Join.Accept.{Opened, join_accept_open-Opened}
use sticker_firmware.P2p.Join.Attempt.Nonces
use sticker_firmware.P2p.Join.Attempt.Nonces.{join_counters-Descends}
use sticker_firmware.P2p.Join.Attempt.Counter.{Descends}
use sticker_firmware.P2p.Retry.{join_work}
use sticker_firmware.P2p.Retry.Policy.{Retries, join_work-Retries}
use sticker_firmware.P2p.Tests.{toy_cipher, key, accept, node}
use sticker_firmware.P2p.Control.{World, ctrl_downlink}
use sticker_firmware.P2p.Control.Time.{Spends, ctrl_downlink-Spends}

abbrev identity : Identity
identity = record {
  app_key = key;
  dev_eui = 1 ∷ 2 ∷ 3 ∷ 4 ∷ 0 ∷ 0 ∷ 0 ∷ 7 ∷ [];
  version = 1 ∷ 2 ∷ 3 ∷ [];
}

-- A JoinAccept of network 9 for the counter 4.
abbrev accept_frame : List ℕ
accept_frame =
    32 ∷ 0 ∷ 9 ∷ 0 ∷ 0 ∷ 0 ∷ 7 ∷ 0 ∷ 0 ∷ 0 ∷ 4 ∷ 0 ∷ 0 ∷ 0 ∷ 192 ∷ 82 ∷ 90 ∷ 52 ∷ 89 ∷ 91 ∷ 94 ∷ 78
    ∷ 74 ∷ 87 ∷ 77 ∷ 79 ∷ 33 ∷ 33 ∷ 30 ∷ 68 ∷ 233 ∷ 164 ∷ 77 ∷ 141 ∷ 91 ∷ 82 ∷ 68 ∷ 75 ∷ []

accept_opens : join_accept_open toy_cipher identity 4 accept_frame ≡ done (accept, 99)
unfolding join_accept_open accept_headed accept_opened accept_of first_accept parse_join_accept
    derive_join_key derive_key entries entries_from entry_then tlv_next hdr_get unseal unseal_with
    open_frame open_result nonce xor_prefix xor16 zero_padded copy_at store_be format_block b0_flags
    shift_left xor_last double_gf128 params_ok tag_diff n_blocks last_full cbc_step aad_loop
    msg_loop cbc_mac ctr_keystream ctr_loop ctr_crypt ccm_tag auth_decrypt cmac_loop cmac
accept_opens = refl

join_accept_open-Opened_example : Opened toy_cipher identity 4 accept_frame accept
join_accept_open-Opened_example =
    join_accept_open-Opened toy_cipher identity 4 accept_frame accept 99 accept_opens

abbrev new_node : Node (List ℕ)
new_node = record node { dev_nonce = 0; dnonce = none; link = Link.joining }

-- A keyed attempt, a failed write, a restart, a pairing attempt that nobody answers, and another.
abbrev attempts : List Nonces.Event
attempts =
    Nonces.Event.keyed Modulation.lora false ok ok (err Errno.etimedout) ok ok
    ∷ Nonces.Event.keyed Modulation.lora false (fail Errno.eio) ok (err Errno.etimedout) ok ok
    ∷ Nonces.Event.restart Modulation.lora
    ∷ Nonces.Event.pair Modulation.fsk false ok ok [] ok ok
    ∷ Nonces.Event.keyed Modulation.lora false ok (fail Errno.eio) (err Errno.etimedout) ok ok
    ∷ []

join_counters-Descends_example :
    let s = Nonces.run toy_cipher identity record { node = new_node; counters = [] } attempts in
    Descends s.node.dev_nonce s.counters
join_counters-Descends_example =
    join_counters-Descends toy_cipher identity new_node attempts refl refl (omega arith)

join_work-Retries_example :
    let r = join_work new_node (fail Errno.etimedout, new_node) 119000 0 500 in
    (d : ℕ) × Retries new_node r.0 (119000 - 0) d r.1
join_work-Retries_example =
    join_work-Retries new_node new_node Errno.etimedout 119000 0 500 refl (omega arith)

abbrev world : World
world = record { now_ms = 90000; provisioned = true; removed = ok }

-- A Detach, a TimeAns for the request that waits, and the same again.
abbrev hostile : List ℕ
hostile =
    3 ∷ 0 ∷ 32 ∷ 9 ∷ 0 ∷ 0 ∷ 0 ∷ 100 ∷ 128 ∷ 45 ∷ 1 ∷ 0 ∷ 0 ∷ 32 ∷ 9 ∷ 0 ∷ 0 ∷ 0 ∷ 101 ∷ 128 ∷ 45
    ∷ 1 ∷ 0 ∷ 0 ∷ []

abbrev asking : Node (List ℕ)
asking = record node { time_req_valid = true; time_req_counter = 301; time_req_done_ms = 88000 }

ctrl_downlink-Spends_example :
    let r = ctrl_downlink world asking hostile true in Spends asking r.0 r.1
ctrl_downlink-Spends_example = ctrl_downlink-Spends world asking hostile true
