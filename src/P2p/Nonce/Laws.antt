-- ===== src/P2p/Nonce/Laws.antt =====
-- app/src/app_radio_p2p.c: no counter seals two plaintexts under one session key.
use sticker_firmware.Base.{
  ℕ, ◌+◌, ◌≡◌, refl, arith, false, none, some, List, [], ◌∷◌, Bool-cases, inl, inr, pos,
}
use sticker_firmware.P2p.Node.{
  Link, Modulation, JoinAccept, Pairing, fcnt_next, twr_counter_next, pairing_record,
}
use sticker_firmware.P2p.Nonce.{State, Event, is_paired, step, run}
use sticker_firmware.P2p.Nonce.Valid.{All-map, SealsOnce, IsPast, IsValid}
use sticker_firmware.P2p.Nonce.Take.{fcnt_next-Took, twr_counter_next-Took, Took-IsValid}
use sticker_firmware.P2p.Nonce.Seal.{send-IsValid, ack-IsValid}
use sticker_firmware.P2p.Nonce.Pair.{pair-IsValid, clear-IsValid}
use sticker_firmware.P2p.Nonce.Restart.{restart-IsValid}

stored-IsValid :
    (s : State) (p : Pairing ℕ)
    → IsValid s
    → p.key ≡ s.next_key
    → IsValid (record s { node = record s.node { pairing = some p }; next_key = s.next_key + 1 })
stored-IsValid s p v e = record {
  bound = v.bound;
  sound = record {
    base = v.sound.base;
    below = v.sound.below;
    high = v.sound.high;
    key = omega (arith, v.sound.key);
    stored = omega (arith, e);
  };
  past =
      All-map (IsPast s.node s.next_key)
        (IsPast (record s.node { pairing = some p }) (s.next_key + 1)) s.uses
        (λ u q. record {
          old = omega (arith, q.old);
          current = q.current;
          stored = λ g. absurd (omega (arith, g, e, q.old));
        })
        v.past;
  retx = v.retx;
  once = v.once;
}

step-IsValid : (s : State) (e : Event) → IsValid s → IsValid (step s e)
unfolding step pairing_record
step-IsValid s (Event.send pt confirmed attempt saved saved') v =
    elim (Bool-cases (is_paired s.node.link)) [
      | inl up ↦ rw up (send-IsValid s pt confirmed attempt saved saved' v)
      | inr down ↦ rw down v
    ]
step-IsValid s (Event.ack pt saved saved') v = elim (Bool-cases (is_paired s.node.link)) [
  | inl up ↦ rw up (
      ack-IsValid s pt (twr_counter_next s.node saved saved').0
        (twr_counter_next s.node saved saved').1 v
        (twr_counter_next-Took s.node s.next_key saved saved' v.sound))
  | inr down ↦ rw down v
]
step-IsValid s Event.join v = record {
  bound = v.bound;
  sound = record {
    base = v.sound.base;
    below = v.sound.below;
    high = v.sound.high;
    key = v.sound.key;
    stored = v.sound.stored;
  };
  past =
      All-map (IsPast s.node s.next_key) (IsPast (record s.node { link = Link.joining }) s.next_key)
        s.uses (λ u q. record { old = q.old; current = q.current; stored = q.stored }) v.past;
  retx = v.retx;
  once = v.once;
}
step-IsValid s (Event.pair modulation ja keep saved reserved) v =
    pair-IsValid s modulation ja keep saved reserved v
step-IsValid s (Event.clear removed) v = clear-IsValid s removed v
step-IsValid s (Event.restart modulation) v = restart-IsValid s modulation v
step-IsValid s (Event.cut_pair modulation ja modulation') v =
    restart-IsValid _ modulation' (
      stored-IsValid s (pairing_record modulation ja s.next_key) v
        (key_of modulation ja s.next_key))
  where
    key_of : (m : Modulation) (j : JoinAccept) (k : ℕ) → (pairing_record m j k).key ≡ k
    key_of m j k = refl
step-IsValid s (Event.cut_next saved modulation) v = restart-IsValid _ modulation (
    Took-IsValid s (fcnt_next s.node saved).1 (fcnt_next s.node saved).0 v
      (fcnt_next-Took s.node s.next_key saved v.sound))

run-IsValid : (s : State) (es : List Event) → IsValid s → IsValid (run s es)
unfolding run
run-IsValid s [] v = v
run-IsValid s (e ∷ es) v = run-IsValid (step s e) es (step-IsValid s e v)

-- A new device: nothing in the store, no session.
abbrev pub new_device : State
new_device = record {
  node = record {
    fcnt = 0;
    fcnt_reserved = 0;
    link = Link.unpaired;
    started = false;
    net_id = 0;
    key = 0;
    rx_delay_s = 1;
    tx_power_assigned = false;
    tx_power_dbm = 0;
    dev_nonce = 0;
    gw_last = 0;
    last_ack_valid = false;
    lc_valid = false;
    lc_outstanding = false;
    time_req_valid = false;
    answer_reports = 0;
    ctrl_pending = 0;
    ctrl_tries = 0;
    retx = none;
    drains = 0;
    home_gw_valid = false;
    backoff_s = 0;
    join_slow = false;
    rejoin_attempt = 0;
    join_started_at = 0;
    lc = record { rssi = 0; snr = 0; margin = 0; gw_count = 0 };
    time_req_counter = 0;
    time_req_done_ms = 0;
    dl_rssi = pos 0;
    dl_snr = pos 0;
    ds_rssi = 0;
    ds_snr = pos 0;
    home_gw_addr = 0;
    home_gw_flags = 0;
    base = none;
    dnonce = none;
    pairing = none;
  };
  next_key = 1;
  uses = [];
}

new_device-IsValid : IsValid new_device
new_device-IsValid = record {
  bound = tt;
  sound = record {
    base = refl;
    below = omega arith;
    high = omega arith;
    key = omega arith;
    stored = tt;
  };
  past = tt;
  retx = tt;
  once = tt;
}

-- From a new device, through any frames with their retries, acknowledgements, pairings (with or
-- without a new counter), teardowns, restarts, failed writes and power failures, if every pairing
-- brings a key of its own and a restart finds what the store holds: two frames sealed under one key and one counter have one plaintext.
pub seals_once : (es : List Event) → SealsOnce (run new_device es).uses
seals_once es = (run-IsValid new_device es new_device-IsValid).once
