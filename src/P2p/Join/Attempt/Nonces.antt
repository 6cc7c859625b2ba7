-- ===== src/P2p/Join/Attempt/Nonces.antt =====
-- app/src/app_radio_p2p.c: the counters of the join frames, over attempts, failed writes, teardowns
-- and restarts.
use sticker_firmware.Base.{
  ℕ, suc, ◌+◌, ◌*◌, ◌^◌, ◌<◌, ◌≤◌, ◌≡◌, sym, ap, ◌∙◌, arith, Bool, none, List, [], ◌∷◌, length, Ret,
  Result,
}
use sticker_firmware.P2p.Node.{Node, Modulation, pairing_clear, reboot}
use sticker_firmware.P2p.Join.{Identity}
use sticker_firmware.P2p.Join.Attempt.{Attempt, keyed_join_attempt, twr_pair_attempt}
use sticker_firmware.P2p.Join.Attempt.Counter.{noted, Descends, stored, Spends, reboot_nonce}
use sticker_firmware.P2p.Join.Attempt.Spend.{keyed-Spends, pair-Spends}

-- The counters of the frames that were handed to the modem, newest first.
pub record State : Type 0 where
  pub node : Node (List ℕ)
  pub counters : List ℕ

pub data Event : Type 0 where
  keyed : Modulation → Bool → Ret → Ret → Result (List ℕ) → Ret → Ret → Event
  pair : Modulation → Bool → Ret → Ret → List (List ℕ) → Ret → Ret → Event
  clear : Ret → Event
  restart : Modulation → Event

abbrev pub after : State → Attempt → State
after s a = record { node = a.node; counters = noted a.sent s.counters }

module _ (encrypt_block : List ℕ → List ℕ → List ℕ) (id : Identity) where
  unfoldable pub step : State → Event → State
  step s (Event.keyed modulation held nonce_saved tx window saved reserved) = after s (
      keyed_join_attempt encrypt_block id modulation s.node held nonce_saved tx window saved
        reserved)
  step s (Event.pair modulation held nonce_saved tx window conf_tx saved) =
      after s (
        twr_pair_attempt encrypt_block id modulation s.node held nonce_saved tx window conf_tx
          saved)
  step s (Event.clear removed) = record s { node = (pairing_clear s.node removed).1 }
  step s (Event.restart modulation) = record s { node = reboot modulation s.node }

  unfoldable pub run : State → List Event → State
  run s [] = s
  run s (e ∷ es) = run (step s e) es

  record IsValid (k : ℕ) (s : State) : Type 0 where
    stored : stored s.node.dnonce ≡ s.node.dev_nonce
    bound : s.node.dev_nonce ≤ 2 * k + 1
    log : Descends s.node.dev_nonce s.counters

  after-IsValid :
      (k : ℕ) (s : State) (a : Attempt)
      → IsValid k s
      → Spends s.node a
      → IsValid (k + 1) (after s a)
  after-IsValid k s a v p = record {
    stored = p.stored;
    bound = ground (arith, p.bound, v.bound);
    log = p.log s.counters v.log;
  }

  step-IsValid :
      (k : ℕ) (s : State) (e : Event)
      → 2 * k + 3 < 2 ^ 32
      → IsValid k s
      → IsValid (k + 1) (step s e)
  unfolding step pairing_clear
  step-IsValid k s (Event.keyed modulation held nonce_saved tx window saved reserved) h v =
      after-IsValid k s _ v (
        keyed-Spends encrypt_block id modulation s.node held nonce_saved tx window saved reserved
          v.stored (omega (arith, v.bound)))
  step-IsValid k s (Event.pair modulation held nonce_saved tx window conf_tx saved) h v =
      after-IsValid k s _ v (
        pair-Spends encrypt_block id modulation s.node held nonce_saved tx window conf_tx saved
          v.stored (omega (arith, v.bound)))
  step-IsValid k s (Event.clear removed) h v = record {
    stored = v.stored;
    bound = omega (arith, v.bound);
    log = v.log;
  }
  step-IsValid k s (Event.restart modulation) h v =
      let (d, t) = reboot_nonce modulation s.node in
      let same : (reboot modulation s.node).dev_nonce ≡ s.node.dev_nonce = d ∙ v.stored in
      record {
        stored = ap stored t ∙ sym d;
        bound = omega (arith, same, v.bound);
        log = rw same v.log;
      }

  run-IsValid :
      (k : ℕ) (s : State) (es : List Event)
      → 2 * (k + length es) + 1 < 2 ^ 32
      → IsValid k s
      → IsValid (k + length es) (run s es)
  unfolding run
  run-IsValid k s [] h v = rw (same k) v
    where
      same : (k : ℕ) → k + 0 ≡ k
      same k = omega arith
  run-IsValid k s (e ∷ es) h v =
      rw (later k (length es))
        (run-IsValid (k + 1) (step s e) es (omega arith) (step-IsValid k s e (omega arith) v))
    where
      later : (k l : ℕ) → k + suc l ≡ k + 1 + l
      later k l = omega arith

  -- Over fewer than 2 ^ 31 - 1 events, which are attempts to join of both kinds, teardowns and
  -- restarts, whatever is received and whichever writes fail, if a restart finds what the store
  -- holds: the counters of the join frames that are handed to the modem rise strictly.
  pub join_counters-Descends :
      (n : Node (List ℕ)) (es : List Event)
      → n.dev_nonce ≡ 0
      → n.dnonce ≡ none
      → 2 * length es + 1 < 2 ^ 32
      → let s = run record { node = n; counters = [] } es in Descends s.node.dev_nonce s.counters
  join_counters-Descends n es z t h =
      (run-IsValid 0 record { node = n; counters = [] } es (omega arith)
        record { stored = rw t (sym z); bound = omega (arith, z); log = tt }).log
