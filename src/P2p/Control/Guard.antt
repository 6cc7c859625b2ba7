-- ===== src/P2p/Control/Guard.antt =====
-- app/src/app_radio_p2p.c: what a control list can do, from an ACK and from a downlink.
use sticker_firmware.Base.{ℕ, ◌≡◌, Bool, true, false, Option, List, [], ◌∷◌}
use sticker_firmware.P2p.Node.{Node, Link, Pairing}
use sticker_firmware.P2p.Tlv.{Tlv}
use sticker_firmware.P2p.Control.{Effect, Handled}

-- The session, the counters and the store of a node.
pub record Session : Type 0 where
  pub link : Link
  pub started : Bool
  pub net_id : ℕ
  pub key : List ℕ
  pub fcnt : ℕ
  pub gw_last : ℕ
  pub dev_nonce : ℕ
  pub retx : Option (ℕ × List ℕ)
  pub base : Option ℕ
  pub dnonce : Option ℕ
  pub pairing : Option (Pairing (List ℕ))

abbrev pub session_of : Node (List ℕ) → Session
session_of n = record {
  link = n.link;
  started = n.started;
  net_id = n.net_id;
  key = n.key;
  fcnt = n.fcnt;
  gw_last = n.gw_last;
  dev_nonce = n.dev_nonce;
  retx = n.retx;
  base = n.base;
  dnonce = n.dnonce;
  pairing = n.pairing;
}

abbrev pub SameSession : Node (List ℕ) → Node (List ℕ) → Type 0
SameSession n m = session_of m ≡ session_of n

abbrev pub is_harmless : Effect → Bool
is_harmless (Effect.set_network_time t) = true
is_harmless Effect.time_event = true
is_harmless (Effect.set_uplink r s m g) = true
is_harmless (Effect.link_result ok) = true
is_harmless (Effect.backoff_set s) = true
is_harmless (Effect.schedule_ctrl d) = true
is_harmless Effect.schedule_join = false
is_harmless (Effect.command pt) = false

abbrev pub AllHarmless : List Effect → Type 0
AllHarmless [] = Unit {0}
AllHarmless (e ∷ es) = (is_harmless e ≡ true) × AllHarmless es

-- One entry that is let through.
record Harmless (n : Node (List ℕ)) (h : Handled) : Type 0 where
  same : SameSession n h.node
  effects : AllHarmless h.effects
