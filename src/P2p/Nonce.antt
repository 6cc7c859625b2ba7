-- ===== src/P2p/Nonce.antt =====
-- app/src/app_radio_p2p.c: no counter seals two plaintexts under one session key, across restarts,
-- failed writes and new pairings.
pub mod Valid
pub mod Take
pub mod Seal
pub mod Pair
pub mod Restart
pub mod Laws
use sticker_firmware.Base.{
  ℕ, zero, suc, ◌+◌, ◌-◌, ◌^◌, ◌<◌, ◌≤◌, ◌≡◌, ◌≢◌, ◌⊎◌, refl, sym, ap, ◌∙◌, arith, Bool, true,
  false, Option, none, some, List, [], ◌∷◌, Ret, ok, fail, Errno, Result, done, err, ltb, leb, ◌==◌,
  ◌&&◌, ◌||◌, if◌then◌else◌, u32, Bool-cases, inl, inr,
}
use sticker_firmware.P2p.Node.{
  Node, Link, Modulation, JoinAccept, Pairing, fcnt_reserve, fcnt_take, fcnt_next, skip_zero,
  twr_counter_next, session_reset, pairing_record, pairing_persist, pairing_clear, retx_counter,
  or_next, exchange_counter, note_sealed, is_retried, reboot, state_settings_set,
  dnonce_settings_set, fcnt_settings_set, is_reserved, same_modulation, same_bytes, u32_max,
  fcnt_window,
}

-- A frame that was sealed: the number of its key, its counter and its plaintext.
pub record Use : Type 0 where
  pub key : ℕ
  pub counter : ℕ
  pub pt : List ℕ

-- Keys are numbered in the order of the pairings that made them; `next_key` is the next one.
pub record State : Type 0 where
  pub node : Node ℕ
  pub next_key : ℕ
  pub uses : List Use

pub data Event : Type 0 where
  -- a frame of `p2p_exchange` with the app_radio attempt, and an ACK of `p2p_auto_ack`
  send : List ℕ → Bool → Option ℕ → Ret → Ret → Event
  ack : List ℕ → Ret → Ret → Event
  join : Event
  pair : Modulation → JoinAccept → Bool → Ret → Ret → Event
  clear : Ret → Event
  restart : Modulation → Event
  -- the power fails: behind the write of a pairing, or before the counter of `fcnt_next` is used
  cut_pair : Modulation → JoinAccept → Modulation → Event
  cut_next : Ret → Modulation → Event

abbrev pub is_paired : Link → Bool
is_paired Link.paired = true
is_paired Link.joining = false
is_paired Link.unpaired = false

-- The frame is sealed if there is a counter for it.
unfoldable pub sealed : State → List ℕ → Bool → Option ℕ → Result ℕ × Node ℕ → State
sealed s pt confirmed attempt (err e, n) = record s { node = n }
sealed s pt confirmed attempt (done c, n) = record s {
  node = note_sealed n c pt confirmed attempt;
  uses = record { key = n.key; counter = c; pt = pt } ∷ s.uses;
}

unfoldable pub acked : State → List ℕ → Result ℕ × Node ℕ → State
acked s pt (err e, n) = record s { node = n }
acked s pt (done c, n) = record s {
  node = n;
  uses = record { key = n.key; counter = c; pt = pt } ∷ s.uses;
}

unfoldable pub step : State → Event → State
step s (Event.send pt confirmed attempt saved saved') =
    if is_paired s.node.link
    then sealed s pt confirmed attempt (exchange_counter s.node pt attempt saved saved')
    else s
step s (Event.ack pt saved saved') =
    if is_paired s.node.link then acked s pt (twr_counter_next s.node saved saved') else s
step s Event.join = record s { node = record s.node { link = Link.joining } }
step s (Event.pair modulation ja keep saved reserved) = record s {
  node = (pairing_persist modulation s.node ja s.next_key keep saved reserved).1;
  next_key = s.next_key + 1;
}
step s (Event.clear removed) = record s { node = (pairing_clear s.node removed).1 }
step s (Event.restart modulation) = record s { node = reboot modulation s.node }
step s (Event.cut_pair modulation ja modulation') = record s {
  node =
      reboot modulation' record s.node { pairing = some (pairing_record modulation ja s.next_key) };
  next_key = s.next_key + 1;
}
step s (Event.cut_next saved modulation) = record s {
  node = reboot modulation (fcnt_next s.node saved).1;
}

unfoldable pub run : State → List Event → State
run s [] = s
run s (e ∷ es) = run (step s e) es
