-- ===== src/P2p/Join/Attempt/Resume.antt =====
-- app/src/app_radio_p2p.c: a session that a join has begun, behind a restart.
use sticker_firmware.Base.{ℕ, ◌≡◌, refl, Option, none, some, List}
use sticker_firmware.P2p.Node.{Node, Link, JoinAccept, dnonce_settings_set, fcnt_settings_set}

-- A node with the session of an accept.
pub record InSession (k : List ℕ) (ja : JoinAccept) (n : Node (List ℕ)) : Type 0 where
  pub link : n.link ≡ Link.paired
  pub net_id : n.net_id ≡ ja.net_id
  pub key : n.key ≡ k
  pub rx_delay_s : n.rx_delay_s ≡ ja.rx_delay_s
  pub tx_power_assigned : n.tx_power_assigned ≡ ja.tx_power_assigned
  pub tx_power_dbm : n.tx_power_dbm ≡ ja.tx_power_dbm

loaded_pairing :
    (n : Node (List ℕ)) (base dnonce : Option ℕ)
    → (dnonce_settings_set (fcnt_settings_set n base) dnonce).pairing ≡ n.pairing
unfolding dnonce_settings_set fcnt_settings_set
loaded_pairing n none none = refl
loaded_pairing n none (some d) = refl
loaded_pairing n (some b) none = refl
loaded_pairing n (some b) (some d) = refl
