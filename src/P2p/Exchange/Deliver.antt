-- ===== src/P2p/Exchange/Deliver.antt =====
-- app/src/app_radio_p2p.c: the downlinks of a session, over any sequence of exchanges.
use sticker_firmware.Base.{ℕ, ◌<◌, ◌≤◌, arith, Bool, Option, none, some, List, [], ◌∷◌, Ret}
use sticker_firmware.P2p.Node.{Node}
use sticker_firmware.P2p.Exchange.{Rep, Xfer, exchange}
use sticker_firmware.P2p.Exchange.Lane.{Delivered}
use sticker_firmware.P2p.Exchange.Lanes.{exchange-Exchanged}

-- The arguments of one exchange, and what the world does around it.
pub record Call : Type 0 where
  pub listening : Bool
  pub too_long : Bool
  pub held : Bool
  pub pt : List ℕ
  pub confirmed : Bool
  pub attempt : Option ℕ
  pub saved : Ret
  pub saved' : Ret
  pub reps : List Rep

-- The lane at each delivery, before those that follow.
abbrev pub delivery : Option (List ℕ) → ℕ → List ℕ → List ℕ
delivery none lane rest = rest
delivery (some _) lane rest = lane ∷ rest

abbrev pub Rises : ℕ → List ℕ → Type 0
Rises low [] = Unit {0}
Rises low (c ∷ cs) = (low < c) × Rises c cs

Rises-lower : (low low' : ℕ) (cs : List ℕ) → low' ≤ low → Rises low cs → Rises low' cs
Rises-lower low low' [] h r = tt
Rises-lower low low' (c ∷ cs) h (a, b) = (omega arith, b)

module _ (encrypt_block : List ℕ → List ℕ → List ℕ) (node_addr : ℕ) where
  unfoldable pub call : Node (List ℕ) → Call → Node (List ℕ) × Xfer
  call n c =
      let q =
        exchange encrypt_block node_addr n c.listening c.too_long c.held c.pt c.confirmed c.attempt
          c.saved c.saved' c.reps in
      (q.1, q.2)

  -- The counters of the downlinks that a run of exchanges hands on.
  unfoldable pub deliveries : Node (List ℕ) → List Call → List ℕ
  deliveries n [] = []
  deliveries n (c ∷ cs) =
      let next = call n c in delivery next.1.dl next.0.gw_last (deliveries next.0 cs)

  rises :
      (n m : Node (List ℕ)) (dl : Option (List ℕ)) (rest : List ℕ)
      → n.gw_last ≤ m.gw_last
      → Delivered encrypt_block node_addr n m dl
      → Rises m.gw_last rest
      → Rises n.gw_last (delivery dl m.gw_last rest)
  rises n m none rest le d r = Rises-lower m.gw_last n.gw_last rest le r
  rises n m (some pt) rest le (h, buf, u, s, d, t, above, at) r = (omega (arith, above, at), r)

  -- Over any exchanges of a session, whatever is received, the counters of the downlinks that are
  -- handed on rise strictly from the replay lane, so none is handed on twice.
  pub deliveries-Rises : (n : Node (List ℕ)) (cs : List Call) → Rises n.gw_last (deliveries n cs)
  unfolding deliveries call
  deliveries-Rises n [] = tt
  deliveries-Rises n (c ∷ cs) =
      let e =
        exchange-Exchanged encrypt_block node_addr n c.listening c.too_long c.held c.pt c.confirmed
          c.attempt c.saved c.saved' c.reps in
      rises n (call n c).0 (call n c).1.dl (deliveries (call n c).0 cs) e.lane e.dl
        (deliveries-Rises (call n c).0 cs)
