-- ===== src/P2p/Exchange/Lanes.antt =====
-- app/src/app_radio_p2p.c: a whole exchange, and the downlinks of a session.
use sticker_firmware.Base.{
  ℕ, ◌+◌, ◌≡◌, refl, sym, ap, ◌∙◌, arith, Bool, true, false, not, ◌&&◌, ◌||◌, Option, none, some,
  List, [], ◌∷◌, ltb, if◌then◌else◌, length, take, Ret, ok, fail, Result, done, err,
}
use sticker_firmware.P2p.Frame.{Ack, seal, payload_max, frame_max}
use sticker_firmware.P2p.Node.{Node, exchange_counter, note_sealed}
use sticker_firmware.P2p.Exchange.{
  Rx, Found, Xfer, Rep, no_xfer, wait_for, accept_ack, take_dl, wait_dl, when_pending, take_ack,
  ack_when, ack_if_owed, unless_acked, after_tx, unless_held, sent_once, send_loop, exchange_sealed,
  exchange_counted, exchange, not_paired, reps, type_data,
}
use sticker_firmware.P2p.Exchange.Lane.{Keeps, Exchanged}
use sticker_firmware.P2p.Exchange.Keep.{exchange_counter-Keeps, true-ne-false}
use sticker_firmware.P2p.Exchange.Receive.{sent_once-Exchanged}

module _ (encrypt_block : List ℕ → List ℕ → List ℕ) (node_addr : ℕ) where
  take_dl_acked :
      (m : Node (List ℕ)) (x : Xfer) (found : Option (Found × List Rx))
      → (take_dl encrypt_block node_addr m x found).1.acked ≡ x.acked
  unfolding take_dl
  take_dl_acked m x none = refl
  take_dl_acked m x (some (f, left)) = refl

  when_pending_acked :
      (pending : Bool) (p q : Node (List ℕ) × Xfer)
      → p.1.acked ≡ true
      → q.1.acked ≡ true
      → (when_pending encrypt_block node_addr pending p q).1.acked ≡ true
  unfolding when_pending
  when_pending_acked true p q a b = a
  when_pending_acked false p q a b = b

  -- Without an ACK there is no downlink.
  take_ack-none :
      (m : Node (List ℕ)) (x : Xfer) (dl_window : List Rx)
      (found : Option ((Found × Ack) × List Rx))
      → x.dl ≡ none
      → (take_ack encrypt_block node_addr m x dl_window found).1.acked ≡ false
      → (take_ack encrypt_block node_addr m x dl_window found).1.dl ≡ none
  unfolding take_ack wait_dl
  take_ack-none m x dl_window none e h = e
  take_ack-none m x dl_window (some ((f, a), left)) e h =
      absurd (true-ne-false (sym (when_pending_acked a.pending _ _ (take_dl_acked _ _ _) refl) ∙ h))

  unless_acked-Exchanged :
      (acked : Bool) (n : Node (List ℕ)) (p : Node (List ℕ) × Xfer)
      (rest : Node (List ℕ) × Xfer × Ret)
      → Exchanged encrypt_block node_addr n p.0 p.1
      → (acked ≡ false → Exchanged encrypt_block node_addr n rest.0 rest.1)
      → let q = unless_acked encrypt_block node_addr acked p rest in
        Exchanged encrypt_block node_addr n q.0 q.1
  unfolding unless_acked
  unless_acked-Exchanged true n p rest a b = a
  unless_acked-Exchanged false n p rest a b = b refl

  after_tx-Exchanged :
      (tx : Ret) (n m : Node (List ℕ)) (x : Xfer) (next : Node (List ℕ) × Xfer)
      (rest : Node (List ℕ) × Xfer × Ret)
      → Exchanged encrypt_block node_addr n m x
      → Exchanged encrypt_block node_addr n next.0 next.1
      → (next.1.acked ≡ false → Exchanged encrypt_block node_addr n rest.0 rest.1)
      → let q = after_tx encrypt_block node_addr tx m x next rest in
        Exchanged encrypt_block node_addr n q.0 q.1
  unfolding after_tx
  after_tx-Exchanged (fail e) n m x next rest h a b = h
  after_tx-Exchanged ok n m x next rest h a b = unless_acked-Exchanged next.1.acked n next rest a b

  unless_held-Exchanged :
      (held : Bool) (n : Node (List ℕ)) (stop go : Node (List ℕ) × Xfer × Ret)
      → Exchanged encrypt_block node_addr n stop.0 stop.1
      → Exchanged encrypt_block node_addr n go.0 go.1
      → let q = unless_held encrypt_block node_addr held stop go in
        Exchanged encrypt_block node_addr n q.0 q.1
  unfolding unless_held
  unless_held-Exchanged true n stop go a b = a
  unless_held-Exchanged false n stop go a b = b

  ack_when_same :
      (owed : Bool) (m : Node (List ℕ)) (x : Xfer) (r : Rep)
      → (ack_when encrypt_block node_addr owed m x r).1 ≡ x
  unfolding ack_when
  ack_when_same true m x r = refl
  ack_when_same false m x r = refl

  sent_once-none :
      (confirmed : Bool) (m : Node (List ℕ)) (x : Xfer) (r : Rep)
      → x.dl ≡ none
      → (sent_once encrypt_block node_addr confirmed m x r).1.acked ≡ false
      → (sent_once encrypt_block node_addr confirmed m x r).1.dl ≡ none
  unfolding sent_once ack_if_owed
  sent_once-none false m x r e h = e
  sent_once-none true m x r e h =
      let x' = record x { sent = x.sent + 1 } in
      let found =
        wait_for encrypt_block node_addr m (accept_ack encrypt_block node_addr x.counter)
          r.ack_window in
      let next = take_ack encrypt_block node_addr m x' r.dl_window found in
      let same = ack_when_same next.1.ack_owed next.0 next.1 r in
      ap (λ (y : Xfer). y.dl) same
      ∙ take_ack-none m x' r.dl_window found e (ap (λ (y : Xfer). y.acked) (sym same) ∙ h)

  send_loop-Exchanged :
      (first confirmed : Bool) (n m : Node (List ℕ)) (x : Xfer) (ret : Ret) (rs : List Rep)
      → Exchanged encrypt_block node_addr n m x
      → x.dl ≡ none
      → let q = send_loop encrypt_block node_addr first confirmed m x ret rs in
        Exchanged encrypt_block node_addr n q.0 q.1
  unfolding send_loop
  send_loop-Exchanged first confirmed n m x ret [] h e = h
  send_loop-Exchanged first confirmed n m x ret (r ∷ rs) h e =
      let next = sent_once encrypt_block node_addr confirmed m x r in
      let rest = send_loop encrypt_block node_addr false confirmed next.0 next.1 ok rs in
      let once = sent_once-Exchanged encrypt_block node_addr confirmed n m x r h e in
      unless_held-Exchanged (not first && r.held) n (m, x, ret)
        (after_tx encrypt_block node_addr r.tx m x next rest) h
        (after_tx-Exchanged r.tx n m x next rest h once (λ u.
          send_loop-Exchanged false confirmed n next.0 next.1 ok rs once
            (sent_once-none confirmed m x r e u)))

  started-Exchanged :
      (n m : Node (List ℕ)) (counter : ℕ)
      → Keeps n m
      → Exchanged encrypt_block node_addr n m (record no_xfer { counter = counter })
  started-Exchanged n m counter (k, i, l) = record {
    key = k;
    net_id = i;
    lane = omega (arith, l);
    ack = tt;
    dl = tt;
  }

  exchange_sealed-Exchanged :
      (pt : List ℕ) (confirmed : Bool) (attempt : Option ℕ) (rs : List Rep) (n m : Node (List ℕ))
      (counter : ℕ) (r : Result (List ℕ))
      → Keeps n m
      → let q = exchange_sealed encrypt_block node_addr pt confirmed attempt rs m counter r in
        Exchanged encrypt_block node_addr n q.1 q.2
  unfolding exchange_sealed note_sealed
  exchange_sealed-Exchanged pt confirmed attempt rs n m counter (err e) k =
      started-Exchanged n m 0 k
  exchange_sealed-Exchanged pt confirmed attempt rs n m counter (done frame) k =
      send_loop-Exchanged true confirmed n (note_sealed m counter pt confirmed attempt)
        (record no_xfer { counter = counter }) ok (take (reps encrypt_block node_addr confirmed) rs)
        (started-Exchanged n (note_sealed m counter pt confirmed attempt) counter k) refl

  exchange_counted-Exchanged :
      (pt : List ℕ) (confirmed : Bool) (attempt : Option ℕ) (rs : List Rep) (n : Node (List ℕ))
      (r : Result ℕ × Node (List ℕ))
      → Keeps n r.1
      → let q = exchange_counted encrypt_block node_addr pt confirmed attempt rs r in
        Exchanged encrypt_block node_addr n q.1 q.2
  unfolding exchange_counted
  exchange_counted-Exchanged pt confirmed attempt rs n (err e, m) k = started-Exchanged n m 0 k
  exchange_counted-Exchanged pt confirmed attempt rs n (done counter, m) k =
      exchange_sealed-Exchanged pt confirmed attempt rs n m counter
        (seal encrypt_block m.key
          record {
            type = type_data;
            flags = if confirmed then 1 else 0;
            src = node_addr;
            dest = m.net_id;
            counter = counter;
          }
          pt frame_max)
        k

  if-Exchanged :
      (b : Bool) (n : Node (List ℕ)) (p q : Ret × Node (List ℕ) × Xfer)
      → Exchanged encrypt_block node_addr n p.1 p.2
      → Exchanged encrypt_block node_addr n q.1 q.2
      → let r = if b then p else q in Exchanged encrypt_block node_addr n r.1 r.2
  if-Exchanged true n p q a b = a
  if-Exchanged false n p q a b = b

  -- Whatever is received, an exchange keeps the session key and its network, never moves the replay
  -- lane back, takes as its ACK only a frame from the gateway to this node above the lane that opens
  -- under the session key and acknowledges its counter, and hands on a downlink only from such a
  -- frame, whose counter is the new lane.
  pub exchange-Exchanged :
      (n : Node (List ℕ)) (listening too_long held : Bool) (pt : List ℕ) (confirmed : Bool)
      (attempt : Option ℕ) (saved saved' : Ret) (rs : List Rep)
      → let q =
          exchange encrypt_block node_addr n listening too_long held pt confirmed attempt saved
            saved' rs in
        Exchanged encrypt_block node_addr n q.1 q.2
  unfolding exchange
  exchange-Exchanged n listening too_long held pt confirmed attempt saved saved' rs =
      let refused = started-Exchanged n n 0 (refl, refl, refl) in
      if-Exchanged listening n _ _ refused (
        if-Exchanged (not_paired encrypt_block node_addr n.link) n _ _ refused (
          if-Exchanged (ltb payload_max (length pt) || too_long) n _ _ refused (
            if-Exchanged held n _ _ refused (
              exchange_counted-Exchanged pt confirmed attempt rs n
                (exchange_counter n pt attempt saved saved')
                (exchange_counter-Keeps n pt attempt saved saved')))))
