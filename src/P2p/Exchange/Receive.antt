-- ===== src/P2p/Exchange/Receive.antt =====
-- app/src/app_radio_p2p.c: one transmission that went out, with the receptions behind it.
use sticker_firmware.Base.{
  ℕ, ◌+◌, ◌<◌, ◌≡◌, refl, ◌∙◌, arith, Bool, true, false, not, Option, none, some, List, ◌++◌, ◌==◌,
  take, Bool-cases, inl, inr,
}
use sticker_firmware.P2p.Frame.{Ack}
use sticker_firmware.P2p.Node.{Node, twr_counter_next}
use sticker_firmware.P2p.Exchange.{
  Rx, Found, Xfer, Rep, wait_for, accept_ack, accept_dl, wait_dl, when_pending, take_ack, auto_ack,
  ack_when, ack_if_owed, sent_once, type_data, ack_tail_buf,
}
use sticker_firmware.P2p.Exchange.Lane.{
  wait_for-Comes, accept_ack_parts, fresh-above, Keeps, Delivered, Exchanged, take_dl-Exchanged,
}
use sticker_firmware.P2p.Exchange.Keep.{twr_counter_next-Keeps}

module _ (encrypt_block : List ℕ → List ℕ → List ℕ) (node_addr : ℕ) where
  pub Exchanged-Keeps :
      (n m m' : Node (List ℕ)) (x : Xfer)
      → Exchanged encrypt_block node_addr n m x
      → Keeps m m'
      → Exchanged encrypt_block node_addr n m' x
  Exchanged-Keeps n m m' x h (k, i, l) = record {
    key = k ∙ h.key;
    net_id = i ∙ h.net_id;
    lane = omega (arith, h.lane, l);
    ack = h.ack;
    dl = moved x.dl h.dl;
  }
    where
      moved :
          (d : Option (List ℕ))
          → Delivered encrypt_block node_addr n m d
          → Delivered encrypt_block node_addr n m' d
      moved none t = tt
      moved (some pt) (hdr, buf, u, s, d, t, above, at) = (hdr, buf, u, s, d, t, above, l ∙ at)

  pub accept_dl_parts :
      (f g : Found) → accept_dl encrypt_block node_addr f ≡ some g → (f ≡ g) × (f.hdr.type ≡ 0)
  unfolding accept_dl
  accept_dl_parts f g p = elim (Bool-cases (not (f.hdr.type == type_data))) [
    | inl other ↦ absurd (ground (arith, other, p))
    | inr right ↦ ground (arith, right, p)
  ]

  pub wait_dl-Exchanged :
      (n m : Node (List ℕ)) (x : Xfer) (window : List Rx)
      → Exchanged encrypt_block node_addr n m x
      → x.dl ≡ none
      → let (m', x') = wait_dl encrypt_block node_addr m x window in
        Exchanged encrypt_block node_addr n m' x'
  unfolding wait_dl
  wait_dl-Exchanged n m x window h e =
      take_dl-Exchanged encrypt_block node_addr n m x
        (wait_for encrypt_block node_addr m (accept_dl encrypt_block node_addr) window) h e
        (λ f left p.
          let (g, accepted, c) =
            wait_for-Comes encrypt_block node_addr m (accept_dl encrypt_block node_addr) window f
              left p in
          let (same, type) = accept_dl_parts g f accepted in rw (← same) (c, type))

  pub when_pending-Exchanged :
      (pending : Bool) (n : Node (List ℕ)) (p q : Node (List ℕ) × Xfer)
      → Exchanged encrypt_block node_addr n p.0 p.1
      → Exchanged encrypt_block node_addr n q.0 q.1
      → let (m, x) = when_pending encrypt_block node_addr pending p q in
        Exchanged encrypt_block node_addr n m x
  unfolding when_pending
  when_pending-Exchanged true n p q a b = a
  when_pending-Exchanged false n p q a b = b

  pub take_ack-Exchanged :
      (n m : Node (List ℕ)) (x : Xfer) (window dl_window : List Rx)
      (found : Option ((Found × Ack) × List Rx))
      → Exchanged encrypt_block node_addr n m x
      → x.dl ≡ none
      → wait_for encrypt_block node_addr m (accept_ack encrypt_block node_addr x.counter) window
        ≡ found
      → let (m', x') = take_ack encrypt_block node_addr m x dl_window found in
        Exchanged encrypt_block node_addr n m' x'
  unfolding take_ack
  take_ack-Exchanged n m x window dl_window none h e p = h
  take_ack-Exchanged n m x window dl_window (some ((f, a), left)) h e p =
      let (g, accepted, c) =
        wait_for-Comes encrypt_block node_addr m (accept_ack encrypt_block node_addr x.counter)
          window (f, a) left p in
      let (same, new, type, parsed, acked) =
        accept_ack_parts encrypt_block node_addr x.counter g f a accepted in
      let (above, strict, _) =
        fresh-above encrypt_block node_addr m.gw_last g.hdr.counter g.verdict c.verdict in
      let m' : Node (List ℕ) = record m { gw_last = f.hdr.counter; last_ack_valid = true } in
      let x' : Xfer = record x {
        acked = true;
        pending = a.pending;
        ack_tail = take ack_tail_buf a.tail;
        rssi = f.rx.rssi;
        snr = f.rx.snr;
      } in
      let lane : n.gw_last < f.hdr.counter = rw (← same) (omega (arith, h.lane, strict new)) in
      let ack : Exchanged encrypt_block node_addr n m' x' = record {
        key = h.key;
        net_id = h.net_id;
        lane = omega (arith, lane);
        ack = (
          g.hdr,
          g.pt,
          g.rx.buf,
          a,
          rw (← h.key) c.unsealed,
          c.src ∙ h.net_id,
          c.dest,
          type,
          parsed,
          acked,
          omega (arith, h.lane, strict new),
        );
        dl = rw e tt;
      } in
      when_pending-Exchanged a.pending n (wait_dl encrypt_block node_addr m' x' (left ++ dl_window))
        (m', x') (wait_dl-Exchanged n m' x' (left ++ dl_window) ack e) ack

  pub ack_when-Exchanged :
      (owed : Bool) (n m : Node (List ℕ)) (x : Xfer) (r : Rep)
      → Exchanged encrypt_block node_addr n m x
      → let (m', x') = ack_when encrypt_block node_addr owed m x r in
        Exchanged encrypt_block node_addr n m' x'
  unfolding ack_when auto_ack
  ack_when-Exchanged false n m x r h = h
  ack_when-Exchanged true n m x r h = elim (Bool-cases r.ack_held) [
    | inl held ↦ rw held h
    | inr free ↦ rw free (
        Exchanged-Keeps n m (twr_counter_next m r.ack_saved r.ack_saved').1 x h
          (twr_counter_next-Keeps m r.ack_saved r.ack_saved'))
  ]

  pub sent_once-Exchanged :
      (confirmed : Bool) (n m : Node (List ℕ)) (x : Xfer) (r : Rep)
      → Exchanged encrypt_block node_addr n m x
      → x.dl ≡ none
      → let (m', x') = sent_once encrypt_block node_addr confirmed m x r in
        Exchanged encrypt_block node_addr n m' x'
  unfolding sent_once ack_if_owed
  sent_once-Exchanged false n m x r h e = record {
    key = h.key;
    net_id = h.net_id;
    lane = h.lane;
    ack = h.ack;
    dl = h.dl;
  }
  sent_once-Exchanged true n m x r h e =
      let x' = record x { sent = x.sent + 1 } in
      let found =
        wait_for encrypt_block node_addr m (accept_ack encrypt_block node_addr x.counter)
          r.ack_window in
      let next = take_ack encrypt_block node_addr m x' r.dl_window found in
      ack_when-Exchanged next.1.ack_owed n next.0 next.1 r (
        take_ack-Exchanged n m x' r.ack_window r.dl_window found
          (record { key = h.key; net_id = h.net_id; lane = h.lane; ack = h.ack; dl = h.dl }) e refl)
