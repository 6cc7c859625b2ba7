-- ===== src/P2p/Exchange/Lane.antt =====
-- app/src/app_radio_p2p.c: what an exchange accepts from the gateway, and the replay lane.
use sticker_firmware.Base.{
  ℕ, ◌<◌, ◌≤◌, ◌≡◌, refl, sym, ap, ◌∙◌, arith, Bool, true, false, not, ◌||◌, Option, none, some,
  List, [], ◌∷◌, ◌==◌, Result, done, err, Bool-cases, Option-cases, inl, inr,
}
use sticker_firmware.P2p.Frame.{
  Hdr, Ack, Verdict, hdr_get, unseal, parse_ack, replay_check, payload_max,
}
use sticker_firmware.P2p.Frame.Sealing.{unseal-hdr_get}
use sticker_firmware.P2p.Node.{Node}
use sticker_firmware.P2p.Exchange.{
  Rx, Found, Xfer, examine, opened, judge, found_in, taken, wait_for, ack_of, accept_ack, take_dl,
  is_fresh, type_ack,
}

is_fresh_lem : (v : Verdict) → is_fresh v ≡ true → v ≡ Verdict.fresh
is_fresh_lem Verdict.fresh h = refl
is_fresh_lem Verdict.repeat h = absurd (cc)

-- What taking a counter leaves alone.
abbrev pub Keeps : Node (List ℕ) → Node (List ℕ) → Type 0
Keeps n n' = (n'.key ≡ n.key) × (n'.net_id ≡ n.net_id) × (n'.gw_last ≡ n.gw_last)

module _ (encrypt_block : List ℕ → List ℕ → List ℕ) (node_addr : ℕ) where
  -- The frame opens under the session key, comes from the gateway to this node, and is no replay.
  pub record Comes (n : Node (List ℕ)) (f : Found) : Type 0 where
    pub unsealed : unseal encrypt_block n.key f.rx.buf payload_max ≡ done (f.hdr, f.pt)
    pub src : f.hdr.src ≡ n.net_id
    pub dest : f.hdr.dest ≡ node_addr
    pub verdict : replay_check n.gw_last f.hdr.counter ≡ done f.verdict

  judge_parts :
      (rx : Rx) (h : Hdr) (pt : List ℕ) (v : Result Verdict) (f : Found)
      → judge encrypt_block node_addr rx h pt v ≡ some f
      → (h ≡ f.hdr) × (pt ≡ f.pt) × (rx ≡ f.rx) × (v ≡ done f.verdict)
  unfolding judge
  judge_parts rx h pt (err e) f p = absurd (cc)
  judge_parts rx h pt (done v) f p = ground arith

  opened_parts :
      (gw_last : ℕ) (rx : Rx) (r : Result (Hdr × List ℕ)) (f : Found)
      → opened encrypt_block node_addr gw_last rx r ≡ some f
      → (r ≡ done (f.hdr, f.pt))
        × (rx ≡ f.rx)
        × (replay_check gw_last f.hdr.counter ≡ done f.verdict)
  unfolding opened
  opened_parts gw_last rx (err e) f p = absurd (cc)
  opened_parts gw_last rx (done (h, pt)) f p =
      let (hdr, body, same, verdict) = judge_parts rx h pt (replay_check gw_last h.counter) f p in
      (cc, same, ap (λ (g : Hdr). replay_check gw_last g.counter) (sym hdr) ∙ verdict)

  examine-Comes :
      (n : Node (List ℕ)) (rx : Rx) (r : Result Hdr) (f : Found)
      → hdr_get rx.buf ≡ r
      → examine encrypt_block node_addr n rx r ≡ some f
      → Comes n f × (rx ≡ f.rx)
  unfolding examine
  examine-Comes n rx (err e) f get p = absurd (cc)
  examine-Comes n rx (done h) f get p =
      elim (Bool-cases (not (h.src == n.net_id) || not (h.dest == node_addr))) [
        | inl other ↦ absurd (ground (arith, other, p))
        | inr ours ↦
            let (u, same, verdict) =
              opened_parts n.gw_last rx (unseal encrypt_block n.key rx.buf payload_max) f
                (rw ours at p) in
            let u' : unseal encrypt_block n.key f.rx.buf payload_max ≡ done (f.hdr, f.pt) =
              rw (← same) u in
            let hdr : done h ≡ done f.hdr =
              sym get ∙ unseal-hdr_get encrypt_block n.key rx.buf f.hdr f.pt u in
            let eq : h ≡ f.hdr = cc in
            (
              record {
                unsealed = u';
                src = rw (← eq) (ground (arith, ours));
                dest = rw (← eq) (ground (arith, ours));
                verdict = verdict;
              },
              same,
            )
      ]

  found_in-Comes :
      {A : Type 0} (n : Node (List ℕ)) (accept : Found → Option A) (q : List Rx) (rx : Rx)
      (rest : Option (A × List Rx)) (a : A) (left : List Rx) (r : Option Found)
      → (rest ≡ some (a, left) → (f : Found) × (accept f ≡ some a) × Comes n f)
      → examine encrypt_block node_addr n rx (hdr_get rx.buf) ≡ r
      → found_in accept rest q r ≡ some (a, left)
      → (f : Found) × (accept f ≡ some a) × Comes n f
  unfolding found_in taken
  found_in-Comes n accept q rx rest a left none ih e p = ih p
  found_in-Comes n accept q rx rest a left (some f) ih e p = elim (Option-cases (accept f)) [
    | inl refused ↦ ih (rw (refused, taken) at p)
    | inr (b, took) ↦
        let at : some (b, q) ≡ some (a, left) = rw (took, taken) at p in
        let same : b ≡ a = cc in
        (f, took ∙ ap some same, (examine-Comes n rx (hdr_get rx.buf) f refl e).0)
  ]

  pub wait_for-Comes :
      {A : Type 0} (n : Node (List ℕ)) (accept : Found → Option A) (q : List Rx) (a : A)
      (left : List Rx)
      → wait_for encrypt_block node_addr n accept q ≡ some (a, left)
      → (f : Found) × (accept f ≡ some a) × Comes n f
  unfolding wait_for
  wait_for-Comes n accept [] a left p = absurd (cc)
  wait_for-Comes n accept (rx ∷ q) a left p =
      found_in-Comes n accept q rx (wait_for encrypt_block node_addr n accept q) a left
        (examine encrypt_block node_addr n rx (hdr_get rx.buf)) (wait_for-Comes n accept q a left)
        refl p

  -- An ACK that is taken, and a downlink that is taken.
  ack_of_parts :
      (counter : ℕ) (f g : Found) (a : Ack) (r : Result Ack)
      → ack_of encrypt_block node_addr counter f r ≡ some (g, a)
      → (f ≡ g) × (r ≡ done a) × (a.acked ≡ counter)
  unfolding ack_of
  ack_of_parts counter f g a (err e) p = absurd (cc)
  ack_of_parts counter f g a (done b) p = elim (Bool-cases (not (b.acked == counter))) [
    | inl other ↦ absurd (ground (arith, other, p))
    | inr same ↦
        let at : some (f, b) ≡ some (g, a) = rw same at p in
        let fg : f ≡ g = cc in
        let ba : b ≡ a = cc in
        (fg, ap done ba, ap (λ (x : Ack). x.acked) (sym ba) ∙ ground (arith, same))
  ]

  pub accept_ack_parts :
      (counter : ℕ) (f g : Found) (a : Ack)
      → accept_ack encrypt_block node_addr counter f ≡ some (g, a)
      → (f ≡ g)
        × (f.verdict ≡ Verdict.fresh)
        × (f.hdr.type ≡ 1)
        × (parse_ack f.pt ≡ done a)
        × (a.acked ≡ counter)
  unfolding accept_ack
  accept_ack_parts counter f g a p =
      elim (Bool-cases (not (is_fresh f.verdict) || not (f.hdr.type == type_ack))) [
        | inl other ↦ absurd (ground (arith, other, p))
        | inr ours ↦
            let (same, parsed, acked) =
              ack_of_parts counter f g a (parse_ack f.pt) (rw ours at p) in
            (
              same,
              is_fresh_lem f.verdict (ground (arith, ours)),
              ground (arith, ours),
              parsed,
              acked,
            )
      ]

  -- A fresh frame is above the lane, and none is below it.
  pub fresh-above :
      (last c : ℕ) (v : Verdict)
      → replay_check last c ≡ done v
      → (last ≤ c) × (v ≡ Verdict.fresh → last < c) × (0 < c)
  unfolding replay_check
  fresh-above last c v p = ground arith

  -- The downlink that an exchange hands on came from the gateway under the session key, was never
  -- below the lane, and is the new lane.
  abbrev pub Delivered : Node (List ℕ) → Node (List ℕ) → Option (List ℕ) → Type 0
  Delivered n n' none = Unit {0}
  Delivered n n' (some pt) =
      (h : Hdr) × (buf : List ℕ) × (unseal encrypt_block n.key buf payload_max ≡ done (h, pt))
      × (h.src ≡ n.net_id)
      × (h.dest ≡ node_addr)
      × (h.type ≡ 0)
      × (n.gw_last < h.counter)
      × (n'.gw_last ≡ h.counter)

  -- The frame was acknowledged by the gateway under the session key, by a frame above the lane.
  abbrev pub Acknowledged : Node (List ℕ) → ℕ → Bool → Type 0
  Acknowledged n counter false = Unit {0}
  Acknowledged n counter true =
      (h : Hdr) × (pt buf : List ℕ) × (a : Ack) × (unseal encrypt_block n.key buf payload_max
        ≡ done (h, pt))
      × (h.src ≡ n.net_id)
      × (h.dest ≡ node_addr)
      × (h.type ≡ 1)
      × (parse_ack pt ≡ done a)
      × (a.acked ≡ counter)
      × (n.gw_last < h.counter)

  pub record Exchanged (n n' : Node (List ℕ)) (x : Xfer) : Type 0 where
    pub key : n'.key ≡ n.key
    pub net_id : n'.net_id ≡ n.net_id
    pub lane : n.gw_last ≤ n'.gw_last
    pub ack : Acknowledged n x.counter x.acked
    pub dl : Delivered n n' x.dl

  pub take_dl-Exchanged :
      (n m : Node (List ℕ)) (x : Xfer) (found : Option (Found × List Rx))
      → Exchanged n m x
      → x.dl ≡ none
      → ((f : Found) (left : List Rx) → found ≡ some (f, left) → Comes m f × (f.hdr.type ≡ 0))
      → let (m', x') = take_dl encrypt_block node_addr m x found in Exchanged n m' x'
  unfolding take_dl
  take_dl-Exchanged n m x none h e comes = h
  take_dl-Exchanged n m x (some (f, left)) h e comes = elim (Bool-cases (is_fresh f.verdict)) [
    | inl new ↦
        let (c, type) = comes f left refl in
        let (above, strict, _) = fresh-above m.gw_last f.hdr.counter f.verdict c.verdict in
        rw new (record {
          key = h.key;
          net_id = h.net_id;
          lane = omega (arith, h.lane, above);
          ack = h.ack;
          dl = (
            f.hdr,
            f.rx.buf,
            rw (← h.key) c.unsealed,
            c.src ∙ h.net_id,
            c.dest,
            type,
            omega (arith, h.lane, strict (is_fresh_lem f.verdict new)),
            refl,
          );
        })
    | inr old ↦
        rw (old, e) (record { key = h.key; net_id = h.net_id; lane = h.lane; ack = h.ack; dl = tt })
  ]
