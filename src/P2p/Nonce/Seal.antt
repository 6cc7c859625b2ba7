-- ===== src/P2p/Nonce/Seal.antt =====
-- app/src/app_radio_p2p.c: sealing a frame, new or retried, keeps it.
use sticker_firmware.Base.{
  ℕ, zero, suc, ◌+◌, ◌<◌, ◌≤◌, ◌≡◌, refl, sym, ◌∙◌, arith, Bool, true, false, Option, none, some,
  List, [], ◌∷◌, Ret, Result, done, err, ◌==◌, ◌&&◌, if◌then◌else◌, u32, Bool-cases, inl, inr,
}
use sticker_firmware.P2p.Node.{
  Node, Pairing, twr_counter_next, retx_counter, or_next, exchange_counter, note_sealed, is_retried,
  same_bytes,
}
use sticker_firmware.P2p.Nonce.{Use, State, sealed, acked}
use sticker_firmware.P2p.Nonce.Valid.{
  All, All-map, Agrees, SealsOnce, StoredPast, IsPast, RetxAgrees, IsSound, RetxBound, IsValid,
}
use sticker_firmware.P2p.Nonce.Take.{
  Took, twr_counter_next-Took, Took-IsPast, RetxBound-grows, Took-IsValid,
}

IsPast-retx :
    (n : Node ℕ) (k : ℕ) (retx : Option (ℕ × List ℕ)) (u : Use)
    → IsPast n k u
    → IsPast (record n { retx = retx }) k u
IsPast-retx n k retx u p = record { old = p.old; current = p.current; stored = p.stored }

new-IsPast :
    (n : Node ℕ) (k c : ℕ) (pt : List ℕ)
    → IsSound n k
    → c < n.fcnt
    → IsPast n k (record { key = n.key; counter = c; pt = pt })
new-IsPast n k c pt v lt = record { old = v.key; current = λ _. lt; stored = spent n.pairing }
  where
    spent :
        (p : Option (Pairing ℕ))
        → StoredPast p n.fcnt_reserved (record { key = n.key; counter = c; pt = pt })
    spent none = tt
    spent (some p) = λ _. omega (arith, v.below)

with_use-IsValid :
    (s : State) (n : Node ℕ) (c : ℕ) (pt : List ℕ) (retx : Option (ℕ × List ℕ))
    → IsSound n s.next_key
    → c < n.fcnt
    → All (IsPast n s.next_key) s.uses
    → All (RetxAgrees (some (c, pt)) n.key) s.uses
    → SealsOnce s.uses
    → RetxBound retx n.fcnt
    → RetxAgrees retx n.key (record { key = n.key; counter = c; pt = pt })
    → All (RetxAgrees retx n.key) s.uses
    → IsValid (record s {
      node = record n { retx = retx };
      uses = record { key = n.key; counter = c; pt = pt } ∷ s.uses;
    })
with_use-IsValid s n c pt retx v lt past agree once bound new old = record {
  bound = bound;
  sound = record { base = v.base; below = v.below; high = v.high; key = v.key; stored = v.stored };
  past = (
    IsPast-retx n s.next_key retx (record { key = n.key; counter = c; pt = pt })
        (new-IsPast n s.next_key c pt v lt),
    All-map (IsPast n s.next_key) (IsPast (record n { retx = retx }) s.next_key) s.uses
        (IsPast-retx n s.next_key retx) past,
  );
  retx = (new, old);
  once = (
    All-map (RetxAgrees (some (c, pt)) n.key)
        (Agrees (record { key = n.key; counter = c; pt = pt })) s.uses
        (λ u h e d. sym (h (sym e) (sym d))) agree,
    once,
  );
}

pub All-any : (P : Use → Type 0) (us : List Use) → ((u : Use) → P u) → All P us
All-any P [] f = tt
All-any P (u ∷ us) f = (f u, All-any P us f)

-- A frame sealed under a counter that agrees with every use that the state records.
sealed-IsValid :
    (s : State) (n : Node ℕ) (c : ℕ) (pt : List ℕ) (kept : Bool)
    → IsSound n s.next_key
    → c < n.fcnt
    → All (IsPast n s.next_key) s.uses
    → All (RetxAgrees (some (c, pt)) n.key) s.uses
    → SealsOnce s.uses
    → let u : Use = record { key = n.key; counter = c; pt = pt } in
      IsValid (record s {
        node = record n { retx = if kept then some (c, pt) else none };
        uses = u ∷ s.uses;
      })
sealed-IsValid s n c pt true v lt past agree once =
    with_use-IsValid s n c pt (some (c, pt)) v lt past agree once lt (λ _ _. refl) agree
sealed-IsValid s n c pt false v lt past agree once =
    with_use-IsValid s n c pt none v lt past agree once tt tt
      (All-any (RetxAgrees none n.key) s.uses (λ _. tt))

-- Below the next counter nothing was sealed under a fresh one.
fresh-agrees :
    (n n' : Node ℕ) (k c : ℕ) (pt : List ℕ) (u : Use)
    → n'.key ≡ n.key
    → n.fcnt ≤ c
    → IsPast n k u
    → RetxAgrees (some (c, pt)) n'.key u
fresh-agrees n n' k c pt u same low p e d = absurd (omega (arith, p.current (e ∙ same)))

fresh_seal-IsValid :
    (s : State) (pt : List ℕ) (confirmed : Bool) (attempt : Option ℕ) (r : Result ℕ) (n : Node ℕ)
    → IsValid s
    → Took s.node n s.next_key r
    → IsValid (sealed s pt confirmed attempt (r, n))
unfolding sealed note_sealed
fresh_seal-IsValid s pt confirmed attempt (err e) n v t = Took-IsValid s n (err e) v t
fresh_seal-IsValid s pt confirmed attempt (done c) n v t =
    sealed-IsValid s n c pt (confirmed && is_retried attempt) t.sound t.fresh.1
      (All-map (IsPast s.node s.next_key) (IsPast n s.next_key) s.uses
        (λ u. Took-IsPast s.node n s.next_key (done c) u t) v.past)
      (All-map (IsPast s.node s.next_key) (RetxAgrees (some (c, pt)) n.key) s.uses
        (λ u. fresh-agrees s.node n s.next_key c pt u t.key t.fresh.0) v.past)
      v.once

eq_of_same_bytes : (xs ys : List ℕ) → same_bytes xs ys ≡ true → xs ≡ ys
eq_of_same_bytes [] [] h = refl
eq_of_same_bytes [] (y ∷ ys) h = absurd (cc)
eq_of_same_bytes (x ∷ xs) [] h = absurd (cc)
eq_of_same_bytes (x ∷ xs) (y ∷ ys) h = ground (arith, eq_of_same_bytes xs ys)

pub retx_counter_lem :
    (n : Node ℕ) (retx : Option (ℕ × List ℕ)) (pt : List ℕ) (c : ℕ)
    → retx_counter n retx pt ≡ some c
    → (retx ≡ some (c, pt)) × (n.fcnt ≡ u32 (c + 1))
unfolding retx_counter
retx_counter_lem n none pt c h = absurd (cc)
retx_counter_lem n (some (d, sent)) pt c h =
    elim (Bool-cases (same_bytes sent pt && n.fcnt == u32 (d + 1))) [
      | inl e ↦ ground (arith, e, h, eq_of_same_bytes sent pt)
      | inr e ↦ absurd (ground (arith, e, h))
    ]

exchange-IsValid :
    (s : State) (pt : List ℕ) (confirmed : Bool) (attempt : ℕ) (retry : Option ℕ)
    (saved saved' : Ret)
    → IsValid s
    → retx_counter s.node s.node.retx pt ≡ retry
    → IsValid (sealed s pt confirmed (some attempt) (or_next s.node retry saved saved'))
unfolding or_next sealed note_sealed
exchange-IsValid s pt confirmed attempt none saved saved' v e =
    fresh_seal-IsValid s pt confirmed (some attempt) (twr_counter_next s.node saved saved').0
      (twr_counter_next s.node saved saved').1 v
      (twr_counter_next-Took s.node s.next_key saved saved' v.sound)
exchange-IsValid s pt confirmed attempt (some c) saved saved' v e =
    let (kept, next) = retx_counter_lem s.node s.node.retx pt c e in
    sealed-IsValid s s.node c pt (confirmed && true) v.sound (rw kept at v.bound) v.past
      (rw kept at v.retx) v.once

pub send-IsValid :
    (s : State) (pt : List ℕ) (confirmed : Bool) (attempt : Option ℕ) (saved saved' : Ret)
    → IsValid s
    → IsValid (sealed s pt confirmed attempt (exchange_counter s.node pt attempt saved saved'))
unfolding exchange_counter
send-IsValid s pt confirmed none saved saved' v =
    fresh_seal-IsValid s pt confirmed none (twr_counter_next s.node saved saved').0
      (twr_counter_next s.node saved saved').1 v
      (twr_counter_next-Took s.node s.next_key saved saved' v.sound)
send-IsValid s pt confirmed (some zero) saved saved' v =
    fresh_seal-IsValid s pt confirmed (some zero) (twr_counter_next s.node saved saved').0
      (twr_counter_next s.node saved saved').1 v
      (twr_counter_next-Took s.node s.next_key saved saved' v.sound)
send-IsValid s pt confirmed (some (suc a)) saved saved' v =
    exchange-IsValid s pt confirmed (suc a) (retx_counter s.node s.node.retx pt) saved saved' v refl

pub ack-IsValid :
    (s : State) (pt : List ℕ) (r : Result ℕ) (n : Node ℕ)
    → IsValid s
    → Took s.node n s.next_key r
    → IsValid (acked s pt (r, n))
unfolding acked
ack-IsValid s pt (err e) n v t = Took-IsValid s n (err e) v t
ack-IsValid s pt (done c) n v t =
    with_use-IsValid s n c pt n.retx t.sound t.fresh.1
      (All-map (IsPast s.node s.next_key) (IsPast n s.next_key) s.uses
        (λ u. Took-IsPast s.node n s.next_key (done c) u t) v.past)
      (All-map (IsPast s.node s.next_key) (RetxAgrees (some (c, pt)) n.key) s.uses
        (λ u. fresh-agrees s.node n s.next_key c pt u t.key t.fresh.0) v.past)
      v.once (rw t.retx (RetxBound-grows s.node.retx s.node.fcnt n.fcnt t.grows v.bound))
      (rw t.retx (above s.node.retx v.bound)) (rw (t.retx, t.key) v.retx)
  where
    above :
        (retx : Option (ℕ × List ℕ))
        → RetxBound retx s.node.fcnt
        → RetxAgrees retx n.key (record { key = n.key; counter = c; pt = pt })
    above none b = tt
    above (some (d, q)) b = λ _ e. absurd (omega (arith, e, b, t.fresh.0))
