-- ===== src/P2p/Nonce/Take.antt =====
-- app/src/app_radio_p2p.c: taking a counter keeps it.
use sticker_firmware.Base.{
  ℕ, zero, suc, ◌≤◌, ◌≡◌, ◌∙◌, arith, Option, none, some, List, Ret, ok, fail, Result, done, err,
  leb, ◌==◌, Bool-cases, inl, inr,
}
use sticker_firmware.P2p.Node.{Node, Pairing, fcnt_next, skip_zero, twr_counter_next, u32_max}
use sticker_firmware.P2p.Nonce.{Use, State}
use sticker_firmware.P2p.Nonce.Valid.{
  All-map, StoredPast, IsPast, IsSound, RetxBound, IsValid, Between,
}

-- What taking a counter keeps.
pub record Took (n n' : Node ℕ) (k : ℕ) (r : Result ℕ) : Type 0 where
  pub sound : IsSound n' k
  pub key : n'.key ≡ n.key
  pub pairing : n'.pairing ≡ n.pairing
  pub retx : n'.retx ≡ n.retx
  pub grows : n.fcnt ≤ n'.fcnt
  pub reserved : n.fcnt_reserved ≤ n'.fcnt_reserved
  pub fresh : Between n.fcnt n'.fcnt r

pub fcnt_next-Took :
    (n : Node ℕ) (k : ℕ) (saved : Ret)
    → IsSound n k
    → Took n (fcnt_next n saved).1 k (fcnt_next n saved).0
unfolding fcnt_next
fcnt_next-Took n k ok v = elim (Bool-cases (n.fcnt == u32_max)) [
  | inl last ↦ rw last (ground arith)
  | inr more ↦ elim (Bool-cases (leb n.fcnt_reserved n.fcnt)) [
    | inl spent ↦ rw (more, spent) (ground arith)
    | inr free ↦ rw (more, free) (ground arith)
  ]
]
fcnt_next-Took n k (fail e) v = elim (Bool-cases (n.fcnt == u32_max)) [
  | inl last ↦ rw last (ground arith)
  | inr more ↦ elim (Bool-cases (leb n.fcnt_reserved n.fcnt)) [
    | inl spent ↦ rw (more, spent) (ground arith)
    | inr free ↦ rw (more, free) (ground arith)
  ]
]

Between-lower :
    (low low' high : ℕ) (r : Result ℕ) → low' ≤ low → Between low high r → Between low' high r
Between-lower low low' high (done c) h b = omega arith
Between-lower low low' high (err e) h b = tt

skip_zero-Took :
    (n n' : Node ℕ) (k : ℕ) (saved : Ret) (r : Result ℕ)
    → Took n n' k r
    → Took n (skip_zero saved (r, n')).1 k (skip_zero saved (r, n')).0
unfolding skip_zero
skip_zero-Took n n' k saved (err e) t = t
skip_zero-Took n n' k saved (done (suc c)) t = t
skip_zero-Took n n' k saved (done zero) t =
    let t' = fcnt_next-Took n' k saved t.sound in
    record {
      sound = t'.sound;
      key = t'.key ∙ t.key;
      pairing = t'.pairing ∙ t.pairing;
      retx = t'.retx ∙ t.retx;
      grows = omega (arith, t.grows, t'.grows);
      reserved = omega (arith, t.reserved, t'.reserved);
      fresh =
          Between-lower n'.fcnt n.fcnt (fcnt_next n' saved).1.fcnt (fcnt_next n' saved).0 t.grows
            t'.fresh;
    }

pub twr_counter_next-Took :
    (n : Node ℕ) (k : ℕ) (saved saved' : Ret)
    → IsSound n k
    → Took n (twr_counter_next n saved saved').1 k (twr_counter_next n saved saved').0
unfolding twr_counter_next
twr_counter_next-Took n k saved saved' v =
    skip_zero-Took n (fcnt_next n saved).1 k saved' (fcnt_next n saved).0
      (fcnt_next-Took n k saved v)

pub StoredPast-grows :
    (p : Option (Pairing ℕ)) (r r' : ℕ) (u : Use) → r ≤ r' → StoredPast p r u → StoredPast p r' u
StoredPast-grows none r r' u h s = tt
StoredPast-grows (some p) r r' u h s = λ e. omega (arith, s e)

pub Took-IsPast :
    (n n' : Node ℕ) (k : ℕ) (r : Result ℕ) (u : Use) → Took n n' k r → IsPast n k u → IsPast n' k u
Took-IsPast n n' k r u t p = record {
  old = p.old;
  current = λ e. omega (arith, t.grows, p.current (e ∙ t.key));
  stored =
      rw t.pairing
        (StoredPast-grows n.pairing n.fcnt_reserved n'.fcnt_reserved u t.reserved p.stored);
}

pub RetxBound-grows :
    (retx : Option (ℕ × List ℕ)) (f f' : ℕ) → f ≤ f' → RetxBound retx f → RetxBound retx f'
RetxBound-grows none f f' h b = tt
RetxBound-grows (some (c, _)) f f' h b = omega arith

-- A counter taken and not used.
pub Took-IsValid :
    (s : State) (n : Node ℕ) (r : Result ℕ)
    → IsValid s
    → Took s.node n s.next_key r
    → IsValid (record s { node = n })
Took-IsValid s n r v t = record {
  bound = rw t.retx (RetxBound-grows s.node.retx s.node.fcnt n.fcnt t.grows v.bound);
  sound = t.sound;
  past =
      All-map (IsPast s.node s.next_key) (IsPast n s.next_key) s.uses
        (λ u. Took-IsPast s.node n s.next_key r u t) v.past;
  retx = rw (t.retx, t.key) v.retx;
  once = v.once;
}
