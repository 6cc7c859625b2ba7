-- ===== src/P2p/Exchange/Keep.antt =====
-- app/src/app_radio_p2p.c: the counters of a frame leave the session as it is.
use sticker_firmware.Base.{
  ℕ, zero, suc, ◌≡◌, refl, ◌∙◌, Bool, true, false, Option, none, some, List, leb, ◌==◌, Ret, ok,
  fail, Result, done, err, Bool-cases, inl, inr,
}
use sticker_firmware.P2p.Node.{
  Node, fcnt_next, skip_zero, twr_counter_next, exchange_counter, or_next, retx_counter, u32_max,
}
use sticker_firmware.P2p.Exchange.Lane.{Keeps}

pub fcnt_next-Keeps : (n : Node (List ℕ)) (saved : Ret) → Keeps n (fcnt_next n saved).1
unfolding fcnt_next
fcnt_next-Keeps n ok = elim (Bool-cases (n.fcnt == u32_max)) [
  | inl last ↦ rw last (refl, refl, refl)
  | inr more ↦ elim (Bool-cases (leb n.fcnt_reserved n.fcnt)) [
    | inl spent ↦ rw (more, spent) (refl, refl, refl)
    | inr free ↦ rw (more, free) (refl, refl, refl)
  ]
]
fcnt_next-Keeps n (fail e) = elim (Bool-cases (n.fcnt == u32_max)) [
  | inl last ↦ rw last (refl, refl, refl)
  | inr more ↦ elim (Bool-cases (leb n.fcnt_reserved n.fcnt)) [
    | inl spent ↦ rw (more, spent) (refl, refl, refl)
    | inr free ↦ rw (more, free) (refl, refl, refl)
  ]
]

pub Keeps-trans : (a b c : Node (List ℕ)) → Keeps a b → Keeps b c → Keeps a c
Keeps-trans a b c (k, i, l) (k', i', l') = (k' ∙ k, i' ∙ i, l' ∙ l)

pub skip_zero-Keeps :
    (n n' : Node (List ℕ)) (saved : Ret) (r : Result ℕ)
    → Keeps n n'
    → Keeps n (skip_zero saved (r, n')).1
unfolding skip_zero
skip_zero-Keeps n n' saved (err e) k = k
skip_zero-Keeps n n' saved (done (suc c)) k = k
skip_zero-Keeps n n' saved (done zero) k =
    Keeps-trans n n' (fcnt_next n' saved).1 k (fcnt_next-Keeps n' saved)

pub twr_counter_next-Keeps :
    (n : Node (List ℕ)) (saved saved' : Ret) → Keeps n (twr_counter_next n saved saved').1
unfolding twr_counter_next
twr_counter_next-Keeps n saved saved' =
    skip_zero-Keeps n (fcnt_next n saved).1 saved' (fcnt_next n saved).0 (fcnt_next-Keeps n saved)

pub or_next-Keeps :
    (n : Node (List ℕ)) (retry : Option ℕ) (saved saved' : Ret)
    → Keeps n (or_next n retry saved saved').1
unfolding or_next
or_next-Keeps n none saved saved' = twr_counter_next-Keeps n saved saved'
or_next-Keeps n (some c) saved saved' = (refl, refl, refl)

pub exchange_counter-Keeps :
    (n : Node (List ℕ)) (pt : List ℕ) (attempt : Option ℕ) (saved saved' : Ret)
    → Keeps n (exchange_counter n pt attempt saved saved').1
unfolding exchange_counter
exchange_counter-Keeps n pt none saved saved' = twr_counter_next-Keeps n saved saved'
exchange_counter-Keeps n pt (some zero) saved saved' = twr_counter_next-Keeps n saved saved'
exchange_counter-Keeps n pt (some (suc a)) saved saved' =
    or_next-Keeps n (retx_counter n n.retx pt) saved saved'

pub true-ne-false : ◌≡◌ {A = Bool} true false → ⊥
true-ne-false e = cc
