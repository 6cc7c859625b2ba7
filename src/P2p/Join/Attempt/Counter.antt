-- ===== src/P2p/Join/Attempt/Counter.antt =====
-- app/src/app_radio_p2p.c: the counter of the join frames against those that were used.
use sticker_firmware.Base.{
  ℕ, ◌+◌, ◌<◌, ◌≤◌, ◌≡◌, refl, ◌∙◌, arith, Bool, true, false, Option, none, some, List, [], ◌∷◌,
  Ret, ok, fail, Bool-cases, inl, inr,
}
use sticker_firmware.P2p.Node.{
  Node, Modulation, JoinAccept, Pairing, pairing_persist, reboot, state_settings_set,
  dnonce_settings_set, fcnt_settings_set, is_reserved, same_modulation,
}
use sticker_firmware.P2p.Join.Attempt.{Sent, Attempt, nonce_from}

abbrev pub noted : List Sent → List ℕ → List ℕ
noted [] log = log
noted (s ∷ ss) log = noted ss (s.counter ∷ log)

-- Below high, each below the one before it.
abbrev pub Descends : ℕ → List ℕ → Type 0
Descends high [] = Unit {0}
Descends high (c ∷ cs) = (c < high) × Descends c cs

pub Descends-raise : (low high : ℕ) (cs : List ℕ) → low ≤ high → Descends low cs → Descends high cs
Descends-raise low high [] h d = tt
Descends-raise low high (c ∷ cs) h (a, d) = (omega arith, d)

abbrev pub stored : Option ℕ → ℕ
stored none = 0
stored (some v) = v

-- What an attempt leaves of the counters.
pub record Spends (n : Node (List ℕ)) (a : Attempt) : Type 0 where
  pub stored : stored a.node.dnonce ≡ a.node.dev_nonce
  pub bound : a.node.dev_nonce ≤ nonce_from n.dev_nonce + 2
  pub log : (cs : List ℕ) → Descends n.dev_nonce cs → Descends a.node.dev_nonce (noted a.sent cs)

-- The node of an attempt with the same two counters.
abbrev pub SameNonce : Node (List ℕ) → Node (List ℕ) → Type 0
SameNonce n m = (m.dev_nonce ≡ n.dev_nonce) × (m.dnonce ≡ n.dnonce)

pub pairing_persist-SameNonce :
    (modulation : Modulation) (n : Node (List ℕ)) (ja : JoinAccept) (key : List ℕ) (keep : Bool)
    (saved reserved : Ret)
    → SameNonce n (pairing_persist modulation n ja key keep saved reserved).1
unfolding pairing_persist
pairing_persist-SameNonce modulation n ja key keep (fail e) reserved = (refl, refl)
pairing_persist-SameNonce modulation n ja key true ok reserved = (refl, refl)
pairing_persist-SameNonce modulation n ja key false ok ok = (refl, refl)
pairing_persist-SameNonce modulation n ja key false ok (fail e) = (refl, refl)

pub state_settings_set-SameNonce :
    (modulation : Modulation) (n : Node (List ℕ)) (p : Option (Pairing (List ℕ)))
    → SameNonce n (state_settings_set modulation n p)
unfolding state_settings_set
state_settings_set-SameNonce modulation n none = (refl, refl)
state_settings_set-SameNonce modulation n (some p) = elim (Bool-cases (is_reserved p.net_id)) [
  | inl refused ↦ rw refused (refl, refl)
  | inr taken ↦ elim (Bool-cases (same_modulation p.modulation modulation)) [
    | inl same ↦ rw (taken, same) (refl, refl)
    | inr other ↦ rw (taken, other) (refl, refl)
  ]
]

pub nonce_loaded :
    (n : Node (List ℕ)) (base dnonce : Option ℕ)
    → n.dev_nonce ≡ 0
    → let n' = dnonce_settings_set (fcnt_settings_set n base) dnonce in
      (n'.dev_nonce ≡ stored dnonce) × (n'.dnonce ≡ n.dnonce)
unfolding dnonce_settings_set fcnt_settings_set
nonce_loaded n none none z = (z, refl)
nonce_loaded n none (some d) z = (refl, refl)
nonce_loaded n (some b) none z = (z, refl)
nonce_loaded n (some b) (some d) z = (refl, refl)

pub reboot_nonce :
    (modulation : Modulation) (n : Node (List ℕ))
    → ((reboot modulation n).dev_nonce ≡ stored n.dnonce)
      × ((reboot modulation n).dnonce ≡ n.dnonce)
unfolding reboot
reboot_nonce modulation n =
    let (d, t) = nonce_loaded _ n.base n.dnonce refl in
    let (d', t') =
      state_settings_set-SameNonce modulation
        (dnonce_settings_set (fcnt_settings_set _ n.base) n.dnonce) n.pairing in
    (d' ∙ d, t' ∙ t)

-- Nothing sent, or the frames of one attempt from c on.
pub none-Spends :
    (n m : Node (List ℕ)) (r : Ret)
    → stored n.dnonce ≡ n.dev_nonce
    → SameNonce n m
    → Spends n record { ret = r; node = m; sent = [] }
none-Spends n m r s (d, t) = record {
  stored = rw (d, t) s;
  bound = ground (arith, d);
  log = λ cs h. Descends-raise n.dev_nonce m.dev_nonce cs (omega (arith, d)) h;
}

pub reserved-Spends :
    (n m : Node (List ℕ)) (r : Ret) (ss : List Sent) (v : ℕ)
    → m.dev_nonce ≡ v
    → m.dnonce ≡ some v
    → v ≤ nonce_from n.dev_nonce + 2
    → ((cs : List ℕ) → Descends n.dev_nonce cs → Descends v (noted ss cs))
    → Spends n record { ret = r; node = m; sent = ss }
reserved-Spends n m r ss v d t b log = record {
  stored = rw (d, t) refl;
  bound = omega (arith, d);
  log = λ cs h. rw d (log cs h);
}

-- The log behind nothing, one frame, and two.
pub sent_nothing : (n c v : ℕ) → n ≤ v → (cs : List ℕ) → Descends n cs → Descends v (noted [] cs)
sent_nothing n c v le cs h = Descends-raise n v cs le h

pub sent_one :
    (n v : ℕ) (s : Sent)
    → n ≤ s.counter
    → s.counter < v
    → (cs : List ℕ) → Descends n cs
    → Descends v (noted (s ∷ []) cs)
sent_one n v s le lt cs h = (lt, Descends-raise n s.counter cs le h)

pub sent_both :
    (n v : ℕ) (s t : Sent)
    → n ≤ s.counter
    → s.counter < t.counter
    → t.counter < v
    → (cs : List ℕ) → Descends n cs
    → Descends v (noted (s ∷ t ∷ []) cs)
sent_both n v s t le lt lt' cs h = (lt', (lt, Descends-raise n s.counter cs le h))
