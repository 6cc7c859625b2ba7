-- ===== src/P2p/Nonce/Restart.antt =====
-- app/src/app_radio_p2p.c: pairings, teardowns and restarts keep it.
use sticker_firmware.Base.{
  ℕ, ◌<◌, ◌≤◌, ◌≡◌, ◌⊎◌, refl, sym, ap, ◌∙◌, arith, Option, none, some, Bool-cases, inl, inr,
}
use sticker_firmware.P2p.Node.{
  Node, Modulation, Pairing, reboot, state_settings_set, dnonce_settings_set, fcnt_settings_set,
  is_reserved, same_modulation,
}
use sticker_firmware.P2p.Nonce.{Use, State}
use sticker_firmware.P2p.Nonce.Valid.{
  All-map, base_of, StoredPast, StoredKey, IsPast, IsSound, IsValid,
}
use sticker_firmware.P2p.Nonce.Take.{StoredPast-grows}
use sticker_firmware.P2p.Nonce.Pair.{restarted-IsValid}

-- After a restart the key is the stored one or is of no use.
abbrev KeyFrom : Option (Pairing ℕ) → ℕ → ℕ → Type 0
KeyFrom none old key = key ≡ old
KeyFrom (some p) old key = (key ≡ p.key) ⊎ (key ≡ old)

record Booted (n n' : Node ℕ) : Type 0 where
  fcnt : n'.fcnt ≡ base_of n.base
  reserved : n'.fcnt_reserved ≡ base_of n.base
  base : n'.base ≡ n.base
  pairing : n'.pairing ≡ n.pairing
  retx : n'.retx ≡ none
  key : KeyFrom n.pairing n.key n'.key

state_settings_set-KeyFrom :
    (modulation : Modulation) (n : Node ℕ) (p : Option (Pairing ℕ))
    → let n' = state_settings_set modulation n p in
      (n'.fcnt ≡ n.fcnt)
      × (n'.fcnt_reserved ≡ n.fcnt_reserved)
      × (n'.base ≡ n.base)
      × (n'.pairing ≡ n.pairing)
      × (n'.retx ≡ n.retx)
      × KeyFrom p n.key n'.key
unfolding state_settings_set
state_settings_set-KeyFrom modulation n none = (refl, refl, refl, refl, refl, refl)
state_settings_set-KeyFrom modulation n (some p) = elim (Bool-cases (is_reserved p.net_id)) [
  | inl e ↦ rw e (refl, refl, refl, refl, refl, inr refl)
  | inr e ↦ elim (Bool-cases (same_modulation p.modulation modulation)) [
    | inl m ↦ rw (e, m) (refl, refl, refl, refl, refl, inl refl)
    | inr m ↦ rw (e, m) (refl, refl, refl, refl, refl, inr refl)
  ]
]

counters_loaded :
    (n : Node ℕ) (base dnonce : Option ℕ)
    → n.fcnt ≡ 0
    → n.fcnt_reserved ≡ 0
    → let n' = dnonce_settings_set (fcnt_settings_set n base) dnonce in
      (n'.fcnt ≡ base_of base)
      × (n'.fcnt_reserved ≡ base_of base)
      × (n'.base ≡ n.base)
      × (n'.pairing ≡ n.pairing)
      × (n'.retx ≡ n.retx)
      × (n'.key ≡ n.key)
unfolding dnonce_settings_set fcnt_settings_set
counters_loaded n none none f r = (f, r, refl, refl, refl, refl)
counters_loaded n none (some d) f r = (f, r, refl, refl, refl, refl)
counters_loaded n (some b) none f r = (refl, refl, refl, refl, refl, refl)
counters_loaded n (some b) (some d) f r = (refl, refl, refl, refl, refl, refl)

reboot-Booted : (modulation : Modulation) (n : Node ℕ) → Booted n (reboot modulation n)
unfolding reboot
reboot-Booted modulation n =
    let (f, r, b, p, x, k) = counters_loaded _ n.base n.dnonce refl refl in
    let (f', r', b', p', x', k') =
      state_settings_set-KeyFrom modulation
        (dnonce_settings_set (fcnt_settings_set _ n.base) n.dnonce) n.pairing in
    record {
      fcnt = f' ∙ f;
      reserved = r' ∙ r;
      base = b' ∙ b;
      pairing = p' ∙ p;
      retx = x' ∙ x;
      key = rw k at k';
    }

booted_current :
    (q : Option (Pairing ℕ)) (old key f r : ℕ) (u : Use)
    → KeyFrom q old key
    → f ≤ r
    → (u.key ≡ old → u.counter < f)
    → StoredPast q r u
    → u.key ≡ key
    → u.counter < r
booted_current none old key f r u k le c st e = omega (arith, c (e ∙ k))
booted_current (some p) old key f r u (inl k) le c st e = st (e ∙ k)
booted_current (some p) old key f r u (inr k) le c st e = omega (arith, c (e ∙ k))

booted_key :
    (q : Option (Pairing ℕ)) (old key k : ℕ) → KeyFrom q old key → old < k → StoredKey q k → key < k
booted_key none old key k h lt st = omega (arith, h)
booted_key (some p) old key k (inl h) lt st = omega (arith, h)
booted_key (some p) old key k (inr h) lt st = omega (arith, h)

Booted-IsPast :
    (n n' : Node ℕ) (k : ℕ) (u : Use) → IsSound n k → Booted n n' → IsPast n k u → IsPast n' k u
Booted-IsPast n n' k u v b p = record {
  old = p.old;
  current = λ e. rw (b.fcnt ∙ v.base) (
      booted_current n.pairing n.key n'.key n.fcnt n.fcnt_reserved u b.key v.below p.current
        p.stored e);
  stored = rw b.pairing (
      StoredPast-grows n.pairing n.fcnt_reserved n'.fcnt_reserved u
        (omega (arith, b.reserved, v.base)) p.stored);
}

pub restart-IsValid :
    (s : State) (modulation : Modulation)
    → IsValid s
    → IsValid (record s { node = reboot modulation s.node })
restart-IsValid s modulation v =
    let b = reboot-Booted modulation s.node in
    restarted-IsValid s (reboot modulation s.node) s.next_key v.once
      (record {
        base = ap base_of b.base ∙ sym b.reserved;
        below = omega (arith, b.fcnt, b.reserved);
        high = omega (arith, b.reserved, v.sound.base, v.sound.high);
        key =
            booted_key s.node.pairing s.node.key (reboot modulation s.node).key s.next_key b.key
              v.sound.key v.sound.stored;
        stored = rw b.pairing v.sound.stored;
      })
      b.retx
      (All-map (IsPast s.node s.next_key) (IsPast (reboot modulation s.node) s.next_key) s.uses
        (λ u. Booted-IsPast s.node (reboot modulation s.node) s.next_key u v.sound b) v.past)
