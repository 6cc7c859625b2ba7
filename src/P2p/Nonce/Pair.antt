-- ===== src/P2p/Nonce/Pair.antt =====
-- app/src/app_radio_p2p.c: pairings and teardowns keep it.
use sticker_firmware.Base.{
  ℕ, ◌+◌, ◌≤◌, ◌≡◌, refl, arith, Bool, true, false, Option, none, some, Ret, ok, fail,
}
use sticker_firmware.P2p.Node.{
  Node, Modulation, JoinAccept, Pairing, pairing_persist, pairing_clear, u32_max,
}
use sticker_firmware.P2p.Nonce.{Use, State}
use sticker_firmware.P2p.Nonce.Valid.{
  All, All-map, SealsOnce, base_of, StoredPast, StoredKey, IsPast, RetxAgrees, IsSound, IsValid,
}
use sticker_firmware.P2p.Nonce.Seal.{All-any}

abbrev pub UnusedPairing : Option (Pairing ℕ) → ℕ → Type 0
UnusedPairing none k = Unit {0}
UnusedPairing (some p) k = p.key ≡ k

-- A session under a key that nothing was sealed with.
pub unused-IsPast :
    (n n' : Node ℕ) (k : ℕ) (u : Use)
    → n'.key ≡ k
    → UnusedPairing n'.pairing k
    → IsPast n k u
    → IsPast n' (k + 1) u
unused-IsPast n n' k u e p past = record {
  old = omega (arith, past.old);
  current = λ h. absurd (omega (arith, h, past.old));
  stored = unused n'.pairing p;
}
  where
    unused : (p : Option (Pairing ℕ)) → UnusedPairing p k → StoredPast p n'.fcnt_reserved u
    unused none h = tt
    unused (some q) h = λ g. absurd (omega (arith, past.old, g, h))

pub restarted-IsValid :
    (s : State) (n : Node ℕ) (k : ℕ)
    → SealsOnce s.uses
    → IsSound n k
    → n.retx ≡ none
    → All (IsPast n k) s.uses
    → IsValid (record s { node = n; next_key = k })
restarted-IsValid s n k once v e past = record {
  bound = rw e tt;
  sound = v;
  past = past;
  retx = rw e (All-any (RetxAgrees none n.key) s.uses (λ _. tt));
  once = once;
}

pub StoredKey-grows : (p : Option (Pairing ℕ)) (k k' : ℕ) → k ≤ k' → StoredKey p k → StoredKey p k'
StoredKey-grows none k k' h s = tt
StoredKey-grows (some p) k k' h s = omega arith

pub next_key-IsValid : (s : State) → IsValid s → IsValid (record s { next_key = s.next_key + 1 })
next_key-IsValid s v = record {
  bound = v.bound;
  sound = record {
    base = v.sound.base;
    below = v.sound.below;
    high = v.sound.high;
    key = omega (arith, v.sound.key);
    stored =
        StoredKey-grows s.node.pairing s.next_key (s.next_key + 1) (omega arith) v.sound.stored;
  };
  past =
      All-map (IsPast s.node s.next_key) (IsPast s.node (s.next_key + 1)) s.uses
        (λ u p. record { old = omega (arith, p.old); current = p.current; stored = p.stored })
        v.past;
  retx = v.retx;
  once = v.once;
}

pub new_session-IsValid :
    (s : State) (n : Node ℕ)
    → IsValid s
    → n.key ≡ s.next_key
    → UnusedPairing n.pairing s.next_key
    → base_of n.base ≡ n.fcnt_reserved
    → n.fcnt ≤ n.fcnt_reserved
    → n.fcnt_reserved ≤ u32_max
    → n.retx ≡ none
    → IsValid (record s { node = n; next_key = s.next_key + 1 })
new_session-IsValid s n v key p base below high retx =
    restarted-IsValid s n (s.next_key + 1) v.once
      (record {
        base = base;
        below = below;
        high = high;
        key = omega (arith, key);
        stored = stored n.pairing p;
      })
      retx
      (All-map (IsPast s.node s.next_key) (IsPast n (s.next_key + 1)) s.uses
        (λ u. unused-IsPast s.node n s.next_key u key p) v.past)
  where
    stored : (q : Option (Pairing ℕ)) → UnusedPairing q s.next_key → StoredKey q (s.next_key + 1)
    stored none h = tt
    stored (some q) h = omega (arith, h)

pub pair-IsValid :
    (s : State) (modulation : Modulation) (ja : JoinAccept) (keep : Bool) (saved reserved : Ret)
    → IsValid s
    → IsValid (record s {
      node = (pairing_persist modulation s.node ja s.next_key keep saved reserved).1;
      next_key = s.next_key + 1;
    })
unfolding pairing_persist
pair-IsValid s modulation ja keep (fail e) reserved v = next_key-IsValid s v
pair-IsValid s modulation ja true ok reserved v =
    new_session-IsValid s _ v refl refl v.sound.base v.sound.below v.sound.high refl
pair-IsValid s modulation ja false ok ok v =
    new_session-IsValid s _ v refl refl refl (omega arith) (omega arith) refl
pair-IsValid s modulation ja false ok (fail e) v =
    new_session-IsValid s _ v refl refl v.sound.base (omega arith) v.sound.high refl

pub clear-IsValid :
    (s : State) (removed : Ret)
    → IsValid s
    → IsValid (record s { node = (pairing_clear s.node removed).1 })
unfolding pairing_clear
clear-IsValid s ok v =
    restarted-IsValid s _ s.next_key v.once
      (record {
        base = v.sound.base;
        below = v.sound.below;
        high = v.sound.high;
        key = v.sound.key;
        stored = tt;
      })
      refl
      (All-map (IsPast s.node s.next_key) (IsPast _ s.next_key) s.uses
        (λ u p. record { old = p.old; current = p.current; stored = tt }) v.past)
clear-IsValid s (fail e) v =
    restarted-IsValid s _ s.next_key v.once
      (record {
        base = v.sound.base;
        below = v.sound.below;
        high = v.sound.high;
        key = v.sound.key;
        stored = v.sound.stored;
      })
      refl
      (All-map (IsPast s.node s.next_key) (IsPast _ s.next_key) s.uses
        (λ u p. record { old = p.old; current = p.current; stored = p.stored }) v.past)
