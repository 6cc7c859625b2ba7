-- ===== src/P2p/Nonce/Valid.antt =====
-- app/src/app_radio_p2p.c: what holds of the counters, the stored pairing and the frames sealed.
use sticker_firmware.Base.{ℕ, ◌<◌, ◌≤◌, ◌≡◌, Option, none, some, List, [], ◌∷◌, Result, done, err}
use sticker_firmware.P2p.Node.{Node, Pairing, u32_max}
use sticker_firmware.P2p.Nonce.{Use, State}

abbrev pub All : (Use → Type 0) → List Use → Type 0
All P [] = Unit {0}
All P (u ∷ us) = P u × All P us

pub All-map : (P Q : Use → Type 0) (us : List Use) → ((u : Use) → P u → Q u) → All P us → All Q us
All-map P Q [] f h = tt
All-map P Q (u ∷ us) f (a, b) = (f u a, All-map P Q us f b)

-- The same key and counter, so the same plaintext.
abbrev pub Agrees : Use → Use → Type 0
Agrees u v = u.key ≡ v.key → u.counter ≡ v.counter → u.pt ≡ v.pt

abbrev pub SealsOnce : List Use → Type 0
SealsOnce [] = Unit {0}
SealsOnce (u ∷ us) = All (Agrees u) us × SealsOnce us

abbrev pub base_of : Option ℕ → ℕ
base_of none = 0
base_of (some v) = v

-- The stored pairing's key was used below the reserved counter only.
abbrev pub StoredPast : Option (Pairing ℕ) → ℕ → Use → Type 0
StoredPast none reserved u = Unit {0}
StoredPast (some p) reserved u = u.key ≡ p.key → u.counter < reserved

abbrev pub StoredKey : Option (Pairing ℕ) → ℕ → Type 0
StoredKey none k = Unit {0}
StoredKey (some p) k = p.key < k

pub record IsPast (n : Node ℕ) (k : ℕ) (u : Use) : Type 0 where
  pub old : u.key < k
  pub current : u.key ≡ n.key → u.counter < n.fcnt
  pub stored : StoredPast n.pairing n.fcnt_reserved u

-- A retry would repeat the plaintext that its counter sealed.
abbrev pub RetxAgrees : Option (ℕ × List ℕ) → ℕ → Use → Type 0
RetxAgrees none key u = Unit {0}
RetxAgrees (some (c, pt)) key u = u.key ≡ key → u.counter ≡ c → u.pt ≡ pt

pub record IsSound (n : Node ℕ) (k : ℕ) : Type 0 where
  pub base : base_of n.base ≡ n.fcnt_reserved
  pub below : n.fcnt ≤ n.fcnt_reserved
  pub high : n.fcnt_reserved ≤ u32_max
  pub key : n.key < k
  pub stored : StoredKey n.pairing k

-- Every retry counter is one that `fcnt_next` gave.
abbrev pub RetxBound : Option (ℕ × List ℕ) → ℕ → Type 0
RetxBound none fcnt = Unit {0}
RetxBound (some (c, _)) fcnt = c < fcnt

pub record IsValid (s : State) : Type 0 where
  pub bound : RetxBound s.node.retx s.node.fcnt
  pub sound : IsSound s.node s.next_key
  pub past : All (IsPast s.node s.next_key) s.uses
  pub retx : All (RetxAgrees s.node.retx s.node.key) s.uses
  pub once : SealsOnce s.uses

abbrev pub Between : ℕ → ℕ → Result ℕ → Type 0
Between low high (done c) = (low ≤ c) × (c < high)
Between low high (err e) = Unit {0}
