-- ===== src/P2p/Join/Accept.antt =====
-- app/src/app_radio_p2p.c: what a JoinAccept that opens must be.
use sticker_firmware.Base.{
  ℕ, ◌≤◌, ◌≡◌, refl, sym, ap, ◌∙◌, arith, false, not, ◌||◌, List, [], ◌∷◌, ltb, ◌==◌, if◌then◌else◌,
  length, get_or, get_le32, Errno, Result, done, err, Bool-cases, inl, inr,
}
use mathlib.Core.Path.{subst}
use sticker_firmware.P2p.Frame.{Hdr, hdr_get, unseal, payload_max}
use sticker_firmware.P2p.Frame.Sealing.{unseal-hdr_get}
use sticker_firmware.P2p.Node.{JoinAccept, is_reserved, tx_power_ok}
use sticker_firmware.P2p.Tlv.{Tlv, entries}
use sticker_firmware.P2p.Join.{
  Identity, node_addr, env_ctrl, ctrl_join_accept, parse_join_accept, first_accept, derive_join_key,
  accept_of, accept_opened, accept_headed, join_accept_open,
}

-- The fields are within what the session can keep.
pub record IsAccept (src : ℕ) (ja : JoinAccept) : Type 0 where
  pub net_id : ja.net_id ≡ src
  pub free : is_reserved ja.net_id ≡ false
  pub low : 1 ≤ ja.rx_delay_s
  pub high : ja.rx_delay_s ≤ 15
  pub power : tx_power_ok ja.tx_power_dbm ≡ ja.tx_power_assigned
  pub none : ja.tx_power_assigned ≡ false → ja.tx_power_dbm ≡ 0

kept_power : (t : ℕ) → tx_power_ok (if tx_power_ok t then t else 0) ≡ tx_power_ok t
kept_power t = elim (Bool-cases (tx_power_ok t)) [
  | inl within ↦ rw within within
  | inr out ↦ rw out refl
]

refused : {A : Type 0} (e : Errno) (a : A) → err e ≡ done a → ⊥
refused e a p = cc

first_of :
    {A B : Type 0} (a c : A) (b d : B)
    → ◌≡◌ {A = Result (A × B)} (done (a, b)) (done (c, d))
    → a ≡ c
first_of a c b d p = cc

parse_join_accept-IsAccept :
    (val : List ℕ) (src : ℕ) (ja : JoinAccept) (c : ℕ)
    → parse_join_accept val src ≡ done (ja, c)
    → IsAccept src ja
unfolding parse_join_accept
parse_join_accept-IsAccept val src ja c e = elim (Bool-cases (ltb (length val) 13)) [
  | inl short ↦ absurd (refused _ (ja, c) (rw short at e))
  | inr whole ↦ elim (Bool-cases (not (get_le32 val 0 == src) || is_reserved (get_le32 val 0))) [
    | inl other ↦ absurd (refused _ (ja, c) (rw (whole, other) at e))
    | inr own ↦ elim (Bool-cases (ltb (get_or val 8 0) 1 || ltb 15 (get_or val 8 0))) [
      | inl out ↦ absurd (refused _ (ja, c) (rw (whole, own, out) at e))
      | inr within ↦
          subst (IsAccept src) (first_of _ ja _ c (rw (whole, own, within) at e)) record {
            net_id = ground (arith, own);
            free = ground (arith, own);
            low = ground (arith, within);
            high = ground (arith, within);
            power = kept_power (get_or val 9 0);
            none = λ out. rw out refl;
          }
    ]
  ]
]

first_accept-IsAccept :
    (src : ℕ) (ts : List Tlv) (ja : JoinAccept) (c : ℕ)
    → first_accept src ts ≡ done (ja, c)
    → IsAccept src ja
unfolding first_accept
first_accept-IsAccept src [] ja c e = absurd (refused _ (ja, c) e)
first_accept-IsAccept src (t ∷ ts) ja c e = elim (Bool-cases (t.cmd == ctrl_join_accept)) [
  | inl this ↦ parse_join_accept-IsAccept t.val src ja c (rw this at e)
  | inr later ↦ first_accept-IsAccept src ts ja c (rw later at e)
]

module _ (encrypt_block : List ℕ → List ℕ → List ℕ) (id : Identity) where
  -- What was opened: a frame of type Data to this node with the counter of its JoinRequest, whose
  -- tag is right under the join key.
  pub record Opened (dev_nonce : ℕ) (frame : List ℕ) (ja : JoinAccept) : Type 0 where
    pub hdr : Hdr
    pub pt : List ℕ
    pub unsealed :
        unseal encrypt_block (derive_join_key encrypt_block id) frame payload_max ≡ done (hdr, pt)
    pub type : hdr.type ≡ 0
    pub dest : hdr.dest ≡ node_addr id
    pub counter : hdr.counter ≡ dev_nonce
    pub accept : IsAccept hdr.src ja

  accept_of-IsAccept :
      (src : ℕ) (pt : List ℕ) (ja : JoinAccept) (c : ℕ)
      → accept_of encrypt_block id src pt ≡ done (ja, c)
      → IsAccept src ja
  unfolding accept_of
  accept_of-IsAccept src [] ja c e = absurd (refused _ (ja, c) e)
  accept_of-IsAccept src (env ∷ list) ja c e = elim (Bool-cases (not (env == env_ctrl))) [
    | inl other ↦ absurd (refused _ (ja, c) (rw other at e))
    | inr ctrl ↦ first_accept-IsAccept src (entries list) ja c (rw ctrl at e)
  ]

  accept_opened-Opened :
      (dev_nonce : ℕ) (frame : List ℕ) (h : Hdr) (r : Result (Hdr × List ℕ)) (ja : JoinAccept)
      (c : ℕ)
      → hdr_get frame ≡ done h
      → h.type ≡ 0
      → h.dest ≡ node_addr id
      → h.counter ≡ dev_nonce
      → unseal encrypt_block (derive_join_key encrypt_block id) frame payload_max ≡ r
      → accept_opened encrypt_block id r ≡ done (ja, c)
      → Opened dev_nonce frame ja
  unfolding accept_opened
  accept_opened-Opened dev_nonce frame h (err n) ja c p t d k u e = absurd (refused _ (ja, c) e)
  accept_opened-Opened dev_nonce frame h (done (h', pt)) ja c p t d k u e =
      let q = unseal-hdr_get encrypt_block (derive_join_key encrypt_block id) frame h' pt u in
      let same : h ≡ h' = same_hdr h h' (sym p ∙ q) in
      record {
        hdr = h';
        pt = pt;
        unsealed = u;
        type = ap (λ (x : Hdr). x.type) (sym same) ∙ t;
        dest = ap (λ (x : Hdr). x.dest) (sym same) ∙ d;
        counter = ap (λ (x : Hdr). x.counter) (sym same) ∙ k;
        accept = accept_of-IsAccept h'.src pt ja c e;
      }
    where
      same_hdr : (a b : Hdr) → done a ≡ done b → a ≡ b
      same_hdr a b e = cc

  accept_headed-Opened :
      (dev_nonce : ℕ) (frame : List ℕ) (r : Result Hdr) (ja : JoinAccept) (c : ℕ)
      → hdr_get frame ≡ r
      → accept_headed encrypt_block id dev_nonce frame r ≡ done (ja, c)
      → Opened dev_nonce frame ja
  unfolding accept_headed
  accept_headed-Opened dev_nonce frame (err n) ja c p e = absurd (refused n (ja, c) e)
  accept_headed-Opened dev_nonce frame (done h) ja c p e =
      elim (Bool-cases
        (not (h.type == 0) || not (h.dest == node_addr id) || not (h.counter == dev_nonce))) [
          | inl other ↦ absurd (refused _ (ja, c) (rw other at e))
          | inr own ↦
              accept_opened-Opened dev_nonce frame h
                (unseal encrypt_block (derive_join_key encrypt_block id) frame payload_max) ja c p
                (ground (arith, own)) (ground (arith, own)) (ground (arith, own)) refl (rw own at e)
        ]

  -- A frame that join_accept_open takes for dev_nonce is a Data frame to this node whose counter is
  -- dev_nonce and which opens under the join key; it comes from the network that it assigns, which
  -- is not a reserved address, with a delay of 1 to 15 s, and a power of 2 to 14 dBm or none.
  pub join_accept_open-Opened :
      (dev_nonce : ℕ) (frame : List ℕ) (ja : JoinAccept) (c : ℕ)
      → join_accept_open encrypt_block id dev_nonce frame ≡ done (ja, c)
      → Opened dev_nonce frame ja
  unfolding join_accept_open
  join_accept_open-Opened dev_nonce frame ja c e =
      accept_headed-Opened dev_nonce frame (hdr_get frame) ja c refl e
