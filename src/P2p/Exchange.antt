-- ===== src/P2p/Exchange.antt =====
-- app/src/app_radio_p2p.c: one exchange, an uplink with its repetitions, its ACK and a pending
-- downlink. A window is the list of the frames that reach the queue before its end; what the radio,
-- the settings store and the duty ledger answer are arguments, and times are left out.
pub mod Lane
pub mod Keep
pub mod Receive
pub mod Lanes
pub mod Deliver
use sticker_firmware.Base.{
  ℕ, zero, suc, ◌+◌, ◌-◌, ◌^◌, ◌%◌, Bool, true, false, not, ◌&&◌, ◌||◌, Option, none, some, List,
  [], ◌∷◌, ◌++◌, ltb, ◌==◌, if◌then◌else◌, length, take, put_le32, Ret, ok, fail, Errno, Result,
  done, err, ℤ, pos, negsuc, ltb_ℤ,
}
use sticker_firmware.P2p.Frame.{
  Hdr, Ack, Verdict, hdr_get, unseal, seal, parse_ack, replay_check, payload_max, frame_max,
}
use sticker_firmware.P2p.Node.{Node, Link, twr_counter_next, exchange_counter, note_sealed}

-- `struct p2p_rx`
pub record Rx : Type 0 where
  pub rssi : ℤ
  pub snr : ℤ
  pub buf : List ℕ

-- What `p2p_wait_frame` gives: the frame, its header and plaintext, and the replay verdict.
pub record Found : Type 0 where
  pub rx : Rx
  pub hdr : Hdr
  pub pt : List ℕ
  pub verdict : Verdict

-- `struct p2p_xfer`, without times; `dl` is what waits in `m_dl`.
pub record Xfer : Type 0 where
  pub counter : ℕ
  pub sent : ℕ
  pub acked : Bool
  pub pending : Bool
  pub ack_tail : List ℕ
  pub rssi : ℤ
  pub snr : ℤ
  pub dl : Option (List ℕ)
  pub ack_owed : Bool
  pub dl_counter : ℕ
  pub dl_rssi : ℤ

-- `memset(x, 0, sizeof(*x))`
abbrev pub no_xfer : Xfer
no_xfer = record {
  counter = 0;
  sent = 0;
  acked = false;
  pending = false;
  ack_tail = [];
  rssi = pos 0;
  snr = pos 0;
  dl = none;
  ack_owed = false;
  dl_counter = 0;
  dl_rssi = pos 0;
}

-- TWR_TYPE_DATA, TWR_TYPE_ACK
abbrev pub type_data : ℕ
type_data = 0

abbrev pub type_ack : ℕ
type_ack = 1

-- TWR_FLAG_CONFIRMED
abbrev pub is_confirmed : ℕ → Bool
is_confirmed flags = flags % 2 == 1

-- P2P_ACK_TAIL_BUF
abbrev pub ack_tail_buf : ℕ
ack_tail_buf = 32

-- `(uint8_t)(int8_t)CLAMP(v, INT8_MIN, INT8_MAX)`
abbrev pub clamp_i8 : ℤ → ℕ
clamp_i8 (pos n) = if ltb 127 n then 127 else n
clamp_i8 (negsuc n) = if ltb 127 n then 128 else 255 - n

abbrev pub is_fresh : Verdict → Bool
is_fresh Verdict.fresh = true
is_fresh Verdict.repeat = false

-- What the world does around one transmission: whether the duty ledger holds a repetition, the
-- outcome of `p2p_tx_once`, the two windows, and the same for the ACK of a downlink.
pub record Rep : Type 0 where
  pub held : Bool
  pub tx : Ret
  pub ack_window : List Rx
  pub dl_window : List Rx
  pub ack_held : Bool
  pub ack_saved : Ret
  pub ack_saved' : Ret

unfoldable pub taken :
    {A : Type 0} → Option (A × List Rx) → List Rx → Option A → Option (A × List Rx)
taken rest q none = rest
taken rest q (some a) = some (a, q)

unfoldable pub found_in :
    {A : Type 0}
    → (Found → Option A)
    → Option (A × List Rx)
    → List Rx
    → Option Found
    → Option (A × List Rx)
found_in accept rest q none = rest
found_in accept rest q (some f) = taken rest q (accept f)

module _ (encrypt_block : List ℕ → List ℕ → List ℕ) (node_addr : ℕ) where
  -- The verdict on an opened frame.
  unfoldable pub judge : Rx → Hdr → List ℕ → Result Verdict → Option Found
  judge rx h pt (err e) = none
  judge rx h pt (done v) = some record { rx = rx; hdr = h; pt = pt; verdict = v }

  unfoldable pub opened : ℕ → Rx → Result (Hdr × List ℕ) → Option Found
  opened gw_last rx (err e) = none
  opened gw_last rx (done (h, pt)) = judge rx h pt (replay_check gw_last h.counter)

  -- The body of the loop of `p2p_wait_frame`, none for `continue`
  unfoldable pub examine : Node (List ℕ) → Rx → Result Hdr → Option Found
  examine n rx (err e) = none
  examine n rx (done h) =
      if not (h.src == n.net_id) || not (h.dest == node_addr)
      then none
      else opened n.gw_last rx (unseal encrypt_block n.key rx.buf payload_max)

  -- The next frame of a window that `accept` takes, and what is left of the window: the loop of
  -- `p2p_wait_frame` inside that of its caller, which goes on to the next frame if it takes none.
  unfoldable pub wait_for :
      {A : Type 0} → Node (List ℕ) → (Found → Option A) → List Rx → Option (A × List Rx)
  wait_for n accept [] = none
  wait_for n accept (rx ∷ q) =
      found_in accept (wait_for n accept q) q (examine n rx (hdr_get rx.buf))

  -- The test of `p2p_wait_ack`: a fresh ACK of `counter`
  unfoldable pub ack_of : ℕ → Found → Result Ack → Option (Found × Ack)
  ack_of counter f (err e) = none
  ack_of counter f (done a) = if not (a.acked == counter) then none else some (f, a)

  unfoldable pub accept_ack : ℕ → Found → Option (Found × Ack)
  accept_ack counter f =
      if not (is_fresh f.verdict) || not (f.hdr.type == type_ack)
      then none
      else ack_of counter f (parse_ack f.pt)

  -- The test of `p2p_wait_dl`
  unfoldable pub accept_dl : Found → Option Found
  accept_dl f = if not (f.hdr.type == type_data) then none else some f

  -- The part of `p2p_wait_dl` behind the test
  unfoldable pub take_dl : Node (List ℕ) → Xfer → Option (Found × List Rx) → Node (List ℕ) × Xfer
  take_dl n x none = (n, x)
  take_dl n x (some (f, _)) =
      let owed = is_confirmed f.hdr.flags in
      let fresh = is_fresh f.verdict in
      (
        record n {
          gw_last = if fresh then f.hdr.counter else n.gw_last;
          dl_rssi = if fresh then f.rx.rssi else n.dl_rssi;
          dl_snr = if fresh then f.rx.snr else n.dl_snr;
        },
        record x {
          dl = if fresh then some f.pt else x.dl;
          ack_owed = if owed then true else x.ack_owed;
          dl_counter = if owed then f.hdr.counter else x.dl_counter;
          dl_rssi = if owed then f.rx.rssi else x.dl_rssi;
        },
      )

  -- `p2p_wait_dl`
  unfoldable pub wait_dl : Node (List ℕ) → Xfer → List Rx → Node (List ℕ) × Xfer
  wait_dl n x window = take_dl n x (wait_for n accept_dl window)

  unfoldable pub when_pending :
      Bool → Node (List ℕ) × Xfer → Node (List ℕ) × Xfer → Node (List ℕ) × Xfer
  when_pending pending a b = if pending then a else b

  -- `p2p_wait_ack` and what `p2p_exchange` does with its answer
  unfoldable pub take_ack :
      Node (List ℕ) → Xfer → List Rx → Option ((Found × Ack) × List Rx) → Node (List ℕ) × Xfer
  take_ack n x dl_window none = (n, x)
  take_ack n x dl_window (some ((f, a), left)) =
      let n' = record n { gw_last = f.hdr.counter; last_ack_valid = true } in
      let x' = record x {
        acked = true;
        pending = a.pending;
        ack_tail = take ack_tail_buf a.tail;
        rssi = f.rx.rssi;
        snr = f.rx.snr;
      } in
      when_pending a.pending (wait_dl n' x' (left ++ dl_window)) (n', x')

  -- `p2p_auto_ack`: the frame that it hands to the radio
  unfoldable pub auto_ack_frame : Node (List ℕ) → Xfer → Result ℕ → Option (List ℕ)
  auto_ack_frame n x (err e) = none
  auto_ack_frame n x (done counter) =
      elim (seal encrypt_block n.key
        record { type = type_ack; flags = 0; src = node_addr; dest = n.net_id; counter = counter }
        (put_le32 x.dl_counter ++ clamp_i8 x.dl_rssi ∷ 0 ∷ []) 28) [
          | done frame ↦ some frame
          | err e ↦ none
        ]

  unfoldable pub auto_ack : Node (List ℕ) → Xfer → Rep → Node (List ℕ) × Option (List ℕ)
  auto_ack n x r =
      if r.ack_held
      then (n, none)
      else (let (counter, n') = twr_counter_next n r.ack_saved r.ack_saved' in
          (n', auto_ack_frame n' x counter))

  unfoldable pub ack_when : Bool → Node (List ℕ) → Xfer → Rep → Node (List ℕ) × Xfer
  ack_when true n x r = ((auto_ack n x r).0, x)
  ack_when false n x r = (n, x)

  unfoldable pub ack_if_owed : Node (List ℕ) × Xfer → Rep → Node (List ℕ) × Xfer
  ack_if_owed (n, x) r = ack_when x.ack_owed n x r

  -- One transmission that went out, with the receptions behind it.
  unfoldable pub sent_once : Bool → Node (List ℕ) → Xfer → Rep → Node (List ℕ) × Xfer
  sent_once confirmed n x r =
      let x' = record x { sent = x.sent + 1 } in
      if confirmed
      then ack_if_owed (take_ack n x' r.dl_window (wait_for n (accept_ack x.counter) r.ack_window))
          r
      else (n, x')

  -- Behind one transmission: the loop ends at the ACK, or at an error of the radio.
  unfoldable pub unless_acked :
      Bool → Node (List ℕ) × Xfer → Node (List ℕ) × Xfer × Ret → Node (List ℕ) × Xfer × Ret
  unless_acked true (n, x) rest = (n, x, ok)
  unless_acked false next rest = rest

  unfoldable pub after_tx :
      Ret
      → Node (List ℕ)
      → Xfer
      → Node (List ℕ) × Xfer
      → Node (List ℕ) × Xfer × Ret
      → Node (List ℕ) × Xfer × Ret
  after_tx (fail e) n x next rest = (n, x, fail e)
  after_tx ok n x next rest = unless_acked next.1.acked next rest

  -- A repetition that the duty ledger holds ends the loop.
  unfoldable pub unless_held :
      Bool → Node (List ℕ) × Xfer × Ret → Node (List ℕ) × Xfer × Ret → Node (List ℕ) × Xfer × Ret
  unless_held true stop go = stop
  unless_held false stop go = go

  -- The loop of the transmissions, over those left; `ret` is that of the last one.
  unfoldable pub send_loop :
      Bool → Bool → Node (List ℕ) → Xfer → Ret → List Rep → Node (List ℕ) × Xfer × Ret
  send_loop first confirmed n x ret [] = (n, x, ret)
  send_loop first confirmed n x ret (r ∷ rs) =
      let next = sent_once confirmed n x r in
      unless_held (not first && r.held) (n, x, ret)
        (after_tx r.tx n x next (send_loop false confirmed next.0 next.1 ok rs))

  -- `x->sent == 0`
  unfoldable pub exchange_ret : Node (List ℕ) × Xfer × Ret → Ret
  exchange_ret (n, x, ok) = if x.sent == 0 then fail Errno.eagain else ok
  exchange_ret (n, x, fail e) = if x.sent == 0 then fail e else ok

  -- P2P_REPS
  abbrev pub reps : Bool → ℕ
  reps true = 3
  reps false = 1

  -- The part of `p2p_exchange` behind the counter; a seal that fails gives its error.
  unfoldable pub exchange_sealed :
      List ℕ
      → Bool
      → Option ℕ
      → List Rep
      → Node (List ℕ)
      → ℕ
      → Result (List ℕ)
      → Ret × Node (List ℕ) × Xfer
  exchange_sealed pt confirmed attempt rs n counter (err e) = (fail e, n, no_xfer)
  exchange_sealed pt confirmed attempt rs n counter (done frame) =
      let last =
        send_loop true confirmed (note_sealed n counter pt confirmed attempt)
          (record no_xfer { counter = counter }) ok (take (reps confirmed) rs) in
      (exchange_ret last, last.0, last.1)

  unfoldable pub exchange_counted :
      List ℕ → Bool → Option ℕ → List Rep → Result ℕ × Node (List ℕ) → Ret × Node (List ℕ) × Xfer
  exchange_counted pt confirmed attempt rs (err e, n) = (fail e, n, no_xfer)
  exchange_counted pt confirmed attempt rs (done counter, n) =
      exchange_sealed pt confirmed attempt rs n counter (
        seal encrypt_block n.key
          record {
            type = type_data;
            flags = if confirmed then 1 else 0;
            src = node_addr;
            dest = n.net_id;
            counter = counter;
          }
          pt frame_max)

  abbrev pub not_paired : Link → Bool
  not_paired Link.paired = false
  not_paired Link.joining = true
  not_paired Link.unpaired = true

  -- `p2p_exchange`: listen mode, whether the frame's airtime is too long, and whether the duty
  -- ledger holds it are arguments.
  unfoldable pub exchange :
      Node (List ℕ)
      → Bool
      → Bool
      → Bool
      → List ℕ
      → Bool
      → Option ℕ
      → Ret
      → Ret
      → List Rep
      → Ret × Node (List ℕ) × Xfer
  exchange n listening too_long held pt confirmed attempt saved saved' rs =
      if listening
      then (fail Errno.ebusy, n, no_xfer)
      else if not_paired n.link
      then (fail Errno.enotconn, n, no_xfer)
      else if ltb payload_max (length pt) || too_long
      then (fail Errno.emsgsize, n, no_xfer)
      else if held
      then (fail Errno.eagain, n, no_xfer)
      else exchange_counted pt confirmed attempt rs (exchange_counter n pt attempt saved saved')
