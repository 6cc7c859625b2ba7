-- ===== src/P2p/Control/Time.antt =====
-- app/src/app_radio_p2p.c: the network time of control lists, against the requests for it.
use sticker_firmware.Base.{
  ℕ, ◌+◌, ◌-◌, ◌≤◌, ◌≡◌, arith, Bool, true, false, not, ◌&&◌, ◌||◌, List, [], ◌∷◌, ◌++◌, leb, ltb,
  ◌==◌, if◌then◌else◌, length, get_or, get_le32, Bool-cases, inl, inr,
}
use sticker_firmware.P2p.Node.{Node, pairing_clear, session_reset}
use sticker_firmware.P2p.Tlv.{Tlv, entries}
use sticker_firmware.P2p.Retry.{start_join_episode, set_rejoin_attempt}
use sticker_firmware.P2p.Control.{
  Kind, kind_of, ctrl_in_ack_ok, Effect, World, Handled, ctrl_request, time_ans, link_check_ans,
  pending_info, handle, joined_effects, unless_stopped, handle_entry, handle_all, ctrl_downlink,
  time_ans_max_age_ms, drain_max,
}

abbrev pub one_if : Bool → ℕ
one_if true = 1
one_if false = 0

-- How often the clock is set.
abbrev pub times : List Effect → ℕ
times [] = 0
times (Effect.set_network_time t ∷ es) = 1 + times es
times (Effect.time_event ∷ es) = times es
times (Effect.set_uplink r s m g ∷ es) = times es
times (Effect.link_result ok ∷ es) = times es
times (Effect.backoff_set s ∷ es) = times es
times (Effect.schedule_ctrl d ∷ es) = times es
times (Effect.schedule_join ∷ es) = times es
times (Effect.command pt ∷ es) = times es

times-append : (es fs : List Effect) → times (es ++ fs) ≡ times es + times fs
times-append [] fs = omega arith
times-append (Effect.set_network_time t ∷ es) fs = omega (arith, times-append es fs)
times-append (Effect.time_event ∷ es) fs = times-append es fs
times-append (Effect.set_uplink r s m g ∷ es) fs = times-append es fs
times-append (Effect.link_result ok ∷ es) fs = times-append es fs
times-append (Effect.backoff_set s ∷ es) fs = times-append es fs
times-append (Effect.schedule_ctrl d ∷ es) fs = times-append es fs
times-append (Effect.schedule_join ∷ es) fs = times-append es fs
times-append (Effect.command pt ∷ es) fs = times-append es fs

-- The clock is set only by spending the request.
abbrev pub Spends : Node (List ℕ) → Node (List ℕ) → List Effect → Type 0
Spends n m es = times es + one_if m.time_req_valid ≤ one_if n.time_req_valid

abbrev HandledSpends : Node (List ℕ) → Handled → Type 0
HandledSpends n h = Spends n h.node h.effects

if-Spends :
    (b : Bool) (n : Node (List ℕ)) (g h : Handled)
    → HandledSpends n g
    → HandledSpends n h
    → HandledSpends n (if b then g else h)
if-Spends true n g h p q = p
if-Spends false n g h p q = q

time_ans-Spends :
    (w : World) (n : Node (List ℕ)) (val : List ℕ) → HandledSpends n (time_ans w n val)
unfolding time_ans
time_ans-Spends w n val = elim (Bool-cases (n.time_req_valid)) [
  | inl asked ↦
      if-Spends (not n.time_req_valid || not (get_le32 val 5 == n.time_req_counter)) n _ _
        (omega arith)
        (if-Spends (ltb time_ans_max_age_ms (w.now_ms - n.time_req_done_ms)) n _ _ (omega arith)
          (rw asked (omega arith)))
  | inr none ↦ rw none (omega arith)
]

handle-Spends :
    (w : World) (n : Node (List ℕ)) (k : Kind) (val : List ℕ) → HandledSpends n (handle w n k val)
unfolding handle link_check_ans pending_info ctrl_request pairing_clear session_reset
    start_join_episode set_rejoin_attempt
handle-Spends w n Kind.link_check val =
    if-Spends (leb 4 (length val)) n _ _ (omega arith) (omega arith)
handle-Spends w n Kind.time val =
    if-Spends (leb 9 (length val)) n _ _ (time_ans-Spends w n val) (omega arith)
handle-Spends w n Kind.backoff val =
    if-Spends (leb 2 (length val)) n _ _ (omega arith) (omega arith)
handle-Spends w n Kind.pending val =
    if-Spends (leb 1 (length val)) n _ _
      (if-Spends (get_or val 0 0 == 0 || leb drain_max n.drains) n _ _ (omega arith) (omega arith))
      (omega arith)
handle-Spends w n Kind.capabilities val = omega arith
handle-Spends w n Kind.detach val = omega arith
handle-Spends w n Kind.rejoin_req val = if-Spends w.provisioned n _ _ (omega arith) (omega arith)
handle-Spends w n Kind.home_gateway val =
    if-Spends (leb 5 (length val)) n _ _ (omega arith) (omega arith)
handle-Spends w n Kind.dev_status val = omega arith
handle-Spends w n Kind.unknown val = omega arith

handle_entry-Spends :
    (w : World) (in_ack : Bool) (n : Node (List ℕ)) (t : Tlv)
    → HandledSpends n (handle_entry w in_ack n t)
unfolding handle_entry
handle_entry-Spends w in_ack n t =
    if-Spends (in_ack && not (ctrl_in_ack_ok (kind_of t.cmd))) n _ _ (omega arith)
      (handle-Spends w n (kind_of t.cmd) t.val)

unless_stopped-Spends :
    (n : Node (List ℕ)) (stop : Bool) (m : Node (List ℕ)) (es : List Effect)
    (rest : Node (List ℕ) × List Effect)
    → Spends n m es
    → Spends m rest.0 rest.1
    → let r = unless_stopped record { stop = stop; node = m; effects = es } rest in Spends n r.0 r.1
unfolding unless_stopped joined_effects
unless_stopped-Spends n true m es rest a b = a
unless_stopped-Spends n false m es rest a b = omega (arith, times-append es rest.1, a, b)

handle_all-Spends :
    (w : World) (in_ack : Bool) (n : Node (List ℕ)) (ts : List Tlv)
    → let r = handle_all w in_ack n ts in Spends n r.0 r.1
unfolding handle_all
handle_all-Spends w in_ack n [] = omega arith
handle_all-Spends w in_ack n (t ∷ ts) =
    let h = handle_entry w in_ack n t in
    unless_stopped-Spends n h.stop h.node h.effects (handle_all w in_ack h.node ts)
      (handle_entry-Spends w in_ack n t) (handle_all-Spends w in_ack h.node ts)

-- Whatever a control list holds, in an ACK or in a downlink, it sets the clock at most once, and only
-- if a TimeReq waits for its answer, which it then no longer does.
pub ctrl_downlink-Spends :
    (w : World) (n : Node (List ℕ)) (buf : List ℕ) (in_ack : Bool)
    → let r = ctrl_downlink w n buf in_ack in Spends n r.0 r.1
unfolding ctrl_downlink
ctrl_downlink-Spends w n buf in_ack = handle_all-Spends w in_ack n (entries buf)
