-- ===== src/P2p/Control/Deliver.antt =====
-- app/src/app_radio_p2p.c: what an exchange hands on, and what its request leaves.
use sticker_firmware.Base.{
  ℕ, ◌+◌, true, false, Option, none, some, ◌&&◌, ◌||◌, List, [], ◌∷◌, leb, ◌==◌, if◌then◌else◌,
  length, get_or, u8,
}
use sticker_firmware.P2p.Node.{Node}
use sticker_firmware.P2p.Exchange.{Xfer}
use sticker_firmware.P2p.Join.{env_ctrl}
use sticker_firmware.P2p.Control.{
  World, Effect, ctrl_downlink, joined_effects, env_data, port_command, has_bit, bit_time,
  bit_link_check, bit_drain,
}

-- `p2p_deliver`
unfoldable pub deliver : World → Node (List ℕ) → List ℕ → Node (List ℕ) × List Effect
deliver w n [] = (n, [])
deliver w n (env ∷ pt) =
    let list = ctrl_downlink w n pt false in
    if env == env_ctrl
    then list
    else if env == env_data && leb 2 (length pt) && get_or pt 0 0 == port_command
    then (n, Effect.command (payload pt) ∷ [])
    else (n, [])
  where
    payload : List ℕ → List ℕ
    payload [] = []
    payload (_ ∷ body) = body

unfoldable pub deliver_dl : World → Node (List ℕ) → Option (List ℕ) → Node (List ℕ) × List Effect
deliver_dl w n none = (n, [])
deliver_dl w n (some pt) = deliver w n pt

-- `p2p_deliver_xfer`: the ACK's tail, then the downlink
unfoldable pub deliver_xfer : World → Node (List ℕ) → Xfer → Node (List ℕ) × List Effect
deliver_xfer w n x =
    let tail = ctrl_downlink w n x.ack_tail true in joined_effects tail.1 (deliver_dl w tail.0 x.dl)

-- `ctrl_sent`; `done_ms` is that of the exchange.
unfoldable pub ctrl_sent : Node (List ℕ) → ℕ → ℕ → ℕ → Node (List ℕ)
ctrl_sent n bits counter done_ms =
    let asked = has_bit bits bit_time in
    let checked = has_bit bits bit_link_check in
    record n {
      time_req_counter = if asked then counter else n.time_req_counter;
      time_req_done_ms = if asked then done_ms else n.time_req_done_ms;
      time_req_valid = asked || n.time_req_valid;
      answer_reports = if asked || checked then 0 else n.answer_reports;
      lc_outstanding = checked || n.lc_outstanding;
      drains = if has_bit bits bit_drain then u8 (n.drains + 1) else n.drains;
    }
