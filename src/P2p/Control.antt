-- ===== src/P2p/Control.antt =====
-- app/src/app_radio_p2p.c, the control envelope: what a list of entries does to the node, and the
-- list that the node sends. Calls into other modules are the effects, in order.
pub mod Deliver
pub mod Guard
pub mod Time
use sticker_firmware.Base.{
  ℕ, zero, suc, ◌+◌, ◌-◌, ◌*◌, ◌/◌, ◌%◌, ◌^◌, Bool, true, false, not, Option, none, some, ◌&&◌,
  ◌||◌, List, [], ◌∷◌, ◌++◌, ltb, leb, ◌==◌, if◌then◌else◌, length, get_or, u8, u32, put_le32,
  get_le16, get_le32, bit_or, Ret, ok, fail,
}
use sticker_firmware.P2p.Node.{Node, Link, LinkCheck, pairing_clear}
use sticker_firmware.P2p.Tlv.{Tlv, entries}
use sticker_firmware.P2p.Exchange.{clamp_i8, Xfer}
use sticker_firmware.P2p.Join.{env_ctrl}
use sticker_firmware.P2p.Retry.{start_join_episode}

-- P2P_TIME_ANS_MAX_AGE_MS, P2P_DRAIN_MAX, P2P_ENV_DATA, P2P_PORT_COMMAND
abbrev pub time_ans_max_age_ms : ℕ
time_ans_max_age_ms = 7200000

abbrev pub drain_max : ℕ
drain_max = 8

abbrev pub env_data : ℕ
env_data = 0x81

abbrev pub port_command : ℕ
port_command = 86

-- P2P_CTRL_BIT_CAPS .. P2P_CTRL_BIT_DRAIN
abbrev pub bit_link_check : ℕ
bit_link_check = 4

abbrev pub bit_time : ℕ
bit_time = 8

abbrev pub bit_dev_status : ℕ
bit_dev_status = 16

abbrev pub bit_drain : ℕ
bit_drain = 32

abbrev pub has_bit : ℕ → ℕ → Bool
has_bit bits b = bits / b % 2 == 1

-- The cases of the switch of `ctrl_downlink`
pub data Kind : Type 0 where
  capabilities detach rejoin_req home_gateway link_check backoff time pending dev_status : Kind
  unknown : Kind

unfoldable pub kind_of : ℕ → Kind
kind_of cmd =
    if cmd == 0x01
    then Kind.capabilities
    else if cmd == 0x03
    then Kind.detach
    else if cmd == 0x04
    then Kind.rejoin_req
    else if cmd == 0x06
    then Kind.home_gateway
    else if cmd == 0x10
    then Kind.link_check
    else if cmd == 0x15
    then Kind.backoff
    else if cmd == 0x20
    then Kind.time
    else if cmd == 0x22
    then Kind.pending
    else if cmd == 0x30
    then Kind.dev_status
    else Kind.unknown

-- `ctrl_in_ack_ok`
unfoldable pub ctrl_in_ack_ok : Kind → Bool
ctrl_in_ack_ok Kind.link_check = true
ctrl_in_ack_ok Kind.time = true
ctrl_in_ack_ok Kind.backoff = true
ctrl_in_ack_ok Kind.pending = true
ctrl_in_ack_ok Kind.capabilities = false
ctrl_in_ack_ok Kind.detach = false
ctrl_in_ack_ok Kind.rejoin_req = false
ctrl_in_ack_ok Kind.home_gateway = false
ctrl_in_ack_ok Kind.dev_status = false
ctrl_in_ack_ok Kind.unknown = false

-- The calls: app_clock_set_network_time, app_radio_time_event, app_radio_set_uplink_rssi and _margin,
-- app_radio_link_result, app_radio_backoff_set, the two work items, and app_radio_downlink.
pub data Effect : Type 0 where
  set_network_time : ℕ → Effect
  time_event : Effect
  set_uplink : ℕ → ℕ → ℕ → ℕ → Effect
  link_result : Bool → Effect
  backoff_set : ℕ → Effect
  schedule_ctrl : ℕ → Effect
  schedule_join : Effect
  command : List ℕ → Effect

-- What the handlers read: the uptime, whether app key and address are set, and the answer of the
-- deletion of a pairing.
pub record World : Type 0 where
  pub now_ms : ℕ
  pub provisioned : Bool
  pub removed : Ret

-- `p2p_time_at`, for an age of at least 0
unfoldable pub time_at : ℕ → ℕ → ℕ → ℕ
time_at unix_s frac elapsed_ms = u32 (unix_s + u32 ((frac * 1000 / 256 + elapsed_ms + 500) / 1000))

-- `(uint8_t)MAX(margin, 0)` of an int8_t byte
abbrev pub above_zero : ℕ → ℕ
above_zero b = if ltb b 128 then b else 0

-- What one entry does: whether the list ends with it, the node and the effects.
pub record Handled : Type 0 where
  pub stop : Bool
  pub node : Node (List ℕ)
  pub effects : List Effect

abbrev pub go_on : Node (List ℕ) → List Effect → Handled
go_on n effects = record { stop = false; node = n; effects = effects }

-- `ctrl_request`
unfoldable pub ctrl_request : Node (List ℕ) → ℕ → ℕ → Node (List ℕ) × List Effect
ctrl_request n bits delay_ms =
    (record n { ctrl_pending = bit_or n.ctrl_pending bits }, Effect.schedule_ctrl delay_ms ∷ [])

-- `time_ans`
unfoldable pub time_ans : World → Node (List ℕ) → List ℕ → Handled
time_ans w n val =
    let age = w.now_ms - n.time_req_done_ms in
    let answered = record n { time_req_valid = false } in
    if not n.time_req_valid || not (get_le32 val 5 == n.time_req_counter)
    then go_on n []
    else if ltb time_ans_max_age_ms age
    then go_on answered []
    else go_on answered (
        Effect.set_network_time (time_at (get_le32 val 0) (get_or val 4 0) age)
        ∷ Effect.time_event
        ∷ [])

-- `link_check_ans`
unfoldable pub link_check_ans : Node (List ℕ) → List ℕ → Handled
link_check_ans n val =
    go_on
      (record n {
        lc = record {
          rssi = get_or val 0 0;
          snr = get_or val 1 0;
          margin = get_or val 2 0;
          gw_count = get_or val 3 0;
        };
        lc_valid = true;
        lc_outstanding = false;
      })
      (Effect.set_uplink (get_or val 0 0) (get_or val 1 0) (above_zero (get_or val 2 0))
          (get_or val 3 0)
        ∷ Effect.link_result true
        ∷ [])

-- `pending_info`
unfoldable pub pending_info : Node (List ℕ) → ℕ → Handled
pending_info n more =
    if more == 0 || leb drain_max n.drains
    then go_on n []
    else go_on (ctrl_request n bit_drain 0).0 (ctrl_request n bit_drain 0).1

-- The body of the switch of `ctrl_downlink`
unfoldable pub handle : World → Node (List ℕ) → Kind → List ℕ → Handled
handle w n Kind.capabilities val = go_on n []
handle w n Kind.detach val = record {
  stop = true;
  node = (pairing_clear n w.removed).1;
  effects = [];
}
handle w n Kind.rejoin_req val =
    if w.provisioned
    then record {
      stop = true;
      node = (start_join_episode n true w.now_ms).0;
      effects = Effect.schedule_join ∷ [];
    }
    else record { stop = true; node = n; effects = [] }
handle w n Kind.home_gateway val =
    if leb 5 (length val)
    then go_on
        (record n {
          home_gw_addr = get_le32 val 0;
          home_gw_flags = get_or val 4 0;
          home_gw_valid = true;
        })
        []
    else go_on n []
handle w n Kind.link_check val = if leb 4 (length val) then link_check_ans n val else go_on n []
handle w n Kind.backoff val =
    if leb 2 (length val) then go_on n (Effect.backoff_set (get_le16 val 0) ∷ []) else go_on n []
handle w n Kind.time val = if leb 9 (length val) then time_ans w n val else go_on n []
handle w n Kind.pending val =
    if leb 1 (length val) then pending_info n (get_or val 0 0) else go_on n []
handle w n Kind.dev_status val =
    let n' = record n { ds_rssi = clamp_i8 n.dl_rssi; ds_snr = n.dl_snr } in
    go_on (ctrl_request n' bit_dev_status 0).0 (ctrl_request n' bit_dev_status 0).1
handle w n Kind.unknown val = go_on n []

unfoldable pub joined_effects :
    List Effect → Node (List ℕ) × List Effect → Node (List ℕ) × List Effect
joined_effects es (n, fs) = (n, es ++ fs)

unfoldable pub unless_stopped : Handled → Node (List ℕ) × List Effect → Node (List ℕ) × List Effect
unless_stopped h rest = if h.stop then (h.node, h.effects) else joined_effects h.effects rest

-- The body of the loop of `ctrl_downlink`: in an ACK, other entries are skipped.
unfoldable pub handle_entry : World → Bool → Node (List ℕ) → Tlv → Handled
handle_entry w in_ack n t =
    if in_ack && not (ctrl_in_ack_ok (kind_of t.cmd))
    then go_on n []
    else handle w n (kind_of t.cmd) t.val

-- The loop of `ctrl_downlink`, over the entries of the list
unfoldable pub handle_all : World → Bool → Node (List ℕ) → List Tlv → Node (List ℕ) × List Effect
handle_all w in_ack n [] = (n, [])
handle_all w in_ack n (t ∷ ts) =
    let h = handle_entry w in_ack n t in unless_stopped h (handle_all w in_ack h.node ts)

-- `ctrl_downlink`
unfoldable pub ctrl_downlink : World → Node (List ℕ) → List ℕ → Bool → Node (List ℕ) × List Effect
ctrl_downlink w n buf in_ack = handle_all w in_ack n (entries buf)
