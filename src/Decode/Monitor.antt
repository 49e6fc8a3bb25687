-- ===== src/Decode/Monitor.antt =====
-- The monitor: requests, their responses and their timeouts, from tools/viewer/web/app.js.
pub mod Responses
pub mod Expiry
pub mod Requests
use open_fpgastudio.Base.{
  ℕ, ◌+◌, Bool, not, ◌||◌, Option, none, some, List, [], ◌∷◌, ◌++◌, leb, ◌==◌, if◌then◌else◌,
  is_some, to_u32,
}
use open_fpgastudio.Base.Texts.{codes, hex, dec}
use open_fpgastudio.Base.Dict.{Dict, get, put, delete, number_key}
use open_fpgastudio.Wire.{u16, u32, byte_at, push_u16, push_u32, frame}
use open_fpgastudio.State.Tables.{Register, type_text, monitor_status}
use open_fpgastudio.State.Monitor.{
  Monitor, read, write, Request, RegisterValue, Event, monitor_read, monitor_write, monitor_timeout,
  ErrorEntry,
}
use open_fpgastudio.State.Render.{View}
use open_fpgastudio.State.{
  Viewer, LogRow, number, text, log_row, request_render, add_log, unshift_bounded,
}

abbrev pub monitor_timeout_ms : ℕ
monitor_timeout_ms = 1000

abbrev pub max_errors : ℕ
max_errors = 100

abbrev pub set_monitor : Viewer → Monitor → Viewer
set_monitor s m = record s { monitor = m }

-- `registers.find(...) || {...}`
unfoldable pub find_register : ℕ → List Register → Register
find_register addr [] = record { addr = addr; name = hex addr 4; access = codes "-"; width = 4 }
find_register addr (reg ∷ rest) = if reg.addr == addr then reg else find_register addr rest

unfoldable pub monitor_register : ℕ → Monitor → Register
monitor_register addr m = find_register addr m.registers

-- `nextMonitorSeq`
unfoldable pub next_monitor_seq : Monitor → ℕ × Monitor
next_monitor_seq m = (m.seq, record m { seq = if m.seq == 0xFFFF then 1 else m.seq + 1 })

-- `trackMonitorPending`, with the request's fields in place of `entry`.
unfoldable pub track_monitor_pending : ℕ → Request → Monitor → Monitor
track_monitor_pending seq entry m = record m { pending = put seq entry m.pending }

-- `encodeMonitorRead`; `now` is `Date.now()`.
unfoldable pub encode_monitor_read : ℕ → ℕ → ℕ → Monitor → (ℕ × List ℕ) × Monitor
unfolding next_monitor_seq track_monitor_pending
encode_monitor_read now addr width m =
    let (seq, numbered) = next_monitor_seq m in
    let bytes = frame 0x20 (push_u16 (push_u16 [] seq) addr ++ width ∷ []) in
    let entry : Request = record {
      seq = seq;
      created_at = now;
      timeout_at = now + monitor_timeout_ms;
      op = read;
      addr = addr;
      width = width;
      value = none;
      mask = none;
      bytes = bytes;
    } in
    ((seq, bytes), track_monitor_pending seq entry numbered)

-- `encodeMonitorWrite`
unfoldable pub encode_monitor_write : ℕ → ℕ → ℕ → ℕ → ℕ → Monitor → (ℕ × List ℕ) × Monitor
unfolding next_monitor_seq track_monitor_pending
encode_monitor_write now addr value mask width m =
    let (seq, numbered) = next_monitor_seq m in
    let bytes = frame 0x22 (
      push_u32 (push_u32 (push_u16 (push_u16 [] seq) addr ++ width ∷ []) (to_u32 value))
        (to_u32 mask)) in
    let entry : Request = record {
      seq = seq;
      created_at = now;
      timeout_at = now + monitor_timeout_ms;
      op = write;
      addr = addr;
      width = width;
      value = some (to_u32 value);
      mask = some (to_u32 mask);
      bytes = bytes;
    } in
    ((seq, bytes), track_monitor_pending seq entry numbered)

-- `updateMonitorValue`
unfoldable pub update_monitor_value : ℕ → ℕ → ℕ → ℕ → ℕ → Monitor → Monitor
unfolding monitor_register
update_monitor_value addr value timestamp status width m =
    let row : RegisterValue = record {
      register = monitor_register addr m;
      value = value;
      timestamp = timestamp;
      status = status;
      status_text = monitor_status status;
      width = width;
    } in
    record m { values = put addr row m.values }

-- `addMonitorError`
unfoldable pub add_monitor_error : Event → Viewer → Viewer
add_monitor_error event s =
    let entry : ErrorEntry = record { event = event; created_at = s.clock } in
    request_render View.monitor (
      set_monitor s
        (record s.monitor { errors = unshift_bounded max_errors entry s.monitor.errors }))

-- What both responses do first: the request leaves `pending`, the record joins the history, and a
-- success sets the register's value.
unfoldable pub settle : ℕ → Event → Bool → (Monitor → Monitor) → Monitor → Monitor
settle seq event succeeded update m =
    let settled : Monitor = record m {
      pending = delete seq m.pending;
      history = m.history ++ event ∷ [];
    } in
    if succeeded then update settled else settled

-- `if (!pending || status !== 0) addMonitorError(record)`
unfoldable pub report : Bool → Event → Viewer → Viewer
report failed event s = if failed then add_monitor_error event s else s

-- How both responses end.
unfoldable pub respond : Bool → Event → LogRow → Viewer → Viewer
unfolding report
respond failed event row s = request_render View.monitor (add_log row (report failed event s))

-- `decodeMonitorReadResponse`
unfoldable pub decode_monitor_read_response : List ℕ → Viewer → Viewer
decode_monitor_read_response payload s =
    let timestamp = u32 payload 0 in
    let seq = u16 payload 4 in
    let addr = u16 payload 6 in
    let status = byte_at payload 8 in
    let width = byte_at payload 9 in
    let value = u32 payload 10 in
    let unknown = not (is_some (get seq s.monitor.pending)) in
    let event : Event = monitor_read (record {
      timestamp = timestamp;
      seq = seq;
      addr = addr;
      status = status;
      status_text = monitor_status status;
      width = width;
      value = value;
      unknown_seq = unknown;
    }) in
    let settled =
      settle seq event (status == 0) (update_monitor_value addr value timestamp status width)
        s.monitor in
    let row =
      log_row (number timestamp) (type_text 0x21) (hex addr 4 ++ codes "#" ++ dec seq)
        (text (hex value 8))
        (if unknown
          then codes "read response with unknown seq"
          else codes "read " ++ monitor_status status) in
    respond (unknown || not (status == 0)) event row (set_monitor s settled)

-- `pending ? pending.width : 4`
unfoldable pub pending_width : Option Request → ℕ
pending_width none = 4
pending_width (some request) = request.width

-- `decodeMonitorWriteResponse`
unfoldable pub decode_monitor_write_response : List ℕ → Viewer → Viewer
decode_monitor_write_response payload s =
    let timestamp = u32 payload 0 in
    let seq = u16 payload 4 in
    let addr = u16 payload 6 in
    let status = byte_at payload 8 in
    let old_value = u32 payload 9 in
    let new_value = u32 payload 13 in
    let pending = get seq s.monitor.pending in
    let unknown = not (is_some pending) in
    let event : Event = monitor_write (record {
      timestamp = timestamp;
      seq = seq;
      addr = addr;
      status = status;
      status_text = monitor_status status;
      old_value = old_value;
      new_value = new_value;
      unknown_seq = unknown;
    }) in
    let settled =
      settle seq event (status == 0)
        (update_monitor_value addr new_value timestamp status (pending_width pending)) s.monitor in
    let row =
      log_row (number timestamp) (type_text 0x23) (hex addr 4 ++ codes "#" ++ dec seq)
        (text (hex old_value 8 ++ codes " -> " ++ hex new_value 8))
        (if unknown
          then codes "write response with unknown seq"
          else codes "write " ++ monitor_status status) in
    respond (unknown || not (status == 0)) event row (set_monitor s settled)

-- The record of one expired request.
unfoldable pub timeout_event : ℕ → Request → Event
timeout_event seq request = monitor_timeout (record {
  seq = seq;
  addr = request.addr;
  status = 6;
  status_text = monitor_status 6;
  op = request.op;
})

-- The loop of `expireMonitorPending` over the entries of `pending`, which are those at its start.
unfoldable pub expire_entries : ℕ → Dict ℕ Request → Viewer → List Event × Viewer
unfolding timeout_event
expire_entries now [] s = ([], s)
expire_entries now ((seq, request) ∷ rest) s =
    let event = timeout_event seq request in
    let removed : Viewer = set_monitor s (record s.monitor {
      pending = delete seq s.monitor.pending;
      history = s.monitor.history ++ event ∷ [];
    }) in
    let expired = expire_entries now rest (add_monitor_error event removed) in
    let kept = expire_entries now rest s in
    if leb request.timeout_at now then (event ∷ expired.0, expired.1) else kept

-- `expireMonitorPending`
unfoldable pub expire_monitor_pending : ℕ → Viewer → List Event × Viewer
unfolding expire_entries
expire_monitor_pending now s = expire_entries now s.monitor.pending s
