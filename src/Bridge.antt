-- ===== src/Bridge.antt =====
-- The JTAG bridge's records in tools/viewer/web/app.js: `consumeBridgeBytes`, `consumeBridgeRecord`
-- and the `transport` part of the page's state. The text decoder, the JSON parser and the floating
-- point of the throughput are parameters. `renderTransport` only writes to the page, and is left out.
pub mod Data
pub mod Rounds
pub mod Rest
pub mod Loop
pub mod Pieces
use open_fpgastudio.Base.{
  ℕ, zero, suc, ◌+◌, ◌*◌, Bool, true, false, not, ◌&&◌, Option, none, some, List, [], ◌++◌, length,
  take, drop, ltb, ◌==◌, if◌then◌else◌,
}
use open_fpgastudio.Base.Texts.{Text, codes, dec}
use open_fpgastudio.Wire.{byte_at, u32}
use open_fpgastudio.State.{add_log, log_row, dash}
use open_fpgastudio.Receiver.{Receiver, receive}

-- A session number as JavaScript holds it.
pub data Session : Type 0 where
  null undefined : Session
  session : ℕ → Session

unfoldable pub same_session : Session → Session → Bool
same_session null null = true
same_session undefined undefined = true
same_session (session a) (session b) = a == b
same_session _ _ = false

unfoldable pub is_null : Session → Bool
is_null null = true
is_null _ = false

-- `String(value)`
unfoldable pub session_text : Session → Text
session_text null = codes "null"
session_text undefined = codes "undefined"
session_text (session a) = dec a

-- What the program uses of `JSON.parse`, of the fields of a parsed message and of floating point.
-- `parse` is `bridgeJson`: it fails where `JSON.parse` throws, and a parsed message is an object.
-- `payload_bytes` is `value.payload_bytes || 0`; `error_text` is `value.message ||
-- JSON.stringify(value)`; `rate` is the throughput that `currentBps` gets, from the new message, the
-- bytes of the one before and the times of both.
pub record Json : Type 1 where
  pub Value : Type 0
  pub Rate : Type 0
  pub parse : List ℕ → Option Value
  pub session_id : Value → Session
  pub new_session : Value → Session
  pub payload_bytes : Value → ℕ
  pub error_text : Value → Text
  pub rate : Value → ℕ → ℕ → ℕ → Rate

abbrev pub max_record : ℕ
max_record = 16 * 1024 * 1024

module _ (j : Json) where
  -- `status` is the last status message with the error that was put into it since.
  pub record Transport : Type 0 where
    pub hello : Option j.Value
    pub status : Option j.Value
    pub last_error : Option Text
    pub session_id : Session
    pub record_rx : List ℕ
    pub current_bps : Option j.Rate
    pub last_status_bytes : ℕ
    pub last_status_at : ℕ

-- The receiver and the transport.
pub record Bridge (j : Json) : Type 0 where
  pub receiver : Receiver
  pub transport : Transport j
  pub now : ℕ

-- Whether a call returned or threw.
pub data Outcome : Type 0 where
  returned thrown : Outcome

module _ (j : Json) where
  abbrev clear_rx : Receiver → Receiver
  clear_rx r = record r { rx = [] }

  unfoldable pub on_hello : j.Value → Bridge j → Bridge j
  unfolding same_session is_null
  on_hello value b =
      let changed =
        not (is_null b.transport.session_id)
        && not (same_session b.transport.session_id (j.session_id value)) in
      record b {
        receiver = if changed then clear_rx b.receiver else b.receiver;
        transport = record b.transport { hello = some value; session_id = j.session_id value };
      }

  unfoldable pub on_status : j.Value → Bridge j → Bridge j
  on_status value b =
      let t = b.transport in
      let rate = some (j.rate value t.last_status_bytes b.now t.last_status_at) in
      record b {
        transport = record b.transport {
          current_bps = if t.last_status_at == 0 then b.transport.current_bps else rate;
          last_status_at = b.now;
          last_status_bytes = j.payload_bytes value;
          status = some value;
          last_error = none;
        };
      }

  unfoldable pub on_session : j.Value → Bridge j → Bridge j
  on_session value b =
      let cleared = clear_rx b.receiver in
      let row =
        log_row dash (codes "SESSION") (session_text (j.new_session value)) dash
          (codes "Parser resynchronized at next SOF") in
      record b {
        receiver = record cleared { viewer = add_log row b.receiver.viewer };
        transport = record b.transport { session_id = j.new_session value };
      }

  unfoldable pub on_error : j.Value → Bridge j → Bridge j
  on_error value b = record b {
    transport = record b.transport { last_error = some (j.error_text value) };
  }

  -- `JSON.parse` throws, or the message is handled.
  unfoldable pub with_json :
      Option j.Value → (j.Value → Bridge j → Bridge j) → Bridge j → Bridge j × Outcome
  with_json none handler b = (b, thrown)
  with_json (some value) handler b = (handler value b, returned)

  -- `consumeBridgeRecord`
  unfoldable pub consume_bridge_record : ℕ → List ℕ → Bridge j → Bridge j × Outcome
  unfolding with_json
  consume_bridge_record kind payload b =
      if kind == 2
      then (record b { receiver = receive payload b.receiver }, returned)
      else if kind == 1
      then with_json (j.parse payload) on_hello b
      else if kind == 3
      then with_json (j.parse payload) on_status b
      else if kind == 4
      then with_json (j.parse payload) on_session b
      else if kind == 5
      then with_json (j.parse payload) on_error b
      else (b, returned)

  -- The loop over the merged buffer, with what is left of it; each round takes five bytes at least,
  -- so the length of the buffer is enough fuel. A round that throws ends the loop.
  unfoldable pub consume_loop : ℕ → List ℕ → Bridge j → (Bridge j × Outcome) × List ℕ
  consume_loop zero rest b = ((b, returned), rest)
  consume_loop (suc fuel) rest b =
      let size = u32 rest 1 in
      let done = consume_bridge_record (byte_at rest 0) (take size (drop 5 rest)) b in
      let next = consume_loop fuel (drop (5 + size) rest) done.0 in
      let after : (Bridge j × Outcome) × List ℕ = elim done.1 [
        | thrown ↦ (done, rest)
        | returned ↦ next
      ] in
      if ltb (length rest) 5
      then ((b, returned), rest)
      else if ltb max_record size
      then ((b, thrown), rest)
      else if ltb (length rest) (5 + size)
      then ((b, returned), rest)
      else after

  -- `state.transport.recordRx = …` at the end, which a throw leaves out.
  unfoldable pub keep_rest : (Bridge j × Outcome) × List ℕ → List ℕ → Bridge j × Outcome
  keep_rest ((b, returned), rest) merged =
      (record b { transport = record b.transport { record_rx = rest } }, returned)
  keep_rest ((b, thrown), rest) merged = (b, thrown)

  -- `consumeBridgeBytes`
  unfoldable pub consume_bridge_bytes : List ℕ → Bridge j → Bridge j × Outcome
  unfolding keep_rest
  consume_bridge_bytes bytes b =
      let merged = b.transport.record_rx ++ bytes in
      let started : Bridge j = record b { transport = record b.transport { record_rx = merged } } in
      keep_rest (consume_loop (length merged) merged started) merged
