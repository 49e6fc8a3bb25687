-- ===== src/Receiver.antt =====
-- The receive buffer and `parseAvailableFrames` of tools/viewer/web/app.js: bytes come in pieces
-- of any size, frames are cut out of them and decoded.
pub mod Scan
pub mod Loop
pub mod Pieces
pub mod Frames
pub mod Corruption
pub mod Stream
pub mod Bounds
pub mod Captures
pub mod Paused
use open_fpgastudio.Base.{
  ℕ, zero, suc, ◌+◌, ◌-◌, List, [], ◌++◌, length, take, drop, ltb, ◌==◌, not, if◌then◌else◌,
}
use open_fpgastudio.Wire.{sof, max_payload, byte_at, checksum}
use open_fpgastudio.State.Render.{View}
use open_fpgastudio.State.{Viewer, request_render, initial_viewer}
use open_fpgastudio.Decode.{decode_frame}

-- `state.rx`, the two counters of the parser and the rest of the page's state.
pub record Receiver : Type 0 where
  pub rx : List ℕ
  pub checksum_errors : ℕ
  pub sync_drops : ℕ
  pub viewer : Viewer

abbrev pub initial_receiver : Receiver
initial_receiver = record { rx = []; checksum_errors = 0; sync_drops = 0; viewer = initial_viewer }

-- What one round of the loop finds at the front of the buffer: too little to go on, a byte that is
-- dropped, a frame with a wrong checksum, a frame. The last three carry what is left of the buffer.
pub data Found : Type 0 where
  incomplete : Found
  no_frame : List ℕ → Found
  bad_frame : List ℕ → Found
  whole_frame : List ℕ → List ℕ → Found

-- The checksum test, on the `total` bytes that were cut off.
unfoldable pub check_frame : ℕ → List ℕ → List ℕ → Found
check_frame total raw rest =
    if checksum (drop 1 (take (total - 1) raw)) == byte_at raw (total - 1)
    then whole_frame raw rest
    else bad_frame rest

-- The loop's tests, in their order.
unfoldable pub scan : List ℕ → Found
scan rx =
    let size = byte_at rx 3 in
    let total = 5 + size in
    if ltb (length rx) 5
    then incomplete
    else if not (byte_at rx 0 == sof)
    then no_frame (drop 1 rx)
    else if ltb max_payload size
    then no_frame (drop 1 rx)
    else if ltb (length rx) total
    then incomplete
    else check_frame total (take total rx) (drop total rx)

-- `decodeFrame(raw[1], raw[2], raw.slice(4, total - 1), raw)`
unfoldable pub decode_raw : List ℕ → Viewer → Viewer
decode_raw raw =
    decode_frame (byte_at raw 1) (byte_at raw 2) (drop 4 (take (length raw - 1) raw)) raw

-- One round's effect on the state, where the round does not end the loop.
unfoldable pub drop_byte : List ℕ → Receiver → Receiver
drop_byte rest s = record s { rx = rest; sync_drops = s.sync_drops + 1 }

unfoldable pub reject : List ℕ → Receiver → Receiver
reject rest s = record s { rx = rest; checksum_errors = s.checksum_errors + 1 }

unfoldable pub accept : List ℕ → List ℕ → Receiver → Receiver
accept raw rest s = record s { rx = rest; viewer = decode_raw raw s.viewer }

-- The loop. Each round takes a byte at least, so the length of the buffer is enough fuel.
unfoldable pub parse_loop : ℕ → Receiver → Receiver
parse_loop zero s = s
parse_loop (suc fuel) s = elim (scan s.rx) [
  | incomplete ↦ s
  | no_frame rest ↦ parse_loop fuel (drop_byte rest s)
  | bad_frame rest ↦ parse_loop fuel (reject rest s)
  | whole_frame raw rest ↦ parse_loop fuel (accept raw rest s)
]

-- `parseAvailableFrames`
unfoldable pub parse_available_frames : Receiver → Receiver
parse_available_frames s =
    let parsed = parse_loop (length s.rx) s in
    record parsed { viewer = request_render View.counters parsed.viewer }

-- `appendRxBytes`
unfoldable pub append_rx_bytes : List ℕ → Receiver → Receiver
append_rx_bytes bytes s = record s { rx = s.rx ++ bytes }

-- A piece of input, as `readLoop`, a bridge record or a replayed file hand it over.
unfoldable pub receive : List ℕ → Receiver → Receiver
receive bytes s = parse_available_frames (append_rx_bytes bytes s)
