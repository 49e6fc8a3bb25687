-- ===== src/Decode.antt =====
-- `decodeFrame` of tools/viewer/web/app.js: the version and type check, and the dispatch to the
-- handler of a frame's type. A frame that is too short for its handler falls through to the
-- branches below it.
pub mod Debug
pub mod Trace
pub mod Monitor
pub mod Profiler
pub mod Analyzer
pub mod Dispatch
pub mod Rendering
pub mod Bounds
pub mod Captures
pub mod Paused
pub mod Numbering
use open_fpgastudio.Base.{
  ℕ, ◌+◌, Bool, true, false, not, ◌&&◌, ◌||◌, Option, none, some, List, [], ◌∷◌, ◌++◌, leb, ◌==◌,
  if◌then◌else◌, is_some, length,
}
use open_fpgastudio.Base.Texts.{Text, codes, hex}
use open_fpgastudio.Wire.{version}
use open_fpgastudio.State.Tables.{type_name, type_text}
use open_fpgastudio.State.Monitor.{unsupported}
use open_fpgastudio.State.{Viewer, text, dash, log_row, add_log}
use Debug.{heartbeat, debug_print, event_frame, watch_frame, status_frame}
use Trace.{span_begin_frame, span_end_frame, mark_frame, value_frame, drop_frame}
use Monitor.{add_monitor_error, decode_monitor_read_response, decode_monitor_write_response}
use Profiler.{decode_profiler_snapshot, decode_profiler_alert, record_profiler_malformed}
use Analyzer.{decode_analyzer_frame}

-- `state.unknownFrames += 1`
unfoldable pub count_unknown : Viewer → Viewer
count_unknown s = record s { unknown_frames = s.unknown_frames + 1 }

-- `raw.map((v) => hex(v, 2)).join(" ")`
unfoldable pub hex_bytes : List ℕ → Text
hex_bytes [] = []
hex_bytes (b ∷ []) = hex b 2
hex_bytes (b ∷ c ∷ bs) = hex b 2 ++ codes " " ++ hex_bytes (c ∷ bs)

unfoldable pub unsupported_frame : ℕ → List ℕ → Viewer → Viewer
unfolding count_unknown
unsupported_frame type raw s =
    add_log
      (log_row dash (codes "UNKNOWN") (hex type 2) (text (hex_bytes raw))
        (codes "Unsupported version or type"))
      (count_unknown s)

unfoldable pub reserved_monitor : ℕ → Viewer → Viewer
unfolding count_unknown
reserved_monitor type s =
    add_monitor_error
      (unsupported type (type_text type ++ codes " is reserved for a later Monitor milestone"))
      (count_unknown s)

unfoldable pub reserved_profiler : ℕ → List ℕ → Viewer → Viewer
unfolding count_unknown
reserved_profiler type payload s =
    record_profiler_malformed type (length payload) (codes "reserved profiler type")
      (count_unknown s)

-- The branches after the trace frames.
unfoldable pub dispatch_instruments : ℕ → List ℕ → Viewer → Viewer
dispatch_instruments type payload =
    if type == 0x21 && leb 14 (length payload)
    then decode_monitor_read_response payload
    else if type == 0x23 && leb 17 (length payload)
    then decode_monitor_write_response payload
    else if type == 0x30
    then decode_profiler_snapshot payload
    else if type == 0x31
    then decode_profiler_alert payload
    else if leb 0x40 type && leb type 0x4F
    then decode_analyzer_frame type payload
    else if leb 0x20 type && leb type 0x2F
    then reserved_monitor type
    else if leb 0x30 type && leb type 0x3F
    then reserved_profiler type payload
    else count_unknown

-- The branches of the trace frames and those below them.
unfoldable pub dispatch_trace : ℕ → List ℕ → Viewer → Viewer
dispatch_trace type payload =
    if type == 0x10 && leb 12 (length payload)
    then span_begin_frame payload
    else if type == 0x11 && leb 13 (length payload)
    then span_end_frame payload
    else if type == 0x12 && leb 11 (length payload)
    then mark_frame payload
    else if type == 0x13 && leb 12 (length payload)
    then value_frame payload
    else if type == 0x14 && leb 10 (length payload)
    then drop_frame payload
    else dispatch_instruments type payload

-- All branches of a known type.
unfoldable pub dispatch : ℕ → List ℕ → Viewer → Viewer
dispatch type payload =
    if type == 0x01 && leb 4 (length payload)
    then heartbeat payload
    else if type == 0x02 && leb 14 (length payload)
    then debug_print payload
    else if type == 0x03 && leb 11 (length payload)
    then event_frame payload
    else if type == 0x04 && leb 10 (length payload)
    then watch_frame payload
    else if type == 0x05 && leb 10 (length payload)
    then status_frame payload
    else dispatch_trace type payload

-- `decodeFrame`
unfoldable pub decode_frame : ℕ → ℕ → List ℕ → List ℕ → Viewer → Viewer
decode_frame frame_version type payload raw s =
    let counted : Viewer = record s { frames = s.frames + 1 } in
    let handler : Viewer → Viewer =
      if not (frame_version == version) || not (is_some (type_name type))
      then unsupported_frame type raw
      else dispatch type payload in
    handler counted
