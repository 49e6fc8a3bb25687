-- ===== src/Decode/Analyzer.antt =====
-- Logic-analyzer frames: capture headers, sample chunks, statuses and trigger events, from
-- tools/viewer/web/app.js. A capture object is mutated in its map: here it is read from the map and
-- put back.
pub mod Samples
pub mod Recorded
pub mod Complete
pub mod Resend
use open_fpgastudio.Base.{
  ℕ, zero, suc, ◌+◌, ◌-◌, ◌*◌, Bool, true, false, not, ◌&&◌, ◌||◌, Option, none, some, List, [],
  ◌∷◌, ◌++◌, ltb, ◌==◌, if◌then◌else◌, length, replicate, take, is_some, max,
}
use open_fpgastudio.Base.Texts.{Text, codes, hex, dec}
use open_fpgastudio.Base.Dict.{Dict, get, put, has, number_key}
use open_fpgastudio.Wire.{u16, u32, byte_at}
use open_fpgastudio.State.Tables.{type_name, type_text, or_else, la_flags}
use open_fpgastudio.State.Analyzer.{
  Analyzer, Capture, CaptureError, missing_header, overlap, Chunk, Header, Status, TriggerEvent,
  Counters, empty_capture,
}
use open_fpgastudio.State.Render.{View}
use open_fpgastudio.State.{Viewer, Cell, number, text, dash, log_row, request_render, add_log}
use open_fpgastudio.Decode.Profiler.{flag_names}
use Samples.{Fill, le_value, grow, store_sample, fill_samples, all_present}

-- `requestRender(renderCounters); requestRender(renderLogicAnalyzer)`
unfoldable pub request_analyzer : Viewer → Viewer
request_analyzer s = request_render View.analyzer (request_render View.counters s)

-- `laCapture`: the capture of the map, or a new one.
unfoldable pub capture_or : Option Capture → Capture
capture_or none = empty_capture
capture_or (some capture) = capture

unfoldable pub la_capture : ℕ → Analyzer → Capture
unfolding capture_or
la_capture id a = capture_or (get id a.captures)

-- `recordLogicAnalyzerMalformed`
unfoldable pub record_analyzer_malformed : ℕ → ℕ → Text → Viewer → Viewer
unfolding request_analyzer
record_analyzer_malformed type size reason s =
    let counted : Viewer = record s {
      analyzer = record s.analyzer {
        counters = record s.analyzer.counters { malformed = s.analyzer.counters.malformed + 1 };
      };
    } in
    request_analyzer (
      add_log
        (log_row dash (or_else (type_name type) (hex type 2)) (codes "-") (number size)
          (codes "Malformed LA frame: " ++ reason))
        counted)

unfoldable pub header_record : List ℕ → Header
header_record payload = record {
  capture_id = u32 payload 0;
  timestamp = u32 payload 4;
  sample_width_bits = u16 payload 8;
  sample_count = u16 payload 10;
  trigger_index = u16 payload 12;
  flags = u16 payload 14;
  flag_names = flag_names (u16 payload 14) la_flags;
  sample_period_cycles = u32 payload 16;
  channel_count = u16 payload 20;
  reserved = u16 payload 22;
}

unfoldable pub store_header : Header → Analyzer → Analyzer
store_header h a =
    let capture : Capture = record (la_capture h.capture_id a) {
      header = some h;
      samples = replicate h.sample_count none;
      complete = false;
    } in
    record a {
      captures = put h.capture_id capture a.captures;
      latest_capture_id = some h.capture_id;
      counters = record a.counters { headers = a.counters.headers + 1 };
    }

-- `decodeLogicAnalyzerHeader` after its length check
unfoldable pub accept_header : List ℕ → Viewer → Viewer
unfolding header_record store_header
accept_header payload s =
    let h = header_record payload in
    request_render View.counters (
      add_log
        (log_row (number h.timestamp) (type_text 0x40) (hex h.capture_id 8)
          (text (dec h.sample_width_bits ++ codes "b x " ++ dec h.sample_count))
          (codes "trigger @ " ++ dec h.trigger_index))
        (record s { analyzer = store_header h s.analyzer }))

-- `decodeLogicAnalyzerHeader`
unfoldable pub decode_header : List ℕ → Viewer → Viewer
decode_header payload =
    if not (length payload == 24)
    then record_analyzer_malformed 0x40 (length payload) (codes "bad header length")
    else accept_header payload

-- The greatest index of `chunks`: the last of `previousIndexes`, which are sorted.
unfoldable pub last_index : Dict ℕ Chunk → Option ℕ
last_index [] = none
last_index ((index, chunk) ∷ rest) = elim (last_index rest) [
  | none ↦ some index
  | some last ↦ some (max index last)
]

-- The chunks that a new chunk shows to be missing.
unfoldable pub missing_before : Option ℕ → ℕ → Option (ℕ × ℕ)
missing_before none index = if ltb 0 index then some (0, index - 1) else none
missing_before (some last) index = if ltb (last + 1) index then some (last + 1, index - 1) else none

unfoldable pub is_out_of_order : Option ℕ → ℕ → Bool
is_out_of_order none index = false
is_out_of_order (some last) index = ltb index last

unfoldable pub missing_size : Option (ℕ × ℕ) → ℕ
missing_size none = 0
missing_size (some (first, last)) = last - first + 1

unfoldable pub missing_list : Option (ℕ × ℕ) → List (ℕ × ℕ)
missing_list none = []
missing_list (some range) = range ∷ []

-- `![1, 2, 4].includes(sampleBytes) || sampleCount * sampleBytes > 20`
unfoldable pub bad_packing : ℕ → ℕ → Bool
bad_packing sample_bytes sample_count =
    not (sample_bytes == 1 || sample_bytes == 2 || sample_bytes == 4)
    || ltb 20 (sample_count * sample_bytes)

-- `if (!capture.header) capture.errors.push("missing_header")`
unfoldable pub check_header : Capture → Capture
check_header c =
    if is_some c.header then c else record c { errors = c.errors ++ missing_header ∷ [] }

-- `capture.header && capture.samples.slice(0, sampleCount).every(...)`, else as it was.
unfoldable pub now_complete : Option Header → List (Option ℕ) → Bool → Bool
now_complete none samples before = before
now_complete (some h) samples before =
    if all_present (take h.sample_count samples) then true else before

-- A chunk whose index the capture has: it is dropped.
unfoldable pub drop_duplicate : ℕ → Capture → Analyzer → Analyzer
drop_duplicate id c a = record a {
  captures = put id (record c { errors = c.errors ++ overlap ∷ [] }) a.captures;
  counters = record a.counters { dropped_frames = a.counters.dropped_frames + 1 };
}

unfoldable pub chunk_record : List ℕ → List ℕ → Chunk
chunk_record payload values = record {
  capture_id = u32 payload 0;
  chunk_index = u16 payload 4;
  first_sample_index = u16 payload 6;
  sample_bytes = byte_at payload 8;
  sample_count = byte_at payload 9;
  flags = u16 payload 10;
  flag_names = flag_names (u16 payload 10) la_flags;
  values = values;
}

-- The loop over the chunk's samples.
unfoldable pub fill_chunk : List ℕ → Capture → Fill
fill_chunk payload c =
    fill_samples payload (byte_at payload 8) (u16 payload 6) 0 (byte_at payload 9)
      (record { values = []; samples = c.samples; errors = c.errors; dropped = 0 })

-- The capture with the chunk, from the samples that the loop has left.
unfoldable pub add_chunk : List ℕ → Fill → Option (ℕ × ℕ) → Capture → Capture
unfolding chunk_record
add_chunk payload filled missing c = record c {
  samples = filled.samples;
  errors = filled.errors;
  missing_ranges = c.missing_ranges ++ missing_list missing;
  chunks = put (u16 payload 4) (chunk_record payload filled.values) c.chunks;
  complete = now_complete c.header filled.samples c.complete;
}

-- A chunk that is new to the capture.
unfoldable pub store_chunk : List ℕ → Capture → Analyzer → Analyzer
unfolding add_chunk
store_chunk payload c a =
    let index = u16 payload 4 in
    let last = last_index c.chunks in
    let missing = missing_before last index in
    let filled = fill_chunk payload c in
    record a {
      captures = put (u32 payload 0) (add_chunk payload filled missing c) a.captures;
      latest_capture_id = some (u32 payload 0);
      counters = record a.counters {
        samples = a.counters.samples + 1;
        missing_chunks = a.counters.missing_chunks + missing_size missing;
        out_of_order_chunks =
            if is_out_of_order last index
            then a.counters.out_of_order_chunks + 1
            else a.counters.out_of_order_chunks;
        dropped_frames = a.counters.dropped_frames + filled.dropped;
      };
    }

-- A duplicate is dropped, any other chunk is stored and logged.
unfoldable pub accept_chunk : List ℕ → Capture → Viewer → Viewer
unfolding drop_duplicate store_chunk
accept_chunk payload capture s =
    let id = u32 payload 0 in
    let index = u16 payload 4 in
    let row =
      log_row dash (type_text 0x41) (hex id 8 ++ codes "#" ++ dec index)
        (text (dec (byte_at payload 9) ++ codes " samples"))
        (codes "first sample " ++ dec (u16 payload 6)) in
    if has index capture.chunks
    then request_analyzer (record s { analyzer = drop_duplicate id capture s.analyzer })
    else request_analyzer
        (add_log row (record s { analyzer = store_chunk payload capture s.analyzer }))

-- `decodeLogicAnalyzerSampleData` after its checks
unfoldable pub accept_sample_data : List ℕ → Viewer → Viewer
accept_sample_data payload s =
    accept_chunk payload (check_header (la_capture (u32 payload 0) s.analyzer)) s

-- `decodeLogicAnalyzerSampleData`
unfoldable pub decode_sample_data : List ℕ → Viewer → Viewer
decode_sample_data payload =
    if not (length payload == 32)
    then record_analyzer_malformed 0x41 (length payload) (codes "bad sample data length")
    else if bad_packing (byte_at payload 8) (byte_at payload 9)
    then record_analyzer_malformed 0x41 (length payload) (codes "invalid sample packing")
    else accept_sample_data payload

unfoldable pub status_record : List ℕ → Status
status_record payload = record {
  timestamp = u32 payload 0;
  capture_id = u32 payload 4;
  capture_state = byte_at payload 8;
  error = byte_at payload 9;
  samples_written = u16 payload 10;
  chunks_sent = u16 payload 12;
  chunks_total = u16 payload 14;
  status_flags = u32 payload 16;
}

unfoldable pub store_status : Status → Analyzer → Analyzer
store_status r a = record a {
  captures = put r.capture_id (record (la_capture r.capture_id a) { status = some r }) a.captures;
  latest_capture_id = some r.capture_id;
  counters = record a.counters { statuses = a.counters.statuses + 1 };
}

-- `decodeLogicAnalyzerStatus` after its length check
unfoldable pub accept_status : List ℕ → Viewer → Viewer
unfolding status_record store_status
accept_status payload s =
    let r = status_record payload in
    request_analyzer (
      add_log
        (log_row (number r.timestamp) (type_text 0x42) (hex r.capture_id 8)
          (text (dec r.chunks_sent ++ codes "/" ++ dec r.chunks_total))
          (codes "state " ++ dec r.capture_state ++ codes " error " ++ dec r.error))
        (record s { analyzer = store_status r s.analyzer }))

-- `decodeLogicAnalyzerStatus`
unfoldable pub decode_status : List ℕ → Viewer → Viewer
decode_status payload =
    if not (length payload == 20)
    then record_analyzer_malformed 0x42 (length payload) (codes "bad status length")
    else accept_status payload

unfoldable pub trigger_record : List ℕ → TriggerEvent
trigger_record payload = record {
  timestamp = u32 payload 0;
  capture_id = u32 payload 4;
  trigger_index = u16 payload 8;
  trigger_channel = u16 payload 10;
  sample_value = u32 payload 12;
  trigger_value = u32 payload 16;
}

unfoldable pub store_trigger : TriggerEvent → Analyzer → Analyzer
store_trigger r a = record a {
  captures =
      put r.capture_id (record (la_capture r.capture_id a) { trigger_event = some r }) a.captures;
  latest_capture_id = some r.capture_id;
  counters = record a.counters { trigger_events = a.counters.trigger_events + 1 };
}

-- `decodeLogicAnalyzerTriggerEvent` after its length check
unfoldable pub accept_trigger : List ℕ → Viewer → Viewer
unfolding trigger_record store_trigger
accept_trigger payload s =
    let r = trigger_record payload in
    request_analyzer (
      add_log
        (log_row (number r.timestamp) (type_text 0x43) (hex r.capture_id 8)
          (text (hex r.sample_value 8 ++ codes " vs " ++ hex r.trigger_value 8))
          (codes "trigger channel " ++ dec r.trigger_channel ++ codes " @ " ++ dec r.trigger_index))
        (record s { analyzer = store_trigger r s.analyzer }))

-- `decodeLogicAnalyzerTriggerEvent`
unfoldable pub decode_trigger_event : List ℕ → Viewer → Viewer
decode_trigger_event payload =
    if not (length payload == 20)
    then record_analyzer_malformed 0x43 (length payload) (codes "bad trigger event length")
    else accept_trigger payload

-- `decodeLogicAnalyzerFrame`
unfoldable pub decode_analyzer_frame : ℕ → List ℕ → Viewer → Viewer
decode_analyzer_frame type payload =
    if type == 0x40
    then decode_header payload
    else if type == 0x41
    then decode_sample_data payload
    else if type == 0x42
    then decode_status payload
    else if type == 0x43
    then decode_trigger_event payload
    else record_analyzer_malformed type (length payload) (codes "reserved LA type")
