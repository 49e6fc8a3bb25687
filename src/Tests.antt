-- ===== src/Tests.antt =====
-- Runs of the model on concrete input, and the theorems at concrete input.
pub mod Tracing
pub mod Capturing
pub mod Building
pub mod Bridging
pub mod Diagnosing
pub mod Commanding
pub mod Linking
use open_fpgastudio.Base.{
  ℕ, drop, none, ◌≢◌, ◌⊎◌, ◌%◌, ◌^◌, not, ◌==◌, ◌||◌, if◌then◌else◌, is_some, ◌+◌, ◌<◌, ◌≡◌, refl,
  List, [], ◌∷◌, ◌++◌, arith, length, some, Bool, false,
}
use open_fpgastudio.Base.Texts.{hex}
use open_fpgastudio.Base.Dict.{get, put, delete, number_key, text_key}
use open_fpgastudio.Wire.{byte_at, checksum, u16, u32, push_u16, push_u32, frame, xor_all}
use open_fpgastudio.Wire.Fields.{u16-push_u16, u32-push_u32}
use open_fpgastudio.Wire.Xor.{here, there}
use open_fpgastudio.State.Tables.{type_name, type_text}
use open_fpgastudio.State.Render.{View, request, schedule, mark}
use open_fpgastudio.State.{initial_viewer, request_render, add_log, unshift_bounded}
use open_fpgastudio.Decode.Bounds.{IsBounded}
use open_fpgastudio.Decode.Debug.{heartbeat}
use open_fpgastudio.Decode.{decode_frame, dispatch, unsupported_frame}
use open_fpgastudio.Base.{true, replicate, if◌then◌else◌, ◌-◌}
use open_fpgastudio.Base.Dict.{Dict, has}
use open_fpgastudio.State.Tables.{la_flags, profiler_flags}
use open_fpgastudio.State.Render.{initial_render}
use open_fpgastudio.State.{Viewer}
use open_fpgastudio.State.Monitor.{Op, Request, create_monitor}
use open_fpgastudio.State.Analyzer.{Capture, empty_capture, create_analyzer}
use open_fpgastudio.State.Profiler.{create_profiler}
use open_fpgastudio.Page.{csv_cell}
use open_fpgastudio.Page.Csv.{read_cell, read_cell-csv_cell}
use open_fpgastudio.Receiver.Paused.{receive_paused}
use open_fpgastudio.Receiver.Captures.{receive-AreSound}
use open_fpgastudio.Decode.Analyzer.Complete.{AreSound}
use open_fpgastudio.Decode.Analyzer.Resend.{sample_at, samples_recorded, resend_blank}
use open_fpgastudio.Decode.Analyzer.{
  la_capture, capture_or, decode_sample_data, decode_header, header_record, chunk_record,
  status_record, trigger_record, bad_packing,
}
use open_fpgastudio.Decode.Profiler.{flag_names, snapshot_record, profiler_metric}
use open_fpgastudio.Decode.Monitor.{expire_monitor_pending}
use open_fpgastudio.Decode.Monitor.Expiry.{due_events, is_due, expire_cases}
use open_fpgastudio.Builders.{
  header_frame, header_payload, sample_frame, sample_payload, status_payload, trigger_payload,
  profiler_snapshot_payload, pad_payload, values_bytes, value_bytes,
}
use open_fpgastudio.Builders.RoundTrip.{
  status_record-status_payload, trigger_record-trigger_payload, header_record-header_payload,
  snapshot_record-profiler_snapshot_payload,
}
use open_fpgastudio.Bridge.{Json, Bridge, null, undefined, returned, consume_bridge_bytes}
use open_fpgastudio.Bridge.Data.{data_records, joined, consume_bridge_bytes-data_records}
use open_fpgastudio.Receiver.{
  receive, append_rx_bytes, parse_available_frames, parse_loop, scan, incomplete, check_frame,
  drop_byte, reject, accept, decode_raw, initial_receiver,
}
use open_fpgastudio.Receiver.Loop.{parse, parse_loop_ends}
use open_fpgastudio.Decode.Trace.{elapsed, trace_key, begin_trace_span, end_trace_span}
use open_fpgastudio.Decode.Trace.Spans.{
  trace_key-injective, elapsed_wraps, end_trace_span-begin_trace_span,
}
use open_fpgastudio.Decode.Monitor.{decode_monitor_read_response, max_errors}
use open_fpgastudio.Decode.Monitor.Responses.{read_event, read_value}
use open_fpgastudio.State.Monitor.{Monitor}
use open_fpgastudio.State.Trace.{Trace, Span, empty_trace}
use open_fpgastudio.Base.Texts.Hex.{read_digits, read-hex}
use open_fpgastudio.Receiver.Pieces.{ask, receive-append, receive-lt}
use open_fpgastudio.Receiver.Frames.{with_rx, frame_with}
use open_fpgastudio.Receiver.Stream.{Segment, stream, deliver, receive-stream}
use open_fpgastudio.Receiver.Corruption.{parse_damaged}
use open_fpgastudio.Receiver.Bounds.{receive-IsBounded}

-- The functions that a run of the receiver goes through.
pub program : Unit {0}
unfolding receive append_rx_bytes parse_available_frames parse_loop scan check_frame drop_byte
    reject accept decode_raw decode_frame dispatch heartbeat unsupported_frame checksum xor_all u16
    u32 frame type_name type_text get add_log request_render unshift_bounded request schedule mark
program = tt

abbrev beat : List ℕ
beat = 0xA5 ∷ 1 ∷ 1 ∷ 4 ∷ 0x78 ∷ 0x56 ∷ 0x34 ∷ 0x12 ∷ 12 ∷ []

beat-frame : frame 1 (0x78 ∷ 0x56 ∷ 0x34 ∷ 0x12 ∷ []) ≡ beat
unfolding program
beat-frame = refl

beat_counts : (receive (7 ∷ beat) initial_receiver).viewer.frames ≡ 1
unfolding program
beat_counts = refl

beat_drops : (receive (7 ∷ beat) initial_receiver).sync_drops ≡ 1
unfolding program
beat_drops = refl

beat_logs : length (receive (7 ∷ beat) initial_receiver).viewer.logs ≡ 1
unfolding program
beat_logs = refl

damaged_counts : (receive (0xA5 ∷ 1 ∷ 1 ∷ 0 ∷ 9 ∷ []) initial_receiver).checksum_errors ≡ 1
unfolding program
damaged_counts = refl

receive-append_example :
    receive (1 ∷ 4 ∷ 0x78 ∷ 0x56 ∷ 0x34 ∷ 0x12 ∷ 12 ∷ []) (receive (0xA5 ∷ 1 ∷ []) initial_receiver)
    ≡ receive beat initial_receiver
receive-append_example =
    receive-append (0xA5 ∷ 1 ∷ []) (1 ∷ 4 ∷ 0x78 ∷ 0x56 ∷ 0x34 ∷ 0x12 ∷ 12 ∷ []) initial_receiver

abbrev segments : List Segment
segments =
    record { noise = 7 ∷ []; type = 1; payload = 0x78 ∷ 0x56 ∷ 0x34 ∷ 0x12 ∷ [] }
    ∷ record { noise = []; type = 0x99; payload = [] }
    ∷ []

receive-stream_example :
    receive (stream segments) initial_receiver
    ≡ ask View.counters (with_rx [] (deliver segments initial_receiver))
receive-stream_example = receive-stream segments initial_receiver (omega arith) refl

parse_damaged_example :
    parse (
      with_rx
        (frame_with 1 1 (0x79 ∷ []) (checksum (1 ∷ 1 ∷ 1 ∷ 0x78 ∷ [])) ++ beat)
        initial_receiver)
    ≡ parse (record initial_receiver { rx = beat; checksum_errors = 1 })
parse_damaged_example =
    parse_damaged 1 1 1 (checksum (1 ∷ 1 ∷ 1 ∷ 0x78 ∷ [])) (0x78 ∷ []) (0x79 ∷ []) beat
      initial_receiver (omega arith) (omega arith) refl (omega arith)
      (there (there (there (here (omega arith)))))

receive-IsBounded_example : IsBounded (receive beat initial_receiver).viewer
receive-IsBounded_example = receive-IsBounded beat initial_receiver (omega arith)

receive_paused_example :
    (receive beat (record initial_receiver {
      viewer = record initial_viewer { render = record initial_render { paused = true } };
    })).viewer.render
    ≡ record initial_render { paused = true }
receive_paused_example =
    receive_paused beat
      (record initial_receiver {
        viewer = record initial_viewer { render = record initial_render { paused = true } };
      })
      refl

read_cell-csv_cell_example :
    read_cell (csv_cell (97 ∷ 34 ∷ 44 ∷ []) ++ 44 ∷ 98 ∷ []) ≡ (97 ∷ 34 ∷ 44 ∷ [], 44 ∷ 98 ∷ [])
read_cell-csv_cell_example = read_cell-csv_cell (97 ∷ 34 ∷ 44 ∷ []) (44 ∷ 98 ∷ []) refl

parse_loop_ends_example :
    (parse_loop 20 (with_rx beat initial_receiver)
      ≡ parse_loop (length beat) (with_rx beat initial_receiver))
    × (scan (parse_loop 20 (with_rx beat initial_receiver)).rx ≡ incomplete)
parse_loop_ends_example = parse_loop_ends 20 (with_rx beat initial_receiver) (omega arith)
