-- ===== src/Decode/Trace.antt =====
-- Trace frames: spans, marks, values and drops, from tools/viewer/web/app.js.
pub mod Spans
use open_fpgastudio.Base.{
  ℕ, ◌+◌, ◌-◌, ◌%◌, ◌^◌, true, false, Option, none, some, List, [], ◌∷◌, ◌++◌, ltb, if◌then◌else◌,
  length, drop,
}
use open_fpgastudio.Base.Texts.{Text, codes, hex}
use open_fpgastudio.Base.Dict.{get, put, delete, text_key}
use open_fpgastudio.Wire.{u16, u32, byte_at}
use open_fpgastudio.State.Tables.{type_text, level_text, trace_status}
use open_fpgastudio.State.Trace.{Trace, OpenSpan, Span, Mark, Value, Drop}
use open_fpgastudio.State.Render.{View}
use open_fpgastudio.State.{Viewer, number, text, log_row, request_render, add_log}

abbrev pub max_spans : ℕ
max_spans = 20000

abbrev pub max_marks : ℕ
max_marks = 20000

abbrev pub max_values : ℕ
max_values = 10000

abbrev pub max_drops : ℕ
max_drops = 2000

-- `traceKey`
unfoldable pub trace_key : ℕ → ℕ → Text
trace_key trace_id instance_id = hex trace_id 4 ++ codes ":" ++ hex instance_id 4

-- `if (xs.length > limit) xs.splice(0, xs.length - limit)`
unfoldable pub keep_last {ℓ} : {A : Type ℓ} → ℕ → List A → List A
keep_last limit xs = if ltb limit (length xs) then drop (length xs - limit) xs else xs

-- `pruneTraceHistory`
unfoldable pub prune_trace_history : Trace → Trace
prune_trace_history t = record t {
  spans = keep_last max_spans t.spans;
  marks = keep_last max_marks t.marks;
  values = keep_last max_values t.values;
  drops = keep_last max_drops t.drops;
}

-- `beginTraceSpan`
unfoldable pub begin_trace_span : ℕ → ℕ → ℕ → ℕ → Trace → Trace
begin_trace_span timestamp trace_id instance_id arg0 t =
    let open_span : OpenSpan = record {
      trace_id = trace_id;
      instance_id = instance_id;
      start_timestamp = timestamp;
      start_arg0 = arg0;
    } in
    record t { open_spans = put (trace_key trace_id instance_id) open_span t.open_spans }

-- `(timestamp - begin.startTimestamp) >>> 0`
unfoldable pub elapsed : ℕ → ℕ → ℕ
elapsed start timestamp = (timestamp + 2 ^ 32 - start) % 2 ^ 32

-- The span that `endTraceSpan` builds, by whether it was open.
unfoldable pub closed_span : ℕ → ℕ → ℕ → ℕ → ℕ → Option OpenSpan → Span
unfolding elapsed
closed_span timestamp trace_id instance_id status arg0 (some begin) = record {
  trace_id = trace_id;
  instance_id = instance_id;
  start_timestamp = some begin.start_timestamp;
  end_timestamp = timestamp;
  duration = some (elapsed begin.start_timestamp timestamp);
  status = status;
  start_arg0 = some begin.start_arg0;
  end_arg0 = arg0;
  orphan = false;
}
closed_span timestamp trace_id instance_id status arg0 none = record {
  trace_id = trace_id;
  instance_id = instance_id;
  start_timestamp = none;
  end_timestamp = timestamp;
  duration = none;
  status = status;
  start_arg0 = none;
  end_arg0 = arg0;
  orphan = true;
}

-- `if (begin) openSpans.delete(key)`: deleting a key that is not there changes nothing, so the
-- test is left out.
unfoldable pub end_trace_span : ℕ → ℕ → ℕ → ℕ → ℕ → Trace → Span × Trace
end_trace_span timestamp trace_id instance_id status arg0 t =
    let key = trace_key trace_id instance_id in
    let span = closed_span timestamp trace_id instance_id status arg0 (get key t.open_spans) in
    (
      span,
      prune_trace_history
          (record t { spans = t.spans ++ span ∷ []; open_spans = delete key t.open_spans }),
    )

-- `updateTraceValue`
unfoldable pub update_trace_value : ℕ → ℕ → ℕ → ℕ → Trace → Trace
update_trace_value timestamp trace_id value_id value t =
    let row : Value = record {
      timestamp = timestamp;
      trace_id = trace_id;
      value_id = value_id;
      value = value;
    } in
    prune_trace_history (record t {
      values = t.values ++ row ∷ [];
      latest_values = put (hex trace_id 4 ++ codes ":" ++ hex value_id 4) row t.latest_values;
    })

unfoldable pub span_begin_frame : List ℕ → Viewer → Viewer
unfolding add_log
span_begin_frame payload s =
    let timestamp = u32 payload 0 in
    let trace_id = u16 payload 4 in
    let instance_id = u16 payload 6 in
    let arg0 = u32 payload 8 in
    let row =
      log_row (number timestamp) (type_text 0x10) (trace_key trace_id instance_id)
        (text (hex arg0 8)) (codes "trace span begin") in
    request_render View.trace (
      add_log row
        (record s { trace = begin_trace_span timestamp trace_id instance_id arg0 s.trace }))

unfoldable pub span_end_text : Span → Text
span_end_text span =
    if span.orphan
    then codes "orphan end " ++ trace_status span.status
    else codes "trace span end " ++ trace_status span.status

unfoldable pub span_end_frame : List ℕ → Viewer → Viewer
unfolding add_log
span_end_frame payload s =
    let timestamp = u32 payload 0 in
    let trace_id = u16 payload 4 in
    let instance_id = u16 payload 6 in
    let arg0 = u32 payload 9 in
    let ended = end_trace_span timestamp trace_id instance_id (byte_at payload 8) arg0 s.trace in
    let row =
      log_row (number timestamp) (type_text 0x11) (trace_key trace_id instance_id)
        (text (hex arg0 8)) (span_end_text ended.0) in
    request_render View.trace (add_log row (record s { trace = ended.1 }))

unfoldable pub mark_frame : List ℕ → Viewer → Viewer
unfolding add_log
mark_frame payload s =
    let mark : Mark = record {
      timestamp = u32 payload 0;
      trace_id = u16 payload 4;
      level = byte_at payload 6;
      arg0 = u32 payload 7;
    } in
    let row =
      log_row (number mark.timestamp) (type_text 0x12) (hex mark.trace_id 4)
        (text (hex mark.arg0 8)) (level_text mark.level) in
    request_render View.trace (
      add_log row (record s {
        trace = prune_trace_history (record s.trace { marks = s.trace.marks ++ mark ∷ [] });
      }))

unfoldable pub value_frame : List ℕ → Viewer → Viewer
unfolding add_log
value_frame payload s =
    let timestamp = u32 payload 0 in
    let trace_id = u16 payload 4 in
    let value_id = u16 payload 6 in
    let value = u32 payload 8 in
    let row =
      log_row (number timestamp) (type_text 0x13) (hex trace_id 4 ++ codes "/" ++ hex value_id 4)
        (text (hex value 8)) (codes "trace value") in
    request_render View.trace (
      add_log row
        (record s { trace = update_trace_value timestamp trace_id value_id value s.trace }))

unfoldable pub drop_frame : List ℕ → Viewer → Viewer
unfolding add_log
drop_frame payload s =
    let dropped : Drop = record {
      timestamp = u32 payload 0;
      trace_id = u16 payload 4;
      drop_count = u32 payload 6;
    } in
    let row =
      log_row (number dropped.timestamp) (type_text 0x14) (hex dropped.trace_id 4)
        (number dropped.drop_count) (codes "trace drop") in
    request_render View.trace (
      add_log row (record s {
        trace = prune_trace_history (record s.trace { drops = s.trace.drops ++ dropped ∷ [] });
      }))
