-- ===== src/Decode/Numbering.antt =====
-- What every branch of `decodeFrame` in tools/viewer/web/app.js leaves alone: the number of the next
-- request and, but for the one that it counts, the number of frames.
use open_fpgastudio.Base.{
  ℕ, ◌+◌, ◌≡◌, refl, true, false, Bool, List, length, if◌then◌else◌, if-intro, not, ◌==◌, ◌||◌,
  is_some, ◌∙◌,
}
use open_fpgastudio.Wire.{byte_at, version}
use open_fpgastudio.State.Tables.{type_name}
use open_fpgastudio.State.Monitor.{Monitor, Event}
use open_fpgastudio.State.{Viewer, LogRow, request_render, add_log, update_event, update_watch}
use open_fpgastudio.Decode.Debug.{heartbeat, debug_print, event_frame, watch_frame, status_frame}
use open_fpgastudio.Decode.Trace.{
  span_begin_frame, span_end_frame, mark_frame, value_frame, drop_frame,
}
use open_fpgastudio.Decode.Monitor.{
  add_monitor_error, report, respond, settle, update_monitor_value, decode_monitor_read_response,
  decode_monitor_write_response,
}
use open_fpgastudio.Decode.Profiler.{
  record_profiler_malformed, accept_snapshot, accept_alert, decode_profiler_snapshot,
  decode_profiler_alert,
}
use open_fpgastudio.Decode.Analyzer.{
  bad_packing, accept_header, accept_status, accept_trigger, accept_chunk, accept_sample_data,
  record_analyzer_malformed, request_analyzer, decode_header, decode_sample_data, decode_status,
  decode_trigger_event,
}
use open_fpgastudio.Decode.Dispatch.{EachHandler, dispatch-each}
use open_fpgastudio.Decode.{
  count_unknown, unsupported_frame, reserved_monitor, reserved_profiler, decode_frame,
}

-- What leaves the number of the next request and that of the frames alone.
abbrev KeepsNumbers : (Viewer → Viewer) → Type 0
KeepsNumbers f = (s : Viewer) → ((f s).monitor.seq ≡ s.monitor.seq) × ((f s).frames ≡ s.frames)

branch :
    (b : Bool) (f g : Viewer → Viewer)
    → KeepsNumbers f
    → KeepsNumbers g
    → KeepsNumbers (if b then f else g)
branch = if-intro KeepsNumbers

respond_lem :
    (b : Bool) (e : Event) (row : LogRow) (m : Monitor) (s : Viewer)
    → let after = respond b e row (record s { monitor = m }) in
      (after.monitor.seq ≡ m.seq) × (after.frames ≡ s.frames)
unfolding respond report add_monitor_error request_render add_log
respond_lem true e row m s = (refl, refl)
respond_lem false e row m s = (refl, refl)

settle_lem :
    (seq : ℕ) (e : Event) (b : Bool) (addr value timestamp status width : ℕ) (m : Monitor)
    → (settle seq e b (update_monitor_value addr value timestamp status width) m).seq ≡ m.seq
unfolding settle update_monitor_value
settle_lem seq e true addr value timestamp status width m = refl
settle_lem seq e false addr value timestamp status width m = refl

samples_lem : (p : List ℕ) → KeepsNumbers (accept_sample_data p)
unfolding accept_sample_data accept_chunk request_analyzer request_render add_log
samples_lem p s =
    if-intro (λ (x : Viewer). (x.monitor.seq ≡ s.monitor.seq) × (x.frames ≡ s.frames)) _ _ _
      (refl, refl) (refl, refl)

handlers : EachHandler KeepsNumbers
unfolding heartbeat debug_print event_frame watch_frame status_frame span_begin_frame span_end_frame
    mark_frame value_frame drop_frame update_event update_watch decode_profiler_snapshot
    decode_profiler_alert decode_header decode_status decode_trigger_event decode_sample_data
    count_unknown reserved_monitor reserved_profiler decode_monitor_read_response
    decode_monitor_write_response accept_status accept_trigger accept_header accept_snapshot
    accept_alert record_profiler_malformed record_analyzer_malformed add_monitor_error
    request_render add_log request_analyzer
handlers = record {
  of_heartbeat = λ p s. (refl, refl);
  of_print = λ p s. (refl, refl);
  of_event = λ p s. (refl, refl);
  of_watch = λ p s. (refl, refl);
  of_status = λ p s. (refl, refl);
  of_begin = λ p s. (refl, refl);
  of_end = λ p s. (refl, refl);
  of_mark = λ p s. (refl, refl);
  of_value = λ p s. (refl, refl);
  of_drop = λ p s. (refl, refl);
  of_read =
      λ p s. let r = respond_lem _ _ _ _ s in (r.0 ∙ settle_lem _ _ _ _ _ _ _ _ s.monitor, r.1);
  of_write =
      λ p s. let r = respond_lem _ _ _ _ s in (r.0 ∙ settle_lem _ _ _ _ _ _ _ _ s.monitor, r.1);
  of_snapshot = λ p. branch (not (length p == 32)) _ _ (λ s. (refl, refl)) (λ s. (refl, refl));
  of_alert = λ p. branch (not (length p == 16)) _ _ (λ s. (refl, refl)) (λ s. (refl, refl));
  of_header = λ p. branch (not (length p == 24)) _ _ (λ s. (refl, refl)) (λ s. (refl, refl));
  of_samples = λ p.
      branch (not (length p == 32)) _ _ (λ s. (refl, refl))
        (branch (bad_packing (byte_at p 8) (byte_at p 9)) _ _ (λ s. (refl, refl)) (samples_lem p));
  of_la_status = λ p. branch (not (length p == 20)) _ _ (λ s. (refl, refl)) (λ s. (refl, refl));
  of_trigger = λ p. branch (not (length p == 20)) _ _ (λ s. (refl, refl)) (λ s. (refl, refl));
  of_la_malformed = λ t n why s. (refl, refl);
  of_reserved_monitor = λ t s. (refl, refl);
  of_reserved_profiler = λ t p s. (refl, refl);
  of_unknown = λ s. (refl, refl);
}

-- Decoding a frame leaves the number of the next request alone and counts one frame.
pub decode_frame_keeps :
    (n t : ℕ) (p raw : List ℕ) (s : Viewer)
    → let after = decode_frame n t p raw s in
      (after.monitor.seq ≡ s.monitor.seq) × (after.frames ≡ s.frames + 1)
unfolding decode_frame unsupported_frame count_unknown add_log request_render
decode_frame_keeps n t p raw s =
    branch (not (n == version) || not (is_some (type_name t))) _ _ (λ s. (refl, refl))
      (dispatch-each KeepsNumbers handlers t p) (record s { frames = s.frames + 1 })
