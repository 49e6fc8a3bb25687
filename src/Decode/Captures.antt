-- ===== src/Decode/Captures.antt =====
-- Every branch of `decodeFrame` in tools/viewer/web/app.js keeps the captures sound.
use open_fpgastudio.Base.{
  ℕ, ◌+◌, ◌≡◌, refl, true, false, Bool, List, length, if◌then◌else◌, if-intro, not, ◌==◌, ◌||◌,
  is_some, subst, sym,
}
use open_fpgastudio.Wire.{byte_at, version}
use open_fpgastudio.State.Tables.{type_name}
use open_fpgastudio.State.Monitor.{Monitor, Event}
use open_fpgastudio.State.{Viewer, LogRow, request_render, add_log, update_event, update_watch}
use open_fpgastudio.Decode.Debug.{heartbeat, debug_print, event_frame, watch_frame, status_frame}
use open_fpgastudio.Decode.Trace.{
  span_begin_frame, span_end_frame, mark_frame, value_frame, drop_frame,
}
use open_fpgastudio.Decode.Monitor.{
  add_monitor_error, report, respond, decode_monitor_read_response, decode_monitor_write_response,
}
use open_fpgastudio.Decode.Profiler.{
  record_profiler_malformed, accept_snapshot, accept_alert, decode_profiler_snapshot,
  decode_profiler_alert,
}
use open_fpgastudio.Decode.Analyzer.{
  bad_packing, decode_header, decode_sample_data, decode_status, decode_trigger_event,
}
use open_fpgastudio.Decode.Analyzer.Complete.{
  AreSound, Keeps, samples-Keeps, header-Keeps, la_status-Keeps, trigger-Keeps, malformed-Keeps,
}
use open_fpgastudio.Decode.Dispatch.{EachHandler, dispatch-each}
use open_fpgastudio.Decode.{
  count_unknown, unsupported_frame, reserved_monitor, reserved_profiler, decode_frame,
}

respond_captures :
    (b : Bool) (e : Event) (row : LogRow) (m : Monitor) (s : Viewer)
    → (respond b e row (record s { monitor = m })).analyzer ≡ s.analyzer
unfolding respond report add_monitor_error request_render add_log
respond_captures true e row m s = refl
respond_captures false e row m s = refl

read-Keeps : (p : List ℕ) → Keeps (decode_monitor_read_response p)
unfolding decode_monitor_read_response
read-Keeps p s all = subst AreSound (sym (respond_captures _ _ _ _ s)) all

write-Keeps : (p : List ℕ) → Keeps (decode_monitor_write_response p)
unfolding decode_monitor_write_response
write-Keeps p s all = subst AreSound (sym (respond_captures _ _ _ _ s)) all

branch : (b : Bool) (f g : Viewer → Viewer) → Keeps f → Keeps g → Keeps (if b then f else g)
branch = if-intro Keeps

handlers : EachHandler Keeps
unfolding decode_profiler_snapshot decode_profiler_alert decode_header decode_status
    decode_trigger_event decode_sample_data count_unknown reserved_monitor reserved_profiler
    heartbeat debug_print event_frame watch_frame status_frame span_begin_frame span_end_frame
    mark_frame value_frame drop_frame record_profiler_malformed accept_snapshot accept_alert
    add_monitor_error request_render add_log update_event update_watch
handlers = record {
  of_heartbeat = λ p s all. all;
  of_print = λ p s all. all;
  of_event = λ p s all. all;
  of_watch = λ p s all. all;
  of_status = λ p s all. all;
  of_begin = λ p s all. all;
  of_end = λ p s all. all;
  of_mark = λ p s all. all;
  of_value = λ p s all. all;
  of_drop = λ p s all. all;
  of_read = read-Keeps;
  of_write = write-Keeps;
  of_snapshot = λ p. branch (not (length p == 32)) _ _ (λ s all. all) (λ s all. all);
  of_alert = λ p. branch (not (length p == 16)) _ _ (λ s all. all) (λ s all. all);
  of_header = λ p. branch (not (length p == 24)) _ _ (malformed-Keeps _ _ _) (header-Keeps p);
  of_samples = λ p. branch (not (length p == 32)) _ _ (malformed-Keeps _ _ _) (
      branch (bad_packing (byte_at p 8) (byte_at p 9)) _ _ (malformed-Keeps _ _ _)
        (samples-Keeps p));
  of_la_status = λ p. branch (not (length p == 20)) _ _ (malformed-Keeps _ _ _) (la_status-Keeps p);
  of_trigger = λ p. branch (not (length p == 20)) _ _ (malformed-Keeps _ _ _) (trigger-Keeps p);
  of_la_malformed = malformed-Keeps;
  of_reserved_monitor = λ t s all. all;
  of_reserved_profiler = λ t p s all. all;
  of_unknown = λ s all. all;
}

-- Decoding any frame keeps the captures sound.
pub decode_frame-AreSound :
    (n t : ℕ) (p raw : List ℕ) (s : Viewer)
    → AreSound s.analyzer
    → AreSound (decode_frame n t p raw s).analyzer
unfolding decode_frame unsupported_frame add_log request_render
decode_frame-AreSound n t p raw s all =
    branch (not (n == version) || not (is_some (type_name t))) _ _ (λ s all. all)
      (dispatch-each Keeps handlers t p) (record s { frames = s.frames + 1 }) all
