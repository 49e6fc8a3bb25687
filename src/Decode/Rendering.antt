-- ===== src/Decode/Rendering.antt =====
-- Decoding a frame does not depend on which panels wait to be drawn: the request of a panel may be
-- moved over it. (`decodeFrame` and its handlers in tools/viewer/web/app.js.)
use open_fpgastudio.Base.{
  ℕ, ◌≡◌, refl, ap, ◌∙◌, List, Bool, if◌then◌else◌, arith, if-intro, not, ◌||◌, ◌==◌, length,
  is_some, ◌+◌,
}
use open_fpgastudio.Base.Texts.{Text}
use open_fpgastudio.Wire.{byte_at, u32, version}
use open_fpgastudio.State.Tables.{type_name}
use open_fpgastudio.State.Monitor.{Event}
use open_fpgastudio.State.Analyzer.{Capture}
use open_fpgastudio.State.Render.{
  View, request, counters, log, status, watch, analyzer, profiler, monitor, trace,
}
use open_fpgastudio.State.Render.Order.{request_comm}
use open_fpgastudio.State.{Viewer, LogRow, request_render, add_log, watch_updates, event_count}
use open_fpgastudio.Decode.Debug.{heartbeat, debug_print, event_frame, watch_frame, status_frame}
use open_fpgastudio.Decode.Trace.{
  span_begin_frame, span_end_frame, mark_frame, value_frame, drop_frame,
}
use open_fpgastudio.Decode.Monitor.{
  add_monitor_error, report, respond, decode_monitor_read_response, decode_monitor_write_response,
}
use open_fpgastudio.Decode.Profiler.{
  record_profiler_malformed, accept_snapshot, accept_alert, decode_profiler_snapshot,
  decode_profiler_alert,
}
use open_fpgastudio.Decode.Analyzer.{
  request_analyzer, record_analyzer_malformed, accept_header, accept_status, accept_trigger,
  accept_chunk, accept_sample_data, decode_header, decode_sample_data, decode_status,
  decode_trigger_event, bad_packing, check_header, la_capture,
}
use open_fpgastudio.Decode.Dispatch.{EachHandler, dispatch-each}
use open_fpgastudio.Decode.{
  count_unknown, unsupported_frame, reserved_monitor, reserved_profiler, decode_frame,
}

abbrev pub Commutes : View → (Viewer → Viewer) → Type 0
Commutes v f = (s : Viewer) → f (request_render v s) ≡ request_render v (f s)

module _ (v : View) where
  -- Two requests after the one that is moved.
  two :
      (w x : View) (s : Viewer)
      → request x (request w (request v s.render)) ≡ request v (request x (request w s.render))
  two w x s = ap (request x) (request_comm w v s.render) ∙ request_comm x v (request w s.render)

  pub request-Commutes : (w : View) → Commutes v (request_render w)
  unfolding request_render
  request-Commutes w s = ap (λ r. record s { render = r }) (request_comm w v s.render)

  debug_print-Commutes : (p : List ℕ) → Commutes v (debug_print p)
  unfolding debug_print
  debug_print-Commutes p s = cc (request_comm log v s.render)

  heartbeat-Commutes : (p : List ℕ) → Commutes v (heartbeat p)
  unfolding heartbeat
  heartbeat-Commutes p s = cc (two log status s)

  event_frame-Commutes : (p : List ℕ) → Commutes v (event_frame p)
  unfolding event_frame event_count
  event_frame-Commutes p s = cc (two View.events log s)

  watch_frame-Commutes : (p : List ℕ) → Commutes v (watch_frame p)
  unfolding watch_frame watch_updates
  watch_frame-Commutes p s = cc (two watch log s)

  status_frame-Commutes : (p : List ℕ) → Commutes v (status_frame p)
  unfolding status_frame
  status_frame-Commutes p s = cc (two log status s)

  span_begin-Commutes : (p : List ℕ) → Commutes v (span_begin_frame p)
  unfolding span_begin_frame
  span_begin-Commutes p s = cc (two log trace s)

  span_end-Commutes : (p : List ℕ) → Commutes v (span_end_frame p)
  unfolding span_end_frame
  span_end-Commutes p s = cc (two log trace s)

  mark_frame-Commutes : (p : List ℕ) → Commutes v (mark_frame p)
  unfolding mark_frame
  mark_frame-Commutes p s = cc (two log trace s)

  value_frame-Commutes : (p : List ℕ) → Commutes v (value_frame p)
  unfolding value_frame
  value_frame-Commutes p s = cc (two log trace s)

  drop_frame-Commutes : (p : List ℕ) → Commutes v (drop_frame p)
  unfolding drop_frame
  drop_frame-Commutes p s = cc (two log trace s)

  error-Commutes : (e : Event) → Commutes v (add_monitor_error e)
  unfolding add_monitor_error request_render
  error-Commutes e s = cc (request_comm monitor v s.render)

  add_log-Commutes : (row : LogRow) → Commutes v (add_log row)
  unfolding add_log
  add_log-Commutes row s = cc (request_comm log v s.render)

  report-Commutes : (b : Bool) (e : Event) → Commutes v (report b e)
  unfolding report
  report-Commutes Bool.true e s = error-Commutes e s
  report-Commutes Bool.false e s = refl

  respond-Commutes : (b : Bool) (e : Event) (row : LogRow) → Commutes v (respond b e row)
  unfolding respond
  respond-Commutes b e row s =
      ap (λ t. request_render monitor (add_log row t)) (report-Commutes b e s)
      ∙ ap (request_render monitor) (add_log-Commutes row (report b e s))
      ∙ request-Commutes monitor (add_log row (report b e s))

  read_response-Commutes : (p : List ℕ) → Commutes v (decode_monitor_read_response p)
  unfolding decode_monitor_read_response request_render
  read_response-Commutes p s = respond-Commutes _ _ _ _

  write_response-Commutes : (p : List ℕ) → Commutes v (decode_monitor_write_response p)
  unfolding decode_monitor_write_response request_render
  write_response-Commutes p s = respond-Commutes _ _ _ _

  profiler_malformed-Commutes :
      (t n : ℕ) (why : Text) → Commutes v (record_profiler_malformed t n why)
  unfolding record_profiler_malformed
  profiler_malformed-Commutes t n why s = cc (two log profiler s)

  snapshot-Commutes : (p : List ℕ) → Commutes v (accept_snapshot p)
  unfolding accept_snapshot add_log
  snapshot-Commutes p s = cc (two log profiler s)

  alert-Commutes : (p : List ℕ) → Commutes v (accept_alert p)
  unfolding accept_alert add_log
  alert-Commutes p s = cc (two log profiler s)

  three :
      (w x y : View) (s : Viewer)
      → request y (request x (request w (request v s.render)))
        ≡ request v (request y (request x (request w s.render)))
  three w x y s = ap (request y) (two w x s) ∙ request_comm y v (request x (request w s.render))

  analyzer_malformed-Commutes :
      (t n : ℕ) (why : Text) → Commutes v (record_analyzer_malformed t n why)
  unfolding record_analyzer_malformed request_analyzer add_log
  analyzer_malformed-Commutes t n why s = cc (three log counters analyzer s)

  header-Commutes : (p : List ℕ) → Commutes v (accept_header p)
  unfolding accept_header request_analyzer add_log
  header-Commutes p s = cc (two log counters s)

  status-Commutes : (p : List ℕ) → Commutes v (accept_status p)
  unfolding accept_status request_analyzer add_log
  status-Commutes p s = cc (three log counters analyzer s)

  trigger-Commutes : (p : List ℕ) → Commutes v (accept_trigger p)
  unfolding accept_trigger request_analyzer add_log
  trigger-Commutes p s = cc (three log counters analyzer s)

  chunk-Commutes : (p : List ℕ) (c : Capture) → Commutes v (accept_chunk p c)
  unfolding accept_chunk request_analyzer add_log
  chunk-Commutes p c s = ground (arith, three log counters analyzer s, two counters analyzer s)

  samples-Commutes : (p : List ℕ) → Commutes v (accept_sample_data p)
  unfolding accept_sample_data request_render
  samples-Commutes p s = chunk-Commutes p (check_header (la_capture (u32 p 0) s.analyzer)) s

  -- Both branches of a test on the frame.
  branch :
      (b : Bool) (f g : Viewer → Viewer)
      → Commutes v f
      → Commutes v g
      → Commutes v (if b then f else g)
  branch = if-intro (Commutes v)

  header_frame-Commutes : (p : List ℕ) → Commutes v (decode_header p)
  unfolding decode_header
  header_frame-Commutes p =
      branch (not (length p == 24)) _ _ (analyzer_malformed-Commutes _ _ _) (header-Commutes p)

  status_frame_la-Commutes : (p : List ℕ) → Commutes v (decode_status p)
  unfolding decode_status
  status_frame_la-Commutes p =
      branch (not (length p == 20)) _ _ (analyzer_malformed-Commutes _ _ _) (status-Commutes p)

  trigger_frame-Commutes : (p : List ℕ) → Commutes v (decode_trigger_event p)
  unfolding decode_trigger_event
  trigger_frame-Commutes p =
      branch (not (length p == 20)) _ _ (analyzer_malformed-Commutes _ _ _) (trigger-Commutes p)

  sample_frame-Commutes : (p : List ℕ) → Commutes v (decode_sample_data p)
  unfolding decode_sample_data
  sample_frame-Commutes p = branch (not (length p == 32)) _ _ (analyzer_malformed-Commutes _ _ _) (
      branch (bad_packing (byte_at p 8) (byte_at p 9)) _ _ (analyzer_malformed-Commutes _ _ _)
        (samples-Commutes p))

  count_unknown-Commutes : Commutes v count_unknown
  unfolding count_unknown request_render
  count_unknown-Commutes s = refl

  reserved_monitor-Commutes : (t : ℕ) → Commutes v (reserved_monitor t)
  unfolding reserved_monitor add_monitor_error request_render
  reserved_monitor-Commutes t s = cc (request_comm monitor v s.render)

  reserved_profiler-Commutes : (t : ℕ) (p : List ℕ) → Commutes v (reserved_profiler t p)
  unfolding reserved_profiler
  reserved_profiler-Commutes t p s =
      ap (record_profiler_malformed _ _ _) (count_unknown-Commutes s)
      ∙ profiler_malformed-Commutes _ _ _ (count_unknown s)

  unsupported-Commutes : (t : ℕ) (raw : List ℕ) → Commutes v (unsupported_frame t raw)
  unfolding unsupported_frame add_log
  unsupported-Commutes t raw s = cc (request_comm log v s.render)

  handlers : EachHandler (Commutes v)
  unfolding decode_profiler_snapshot decode_profiler_alert
  handlers = record {
    of_heartbeat = heartbeat-Commutes;
    of_print = debug_print-Commutes;
    of_event = event_frame-Commutes;
    of_watch = watch_frame-Commutes;
    of_status = status_frame-Commutes;
    of_begin = span_begin-Commutes;
    of_end = span_end-Commutes;
    of_mark = mark_frame-Commutes;
    of_value = value_frame-Commutes;
    of_drop = drop_frame-Commutes;
    of_read = read_response-Commutes;
    of_write = write_response-Commutes;
    of_snapshot = λ p.
        branch (not (length p == 32)) _ _ (profiler_malformed-Commutes _ _ _) (snapshot-Commutes p);
    of_alert = λ p.
        branch (not (length p == 16)) _ _ (profiler_malformed-Commutes _ _ _) (alert-Commutes p);
    of_header = header_frame-Commutes;
    of_samples = sample_frame-Commutes;
    of_la_status = status_frame_la-Commutes;
    of_trigger = trigger_frame-Commutes;
    of_la_malformed = analyzer_malformed-Commutes;
    of_reserved_monitor = reserved_monitor-Commutes;
    of_reserved_profiler = reserved_profiler-Commutes;
    of_unknown = count_unknown-Commutes;
  }

  -- A render request made before a frame is decoded is as good as one made after it.
  pub decode_frame-Commutes : (n t : ℕ) (p raw : List ℕ) → Commutes v (decode_frame n t p raw)
  unfolding decode_frame request_render
  decode_frame-Commutes n t p raw s =
      branch (not (n == version) || not (is_some (type_name t))) _ _ (unsupported-Commutes t raw)
        (dispatch-each (Commutes v) handlers t p) (record s { frames = s.frames + 1 })
