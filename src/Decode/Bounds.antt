-- ===== src/Decode/Bounds.antt =====
-- The histories of the page stay within their limits, whatever frames come (the handlers of
-- `decodeFrame` in tools/viewer/web/app.js).
use open_fpgastudio.Base.{
  ℕ, ◌+◌, ◌-◌, ◌≤◌, ◌≡◌, refl, Bool, true, false, List, [], ◌∷◌, arith, length, not, ◌==◌,
  length-pop, length-drop, All, not, ◌||◌, ◌==◌, if◌then◌else◌, if-intro, is_some,
}
use open_fpgastudio.Base.Texts.{Text}
use open_fpgastudio.Base.Dict.{Dict, put, number_key}
use open_fpgastudio.Wire.{byte_at, version}
use open_fpgastudio.State.Tables.{type_name}
use open_fpgastudio.State.Trace.{Trace}
use open_fpgastudio.State.Monitor.{Monitor, Event}
use open_fpgastudio.State.Profiler.{Snapshot}
use open_fpgastudio.State.Analyzer.{Capture}
use open_fpgastudio.State.{
  Viewer, LogRow, request_render, add_log, unshift_bounded, update_event, update_watch, max_logs,
}
use open_fpgastudio.Decode.Debug.{heartbeat, debug_print, event_frame, watch_frame, status_frame}
use open_fpgastudio.Decode.Trace.{
  keep_last, prune_trace_history, span_begin_frame, span_end_frame, mark_frame, value_frame,
  drop_frame, max_spans, max_marks, max_values, max_drops, end_trace_span, begin_trace_span,
  update_trace_value,
}
use open_fpgastudio.Decode.Monitor.{
  add_monitor_error, settle, report, respond, update_monitor_value, decode_monitor_read_response,
  decode_monitor_write_response, max_errors,
}
use open_fpgastudio.Decode.Profiler.{
  record_profiler_malformed, accept_snapshot, accept_alert, decode_profiler_snapshot,
  decode_profiler_alert, max_alerts, max_history,
}
use open_fpgastudio.Decode.Analyzer.{
  bad_packing, request_analyzer, record_analyzer_malformed, accept_header, accept_status,
  accept_trigger, accept_chunk, accept_sample_data, decode_header, decode_sample_data,
  decode_status, decode_trigger_event,
}
use open_fpgastudio.Decode.Dispatch.{EachHandler, dispatch-each}
use open_fpgastudio.Decode.{
  count_unknown, unsupported_frame, reserved_monitor, reserved_profiler, decode_frame,
}

abbrev pub IsShort : Trace → Type 0
IsShort t =
    (length t.spans ≤ max_spans)
    × (length t.marks ≤ max_marks)
    × (length t.values ≤ max_values)
    × (length t.drops ≤ max_drops)

abbrev pub AreShort : Dict ℕ (List Snapshot) → Type 0
AreShort = All (λ e. length e.1 ≤ max_history)

-- The log, the trace, the monitor's errors, the profiler's alerts and the history of each metric.
abbrev pub IsBounded : Viewer → Type 0
IsBounded s =
    (length s.logs ≤ max_logs)
    × IsShort s.trace
    × (length s.monitor.errors ≤ max_errors)
    × (length s.profiler.alerts ≤ max_alerts)
    × AreShort s.profiler.history

abbrev Keeps : (Viewer → Viewer) → Type 0
Keeps f = (s : Viewer) → IsBounded s → IsBounded (f s)

unshift-le {ℓ} :
    {A : Type ℓ} (n : ℕ) (x : A) (xs : List A) → length xs ≤ n → length (unshift_bounded n x xs) ≤ n
unfolding unshift_bounded
unshift-le n x xs h = ground (arith, length-pop (x ∷ xs))

keep_last-le {ℓ} : {A : Type ℓ} (n : ℕ) (xs : List A) → length (keep_last n xs) ≤ n
unfolding keep_last
keep_last-le n xs = ground (arith, length-drop (length xs - n) xs)

prune-IsShort : (t : Trace) → IsShort (prune_trace_history t)
unfolding prune_trace_history
prune-IsShort t = (keep_last-le _ _, keep_last-le _ _, keep_last-le _ _, keep_last-le _ _)

put-AreShort :
    (k : ℕ) (xs : List Snapshot) (m : Dict ℕ (List Snapshot))
    → length xs ≤ max_history
    → AreShort m
    → AreShort (put k xs m)
unfolding put
put-AreShort k xs [] h all = (h, tt)
put-AreShort k xs ((j, ys) ∷ m) h all = ground (arith, put-AreShort k xs m h all.1)

log_le :
    (row : LogRow) (s : Viewer)
    → IsBounded s
    → length (unshift_bounded max_logs row s.logs) ≤ max_logs
log_le row s h = unshift-le max_logs row s.logs h.0

add_log-Keeps : (row : LogRow) → Keeps (add_log row)
unfolding add_log
add_log-Keeps row s h = (log_le row s h, h.1, h.2, h.3, h.4)

error-Keeps : (e : Event) → Keeps (add_monitor_error e)
unfolding add_monitor_error request_render
error-Keeps e s h = (h.0, h.1, unshift-le max_errors _ s.monitor.errors h.2, h.3, h.4)

settle-errors :
    (seq : ℕ) (e : Event) (b : Bool) (u : Monitor → Monitor) (m : Monitor)
    → ((x : Monitor) → (u x).errors ≡ x.errors)
    → (settle seq e b u m).errors ≡ m.errors
unfolding settle
settle-errors seq e true u m h = h _
settle-errors seq e false u m h = refl

report-Keeps : (b : Bool) (e : Event) → Keeps (report b e)
unfolding report
report-Keeps true e s h = error-Keeps e s h
report-Keeps false e s h = h

respond-Keeps :
    (b : Bool) (e : Event) (row : LogRow) (m : Monitor) (s : Viewer)
    → m.errors ≡ s.monitor.errors
    → IsBounded s
    → IsBounded (respond b e row (record s { monitor = m }))
unfolding respond request_render
respond-Keeps b e row m s same h =
    add_log-Keeps row (report b e (record s { monitor = m }))
      (report-Keeps b e (record s { monitor = m }) (h.0, h.1, rw same h.2, h.3, h.4))

update_errors :
    (addr value ts st w : ℕ) (m : Monitor)
    → (update_monitor_value addr value ts st w m).errors ≡ m.errors
unfolding update_monitor_value
update_errors addr value ts st w m = refl

read-Keeps : (p : List ℕ) → Keeps (decode_monitor_read_response p)
unfolding decode_monitor_read_response
read-Keeps p s h =
    respond-Keeps _ _ _ _ s (settle-errors _ _ _ _ s.monitor (update_errors _ _ _ _ _)) h

write-Keeps : (p : List ℕ) → Keeps (decode_monitor_write_response p)
unfolding decode_monitor_write_response
write-Keeps p s h =
    respond-Keeps _ _ _ _ s (settle-errors _ _ _ _ s.monitor (update_errors _ _ _ _ _)) h

profiler_malformed-Keeps : (t n : ℕ) (why : Text) → Keeps (record_profiler_malformed t n why)
unfolding record_profiler_malformed request_render add_log
profiler_malformed-Keeps t n why s h = (log_le _ s h, h.1, h.2, h.3, h.4)

snapshot-Keeps : (p : List ℕ) → Keeps (accept_snapshot p)
unfolding accept_snapshot request_render add_log
snapshot-Keeps p s h =
    (log_le _ s h, h.1, h.2, h.3, put-AreShort _ _ s.profiler.history (keep_last-le _ _) h.4)

alert-Keeps : (p : List ℕ) → Keeps (accept_alert p)
unfolding accept_alert request_render add_log
alert-Keeps p s h = (log_le _ s h, h.1, h.2, unshift-le max_alerts _ s.profiler.alerts h.3, h.4)

analyzer_malformed-Keeps : (t n : ℕ) (why : Text) → Keeps (record_analyzer_malformed t n why)
unfolding record_analyzer_malformed request_analyzer request_render add_log
analyzer_malformed-Keeps t n why s h = (log_le _ s h, h.1, h.2, h.3, h.4)

heartbeat-Keeps : (p : List ℕ) → Keeps (heartbeat p)
unfolding heartbeat request_render add_log
heartbeat-Keeps p s h = (log_le _ s h, h.1, h.2, h.3, h.4)

print-Keeps : (p : List ℕ) → Keeps (debug_print p)
unfolding debug_print request_render add_log
print-Keeps p s h = (log_le _ s h, h.1, h.2, h.3, h.4)

event-Keeps : (p : List ℕ) → Keeps (event_frame p)
unfolding event_frame request_render add_log update_event
event-Keeps p s h = (log_le _ s h, h.1, h.2, h.3, h.4)

watch-Keeps : (p : List ℕ) → Keeps (watch_frame p)
unfolding watch_frame request_render add_log update_watch
watch-Keeps p s h = (log_le _ s h, h.1, h.2, h.3, h.4)

status-Keeps : (p : List ℕ) → Keeps (status_frame p)
unfolding status_frame request_render add_log
status-Keeps p s h = (log_le _ s h, h.1, h.2, h.3, h.4)

begin-Keeps : (p : List ℕ) → Keeps (span_begin_frame p)
unfolding span_begin_frame request_render add_log begin_trace_span
begin-Keeps p s h = (log_le _ s h, h.1, h.2, h.3, h.4)

end-Keeps : (p : List ℕ) → Keeps (span_end_frame p)
unfolding span_end_frame request_render add_log end_trace_span
end-Keeps p s h = (log_le _ s h, prune-IsShort _, h.2, h.3, h.4)

mark-Keeps : (p : List ℕ) → Keeps (mark_frame p)
unfolding mark_frame request_render add_log
mark-Keeps p s h = (log_le _ s h, prune-IsShort _, h.2, h.3, h.4)

value-Keeps : (p : List ℕ) → Keeps (value_frame p)
unfolding value_frame request_render add_log update_trace_value
value-Keeps p s h = (log_le _ s h, prune-IsShort _, h.2, h.3, h.4)

drop-Keeps : (p : List ℕ) → Keeps (drop_frame p)
unfolding drop_frame request_render add_log
drop-Keeps p s h = (log_le _ s h, prune-IsShort _, h.2, h.3, h.4)

header-Keeps : (p : List ℕ) → Keeps (accept_header p)
unfolding accept_header request_render add_log
header-Keeps p s h = (log_le _ s h, h.1, h.2, h.3, h.4)

la_status-Keeps : (p : List ℕ) → Keeps (accept_status p)
unfolding accept_status request_render add_log request_analyzer
la_status-Keeps p s h = (log_le _ s h, h.1, h.2, h.3, h.4)

trigger-Keeps : (p : List ℕ) → Keeps (accept_trigger p)
unfolding accept_trigger request_render add_log request_analyzer
trigger-Keeps p s h = (log_le _ s h, h.1, h.2, h.3, h.4)

chunk-Keeps : (p : List ℕ) (c : Capture) → Keeps (accept_chunk p c)
unfolding accept_chunk request_analyzer request_render add_log
chunk-Keeps p c s h = if-intro IsBounded _ _ _ h (log_le _ s h, h.1, h.2, h.3, h.4)

samples-Keeps : (p : List ℕ) → Keeps (accept_sample_data p)
unfolding accept_sample_data
samples-Keeps p s h = chunk-Keeps p _ s h

unsupported-Keeps : (t : ℕ) (raw : List ℕ) → Keeps (unsupported_frame t raw)
unfolding unsupported_frame add_log
unsupported-Keeps t raw s h = (log_le _ s h, h.1, h.2, h.3, h.4)

branch : (b : Bool) (f g : Viewer → Viewer) → Keeps f → Keeps g → Keeps (if b then f else g)
branch = if-intro Keeps

handlers : EachHandler Keeps
unfolding decode_profiler_snapshot decode_profiler_alert decode_header decode_status
    decode_trigger_event decode_sample_data count_unknown reserved_monitor reserved_profiler
handlers = record {
  of_heartbeat = heartbeat-Keeps;
  of_print = print-Keeps;
  of_event = event-Keeps;
  of_watch = watch-Keeps;
  of_status = status-Keeps;
  of_begin = begin-Keeps;
  of_end = end-Keeps;
  of_mark = mark-Keeps;
  of_value = value-Keeps;
  of_drop = drop-Keeps;
  of_read = read-Keeps;
  of_write = write-Keeps;
  of_snapshot =
      λ p. branch (not (length p == 32)) _ _ (profiler_malformed-Keeps _ _ _) (snapshot-Keeps p);
  of_alert =
      λ p. branch (not (length p == 16)) _ _ (profiler_malformed-Keeps _ _ _) (alert-Keeps p);
  of_header =
      λ p. branch (not (length p == 24)) _ _ (analyzer_malformed-Keeps _ _ _) (header-Keeps p);
  of_samples = λ p. branch (not (length p == 32)) _ _ (analyzer_malformed-Keeps _ _ _) (
      branch (bad_packing (byte_at p 8) (byte_at p 9)) _ _ (analyzer_malformed-Keeps _ _ _)
        (samples-Keeps p));
  of_la_status =
      λ p. branch (not (length p == 20)) _ _ (analyzer_malformed-Keeps _ _ _) (la_status-Keeps p);
  of_trigger =
      λ p. branch (not (length p == 20)) _ _ (analyzer_malformed-Keeps _ _ _) (trigger-Keeps p);
  of_la_malformed = analyzer_malformed-Keeps;
  of_reserved_monitor = λ t s h. error-Keeps _ _ h;
  of_reserved_profiler = λ t p s h. profiler_malformed-Keeps _ _ _ _ h;
  of_unknown = λ s h. h;
}

-- Decoding any frame keeps the log, the trace, the errors, the alerts and the histories in bounds.
pub decode_frame-IsBounded :
    (n t : ℕ) (p raw : List ℕ) (s : Viewer) → IsBounded s → IsBounded (decode_frame n t p raw s)
unfolding decode_frame
decode_frame-IsBounded n t p raw s h =
    branch (not (n == version) || not (is_some (type_name t))) _ _ (unsupported-Keeps t raw)
      (dispatch-each Keeps handlers t p) (record s { frames = s.frames + 1 }) h
