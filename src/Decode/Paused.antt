-- ===== src/Decode/Paused.antt =====
-- While the page is paused, no branch of `decodeFrame` in tools/viewer/web/app.js asks for anything to
-- be drawn.
use open_fpgastudio.Base.{
  ℕ, ◌+◌, ◌≡◌, refl, true, false, Bool, List, length, if◌then◌else◌, if-intro, not, ◌==◌, ◌||◌,
  is_some, ap, ◌∙◌,
}
use open_fpgastudio.Wire.{byte_at, version}
use open_fpgastudio.State.Tables.{type_name}
use open_fpgastudio.Base.Texts.{Text}
use open_fpgastudio.State.Monitor.{Monitor, Event}
use open_fpgastudio.State.{Viewer, LogRow, request_render, add_log, update_event, update_watch}
use open_fpgastudio.Decode.Debug.{heartbeat, debug_print, event_frame, watch_frame, status_frame}
use open_fpgastudio.Decode.Trace.{
  span_begin_frame, span_end_frame, mark_frame, value_frame, drop_frame,
}
use open_fpgastudio.Decode.Monitor.{
  add_monitor_error, report, respond, decode_monitor_read_response, decode_monitor_write_response,
}
use open_fpgastudio.Decode.Profiler.{
  record_profiler_malformed, accept_snapshot, accept_alert, decode_profiler_snapshot,
  decode_profiler_alert,
}
use open_fpgastudio.Decode.Analyzer.{
  bad_packing, accept_header, accept_status, accept_trigger, accept_chunk, accept_sample_data,
  record_analyzer_malformed, request_analyzer, decode_header, decode_sample_data, decode_status,
  decode_trigger_event,
}
use open_fpgastudio.State.Render.{View, Render, request}
use open_fpgastudio.Decode.Dispatch.{EachHandler, dispatch-each}
use open_fpgastudio.Decode.{
  count_unknown, unsupported_frame, reserved_monitor, reserved_profiler, decode_frame,
}

-- What a function does not draw while the page is paused.
abbrev IsQuiet : (Viewer → Viewer) → Type 0
IsQuiet f = (s : Viewer) → s.render.paused ≡ true → (f s).render ≡ s.render

pub request_paused : (v : View) (r : Render) → r.paused ≡ true → request v r ≡ r
unfolding request
request_paused v r h = rw h

log-IsQuiet : (row : LogRow) → IsQuiet (add_log row)
unfolding add_log request_render
log-IsQuiet row s h = request_paused _ s.render h

respond-IsQuiet :
    (b : Bool) (e : Event) (row : LogRow) (m : Monitor) (s : Viewer)
    → s.render.paused ≡ true
    → (respond b e row (record s { monitor = m })).render ≡ s.render
unfolding respond report add_monitor_error request_render add_log request
respond-IsQuiet true e row m s h = rw h
respond-IsQuiet false e row m s h = rw h

analyzer-IsQuiet : IsQuiet request_analyzer
unfolding request_analyzer request_render request
analyzer-IsQuiet s h = rw h

-- `addLog`, then `request_analyzer`
logged-IsQuiet : (row : LogRow) → IsQuiet (λ s. request_analyzer (add_log row s))
logged-IsQuiet row s h =
    let logged : (add_log row s).render ≡ s.render = log-IsQuiet row s h in
    analyzer-IsQuiet (add_log row s) (ap (λ (r : Render). r.paused) logged ∙ h) ∙ logged

samples-IsQuiet : (p : List ℕ) → IsQuiet (accept_sample_data p)
unfolding accept_sample_data accept_chunk
samples-IsQuiet p s h =
    if-intro (λ (x : Viewer). x.render ≡ s.render) _ _ _ (analyzer-IsQuiet _ h)
      (logged-IsQuiet _ _ h)

malformed-IsQuiet : (t n : ℕ) (why : Text) → IsQuiet (record_analyzer_malformed t n why)
unfolding record_analyzer_malformed
malformed-IsQuiet t n why s h = logged-IsQuiet _ _ h

profiler_malformed-IsQuiet : (t n : ℕ) (why : Text) → IsQuiet (record_profiler_malformed t n why)
unfolding record_profiler_malformed add_log request_render request
profiler_malformed-IsQuiet t n why s h = rw h

branch : (b : Bool) (f g : Viewer → Viewer) → IsQuiet f → IsQuiet g → IsQuiet (if b then f else g)
branch = if-intro IsQuiet

heartbeat-IsQuiet : (p : List ℕ) → IsQuiet (heartbeat p)
unfolding heartbeat add_log request_render request
heartbeat-IsQuiet p s h = rw h

print-IsQuiet : (p : List ℕ) → IsQuiet (debug_print p)
unfolding debug_print add_log request_render request
print-IsQuiet p s h = rw h

event-IsQuiet : (p : List ℕ) → IsQuiet (event_frame p)
unfolding event_frame update_event add_log request_render request
event-IsQuiet p s h = rw h

watch-IsQuiet : (p : List ℕ) → IsQuiet (watch_frame p)
unfolding watch_frame update_watch add_log request_render request
watch-IsQuiet p s h = rw h

status-IsQuiet : (p : List ℕ) → IsQuiet (status_frame p)
unfolding status_frame add_log request_render request
status-IsQuiet p s h = rw h

begin-IsQuiet : (p : List ℕ) → IsQuiet (span_begin_frame p)
unfolding span_begin_frame add_log request_render request
begin-IsQuiet p s h = rw h

end-IsQuiet : (p : List ℕ) → IsQuiet (span_end_frame p)
unfolding span_end_frame add_log request_render request
end-IsQuiet p s h = rw h

mark-IsQuiet : (p : List ℕ) → IsQuiet (mark_frame p)
unfolding mark_frame add_log request_render request
mark-IsQuiet p s h = rw h

value-IsQuiet : (p : List ℕ) → IsQuiet (value_frame p)
unfolding value_frame add_log request_render request
value-IsQuiet p s h = rw h

drop-IsQuiet : (p : List ℕ) → IsQuiet (drop_frame p)
unfolding drop_frame add_log request_render request
drop-IsQuiet p s h = rw h

snapshot-IsQuiet : (p : List ℕ) → IsQuiet (accept_snapshot p)
unfolding accept_snapshot add_log request_render request
snapshot-IsQuiet p s h = rw h

alert-IsQuiet : (p : List ℕ) → IsQuiet (accept_alert p)
unfolding accept_alert add_log request_render request
alert-IsQuiet p s h = rw h

accept_header-IsQuiet : (p : List ℕ) → IsQuiet (accept_header p)
unfolding accept_header add_log request_render request
accept_header-IsQuiet p s h = rw h

handlers : EachHandler IsQuiet
unfolding decode_profiler_snapshot decode_profiler_alert decode_header decode_status
    decode_trigger_event decode_sample_data count_unknown reserved_monitor reserved_profiler
    decode_monitor_read_response decode_monitor_write_response accept_status accept_trigger
    add_monitor_error request_render
handlers = record {
  of_heartbeat = heartbeat-IsQuiet;
  of_print = print-IsQuiet;
  of_event = event-IsQuiet;
  of_watch = watch-IsQuiet;
  of_status = status-IsQuiet;
  of_begin = begin-IsQuiet;
  of_end = end-IsQuiet;
  of_mark = mark-IsQuiet;
  of_value = value-IsQuiet;
  of_drop = drop-IsQuiet;
  of_read = λ p s h. respond-IsQuiet _ _ _ _ s h;
  of_write = λ p s h. respond-IsQuiet _ _ _ _ s h;
  of_snapshot = λ p.
      branch (not (length p == 32)) _ _ (profiler_malformed-IsQuiet _ _ _) (snapshot-IsQuiet p);
  of_alert =
      λ p. branch (not (length p == 16)) _ _ (profiler_malformed-IsQuiet _ _ _) (alert-IsQuiet p);
  of_header =
      λ p. branch (not (length p == 24)) _ _ (malformed-IsQuiet _ _ _) (accept_header-IsQuiet p);
  of_samples = λ p. branch (not (length p == 32)) _ _ (malformed-IsQuiet _ _ _) (
      branch (bad_packing (byte_at p 8) (byte_at p 9)) _ _ (malformed-IsQuiet _ _ _)
        (samples-IsQuiet p));
  of_la_status = λ p.
      branch (not (length p == 20)) _ _ (malformed-IsQuiet _ _ _) (λ s h. logged-IsQuiet _ _ h);
  of_trigger = λ p.
      branch (not (length p == 20)) _ _ (malformed-IsQuiet _ _ _) (λ s h. logged-IsQuiet _ _ h);
  of_la_malformed = malformed-IsQuiet;
  of_reserved_monitor = λ t s h. request_paused _ s.render h;
  of_reserved_profiler = λ t p s h. profiler_malformed-IsQuiet _ _ _ _ h;
  of_unknown = λ s h. refl;
}

-- Decoding a frame asks for nothing to be drawn while the page is paused.
pub decode_frame_paused :
    (n t : ℕ) (p raw : List ℕ) (s : Viewer)
    → s.render.paused ≡ true
    → (decode_frame n t p raw s).render ≡ s.render
unfolding decode_frame unsupported_frame
decode_frame_paused n t p raw s h =
    branch (not (n == version) || not (is_some (type_name t))) _ _ (λ s h. log-IsQuiet _ _ h)
      (dispatch-each IsQuiet handlers t p) (record s { frames = s.frames + 1 }) h
