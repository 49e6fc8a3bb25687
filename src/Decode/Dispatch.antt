-- ===== src/Decode/Dispatch.antt =====
-- The dispatch of `decodeFrame` in tools/viewer/web/app.js, as a rule: what every handler has,
-- dispatch has.
use open_fpgastudio.Base.{ℕ, List, ◌==◌, ◌&&◌, leb, if◌then◌else◌, if-intro, length, Bool}
use open_fpgastudio.State.{Viewer}
use open_fpgastudio.Decode.Debug.{heartbeat, debug_print, event_frame, watch_frame, status_frame}
use open_fpgastudio.Decode.Trace.{
  span_begin_frame, span_end_frame, mark_frame, value_frame, drop_frame,
}
use open_fpgastudio.Decode.Monitor.{decode_monitor_read_response, decode_monitor_write_response}
use open_fpgastudio.Decode.Profiler.{decode_profiler_snapshot, decode_profiler_alert}
use open_fpgastudio.Decode.Analyzer.{
  record_analyzer_malformed, decode_header, decode_sample_data, decode_status, decode_trigger_event,
  decode_analyzer_frame,
}
use open_fpgastudio.Base.Texts.{Text}
use open_fpgastudio.Decode.{
  count_unknown, reserved_monitor, reserved_profiler, dispatch_instruments, dispatch_trace,
  dispatch,
}

pub record EachHandler (P : (Viewer → Viewer) → Type 0) : Type 0 where
  pub of_heartbeat : (p : List ℕ) → P (heartbeat p)
  pub of_print : (p : List ℕ) → P (debug_print p)
  pub of_event : (p : List ℕ) → P (event_frame p)
  pub of_watch : (p : List ℕ) → P (watch_frame p)
  pub of_status : (p : List ℕ) → P (status_frame p)
  pub of_begin : (p : List ℕ) → P (span_begin_frame p)
  pub of_end : (p : List ℕ) → P (span_end_frame p)
  pub of_mark : (p : List ℕ) → P (mark_frame p)
  pub of_value : (p : List ℕ) → P (value_frame p)
  pub of_drop : (p : List ℕ) → P (drop_frame p)
  pub of_read : (p : List ℕ) → P (decode_monitor_read_response p)
  pub of_write : (p : List ℕ) → P (decode_monitor_write_response p)
  pub of_snapshot : (p : List ℕ) → P (decode_profiler_snapshot p)
  pub of_alert : (p : List ℕ) → P (decode_profiler_alert p)
  pub of_header : (p : List ℕ) → P (decode_header p)
  pub of_samples : (p : List ℕ) → P (decode_sample_data p)
  pub of_la_status : (p : List ℕ) → P (decode_status p)
  pub of_trigger : (p : List ℕ) → P (decode_trigger_event p)
  pub of_la_malformed : (t n : ℕ) (why : Text) → P (record_analyzer_malformed t n why)
  pub of_reserved_monitor : (t : ℕ) → P (reserved_monitor t)
  pub of_reserved_profiler : (t : ℕ) (p : List ℕ) → P (reserved_profiler t p)
  pub of_unknown : P count_unknown

module _ (P : (Viewer → Viewer) → Type 0) (each : EachHandler P) (t : ℕ) (p : List ℕ) where
  branch : (b : Bool) (f g : Viewer → Viewer) → P f → P g → P (if b then f else g)
  branch = if-intro P

  analyzer-each : P (decode_analyzer_frame t p)
  unfolding decode_analyzer_frame
  analyzer-each = branch (t == 0x40) _ _ (each.of_header p) (
      branch (t == 0x41) _ _ (each.of_samples p) (
        branch (t == 0x42) _ _ (each.of_la_status p)
          (branch (t == 0x43) _ _ (each.of_trigger p) (each.of_la_malformed _ _ _))))

  instruments-each : P (dispatch_instruments t p)
  unfolding dispatch_instruments
  instruments-each = branch (t == 0x21 && leb 14 (length p)) _ _ (each.of_read p) (
      branch (t == 0x23 && leb 17 (length p)) _ _ (each.of_write p) (
        branch (t == 0x30) _ _ (each.of_snapshot p) (
          branch (t == 0x31) _ _ (each.of_alert p) (
            branch (leb 0x40 t && leb t 0x4F) _ _ analyzer-each (
              branch (leb 0x20 t && leb t 0x2F) _ _ (each.of_reserved_monitor t) (
                branch (leb 0x30 t && leb t 0x3F) _ _ (each.of_reserved_profiler t p)
                  each.of_unknown))))))

  trace-each : P (dispatch_trace t p)
  unfolding dispatch_trace
  trace-each = branch (t == 0x10 && leb 12 (length p)) _ _ (each.of_begin p) (
      branch (t == 0x11 && leb 13 (length p)) _ _ (each.of_end p) (
        branch (t == 0x12 && leb 11 (length p)) _ _ (each.of_mark p) (
          branch (t == 0x13 && leb 12 (length p)) _ _ (each.of_value p)
            (branch (t == 0x14 && leb 10 (length p)) _ _ (each.of_drop p) instruments-each))))

  pub dispatch-each : P (dispatch t p)
  unfolding dispatch
  dispatch-each = branch (t == 0x01 && leb 4 (length p)) _ _ (each.of_heartbeat p) (
      branch (t == 0x02 && leb 14 (length p)) _ _ (each.of_print p) (
        branch (t == 0x03 && leb 11 (length p)) _ _ (each.of_event p) (
          branch (t == 0x04 && leb 10 (length p)) _ _ (each.of_watch p)
            (branch (t == 0x05 && leb 10 (length p)) _ _ (each.of_status p) trace-each))))
