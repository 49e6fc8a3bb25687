-- ===== src/Decode/Profiler.antt =====
-- Profiler frames: snapshots, alerts and malformed frames, from tools/viewer/web/app.js.
use open_fpgastudio.Base.{
  ℕ, ◌+◌, ◌^◌, bit_and, Bool, not, ◌||◌, Option, none, some, List, [], ◌∷◌, ◌++◌, ltb, ◌==◌,
  if◌then◌else◌, length,
}
use open_fpgastudio.Base.Texts.{Text, codes, hex, dec}
use open_fpgastudio.Base.Dict.{get, put, number_key}
use open_fpgastudio.Wire.{u16, u32, byte_at}
use open_fpgastudio.State.Tables.{
  Metric, type_name, type_text, or_else, level_text, profiler_alert_code, profiler_flags,
}
use open_fpgastudio.State.Profiler.{Profiler, Snapshot, Alert}
use open_fpgastudio.State.Render.{View}
use open_fpgastudio.State.{
  Viewer, number, text, dash, log_row, request_render, add_log, unshift_bounded,
}
use open_fpgastudio.Decode.Trace.{keep_last}

abbrev pub max_history : ℕ
max_history = 600

abbrev pub max_alerts : ℕ
max_alerts = 200

-- `(flags & (1 << bit)) !== 0`
unfoldable pub has_flag : ℕ → ℕ → Bool
has_flag flags bit = not (bit_and flags (2 ^ bit) == 0)

-- `profilerFlagNames` and `laFlagNames`, over their tables.
unfoldable pub flag_names : ℕ → List (Text × ℕ) → List Text
unfolding has_flag
flag_names flags [] = []
flag_names flags ((name, bit) ∷ rest) =
    let names = flag_names flags rest in if has_flag flags bit then name ∷ names else names

-- `profilerMetric`: a metric of the table, or a made-up one.
unfoldable pub metric_or : ℕ → Option Metric → Metric
metric_or id (some metric) = metric
metric_or id none = record {
  id = id;
  name = codes "metric_" ++ hex id 4;
  kind = codes "Unknown";
  unit = codes "raw";
  fields = codes "value0" ∷ codes "value1" ∷ codes "value2" ∷ codes "value3" ∷ [];
}

unfoldable pub profiler_metric : ℕ → Profiler → Metric
unfolding metric_or
profiler_metric id p = metric_or id (get id p.metrics)

-- `recordProfilerMalformed`
unfoldable pub record_profiler_malformed : ℕ → ℕ → Text → Viewer → Viewer
unfolding add_log
record_profiler_malformed type size reason s =
    let counted : Viewer = record s {
      profiler = record s.profiler {
        counters = record s.profiler.counters { malformed = s.profiler.counters.malformed + 1 };
      };
    } in
    request_render View.profiler (
      add_log
        (log_row dash (or_else (type_name type) (hex type 2)) (codes "-") (number size)
          (codes "Malformed profiler frame: " ++ reason))
        counted)

-- The object that a snapshot frame stands for.
unfoldable pub snapshot_record : List ℕ → Profiler → Snapshot
unfolding profiler_metric
snapshot_record payload p =
    let metric = profiler_metric (u16 payload 4) p in
    record {
      timestamp = u32 payload 0;
      metric_id = u16 payload 4;
      metric_name = metric.name;
      metric_type = metric.kind;
      unit = metric.unit;
      flags = u16 payload 6;
      flag_names = flag_names (u16 payload 6) profiler_flags;
      sample_cycles = u32 payload 8;
      value0 = u32 payload 12;
      value1 = u32 payload 16;
      value2 = u32 payload 20;
      value3 = u32 payload 24;
      overflow_count = u16 payload 28;
      reserved = u16 payload 30;
    }

-- `history.get(metricId) || []`
unfoldable pub history_or : Option (List Snapshot) → List Snapshot
history_or none = []
history_or (some history) = history

-- The counters, `latest` and `history` after a snapshot.
unfoldable pub store_snapshot : Snapshot → Profiler → Profiler
unfolding history_or
store_snapshot r p =
    let saturated = has_flag r.flags 1 || ltb 0 r.overflow_count in
    let history = history_or (get r.metric_id p.history) ++ r ∷ [] in
    record p {
      counters = record p.counters {
        snapshots = p.counters.snapshots + 1;
        overflow_snapshots =
            if saturated then p.counters.overflow_snapshots + 1 else p.counters.overflow_snapshots;
      };
      latest = put r.metric_id r p.latest;
      history = put r.metric_id (keep_last max_history history) p.history;
    }

-- `decodeProfilerSnapshot` after its length check
unfoldable pub accept_snapshot : List ℕ → Viewer → Viewer
unfolding snapshot_record store_snapshot
accept_snapshot payload s =
    let r = snapshot_record payload s.profiler in
    let values =
      dec r.value0
      ++ codes ", "
      ++ dec r.value1
      ++ codes ", "
      ++ dec r.value2
      ++ codes ", "
      ++ dec r.value3 in
    request_render View.profiler (
      add_log
        (log_row (number r.timestamp) (type_text 0x30) (hex r.metric_id 4) (text values)
          r.metric_name)
        (record s { profiler = store_snapshot r s.profiler }))

-- `decodeProfilerSnapshot`
unfoldable pub decode_profiler_snapshot : List ℕ → Viewer → Viewer
decode_profiler_snapshot payload =
    if not (length payload == 32)
    then record_profiler_malformed 0x30 (length payload) (codes "bad snapshot length")
    else accept_snapshot payload

-- The object that an alert frame stands for.
unfoldable pub alert_record : List ℕ → Profiler → Alert
unfolding profiler_metric
alert_record payload p =
    let metric = profiler_metric (u16 payload 4) p in
    record {
      timestamp = u32 payload 0;
      metric_id = u16 payload 4;
      metric_name = metric.name;
      metric_type = metric.kind;
      level = byte_at payload 6;
      level_text = level_text (byte_at payload 6);
      code = byte_at payload 7;
      code_text = profiler_alert_code (byte_at payload 7);
      arg0 = u32 payload 8;
      arg1 = u32 payload 12;
    }

unfoldable pub store_alert : Alert → Profiler → Profiler
store_alert r p = record p {
  counters = record p.counters { alerts = p.counters.alerts + 1 };
  alerts = unshift_bounded max_alerts r p.alerts;
}

-- `decodeProfilerAlert` after its length check
unfoldable pub accept_alert : List ℕ → Viewer → Viewer
unfolding alert_record store_alert
accept_alert payload s =
    let r = alert_record payload s.profiler in
    request_render View.profiler (
      add_log
        (log_row (number r.timestamp) (type_text 0x31) (hex r.metric_id 4)
          (text (hex r.arg0 8 ++ codes ", " ++ hex r.arg1 8))
          (r.level_text ++ codes " " ++ r.code_text ++ codes " " ++ r.metric_name))
        (record s { profiler = store_alert r s.profiler }))

-- `decodeProfilerAlert`
unfoldable pub decode_profiler_alert : List ℕ → Viewer → Viewer
decode_profiler_alert payload =
    if not (length payload == 16)
    then record_profiler_malformed 0x31 (length payload) (codes "bad alert length")
    else accept_alert payload
