-- ===== src/Page/Jsonl.antt =====
-- The export of everything as lines of JSON: `exportJsonl` of tools/viewer/web/app.js. What
-- `JSON.stringify` makes of a record is an argument, the download is left out.
pub mod Lines
use open_fpgastudio.Base.{ℕ, Option, none, some, List, [], ◌∷◌, ◌++◌, map}
use open_fpgastudio.Base.Texts.{Text, codes}
use open_fpgastudio.Base.Dict.{Dict}
use open_fpgastudio.State.Trace.{OpenSpan, Span, Mark, Drop}
use open_fpgastudio.State.Trace
use open_fpgastudio.State.Monitor.{Event, ErrorEntry}
use open_fpgastudio.State.Profiler.{Snapshot, Alert}
use open_fpgastudio.State.Profiler
use open_fpgastudio.State.Analyzer.{Capture, Header, TriggerEvent, Chunk}
use open_fpgastudio.State.Analyzer
use open_fpgastudio.State.{Viewer, LogRow, EventRow, WatchRow, DebugStatus}
use open_fpgastudio.Receiver.{Receiver}
use open_fpgastudio.State.Tables.{trace_status}
use open_fpgastudio.Page.{join, reversed}

-- A record of the file, by its `kind`, or by where it comes from where it has none.
pub data JsonRecord : Type 0 where
  log : LogRow → JsonRecord
  event : EventRow → JsonRecord
  watch : WatchRow → JsonRecord
  trace_span : Span → Text → JsonRecord
  trace_open_span : OpenSpan → JsonRecord
  trace_mark : Mark → JsonRecord
  trace_value : Trace.Value → JsonRecord
  trace_drop : Drop → JsonRecord
  monitor_record : Event → JsonRecord
  monitor_error : ErrorEntry → JsonRecord
  profiler_snapshot : Snapshot → JsonRecord
  profiler_alert : Alert → JsonRecord
  profiler_counters : Profiler.Counters → JsonRecord
  la_header : Header → JsonRecord
  la_trigger : TriggerEvent → JsonRecord
  la_chunk : Chunk → JsonRecord
  la_status : Analyzer.Status → JsonRecord
  la_parser_counters : Analyzer.Counters → JsonRecord
  status : DebugStatus → JsonRecord
  counters : ℕ → ℕ → ℕ → ℕ → JsonRecord

-- `Array.from(map.values())`
abbrev pub values_of : {K V : Type 0} → Dict K V → List V
values_of [] = []
values_of ((k, v) ∷ rest) = v ∷ values_of rest

-- `.flat()`
abbrev pub flat : {A : Type 0} → List (List A) → List A
flat [] = []
flat (xs ∷ rest) = xs ++ flat rest

-- `.filter(Boolean)` of one entry.
abbrev pub if_there : {A : Type 0} → (A → JsonRecord) → Option A → List JsonRecord
if_there f none = []
if_there f (some a) = f a ∷ []

-- The records of one capture.
unfoldable pub capture_records : Capture → List JsonRecord
capture_records c =
    if_there la_header c.header
    ++ (if_there la_trigger c.trigger_event
        ++ (map la_chunk (values_of c.chunks) ++ if_there la_status c.status))

-- The records of the log, the tables, the trace, the monitor and the profiler.
unfoldable pub kept_records : Viewer → List JsonRecord
kept_records s =
    map log (reversed s.logs)
    ++ (map event (values_of s.events)
        ++ (map watch (values_of s.watches)
            ++ (map (λ span. trace_span span (trace_status span.status)) s.trace.spans
                ++ (map trace_open_span (values_of s.trace.open_spans)
                    ++ (map trace_mark s.trace.marks
                        ++ (map trace_value s.trace.values
                            ++ (map trace_drop s.trace.drops
                                ++ (map monitor_record s.monitor.history
                                    ++ (map monitor_error s.monitor.errors
                                        ++ (map profiler_snapshot
                                              (flat (values_of s.profiler.history))
                                            ++ map profiler_alert s.profiler.alerts))))))))))

-- What is behind the counters of the profiler: the captures, the counters and the status.
unfoldable pub closing_records : Receiver → List JsonRecord
unfolding capture_records
closing_records r =
    let s = r.viewer in
    flat (map capture_records (values_of s.analyzer.captures))
    ++ la_parser_counters s.analyzer.counters
      ∷ status s.status
      ∷ counters s.frames r.checksum_errors r.sync_drops s.unknown_frames
      ∷ []

-- The records of `exportJsonl`, in their order.
unfoldable pub jsonl_records : Receiver → List JsonRecord
unfolding kept_records closing_records
jsonl_records r =
    kept_records r.viewer ++ profiler_counters r.viewer.profiler.counters ∷ closing_records r

-- The text that `exportJsonl` downloads.
unfoldable pub jsonl_text : (JsonRecord → Text) → Receiver → Text
unfolding jsonl_records
jsonl_text print r = join (codes "\n") (map print (jsonl_records r)) ++ codes "\n"
