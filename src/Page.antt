-- ===== src/Page.antt =====
-- The page's own operations in tools/viewer/web/app.js: `clearAll`, `setPaused`, and the
-- export of a table. Drawing and the download are left out.
pub mod Csv
pub mod TraceView
pub mod Vcd
pub mod Jsonl
use open_fpgastudio.Base.{
  ℕ, ◌-◌, ◌^◌, ◌%◌, ◌/◌, Bool, true, false, Option, none, some, List, [], ◌∷◌, ◌++◌, map, leb, ◌==◌,
  if◌then◌else◌,
}
use open_fpgastudio.Base.Texts.{Text, codes, hex, dec}
use open_fpgastudio.Base.Dict.{get, number_key}
use open_fpgastudio.State.Trace.{empty_trace}
use open_fpgastudio.State.Monitor.{create_monitor}
use open_fpgastudio.State.Profiler.{Snapshot, create_profiler}
use open_fpgastudio.State.Analyzer.{Analyzer, Capture, create_analyzer}
use open_fpgastudio.State.Render.{nothing}
use open_fpgastudio.State.{Viewer, LogRow, Cell, number, text, no_status}
use open_fpgastudio.Decode.Profiler.{history_or}
use open_fpgastudio.Receiver.{Receiver}

-- What `clearAll` does to the state that is shown. An animation frame that is under way still comes.
unfoldable pub clear_viewer : Viewer → Viewer
clear_viewer v = record v {
  frames = 0;
  unknown_frames = 0;
  logs = [];
  watches = [];
  events = [];
  status = no_status;
  trace = empty_trace;
  monitor = create_monitor;
  profiler = create_profiler;
  analyzer = create_analyzer;
  render = record v.render { pending = nothing; scheduled = false };
}

-- `clearAll`, without the reset of the diagnosis and the drawing of everything.
unfoldable pub clear_all : Receiver → Receiver
unfolding clear_viewer
clear_all s = record {
  rx = [];
  checksum_errors = 0;
  sync_drops = 0;
  viewer = clear_viewer s.viewer;
}

-- `setPaused`, without the button and the drawing.
unfoldable pub set_paused : Bool → Viewer → Viewer
set_paused paused s = record s { render = record s.render { paused = paused } }

-- `latestLogicAnalyzerCapture`
unfoldable pub latest_capture : Analyzer → Option Capture
latest_capture a = elim a.latest_capture_id [ none ↦ none | some id ↦ get id a.captures ]

-- `/[",\r\n]/.test(text)`
unfoldable pub is_special : ℕ → Bool
is_special c = if c == 34 then true else if c == 44 then true else if c == 13 then true else c == 10

unfoldable pub any_special : Text → Bool
unfolding is_special
any_special [] = false
any_special (c ∷ cs) = if is_special c then true else any_special cs

-- `text.replace(/"/g, '""')`
unfoldable pub double_quotes : Text → Text
double_quotes [] = []
double_quotes (c ∷ cs) = if c == 34 then 34 ∷ 34 ∷ double_quotes cs else c ∷ double_quotes cs

-- `csvCell`, on the text that `String(value)` gives.
unfoldable pub csv_cell : Text → Text
csv_cell cell = if any_special cell then 34 ∷ (double_quotes cell ++ 34 ∷ []) else cell

-- `xs.join(separator)`
unfoldable pub join : Text → List Text → Text
join separator [] = []
join separator (x ∷ []) = x
join separator (x ∷ y ∷ xs) = x ++ separator ++ join separator (y ∷ xs)

-- `String(value)` of a cell of the log.
unfoldable pub cell_text : Cell → Text
cell_text (number n) = dec n
cell_text (text t) = t

unfoldable pub profiler_row : Snapshot → List Text
profiler_row r =
    dec r.timestamp
    ∷ hex r.metric_id 4
    ∷ r.metric_name
    ∷ r.metric_type
    ∷ dec r.sample_cycles
    ∷ dec r.value0
    ∷ dec r.value1
    ∷ dec r.value2
    ∷ dec r.value3
    ∷ join (codes "|") r.flag_names
    ∷ dec r.overflow_count
    ∷ []

unfoldable pub log_cells : LogRow → List Text
unfolding cell_text
log_cells r = cell_text r.timestamp ∷ r.kind ∷ r.id ∷ cell_text r.value ∷ r.detail ∷ []

abbrev pub profiler_titles : List Text
profiler_titles =
    codes "timestamp"
    ∷ codes "metric_id"
    ∷ codes "metric_name"
    ∷ codes "metric_type"
    ∷ codes "sample_cycles"
    ∷ codes "value0"
    ∷ codes "value1"
    ∷ codes "value2"
    ∷ codes "value3"
    ∷ codes "flags"
    ∷ codes "overflow_count"
    ∷ []

abbrev pub log_titles : List Text
log_titles = codes "timestamp" ∷ codes "type" ∷ codes "id" ∷ codes "value" ∷ codes "text" ∷ []

abbrev pub reversed : List LogRow → List LogRow
reversed [] = []
reversed (r ∷ rs) = reversed rs ++ r ∷ []

-- The rows of `exportCsv`: the history of the selected metric or, where that is empty, the log.
unfoldable pub csv_rows : Viewer → List (List Text)
unfolding profiler_row log_cells
csv_rows s = elim (history_or (get s.profiler.selected_metric_id s.profiler.history)) [
  | [] ↦ log_titles ∷ map log_cells (reversed s.logs)
  | h ∷ hs ↦ profiler_titles ∷ map profiler_row (h ∷ hs)
]

-- The text that `exportCsv` downloads.
unfoldable pub csv_text : List (List Text) → Text
csv_text rows =
    join (codes "\n") (map (λ row. join (codes ",") (map csv_cell row)) rows) ++ codes "\n"
