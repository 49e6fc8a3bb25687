-- ===== src/State.antt =====
-- The viewer's page state, `state` of tools/viewer/web/app.js, without the receive buffer and its
-- two counters (Receiver.antt) and the transport (Bridge.antt). `clock` is what `Date.now()`
-- returns. `trace.selected` and the handles of ports, readers and sockets are not modelled.
pub mod Tables
pub mod Render
pub mod Trace
pub mod Monitor
pub mod Profiler
pub mod Analyzer
use open_fpgastudio.Base.{ℕ, ◌+◌, List, [], ◌∷◌, ltb, if◌then◌else◌, Option, length, pop}
use open_fpgastudio.Base.Texts.{Text, codes}
use open_fpgastudio.Base.Dict.{Dict, get, put, number_key}
use Render.{View, log, watch, initial_render}
use Trace.{empty_trace}
use Monitor.{create_monitor}
use Profiler.{create_profiler}
use Analyzer.{create_analyzer}

-- A cell of the log, which holds a number or a text.
pub data Cell : Type 0 where
  number : ℕ → Cell
  text : Text → Cell

abbrev pub dash : Cell
dash = text (codes "-")

pub record LogRow : Type 0 where
  pub timestamp : Cell
  pub kind : Text
  pub id : Text
  pub value : Cell
  pub detail : Text

pub record WatchRow : Type 0 where
  pub id : ℕ
  pub value : ℕ
  pub timestamp : ℕ
  pub updates : ℕ

pub record EventRow : Type 0 where
  pub id : ℕ
  pub level : ℕ
  pub arg0 : ℕ
  pub count : ℕ

pub record DebugStatus : Type 0 where
  pub buffer_used : Cell
  pub drop_count : Cell
  pub packet_count : Cell
  pub last_timestamp : Cell

pub record Viewer : Type 0 where
  pub frames : ℕ
  pub unknown_frames : ℕ
  pub logs : List LogRow
  pub watches : Dict ℕ WatchRow
  pub events : Dict ℕ EventRow
  pub status : DebugStatus
  pub trace : Trace.Trace
  pub monitor : Monitor.Monitor
  pub profiler : Profiler.Profiler
  pub analyzer : Analyzer.Analyzer
  pub render : Render.Render
  pub clock : ℕ

abbrev pub no_status : DebugStatus
no_status = record {
  buffer_used = dash;
  drop_count = dash;
  packet_count = dash;
  last_timestamp = dash;
}

abbrev pub initial_viewer : Viewer
initial_viewer = record {
  frames = 0;
  unknown_frames = 0;
  logs = [];
  watches = [];
  events = [];
  status = no_status;
  trace = empty_trace;
  monitor = create_monitor;
  profiler = create_profiler;
  analyzer = create_analyzer;
  render = initial_render;
  clock = 0;
}

-- The object that `addLog` is given.
abbrev pub log_row : Cell → Text → Text → Cell → Text → LogRow
log_row timestamp kind id value detail = record {
  timestamp = timestamp;
  kind = kind;
  id = id;
  value = value;
  detail = detail;
}

-- `requestRender`
unfoldable pub request_render : View → Viewer → Viewer
request_render v s = record s { render = Render.request v s.render }

abbrev pub max_logs : ℕ
max_logs = 300

-- `unshift` and, above the limit, `pop`.
unfoldable pub unshift_bounded {ℓ} : {A : Type ℓ} → ℕ → A → List A → List A
unshift_bounded limit x xs = if ltb limit (length (x ∷ xs)) then pop (x ∷ xs) else x ∷ xs

-- `addLog`
unfoldable pub add_log : LogRow → Viewer → Viewer
unfolding request_render unshift_bounded
add_log row s = request_render log (record s { logs = unshift_bounded max_logs row s.logs })

-- `prev ? prev.updates + 1 : 1`
unfoldable pub watch_updates : Option WatchRow → ℕ
watch_updates prev = elim prev [ Option.none ↦ 1 | Option.some p ↦ p.updates + 1 ]

-- `updateWatch`
unfoldable pub update_watch : ℕ → ℕ → ℕ → Viewer → Viewer
unfolding request_render watch_updates
update_watch id value timestamp s =
    let row : WatchRow = record {
      id = id;
      value = value;
      timestamp = timestamp;
      updates = watch_updates (get id s.watches);
    } in
    request_render watch (record s { watches = put id row s.watches })

-- `prev ? prev.count + 1 : 1`
unfoldable pub event_count : Option EventRow → ℕ
event_count prev = elim prev [ Option.none ↦ 1 | Option.some p ↦ p.count + 1 ]

-- `updateEvent`
unfoldable pub update_event : ℕ → ℕ → ℕ → Viewer → Viewer
unfolding request_render event_count
update_event id level arg0 s =
    let row : EventRow = record {
      id = id;
      level = level;
      arg0 = arg0;
      count = event_count (get id s.events);
    } in
    request_render View.events (record s { events = put id row s.events })
