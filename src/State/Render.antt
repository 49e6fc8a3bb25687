-- ===== src/State/Render.antt =====
-- Which panels wait to be drawn: `state.paused`, `state.render`, `requestRender` and `flushRender`.
-- The set of pending renders is a record of flags: the order in which one flush draws the panels
-- is not modelled.
pub mod Order
use open_fpgastudio.Base.{ℕ, ◌+◌, ◌-◌, Bool, true, false, if◌then◌else◌}

-- The render functions that are passed to `requestRender`.
pub data View : Type 0 where
  counters log watch events status trace monitor profiler analyzer : View

pub record Pending : Type 0 where
  pub counters_wait : Bool
  pub log_waits : Bool
  pub watch_waits : Bool
  pub events_wait : Bool
  pub status_waits : Bool
  pub trace_waits : Bool
  pub monitor_waits : Bool
  pub profiler_waits : Bool
  pub analyzer_waits : Bool

abbrev pub nothing : Pending
nothing = record {
  counters_wait = false;
  log_waits = false;
  watch_waits = false;
  events_wait = false;
  status_waits = false;
  trace_waits = false;
  monitor_waits = false;
  profiler_waits = false;
  analyzer_waits = false;
}

-- `pending.add`
unfoldable pub mark : View → Pending → Pending
mark counters p = record p { counters_wait = true }
mark log p = record p { log_waits = true }
mark watch p = record p { watch_waits = true }
mark events p = record p { events_wait = true }
mark status p = record p { status_waits = true }
mark trace p = record p { trace_waits = true }
mark monitor p = record p { monitor_waits = true }
mark profiler p = record p { profiler_waits = true }
mark analyzer p = record p { analyzer_waits = true }

-- `callbacks` counts the animation frames that are asked for and have not come.
pub record Render : Type 0 where
  pub paused : Bool
  pub scheduled : Bool
  pub pending : Pending
  pub callbacks : ℕ

unfoldable pub schedule : Render → Render
schedule r = if r.scheduled then r else record r { scheduled = true; callbacks = r.callbacks + 1 }

unfoldable pub request : View → Render → Render
unfolding mark schedule
request v r = if r.paused then r else schedule (record r { pending = mark v r.pending })

-- The browser runs one callback: `flushRender` hands out what it draws.
unfoldable pub flush : Render → Pending × Render
flush r =
    (r.pending, record r { pending = nothing; scheduled = false; callbacks = r.callbacks - 1 })

abbrev pub initial_render : Render
initial_render = record { paused = false; scheduled = false; pending = nothing; callbacks = 0 }
