-- ===== src/Commands/Happenings.antt =====
-- What happens to the page and its port (the commands, the queue, the port and the timer of
-- tools/viewer/web/app.js), as events in any order.
use open_fpgastudio.Base.{ℕ, Bool, List, [], ◌∷◌}
use open_fpgastudio.Base.Texts.{Text}
use open_fpgastudio.Receiver.{decode_raw}
use open_fpgastudio.Form.{Form}
use open_fpgastudio.Commands.{Line, WriteResult, monitor_read, monitor_write, start, finish_write}
use open_fpgastudio.Commands.Actions.{
  monitor_read_all, profiler_set_enabled, profiler_apply_period, profiler_clear_hardware,
  logic_analyzer_command, apply_config, tick, clear_line,
}

-- What happens to the page and its port, in any order: commands, the progress of the queue, a frame
-- from the board, the clock, another source or port, and `clearAll`.
pub data Happening : Type 0 where
  read_register : ℕ → Happening
  write_register : ℕ → ℕ → ℕ → Happening
  read_all : Happening
  set_enabled : Bool → Happening
  apply_period : Text → Happening
  clear_hardware : Happening
  command : ℕ → Happening
  apply : Form → Happening
  turn : Happening
  written_out : WriteResult → Happening
  decoded : List ℕ → Happening
  clock_tick : ℕ → Happening
  port_change : Bool → Bool → Happening
  clears : Happening

unfoldable pub perform : Happening → Line → Line
perform (read_register addr) l = monitor_read addr l
perform (write_register addr value mask) l = monitor_write addr value mask l
perform read_all l = monitor_read_all l
perform (set_enabled enabled) l = profiler_set_enabled enabled l
perform (apply_period field) l = profiler_apply_period field l
perform clear_hardware l = profiler_clear_hardware l
perform (command c) l = logic_analyzer_command c l
perform (apply form) l = apply_config form l
perform turn l = start l
perform (written_out outcome) l = finish_write outcome l
perform (decoded raw) l = record l { viewer = decode_raw raw l.viewer }
perform (clock_tick now) l = tick now l
perform (port_change jtag writable) l = record l { jtag = jtag; writable = writable }
perform clears l = clear_line l

unfoldable pub run : List Happening → Line → Line
unfolding perform
run [] l = l
run (a ∷ rest) l = run rest (perform a l)
