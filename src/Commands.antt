-- ===== src/Commands.antt =====
-- What the page sends to the board (tools/viewer/web/app.js): requests of the monitor, `monitorWriteQueue`
-- that sends one frame after the other, and the commands of the profiler and of the logic analyzer.
pub mod Actions
pub mod Happenings
pub mod Moves
pub mod Order
pub mod Chain
pub mod Refused
pub mod Polling
use open_fpgastudio.Base.{
  ℕ, ◌+◌, ◌-◌, Bool, true, false, not, ◌&&◌, Option, none, some, List, [], ◌∷◌, ◌++◌, max, bit_or,
  leb, ◌==◌, if◌then◌else◌, is_some, map,
}
use open_fpgastudio.Base.Texts.{Text, codes, hex, dec}
use open_fpgastudio.Base.Dict.{Dict}
use open_fpgastudio.State.Tables.{Channel, Register}
use open_fpgastudio.State.Monitor.{Monitor, Request, monitor_error}
use open_fpgastudio.State.Analyzer.{Config}
use open_fpgastudio.State.Render.{View}
use open_fpgastudio.State.{Viewer, LogRow, dash, text, log_row, add_log, request_render}
use open_fpgastudio.Decode.Monitor.{
  monitor_register, add_monitor_error, encode_monitor_read, encode_monitor_write,
  expire_monitor_pending,
}
use open_fpgastudio.Page.{clear_viewer}
use open_fpgastudio.Form.{Form, read_form, parse_number}

-- The writes of `applyLogicAnalyzerConfig` that follow once the one before is through: an address,
-- and the value, which is read from the configuration when its turn comes.
abbrev pub Steps : Type 0
Steps = List (ℕ × (Config → ℕ))

-- They read the page's own configuration, or an older one that `clearAll` has taken from the page.
pub record Writes : Type 0 where
  pub detached : Option Config
  pub steps : Steps

-- A frame that `sendMonitorBytes` was given: its bytes, the row that the log gets when it is sent, and
-- the writes that follow, for a write of `applyLogicAnalyzerConfig`.
pub record Waiting : Type 0 where
  pub bytes : List ℕ
  pub row : LogRow
  pub follow : Option Writes

-- The page with its serial port. `jtag` says that the source is the JTAG bridge, `writable` that there
-- is a port that can be written to. `monitorWriteQueue` is the frame that was handed to the port's
-- writer, if there is one, and those that wait for their turn; `written` are the frames that were
-- handed to a writer.
pub record Line : Type 0 where
  pub viewer : Viewer
  pub jtag : Bool
  pub writable : Bool
  pub sending : Option Waiting
  pub queue : List Waiting
  pub written : List (List ℕ)

-- How `writer.write` ends.
pub data WriteResult : Type 0 where
  accepted : WriteResult
  rejected : Text → WriteResult

-- `sendMonitorBytes`
unfoldable pub send_monitor_bytes : Waiting → Line → Line
send_monitor_bytes w l = record l { queue = l.queue ++ w ∷ [] }

-- `reg.width || 4`
unfoldable pub width_or_four : Register → ℕ
width_or_four reg = if reg.width == 0 then 4 else reg.width

-- `${hex(addr, 4)}#${request.seq}`
unfoldable pub request_id : ℕ → ℕ → Text
request_id addr seq = hex addr 4 ++ codes "#" ++ dec seq

-- `monitorRead`, up to its `await`.
unfoldable pub monitor_read : ℕ → Line → Line
unfolding send_monitor_bytes
monitor_read addr l =
    let m = l.viewer.monitor in
    let encoded =
      encode_monitor_read l.viewer.clock addr (width_or_four (monitor_register addr m)) m in
    let row =
      log_row dash (codes "MONITOR_READ_REQ") (request_id addr encoded.0.0) dash
        (codes "read request") in
    send_monitor_bytes (record { bytes = encoded.0.1; row = row; follow = none })
      (record l { viewer = record l.viewer { monitor = encoded.1 } })

-- `monitorWrite`, up to its `await`, with the writes that wait for it.
unfoldable pub write_then : Option Writes → ℕ → ℕ → ℕ → Line → Line
unfolding send_monitor_bytes
write_then follow addr value mask l =
    let m = l.viewer.monitor in
    let encoded =
      encode_monitor_write l.viewer.clock addr value mask (width_or_four (monitor_register addr m))
        m in
    let row =
      log_row dash (codes "MONITOR_WRITE_REQ") (request_id addr encoded.0.0)
        (text (hex value 8 ++ codes " mask " ++ hex mask 8)) (codes "write request") in
    send_monitor_bytes (record { bytes = encoded.0.1; row = row; follow = follow })
      (record l { viewer = record l.viewer { monitor = encoded.1 } })

-- `monitorWrite`
unfoldable pub monitor_write : ℕ → ℕ → ℕ → Line → Line
unfolding write_then
monitor_write = write_then none

-- The configuration that they read.
abbrev pub config_read : Option Config → Line → Config
config_read none l = l.viewer.analyzer.config
config_read (some config) l = config

abbrev pub next_step : Option Config → Steps → Line → Line
next_step detached [] l = record l { viewer = request_render View.analyzer l.viewer }
next_step detached ((addr, value) ∷ steps) l =
    write_then (some (record { detached = detached; steps = steps })) addr
      (value (config_read detached l)) 0xFFFFFFFF l

-- What `applyLogicAnalyzerConfig` does when a write of it is through.
unfoldable pub next_write : Option Writes → Line → Line
unfolding write_then
next_write none l = l
next_write (some writes) l = next_step writes.detached writes.steps l

-- The end of `monitorRead` and of `monitorWrite`, behind their `await`.
unfoldable pub after_send : Bool → Waiting → Line → Line
unfolding next_write
after_send sent w l =
    let logged : Viewer = if sent then add_log w.row l.viewer else l.viewer in
    next_write w.follow (record l { viewer = request_render View.monitor logged })

-- `addMonitorError`, `return false`, and what follows that.
unfoldable pub give_up : Text → Text → Waiting → Line → Line
unfolding after_send
give_up status message w l =
    after_send false w
      (record l { viewer = add_monitor_error (monitor_error status message) l.viewer })

-- `sendMonitorBytesNow` for a frame that is taken from the queue, up to its `await`.
unfoldable pub send_now : Waiting → Line → Line
unfolding give_up
send_now w l =
    if l.jtag
    then give_up (codes "UNSUPPORTED")
        (codes "JTAG Transport v1 is receive-only; use Serial for Monitor commands") w l
    else if not l.writable
    then give_up (codes "DISCONNECTED") (codes "Serial port is not writable") w l
    else record l { sending = some w; written = l.written ++ w.bytes ∷ [] }

unfoldable pub next_frame : List Waiting → Line → Line
unfolding send_now
next_frame [] l = l
next_frame (w ∷ rest) l = send_now w (record l { queue = rest })

-- The next frame's turn, which comes when no frame is being sent.
unfoldable pub start : Line → Line
unfolding next_frame
start l = if is_some l.sending then l else next_frame l.queue l

-- The rest of `sendMonitorBytesNow`, when `writer.write` has ended.
unfoldable pub settle_write : WriteResult → Waiting → Line → Line
unfolding after_send give_up
settle_write accepted w l = after_send true w l
settle_write (rejected message) w l = give_up (codes "WRITE_FAILED") message w l

unfoldable pub finish_write : WriteResult → Line → Line
unfolding settle_write
finish_write outcome l = elim l.sending [
  | none ↦ l
  | some w ↦ settle_write outcome w (record l { sending = none })
]
