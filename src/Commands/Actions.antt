-- ===== src/Commands/Actions.antt =====
-- What the page does to the board, at the user's click or by the clock (tools/viewer/web/app.js), and
-- what `clearAll` does to it.
use open_fpgastudio.Base.{
  ℕ, ◌-◌, Bool, true, false, ◌&&◌, Option, none, some, List, [], ◌∷◌, max, bit_or, leb, ◌==◌,
  if◌then◌else◌, map,
}
use open_fpgastudio.Base.Texts.{Text}
use open_fpgastudio.Base.Dict.{Dict}
use open_fpgastudio.State.Tables.{Register}
use open_fpgastudio.State.Monitor.{Monitor, Request}
use open_fpgastudio.State.Analyzer.{Config}
use open_fpgastudio.State.{Viewer}
use open_fpgastudio.Decode.Monitor.{expire_monitor_pending}
use open_fpgastudio.Page.{clear_viewer}
use open_fpgastudio.Form.{Form, read_form, parse_number}
use open_fpgastudio.Commands.{Steps, Writes, Waiting, Line, monitor_read, monitor_write, next_write}

-- `monitorReadAll`
unfoldable pub read_registers : List Register → Line → Line
unfolding monitor_read
read_registers [] l = l
read_registers (reg ∷ rest) l = read_registers rest (monitor_read reg.addr l)

unfoldable pub monitor_read_all : Line → Line
unfolding read_registers
monitor_read_all l = read_registers l.viewer.monitor.registers l

-- `profilerSetEnabled`
unfoldable pub profiler_set_enabled : Bool → Line → Line
unfolding monitor_write
profiler_set_enabled enabled = monitor_write 0x0048 (if enabled then 1 else 0) 0x00000001

-- `profilerApplyPeriod`; the period is written back to its field, too.
unfoldable pub profiler_apply_period : Text → Line → Line
unfolding monitor_write
profiler_apply_period field = monitor_write 0x004C (max 1 (parse_number field)) 0xFFFFFFFF

-- `profilerClearHardware`
unfoldable pub profiler_clear_hardware : Line → Line
unfolding monitor_write
profiler_clear_hardware = monitor_write 0x0050 1 0xFFFFFFFF

-- `logicAnalyzerCommand`
unfoldable pub logic_analyzer_command : ℕ → Line → Line
unfolding monitor_write
logic_analyzer_command command = monitor_write 0x008C command 0xFFFFFFFF

-- `0x1 | (config.triggerMode === 0 ? 0 : 0x4)`
unfoldable pub control_word : Config → ℕ
control_word c = bit_or 1 (if c.trigger_mode == 0 then 0 else 4)

-- The writes of `applyLogicAnalyzerConfig`, in their order; only the first value is settled at once.
unfoldable pub config_steps : Config → Steps
unfolding control_word
config_steps c =
    (0x0068, λ later. control_word c)
    ∷ (0x0070, λ config. config.sample_divisor)
    ∷ (0x0074, λ config. config.capture_depth)
    ∷ (0x0078, λ config. config.pretrigger_depth)
    ∷ (0x007C, λ config. config.trigger_mode)
    ∷ (0x0080, λ config. config.trigger_channel)
    ∷ (0x0084, λ config. config.trigger_value)
    ∷ (0x0088, λ config. config.trigger_mask)
    ∷ (0x0094, λ config. config.channel_mask)
    ∷ []

-- The first half of `applyLogicAnalyzerConfig`; what it writes back to the form is `show_form`.
unfoldable pub take_form : Form → Line → Line
take_form form l =
    let analyzer = l.viewer.analyzer in
    let config = read_form form analyzer.manifest in
    record l { viewer = record l.viewer { analyzer = record analyzer { config = config } } }

-- `applyLogicAnalyzerConfig`
unfoldable pub apply_config : Form → Line → Line
unfolding config_steps next_write take_form
apply_config form l =
    let taken = take_form form l in
    let steps = config_steps taken.viewer.analyzer.config in
    next_write (some (record { detached = none; steps = steps })) taken

-- The writes that follow go on with the configuration that `clearAll` takes from the page, or with the
-- older one that they have.
abbrev pub older_or : Config → Option Config → Config
older_or config none = config
older_or config (some older) = older

abbrev pub detach : Config → Option Writes → Option Writes
detach config none = none
detach config (some writes) =
    some (record writes { detached = some (older_or config writes.detached) })

abbrev pub detach_waiting : Config → Waiting → Waiting
detach_waiting config w = record w { follow = detach config w.follow }

-- `clearAll`, as the port sees it: the frames that wait stay.
unfoldable pub clear_line : Line → Line
unfolding clear_viewer
clear_line l =
    let config = l.viewer.analyzer.config in
    record l {
      viewer = clear_viewer l.viewer;
      sending = elim l.sending [ none ↦ none | some w ↦ some (detach_waiting config w) ];
      queue = map (detach_waiting config) l.queue;
    }

-- `pending.size === 0`
unfoldable pub no_pending : Dict ℕ Request → Bool
no_pending [] = true
no_pending (_ ∷ _) = false

-- `pollEnabled && pending.size === 0 && now - lastPollAt >= pollIntervalMs`
unfoldable pub poll_due : ℕ → Monitor → Bool
unfolding no_pending
poll_due now m =
    m.poll_enabled && no_pending m.pending && leb m.poll_interval_ms (now - m.last_poll_at)

-- What the page does every 100 ms, at the time `now`.
unfoldable pub tick : ℕ → Line → Line
unfolding poll_due monitor_read_all
tick now l =
    let clocked : Viewer = record l.viewer { clock = now } in
    let expired = (expire_monitor_pending now clocked).1 in
    let polled : Viewer = record expired {
      monitor = record expired.monitor { last_poll_at = now };
    } in
    if poll_due now expired.monitor
    then monitor_read_all (record l { viewer = polled })
    else record l { viewer = expired }
