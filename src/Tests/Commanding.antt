-- ===== src/Tests/Commanding.antt =====
-- Commands to the board and sample data, at concrete input.
use mathlib.Core.List.{Mem}
use open_fpgastudio.Base.{
  ◌-◌, ◌^◌, ◌≤◌, ◌<◌, ◌≡◌, refl, true, false, none, some, List, [], ◌∷◌, ◌++◌, map, arith, All,
}
use open_fpgastudio.Base.Texts.{codes}
use open_fpgastudio.Base.Dict.{get, number_key}
use open_fpgastudio.State.Tables.{Register, la_channels}
use open_fpgastudio.State.Monitor.{create_monitor}
use open_fpgastudio.State.{initial_viewer, unshift_bounded}
use open_fpgastudio.Decode.Monitor.{max_errors, timeout_event, expire_monitor_pending}
use open_fpgastudio.Form.{Form, read_form, show_form, parse_number}
use open_fpgastudio.Form.Stable.{read_form-show_form}
use open_fpgastudio.Commands.{Line, Waiting, WriteResult, accepted, rejected, monitor_read, start}
use open_fpgastudio.Commands.Actions.{apply_config, take_form, poll_due, tick}
use open_fpgastudio.Commands.Happenings.{
  Happening, read_register, apply, turn, written_out, port_change, clears, run,
}
use open_fpgastudio.Commands.Moves.{Runs}
use open_fpgastudio.Commands.Order.{run_moves}
use open_fpgastudio.Commands.Chain.{
  config_writes, Served, idle_line, serve, taken_config, apply_config-serve,
}
use open_fpgastudio.Commands.Refused.{refusal, read_entry, refused_read}
use open_fpgastudio.Commands.Polling.{read_of, expired_at, poll_lem}
use open_fpgastudio.Samples.{inject_sample, inject_profiler_sample, inject_analyzer_sample}
use open_fpgastudio.Samples.Delivered.{Took, inject-Took}
use open_fpgastudio.Receiver.{initial_receiver}

parse_hex : parse_number (codes " 0x1F") ≡ 31
unfolding parse_number
parse_hex = refl

parse_sign : parse_number (codes "-1") ≡ 0xFFFFFFFF
unfolding parse_number
parse_sign = refl

parse_rest : parse_number (codes "12ms") ≡ 12
unfolding parse_number
parse_rest = refl

parse_nothing : parse_number (codes "none") ≡ 0
unfolding parse_number
parse_nothing = refl

-- A form with a number that is too large and one that is none.
abbrev a_form : Form
a_form = record {
  sample_divisor = codes "0x1FFFF";
  capture_depth = codes "128";
  pretrigger_depth = codes "x";
  trigger_mode = codes "4";
  trigger_channel = codes "3";
  trigger_value = codes "0x8";
  trigger_mask = codes "0x8";
}

read_form-show_form_example :
    let c = read_form a_form la_channels in
    ((1 ≤ c.sample_divisor) × (c.sample_divisor < 2 ^ 16))
    × ((1 ≤ c.capture_depth) × (c.capture_depth < 2 ^ 32))
    × (c.pretrigger_depth < 2 ^ 32)
    × (c.trigger_mode ≤ 4)
    × (c.trigger_channel ≤ 31)
    × ((c.trigger_value < 2 ^ 32) × (c.trigger_mask < 2 ^ 32))
    × (c.channel_mask < 2 ^ 32)
    × (read_form (show_form c) la_channels ≡ c)
read_form-show_form_example = read_form-show_form a_form la_channels

abbrev writable_line : Line
writable_line = idle_line initial_viewer []

abbrev some_happenings : List Happening
some_happenings =
    read_register 0x10
    ∷ turn
    ∷ apply a_form
    ∷ written_out accepted
    ∷ turn
    ∷ clears
    ∷ port_change false false
    ∷ written_out (rejected (codes "lost"))
    ∷ turn
    ∷ []

run_moves_example : Runs writable_line (run some_happenings writable_line)
run_moves_example = run_moves some_happenings writable_line (omega arith)

-- The port refuses one of the nine.
abbrev nine_results : List WriteResult
nine_results =
    accepted
    ∷ accepted
    ∷ rejected (codes "lost")
    ∷ accepted
    ∷ accepted
    ∷ accepted
    ∷ accepted
    ∷ accepted
    ∷ accepted
    ∷ []

apply_config-serve_example :
    let after = serve nine_results (apply_config a_form (idle_line initial_viewer [])) in
    Served
      (config_writes (taken_config a_form initial_viewer))
      (take_form a_form (idle_line initial_viewer [])).viewer
      []
      after
    × (after.viewer.analyzer.config ≡ taken_config a_form initial_viewer)
apply_config-serve_example =
    apply_config-serve a_form nine_results initial_viewer [] (omega arith) (omega arith)

refused_read_example :
    let l : Line = record {
      viewer = initial_viewer;
      jtag = true;
      writable = false;
      sending = none;
      queue = [];
      written = [];
    } in
    let after = start (monitor_read 0x10 l) in
    let m = after.viewer.monitor in
    (after.written ≡ [])
    × (after.queue ≡ [])
    × (m.errors ≡ unshift_bounded max_errors (record { event = refusal true; created_at = 0 }) [])
    × (get 1 m.pending ≡ some (read_entry 0x10 initial_viewer))
    × Mem
        (timeout_event 1 (read_entry 0x10 initial_viewer))
        (expire_monitor_pending 1000 after.viewer).0
refused_read_example = refused_read 0x10 1000 true false initial_viewer [] refl (omega arith)

-- A page that polls every half second.
abbrev polling_line : Line
polling_line =
    idle_line (record initial_viewer { monitor = record create_monitor { poll_enabled = true } }) []

polls : poll_due 600 (expired_at 600 polling_line.viewer).monitor ≡ true
unfolding poll_due expire_monitor_pending
polls = refl

registers_fit :
    All (λ (r : Register). r.addr < 2 ^ 16) (expired_at 600 polling_line.viewer).monitor.registers
unfolding expire_monitor_pending
registers_fit = omega arith

interval_fits : 700 - 600 < (expired_at 600 polling_line.viewer).monitor.poll_interval_ms
unfolding expire_monitor_pending
interval_fits = omega arith

poll_lem_example :
    let after = tick 600 polling_line in
    ((waits : List Waiting) × (after.queue ≡ [] ++ waits)
      × (map read_of waits
          ≡ map
              (λ (r : Register). (0x20, r.addr))
              (expired_at 600 polling_line.viewer).monitor.registers))
    × (after.viewer.monitor.last_poll_at ≡ 600)
    × ((tick 700 after).queue ≡ after.queue)
poll_lem_example = poll_lem 600 700 polling_line registers_fit polls interval_fits

samples_taken :
    Took 28 initial_receiver (inject_sample initial_receiver)
    × Took 5 initial_receiver (inject_profiler_sample initial_receiver)
    × Took 6 initial_receiver (inject_analyzer_sample initial_receiver)
samples_taken = inject-Took initial_receiver refl
