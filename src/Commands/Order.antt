-- ===== src/Commands/Order.antt =====
-- The page's commands, and all else that happens to it and its port, as moves of the abstract queue
-- (tools/viewer/web/app.js).
use open_fpgastudio.Base.{
  ℕ, ◌^◌, ◌<◌, ◌≡◌, refl, ap, Bool, true, false, Bool-cases, inl, inr, Option, none, some, List, [],
  ◌∷◌, map, leb, is_some, not, if-intro, subst, sym, arith,
}
use open_fpgastudio.Base.Texts.{Text}
use open_fpgastudio.Base.Dict.{Dict}
use open_fpgastudio.Wire.{push_u16, push_u32, frame}
use open_fpgastudio.Wire.Offsets.{u16_at}
use open_fpgastudio.State.Tables.{Register}
use open_fpgastudio.State.Monitor.{Request}
use open_fpgastudio.State.{Viewer, add_log, request_render}
use open_fpgastudio.Decode.Monitor.{
  next_monitor_seq, track_monitor_pending, encode_monitor_read, encode_monitor_write,
  add_monitor_error, expire_entries, expire_monitor_pending,
}
use open_fpgastudio.Decode.Numbering.{decode_frame_keeps}
use open_fpgastudio.Receiver.{decode_raw}
use open_fpgastudio.Page.{clear_viewer}
use open_fpgastudio.State.Analyzer.{Config}
use open_fpgastudio.Form.{Form}
use open_fpgastudio.Commands.{
  Waiting, Writes, Line, WriteResult, accepted, rejected, send_monitor_bytes, monitor_read,
  write_then, monitor_write, next_write, next_step, Steps, config_read, after_send, give_up,
  send_now, next_frame, start, settle_write, finish_write,
}
use open_fpgastudio.Commands.Actions.{
  detach_waiting, clear_line, take_form, config_steps, read_registers, monitor_read_all,
  profiler_set_enabled, profiler_apply_period, profiler_clear_hardware, logic_analyzer_command,
  apply_config, tick, poll_due,
}
use open_fpgastudio.Commands.Happenings.{
  Happening, read_register, write_register, read_all, set_enabled, apply_period, clear_hardware,
  command, apply, turn, written_out, decoded, clock_tick, port_change, clears, perform, run,
}
use open_fpgastudio.Commands.Moves.{
  Runs, Refines, Refines-trans, same_moves, join_moves, abstraction, here, then_move, hand_over,
  abandon, renumber, Moves,
}

read-Refines : (addr : ℕ) → Refines (monitor_read addr)
unfolding monitor_read send_monitor_bytes encode_monitor_read next_monitor_seq track_monitor_pending
    frame push_u16
read-Refines addr l h =
    join_moves _ l (monitor_read addr l) (u16_at _ _ 4 l.viewer.monitor.seq refl h) refl refl refl h

pub write-Refines :
    (follow : Option Writes) (addr value mask : ℕ) → Refines (write_then follow addr value mask)
unfolding write_then send_monitor_bytes encode_monitor_write next_monitor_seq track_monitor_pending
    frame push_u16 push_u32
write-Refines follow addr value mask l h =
    join_moves _ l (write_then follow addr value mask l) (u16_at _ _ 4 l.viewer.monitor.seq refl h)
      refl refl refl h

step-Refines : (detached : Option Config) (steps : Steps) → Refines (next_step detached steps)
unfolding request_render
step-Refines detached [] l h = same_moves l _ refl refl refl h
step-Refines detached ((addr, value) ∷ steps) l h =
    write-Refines (some (record { detached = detached; steps = steps })) addr
      (value (config_read detached l)) 0xFFFFFFFF l h

next_write-Refines : (follow : Option Writes) → Refines (next_write follow)
unfolding next_write
next_write-Refines none l h = same_moves l l refl refl refl h
next_write-Refines (some writes) l h = step-Refines writes.detached writes.steps l h

after_send-Refines : (b : Bool) (w : Waiting) → Refines (after_send b w)
unfolding after_send request_render add_log
after_send-Refines true w l h =
    Refines-trans l _ _ (same_moves l _ refl refl refl h) (next_write-Refines w.follow _)
after_send-Refines false w l h =
    Refines-trans l _ _ (same_moves l _ refl refl refl h) (next_write-Refines w.follow _)

give_up-Refines : (status message : Text) (w : Waiting) → Refines (give_up status message w)
unfolding give_up add_monitor_error request_render
give_up-Refines status message w l h =
    Refines-trans l _ _ (same_moves l _ refl refl refl h) (after_send-Refines false w _)

-- The frame at the front is given up.
abandoned :
    (status message : Text) (w : Waiting) (rest : List Waiting) (l : Line)
    → l.queue ≡ w ∷ rest
    → l.viewer.monitor.seq < 2 ^ 16
    → Runs l (give_up status message w (record l { queue = rest }))
abandoned status message w rest l e h =
    Refines-trans l (record l { queue = rest }) _
      (record {
        moves =
            then_move here
              (abandon (abstraction l) w.bytes _ (ap (map (λ (w : Waiting). w.bytes)) e));
        in_range = h;
      })
      (give_up-Refines status message w _)

send_now_lem :
    (w : Waiting) (rest : List Waiting) (l : Line)
    → l.queue ≡ w ∷ rest
    → l.viewer.monitor.seq < 2 ^ 16
    → Runs l (send_now w (record l { queue = rest }))
unfolding send_now
send_now_lem w rest l e h = if-intro (Runs l) l.jtag _ _ (abandoned _ _ w rest l e h) (
    if-intro (Runs l) (not l.writable) _ _ (abandoned _ _ w rest l e h) (record {
      moves =
          then_move here
            (hand_over (abstraction l) w.bytes _ (ap (map (λ (w : Waiting). w.bytes)) e));
      in_range = h;
    }))

next_frame_lem :
    (q : List Waiting) (l : Line)
    → l.queue ≡ q
    → l.viewer.monitor.seq < 2 ^ 16
    → Runs l (next_frame q l)
unfolding next_frame
next_frame_lem [] l e h = same_moves l l refl refl refl h
next_frame_lem (w ∷ rest) l e h = send_now_lem w rest l e h

pub start-Refines : Refines start
unfolding start
start-Refines l h =
    if-intro (Runs l) (is_some l.sending) _ _ (same_moves l l refl refl refl h)
      (next_frame_lem l.queue l refl h)

settle_write-Refines : (outcome : WriteResult) (w : Waiting) → Refines (settle_write outcome w)
unfolding settle_write
settle_write-Refines accepted w l h = after_send-Refines true w l h
settle_write-Refines (rejected message) w l h = give_up-Refines _ message w l h

pub finish_write-Refines : (outcome : WriteResult) → Refines (finish_write outcome)
unfolding finish_write
finish_write-Refines outcome l h =
    elim l.sending
      as (λ o.
        Runs l
          (elim o [ none ↦ l | some w ↦ settle_write outcome w (record l { sending = none }) ])) [
            | none ↦ same_moves l l refl refl refl h
            | some w ↦
                Refines-trans l _ _ (same_moves l (record l { sending = none }) refl refl refl h)
                  (settle_write-Refines outcome w _)
          ]

registers-Refines : (regs : List Register) → Refines (read_registers regs)
unfolding read_registers
registers-Refines [] l h = same_moves l l refl refl refl h
registers-Refines (reg ∷ rest) l h =
    Refines-trans l _ _ (read-Refines reg.addr l h) (registers-Refines rest _)

all-Refines : Refines monitor_read_all
unfolding monitor_read_all
all-Refines l h = registers-Refines l.viewer.monitor.registers l h

entries_seq :
    (now : ℕ) (entries : Dict ℕ Request) (s : Viewer)
    → (expire_entries now entries s).1.monitor.seq ≡ s.monitor.seq
unfolding expire_entries add_monitor_error request_render
entries_seq now [] s = refl
entries_seq now ((seq, request) ∷ rest) s = elim (Bool-cases (leb request.timeout_at now)) [
  | inl e ↦ rw e (entries_seq now rest _)
  | inr e ↦ rw e (entries_seq now rest s)
]

tick-Refines : (now : ℕ) → Refines (tick now)
unfolding tick expire_monitor_pending
tick-Refines now l h =
    let clocked : Viewer = record l.viewer { clock = now } in
    let kept = entries_seq now l.viewer.monitor.pending clocked in
    let expired : Viewer = (expire_monitor_pending now clocked).1 in
    let polled : Line = record l {
      viewer = record expired { monitor = record expired.monitor { last_poll_at = now } };
    } in
    if-intro (Runs l) (poll_due now expired.monitor) _ _
      (Refines-trans l polled _ (same_moves l polled kept refl refl h) (all-Refines polled))
      (same_moves l _ kept refl refl h)

apply-Refines : (form : Form) → Refines (apply_config form)
unfolding apply_config take_form
apply-Refines form l h =
    let taken : Line = take_form form l in
    Refines-trans l taken _ (same_moves l taken refl refl refl h) (
      next_write-Refines
        (some (record { detached = none; steps = config_steps taken.viewer.analyzer.config }))
        taken)

detached_bytes :
    (config : Config) (q : List Waiting)
    → map (λ (w : Waiting). w.bytes) (map (detach_waiting config) q)
      ≡ map (λ (w : Waiting). w.bytes) q
detached_bytes config [] = refl
detached_bytes config (w ∷ q) = ap (w.bytes ∷◌) (detached_bytes config q)

clear-Refines : Refines clear_line
unfolding clear_line clear_viewer
clear-Refines l h = record {
  moves =
      subst (Moves (abstraction l))
        (λ i. record {
          next = 1;
          sent = l.written;
          waits = sym (detached_bytes l.viewer.analyzer.config l.queue) i;
        })
        (then_move here (renumber (abstraction l)));
  in_range = omega arith;
}

perform-Refines : (a : Happening) → Refines (perform a)
unfolding perform monitor_write profiler_set_enabled profiler_apply_period profiler_clear_hardware
    logic_analyzer_command decode_raw
perform-Refines (read_register addr) l h = read-Refines addr l h
perform-Refines (write_register addr value mask) l h = write-Refines none addr value mask l h
perform-Refines read_all l h = all-Refines l h
perform-Refines (set_enabled enabled) l h = write-Refines none _ _ _ l h
perform-Refines (apply_period field) l h = write-Refines none _ _ _ l h
perform-Refines clear_hardware l h = write-Refines none _ _ _ l h
perform-Refines (command c) l h = write-Refines none _ _ _ l h
perform-Refines (apply form) l h = apply-Refines form l h
perform-Refines turn l h = start-Refines l h
perform-Refines (written_out outcome) l h = finish_write-Refines outcome l h
perform-Refines (decoded raw) l h =
    same_moves l _ (decode_frame_keeps _ _ _ raw l.viewer).0 refl refl h
perform-Refines (clock_tick now) l h = tick-Refines now l h
perform-Refines (port_change jtag writable) l h = same_moves l _ refl refl refl h
perform-Refines clears l h = clear-Refines l h

-- Commands to the board, the progress of the queue, frames from the board, the clock, another source or
-- port, and clearing, in any order, are a run of moves of the abstract queue: each new frame has the
-- next number and joins at the end, frames are handed to the port from the front, each once, or are
-- given up there, and clearing lets the numbers begin at 1 again while the frames that wait stay; and
-- the number keeps to 16 bits, if it has 16 bits before.
pub run_moves :
    (actions : List Happening) (l : Line) → l.viewer.monitor.seq < 2 ^ 16 → Runs l (run actions l)
unfolding run
run_moves [] l h = same_moves l l refl refl refl h
run_moves (a ∷ rest) l h = Refines-trans l _ _ (perform-Refines a l h) (run_moves rest _)
