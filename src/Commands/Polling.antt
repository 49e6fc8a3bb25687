-- ===== src/Commands/Polling.antt =====
-- The polling of the registers every 100 ms (tools/viewer/web/app.js).
use mathlib.Core.List.{map-append}
use open_fpgastudio.Base.{
  ℕ, ◌-◌, ◌^◌, ◌<◌, ◌≡◌, refl, sym, ap, ◌∙◌, Bool, true, false, Bool-cases, inl, inr, List, [], ◌∷◌,
  ◌++◌, append-nil, append_assoc, map, arith, All, leb, ◌&&◌,
}
use open_fpgastudio.Base.Dict.{Dict}
use open_fpgastudio.Wire.{u16, byte_at, push_u16, frame}
use open_fpgastudio.Wire.Offsets.{u16_at}
use open_fpgastudio.State.Tables.{Register}
use open_fpgastudio.State.Monitor.{Monitor, Request}
use open_fpgastudio.State.{Viewer, request_render}
use open_fpgastudio.Decode.Monitor.{
  monitor_register, encode_monitor_read, next_monitor_seq, track_monitor_pending, add_monitor_error,
  expire_entries, expire_monitor_pending,
}
use open_fpgastudio.Commands.{Waiting, Line, send_monitor_bytes, width_or_four, monitor_read}
use open_fpgastudio.Commands.Actions.{read_registers, monitor_read_all, poll_due, no_pending, tick}

-- What a frame of a read says: its type and the address.
abbrev pub read_of : Waiting → ℕ × ℕ
read_of w = (byte_at w.bytes 2, u16 w.bytes 6)

-- The polling's own fields are as they were.
record SamePoll (m m' : Monitor) : Type 0 where
  pub same_last : m'.last_poll_at ≡ m.last_poll_at
  pub same_interval : m'.poll_interval_ms ≡ m.poll_interval_ms

record Asked (regs : List Register) (l l' : Line) : Type 0 where
  pub waits : List Waiting
  pub behind : l'.queue ≡ l.queue ++ waits
  pub says : map read_of waits ≡ map (λ (r : Register). (0x20, r.addr)) regs
  pub poll : SamePoll l.viewer.monitor l'.viewer.monitor

monitor_read-Asked :
    (reg : Register) (l : Line) → reg.addr < 2 ^ 16 → Asked (reg ∷ []) l (monitor_read reg.addr l)
unfolding monitor_read send_monitor_bytes encode_monitor_read next_monitor_seq track_monitor_pending
    frame push_u16
monitor_read-Asked reg l h =
    let m : Monitor = l.viewer.monitor in
    let bytes : List ℕ =
      (encode_monitor_read l.viewer.clock reg.addr (width_or_four (monitor_register reg.addr m))
        m).0.1 in
    record {
      waits = _;
      behind = refl;
      says = λ i. (0x20, u16_at bytes _ 6 reg.addr refl h i) ∷ [];
      poll = record { same_last = refl; same_interval = refl };
    }

read_registers-Asked :
    (regs : List Register) (l : Line)
    → All (λ (r : Register). r.addr < 2 ^ 16) regs
    → Asked regs l (read_registers regs l)
unfolding read_registers
read_registers-Asked [] l h = record {
  waits = [];
  behind = sym (append-nil l.queue);
  says = refl;
  poll = record { same_last = refl; same_interval = refl };
}
read_registers-Asked (reg ∷ rest) l h =
    let one = monitor_read-Asked reg l h.0 in
    let more = read_registers-Asked rest (monitor_read reg.addr l) h.1 in
    record {
      waits = one.waits ++ more.waits;
      behind =
          more.behind
          ∙ ap (λ q. q ++ more.waits) one.behind
          ∙ append_assoc l.queue one.waits more.waits;
      says = map-append read_of one.waits more.waits ∙ (λ i. one.says i ++ more.says i);
      poll = record {
        same_last = more.poll.same_last ∙ one.poll.same_last;
        same_interval = more.poll.same_interval ∙ one.poll.same_interval;
      };
    }

expired_poll :
    (now : ℕ) (entries : Dict ℕ Request) (s : Viewer)
    → SamePoll s.monitor (expire_entries now entries s).1.monitor
unfolding expire_entries add_monitor_error request_render
expired_poll now [] s = record { same_last = refl; same_interval = refl }
expired_poll now ((seq, request) ∷ rest) s =
    let go = expired_poll now rest _ in
    let stay = expired_poll now rest s in
    elim (Bool-cases (leb request.timeout_at now)) [
      | inl e ↦ rw e (record { same_last = go.same_last; same_interval = go.same_interval })
      | inr e ↦ rw e stay
    ]

-- The page when the overdue requests are taken out.
abbrev pub expired_at : ℕ → Viewer → Viewer
expired_at now v = (expire_monitor_pending now (record v { clock = now })).1

and_false : (a b : Bool) → (a && b && false) ≡ false
and_false true true = refl
and_false true false = refl
and_false false true = refl
and_false false false = refl

too_early :
    (now : ℕ) (m : Monitor) → now - m.last_poll_at < m.poll_interval_ms → poll_due now m ≡ false
unfolding poll_due
too_early now m h =
    let early : leb m.poll_interval_ms (now - m.last_poll_at) ≡ false = ground arith in
    rw early (and_false (m.poll_enabled) (no_pending m.pending))

tick_quiet :
    (now : ℕ) (l : Line)
    → now - l.viewer.monitor.last_poll_at < l.viewer.monitor.poll_interval_ms
    → (tick now l).queue ≡ l.queue
unfolding tick expire_monitor_pending
tick_quiet now l h =
    let expired : Viewer = expired_at now l.viewer in
    let kept : SamePoll l.viewer.monitor expired.monitor =
      expired_poll now l.viewer.monitor.pending (record l.viewer { clock = now }) in
    rw (too_early now expired.monitor (rw (kept.same_last, kept.same_interval) h))

-- When polling is on, no request waits for an answer any more and the interval is over, the page asks
-- for each register, in the order of the table, behind the frames that wait already, if the addresses
-- have 16 bits; and until the interval is over again it asks for none.
pub poll_lem :
    (now later : ℕ) (l : Line)
    → All (λ (r : Register). r.addr < 2 ^ 16) (expired_at now l.viewer).monitor.registers
    → poll_due now (expired_at now l.viewer).monitor ≡ true
    → later - now < (expired_at now l.viewer).monitor.poll_interval_ms
    → let after = tick now l in
      ((waits : List Waiting) × (after.queue ≡ l.queue ++ waits)
        × (map read_of waits
            ≡ map (λ (r : Register). (0x20, r.addr)) (expired_at now l.viewer).monitor.registers))
      × (after.viewer.monitor.last_poll_at ≡ now)
      × ((tick later after).queue ≡ after.queue)
poll_lem now later l fits due early =
    let expired : Viewer = expired_at now l.viewer in
    let polled : Line = record l {
      viewer = record expired { monitor = record expired.monitor { last_poll_at = now } };
    } in
    let asked = read_registers-Asked expired.monitor.registers polled fits in
    let after : tick now l ≡ read_registers expired.monitor.registers polled =
      unfold tick monitor_read_all in rw due in
    rw after (
      (asked.waits, asked.behind, asked.says),
      asked.poll.same_last,
      tick_quiet later _ (rw (asked.poll.same_last, asked.poll.same_interval) early),
    )
