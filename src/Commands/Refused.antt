-- ===== src/Commands/Refused.antt =====
-- A request that `sendMonitorBytesNow` of tools/viewer/web/app.js refuses, and `expireMonitorPending`
-- afterwards.
use mathlib.Core.List.{Mem, mem-cons_self, mem-cons_of_mem}
use open_fpgastudio.Base.{
  ℕ, ◌+◌, ◌≤◌, ◌≡◌, refl, sym, ap, ◌∙◌, Bool, true, false, Bool-cases, inl, inr, not, ◌||◌, none,
  some, List, [], ◌∷◌, le→leb, leb, ◌==◌, ==_iff, if◌then◌else◌, subst, if-intro,
}
use open_fpgastudio.Base.Texts.{codes}
use open_fpgastudio.Base.Dict.{Dict, get, put, number_key, get-put_self}
use open_fpgastudio.State.Monitor.{Request, read, Event, monitor_error}
use open_fpgastudio.State.Render.{View}
use open_fpgastudio.State.{Viewer, request_render, unshift_bounded}
use open_fpgastudio.Decode.Monitor.{
  monitor_register, encode_monitor_read, next_monitor_seq, track_monitor_pending, add_monitor_error,
  max_errors, monitor_timeout_ms, timeout_event, expire_monitor_pending,
}
use open_fpgastudio.Decode.Monitor.Expiry.{due_events, expire_cases}
use open_fpgastudio.Commands.{
  Line, width_or_four, send_monitor_bytes, monitor_read, next_write, after_send, give_up, send_now,
  next_frame, start,
}

due-put :
    (now k : ℕ) (entry : Request) (m : Dict ℕ Request)
    → leb entry.timeout_at now ≡ true
    → Mem (timeout_event k entry) (due_events now (put k entry m))
unfolding put
due-put now k entry [] h = rw h mem-cons_self
due-put now k entry ((j, w) ∷ m) h = elim (Bool-cases (j == k)) [
  | inl e ↦
      rw (e, h)
        (subst (λ (i : ℕ). Mem (timeout_event k entry) (timeout_event i entry ∷ due_events now m))
          (sym ((==_iff j k).0 e)) mem-cons_self)
  | inr e ↦ rw e (
      if-intro (λ es. Mem (timeout_event k entry) es) (leb w.timeout_at now) _ _
        (mem-cons_of_mem _ (due-put now k entry m h)) (due-put now k entry m h))
]

-- The error that refuses a frame.
abbrev pub refusal : Bool → Event
refusal jtag =
    if jtag
    then monitor_error (codes "UNSUPPORTED")
        (codes "JTAG Transport v1 is receive-only; use Serial for Monitor commands")
    else monitor_error (codes "DISCONNECTED") (codes "Serial port is not writable")

-- The request of a read.
abbrev pub read_entry : ℕ → Viewer → Request
read_entry addr v =
    let m = v.monitor in
    let width = width_or_four (monitor_register addr m) in
    record {
      seq = m.seq;
      created_at = v.clock;
      timeout_at = v.clock + monitor_timeout_ms;
      op = read;
      addr = addr;
      width = width;
      value = none;
      mask = none;
      bytes = (encode_monitor_read v.clock addr width m).0.1;
    }

-- The page behind a read that was refused.
refused_page : ℕ → Bool → Viewer → Viewer
refused_page addr jtag v =
    let m = v.monitor in
    let encoded = encode_monitor_read v.clock addr (width_or_four (monitor_register addr m)) m in
    request_render View.monitor
      (add_monitor_error (refusal jtag) (record v { monitor = encoded.1 }))

refused_start :
    (addr : ℕ) (jtag writable : Bool) (v : Viewer) (written : List (List ℕ))
    → (jtag || not writable) ≡ true
    → let l : Line = record {
      viewer = v;
      jtag = jtag;
      writable = writable;
      sending = none;
      queue = [];
      written = written;
    } in
      start (monitor_read addr l) ≡ record l { viewer = refused_page addr jtag v }
unfolding start next_frame send_now give_up after_send next_write monitor_read send_monitor_bytes
    refused_page
refused_start addr true writable v written h = refl
refused_start addr false false v written h = refl
refused_start addr false true v written h = cc

pending_lem :
    (addr : ℕ) (jtag : Bool) (v : Viewer)
    → (refused_page addr jtag v).monitor.pending
      ≡ put v.monitor.seq (read_entry addr v) v.monitor.pending
unfolding refused_page encode_monitor_read next_monitor_seq track_monitor_pending add_monitor_error
    request_render
pending_lem addr jtag v = refl

errors_lem :
    (addr : ℕ) (jtag : Bool) (v : Viewer)
    → (refused_page addr jtag v).monitor.errors
      ≡ unshift_bounded max_errors
          (record { event = refusal jtag; created_at = v.clock })
          v.monitor.errors
unfolding refused_page encode_monitor_read next_monitor_seq track_monitor_pending add_monitor_error
    request_render
errors_lem addr jtag v = refl

-- When the source is the bridge, or no port can be written to, a read on an idle line is refused with
-- an error and nothing is written; but the request waits all the same, and a second later or later
-- still it is reported once more, as one that got no answer.
pub refused_read :
    (addr now : ℕ) (jtag writable : Bool) (v : Viewer) (written : List (List ℕ))
    → (jtag || not writable) ≡ true
    → v.clock + monitor_timeout_ms ≤ now
    → let l : Line = record {
      viewer = v;
      jtag = jtag;
      writable = writable;
      sending = none;
      queue = [];
      written = written;
    } in
      let after = start (monitor_read addr l) in
      let m = after.viewer.monitor in
      (after.written ≡ written)
      × (after.queue ≡ [])
      × (m.errors
          ≡ unshift_bounded max_errors
              (record { event = refusal jtag; created_at = v.clock })
              v.monitor.errors)
      × (get v.monitor.seq m.pending ≡ some (read_entry addr v))
      × Mem
          (timeout_event v.monitor.seq (read_entry addr v))
          (expire_monitor_pending now after.viewer).0
refused_read addr now jtag writable v written h late =
    let refused = refused_start addr jtag writable v written h in
    let page : Viewer = refused_page addr jtag v in
    let waits : page.monitor.pending ≡ put v.monitor.seq (read_entry addr v) v.monitor.pending =
      pending_lem addr jtag v in
    rw refused (
      refl,
      refl,
      errors_lem addr jtag v,
      ap (get v.monitor.seq) waits
          ∙ get-put_self v.monitor.seq (read_entry addr v) v.monitor.pending,
      subst (λ es. Mem (timeout_event v.monitor.seq (read_entry addr v)) es)
          (sym ((expire_cases now page).0 ∙ ap (due_events now) waits))
          (due-put now v.monitor.seq (read_entry addr v) v.monitor.pending (le→leb _ now late)),
    )
