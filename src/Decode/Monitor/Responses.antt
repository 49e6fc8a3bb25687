-- ===== src/Decode/Monitor/Responses.antt =====
-- Requests of the monitor and their responses (`encodeMonitorRead`, `encodeMonitorWrite` and
-- `decodeMonitorReadResponse` of tools/viewer/web/app.js).
use open_fpgastudio.Base.{
  ℕ, ◌≡◌, ◌≢◌, refl, sym, ==_ne, none, some, ap, ◌∙◌, true, false, Bool, List, ◌++◌, ◌∷◌, [], not,
  ◌||◌, ◌==◌, is_some, if◌then◌else◌,
}
use open_fpgastudio.Base.Dict.{
  get, put, delete, number_key, get-put, get-put_self, get-delete, get-delete_self,
}
use open_fpgastudio.Wire.{u16, u32, byte_at}
use open_fpgastudio.State.Tables.{monitor_status}
use open_fpgastudio.State.Monitor.{Monitor, RegisterValue, Event, monitor_read, ErrorEntry}
use open_fpgastudio.State.{Viewer, LogRow, request_render, add_log, unshift_bounded}
use open_fpgastudio.Decode.Monitor.{
  monitor_register, update_monitor_value, add_monitor_error, settle, report, respond,
  decode_monitor_read_response, max_errors, encode_monitor_read, next_monitor_seq,
  track_monitor_pending,
}

-- The record of a read response, by whether its request is known.
abbrev pub read_event : List ℕ → Bool → Event
read_event p unknown = monitor_read (record {
  timestamp = u32 p 0;
  seq = u16 p 4;
  addr = u16 p 6;
  status = byte_at p 8;
  status_text = monitor_status (byte_at p 8);
  width = byte_at p 9;
  value = u32 p 10;
  unknown_seq = unknown;
})

-- The value of a register after a read.
abbrev pub read_value : List ℕ → Monitor → RegisterValue
read_value p m = record {
  register = monitor_register (u16 p 6) m;
  value = u32 p 10;
  timestamp = u32 p 0;
  status = byte_at p 8;
  status_text = monitor_status (byte_at p 8);
  width = byte_at p 9;
}

respond_errors :
    (failed : Bool) (event : Event) (row : LogRow) (m : Monitor) (s : Viewer)
    → (respond failed event row (record s { monitor = m })).monitor ≡ record m {
      errors =
          if failed
          then unshift_bounded max_errors (record { event = event; created_at = s.clock }) m.errors
          else m.errors;
    }
unfolding respond report add_monitor_error request_render add_log
respond_errors true event row m s = refl
respond_errors false event row m s = refl

settle_read :
    (p : List ℕ) (event : Event) (succeeded : Bool) (m : Monitor)
    → settle
        (u16 p 4)
        event
        succeeded
        (update_monitor_value (u16 p 6) (u32 p 10) (u32 p 0) (byte_at p 8) (byte_at p 9))
        m
      ≡ record m {
        pending = delete (u16 p 4) m.pending;
        history = m.history ++ event ∷ [];
        values = if succeeded then put (u16 p 6) (read_value p m) m.values else m.values;
      }
unfolding settle update_monitor_value monitor_register
settle_read p event true m = refl
settle_read p event false m = refl

-- What a read response leaves of the monitor.
read_response_cases :
    (p : List ℕ) (s : Viewer)
    → let m = s.monitor in
      let after = (decode_monitor_read_response p s).monitor in
      let unknown = not (is_some (get (u16 p 4) m.pending)) in
      let succeeded = byte_at p 8 == 0 in
      let event = read_event p unknown in
      (after.pending ≡ delete (u16 p 4) m.pending)
      × (after.history ≡ m.history ++ event ∷ [])
      × (after.values ≡ (if succeeded then put (u16 p 6) (read_value p m) m.values else m.values))
      × (after.errors ≡ (
          if unknown || not succeeded
          then unshift_bounded max_errors (record { event = event; created_at = s.clock }) m.errors
          else m.errors))
unfolding decode_monitor_read_response
read_response_cases p s =
    let m : Monitor = s.monitor in
    let unknown : Bool = not (is_some (get (u16 p 4) m.pending)) in
    let succeeded : Bool = byte_at p 8 == 0 in
    let event : Event = read_event p unknown in
    let settled : Monitor =
      settle (u16 p 4) event succeeded
        (update_monitor_value (u16 p 6) (u32 p 10) (u32 p 0) (byte_at p 8) (byte_at p 9)) m in
    let after : Monitor = (decode_monitor_read_response p s).monitor in
    let written = respond_errors (unknown || not succeeded) event _ settled s in
    let kept = settle_read p event succeeded m in
    (
      ap (λ (x : Monitor). x.pending) written ∙ ap (λ (x : Monitor). x.pending) kept,
      ap (λ (x : Monitor). x.history) written ∙ ap (λ (x : Monitor). x.history) kept,
      ap (λ (x : Monitor). x.values) written ∙ ap (λ (x : Monitor). x.values) kept,
      ap (λ (x : Monitor). x.errors) written
          ∙ ap
              (λ (x : List ErrorEntry).
                if unknown || not succeeded
                then unshift_bounded max_errors (record { event = event; created_at = s.clock }) x
                else x)
              (ap (λ (x : Monitor). x.errors) kept),
    )

-- A read is asked for, and a response with its number comes, twice. The first takes the request out of
-- those that wait, and the requests under other numbers wait as before. With the status 0 the register
-- that it names has the value that was read, and nothing is added to the errors; with another status
-- the register keeps its value and one error is added, of a known request. All other registers are as
-- they were. The second is an error, of a number that is not known.
pub answered_once :
    (now addr width : ℕ) (p : List ℕ) (s : Viewer)
    → u16 p 4 ≡ s.monitor.seq
    → let m = s.monitor in
      let succeeded = byte_at p 8 == 0 in
      let once =
        decode_monitor_read_response p
          (record s { monitor = (encode_monitor_read now addr width m).1 }) in
      let twice = decode_monitor_read_response p once in
      (get m.seq once.monitor.pending ≡ none)
      × ((n : ℕ) → n ≢ m.seq → get n once.monitor.pending ≡ get n m.pending)
      × (get (u16 p 6) once.monitor.values
          ≡ (if succeeded then some (read_value p m) else get (u16 p 6) m.values))
      × ((a : ℕ) → a ≢ u16 p 6 → get a once.monitor.values ≡ get a m.values)
      × (once.monitor.errors ≡ (
          if succeeded
          then m.errors
          else unshift_bounded max_errors
              (record { event = read_event p false; created_at = s.clock })
              m.errors))
      × (twice.monitor.errors
          ≡ unshift_bounded max_errors
              (record { event = read_event p true; created_at = once.clock })
              once.monitor.errors)
unfolding encode_monitor_read next_monitor_seq track_monitor_pending monitor_register
answered_once now addr width p s e =
    let m : Monitor = s.monitor in
    let asked : Viewer = record s { monitor = (encode_monitor_read now addr width m).1 } in
    let succeeded : Bool = byte_at p 8 == 0 in
    let once : Viewer = decode_monitor_read_response p asked in
    let first = read_response_cases p asked in
    let second = read_response_cases p once in
    let known : is_some (get (u16 p 4) asked.monitor.pending) ≡ true =
      rw (e, get-put_self m.seq _ m.pending) refl in
    let gone : get m.seq once.monitor.pending ≡ none =
      ap (get m.seq) first.0 ∙ rw e (get-delete_self m.seq asked.monitor.pending) in
    let unknown : is_some (get (u16 p 4) once.monitor.pending) ≡ false = rw (e, gone) refl in
    (
      gone,
      λ n other.
          let apart : (m.seq == n) ≡ false = ==_ne m.seq n (λ same. other (sym same)) in
          ap (get n) first.0
          ∙ rw e (
              get-delete m.seq n asked.monitor.pending
              ∙ rw apart (get-put m.seq n _ m.pending ∙ rw apart refl)),
      ap (get (u16 p 6)) first.2 ∙ value_there p m succeeded,
      λ a other. ap (get a) first.2 ∙ others_kept p m a other succeeded,
      first.3 ∙ rw known (added_lem succeeded _ _),
      second.3 ∙ rw unknown refl,
    )
  where
    value_there :
        (p : List ℕ) (m : Monitor) (b : Bool)
        → get (u16 p 6) (if b then put (u16 p 6) (read_value p m) m.values else m.values)
          ≡ (if b then some (read_value p m) else get (u16 p 6) m.values)
    value_there p m true = get-put_self (u16 p 6) (read_value p m) m.values
    value_there p m false = refl

    others_kept :
        (p : List ℕ) (m : Monitor) (a : ℕ)
        → a ≢ u16 p 6
        → (b : Bool)
        → get a (if b then put (u16 p 6) (read_value p m) m.values else m.values) ≡ get a m.values
    others_kept p m a other true =
        let apart : (u16 p 6 == a) ≡ false = ==_ne (u16 p 6) a (λ same. other (sym same)) in
        get-put (u16 p 6) a (read_value p m) m.values ∙ rw apart refl
    others_kept p m a other false = refl

    added_lem :
        (b : Bool) (kept added : List ErrorEntry)
        → (if not true || not b then added else kept) ≡ (if b then kept else added)
    added_lem true kept added = refl
    added_lem false kept added = refl
