-- ===== src/Samples/Delivered.antt =====
-- The receiver takes the sample data of tools/viewer/web/app.js as whole frames.
use open_fpgastudio.Base.{
  ℕ, ◌+◌, ◌≤◌, ◌≡◌, refl, ap, ◌∙◌, List, [], ◌∷◌, ◌++◌, map, length, arith, All,
}
use open_fpgastudio.Wire.{frame, max_payload, push_u16, push_u32, version}
use open_fpgastudio.State.{Viewer, request_render}
use open_fpgastudio.Decode.Numbering.{decode_frame_keeps}
use open_fpgastudio.Builders.{
  profiler_snapshot_payload, profiler_alert_payload, header_payload, sample_payload, status_payload,
  trigger_payload, values_bytes, value_bytes, pad_payload,
}
use open_fpgastudio.Receiver.{Receiver, receive}
use open_fpgastudio.Receiver.Frames.{decoded}
use open_fpgastudio.Receiver.Stream.{Segment, IsClean, stream, deliver, receive-stream}
use open_fpgastudio.Samples.{
  Sample, sample_bytes, all_samples, profiler_samples, analyzer_samples, await_samples,
  inject_sample, inject_profiler_sample, inject_analyzer_sample,
}

abbrev segment : Sample → Segment
segment x = record { noise = []; type = x.type; payload = x.payload }

bytes-stream : (xs : List Sample) → sample_bytes xs ≡ stream (map segment xs)
unfolding sample_bytes
bytes-stream [] = refl
bytes-stream (x ∷ xs) = ap (λ ys. frame x.type x.payload ++ ys) (bytes-stream xs)

abbrev IsShort : Sample → Type 0
IsShort x = length x.payload ≤ max_payload

clean : (xs : List Sample) → All IsShort xs → All IsClean (map segment xs)
clean [] h = tt
clean (x ∷ xs) h = ((tt, h.0), clean xs h.1)

-- The receiver has taken `n` frames, and nothing else.
pub record Took (n : ℕ) (s after : Receiver) : Type 0 where
  pub rx_empty : after.rx ≡ []
  pub no_error : after.checksum_errors ≡ s.checksum_errors
  pub no_drop : after.sync_drops ≡ s.sync_drops
  pub counted : after.viewer.frames ≡ s.viewer.frames + n
  pub same_seq : after.viewer.monitor.seq ≡ s.viewer.monitor.seq

deliver_took :
    (xs : List Sample) (s : Receiver)
    → let after = deliver (map segment xs) s in
      (after.checksum_errors ≡ s.checksum_errors)
      × (after.sync_drops ≡ s.sync_drops)
      × (after.viewer.frames ≡ s.viewer.frames + length xs)
      × (after.viewer.monitor.seq ≡ s.viewer.monitor.seq)
deliver_took [] s = (refl, refl, omega arith, refl)
deliver_took (x ∷ xs) s =
    let counted : Receiver = record s { sync_drops = s.sync_drops + 0 } in
    let kept = decode_frame_keeps version x.type x.payload (frame x.type x.payload) s.viewer in
    let rest = deliver_took xs (decoded x.type x.payload counted) in
    (rest.0, rest.1 ∙ omega arith, omega (arith, rest.2, kept.1), rest.3 ∙ kept.0)

receive-Took :
    (xs : List Sample) (s : Receiver)
    → All IsShort xs
    → s.rx ≡ []
    → Took (length xs) s (receive (sample_bytes xs) s)
receive-Took xs s h e =
    let taken =
      ap (λ bytes. receive bytes s) (bytes-stream xs)
      ∙ receive-stream (map segment xs) s (clean xs h) e in
    let counts = deliver_took xs s in
    unfold request_render in
    (rw taken (record {
      rx_empty = refl;
      no_error = counts.0;
      no_drop = counts.1;
      counted = counts.2;
      same_seq = counts.3;
    }))

samples-IsShort :
    All IsShort all_samples × All IsShort profiler_samples × All IsShort analyzer_samples
unfolding push_u16 push_u32 profiler_snapshot_payload profiler_alert_payload header_payload
    sample_payload status_payload trigger_payload values_bytes value_bytes pad_payload
samples-IsShort = (omega arith, omega arith, omega arith)

-- A receiver with an empty buffer takes each set of sample data as whole frames, 28 of `injectSample`, 5 of
-- the profiler and 6 of the logic analyzer: each is counted, nothing is left in the buffer
-- or dropped, no checksum fails, and the number of the next request stays.
pub inject-Took :
    (s : Receiver)
    → s.rx ≡ []
    → Took 28 s (inject_sample s)
      × Took 5 s (inject_profiler_sample s)
      × Took 6 s (inject_analyzer_sample s)
unfolding inject_sample inject_profiler_sample inject_analyzer_sample await_samples
inject-Took s e =
    let v : Viewer = s.viewer in
    let waiting : Receiver = record s {
      viewer = record v { monitor = await_samples v.clock v.monitor };
    } in
    let first = receive-Took all_samples waiting samples-IsShort.0 e in
    (
      record {
        rx_empty = first.rx_empty;
        no_error = first.no_error;
        no_drop = first.no_drop;
        counted = first.counted;
        same_seq = first.same_seq;
      },
      receive-Took profiler_samples s samples-IsShort.1 e,
      receive-Took analyzer_samples s samples-IsShort.2 e,
    )
