-- ===== src/Samples.antt =====
-- The sample data of tools/viewer/web/app.js: `injectSample`, `injectProfilerSample` and
-- `injectLogicAnalyzerSample`, which hand frames to the receiver as if the board had sent them.
pub mod Delivered
use open_fpgastudio.Base.{ℕ, ◌+◌, Option, none, some, List, [], ◌∷◌, ◌++◌, bit_or}
use open_fpgastudio.Base.Dict.{put, number_key}
use open_fpgastudio.Wire.{push_u16, push_u32, frame}
use open_fpgastudio.State.Monitor.{Monitor, Request, Op, read, write}
use open_fpgastudio.State.{Viewer}
use open_fpgastudio.Decode.Monitor.{monitor_timeout_ms}
use open_fpgastudio.Builders.{
  profiler_snapshot_payload, profiler_alert_payload, header_payload, sample_payload, status_payload,
  trigger_payload,
}
use open_fpgastudio.Receiver.{Receiver, receive}

-- A frame's type and payload.
pub record Sample : Type 0 where
  pub type : ℕ
  pub payload : List ℕ

abbrev pub sample : ℕ → List ℕ → Sample
sample type payload = record { type = type; payload = payload }

-- `bytes.push(...frame(type, payload))` for each.
unfoldable pub sample_bytes : List Sample → List ℕ
sample_bytes [] = []
sample_bytes (x ∷ xs) = frame x.type x.payload ++ sample_bytes xs

-- The flags of the samples: `VALID`, `SATURATED` and `TRIGGERED`.
abbrev pub valid : ℕ
valid = 1

abbrev pub saturated : ℕ
saturated = 2

abbrev pub triggered : ℕ
triggered = 2

abbrev pub span_open : ℕ → ℕ → ℕ → ℕ → Sample
span_open timestamp id instance_id arg0 =
    sample 0x10 (push_u32 (push_u16 (push_u16 (push_u32 [] timestamp) id) instance_id) arg0)

abbrev pub span_close : ℕ → ℕ → ℕ → ℕ → ℕ → Sample
span_close timestamp id instance_id status result =
    sample 0x11
      (push_u32 (push_u16 (push_u16 (push_u32 [] timestamp) id) instance_id ++ status ∷ []) result)

abbrev pub mark_sample : ℕ → ℕ → ℕ → ℕ → Sample
mark_sample timestamp id level arg0 =
    sample 0x12 (push_u32 (push_u16 (push_u32 [] timestamp) id ++ level ∷ []) arg0)

-- The frames of `injectSample` up to the status.
abbrev pub debug_samples : List Sample
debug_samples =
    sample 0x01 (push_u32 [] 0x12345678)
    ∷ sample 0x03 (push_u32 (push_u16 (push_u32 [] 0x12345690) 0x1001 ++ 1 ∷ []) 0x0000002A)
    ∷ sample 0x04 (push_u32 (push_u16 (push_u32 [] 0x123456A0) 0x2001) 0x0000ABCD)
    ∷ sample 0x02
        (push_u32 (push_u32 (push_u16 (push_u32 [] 0x123456B0) 0x3001) 0x11111111) 0x22222222)
    ∷ sample 0x05 (push_u16 (push_u16 (push_u16 (push_u32 [] 0x123456C0) 12) 0) 4)
    ∷ []

-- Its frames of the trace.
abbrev pub trace_samples : List Sample
trace_samples =
    span_open 0x123456D0 0x0002 0x0042 0x00000042
    ∷ span_open 0x123456D4 0x0001 0x0042 0x00000010
    ∷ mark_sample 0x123456D8 0x0003 2 0x00000080
    ∷ sample 0x13 (push_u32 (push_u16 (push_u16 (push_u32 [] 0x123456E0) 0x0003) 0x0001) 0x0000007C)
    ∷ mark_sample 0x123456E4 0x0004 1 0x00000001
    ∷ span_close 0x123456F0 0x0001 0x0042 0 0x00000020
    ∷ span_close 0x123456F8 0x0002 0x0042 0 0x00000043
    ∷ span_open 0x12345710 0x0001 0x0043 0x00000011
    ∷ span_close 0x12345730 0x0001 0x0043 3 0x0000DEAD
    ∷ sample 0x14 (push_u32 (push_u16 (push_u32 [] 0x12345734) 0x0000) 2)
    ∷ []

-- Its responses of the monitor.
abbrev pub monitor_samples : List Sample
monitor_samples =
    sample 0x21 (
      push_u32 (push_u16 (push_u16 (push_u32 [] 0x12345740) 0x0501) 0x000C ++ 0 ∷ 4 ∷ [])
        0x00000003)
    ∷ sample 0x23 (
        push_u32
          (push_u32 (push_u16 (push_u16 (push_u32 [] 0x12345748) 0x0502) 0x0010 ++ 0 ∷ []) 500)
          1000)
    ∷ []

-- `profilerSampleBytes`
abbrev pub profiler_samples : List Sample
profiler_samples =
    sample 0x30 (profiler_snapshot_payload 0x12345760 0x0001 valid 100000 8192 1024 1200 12 0)
    ∷ sample 0x30
        (profiler_snapshot_payload 0x12345770 0x0101 (bit_or valid saturated) 100000 48 60 8 1 1)
    ∷ sample 0x30 (profiler_snapshot_payload 0x12345780 0x0201 valid 100000 16 23 91 44 0)
    ∷ sample 0x30 (profiler_snapshot_payload 0x12345790 0x0301 valid 100000 30 1 3100 3500 0)
    ∷ sample 0x31 (profiler_alert_payload 0x12345794 0x0101 2 3 60 1)
    ∷ []

-- `logicAnalyzerSampleBytes`; the last frame is too short.
abbrev pub analyzer_samples : List Sample
analyzer_samples =
    sample 0x40 (header_payload 0x0000A501 0x12345800 32 8 3 (bit_or valid triggered) 4 11)
    ∷ sample 0x43 (trigger_payload 0x12345804 0x0000A501 3 2 0x0000000F 0x00000008)
    ∷ sample 0x41 (sample_payload 0x0000A501 0 0 4 (1 ∷ 2 ∷ 4 ∷ 8 ∷ 16 ∷ []) 0)
    ∷ sample 0x41 (sample_payload 0x0000A501 1 5 4 (32 ∷ 64 ∷ 128 ∷ []) 0)
    ∷ sample 0x42 (status_payload 0x12345820 0x0000A501 3 0 8 2 2 valid)
    ∷ sample 0x41 (0 ∷ 1 ∷ 2 ∷ 3 ∷ [])
    ∷ []

-- The requests that `injectSample` puts among those that wait; they have no bytes.
abbrev pub sample_request : ℕ → Op → ℕ → Option ℕ → Option ℕ → ℕ → Request
sample_request seq op addr value mask now = record {
  seq = seq;
  created_at = now;
  timeout_at = now + monitor_timeout_ms;
  op = op;
  addr = addr;
  width = 4;
  value = value;
  mask = mask;
  bytes = [];
}

unfoldable pub await_samples : ℕ → Monitor → Monitor
await_samples now m = record m {
  pending =
      put 0x502 (sample_request 0x502 write 0x0010 (some 1000) (some 0xFFFFFFFF) now)
        (put 0x501 (sample_request 0x501 read 0x000C none none now) m.pending);
}

abbrev pub all_samples : List Sample
all_samples =
    debug_samples ++ (trace_samples ++ (monitor_samples ++ (profiler_samples ++ analyzer_samples)))

-- `injectSample`
unfoldable pub inject_sample : Receiver → Receiver
unfolding await_samples sample_bytes
inject_sample s =
    let v = s.viewer in
    receive (sample_bytes all_samples)
      (record s { viewer = record v { monitor = await_samples v.clock v.monitor } })

-- `injectProfilerSample`
unfoldable pub inject_profiler_sample : Receiver → Receiver
unfolding sample_bytes
inject_profiler_sample = receive (sample_bytes profiler_samples)

-- `injectLogicAnalyzerSample`
unfoldable pub inject_analyzer_sample : Receiver → Receiver
unfolding sample_bytes
inject_analyzer_sample = receive (sample_bytes analyzer_samples)
