-- ===== src/Builders.antt =====
-- The frames that tools/viewer/web/app.js builds for its sample data.
pub mod RoundTrip
use open_fpgastudio.Base.{
  ℕ, zero, suc, ◌+◌, ◌-◌, ◌*◌, ◌%◌, ◌^◌, List, [], ◌∷◌, ◌++◌, length, take, replicate, shr,
}
use open_fpgastudio.Wire.{push_u16, push_u32, frame}

-- `profilerSnapshotFrame`: its payload, and the frame.
unfoldable pub profiler_snapshot_payload : ℕ → ℕ → ℕ → ℕ → ℕ → ℕ → ℕ → ℕ → ℕ → List ℕ
profiler_snapshot_payload timestamp metric_id flags cycles value0 value1 value2 value3 overflow =
    push_u16
      (push_u16
        (push_u32
          (push_u32
            (push_u32
              (push_u32
                (push_u32 (push_u16 (push_u16 (push_u32 [] timestamp) metric_id) flags) cycles)
                value0)
              value1)
            value2)
          value3)
        overflow)
      0

unfoldable pub profiler_snapshot_frame : ℕ → ℕ → ℕ → ℕ → ℕ → ℕ → ℕ → ℕ → ℕ → List ℕ
profiler_snapshot_frame timestamp metric_id flags cycles value0 value1 value2 value3 overflow =
    frame 0x30 (
      profiler_snapshot_payload timestamp metric_id flags cycles value0 value1 value2 value3
        overflow)

-- `profilerAlertFrame`
unfoldable pub profiler_alert_payload : ℕ → ℕ → ℕ → ℕ → ℕ → ℕ → List ℕ
profiler_alert_payload timestamp metric_id level code arg0 arg1 =
    push_u32 (push_u32 (push_u16 (push_u32 [] timestamp) metric_id ++ level ∷ code ∷ []) arg0) arg1

unfoldable pub profiler_alert_frame : ℕ → ℕ → ℕ → ℕ → ℕ → ℕ → List ℕ
profiler_alert_frame timestamp metric_id level code arg0 arg1 =
    frame 0x31 (profiler_alert_payload timestamp metric_id level code arg0 arg1)

-- `logicAnalyzerHeaderFrame`
unfoldable pub header_payload : ℕ → ℕ → ℕ → ℕ → ℕ → ℕ → ℕ → ℕ → List ℕ
header_payload id timestamp width count trigger_index flags period channels =
    push_u16
      (push_u16
        (push_u32
          (push_u16
            (push_u16 (push_u16 (push_u16 (push_u32 (push_u32 [] id) timestamp) width) count)
              trigger_index)
            flags)
          period)
        channels)
      0

unfoldable pub header_frame : ℕ → ℕ → ℕ → ℕ → ℕ → ℕ → ℕ → ℕ → List ℕ
header_frame id timestamp width count trigger_index flags period channels =
    frame 0x40 (header_payload id timestamp width count trigger_index flags period channels)

-- The inner loop of `logicAnalyzerSampleFrame`: the bytes of one value, from `index` on.
unfoldable pub value_bytes : ℕ → ℕ → ℕ → List ℕ
value_bytes index zero value = []
value_bytes index (suc more) value =
    (shr value (8 * index) % 2 ^ 8) ∷ value_bytes (index + 1) more value

-- The outer loop.
unfoldable pub values_bytes : ℕ → List ℕ → List ℕ
unfolding value_bytes
values_bytes sample_bytes [] = []
values_bytes sample_bytes (value ∷ values) =
    value_bytes 0 sample_bytes value ++ values_bytes sample_bytes values

-- `while (payload.length < 32) payload.push(0)`, then `payload.slice(0, 32)`.
unfoldable pub pad_payload : List ℕ → List ℕ
pad_payload payload = take 32 (payload ++ replicate (32 - length payload) 0)

-- `logicAnalyzerSampleFrame`
unfoldable pub sample_payload : ℕ → ℕ → ℕ → ℕ → List ℕ → ℕ → List ℕ
unfolding values_bytes pad_payload
sample_payload id index first sample_bytes values flags =
    let head =
      push_u16
        (push_u16 (push_u16 (push_u32 [] id) index) first ++ sample_bytes ∷ length values ∷ [])
        flags in
    pad_payload (head ++ values_bytes sample_bytes values)

unfoldable pub sample_frame : ℕ → ℕ → ℕ → ℕ → List ℕ → ℕ → List ℕ
sample_frame id index first sample_bytes values flags =
    frame 0x41 (sample_payload id index first sample_bytes values flags)

-- `logicAnalyzerStatusFrame`
unfoldable pub status_payload : ℕ → ℕ → ℕ → ℕ → ℕ → ℕ → ℕ → ℕ → List ℕ
status_payload timestamp id state error written sent total flags =
    push_u32
      (push_u16
        (push_u16 (push_u16 (push_u32 (push_u32 [] timestamp) id ++ state ∷ error ∷ []) written)
          sent)
        total)
      flags

unfoldable pub status_frame : ℕ → ℕ → ℕ → ℕ → ℕ → ℕ → ℕ → ℕ → List ℕ
status_frame timestamp id state error written sent total flags =
    frame 0x42 (status_payload timestamp id state error written sent total flags)

-- `logicAnalyzerTriggerFrame`
unfoldable pub trigger_payload : ℕ → ℕ → ℕ → ℕ → ℕ → ℕ → List ℕ
trigger_payload timestamp id index channel sample trigger =
    push_u32
      (push_u32 (push_u16 (push_u16 (push_u32 (push_u32 [] timestamp) id) index) channel) sample)
      trigger

unfoldable pub trigger_frame : ℕ → ℕ → ℕ → ℕ → ℕ → ℕ → List ℕ
trigger_frame timestamp id index channel sample trigger =
    frame 0x43 (trigger_payload timestamp id index channel sample trigger)
