-- ===== src/Builders/RoundTrip.antt =====
-- What tools/viewer/web/app.js builds, it decodes again: the payloads of `logicAnalyzerStatusFrame` and
-- its siblings against the objects that the decoders make of them.
use open_fpgastudio.Base.{ℕ, ◌^◌, ◌<◌, ◌≡◌, refl, List, [], arith}
use open_fpgastudio.Wire.Offsets.{u16_at, u32_at}
use open_fpgastudio.Wire.{push_u16, push_u32}
use open_fpgastudio.State.Tables.{la_flags, profiler_flags}
use open_fpgastudio.State.Profiler.{Profiler}
use open_fpgastudio.Decode.Profiler.{flag_names, profiler_metric, snapshot_record}
use open_fpgastudio.Decode.Analyzer.{header_record, status_record, trigger_record}
use open_fpgastudio.Builders.{
  header_payload, status_payload, trigger_payload, profiler_snapshot_payload,
}

-- A status that `logicAnalyzerStatusFrame` builds from fields in their ranges is decoded to
-- these fields.
pub status_record-status_payload :
    (timestamp id state error written sent total flags : ℕ)
    → timestamp < 2 ^ 32
    → id < 2 ^ 32
    → written < 2 ^ 16
    → sent < 2 ^ 16
    → total < 2 ^ 16
    → flags < 2 ^ 32
    → status_record (status_payload timestamp id state error written sent total flags) ≡ record {
      timestamp = timestamp;
      capture_id = id;
      capture_state = state;
      error = error;
      samples_written = written;
      chunks_sent = sent;
      chunks_total = total;
      status_flags = flags;
    }
unfolding status_record status_payload push_u16 push_u32
status_record-status_payload timestamp id state error written sent total flags ht hi hw hs hn hf =
    let q : List ℕ = status_payload timestamp id state error written sent total flags in
    rw (
      u32_at q _ 0 timestamp refl ht,
      u32_at q _ 4 id refl hi,
      u16_at q _ 10 written refl hw,
      u16_at q _ 12 sent refl hs,
      u16_at q _ 14 total refl hn,
      u32_at q _ 16 flags refl hf,
    )

-- A trigger event that `logicAnalyzerTriggerFrame` builds from fields in their ranges is decoded
-- to these fields.
pub trigger_record-trigger_payload :
    (timestamp id index channel sample trigger : ℕ)
    → timestamp < 2 ^ 32
    → id < 2 ^ 32
    → index < 2 ^ 16
    → channel < 2 ^ 16
    → sample < 2 ^ 32
    → trigger < 2 ^ 32
    → trigger_record (trigger_payload timestamp id index channel sample trigger) ≡ record {
      timestamp = timestamp;
      capture_id = id;
      trigger_index = index;
      trigger_channel = channel;
      sample_value = sample;
      trigger_value = trigger;
    }
unfolding trigger_record trigger_payload push_u16 push_u32
trigger_record-trigger_payload timestamp id index channel sample trigger ht hi hx hc hs hg =
    let q : List ℕ = trigger_payload timestamp id index channel sample trigger in
    rw (
      u32_at q _ 0 timestamp refl ht,
      u32_at q _ 4 id refl hi,
      u16_at q _ 8 index refl hx,
      u16_at q _ 10 channel refl hc,
      u32_at q _ 12 sample refl hs,
      u32_at q _ 16 trigger refl hg,
    )

-- A header that `logicAnalyzerHeaderFrame` builds from fields in their ranges is decoded to
-- these fields, with the names of its flags and a reserved field of 0.
pub header_record-header_payload :
    (id timestamp width count index flags period channels : ℕ)
    → id < 2 ^ 32
    → timestamp < 2 ^ 32
    → width < 2 ^ 16
    → count < 2 ^ 16
    → index < 2 ^ 16
    → flags < 2 ^ 16
    → period < 2 ^ 32
    → channels < 2 ^ 16
    → header_record (header_payload id timestamp width count index flags period channels) ≡ record {
      capture_id = id;
      timestamp = timestamp;
      sample_width_bits = width;
      sample_count = count;
      trigger_index = index;
      flags = flags;
      flag_names = flag_names flags la_flags;
      sample_period_cycles = period;
      channel_count = channels;
      reserved = 0;
    }
unfolding header_record header_payload push_u16 push_u32
header_record-header_payload id timestamp width count index flags period channels hi ht hw hn hx hf
      hp hc =
    let q : List ℕ = header_payload id timestamp width count index flags period channels in
    rw (
      u32_at q _ 0 id refl hi,
      u32_at q _ 4 timestamp refl ht,
      u16_at q _ 8 width refl hw,
      u16_at q _ 10 count refl hn,
      u16_at q _ 12 index refl hx,
      u16_at q _ 14 flags refl hf,
      u32_at q _ 16 period refl hp,
      u16_at q _ 20 channels refl hc,
      u16_at q [] 22 0 refl (omega arith),
    )

-- A snapshot that `profilerSnapshotFrame` builds from fields in their ranges is decoded to these
-- fields, with the name, kind and unit that the page has for the metric, the names of the flags
-- and a reserved field of 0.
pub snapshot_record-profiler_snapshot_payload :
    (timestamp id flags cycles v0 v1 v2 v3 overflow : ℕ) (p : Profiler)
    → timestamp < 2 ^ 32
    → id < 2 ^ 16
    → flags < 2 ^ 16
    → cycles < 2 ^ 32
    → v0 < 2 ^ 32
    → v1 < 2 ^ 32
    → v2 < 2 ^ 32
    → v3 < 2 ^ 32
    → overflow < 2 ^ 16
    → snapshot_record (profiler_snapshot_payload timestamp id flags cycles v0 v1 v2 v3 overflow) p
      ≡ record {
        timestamp = timestamp;
        metric_id = id;
        metric_name = (profiler_metric id p).name;
        metric_type = (profiler_metric id p).kind;
        unit = (profiler_metric id p).unit;
        flags = flags;
        flag_names = flag_names flags profiler_flags;
        sample_cycles = cycles;
        value0 = v0;
        value1 = v1;
        value2 = v2;
        value3 = v3;
        overflow_count = overflow;
        reserved = 0;
      }
unfolding snapshot_record profiler_snapshot_payload push_u16 push_u32
snapshot_record-profiler_snapshot_payload timestamp id flags cycles v0 v1 v2 v3 overflow p ht hi hf
      hc h0 h1 h2 h3 ho =
    let q : List ℕ = profiler_snapshot_payload timestamp id flags cycles v0 v1 v2 v3 overflow in
    rw (
      u32_at q _ 0 timestamp refl ht,
      u16_at q _ 4 id refl hi,
      u16_at q _ 6 flags refl hf,
      u32_at q _ 8 cycles refl hc,
      u32_at q _ 12 v0 refl h0,
      u32_at q _ 16 v1 refl h1,
      u32_at q _ 20 v2 refl h2,
      u32_at q _ 24 v3 refl h3,
      u16_at q _ 28 overflow refl ho,
      u16_at q [] 30 0 refl (omega arith),
    )
