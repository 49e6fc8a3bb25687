-- ===== src/Tests/Building.antt =====
-- Frames that the page builds, at concrete input.
use open_fpgastudio.Base.{◌≡◌, arith}
use open_fpgastudio.Base.Dict.{number_key, text_key}
use open_fpgastudio.State.Tables.{profiler_flags}
use open_fpgastudio.State.Profiler.{create_profiler}
use open_fpgastudio.Decode.Profiler.{flag_names, snapshot_record, profiler_metric}
use open_fpgastudio.Builders.{profiler_snapshot_payload}
use open_fpgastudio.Builders.RoundTrip.{snapshot_record-profiler_snapshot_payload}

snapshot_record-profiler_snapshot_payload_example :
    snapshot_record (profiler_snapshot_payload 5 1 1 100000 8192 1024 1200 12 0) create_profiler
    ≡ record {
      timestamp = 5;
      metric_id = 1;
      metric_name = (profiler_metric 1 create_profiler).name;
      metric_type = (profiler_metric 1 create_profiler).kind;
      unit = (profiler_metric 1 create_profiler).unit;
      flags = 1;
      flag_names = flag_names 1 profiler_flags;
      sample_cycles = 100000;
      value0 = 8192;
      value1 = 1024;
      value2 = 1200;
      value3 = 12;
      overflow_count = 0;
      reserved = 0;
    }
snapshot_record-profiler_snapshot_payload_example =
    snapshot_record-profiler_snapshot_payload 5 1 1 100000 8192 1024 1200 12 0 create_profiler
      (omega arith) (omega arith) (omega arith) (omega arith) (omega arith) (omega arith)
      (omega arith) (omega arith) (omega arith)
