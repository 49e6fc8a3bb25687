-- ===== src/State/Tables.antt =====
-- The tables of tools/viewer/web/app.js: frame types, names and the default channels, metrics and
-- registers.
use Prim.Native.Nat.{ℕ}
use mathlib.Core.Bool.{Bool, true}
use mathlib.Core.Option.{Option, none, some}
use mathlib.Core.List.{List, [], ◌∷◌, ◌++◌}
use open_fpgastudio.Base.{get_elem?}
use open_fpgastudio.Base.Texts.{Text, codes, dec}
use open_fpgastudio.Base.Dict.{Dict, get, number_key}

-- `TYPES`
abbrev pub types : Dict ℕ Text
types =
    (0x01, codes "HEARTBEAT")
    ∷ (0x02, codes "DEBUG_PRINT")
    ∷ (0x03, codes "EVENT")
    ∷ (0x04, codes "WATCH")
    ∷ (0x05, codes "STATUS")
    ∷ (0x10, codes "TRACE_SPAN_BEGIN")
    ∷ (0x11, codes "TRACE_SPAN_END")
    ∷ (0x12, codes "TRACE_MARK")
    ∷ (0x13, codes "TRACE_VALUE")
    ∷ (0x14, codes "TRACE_DROP")
    ∷ (0x20, codes "MONITOR_READ_REQ")
    ∷ (0x21, codes "MONITOR_READ_RESP")
    ∷ (0x22, codes "MONITOR_WRITE_REQ")
    ∷ (0x23, codes "MONITOR_WRITE_RESP")
    ∷ (0x24, codes "MONITOR_BURST_READ_REQ")
    ∷ (0x25, codes "MONITOR_BURST_READ_RESP")
    ∷ (0x26, codes "MONITOR_POLL_CFG")
    ∷ (0x27, codes "MONITOR_EVENT")
    ∷ (0x28, codes "MONITOR_DISCOVER_REQ")
    ∷ (0x29, codes "MONITOR_DISCOVER_RESP")
    ∷ (0x30, codes "PROFILER_SNAPSHOT")
    ∷ (0x31, codes "PROFILER_ALERT")
    ∷ (0x32, codes "PROFILER_COUNTER")
    ∷ (0x33, codes "PROFILER_LATENCY")
    ∷ (0x34, codes "PROFILER_DISCOVER")
    ∷ (0x35, codes "PROFILER_CFG_REQ")
    ∷ (0x36, codes "PROFILER_CFG_RESP")
    ∷ (0x40, codes "LA_CAPTURE_HEADER")
    ∷ (0x41, codes "LA_SAMPLE_DATA")
    ∷ (0x42, codes "LA_CAPTURE_STATUS")
    ∷ (0x43, codes "LA_TRIGGER_EVENT")
    ∷ (0x44, codes "LA_CHANNEL_MANIFEST")
    ∷ (0x45, codes "LA_CFG_REQ")
    ∷ (0x46, codes "LA_CFG_RESP")
    ∷ []

-- `TYPES[type]`; a missing entry is `undefined`.
unfoldable pub type_name : ℕ → Option Text
unfolding get
type_name t = get t types

-- `TYPES[type]` in a log row, where the type is one of the table.
unfoldable pub type_text : ℕ → Text
unfolding type_name
type_text t = elim (type_name t) [ none ↦ codes "undefined" | some name ↦ name ]

-- `TABLE[code] || other`
abbrev pub or_else : Option Text → Text → Text
or_else (some t) other = t
or_else none other = other

abbrev pub levels : List Text
levels = codes "Debug" ∷ codes "Info" ∷ codes "Warning" ∷ codes "Error" ∷ []

unfoldable pub level_text : ℕ → Text
level_text level = or_else (get_elem? levels level) (codes "Level " ++ dec level)

abbrev pub trace_statuses : List Text
trace_statuses = codes "OK" ∷ codes "WARN" ∷ codes "ERROR" ∷ codes "TIMEOUT" ∷ []

unfoldable pub trace_status : ℕ → Text
trace_status s = or_else (get_elem? trace_statuses s) (codes "STATUS_" ++ dec s)

abbrev pub monitor_statuses : List Text
monitor_statuses =
    codes "OK"
    ∷ codes "BAD_ADDR"
    ∷ codes "DENIED"
    ∷ codes "BUSY"
    ∷ codes "BAD_LEN"
    ∷ codes "BAD_VALUE"
    ∷ codes "TIMEOUT"
    ∷ []

unfoldable pub monitor_status : ℕ → Text
monitor_status s = or_else (get_elem? monitor_statuses s) (codes "STATUS_" ++ dec s)

abbrev pub profiler_alert_codes : Dict ℕ Text
profiler_alert_codes =
    (1, codes "THRESHOLD_HIGH")
    ∷ (2, codes "THRESHOLD_LOW")
    ∷ (3, codes "OVERFLOW")
    ∷ (4, codes "UNDERFLOW")
    ∷ (5, codes "TIMEOUT")
    ∷ (6, codes "DROP")
    ∷ []

unfoldable pub profiler_alert_code : ℕ → Text
unfolding get
profiler_alert_code code = or_else (get code profiler_alert_codes) (codes "CODE_" ++ dec code)

-- `PROFILER_FLAGS` and `LA_FLAGS`: the names with the numbers of their bits.
abbrev pub profiler_flags : List (Text × ℕ)
profiler_flags =
    (codes "VALID", 0)
    ∷ (codes "SATURATED", 1)
    ∷ (codes "WINDOW_RESET", 2)
    ∷ (codes "PARTIAL", 3)
    ∷ (codes "ALERT", 4)
    ∷ []

abbrev pub la_flags : List (Text × ℕ)
la_flags =
    (codes "VALID", 0)
    ∷ (codes "TRIGGERED", 1)
    ∷ (codes "FORCED", 2)
    ∷ (codes "OVERFLOW", 3)
    ∷ (codes "PARTIAL", 4)
    ∷ []

pub record Register : Type 0 where
  pub addr : ℕ
  pub name : Text
  pub access : Text
  pub width : ℕ

abbrev pub monitor_registers : List Register
monitor_registers =
    record { addr = 0x0000; name = codes "MONITOR_ID"; access = codes "RO"; width = 4 }
    ∷ record { addr = 0x0004; name = codes "MONITOR_VERSION"; access = codes "RO"; width = 4 }
    ∷ record { addr = 0x0008; name = codes "CONTROL"; access = codes "RW"; width = 4 }
    ∷ record { addr = 0x000C; name = codes "LED_CONTROL"; access = codes "RW"; width = 4 }
    ∷ record { addr = 0x0010; name = codes "DEMO_PERIOD"; access = codes "RW"; width = 4 }
    ∷ record { addr = 0x0014; name = codes "COUNTER0"; access = codes "RO"; width = 4 }
    ∷ record { addr = 0x0018; name = codes "CLEAR_COUNTERS"; access = codes "TRIGGER"; width = 4 }
    ∷ record { addr = 0x001C; name = codes "ERROR_STATUS"; access = codes "W1C"; width = 4 }
    ∷ record { addr = 0x0040; name = codes "PROFILER_ID"; access = codes "RO"; width = 4 }
    ∷ record { addr = 0x0044; name = codes "PROFILER_VERSION"; access = codes "RO"; width = 4 }
    ∷ record { addr = 0x0048; name = codes "PROFILER_CONTROL"; access = codes "RW"; width = 4 }
    ∷ record {
      addr = 0x004C;
      name = codes "PROFILER_SAMPLE_PERIOD";
      access = codes "RW";
      width = 4;
    }
    ∷ record { addr = 0x0050; name = codes "PROFILER_CLEAR"; access = codes "TRIGGER"; width = 4 }
    ∷ record { addr = 0x0054; name = codes "PROFILER_STATUS"; access = codes "RW"; width = 4 }
    ∷ record { addr = 0x0058; name = codes "PROFILER_METRIC_MASK0"; access = codes "RW"; width = 4 }
    ∷ record {
      addr = 0x005C;
      name = codes "PROFILER_ALERT_THRESHOLD0";
      access = codes "RW";
      width = 4;
    }
    ∷ record { addr = 0x0060; name = codes "LA_ID"; access = codes "RO"; width = 4 }
    ∷ record { addr = 0x0064; name = codes "LA_VERSION"; access = codes "RO"; width = 4 }
    ∷ record { addr = 0x0068; name = codes "LA_CONTROL"; access = codes "RW"; width = 4 }
    ∷ record { addr = 0x006C; name = codes "LA_STATUS"; access = codes "RW"; width = 4 }
    ∷ record { addr = 0x0070; name = codes "LA_SAMPLE_DIVISOR"; access = codes "RW"; width = 4 }
    ∷ record { addr = 0x0074; name = codes "LA_CAPTURE_DEPTH"; access = codes "RW"; width = 4 }
    ∷ record { addr = 0x0078; name = codes "LA_PRETRIGGER_DEPTH"; access = codes "RW"; width = 4 }
    ∷ record { addr = 0x007C; name = codes "LA_TRIGGER_MODE"; access = codes "RW"; width = 4 }
    ∷ record { addr = 0x0080; name = codes "LA_TRIGGER_CHANNEL"; access = codes "RW"; width = 4 }
    ∷ record { addr = 0x0084; name = codes "LA_TRIGGER_VALUE"; access = codes "RW"; width = 4 }
    ∷ record { addr = 0x0088; name = codes "LA_TRIGGER_MASK"; access = codes "RW"; width = 4 }
    ∷ record { addr = 0x008C; name = codes "LA_COMMAND"; access = codes "TRIGGER"; width = 4 }
    ∷ record { addr = 0x0090; name = codes "LA_CAPTURE_ID"; access = codes "RO"; width = 4 }
    ∷ record { addr = 0x0094; name = codes "LA_CHANNEL_MASK"; access = codes "RW"; width = 4 }
    ∷ []

pub record Metric : Type 0 where
  pub id : ℕ
  pub name : Text
  pub kind : Text
  pub unit : Text
  pub fields : List Text

abbrev pub profiler_metrics : Dict ℕ Metric
profiler_metrics =
    (
      0x0001,
      record {
        id = 0x0001;
        name = codes "AXIS_DEMO_THROUGHPUT";
        kind = codes "Throughput";
        unit = codes "bytes/window";
        fields = codes "bytes" ∷ codes "beats" ∷ codes "active_cycles" ∷ codes "stall_cycles" ∷ [];
      },
    )
    ∷ (
      0x0101,
      record {
        id = 0x0101;
        name = codes "FIFO_DEMO_LEVEL";
        kind = codes "FIFO";
        unit = codes "level";
        fields =
            codes "current_level"
            ∷ codes "max_level"
            ∷ codes "min_level"
            ∷ codes "overflow_underflow"
            ∷ [];
      },
    )
    ∷ (
      0x0201,
      record {
        id = 0x0201;
        name = codes "DEMO_LATENCY";
        kind = codes "Latency";
        unit = codes "cycles";
        fields = codes "count" ∷ codes "min" ∷ codes "max" ∷ codes "avg" ∷ [];
      },
    )
    ∷ (
      0x0301,
      record {
        id = 0x0301;
        name = codes "FRAME_RATE";
        kind = codes "Frame Rate";
        unit = codes "frames/window";
        fields =
            codes "frame_count"
            ∷ codes "dropped_frames"
            ∷ codes "min_interval"
            ∷ codes "max_interval"
            ∷ [];
      },
    )
    ∷ []

pub record Channel : Type 0 where
  pub bit : ℕ
  pub width : ℕ
  pub name : Text
  pub color : Text
  pub visible : Bool

abbrev pub la_channels : List Channel
la_channels =
    record {
      bit = 0;
      width = 1;
      name = codes "uart_tx_busy";
      color = codes "#1769aa";
      visible = true;
    }
    ∷ record {
      bit = 1;
      width = 1;
      name = codes "uart_rx_valid";
      color = codes "#0f8a5f";
      visible = true;
    }
    ∷ record {
      bit = 2;
      width = 1;
      name = codes "debug_tx_valid";
      color = codes "#b15c00";
      visible = true;
    }
    ∷ record {
      bit = 3;
      width = 1;
      name = codes "debug_tx_ready";
      color = codes "#7c3aed";
      visible = true;
    }
    ∷ record {
      bit = 4;
      width = 1;
      name = codes "trace_valid";
      color = codes "#c2410c";
      visible = true;
    }
    ∷ record {
      bit = 5;
      width = 1;
      name = codes "monitor_resp_valid";
      color = codes "#0369a1";
      visible = true;
    }
    ∷ record {
      bit = 6;
      width = 1;
      name = codes "profiler_snapshot_valid";
      color = codes "#be123c";
      visible = true;
    }
    ∷ record {
      bit = 7;
      width = 1;
      name = codes "demo_frame_tick";
      color = codes "#4d7c0f";
      visible = true;
    }
    ∷ record {
      bit = 8;
      width = 8;
      name = codes "debug_buffer_used_lsb";
      color = codes "#475569";
      visible = true;
    }
    ∷ record {
      bit = 16;
      width = 8;
      name = codes "demo_fifo_level_lsb";
      color = codes "#854d0e";
      visible = true;
    }
    ∷ record {
      bit = 24;
      width = 8;
      name = codes "la_state_debug";
      color = codes "#155e75";
      visible = true;
    }
    ∷ []
