-- ===== src/State/Analyzer.antt =====
-- `state.logicAnalyzer`: captures, the configuration, the viewport, the counters.
use open_fpgastudio.Base.{ℕ, Bool, false, Option, none, List, []}
use open_fpgastudio.Base.Texts.{Text}
use open_fpgastudio.Base.Dict.{Dict}
use open_fpgastudio.State.Tables.{Channel, la_channels}

pub record Header : Type 0 where
  pub capture_id : ℕ
  pub timestamp : ℕ
  pub sample_width_bits : ℕ
  pub sample_count : ℕ
  pub trigger_index : ℕ
  pub flags : ℕ
  pub flag_names : List Text
  pub sample_period_cycles : ℕ
  pub channel_count : ℕ
  pub reserved : ℕ

pub record Status : Type 0 where
  pub timestamp : ℕ
  pub capture_id : ℕ
  pub capture_state : ℕ
  pub error : ℕ
  pub samples_written : ℕ
  pub chunks_sent : ℕ
  pub chunks_total : ℕ
  pub status_flags : ℕ

pub record TriggerEvent : Type 0 where
  pub timestamp : ℕ
  pub capture_id : ℕ
  pub trigger_index : ℕ
  pub trigger_channel : ℕ
  pub sample_value : ℕ
  pub trigger_value : ℕ

pub record Chunk : Type 0 where
  pub capture_id : ℕ
  pub chunk_index : ℕ
  pub first_sample_index : ℕ
  pub sample_bytes : ℕ
  pub sample_count : ℕ
  pub flags : ℕ
  pub flag_names : List Text
  pub values : List ℕ

pub data CaptureError : Type 0 where
  missing_header overlap : CaptureError

-- A sample that has not come is `null`.
pub record Capture : Type 0 where
  pub header : Option Header
  pub status : Option Status
  pub trigger_event : Option TriggerEvent
  pub chunks : Dict ℕ Chunk
  pub samples : List (Option ℕ)
  pub missing_ranges : List (ℕ × ℕ)
  pub complete : Bool
  pub errors : List CaptureError

abbrev pub empty_capture : Capture
empty_capture = record {
  header = none;
  status = none;
  trigger_event = none;
  chunks = [];
  samples = [];
  missing_ranges = [];
  complete = false;
  errors = [];
}

pub record Viewport : Type 0 where
  pub start_sample : ℕ
  pub samples_per_pixel : ℕ
  pub cursor_a : ℕ
  pub cursor_b : ℕ

pub record Config : Type 0 where
  pub sample_divisor : ℕ
  pub capture_depth : ℕ
  pub pretrigger_depth : ℕ
  pub trigger_mode : ℕ
  pub trigger_channel : ℕ
  pub trigger_value : ℕ
  pub trigger_mask : ℕ
  pub channel_mask : ℕ

pub record Counters : Type 0 where
  pub headers : ℕ
  pub samples : ℕ
  pub statuses : ℕ
  pub trigger_events : ℕ
  pub malformed : ℕ
  pub missing_chunks : ℕ
  pub out_of_order_chunks : ℕ
  pub dropped_frames : ℕ

pub record Analyzer : Type 0 where
  pub captures : Dict ℕ Capture
  pub latest_capture_id : Option ℕ
  pub manifest : List Channel
  pub viewport : Viewport
  pub config : Config
  pub counters : Counters

-- `createLogicAnalyzerState`
abbrev pub create_analyzer : Analyzer
create_analyzer = record {
  captures = [];
  latest_capture_id = none;
  manifest = la_channels;
  viewport = record { start_sample = 0; samples_per_pixel = 1; cursor_a = 0; cursor_b = 0 };
  config = record {
    sample_divisor = 4;
    capture_depth = 128;
    pretrigger_depth = 32;
    trigger_mode = 4;
    trigger_channel = 3;
    trigger_value = 0x00000008;
    trigger_mask = 0x00000008;
    channel_mask = 0xFFFFFFFF;
  };
  counters = record {
    headers = 0;
    samples = 0;
    statuses = 0;
    trigger_events = 0;
    malformed = 0;
    missing_chunks = 0;
    out_of_order_chunks = 0;
    dropped_frames = 0;
  };
}
