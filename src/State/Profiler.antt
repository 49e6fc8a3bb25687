-- ===== src/State/Profiler.antt =====
-- `state.profiler`: metrics, their latest snapshots and histories, alerts, counters.
use open_fpgastudio.Base.{ℕ, List, []}
use open_fpgastudio.Base.Texts.{Text, codes}
use open_fpgastudio.Base.Dict.{Dict}
use open_fpgastudio.State.Tables.{Metric, profiler_metrics}

pub record Snapshot : Type 0 where
  pub timestamp : ℕ
  pub metric_id : ℕ
  pub metric_name : Text
  pub metric_type : Text
  pub unit : Text
  pub flags : ℕ
  pub flag_names : List Text
  pub sample_cycles : ℕ
  pub value0 : ℕ
  pub value1 : ℕ
  pub value2 : ℕ
  pub value3 : ℕ
  pub overflow_count : ℕ
  pub reserved : ℕ

pub record Alert : Type 0 where
  pub timestamp : ℕ
  pub metric_id : ℕ
  pub metric_name : Text
  pub metric_type : Text
  pub level : ℕ
  pub level_text : Text
  pub code : ℕ
  pub code_text : Text
  pub arg0 : ℕ
  pub arg1 : ℕ

pub record Counters : Type 0 where
  pub snapshots : ℕ
  pub alerts : ℕ
  pub overflow_snapshots : ℕ
  pub malformed : ℕ

pub record Profiler : Type 0 where
  pub metrics : Dict ℕ Metric
  pub latest : Dict ℕ Snapshot
  pub history : Dict ℕ (List Snapshot)
  pub alerts : List Alert
  pub counters : Counters
  pub selected_metric_id : ℕ
  pub selected_value_index : ℕ
  pub alert_filter : Text

-- `createProfilerState`
abbrev pub create_profiler : Profiler
create_profiler = record {
  metrics = profiler_metrics;
  latest = [];
  history = [];
  alerts = [];
  counters = record { snapshots = 0; alerts = 0; overflow_snapshots = 0; malformed = 0 };
  selected_metric_id = 0x0001;
  selected_value_index = 0;
  alert_filter = codes "all";
}
