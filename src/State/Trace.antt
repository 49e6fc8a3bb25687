-- ===== src/State/Trace.antt =====
-- `state.trace`: finished and open spans, marks, values and drops.
use open_fpgastudio.Base.{ℕ, Bool, Option, List, []}
use open_fpgastudio.Base.Texts.{Text}
use open_fpgastudio.Base.Dict.{Dict}

pub record OpenSpan : Type 0 where
  pub trace_id : ℕ
  pub instance_id : ℕ
  pub start_timestamp : ℕ
  pub start_arg0 : ℕ

-- `none` is `null`.
pub record Span : Type 0 where
  pub trace_id : ℕ
  pub instance_id : ℕ
  pub start_timestamp : Option ℕ
  pub end_timestamp : ℕ
  pub duration : Option ℕ
  pub status : ℕ
  pub start_arg0 : Option ℕ
  pub end_arg0 : ℕ
  pub orphan : Bool

pub record Mark : Type 0 where
  pub timestamp : ℕ
  pub trace_id : ℕ
  pub level : ℕ
  pub arg0 : ℕ

pub record Value : Type 0 where
  pub timestamp : ℕ
  pub trace_id : ℕ
  pub value_id : ℕ
  pub value : ℕ

pub record Drop : Type 0 where
  pub timestamp : ℕ
  pub trace_id : ℕ
  pub drop_count : ℕ

pub record Trace : Type 0 where
  pub spans : List Span
  pub open_spans : Dict Text OpenSpan
  pub marks : List Mark
  pub values : List Value
  pub latest_values : Dict Text Value
  pub drops : List Drop

abbrev pub empty_trace : Trace
empty_trace = record {
  spans = [];
  open_spans = [];
  marks = [];
  values = [];
  latest_values = [];
  drops = [];
}
