-- ===== src/State/Monitor.antt =====
-- `state.monitor`: the registers, the requests that wait for a response, the history.
use open_fpgastudio.Base.{ℕ, Bool, false, Option, List, []}
use open_fpgastudio.Base.Texts.{Text}
use open_fpgastudio.Base.Dict.{Dict}
use open_fpgastudio.State.Tables.{Register, monitor_registers}

pub data Op : Type 0 where
  read write : Op

-- An entry of `pending`; `value` and `mask` are there for a write only.
pub record Request : Type 0 where
  pub seq : ℕ
  pub created_at : ℕ
  pub timeout_at : ℕ
  pub op : Op
  pub addr : ℕ
  pub width : ℕ
  pub value : Option ℕ
  pub mask : Option ℕ
  pub bytes : List ℕ

pub record RegisterValue : Type 0 where
  pub register : Register
  pub value : ℕ
  pub timestamp : ℕ
  pub status : ℕ
  pub status_text : Text
  pub width : ℕ

pub record ReadResponse : Type 0 where
  pub timestamp : ℕ
  pub seq : ℕ
  pub addr : ℕ
  pub status : ℕ
  pub status_text : Text
  pub width : ℕ
  pub value : ℕ
  pub unknown_seq : Bool

pub record WriteResponse : Type 0 where
  pub timestamp : ℕ
  pub seq : ℕ
  pub addr : ℕ
  pub status : ℕ
  pub status_text : Text
  pub old_value : ℕ
  pub new_value : ℕ
  pub unknown_seq : Bool

pub record Timeout : Type 0 where
  pub seq : ℕ
  pub addr : ℕ
  pub status : ℕ
  pub status_text : Text
  pub op : Op

-- The records of `history` and `errors`, by their `kind`; `monitor_error` is a status text and a
-- message of the sender.
pub data Event : Type 0 where
  monitor_read : ReadResponse → Event
  monitor_write : WriteResponse → Event
  monitor_timeout : Timeout → Event
  unsupported : ℕ → Text → Event
  monitor_error : Text → Text → Event

-- An entry of `errors`, with its `createdAt`.
pub record ErrorEntry : Type 0 where
  pub event : Event
  pub created_at : ℕ

pub record Monitor : Type 0 where
  pub registers : List Register
  pub values : Dict ℕ RegisterValue
  pub pending : Dict ℕ Request
  pub seq : ℕ
  pub poll_enabled : Bool
  pub poll_interval_ms : ℕ
  pub last_poll_at : ℕ
  pub errors : List ErrorEntry
  pub history : List Event

-- `createMonitorState`
abbrev pub create_monitor : Monitor
create_monitor = record {
  registers = monitor_registers;
  values = [];
  pending = [];
  seq = 1;
  poll_enabled = false;
  poll_interval_ms = 500;
  last_poll_at = 0;
  errors = [];
  history = [];
}
