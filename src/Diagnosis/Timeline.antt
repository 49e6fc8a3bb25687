-- ===== src/Diagnosis/Timeline.antt =====
-- Timestamps of the evidence: `rawTimestamp`, `unwrapTimestamps` and `inScope` of
-- tools/viewer/web/diagnostic_snapshot.js.
pub mod Unwrap
use open_fpgastudio.Base.{
  ℕ, ◌+◌, ◌-◌, ◌*◌, Bool, true, false, ◌&&◌, Option, none, some, List, [], ◌∷◌, ltb, leb, is_some,
  not, if◌then◌else◌,
}

-- The three fields of a record that hold a timestamp; `none` is a field that is missing or holds no
-- finite number.
pub record Stamped : Type 0 where
  pub timestamp : Option ℕ
  pub start_timestamp : Option ℕ
  pub end_timestamp : Option ℕ

abbrev pub first_of : Option ℕ → Option ℕ → Option ℕ
first_of (some t) other = some t
first_of none other = other

-- `rawTimestamp`
unfoldable pub raw_timestamp : Stamped → Option ℕ
raw_timestamp r = first_of r.timestamp (first_of r.start_timestamp r.end_timestamp)

pub data Quality : Type 0 where
  exact unknown : Quality

pub record Stamp : Type 0 where
  pub raw : Option ℕ
  pub tick : Option ℕ
  pub wrap_count : ℕ
  pub quality : Quality

-- `previous !== null && raw < previous && previous - raw > modulus / 2`
unfoldable pub has_wrapped : ℕ → Option ℕ → ℕ → Bool
has_wrapped modulus none raw = false
has_wrapped modulus (some previous) raw = ltb raw previous && ltb modulus (2 * (previous - raw))

-- The callback of `records.map`, with `previous` and `wraps` as they are when it is called.
unfoldable pub unwrap_from : ℕ → Option ℕ → ℕ → List (Option ℕ) → List Stamp
unwrap_from modulus previous wraps [] = []
unwrap_from modulus previous wraps (none ∷ raws) =
    record { raw = none; tick = none; wrap_count = wraps; quality = unknown }
    ∷ unwrap_from modulus previous wraps raws
unwrap_from modulus previous wraps (some raw ∷ raws) =
    let wraps' = if has_wrapped modulus previous raw then wraps + 1 else wraps in
    record {
      raw = some raw;
      tick = some (raw + wraps' * modulus);
      wrap_count = wraps';
      quality = exact;
    }
    ∷ unwrap_from modulus (some raw) wraps' raws

abbrev pub raws : List Stamped → List (Option ℕ)
raws [] = []
raws (r ∷ rs) = raw_timestamp r ∷ raws rs

-- `unwrapTimestamps`
unfoldable pub unwrap_timestamps : List Stamped → ℕ → List Stamp
unfolding unwrap_from
unwrap_timestamps records modulus = unwrap_from modulus none 0 (raws records)

-- A time window; `none` is a bound that is not set.
pub record Scope : Type 0 where
  pub from : Option ℕ
  pub to : Option ℕ

abbrev pub not_before : Option ℕ → ℕ → Bool
not_before none t = true
not_before (some from) t = leb from t

abbrev pub not_after : Option ℕ → ℕ → Bool
not_after none t = true
not_after (some to) t = leb t to

-- `inScope`; a scope that is not given has no bounds.
unfoldable pub in_scope : Option ℕ → Scope → Bool
in_scope none scope = not (is_some scope.from) && not (is_some scope.to)
in_scope (some tick) scope = not_before scope.from tick && not_after scope.to tick
