-- ===== src/Decode/Analyzer/Samples.antt =====
-- The sample loop of `decodeLogicAnalyzerSampleData` in tools/viewer/web/app.js.
use open_fpgastudio.Base.{
  ℕ, zero, suc, ◌+◌, ◌-◌, ◌*◌, bit_or, Bool, true, ◌&&◌, Option, none, some, List, [], ◌∷◌, ◌++◌,
  if◌then◌else◌, length, get_or, set, replicate, is_some, shl, to_u32,
}
use open_fpgastudio.Wire.{byte_at}
use open_fpgastudio.State.Analyzer.{CaptureError, overlap}

-- What the loop changes; `dropped` counts what it adds to `droppedFrames`.
pub record Fill : Type 0 where
  pub values : List ℕ
  pub samples : List (Option ℕ)
  pub errors : List CaptureError
  pub dropped : ℕ

-- `value |= payload[offset + byteIndex] << (8 * byteIndex)` from `byteIndex` on, for so many bytes.
unfoldable pub le_value : List ℕ → ℕ → ℕ → ℕ → ℕ → ℕ
le_value payload offset index zero value = to_u32 value
le_value payload offset index (suc more) value =
    le_value payload offset (index + 1) more
      (bit_or value (shl (byte_at payload (offset + index)) (8 * index)))

-- `while (samples.length <= index) samples.push(null)`
unfoldable pub grow : ℕ → List (Option ℕ) → List (Option ℕ)
grow index samples = samples ++ replicate (suc index - length samples) none

-- A sample is written where there is none.
unfoldable pub store_sample : ℕ → ℕ → Fill → Fill
unfolding grow
store_sample index value f =
    let grown = grow index f.samples in
    if is_some (get_or grown index none)
    then record f {
      values = f.values ++ value ∷ [];
      samples = grown;
      errors = f.errors ++ overlap ∷ [];
      dropped = f.dropped + 1;
    }
    else record f { values = f.values ++ value ∷ []; samples = set grown index (some value) }

-- The samples from `index` on, so many of them.
unfoldable pub fill_samples : List ℕ → ℕ → ℕ → ℕ → ℕ → Fill → Fill
unfolding le_value store_sample
fill_samples payload sample_bytes first index zero f = f
fill_samples payload sample_bytes first index (suc more) f =
    let value = le_value payload (12 + index * sample_bytes) 0 sample_bytes 0 in
    fill_samples payload sample_bytes first (index + 1) more (store_sample (first + index) value f)

-- `samples.every((sample) => sample !== null)`
unfoldable pub all_present : List (Option ℕ) → Bool
all_present [] = true
all_present (sample ∷ rest) = is_some sample && all_present rest
