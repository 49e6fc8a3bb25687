-- ===== src/Diagnosis/Ranges.antt =====
-- The sample summary of tools/viewer/web/ai_provider.js: `summarizeEvidence` writes the samples of a
-- capture as ranges of equal values.
pub mod Expand
use open_fpgastudio.Base.{
  ℕ, zero, suc, ◌+◌, ◌-◌, Bool, true, false, ◌&&◌, Option, none, some, List, [], ◌∷◌, length, drop,
  ltb, ◌==◌, if◌then◌else◌,
}

-- A sample of a capture; `none` is `null`.
abbrev pub same_sample : Option ℕ → Option ℕ → Bool
same_sample none none = true
same_sample (some a) (some b) = a == b
same_sample _ _ = false

pub record Range : Type 0 where
  pub start_sample : ℕ
  pub end_sample : ℕ
  pub value : Option ℕ

-- `while (end < samples.length && samples[end] === samples[start]) end += 1`: how far it gets, from
-- the samples behind `start`.
unfoldable pub run_length : Option ℕ → List (Option ℕ) → ℕ
run_length value [] = 0
run_length value (x ∷ xs) =
    let more = suc (run_length value xs) in if same_sample x value then more else 0

-- The outer loop, with so many ranges to go and the samples from `start` on.
unfoldable pub ranges : ℕ → ℕ → List (Option ℕ) → List Range
ranges zero start samples = []
ranges (suc limit) start [] = []
ranges (suc limit) start (x ∷ xs) =
    let equal = run_length x xs in
    record { start_sample = start; end_sample = start + equal; value = x }
    ∷ ranges limit (start + equal + 1) (drop equal xs)

abbrev pub max_ranges : ℕ
max_ranges = 64

-- `ranges[ranges.length - 1].end_sample`, from the one before.
unfoldable pub last_end : ℕ → List Range → ℕ
last_end before [] = before
last_end before (r ∷ rs) = last_end r.end_sample rs

pub record SampleSummary : Type 0 where
  pub sample_count : ℕ
  pub ranges : List Range
  pub truncated : Bool

-- `sample_summary`
unfoldable pub sample_summary : List (Option ℕ) → SampleSummary
sample_summary samples =
    let found = ranges max_ranges 0 samples in
    record {
      sample_count = length samples;
      ranges = found;
      truncated = length found == max_ranges && ltb (last_end 0 found) (length samples - 1);
    }
