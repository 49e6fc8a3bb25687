-- ===== src/Diagnosis/Timeline/Unwrap.antt =====
-- Times that a 32-bit counter has cut off are found again (`unwrapTimestamps` of
-- tools/viewer/web/diagnostic_snapshot.js).
use open_fpgastudio.Base.{
  ℕ, ◌+◌, ◌-◌, ◌*◌, ◌%◌, ◌/◌, ◌^◌, ◌≤◌, ◌<◌, ◌≡◌, refl, sym, ap, ◌∙◌, Option, none, some, List, [],
  ◌∷◌, arith, if◌then◌else◌,
}
use open_fpgastudio.Diagnosis.Timeline.{
  Stamped, Stamp, has_wrapped, unwrap_from, unwrap_timestamps, raw_timestamp, raws,
}

abbrev pub modulus : ℕ
modulus = 2 ^ 32

-- What the counter shows at a time.
abbrev pub shown : Option ℕ → Stamped
shown none = record { timestamp = none; start_timestamp = none; end_timestamp = none }
shown (some t) = record {
  timestamp = some (t % modulus);
  start_timestamp = none;
  end_timestamp = none;
}

abbrev pub shown_all : List (Option ℕ) → List Stamped
shown_all [] = []
shown_all (t ∷ ts) = shown t ∷ shown_all ts

abbrev pub ticks : List Stamp → List (Option ℕ)
ticks [] = []
ticks (s ∷ ss) = s.tick ∷ ticks ss

-- Times that do not fall, and that are less than half a turn of the counter apart.
abbrev pub IsPaced : ℕ → List (Option ℕ) → Type 0
IsPaced before [] = Unit {0}
IsPaced before (none ∷ ts) = IsPaced before ts
IsPaced before (some t ∷ ts) = (before ≤ t) × (2 * (t - before) < modulus) × IsPaced t ts

-- The first time is one before the counter's first wrap, and the others are paced.
abbrev pub IsRecording : List (Option ℕ) → Type 0
IsRecording [] = Unit {0}
IsRecording (none ∷ ts) = IsRecording ts
IsRecording (some t ∷ ts) = (t < modulus) × IsPaced t ts

wrap_lem :
    (before t : ℕ)
    → before ≤ t
    → 2 * (t - before) < modulus
    → (if has_wrapped modulus (some (before % modulus)) (t % modulus)
        then before / modulus + 1
        else before / modulus)
      ≡ t / modulus
unfolding has_wrapped
wrap_lem before t h k = ground arith

ticks_from :
    (before : ℕ) (ts : List (Option ℕ))
    → IsPaced before ts
    → ticks (unwrap_from modulus (some (before % modulus)) (before / modulus) (raws (shown_all ts)))
      ≡ ts
unfolding unwrap_from raw_timestamp
ticks_from before [] h = refl
ticks_from before (none ∷ ts) h = ap (none ∷◌) (ticks_from before ts h)
ticks_from before (some t ∷ ts) h =
    let whole : t % modulus + t / modulus * modulus ≡ t = omega arith in
    rw (wrap_lem before t h.0 h.1, whole) (ap (some t ∷◌) (ticks_from t ts h.2))

ticks_start :
    (ts : List (Option ℕ))
    → IsRecording ts
    → ticks (unwrap_from modulus none 0 (raws (shown_all ts))) ≡ ts
unfolding unwrap_from raw_timestamp has_wrapped
ticks_start [] h = refl
ticks_start (none ∷ ts) h = ap (none ∷◌) (ticks_start ts h)
ticks_start (some t ∷ ts) h =
    let small : t % modulus ≡ t = omega arith in
    let whole : t % modulus + 0 * modulus ≡ t = omega arith in
    let first : t / modulus ≡ 0 = omega arith in
    rw whole (
      ap (some t ∷◌) (
        ap (λ w. ticks (unwrap_from modulus (some (t % modulus)) w (raws (shown_all ts))))
          (sym first)
        ∙ ticks_from t ts h.1))

-- When the first time is less than a turn of the 32-bit counter, and no time falls or lies half a turn
-- or more behind the one before, the times are found again from what the counter shows, and a
-- record without a timestamp stays without one.
pub unwrap_timestamps-shown :
    (ts : List (Option ℕ)) → IsRecording ts → ticks (unwrap_timestamps (shown_all ts) modulus) ≡ ts
unfolding unwrap_timestamps
unwrap_timestamps-shown ts h = ticks_start ts h
