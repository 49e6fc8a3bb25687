-- ===== src/Page/TraceView/Averages.antt =====
-- The counts above the timeline (`renderTrace` of tools/viewer/web/app.js).
use native.Mathlib.Nat.{div-lt_iff_lt-mul, suc-mul}
use open_fpgastudio.Base.{ℕ, ◌+◌, ◌*◌, ◌/◌, ◌≤◌, ◌<◌, ◌≡◌, some, List, [], ◌∷◌, arith, length}
use open_fpgastudio.Page.TraceView.{sum, largest, average_duration, max_duration}

sum-le : (ds : List ℕ) (m : ℕ) → largest ds ≤ m → sum ds ≤ length ds * m
unfolding sum largest
sum-le [] m h = omega arith
sum-le (d ∷ ds) m h =
    let rest : sum ds ≤ length ds * m = sum-le ds m (omega arith) in
    rw (suc-mul (length ds) m) (omega arith)

-- Rounding to the nearest number does not pass a whole number.
rounded_le : (total n m : ℕ) → 0 < n → total ≤ n * m → (2 * total + n) / (2 * n) ≤ m
rounded_le total n m positive h =
    let wide : 0 < 2 * n = omega arith in
    let goal : 2 * total + n < (m + 1) * (2 * n) = grind arith in
    let below : (2 * total + n) / (2 * n) < m + 1 = (div-lt_iff_lt-mul wide).1 goal in omega arith

-- The rounded average of the durations is at most the longest of them.
pub average_duration-le :
    (ds : List ℕ) (a m : ℕ) → average_duration ds ≡ some a → max_duration ds ≡ some m → a ≤ m
unfolding average_duration max_duration
average_duration-le [] a m average longest = cc
average_duration-le (d ∷ ds) a m average longest =
    let bound =
      rounded_le (sum (d ∷ ds)) (length (d ∷ ds)) (largest (d ∷ ds)) (omega arith)
        (sum-le (d ∷ ds) (largest (d ∷ ds)) (omega arith)) in
    grind arith
