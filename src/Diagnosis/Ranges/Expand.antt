-- ===== src/Diagnosis/Ranges/Expand.antt =====
-- The ranges of a sample summary stand for the samples (`summarizeEvidence` of
-- tools/viewer/web/ai_provider.js).
use open_fpgastudio.Base.{
  ℕ, zero, suc, ◌+◌, ◌-◌, ◌≤◌, ◌<◌, ◌≡◌, ◌↔◌, refl, sym, ap, ◌∙◌, true, false, Bool-cases, inl, inr,
  ◌&&◌, Option, none, some, List, [], ◌∷◌, ◌++◌, length, drop, replicate, arith, ltb, ◌==◌, ==_iff,
  length-append, length-drop, append-nil, append_assoc,
}
use open_fpgastudio.Diagnosis.Ranges.{
  same_sample, Range, run_length, ranges, max_ranges, last_end, SampleSummary, sample_summary,
}

-- The samples that ranges stand for.
abbrev pub expand : List Range → List (Option ℕ)
expand [] = []
expand (r ∷ rs) = replicate (suc r.end_sample - r.start_sample) r.value ++ expand rs

same_eq : (a b : Option ℕ) → same_sample a b ≡ true → a ≡ b
same_eq none none h = refl
same_eq (some a) (some b) h = ap some ((==_iff a b).0 h)
same_eq none (some b) h = cc
same_eq (some a) none h = cc

-- The run is a run.
run_lem :
    (v : Option ℕ) (xs : List (Option ℕ))
    → replicate (run_length v xs) v ++ drop (run_length v xs) xs ≡ xs
unfolding run_length
run_lem v [] = refl
run_lem v (x ∷ xs) = elim (Bool-cases (same_sample x v)) [
  | inl e ↦ rw (e, same_eq x v e) (ap (v ∷◌) (run_lem v xs))
  | inr e ↦ rw e
]

-- What the ranges leave of the samples.
abbrev left_over : ℕ → List (Option ℕ) → List (Option ℕ)
left_over zero xs = xs
left_over (suc n) [] = []
left_over (suc n) (x ∷ xs) = left_over n (drop (run_length x xs) xs)

expand_ranges :
    (n start : ℕ) (xs : List (Option ℕ)) → expand (ranges n start xs) ++ left_over n xs ≡ xs
unfolding ranges
expand_ranges zero start xs = refl
expand_ranges (suc n) start [] = refl
expand_ranges (suc n) start (x ∷ xs) =
    let equal : ℕ = run_length x xs in
    let size : suc (start + equal) - start ≡ suc equal = omega arith in
    let rest : List (Option ℕ) = left_over n (drop equal xs) in
    let later : List (Option ℕ) = expand (ranges n (start + equal + 1) (drop equal xs)) in
    rw size (
      ap (x ∷◌) (
        append_assoc (replicate equal x) later rest
        ∙ ap (replicate equal x ++◌) (expand_ranges n (start + equal + 1) (drop equal xs))
        ∙ run_lem x xs))

run_length-le : (v : Option ℕ) (xs : List (Option ℕ)) → run_length v xs ≤ length xs
unfolding run_length
run_length-le v [] = omega arith
run_length-le v (x ∷ xs) = ground (arith, run_length-le v xs)

length-ranges-le : (n start : ℕ) (xs : List (Option ℕ)) → length (ranges n start xs) ≤ n
unfolding ranges
length-ranges-le zero start xs = omega arith
length-ranges-le (suc n) start [] = omega arith
length-ranges-le (suc n) start (x ∷ xs) =
    let equal : ℕ = run_length x xs in
    omega (arith, length-ranges-le n (start + equal + 1) (drop equal xs))

-- With ranges to spare nothing is left over.
spare : (n start : ℕ) (xs : List (Option ℕ)) → length (ranges n start xs) < n → left_over n xs ≡ []
unfolding ranges
spare zero start xs h = absurd (omega arith)
spare (suc n) start [] h = refl
spare (suc n) start (x ∷ xs) h =
    let equal : ℕ = run_length x xs in spare n (start + equal + 1) (drop equal xs) (omega arith)

-- Behind the last range stands what is left over.
last_lem :
    (n b : ℕ) (xs : List (Option ℕ))
    → last_end b (ranges n (b + 1) xs) + 1 + length (left_over n xs) ≡ b + 1 + length xs
unfolding ranges last_end
last_lem zero b xs = refl
last_lem (suc n) b [] = refl
last_lem (suc n) b (x ∷ xs) =
    let equal : ℕ = run_length x xs in
    omega
      (arith, last_lem n (b + 1 + equal) (drop equal xs), run_length-le x xs, length-drop equal xs)

length-left_over :
    (samples : List (Option ℕ))
    → 0 < length samples
    → last_end 0 (ranges max_ranges 0 samples) + 1 + length (left_over max_ranges samples)
      ≡ length samples
unfolding ranges last_end
length-left_over [] h = absurd (omega arith)
length-left_over (x ∷ xs) h =
    let equal : ℕ = run_length x xs in
    omega (arith, last_lem 63 (0 + equal) (drop equal xs), run_length-le x xs, length-drop equal xs)

nothing_left : (xs ys : List (Option ℕ)) → xs ++ ys ≡ xs → length ys ≡ 0
nothing_left xs ys e = omega (arith, ap length e, length-append xs ys)

no_length : (xs : List (Option ℕ)) → length xs ≡ 0 → xs ≡ []
no_length [] h = refl
no_length (x ∷ xs) h = absurd (omega arith)

-- The test on the numbers alone.
mark_lem :
    (n last size left : ℕ)
    → n ≤ max_ranges
    → last + 1 + left ≡ size
    → (n < max_ranges → left ≡ 0)
    → ((n == max_ranges && ltb last (size - 1)) ≡ false) ↔ (left ≡ 0)
mark_lem n last size left most total room = elim (Bool-cases (n == max_ranges)) [
  | inl full ↦ rw full (λ e. ground arith, λ e. ground arith)
  | inr free ↦ rw free (λ e. room (ground arith), λ e. refl)
]

-- The summary is truncated exactly when something is left over.
truncated_lem :
    (samples : List (Option ℕ))
    → 0 < length samples
    → ((sample_summary samples).truncated ≡ false) ↔ (length (left_over max_ranges samples) ≡ 0)
unfolding sample_summary
truncated_lem samples h =
    mark_lem _ _ _ _ (length-ranges-le max_ranges 0 samples) (length-left_over samples h)
      (λ k. ap length (spare max_ranges 0 samples k))

abbrev IsFaithful : List (Option ℕ) → SampleSummary → Type 0
IsFaithful samples s =
    (length s.ranges ≤ max_ranges) × ((s.truncated ≡ false) ↔ (expand s.ranges ≡ samples))

empty_lem : IsFaithful [] (sample_summary [])
unfolding sample_summary ranges
empty_lem = (omega arith, (λ h. refl, λ h. refl))

-- The summary of a capture's samples has 64 ranges at most, and it is marked as truncated exactly when
-- its ranges, written out, are not the samples.
pub sample_summary-expand :
    (samples : List (Option ℕ))
    → (length (sample_summary samples).ranges ≤ max_ranges)
      × (((sample_summary samples).truncated ≡ false)
          ↔ (expand (sample_summary samples).ranges ≡ samples))
unfolding sample_summary
sample_summary-expand [] = empty_lem
sample_summary-expand (x ∷ xs) =
    let samples : List (Option ℕ) = x ∷ xs in
    let found : List Range = ranges max_ranges 0 samples in
    let whole : expand found ++ left_over max_ranges samples ≡ samples =
      expand_ranges max_ranges 0 samples in
    let marked = truncated_lem samples (omega arith) in
    (
      length-ranges-le max_ranges 0 samples,
      (
        λ h.
            sym (append-nil (expand found))
            ∙ ap (expand found ++◌) (sym (no_length _ (marked.0 h)))
            ∙ whole,
        λ h. marked.1 (nothing_left (expand found) _ (whole ∙ sym h)),
      ),
    )
