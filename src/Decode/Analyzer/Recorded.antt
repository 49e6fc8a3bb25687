-- ===== src/Decode/Analyzer/Recorded.antt =====
-- What the sample loop of `decodeLogicAnalyzerSampleData` in tools/viewer/web/app.js does to samples
-- that are already recorded: nothing.
use open_fpgastudio.Base.{
  ℕ, zero, suc, ◌+◌, ◌*◌, ◌-◌, ◌≤◌, ◌≡◌, refl, true, false, replicate, Bool-cases, inl, inr, Option,
  none, some, List, [], ◌∷◌, ◌++◌, length, arith, get_or, set, take, length-append, length-set,
  take-append, is_some,
}
use open_fpgastudio.Decode.Analyzer.Samples.{
  Fill, grow, store_sample, fill_samples, all_present, le_value,
}

append_recorded :
    (xs ys : List (Option ℕ)) (j x : ℕ)
    → get_or xs j none ≡ some x
    → get_or (xs ++ ys) j none ≡ some x
append_recorded [] ys j x h = cc
append_recorded (v ∷ xs) ys zero x h = h
append_recorded (v ∷ xs) ys (suc j) x h = append_recorded xs ys j x h

set_recorded :
    (xs : List (Option ℕ)) (i j x : ℕ) (v : Option ℕ)
    → is_some (get_or xs i none) ≡ false
    → get_or xs j none ≡ some x
    → get_or (set xs i v) j none ≡ some x
set_recorded [] i j x v free h = cc
set_recorded (y ∷ xs) zero zero x v free h = cc
set_recorded (y ∷ xs) zero (suc j) x v free h = h
set_recorded (y ∷ xs) (suc i) zero x v free h = h
set_recorded (y ∷ xs) (suc i) (suc j) x v free h = set_recorded xs i j x v free h

store_recorded :
    (i value j x : ℕ) (f : Fill)
    → get_or f.samples j none ≡ some x
    → get_or (store_sample i value f).samples j none ≡ some x
unfolding store_sample grow
store_recorded i value j x f h = elim (Bool-cases (is_some (get_or (grow i f.samples) i none))) [
  | inl e ↦ rw e (append_recorded f.samples _ j x h)
  | inr e ↦ rw e (set_recorded (grow i f.samples) i j x _ e (append_recorded f.samples _ j x h))
]

-- A recorded sample is as it was after the samples of a chunk are stored, wherever these go.
pub fill_recorded :
    (p : List ℕ) (size first i n j x : ℕ) (f : Fill)
    → get_or f.samples j none ≡ some x
    → get_or (fill_samples p size first i n f).samples j none ≡ some x
unfolding fill_samples
fill_recorded p size first i zero j x f h = h
fill_recorded p size first i (suc n) j x f h =
    let value : ℕ = le_value p (12 + i * size) 0 size 0 in
    fill_recorded p size first (i + 1) n j x (store_sample (first + i) value f)
      (store_recorded (first + i) value j x f h)

-- So many samples from the first on are there.
abbrev pub IsFull : ℕ → List (Option ℕ) → Type 0
IsFull n xs = (n ≤ length xs) × (all_present (take n xs) ≡ true)

append-IsFull : (n : ℕ) (xs ys : List (Option ℕ)) → IsFull n xs → IsFull n (xs ++ ys)
append-IsFull n xs ys h =
    (omega (arith, h.0, length-append xs ys), rw (take-append n xs ys h.0) h.1)

set_present :
    (n i value : ℕ) (xs : List (Option ℕ))
    → all_present (take n xs) ≡ true
    → all_present (take n (set xs i (some value))) ≡ true
unfolding all_present
set_present zero i value xs h = refl
set_present (suc n) i value [] h = refl
set_present (suc n) zero value (y ∷ xs) h = ground arith
set_present (suc n) (suc i) value (y ∷ xs) h = ground (arith, set_present n i value xs)

set-IsFull : (n i value : ℕ) (xs : List (Option ℕ)) → IsFull n xs → IsFull n (set xs i (some value))
set-IsFull n i value xs h =
    (omega (arith, h.0, length-set xs i (some value)), set_present n i value xs h.1)

store-IsFull :
    (n i value : ℕ) (f : Fill) → IsFull n f.samples → IsFull n (store_sample i value f).samples
unfolding store_sample grow
store-IsFull n i value f h = elim (Bool-cases (is_some (get_or (grow i f.samples) i none))) [
  | inl e ↦ rw e (append-IsFull n f.samples _ h)
  | inr e ↦ rw e (set-IsFull n i value (grow i f.samples) (append-IsFull n f.samples _ h))
]

-- Samples that are there stay there.
pub fill-IsFull :
    (p : List ℕ) (size first i m n : ℕ) (f : Fill)
    → IsFull n f.samples
    → IsFull n (fill_samples p size first i m f).samples
unfolding fill_samples
fill-IsFull p size first i zero n f h = h
fill-IsFull p size first i (suc m) n f h =
    let value : ℕ = le_value p (12 + i * size) 0 size 0 in
    fill-IsFull p size first (i + 1) m n (store_sample (first + i) value f)
      (store-IsFull n (first + i) value f h)

store_room :
    (n i value : ℕ) (f : Fill) → n ≤ length f.samples → n ≤ length (store_sample i value f).samples
unfolding store_sample grow
store_room n i value f h = elim (Bool-cases (is_some (get_or (grow i f.samples) i none))) [
  | inl e ↦
      rw e (omega (arith, length-append f.samples (replicate (suc i - length f.samples) none)))
  | inr e ↦ rw e (
      omega (
        arith,
        length-set (grow i f.samples) i (some value),
        length-append f.samples (replicate (suc i - length f.samples) none),
      ))
]

-- The samples of a capture do not get fewer.
pub fill_room :
    (p : List ℕ) (size first i m n : ℕ) (f : Fill)
    → n ≤ length f.samples
    → n ≤ length (fill_samples p size first i m f).samples
unfolding fill_samples
fill_room p size first i zero n f h = h
fill_room p size first i (suc m) n f h =
    let value : ℕ = le_value p (12 + i * size) 0 size 0 in
    fill_room p size first (i + 1) m n (store_sample (first + i) value f)
      (store_room n (first + i) value f h)
