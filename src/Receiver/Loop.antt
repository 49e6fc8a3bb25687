-- ===== src/Receiver/Loop.antt =====
-- The loop of `parseAvailableFrames`: its fuel is enough, and it runs until nothing can be cut off.
use open_fpgastudio.Base.{
  ℕ, zero, suc, ◌≤◌, ◌<◌, ◌≡◌, ◌≢◌, refl, sym, ap, ◌∙◌, ◌⊎◌, inl, inr, arith, length,
}
use open_fpgastudio.Receiver.{
  Receiver, Found, incomplete, no_frame, bad_frame, whole_frame, scan, drop_byte, reject, accept,
  parse_loop,
}
use open_fpgastudio.Receiver.Scan.{Shrinks, scan-Shrinks}

-- One round that found something.
abbrev pub advance : Found → Receiver → Receiver
advance incomplete s = s
advance (no_frame rest) s = drop_byte rest s
advance (bad_frame rest) s = reject rest s
advance (whole_frame raw rest) s = accept raw rest s

pub advance-length :
    (k : Found) (s : Receiver) (n : ℕ) → k ≢ incomplete → Shrinks n k → length (advance k s).rx < n
unfolding drop_byte reject accept
advance-length incomplete s n h sh = absurd (h refl)
advance-length (no_frame rest) s n h sh = sh
advance-length (bad_frame rest) s n h sh = sh
advance-length (whole_frame raw rest) s n h sh = sh

pub Found-cases : (k : Found) → (k ≡ incomplete) ⊎ (k ≢ incomplete)
Found-cases incomplete = inl refl
Found-cases (no_frame rest) = inr (λ e. cc)
Found-cases (bad_frame rest) = inr (λ e. cc)
Found-cases (whole_frame raw rest) = inr (λ e. cc)

loop-stop : (f : ℕ) (s : Receiver) → scan s.rx ≡ incomplete → parse_loop f s ≡ s
unfolding parse_loop
loop-stop zero s h = refl
loop-stop (suc f) s h = rw (h, parse_loop)

loop-go :
    (f : ℕ) (s : Receiver)
    → scan s.rx ≢ incomplete
    → parse_loop (suc f) s ≡ parse_loop f (advance (scan s.rx) s)
unfolding parse_loop
loop-go f s h = ground arith

shorter : (s : Receiver) → scan s.rx ≢ incomplete → length (advance (scan s.rx) s).rx < length s.rx
shorter s h = advance-length (scan s.rx) s (length s.rx) h (scan-Shrinks s.rx)

-- All fuel that is at least the length of the buffer has the same effect.
parse_loop_fuel :
    (f g : ℕ) (s : Receiver) → length s.rx ≤ f → length s.rx ≤ g → parse_loop f s ≡ parse_loop g s
parse_loop_fuel zero zero s hf hg = refl
parse_loop_fuel zero (suc g) s hf hg = elim (Found-cases (scan s.rx)) [
  | inl stop ↦ loop-stop zero s stop ∙ sym (loop-stop (suc g) s stop)
  | inr go ↦ absurd (omega (arith, shorter s go))
]
parse_loop_fuel (suc f) zero s hf hg = elim (Found-cases (scan s.rx)) [
  | inl stop ↦ loop-stop (suc f) s stop ∙ sym (loop-stop zero s stop)
  | inr go ↦ absurd (omega (arith, shorter s go))
]
parse_loop_fuel (suc f) (suc g) s hf hg = elim (Found-cases (scan s.rx)) [
  | inl stop ↦ loop-stop (suc f) s stop ∙ sym (loop-stop (suc g) s stop)
  | inr go ↦
      let less : length (advance (scan s.rx) s).rx < length s.rx = shorter s go in
      loop-go f s go
      ∙ parse_loop_fuel f g (advance (scan s.rx) s) (omega arith) (omega arith)
      ∙ sym (loop-go g s go)
]

-- The loop with the fuel that the parser gives it.
abbrev pub parse : Receiver → Receiver
parse s = parse_loop (length s.rx) s

pub parse-stop : (s : Receiver) → scan s.rx ≡ incomplete → parse s ≡ s
parse-stop s = loop-stop (length s.rx) s

pub parse-go : (s : Receiver) → scan s.rx ≢ incomplete → parse s ≡ parse (advance (scan s.rx) s)
parse-go s h =
    let less : length (advance (scan s.rx) s).rx < length s.rx = shorter s h in
    parse_loop_fuel (length s.rx) (suc (length s.rx)) s (omega arith) (omega arith)
    ∙ loop-go (length s.rx) s h
    ∙ parse_loop_fuel _ _ (advance (scan s.rx) s) (omega arith) (omega arith)

-- Induction over the rounds of the loop.
module _ {ℓ} (P : Receiver → Type ℓ) (stop : (s : Receiver) → scan s.rx ≡ incomplete → P s)
    (go : (s : Receiver) → scan s.rx ≢ incomplete → P (advance (scan s.rx) s) → P s) where
  rounds : (n : ℕ) (s : Receiver) → length s.rx < n → P s
  rounds zero s h = absurd (omega arith)
  rounds (suc n) s h = elim (Found-cases (scan s.rx)) [
    | inl e ↦ stop s e
    | inr e ↦ go s e (rounds n (advance (scan s.rx) s) (omega (arith, shorter s e)))
  ]

  pub parse_induction : (s : Receiver) → P s
  parse_induction s = rounds (suc (length s.rx)) s (omega arith)

pub scan-parse : (s : Receiver) → scan (parse s).rx ≡ incomplete
scan-parse =
    parse_induction (λ s. scan (parse s).rx ≡ incomplete)
      (λ s e. ap (λ t. scan t.rx) (parse-stop s e) ∙ e)
      (λ s e ih. ap (λ t. scan t.rx) (parse-go s e) ∙ ih)

-- With any fuel that is at least the length of the buffer, the loop ends in one and the same state, in
-- which nothing can be cut off the buffer.
pub parse_loop_ends :
    (fuel : ℕ) (s : Receiver)
    → length s.rx ≤ fuel
    → (parse_loop fuel s ≡ parse_loop (length s.rx) s) × (scan (parse_loop fuel s).rx ≡ incomplete)
parse_loop_ends fuel s h =
    let same : parse_loop fuel s ≡ parse s = parse_loop_fuel fuel (length s.rx) s h (omega arith) in
    (same, ap (λ t. scan t.rx) same ∙ scan-parse s)
