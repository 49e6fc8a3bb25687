-- ===== src/Bridge/Rounds.antt =====
-- The rounds of the loop in `consumeBridgeBytes` (tools/viewer/web/app.js).
use open_fpgastudio.Base.{
  ℕ, zero, suc, ◌+◌, ◌≤◌, ◌≡◌, ◌⊎◌, inl, inr, refl, ap, ◌∙◌, Bool, true, false, List, ◌++◌, length,
  arith, take, drop, ltb, get_or-append_lt, length-append,
}
use open_fpgastudio.Wire.{byte_at, u32}
use open_fpgastudio.Bridge.{
  Json, Bridge, Outcome, returned, thrown, max_record, consume_bridge_record, consume_loop,
}

-- What a round finds at the start of the buffer: too little, a length that is too large, or a record
-- with so many bytes of payload.
pub data Round : Type 0 where
  waits too_large : Round
  holds : ℕ → Round

-- The round, from the three tests and the length of the payload.
unfoldable round_by : Bool → Bool → Bool → ℕ → Round
round_by true large short n = waits
round_by false true short n = too_large
round_by false false true n = waits
round_by false false false n = holds n

unfoldable pub round_of : List ℕ → Round
unfolding round_by
round_of rest =
    round_by (ltb (length rest) 5) (ltb max_record (u32 rest 1))
      (ltb (length rest) (5 + u32 rest 1)) (u32 rest 1)

or_zero : Round → ℕ
or_zero (holds n) = n
or_zero _ = 0

holds_cases :
    (few large short : Bool) (m n : ℕ)
    → round_by few large short m ≡ holds n
    → (few ≡ false) × (large ≡ false) × (short ≡ false) × (m ≡ n)
unfolding round_by or_zero
holds_cases true large short m n h = cc
holds_cases false true short m n h = cc
holds_cases false false true m n h = cc
holds_cases false false false m n h = (refl, refl, refl, ap or_zero h)

too_large_cases :
    (few large short : Bool) (m : ℕ)
    → round_by few large short m ≡ too_large
    → (few ≡ false) × (large ≡ true)
unfolding round_by
too_large_cases true large short m h = cc
too_large_cases false true short m h = (refl, refl)
too_large_cases false false true m h = cc
too_large_cases false false false m h = cc

waits_cases :
    (few large short : Bool) (m : ℕ)
    → round_by few large short m ≡ waits
    → (few ≡ true) ⊎ ((few ≡ false) × (large ≡ false) × (short ≡ true))
unfolding round_by
waits_cases true large short m h = inl refl
waits_cases false true short m h = cc
waits_cases false false true m h = inr (refl, refl, refl)
waits_cases false false false m h = cc

-- The tests of a record that is there.
pub holds_lem :
    (rest : List ℕ) (n : ℕ)
    → round_of rest ≡ holds n
    → (5 + n ≤ length rest) × (n ≤ max_record) × (u32 rest 1 ≡ n)
unfolding round_of
holds_lem rest n h =
    let tests =
      holds_cases (ltb (length rest) 5) (ltb max_record (u32 rest 1))
        (ltb (length rest) (5 + u32 rest 1)) (u32 rest 1) n h in
    let enough : ltb (length rest) (5 + u32 rest 1) ≡ false = tests.2 in
    let small : ltb max_record (u32 rest 1) ≡ false = tests.1 in
    let same : u32 rest 1 ≡ n = tests.3 in (ground arith, ground arith, same)

u32-append : (xs ys : List ℕ) → 5 ≤ length xs → u32 (xs ++ ys) 1 ≡ u32 xs 1
unfolding u32
u32-append xs ys h = rw (
  get_or-append_lt xs ys 1 0 (omega arith),
  get_or-append_lt xs ys 2 0 (omega arith),
  get_or-append_lt xs ys 3 0 (omega arith),
  get_or-append_lt xs ys 4 0 (omega arith),
)

-- What follows a record does not matter.
pub holds-append : (xs ys : List ℕ) (n : ℕ) → round_of xs ≡ holds n → round_of (xs ++ ys) ≡ holds n
unfolding round_of round_by
holds-append xs ys n h =
    let (long, small, size) = holds_lem xs n h in
    let longer = length-append xs ys in
    let same : u32 (xs ++ ys) 1 ≡ n = u32-append xs ys (omega arith) ∙ size in
    let few : ltb (length (xs ++ ys)) 5 ≡ false = ground arith in
    let large : ltb max_record n ≡ false = ground arith in
    let short : ltb (length (xs ++ ys)) (5 + n) ≡ false = ground arith in
    rw (same, few, large, short)

pub too_large-append : (xs ys : List ℕ) → round_of xs ≡ too_large → round_of (xs ++ ys) ≡ too_large
unfolding round_of round_by
too_large-append xs ys h =
    let tests =
      too_large_cases (ltb (length xs) 5) (ltb max_record (u32 xs 1))
        (ltb (length xs) (5 + u32 xs 1)) (u32 xs 1) h in
    let enough : ltb (length xs) 5 ≡ false = tests.0 in
    let longer = length-append xs ys in
    let long : 5 ≤ length xs = ground arith in
    let few : ltb (length (xs ++ ys)) 5 ≡ false = ground arith in
    rw (u32-append xs ys long, few, tests.1)

module _ (j : Json) where
  pub loop_waits :
      (f : ℕ) (rest : List ℕ) (b : Bridge j)
      → round_of rest ≡ waits
      → consume_loop j f rest b ≡ ((b, returned), rest)
  unfolding consume_loop round_of
  loop_waits zero rest b h = refl
  loop_waits (suc f) rest b h = elim (waits_cases _ _ _ (u32 rest 1) h) [
    | inl few ↦ rw few
    | inr (few, large, short) ↦ rw (few, large, short)
  ]

  pub loop_too_large :
      (f : ℕ) (rest : List ℕ) (b : Bridge j)
      → round_of rest ≡ too_large
      → consume_loop j (suc f) rest b ≡ ((b, thrown), rest)
  unfolding consume_loop round_of
  loop_too_large f rest b h =
      let tests = too_large_cases _ _ _ (u32 rest 1) h in rw (tests.0, tests.1)

  -- The record that a round hands on.
  abbrev pub handed : ℕ → List ℕ → Bridge j → Bridge j × Outcome
  handed n rest b = consume_bridge_record j (byte_at rest 0) (take n (drop 5 rest)) b

  -- After the record: on with the loop, or not.
  abbrev pub go_on : ℕ → List ℕ → List ℕ → Bridge j × Outcome → (Bridge j × Outcome) × List ℕ
  go_on f rest next (d, thrown) = ((d, thrown), rest)
  go_on f rest next (d, returned) = consume_loop j f next d

  go_on_lem :
      (f : ℕ) (rest next : List ℕ) (x : Bridge j × Outcome)
      → (elim x.1 as (λ o. (Bridge j × Outcome) × List ℕ) [
        | thrown ↦ (x, rest)
        | returned ↦ consume_loop j f next x.0
      ])
        ≡ go_on f rest next x
  go_on_lem f rest next (d, thrown) = refl
  go_on_lem f rest next (d, returned) = refl

  pub loop_holds :
      (f n : ℕ) (rest : List ℕ) (b : Bridge j)
      → round_of rest ≡ holds n
      → consume_loop j (suc f) rest b ≡ go_on f rest (drop (5 + n) rest) (handed n rest b)
  unfolding consume_loop round_of
  loop_holds f n rest b h =
      let (few, large, short, same) = holds_cases _ _ _ (u32 rest 1) n h in
      rw (few, large, short)
        (go_on_lem f rest (drop (5 + u32 rest 1) rest) (handed (u32 rest 1) rest b)
          ∙ ap (λ k. go_on f rest (drop (5 + k) rest) (handed k rest b)) same)
