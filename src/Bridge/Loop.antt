-- ===== src/Bridge/Loop.antt =====
-- The loop of `consumeBridgeBytes` (tools/viewer/web/app.js): its fuel, and bytes that come later.
use open_fpgastudio.Base.{
  ℕ, zero, suc, ◌+◌, ◌≤◌, ◌≡◌, refl, sym, ap, ◌∙◌, List, [], ◌∷◌, ◌++◌, length, arith, take, drop,
  get_or-append_lt, length-drop, length-append, drop-append, take-append,
}
use open_fpgastudio.Wire.{byte_at}
use open_fpgastudio.Bridge.{
  Json, Bridge, Outcome, returned, thrown, consume_bridge_record, consume_loop,
}
use open_fpgastudio.Bridge.Rounds.{
  Round, waits, too_large, holds, round_of, holds_lem, holds-append, too_large-append, loop_waits,
  loop_too_large, handed, go_on, loop_holds,
}
use open_fpgastudio.Bridge.Rest.{loop_zero}

-- A record's bytes are the same, whatever follows.
take-drop-append :
    (xs ys : List ℕ) (n : ℕ) → 5 + n ≤ length xs → take n (drop 5 (xs ++ ys)) ≡ take n (drop 5 xs)
take-drop-append xs ys n h =
    rw (drop-append 5 xs ys (omega arith))
      (take-append n (drop 5 xs) ys (omega (arith, length-drop 5 xs)))

module _ {j : Json} where
  -- On with the loop when more bytes have come.
  abbrev pub resume : ℕ → List ℕ → (Bridge j × Outcome) × List ℕ → (Bridge j × Outcome) × List ℕ
  resume f more ((d, returned), rest) = consume_loop j f (rest ++ more) d
  resume f more ((d, thrown), rest) = ((d, thrown), rest ++ more)

module _ (j : Json) where
  drop_shorter :
      (n f : ℕ) (now : List ℕ)
      → 5 + n ≤ length now
      → length now ≤ suc f
      → length (drop (5 + n) now) ≤ f
  drop_shorter n f now h k = omega (arith, length-drop (5 + n) now)

  go_on_fuel :
      (f g : ℕ) (now next : List ℕ) (x : Bridge j × Outcome)
      (law : (d : Bridge j) → consume_loop j f next d ≡ consume_loop j g next d)
      → go_on j f now next x ≡ go_on j g now next x
  go_on_fuel f g now next (d, thrown) law = refl
  go_on_fuel f g now next (d, returned) law = law d

  no_bytes : round_of [] ≡ waits
  unfolding round_of
  no_bytes = refl

  round_fuel :
      (f g : ℕ) (now : List ℕ) (b : Bridge j)
      (law : (n : ℕ)
        → round_of now ≡ holds n
        → (d : Bridge j)
        → consume_loop j f (drop (5 + n) now) d ≡ consume_loop j g (drop (5 + n) now) d)
      (r : Round)
      → round_of now ≡ r
      → consume_loop j (suc f) now b ≡ consume_loop j (suc g) now b
  round_fuel f g now b law waits e =
      loop_waits j (suc f) now b e ∙ sym (loop_waits j (suc g) now b e)
  round_fuel f g now b law too_large e =
      loop_too_large j f now b e ∙ sym (loop_too_large j g now b e)
  round_fuel f g now b law (holds n) e =
      loop_holds j f n now b e
      ∙ go_on_fuel f g now (drop (5 + n) now) (handed j n now b) (law n e)
      ∙ sym (loop_holds j g n now b e)

  -- More fuel than the length of the buffer changes nothing.
  pub loop_fuel :
      (f g : ℕ) (now : List ℕ) (b : Bridge j)
      → length now ≤ f
      → length now ≤ g
      → consume_loop j f now b ≡ consume_loop j g now b
  loop_fuel zero g [] b h k = loop_waits j zero [] b no_bytes ∙ sym (loop_waits j g [] b no_bytes)
  loop_fuel zero g (x ∷ now) b h k = absurd (omega arith)
  loop_fuel (suc f) zero [] b h k =
      loop_waits j (suc f) [] b no_bytes ∙ sym (loop_waits j zero [] b no_bytes)
  loop_fuel (suc f) zero (x ∷ now) b h k = absurd (omega arith)
  loop_fuel (suc f) (suc g) now b h k =
      round_fuel f g now b
        (λ n e d.
          loop_fuel f g (drop (5 + n) now) d (drop_shorter n f now (holds_lem now n e).0 h)
            (drop_shorter n g now (holds_lem now n e).0 k))
        (round_of now) refl

  go_on-left :
      (f : ℕ) (now next : List ℕ) (x : Bridge j × Outcome)
      (law : (d : Bridge j) → length (consume_loop j f next d).1 ≤ length next)
      → length next ≤ length now
      → length (go_on j f now next x).1 ≤ length now
  go_on-left f now next (d, thrown) law h = omega arith
  go_on-left f now next (d, returned) law h = omega (arith, law d)

  round-left :
      (f : ℕ) (now : List ℕ) (b : Bridge j)
      (law : (next : List ℕ) (d : Bridge j) → length (consume_loop j f next d).1 ≤ length next)
      (r : Round)
      → round_of now ≡ r
      → length (consume_loop j (suc f) now b).1 ≤ length now
  round-left f now b law waits e = rw (loop_waits j (suc f) now b e) (omega arith)
  round-left f now b law too_large e = rw (loop_too_large j f now b e) (omega arith)
  round-left f now b law (holds n) e = rw (loop_holds j f n now b e) (
      go_on-left f now (drop (5 + n) now) (handed j n now b) (law (drop (5 + n) now))
        (omega (arith, length-drop (5 + n) now)))

  -- What is left is no longer than the buffer was.
  pub left_le :
      (f : ℕ) (now : List ℕ) (b : Bridge j) → length (consume_loop j f now b).1 ≤ length now
  left_le zero now b = rw (loop_zero j now b) (omega arith)
  left_le (suc f) now b = round-left f now b (λ next d. left_le f next d) (round_of now) refl

  resume_fuel :
      (f g : ℕ) (more : List ℕ) (x : (Bridge j × Outcome) × List ℕ)
      → length (x.1 ++ more) ≤ f
      → length (x.1 ++ more) ≤ g
      → resume f more x ≡ resume g more x
  resume_fuel f g more ((d, returned), rest) h k = loop_fuel f g (rest ++ more) d h k
  resume_fuel f g more ((d, thrown), rest) h k = refl

  go_on-append :
      (f : ℕ) (now next more : List ℕ) (x : Bridge j × Outcome)
      (law : (d : Bridge j)
        → consume_loop j f (next ++ more) d ≡ resume f more (consume_loop j f next d))
      → length (next ++ more) ≤ f
      → go_on j f (now ++ more) (next ++ more) x ≡ resume (suc f) more (go_on j f now next x)
  go_on-append f now next more (d, thrown) law h = refl
  go_on-append f now next more (d, returned) law h =
      let left = left_le f next d in
      let long : length ((consume_loop j f next d).1 ++ more) ≤ f =
        omega (arith, length-append next more, length-append (consume_loop j f next d).1 more) in
      law d ∙ resume_fuel f (suc f) more (consume_loop j f next d) long (omega arith)

  handed-append :
      (n : ℕ) (now more : List ℕ) (b : Bridge j)
      → 5 + n ≤ length now
      → handed j n (now ++ more) b ≡ handed j n now b
  handed-append n now more b h =
      ap (λ k. consume_bridge_record j k (take n (drop 5 (now ++ more))) b)
        (get_or-append_lt now more 0 0 (omega arith))
      ∙ ap (λ p. consume_bridge_record j (byte_at now 0) p b) (take-drop-append now more n h)

  round-append :
      (f : ℕ) (now more : List ℕ) (b : Bridge j)
      (law : (next : List ℕ) (d : Bridge j)
        → length (next ++ more) ≤ f
        → consume_loop j f (next ++ more) d ≡ resume f more (consume_loop j f next d))
      (r : Round)
      → round_of now ≡ r
      → length (now ++ more) ≤ suc f
      → consume_loop j (suc f) (now ++ more) b ≡ resume (suc f) more (consume_loop j (suc f) now b)
  round-append f now more b law waits e h =
      ap (resume (suc f) more) (sym (loop_waits j (suc f) now b e))
  round-append f now more b law too_large e h =
      loop_too_large j f (now ++ more) b (too_large-append now more e)
      ∙ ap (resume (suc f) more) (sym (loop_too_large j f now b e))
  round-append f now more b law (holds n) e h =
      let long = (holds_lem now n e).0 in
      let next : List ℕ = drop (5 + n) now in
      let short : length (next ++ more) ≤ f =
        omega (arith, length-append next more, length-append now more, length-drop (5 + n) now) in
      loop_holds j f n (now ++ more) b (holds-append now more n e)
      ∙ ap (go_on j f (now ++ more) (drop (5 + n) (now ++ more))) (handed-append n now more b long)
      ∙ ap (λ xs. go_on j f (now ++ more) xs (handed j n now b)) (drop-append (5 + n) now more long)
      ∙ go_on-append f now next more (handed j n now b) (λ d. law next d short) short
      ∙ ap (resume (suc f) more) (sym (loop_holds j f n now b e))

  pub loop-append :
      (f : ℕ) (now more : List ℕ) (b : Bridge j)
      → length (now ++ more) ≤ f
      → consume_loop j f (now ++ more) b ≡ resume f more (consume_loop j f now b)
  loop-append zero now more b h = ap (resume zero more) (sym (loop_zero j now b))
  loop-append (suc f) now more b h =
      round-append f now more b (λ next d k. loop-append f next more d k) (round_of now) refl h
