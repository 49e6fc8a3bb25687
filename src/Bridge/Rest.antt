-- ===== src/Bridge/Rest.antt =====
-- What `consumeBridgeBytes` (tools/viewer/web/app.js) keeps of the buffer is not looked at by its loop.
use open_fpgastudio.Base.{
  ℕ, zero, suc, ◌+◌, ◌≡◌, inl, inr, refl, sym, ap, ◌∙◌, Bool-cases, Option, none, some, List, take,
  drop, ◌==◌,
}
use open_fpgastudio.Wire.{byte_at}
use open_fpgastudio.Bridge.{
  Json, Bridge, Outcome, returned, thrown, with_json, consume_bridge_record, consume_loop, on_hello,
  on_status, on_session, on_error,
}
use open_fpgastudio.Bridge.Rounds.{
  Round, waits, too_large, holds, round_of, loop_waits, loop_too_large, handed, go_on, loop_holds,
}

module _ {j : Json} where
  abbrev pub with_rest : List ℕ → Bridge j → Bridge j
  with_rest rest b = record b { transport = record b.transport { record_rx = rest } }

  abbrev pub out_with : List ℕ → Bridge j × Outcome → Bridge j × Outcome
  out_with rest (b, o) = (with_rest rest b, o)

  abbrev pub loop_with : List ℕ → (Bridge j × Outcome) × List ℕ → (Bridge j × Outcome) × List ℕ
  loop_with rest (x, left) = (out_with rest x, left)

module _ (j : Json) where
  with_json-rest :
      (value : Option j.Value) (handler : j.Value → Bridge j → Bridge j)
      (law : (v : j.Value) (b : Bridge j) (rest : List ℕ)
        → handler v (with_rest rest b) ≡ with_rest rest (handler v b))
      (rest : List ℕ) (b : Bridge j)
      → with_json j value handler (with_rest rest b) ≡ out_with rest (with_json j value handler b)
  unfolding with_json
  with_json-rest none handler law rest b = refl
  with_json-rest (some v) handler law rest b = ap (λ d. (d, returned)) (law v b rest)

  hello-rest :
      (v : j.Value) (b : Bridge j) (rest : List ℕ)
      → on_hello j v (with_rest rest b) ≡ with_rest rest (on_hello j v b)
  unfolding on_hello
  hello-rest v b rest = refl

  status-rest :
      (v : j.Value) (b : Bridge j) (rest : List ℕ)
      → on_status j v (with_rest rest b) ≡ with_rest rest (on_status j v b)
  unfolding on_status
  status-rest v b rest = refl

  session-rest :
      (v : j.Value) (b : Bridge j) (rest : List ℕ)
      → on_session j v (with_rest rest b) ≡ with_rest rest (on_session j v b)
  unfolding on_session
  session-rest v b rest = refl

  error-rest :
      (v : j.Value) (b : Bridge j) (rest : List ℕ)
      → on_error j v (with_rest rest b) ≡ with_rest rest (on_error j v b)
  unfolding on_error
  error-rest v b rest = refl

  -- A record does not look at what is kept of the buffer, and leaves it as it is.
  record-rest :
      (kind : ℕ) (payload rest : List ℕ) (b : Bridge j)
      → consume_bridge_record j kind payload (with_rest rest b)
        ≡ out_with rest (consume_bridge_record j kind payload b)
  unfolding consume_bridge_record
  record-rest kind payload rest b = elim (Bool-cases (kind == 2)) [
    | inl bytes ↦ rw bytes
    | inr e ↦ elim (Bool-cases (kind == 1)) [
      | inl hello ↦ rw (e, hello) (with_json-rest (j.parse payload) (on_hello j) hello-rest rest b)
      | inr f ↦ elim (Bool-cases (kind == 3)) [
        | inl status ↦
            rw (e, f, status) (with_json-rest (j.parse payload) (on_status j) status-rest rest b)
        | inr g ↦ elim (Bool-cases (kind == 4)) [
          | inl session ↦
              rw (e, f, g, session)
                (with_json-rest (j.parse payload) (on_session j) session-rest rest b)
          | inr h ↦ elim (Bool-cases (kind == 5)) [
            | inl error ↦
                rw (e, f, g, h, error)
                  (with_json-rest (j.parse payload) (on_error j) error-rest rest b)
            | inr i ↦ rw (e, f, g, h, i)
          ]
        ]
      ]
    ]
  ]

  go_on-rest :
      (f : ℕ) (now next rest : List ℕ) (x : Bridge j × Outcome)
      (law : (b : Bridge j)
        → consume_loop j f next (with_rest rest b) ≡ loop_with rest (consume_loop j f next b))
      → go_on j f now next (out_with rest x) ≡ loop_with rest (go_on j f now next x)
  go_on-rest f now next rest (d, thrown) law = refl
  go_on-rest f now next rest (d, returned) law = law d

  pub loop_zero : (now : List ℕ) (b : Bridge j) → consume_loop j zero now b ≡ ((b, returned), now)
  unfolding consume_loop
  loop_zero now b = refl

  round-rest :
      (f : ℕ) (now rest : List ℕ) (b : Bridge j)
      (law : (next : List ℕ) (d : Bridge j)
        → consume_loop j f next (with_rest rest d) ≡ loop_with rest (consume_loop j f next d))
      (r : Round)
      → round_of now ≡ r
      → consume_loop j (suc f) now (with_rest rest b)
        ≡ loop_with rest (consume_loop j (suc f) now b)
  round-rest f now rest b law waits e =
      loop_waits j (suc f) now (with_rest rest b) e
      ∙ ap (loop_with rest) (sym (loop_waits j (suc f) now b e))
  round-rest f now rest b law too_large e =
      loop_too_large j f now (with_rest rest b) e
      ∙ ap (loop_with rest) (sym (loop_too_large j f now b e))
  round-rest f now rest b law (holds n) e =
      loop_holds j f n now (with_rest rest b) e
      ∙ ap (go_on j f now (drop (5 + n) now))
          (record-rest (byte_at now 0) (take n (drop 5 now)) rest b)
      ∙ go_on-rest f now (drop (5 + n) now) rest (handed j n now b) (law (drop (5 + n) now))
      ∙ ap (loop_with rest) (sym (loop_holds j f n now b e))

  -- The loop does not look at what is kept of the buffer either.
  pub loop-rest :
      (f : ℕ) (now rest : List ℕ) (b : Bridge j)
      → consume_loop j f now (with_rest rest b) ≡ loop_with rest (consume_loop j f now b)
  loop-rest zero now rest b =
      loop_zero now (with_rest rest b) ∙ ap (loop_with rest) (sym (loop_zero now b))
  loop-rest (suc f) now rest b =
      round-rest f now rest b (λ next d. loop-rest f next rest d) (round_of now) refl
