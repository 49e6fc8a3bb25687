-- ===== src/Bridge/Pieces.antt =====
-- The bridge's bytes may come in pieces of any size (`consumeBridgeBytes` of tools/viewer/web/app.js).
use open_fpgastudio.Base.{
  ℕ, ◌≤◌, ◌≡◌, refl, sym, ap, ◌∙◌, List, ◌++◌, length, arith, length-append, append_assoc,
}
use open_fpgastudio.Bridge.{
  Json, Bridge, Outcome, returned, thrown, consume_loop, keep_rest, consume_bridge_bytes,
}
use open_fpgastudio.Bridge.Rest.{with_rest, loop_with, loop-rest}
use open_fpgastudio.Bridge.Loop.{loop_fuel, left_le, resume, loop-append}

module _ (j : Json) where
  -- What is kept of the buffer at first makes no difference, when nothing is thrown.
  keep_same :
      (m n : List ℕ) (x : (Bridge j × Outcome) × List ℕ)
      → x.0.1 ≡ returned
      → keep_rest j (loop_with m x) m ≡ keep_rest j (loop_with n x) n
  unfolding keep_rest
  keep_same m n ((d, returned), rest) h = refl
  keep_same m n ((d, thrown), rest) h = cc

  keep_outcome :
      (m : List ℕ) (x : (Bridge j × Outcome) × List ℕ) → (keep_rest j (loop_with m x) m).1 ≡ x.0.1
  unfolding keep_rest
  keep_outcome m ((d, returned), rest) = refl
  keep_outcome m ((d, thrown), rest) = refl

  consume_lem :
      (bytes : List ℕ) (b : Bridge j)
      → let merged = b.transport.record_rx ++ bytes in
        consume_bridge_bytes j bytes b
        ≡ keep_rest j (loop_with merged (consume_loop j (length merged) merged b)) merged
  unfolding consume_bridge_bytes
  consume_lem bytes b =
      let merged = b.transport.record_rx ++ bytes in
      ap (λ x. keep_rest j x merged) (loop-rest j (length merged) merged merged b)

  second_piece :
      (r ys m : List ℕ) (f : ℕ) (d : Bridge j)
      → length (r ++ ys) ≤ f
      → (consume_loop j f (r ++ ys) d).0.1 ≡ returned
      → consume_bridge_bytes j ys (with_rest r d)
        ≡ keep_rest j (loop_with m (consume_loop j f (r ++ ys) d)) m
  second_piece r ys m f d h back =
      consume_lem ys (with_rest r d)
      ∙ ap (λ x. keep_rest j (loop_with (r ++ ys) x) (r ++ ys))
          (loop-rest j (length (r ++ ys)) (r ++ ys) r d
            ∙ ap (loop_with r) (loop_fuel j (length (r ++ ys)) f (r ++ ys) d (omega arith) h))
      ∙ keep_same (r ++ ys) m (consume_loop j f (r ++ ys) d) back

  both_pieces :
      (ys m n : List ℕ) (f : ℕ) (first whole : (Bridge j × Outcome) × List ℕ)
      → whole ≡ resume f ys first
      → length (first.1 ++ ys) ≤ f
      → whole.0.1 ≡ returned
      → let done = keep_rest j (loop_with n first) n in
        (done.1 ≡ returned) × (consume_bridge_bytes j ys done.0 ≡ keep_rest j (loop_with m whole) m)
  unfolding keep_rest
  both_pieces ys m n f ((d, returned), r) whole e h back = (
    refl,
    second_piece r ys m f d h (sym (ap (λ x. x.0.1) e) ∙ back)
        ∙ ap (λ x. keep_rest j (loop_with m x) m) (sym e),
  )
  both_pieces ys m n f ((d, thrown), r) whole e h back =
      let stopped : thrown ≡ returned = sym (ap (λ x. x.0.1) e) ∙ back in cc

  -- The bridge's bytes may come in two pieces, cut anywhere, inside a record too: when the bytes in one
  -- piece are taken without an error, so is the first piece, and after the second piece all is as it is
  -- when they come in one piece, what is left over included.
  pub consume_bridge_bytes-append :
      (xs ys : List ℕ) (b : Bridge j)
      → (consume_bridge_bytes j (xs ++ ys) b).1 ≡ returned
      → ((consume_bridge_bytes j xs b).1 ≡ returned)
        × (consume_bridge_bytes j ys (consume_bridge_bytes j xs b).0
            ≡ consume_bridge_bytes j (xs ++ ys) b)
  consume_bridge_bytes-append xs ys b back =
      let start : List ℕ = b.transport.record_rx ++ xs in
      let buffer : List ℕ = b.transport.record_rx ++ (xs ++ ys) in
      let same : start ++ ys ≡ buffer = append_assoc b.transport.record_rx xs ys in
      let first : (Bridge j × Outcome) × List ℕ = consume_loop j (length start) start b in
      let whole : (Bridge j × Outcome) × List ℕ = consume_loop j (length buffer) buffer b in
      let left = left_le j (length start) start b in
      let long : length start ≤ length buffer =
        omega (arith, length-append start ys, ap length same) in
      let enough : length (first.1 ++ ys) ≤ length buffer =
        omega (arith, length-append first.1 ys, length-append start ys, ap length same) in
      let resumed : whole ≡ resume (length buffer) ys first =
        ap (λ xs. consume_loop j (length buffer) xs b) (sym same)
        ∙ loop-append j (length buffer) start ys b (omega (arith, ap length same))
        ∙ ap (resume (length buffer) ys)
            (loop_fuel j (length buffer) (length start) start b long (omega arith)) in
      let ended : whole.0.1 ≡ returned =
        sym (keep_outcome buffer whole) ∙ ap (λ x. x.1) (sym (consume_lem (xs ++ ys) b)) ∙ back in
      let parts = both_pieces ys buffer start (length buffer) first whole resumed enough ended in
      (
        ap (λ x. x.1) (consume_lem xs b) ∙ parts.0,
        ap (λ x. consume_bridge_bytes j ys x.0) (consume_lem xs b)
            ∙ parts.1
            ∙ sym (consume_lem (xs ++ ys) b),
      )
