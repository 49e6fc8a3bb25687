-- ===== src/Receiver/Paused.antt =====
-- The page under any input while it is paused.
use open_fpgastudio.Base.{ℕ, true, ◌≡◌, refl, ap, ◌∙◌, List}
use open_fpgastudio.State.{request_render}
use open_fpgastudio.State.Render.{View, Render}
use open_fpgastudio.Decode.Paused.{request_paused, decode_frame_paused}
use open_fpgastudio.Receiver.{
  Receiver, Found, incomplete, no_frame, bad_frame, whole_frame, scan, decode_raw, drop_byte,
  reject, accept, receive, append_rx_bytes, parse_available_frames,
}
use open_fpgastudio.Receiver.Loop.{advance, parse, parse-stop, parse-go, parse_induction}

abbrev IsQuiet : Receiver → Receiver → Type 0
IsQuiet s t = s.viewer.render.paused ≡ true → t.viewer.render ≡ s.viewer.render

advance-IsQuiet : (k : Found) (s : Receiver) → IsQuiet s (advance k s)
unfolding drop_byte reject accept decode_raw
advance-IsQuiet incomplete s h = refl
advance-IsQuiet (no_frame rest) s h = refl
advance-IsQuiet (bad_frame rest) s h = refl
advance-IsQuiet (whole_frame raw rest) s h = decode_frame_paused _ _ _ raw s.viewer h

parse-IsQuiet : (s : Receiver) → IsQuiet s (parse s)
parse-IsQuiet =
    parse_induction (λ s. IsQuiet s (parse s))
      (λ s e h. ap (λ (t : Receiver). t.viewer.render) (parse-stop s e))
      (λ s e ih h.
        let round = advance-IsQuiet (scan s.rx) s h in
        ap (λ (t : Receiver). t.viewer.render) (parse-go s e)
        ∙ ih (ap (λ (r : Render). r.paused) round ∙ h)
        ∙ round)

-- While the page is paused, no input asks for anything to be drawn, and the page stays paused.
pub receive_paused :
    (bytes : List ℕ) (s : Receiver)
    → s.viewer.render.paused ≡ true
    → (receive bytes s).viewer.render ≡ s.viewer.render
unfolding receive parse_available_frames append_rx_bytes request_render
receive_paused bytes s h =
    let quiet = parse-IsQuiet (append_rx_bytes bytes s) h in
    request_paused View.counters _ (ap (λ (r : Render). r.paused) quiet ∙ h) ∙ quiet
