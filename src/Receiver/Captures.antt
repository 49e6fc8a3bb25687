-- ===== src/Receiver/Captures.antt =====
-- Logic-analyzer captures under any input.
use open_fpgastudio.Base.{ℕ, sym, subst, List}
use open_fpgastudio.State.{request_render}
use open_fpgastudio.Decode.Analyzer.Complete.{AreSound}
use open_fpgastudio.Decode.Captures.{decode_frame-AreSound}
use open_fpgastudio.Receiver.{
  Receiver, Found, incomplete, no_frame, bad_frame, whole_frame, scan, decode_raw, drop_byte,
  reject, accept, receive, append_rx_bytes, parse_available_frames,
}
use open_fpgastudio.Receiver.Loop.{advance, parse, parse-stop, parse-go, parse_induction}

abbrev Sound : Receiver → Type 0
Sound s = AreSound s.viewer.analyzer

advance-Sound : (k : Found) (s : Receiver) → Sound s → Sound (advance k s)
unfolding drop_byte reject accept decode_raw
advance-Sound incomplete s h = h
advance-Sound (no_frame rest) s h = h
advance-Sound (bad_frame rest) s h = h
advance-Sound (whole_frame raw rest) s h = decode_frame-AreSound _ _ _ raw s.viewer h

parse-Sound : (s : Receiver) → Sound s → Sound (parse s)
parse-Sound =
    parse_induction (λ s. Sound s → Sound (parse s)) (λ s e h. subst Sound (sym (parse-stop s e)) h)
      (λ s e ih h. subst Sound (sym (parse-go s e)) (ih (advance-Sound (scan s.rx) s h)))

-- Whatever bytes come, in every capture that has a header there is room for as many samples as
-- the header announced, and when the capture is marked complete each of these samples has been
-- recorded, if all captures are so before.
pub receive-AreSound :
    (bytes : List ℕ) (s : Receiver)
    → AreSound s.viewer.analyzer
    → AreSound (receive bytes s).viewer.analyzer
unfolding receive parse_available_frames append_rx_bytes request_render
receive-AreSound bytes s h = parse-Sound (append_rx_bytes bytes s) h
