-- ===== src/Receiver/Bounds.antt =====
-- The page's histories under any input.
use open_fpgastudio.Base.{ℕ, sym, subst, List}
use open_fpgastudio.State.{request_render}
use open_fpgastudio.Decode.Bounds.{IsBounded, decode_frame-IsBounded}
use open_fpgastudio.Receiver.{
  Receiver, Found, incomplete, no_frame, bad_frame, whole_frame, scan, decode_raw, drop_byte,
  reject, accept, receive, append_rx_bytes, parse_available_frames,
}
use open_fpgastudio.Receiver.Loop.{advance, parse, parse-stop, parse-go, parse_induction}

advance-IsBounded : (k : Found) (s : Receiver) → IsBounded s.viewer → IsBounded (advance k s).viewer
unfolding drop_byte reject accept decode_raw
advance-IsBounded incomplete s h = h
advance-IsBounded (no_frame rest) s h = h
advance-IsBounded (bad_frame rest) s h = h
advance-IsBounded (whole_frame raw rest) s h = decode_frame-IsBounded _ _ _ raw s.viewer h

abbrev Stays : Receiver → Type 0
Stays s = IsBounded s.viewer → IsBounded (parse s).viewer

parse-IsBounded : (s : Receiver) → Stays s
parse-IsBounded =
    parse_induction Stays (λ s e h. subst (λ t. IsBounded t.viewer) (sym (parse-stop s e)) h)
      (λ s e ih h.
        subst (λ t. IsBounded t.viewer) (sym (parse-go s e))
          (ih (advance-IsBounded (scan s.rx) s h)))

-- Whatever bytes come, the log stays within 300 rows, the trace within 20000 spans, 20000 marks,
-- 10000 values and 2000 drops, the monitor's errors within 100, the alerts within 200 and each
-- metric's history within 600 snapshots, if they are so before.
pub receive-IsBounded :
    (bytes : List ℕ) (s : Receiver) → IsBounded s.viewer → IsBounded (receive bytes s).viewer
unfolding receive parse_available_frames append_rx_bytes request_render
receive-IsBounded bytes s h = parse-IsBounded (append_rx_bytes bytes s) h
