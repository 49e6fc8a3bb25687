-- ===== src/Receiver/Pieces.antt =====
-- How the input is cut into pieces does not matter to the receiver.
use open_fpgastudio.Base.{
  ℕ, ◌<◌, ◌≡◌, ◌≢◌, refl, sym, ap, ◌∙◌, List, ◌++◌, append_assoc, arith, length,
}
use open_fpgastudio.State.Render.{View}
use open_fpgastudio.State.Render.Order.{request_twice}
use open_fpgastudio.State.{request_render}
use open_fpgastudio.Decode.Rendering.{decode_frame-Commutes}
use open_fpgastudio.Receiver.{
  Receiver, Found, incomplete, no_frame, bad_frame, whole_frame, check_frame, scan, decode_raw,
  drop_byte, reject, accept, parse_available_frames, append_rx_bytes, receive,
}
use open_fpgastudio.Receiver.Scan.{extend, scan-append}
use open_fpgastudio.Receiver.Loop.{
  advance, parse, parse-stop, parse-go, parse_induction, scan-parse,
}

extend-ne : (more : List ℕ) (k : Found) → k ≢ incomplete → extend more k ≢ incomplete
extend-ne more incomplete h = h
extend-ne more (no_frame rest) h = λ e. cc
extend-ne more (bad_frame rest) h = λ e. cc
extend-ne more (whole_frame raw rest) h = λ e. cc

advance-append :
    (more : List ℕ) (k : Found) (s : Receiver)
    → k ≢ incomplete
    → advance (extend more k) (append_rx_bytes more s) ≡ append_rx_bytes more (advance k s)
unfolding append_rx_bytes drop_byte reject accept
advance-append more incomplete s h = absurd (h refl)
advance-append more (no_frame rest) s h = refl
advance-append more (bad_frame rest) s h = refl
advance-append more (whole_frame raw rest) s h = refl

rx-append : (more : List ℕ) (s : Receiver) → (append_rx_bytes more s).rx ≡ s.rx ++ more
unfolding append_rx_bytes
rx-append more s = refl

-- One round goes on over the longer buffer as it does over the shorter.
scan-append_rx :
    (more : List ℕ) (s : Receiver)
    → scan s.rx ≢ incomplete
    → scan (append_rx_bytes more s).rx ≡ extend more (scan s.rx)
scan-append_rx more s h = ap scan (rx-append more s) ∙ scan-append s.rx more h

parse-append :
    (more : List ℕ) (s : Receiver)
    → parse (append_rx_bytes more s) ≡ parse (append_rx_bytes more (parse s))
parse-append more =
    parse_induction (λ s. parse (append_rx_bytes more s) ≡ parse (append_rx_bytes more (parse s)))
      (λ s e. ap (λ t. parse (append_rx_bytes more t)) (sym (parse-stop s e)))
      (λ s e ih.
        let found : scan (append_rx_bytes more s).rx ≡ extend more (scan s.rx) =
          scan-append_rx more s e in
        parse-go (append_rx_bytes more s) (rw found (extend-ne more (scan s.rx) e))
        ∙ ap (λ k. parse (advance k (append_rx_bytes more s))) found
        ∙ ap parse (advance-append more (scan s.rx) s e)
        ∙ ih
        ∙ ap (λ t. parse (append_rx_bytes more t)) (sym (parse-go s e)))

-- `requestRender` on the receiver's page state.
abbrev pub ask : View → Receiver → Receiver
ask v s = record s { viewer = request_render v s.viewer }

advance-ask : (v : View) (k : Found) (s : Receiver) → advance k (ask v s) ≡ ask v (advance k s)
unfolding drop_byte reject accept decode_raw
advance-ask v incomplete s = refl
advance-ask v (no_frame rest) s = refl
advance-ask v (bad_frame rest) s = refl
advance-ask v (whole_frame raw rest) s =
    ap (λ t. record s { rx = rest; viewer = t }) (decode_frame-Commutes v _ _ _ raw s.viewer)

parse-ask : (v : View) (s : Receiver) → parse (ask v s) ≡ ask v (parse s)
parse-ask v =
    parse_induction (λ s. parse (ask v s) ≡ ask v (parse s))
      (λ s e. parse-stop (ask v s) e ∙ ap (ask v) (sym (parse-stop s e)))
      (λ s e ih.
        parse-go (ask v s) e
        ∙ ap parse (advance-ask v (scan s.rx) s)
        ∙ ih
        ∙ ap (ask v) (sym (parse-go s e)))

pub receive_lem :
    (bytes : List ℕ) (s : Receiver)
    → receive bytes s ≡ ask View.counters (parse (append_rx_bytes bytes s))
unfolding receive parse_available_frames
receive_lem bytes s = refl

ask-twice : (v : View) (s : Receiver) → ask v (ask v s) ≡ ask v s
unfolding request_render
ask-twice v s =
    ap (λ r. record s { viewer = record s.viewer { render = r } }) (request_twice v s.viewer.render)

append-append :
    (xs ys : List ℕ) (s : Receiver)
    → append_rx_bytes ys (append_rx_bytes xs s) ≡ append_rx_bytes (xs ++ ys) s
unfolding append_rx_bytes
append-append xs ys s = ap (λ b. record s { rx = b }) (append_assoc s.rx xs ys)

append-ask :
    (v : View) (ys : List ℕ) (s : Receiver)
    → append_rx_bytes ys (ask v s) ≡ ask v (append_rx_bytes ys s)
unfolding append_rx_bytes
append-ask v ys s = refl

-- Bytes that come in two pieces leave the receiver, the page's state and the pending renders as
-- they are when the same bytes come in one piece, wherever the cut is.
pub receive-append :
    (xs ys : List ℕ) (s : Receiver) → receive ys (receive xs s) ≡ receive (xs ++ ys) s
receive-append xs ys s =
    let c : View = View.counters in
    let x : Receiver = append_rx_bytes xs s in
    receive_lem ys (receive xs s)
    ∙ ap (λ t. ask c (parse (append_rx_bytes ys t))) (receive_lem xs s)
    ∙ ap (λ t. ask c (parse t)) (append-ask c ys (parse x))
    ∙ ap (ask c) (parse-ask c (append_rx_bytes ys (parse x)))
    ∙ ask-twice c (parse (append_rx_bytes ys (parse x)))
    ∙ ap (ask c) (sym (parse-append ys x))
    ∙ ap (λ t. ask c (parse t)) (append-append xs ys s)
    ∙ sym (receive_lem (xs ++ ys) s)

waits : (rx : List ℕ) → scan rx ≡ incomplete → length rx < 37
unfolding scan check_frame
waits rx h = ground arith

-- After any input fewer than 37 bytes wait in the buffer: less than the longest frame.
pub receive-lt : (bytes : List ℕ) (s : Receiver) → length (receive bytes s).rx < 37
receive-lt bytes s =
    rw (receive_lem bytes s)
      (waits (parse (append_rx_bytes bytes s)).rx (scan-parse (append_rx_bytes bytes s)))
