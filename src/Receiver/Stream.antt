-- ===== src/Receiver/Stream.antt =====
-- A whole stream: frames with noise between them, handed to the receiver at once or in pieces.
use open_fpgastudio.Base.{
  ℕ, ◌+◌, ◌≤◌, ◌≡◌, ◌≢◌, refl, ap, ◌∙◌, List, [], ◌∷◌, ◌++◌, arith, length, length-append, All,
}
use open_fpgastudio.Wire.{sof, max_payload, frame, version}
use open_fpgastudio.State.Render.{View}
use open_fpgastudio.Receiver.{Receiver, receive, append_rx_bytes, scan}
use open_fpgastudio.Receiver.Loop.{parse, parse-stop}
use open_fpgastudio.Receiver.Pieces.{ask, receive_lem}
use open_fpgastudio.Receiver.Frames.{
  with_rx, decoded, parse-frame, parse-noise, frame_lem, length-frame_with, body,
}
use open_fpgastudio.Wire.{checksum}

-- Noise, and the frame behind it.
pub record Segment : Type 0 where
  pub noise : List ℕ
  pub type : ℕ
  pub payload : List ℕ

-- The noise holds no start of a frame, and the payload is not too long.
abbrev pub IsClean : Segment → Type 0
IsClean g = All (λ b. b ≢ sof) g.noise × (length g.payload ≤ max_payload)

abbrev pub stream : List Segment → List ℕ
stream [] = []
stream (g ∷ gs) = g.noise ++ (frame g.type g.payload ++ stream gs)

-- What a stream means: each frame decoded in its turn, each byte of noise counted.
abbrev pub deliver : List Segment → Receiver → Receiver
deliver [] s = s
deliver (g ∷ gs) s =
    deliver gs (decoded g.type g.payload (record s { sync_drops = s.sync_drops + length g.noise }))

length-frame : (t : ℕ) (p rest : List ℕ) → 5 ≤ length (frame t p ++ rest)
length-frame t p rest = omega (
  arith,
  length-append (frame t p) rest,
  ap length (frame_lem t p),
  length-frame_with version t p (checksum (body version t p)),
)

parse-stream :
    (gs : List Segment) (s : Receiver)
    → All IsClean gs
    → parse (with_rx (stream gs) s) ≡ with_rx [] (deliver gs s)
unfolding scan
parse-stream [] s h = parse-stop (with_rx [] s) refl
parse-stream (g ∷ gs) s h =
    let rest : List ℕ = frame g.type g.payload ++ stream gs in
    let counted : Receiver = record s { sync_drops = s.sync_drops + length g.noise } in
    parse-noise g.noise rest s h.0.0 (length-frame g.type g.payload (stream gs))
    ∙ parse-frame g.type g.payload (stream gs) counted h.0.1
    ∙ parse-stream gs (decoded g.type g.payload counted) h.1

-- A receiver with an empty buffer that gets a stream of frames with payloads of at most 32
-- bytes, with noise that holds no start byte in front of each, decodes exactly these frames in
-- their order, counts each byte of noise as dropped, has an empty buffer again, and asks for the
-- counters to be drawn.
pub receive-stream :
    (gs : List Segment) (s : Receiver)
    → All IsClean gs
    → s.rx ≡ []
    → receive (stream gs) s ≡ ask View.counters (with_rx [] (deliver gs s))
unfolding append_rx_bytes
receive-stream gs s h e =
    receive_lem (stream gs) s
    ∙ ap (λ xs. ask View.counters (parse (with_rx (xs ++ stream gs) s))) e
    ∙ ap (ask View.counters) (parse-stream gs s h)
