-- ===== src/Receiver/Frames.antt =====
-- Frames that are put on the line come out of the receiver's loop, whatever lies between them.
use open_fpgastudio.Base.{
  ℕ, ◌+◌, ◌-◌, ◌≤◌, ◌≡◌, ◌≢◌, refl, sym, ap, ◌∙◌, List, [], ◌∷◌, ◌++◌, arith, length, take, drop,
  length-append, take_all, drop_all, All, get_or_last, ◌==◌, if◌then◌else◌,
}
use open_fpgastudio.Wire.{sof, version, max_payload, byte_at, checksum, frame}
use open_fpgastudio.State.{Viewer}
use open_fpgastudio.Decode.{decode_frame}
use open_fpgastudio.Receiver.{
  Receiver, no_frame, bad_frame, whole_frame, check_frame, scan, decode_raw, drop_byte, accept,
}
use open_fpgastudio.Receiver.Loop.{advance, parse, parse-go}

-- The bytes of a frame between its start and its checksum.
abbrev pub body : ℕ → ℕ → List ℕ → List ℕ
body n type payload = n ∷ type ∷ length payload ∷ payload

-- A frame with the checksum `c`.
abbrev pub frame_with : ℕ → ℕ → List ℕ → ℕ → List ℕ
frame_with n type payload c = sof ∷ body n type payload ++ c ∷ []

pub frame_lem :
    (t : ℕ) (p : List ℕ) → frame t p ≡ frame_with version t p (checksum (body version t p))
unfolding frame
frame_lem t p = refl

pub length-frame_with : (n t : ℕ) (p : List ℕ) (c : ℕ) → length (frame_with n t p c) ≡ 5 + length p
length-frame_with n t p c = omega (arith, length-append p (c ∷ []))

-- The last byte of a raw frame and what stands before it.
byte_at_last : (n t : ℕ) (p : List ℕ) (c : ℕ) → byte_at (frame_with n t p c) (5 + length p - 1) ≡ c
byte_at_last n t p c = ap (byte_at (frame_with n t p c)) last ∙ get_or_last (sof ∷ body n t p) c 0
  where
    last : 5 + length p - 1 ≡ length (sof ∷ body n t p)
    last = omega arith

pub take-body :
    (n t : ℕ) (p : List ℕ) (c : ℕ) → take (5 + length p - 1) (frame_with n t p c) ≡ sof ∷ body n t p
take-body n t p c =
    ap (λ k. take k (frame_with n t p c)) last ∙ take_all (sof ∷ body n t p) (c ∷ [])
  where
    last : 5 + length p - 1 ≡ length (sof ∷ body n t p)
    last = omega arith

scan_check :
    (n t : ℕ) (p : List ℕ) (c : ℕ) (rest : List ℕ)
    → length p ≤ max_payload
    → scan (frame_with n t p c ++ rest) ≡ check_frame (5 + length p) (frame_with n t p c) rest
unfolding scan
scan_check n t p c rest h =
    let all : List ℕ = frame_with n t p c ++ rest in
    let size : length all ≡ 5 + length p + length rest =
      omega (arith, length-append (frame_with n t p c) rest, length-frame_with n t p c) in
    let cut : take (5 + length p) all ≡ frame_with n t p c =
      ap (λ k. take k all) (sym (length-frame_with n t p c)) ∙ take_all (frame_with n t p c) rest in
    let left : drop (5 + length p) all ≡ rest =
      ap (λ k. drop k all) (sym (length-frame_with n t p c)) ∙ drop_all (frame_with n t p c) rest in
    ground arith

-- A frame at the front of the buffer is found if its checksum is right, and rejected if not.
pub scan-frame_with :
    (n t : ℕ) (p : List ℕ) (c : ℕ) (rest : List ℕ)
    → length p ≤ max_payload
    → scan (frame_with n t p c ++ rest) ≡ (
        if checksum (body n t p) == c
        then whole_frame (frame_with n t p c) rest
        else bad_frame rest)
unfolding check_frame
scan-frame_with n t p c rest h =
    scan_check n t p c rest h ∙ rw (byte_at_last n t p c, take-body n t p c) refl

decode_raw-frame :
    (n t : ℕ) (p : List ℕ) (c : ℕ) (s : Viewer)
    → decode_raw (frame_with n t p c) s ≡ decode_frame n t p (frame_with n t p c) s
unfolding decode_raw
decode_raw-frame n t p c s =
    ap (λ k. decode_frame n t (drop 4 (take (k - 1) (frame_with n t p c))) (frame_with n t p c) s)
      (length-frame_with n t p c)
    ∙ ap (λ xs. decode_frame n t (drop 4 xs) (frame_with n t p c) s) (take-body n t p c)

-- The receiver with a buffer.
abbrev pub with_rx : List ℕ → Receiver → Receiver
with_rx rx s = record s { rx = rx }

abbrev pub decoded : ℕ → List ℕ → Receiver → Receiver
decoded t p s = record s { viewer = decode_frame version t p (frame t p) s.viewer }

-- The loop takes a frame off the buffer and decodes exactly its type and payload.
pub parse-frame :
    (t : ℕ) (p rest : List ℕ) (s : Receiver)
    → length p ≤ max_payload
    → parse (with_rx (frame t p ++ rest) s) ≡ parse (with_rx rest (decoded t p s))
unfolding accept
parse-frame t p rest s h =
    let c : ℕ = checksum (body version t p) in
    let raw : List ℕ = frame_with version t p c in
    let found : scan (raw ++ rest) ≡ whole_frame raw rest =
      scan-frame_with version t p c rest h ∙ ground arith in
    ap (λ f. parse (with_rx (f ++ rest) s)) (frame_lem t p)
    ∙ parse-go (with_rx (raw ++ rest) s) (rw found (λ e. cc))
    ∙ ap (λ k. parse (advance k (with_rx (raw ++ rest) s))) found
    ∙ ap (λ v. parse (record s { rx = rest; viewer = v })) (decode_raw-frame version t p c s.viewer)
    ∙ ap (λ f. parse (record s { rx = rest; viewer = decode_frame version t p f s.viewer }))
        (sym (frame_lem t p))

-- Bytes that are no start of a frame are dropped one by one in front of one that is followed by
-- four bytes at least.
pub parse-noise :
    (noise rest : List ℕ) (s : Receiver)
    → All (λ b. b ≢ sof) noise
    → 5 ≤ length rest
    → parse (with_rx (noise ++ rest) s)
      ≡ parse (record s { rx = rest; sync_drops = s.sync_drops + length noise })
unfolding scan drop_byte
parse-noise [] rest s quiet h =
    ap (λ n. parse (record s { rx = rest; sync_drops = n })) (omega arith)
parse-noise (b ∷ noise) rest s quiet h =
    let size : length (noise ++ rest) ≡ length noise + length rest = length-append noise rest in
    let found : scan (b ∷ (noise ++ rest)) ≡ no_frame (noise ++ rest) = ground arith in
    parse-go (with_rx (b ∷ (noise ++ rest)) s) (rw found (λ e. cc))
    ∙ ap (λ k. parse (advance k (with_rx (b ∷ (noise ++ rest)) s))) found
    ∙ parse-noise noise rest (record s { sync_drops = s.sync_drops + 1 }) quiet.1 h
    ∙ ap (λ n. parse (record s { rx = rest; sync_drops = n })) (omega arith)
