-- ===== src/Receiver/Corruption.antt =====
-- A frame that is damaged on the line is not decoded.
use open_fpgastudio.Base.{
  ℕ, ◌+◌, ◌≤◌, ◌≡◌, sym, ap, ◌∙◌, List, [], ◌∷◌, ◌++◌, arith, length, All, Bool-cases, inl, inr,
  ◌==◌, ==_iff, false,
}
use open_fpgastudio.Wire.{version, max_payload, checksum, IsByte, xor_all}
use open_fpgastudio.Wire.Xor.{OneByte, xor_all-OneByte, xor_all-checksum}
use open_fpgastudio.Receiver.{Receiver, scan, bad_frame, reject}
use open_fpgastudio.Receiver.Loop.{advance, parse, parse-go}
use open_fpgastudio.Receiver.Frames.{body, frame_with, scan-frame_with, with_rx}

damaged_checksum :
    (n t t' c : ℕ) (p q : List ℕ)
    → All IsByte (body version t p)
    → All IsByte (body n t' q)
    → OneByte (body version t p ++ checksum (body version t p) ∷ []) (body n t' q ++ c ∷ [])
    → (checksum (body n t' q) == c) ≡ false
damaged_checksum n t t' c p q sent got d = elim (Bool-cases (checksum (body n t' q) == c)) [
  | inr bad ↦ bad
  | inl good ↦
      let same : checksum (body n t' q) ≡ c = (==_iff (checksum (body n t' q)) c).0 good in
      absurd (
        xor_all-OneByte d 0 (
          xor_all-checksum (body version t p) sent
          ∙ sym (xor_all-checksum (body n t' q) got)
          ∙ ap (λ x. xor_all 0 (body n t' q ++ x ∷ [])) same))
]

-- A frame of bytes, with a payload of at most 32, that comes with one byte changed, be it the
-- version, the type, a byte of the payload or the checksum (but not its start or its length), is
-- cut off and counted as a checksum error, and nothing else of the state changes: the loop goes
-- on with what follows.
pub parse_damaged :
    (n t t' c : ℕ) (p q rest : List ℕ) (s : Receiver)
    → All IsByte (body version t p)
    → All IsByte (body n t' q)
    → length q ≡ length p
    → length p ≤ max_payload
    → OneByte (body version t p ++ checksum (body version t p) ∷ []) (body n t' q ++ c ∷ [])
    → parse (with_rx (frame_with n t' q c ++ rest) s)
      ≡ parse (record s { rx = rest; checksum_errors = s.checksum_errors + 1 })
unfolding reject
parse_damaged n t t' c p q rest s sent got same h d =
    let all : List ℕ = frame_with n t' q c ++ rest in
    let found : scan all ≡ bad_frame rest =
      scan-frame_with n t' q c rest (omega arith) ∙ rw (damaged_checksum n t t' c p q sent got d) in
    parse-go (with_rx all s) (rw found (λ e. cc))
    ∙ ap (λ k. parse (advance k (with_rx all s))) found
