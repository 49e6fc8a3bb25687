-- ===== src/Receiver/Scan.antt =====
-- What the parser's loop finds at the front of the buffer does not change when more bytes come.
use open_fpgastudio.Base.{
  ℕ, ◌+◌, ◌<◌, ◌≡◌, ◌≢◌, List, ◌++◌, arith, length, take, drop, length-append, length-drop,
  drop-append, take-append, get_or-append_lt,
}
use open_fpgastudio.Wire.{byte_at}
use open_fpgastudio.Receiver.{
  Found, incomplete, no_frame, bad_frame, whole_frame, check_frame, scan,
}

-- The finding, with more bytes behind the buffer.
abbrev pub extend : List ℕ → Found → Found
extend more incomplete = incomplete
extend more (no_frame rest) = no_frame (rest ++ more)
extend more (bad_frame rest) = bad_frame (rest ++ more)
extend more (whole_frame raw rest) = whole_frame raw (rest ++ more)

-- What is left of the buffer is shorter than it.
abbrev pub Shrinks : ℕ → Found → Type 0
Shrinks n incomplete = Unit {0}
Shrinks n (no_frame rest) = length rest < n
Shrinks n (bad_frame rest) = length rest < n
Shrinks n (whole_frame raw rest) = length rest < n

check_frame-extend :
    (total : ℕ) (raw rest more : List ℕ)
    → check_frame total raw (rest ++ more) ≡ extend more (check_frame total raw rest)
unfolding check_frame
check_frame-extend total raw rest more = ground arith

check_frame-Shrinks :
    (total n : ℕ) (raw rest : List ℕ) → length rest < n → Shrinks n (check_frame total raw rest)
unfolding check_frame
check_frame-Shrinks total n raw rest h = ground arith

pub scan-Shrinks : (rx : List ℕ) → Shrinks (length rx) (scan rx)
unfolding scan
scan-Shrinks rx = ground (
  arith,
  length-drop 1 rx,
  length-drop (5 + byte_at rx 3) rx,
  check_frame-Shrinks (5 + byte_at rx 3) (length rx) (take (5 + byte_at rx 3) rx)
      (drop (5 + byte_at rx 3) rx),
)

pub scan-append :
    (rx more : List ℕ) → scan rx ≢ incomplete → scan (rx ++ more) ≡ extend more (scan rx)
unfolding scan
scan-append rx more h = ground (
  arith,
  length-append rx more,
  get_or-append_lt rx more 0 0,
  get_or-append_lt rx more 3 0,
  drop-append 1 rx more,
  drop-append (5 + byte_at rx 3) rx more,
  take-append (5 + byte_at rx 3) rx more,
  check_frame-extend (5 + byte_at rx 3) (take (5 + byte_at rx 3) rx) (drop (5 + byte_at rx 3) rx)
      more,
)
