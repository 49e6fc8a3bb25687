-- ===== src/Wire/Fields.antt =====
-- The fields of a payload: what `push_u16` and `push_u32` write, `u16` and `u32` read back.
use open_fpgastudio.Base.{
  ℕ, ◌+◌, ◌*◌, ◌/◌, ◌%◌, ◌^◌, ◌<◌, ◌≡◌, ap, List, [], ◌∷◌, ◌++◌, length, arith, length-append,
  bit_or, bit_or-disjoint, shl, shr, to_u32, ◌∙◌, suc,
}
use open_fpgastudio.Wire.{u16, u32, push_u16, push_u32, byte_at, IsByte}

-- The value of two bytes, low byte first.
pub u16-bytes :
    (p : List ℕ) (i : ℕ)
    → IsByte (byte_at p i)
    → IsByte (byte_at p (i + 1))
    → u16 p i ≡ byte_at p i + byte_at p (i + 1) * 256
unfolding u16
u16-bytes p i h k =
    let fits : shl (byte_at p (i + 1)) 8 ≡ byte_at p (i + 1) * 2 ^ 8 = omega arith in
    omega
      (arith, ap (bit_or (byte_at p i)) fits, bit_or-disjoint 8 (byte_at p i) (byte_at p (i + 1)) h)

or_bytes :
    (a b c d : ℕ)
    → a < 256
    → b < 256
    → c < 256
    → d < 256
    → to_u32 (bit_or (bit_or (bit_or a (shl b 8)) (shl c 16)) (shl d 24))
      ≡ a + b * 256 + c * 65536 + d * 16777216
or_bytes a b c d ha hb hc hd =
    let fits_b : shl b 8 ≡ b * 2 ^ 8 = omega arith in
    let fits_c : shl c 16 ≡ c * 2 ^ 16 = omega arith in
    let fits_d : shl d 24 ≡ d * 2 ^ 24 = omega arith in
    rw (fits_b, fits_c, fits_d, bit_or-disjoint 8 a b ha)
      (rw (bit_or-disjoint 16 (a + b * 2 ^ 8) c (omega arith))
        (rw (bit_or-disjoint 24 (a + b * 2 ^ 8 + c * 2 ^ 16) d (omega arith)) (omega arith)))

-- The value of four bytes, low byte first.
pub u32-bytes :
    (p : List ℕ) (i : ℕ)
    → IsByte (byte_at p i)
    → IsByte (byte_at p (i + 1))
    → IsByte (byte_at p (i + 2))
    → IsByte (byte_at p (i + 3))
    → u32 p i
      ≡ byte_at p i
        + byte_at p (i + 1) * 256
        + byte_at p (i + 2) * 65536
        + byte_at p (i + 3) * 16777216
unfolding u32
u32-bytes p i h0 h1 h2 h3 =
    or_bytes (byte_at p i) (byte_at p (i + 1)) (byte_at p (i + 2)) (byte_at p (i + 3)) h0 h1 h2 h3

pub byte_at-skip :
    (xs ys zs : List ℕ) (i : ℕ) → byte_at ((xs ++ ys) ++ zs) (length xs + i) ≡ byte_at (ys ++ zs) i
byte_at-skip [] ys zs i = ap (byte_at (ys ++ zs)) (omega arith)
byte_at-skip (x ∷ xs) ys zs i = ap (byte_at (x ∷ ((xs ++ ys) ++ zs))) next ∙ byte_at-skip xs ys zs i
  where
    next : suc (length xs) + i ≡ suc (length xs + i)
    next = omega arith

-- A 16-bit value written at the end of a payload is read back there, whatever follows.
pub u16-push_u16 :
    (p rest : List ℕ) (v : ℕ) → v < 2 ^ 16 → u16 (push_u16 p v ++ rest) (length p) ≡ v
unfolding push_u16
u16-push_u16 p rest v h =
    let low : ℕ = v % 2 ^ 32 % 2 ^ 8 in
    let high : ℕ = v % 2 ^ 32 / 2 ^ 8 % 2 ^ 8 in
    let bytes : List ℕ = low ∷ high ∷ [] in
    let at : ℕ → ℕ = byte_at ((p ++ bytes) ++ rest) in
    let e0 : at (length p) ≡ low = ap at (omega arith) ∙ byte_at-skip p bytes rest 0 in
    let e1 : at (length p + 1) ≡ high = byte_at-skip p bytes rest 1 in
    omega (arith, u16-bytes ((p ++ bytes) ++ rest) (length p) (omega arith) (omega arith), e0, e1)

-- A 32-bit value written at the end of a payload is read back there, whatever follows.
pub u32-push_u32 :
    (p rest : List ℕ) (v : ℕ) → v < 2 ^ 32 → u32 (push_u32 p v ++ rest) (length p) ≡ v
unfolding push_u32
u32-push_u32 p rest v h =
    let b0 : ℕ = v % 2 ^ 32 % 2 ^ 8 in
    let b1 : ℕ = v % 2 ^ 32 / 2 ^ 8 % 2 ^ 8 in
    let b2 : ℕ = v % 2 ^ 32 / 2 ^ 16 % 2 ^ 8 in
    let b3 : ℕ = v % 2 ^ 32 / 2 ^ 24 % 2 ^ 8 in
    let bytes : List ℕ = b0 ∷ b1 ∷ b2 ∷ b3 ∷ [] in
    let at : ℕ → ℕ = byte_at ((p ++ bytes) ++ rest) in
    let e0 : at (length p) ≡ b0 = ap at (omega arith) ∙ byte_at-skip p bytes rest 0 in
    let e1 : at (length p + 1) ≡ b1 = byte_at-skip p bytes rest 1 in
    let e2 : at (length p + 2) ≡ b2 = byte_at-skip p bytes rest 2 in
    let e3 : at (length p + 3) ≡ b3 = byte_at-skip p bytes rest 3 in
    omega (
      arith,
      u32-bytes ((p ++ bytes) ++ rest) (length p) (omega arith) (omega arith) (omega arith)
          (omega arith),
      e0,
      e1,
      e2,
      e3,
    )

pub length-push_u16 : (p : List ℕ) (v : ℕ) → length (push_u16 p v) ≡ length p + 2
unfolding push_u16
length-push_u16 p v = length-append p (to_u32 v % 2 ^ 8 ∷ shr v 8 % 2 ^ 8 ∷ [])

pub length-push_u32 : (p : List ℕ) (v : ℕ) → length (push_u32 p v) ≡ length p + 4
unfolding push_u32
length-push_u32 p v =
    length-append p (to_u32 v % 2 ^ 8 ∷ shr v 8 % 2 ^ 8 ∷ shr v 16 % 2 ^ 8 ∷ shr v 24 % 2 ^ 8 ∷ [])
