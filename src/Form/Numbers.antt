-- ===== src/Form/Numbers.antt =====
-- Numbers that the page writes are read back (`parseNumber` of tools/viewer/web/app.js).
use native.Mathlib.Nat.{div-lt_self, mod-lt, div-add-mod'}
use open_fpgastudio.Base.{
  ℕ, zero, suc, ◌+◌, ◌-◌, ◌*◌, ◌/◌, ◌%◌, ◌≤◌, ◌<◌, ◌≡◌, refl, sym, ap, ◌∙◌, true, false, Bool-cases,
  inl, inr, none, [], ◌∷◌, ◌++◌, arith, length, replicate, ltb, ◌==◌, All, to_u32,
}
use open_fpgastudio.Base.Texts.{Text, digit, digits_onto, to_text, pad_start, dec, hex}
use open_fpgastudio.Form.{
  is_space, trim_start, digit_of, read_front, parse_decimal, after_0x, parse_number,
}

digit_of-digit : (d : ℕ) → d < 16 → digit_of (digit d) ≡ d
unfolding digit digit_of
digit_of-digit d h = ground arith

read_digit :
    (base acc d : ℕ) (t : Text)
    → d < base
    → base ≤ 16
    → read_front base acc (digit d ∷ t) ≡ read_front base (acc * base + d) t
unfolding read_front
read_digit base acc d t h k =
    let same : digit_of (digit d) ≡ d = digit_of-digit d (omega arith) in
    let below : ltb d base ≡ true = ground arith in rw (same, below)

quotient_le : (base fuel n : ℕ) → 1 < base → n ≤ suc fuel → (n == 0) ≡ false → n / base ≤ fuel
quotient_le base fuel n h small more =
    let positive : 0 < n = ground arith in
    let less : n / base < n = div-lt_self positive h in omega arith

-- A number's digits, with any text behind them.
read-digits_onto :
    (base fuel n : ℕ) (out : Text)
    → 1 < base
    → base ≤ 16
    → n ≤ fuel
    → read_front base 0 (digits_onto base fuel n out) ≡ read_front base n out
unfolding digits_onto
read-digits_onto base zero zero out h k small = refl
read-digits_onto base zero (suc n) out h k small = absurd (omega arith)
read-digits_onto base (suc fuel) n out h k small = elim (Bool-cases (n == 0)) [
  | inl stop ↦ rw stop (ap (λ m. read_front base m out) (ground arith))
  | inr more ↦ rw more (
      read-digits_onto base fuel (n / base) (digit (n % base) ∷ out) h k
        (quotient_le base fuel n h small more)
      ∙ read_digit base (n / base) (n % base) out (mod-lt n (omega arith)) k
      ∙ ap (λ m. read_front base m out) (div-add-mod' n base))
]

pub read-to_text : (base n : ℕ) → 1 < base → base ≤ 16 → read_front base 0 (to_text base n) ≡ n
unfolding to_text read_front digit_of
read-to_text base n h k = elim (Bool-cases (n == 0)) [
  | inl stop ↦ rw stop (ground arith)
  | inr more ↦ rw more (read-digits_onto base n n [] h k (omega arith))
]

zero_digit : digit 0 ≡ b'0'
unfolding digit
zero_digit = refl

pub read-zeros :
    (base k : ℕ) (t : Text)
    → 0 < base
    → base ≤ 16
    → read_front base 0 (replicate k b'0' ++ t) ≡ read_front base 0 t
read-zeros base zero t h small = refl
read-zeros base (suc k) t h small =
    ap (λ c. read_front base 0 (c ∷ (replicate k b'0' ++ t))) (sym zero_digit)
    ∙ read_digit base 0 0 (replicate k b'0' ++ t) h small
    ∙ ap (λ m. read_front base m (replicate k b'0' ++ t)) (omega arith)
    ∙ read-zeros base k t h small

-- What `hex` writes, behind "0x" and padded to any width, is read as the number modulo 2 ^ 32.
pub parse_number-hex : (n width : ℕ) → parse_number (hex n width) ≡ to_u32 n
unfolding parse_number hex pad_start trim_start is_space after_0x
parse_number-hex n width = ap to_u32 (
    read-zeros 16 (width - length (to_text 16 n)) (to_text 16 n) (omega arith) (omega arith)
    ∙ read-to_text 16 n (omega arith) (omega arith))

-- A decimal digit.
abbrev IsDecimal : ℕ → Type 0
IsDecimal c = (b'0' ≤ c) × (c ≤ b'9')

digits_onto-IsDecimal :
    (fuel n : ℕ) (out : Text) → All IsDecimal out → All IsDecimal (digits_onto 10 fuel n out)
unfolding digits_onto digit
digits_onto-IsDecimal zero n out h = h
digits_onto-IsDecimal (suc fuel) n out h = elim (Bool-cases (n == 0)) [
  | inl stop ↦ rw stop h
  | inr more ↦
      rw more (
        digits_onto-IsDecimal fuel (n / 10) (digit (n % 10) ∷ out)
          ((ground arith, ground arith), h))
]

dec-IsDecimal : (n : ℕ) → All IsDecimal (dec n)
unfolding dec to_text
dec-IsDecimal n = elim (Bool-cases (n == 0)) [
  | inl stop ↦ rw stop ((omega arith, omega arith), tt)
  | inr more ↦ rw more (digits_onto-IsDecimal n n [] tt)
]

space_lem : (c : ℕ) → IsDecimal c → is_space c ≡ false
unfolding is_space
space_lem c h = ground arith

trim_lem : (c : ℕ) (cs : Text) → IsDecimal c → trim_start (c ∷ cs) ≡ c ∷ cs
unfolding trim_start
trim_lem c cs h = rw (space_lem c h)

no_0x : (t : Text) → All IsDecimal t → after_0x t ≡ none
unfolding after_0x
no_0x [] h = refl
no_0x (c ∷ []) h = refl
no_0x (c ∷ d ∷ cs) h =
    let small : (d == b'x') ≡ false = ground arith in
    let large : (d == b'X') ≡ false = ground arith in
    elim (Bool-cases (c == b'0')) [ inl e ↦ rw (e, small, large) | inr e ↦ rw e ]

no_sign :
    (c : ℕ) (cs : Text) → IsDecimal c → parse_decimal (c ∷ cs) ≡ to_u32 (read_front 10 0 (c ∷ cs))
unfolding parse_decimal
no_sign c cs h =
    let minus : (c == b'-') ≡ false = ground arith in
    let plus : (c == b'+') ≡ false = ground arith in rw (minus, plus)

-- A text of decimal digits is read as a decimal number.
parse_digits : (t : Text) → All IsDecimal t → parse_number t ≡ to_u32 (read_front 10 0 t)
unfolding parse_number
parse_digits [] h = unfold trim_start after_0x parse_decimal read_front in refl
parse_digits (c ∷ cs) h = rw (trim_lem c cs h.0, no_0x (c ∷ cs) h) (no_sign c cs h.0)

-- What the page writes for a number is read as the number modulo 2 ^ 32.
pub parse_number-dec : (n : ℕ) → parse_number (dec n) ≡ to_u32 n
parse_number-dec n =
    parse_digits (dec n) (dec-IsDecimal n)
    ∙ ap to_u32 (unfold dec in read-to_text 10 n (omega arith) (omega arith))
