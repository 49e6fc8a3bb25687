-- ===== src/Base/Texts/Hex.antt =====
-- What `hex` of tools/viewer/web/app.js prints can be read back.
use Prim.Native.Nat.{ℕ, zero, suc, ◌+◌, ◌-◌, ◌*◌, ◌/◌, ◌%◌, ◌≤◌, ◌<◌}
use mathlib.Core.Path.{◌≡◌, refl, ap, ◌∙◌}
use mathlib.Core.Logic.{◌≢◌, inl, inr}
use mathlib.Core.List.{[], ◌∷◌, ◌++◌}
use native.Mathlib.Omega.{arith}
use open_fpgastudio.Base.Tests.{ltb, ◌==◌, if◌then◌else◌, Bool-cases}
use open_fpgastudio.Base.Lists.{length, replicate, drop, All, All-append}
use open_fpgastudio.Base.Texts.{Text, digit, digits_onto, to_text, pad_start, hex}

-- The value of a digit, and of a text of digits behind the value `acc`.
pub digit_value : ℕ → ℕ
digit_value c = if ltb c b'A' then c - b'0' else c - (b'A' - 10)

pub read_digits : ℕ → Text → ℕ
unfolding digit_value
read_digits acc [] = acc
read_digits acc (c ∷ cs) = read_digits (acc * 16 + digit_value c) cs

digit_value-digit : (d : ℕ) → d < 16 → digit_value (digit d) ≡ d
unfolding digit digit_value
digit_value-digit d h = ground arith

read-digits_onto :
    (fuel n : ℕ) (out : Text)
    → n ≤ fuel
    → read_digits 0 (digits_onto 16 fuel n out) ≡ read_digits n out
unfolding digits_onto
read-digits_onto zero zero out h = refl
read-digits_onto zero (suc n) out h = absurd (omega arith)
read-digits_onto (suc fuel) n out h = elim (Bool-cases (n == 0)) [
  | inl stop ↦ rw stop (ap (λ k. read_digits k out) (ground arith))
  | inr more ↦ rw more (
      read-digits_onto fuel (n / 16) (digit (n % 16) ∷ out) (ground arith)
      ∙ unfold read_digits in
        ap (λ k. read_digits k out) (omega (arith, digit_value-digit (n % 16) (omega arith))))
]

read-to_text : (n : ℕ) → read_digits 0 (to_text 16 n) ≡ n
unfolding to_text read_digits
read-to_text n = elim (Bool-cases (n == 0)) [
  | inl stop ↦ rw stop (ground arith)
  | inr more ↦ rw more (read-digits_onto n n [] (omega arith))
]

read-zeros : (k : ℕ) (t : Text) → read_digits 0 (replicate k b'0' ++ t) ≡ read_digits 0 t
unfolding read_digits
read-zeros zero t = refl
read-zeros (suc k) t = read-zeros k t

-- The digits behind "0x" are those of the number, whatever the width.
pub read-hex : (n width : ℕ) → read_digits 0 (drop 2 (hex n width)) ≡ n
unfolding hex pad_start
read-hex n width = read-zeros (width - length (to_text 16 n)) (to_text 16 n) ∙ read-to_text n

-- Two numbers that `hex` prints alike are equal.
pub hex-injective : (m n v w : ℕ) → hex m v ≡ hex n w → m ≡ n
hex-injective m n v w e =
    omega (arith, read-hex m v, read-hex n w, ap (λ t. read_digits 0 (drop 2 t)) e)

-- No colon.
abbrev pub IsPlain : ℕ → Type 0
IsPlain c = c ≢ b':'

digit-IsPlain : (d : ℕ) → IsPlain (digit d)
unfolding digit
digit-IsPlain d = ground arith

digits_onto-IsPlain :
    (base fuel n : ℕ) (out : Text) → All IsPlain out → All IsPlain (digits_onto base fuel n out)
unfolding digits_onto
digits_onto-IsPlain base zero n out h = h
digits_onto-IsPlain base (suc fuel) n out h = ground (
  arith,
  digits_onto-IsPlain base fuel (n / base) (digit (n % base) ∷ out) (digit-IsPlain (n % base), h),
)

to_text-IsPlain : (n : ℕ) → All IsPlain (to_text 16 n)
unfolding to_text
to_text-IsPlain n = ground (arith, digits_onto-IsPlain 16 n n [] tt)

zeros-IsPlain : (k : ℕ) → All IsPlain (replicate k b'0')
zeros-IsPlain zero = tt
zeros-IsPlain (suc k) = (omega arith, zeros-IsPlain k)

pub hex-IsPlain : (n width : ℕ) → All IsPlain (hex n width)
unfolding hex pad_start
hex-IsPlain n width =
    let digits : All IsPlain (pad_start width (to_text 16 n)) =
      All-append IsPlain _ _ (zeros-IsPlain (width - length (to_text 16 n))) (to_text-IsPlain n) in
    (omega arith, (omega arith, digits))

-- The text in front of the first colon, and the text behind it.
pub before_colon : Text → Text
before_colon [] = []
before_colon (c ∷ cs) = if c == b':' then [] else c ∷ before_colon cs

pub after_colon : Text → Text
after_colon [] = []
after_colon (c ∷ cs) = if c == b':' then cs else after_colon cs

pub before_colon_lem : (xs ys : Text) → All IsPlain xs → before_colon (xs ++ b':' ∷ ys) ≡ xs
unfolding before_colon
before_colon_lem [] ys h = refl
before_colon_lem (x ∷ xs) ys h = ground (arith, before_colon_lem xs ys h.1)

pub after_colon_lem : (xs ys : Text) → All IsPlain xs → after_colon (xs ++ b':' ∷ ys) ≡ ys
unfolding after_colon
after_colon_lem [] ys h = refl
after_colon_lem (x ∷ xs) ys h = ground (arith, after_colon_lem xs ys h.1)
