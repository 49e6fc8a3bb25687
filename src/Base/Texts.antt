-- ===== src/Base/Texts.antt =====
-- Text as a list of code points, and how JavaScript prints numbers.
pub mod Hex
use Prim.Native.Char.{Char, code}
use Prim.Native.String.{String}
use Prim.Native.Nat.{ℕ, zero, suc, ◌+◌, ◌-◌, ◌/◌, ◌%◌}
use mathlib.Core.List.{List, [], ◌∷◌, ◌++◌}
use open_fpgastudio.Base.Tests.{ltb, ◌==◌, if◌then◌else◌}
use open_fpgastudio.Base.Lists.{length, replicate}

abbrev pub Text : Type 0
Text = List ℕ

-- A literal of the source.
abbrev pub codes : String → Text
codes String.[] = []
codes (String.◌∷◌ c s) = code c ∷ codes s

-- One upper-case digit.
unfoldable pub digit : ℕ → ℕ
digit d = if ltb d 10 then b'0' + d else b'A' + (d - 10)

-- The digits of a number above the text `out`; a number below 2 ^ 53 has at most 53 of them, and
-- `n` rounds are enough for `n`.
unfoldable pub digits_onto : ℕ → ℕ → ℕ → Text → Text
digits_onto base zero n out = out
digits_onto base (suc fuel) n out =
    let rest = digits_onto base fuel (n / base) (digit (n % base) ∷ out) in
    if n == 0 then out else rest

-- `value.toString(base)`
unfoldable pub to_text : ℕ → ℕ → Text
unfolding digits_onto digit
to_text base n = if n == 0 then b'0' ∷ [] else digits_onto base n n []

-- `text.padStart(width, "0")`
unfoldable pub pad_start : ℕ → Text → Text
pad_start width t = replicate (width - length t) b'0' ++ t

-- `${n}`
unfoldable pub dec : ℕ → Text
unfolding to_text
dec n = to_text 10 n

-- `hex`
unfoldable pub hex : ℕ → ℕ → Text
unfolding to_text pad_start
hex value width = codes "0x" ++ pad_start width (to_text 16 value)
