-- ===== src/Page/Vcd/Values.antt =====
-- The values in a VCD file (`exportLogicAnalyzerVcd` of tools/viewer/web/app.js).
use native.Mathlib.Nat.{pow-suc, pow-le-pow_right, mod-lt}
use open_fpgastudio.Base.{
  ℕ, zero, suc, ◌+◌, ◌-◌, ◌/◌, ◌^◌, ◌%◌, ◌≤◌, ◌<◌, ◌≡◌, refl, ◌∙◌, true, false, Bool-cases, inl,
  inr, [], ◌∷◌, ◌++◌, length, length-append, replicate, length-replicate, leb, ◌==◌, shr, arith,
}
use open_fpgastudio.Base.Texts.{Text, digit, digits_onto, to_text, pad_start}
use open_fpgastudio.State.Tables.{Channel}
use open_fpgastudio.Form.{read_front}
use open_fpgastudio.Form.Numbers.{read-to_text, read-zeros}
use open_fpgastudio.Page.Vcd.{channel_value, value_bits, symbol_of, value_line}

length-digits_onto :
    (k fuel n : ℕ) (out : Text) → n < 2 ^ k → length (digits_onto 2 fuel n out) ≤ k + length out
unfolding digits_onto
length-digits_onto k zero n out h = omega arith
length-digits_onto zero (suc fuel) n out h =
    let none_left : (n == 0) ≡ true = ground arith in rw none_left (omega arith)
length-digits_onto (suc k) (suc fuel) n out h = elim (Bool-cases (n == 0)) [
  | inl stop ↦ rw stop (omega arith)
  | inr more ↦
      let half : n / 2 < 2 ^ k = omega (arith, pow-suc 2 k) in
      rw more (omega (arith, length-digits_onto k fuel (n / 2) (digit (n % 2) ∷ out) half))
]

length-to_text : (k n : ℕ) → 1 ≤ k → n < 2 ^ k → length (to_text 2 n) ≤ k
unfolding to_text
length-to_text k n h small = elim (Bool-cases (n == 0)) [
  | inl stop ↦ rw stop h
  | inr more ↦ rw more (omega (arith, length-digits_onto k n n [] small))
]

length-pad_start : (w : ℕ) (t : Text) → length t ≤ w → length (pad_start w t) ≡ w
unfolding pad_start
length-pad_start w t h =
    let zeros : Text = replicate (w - length t) b'0' in
    let count : length zeros ≡ w - length t = length-replicate (w - length t) b'0' in
    omega (arith, length-append zeros t, count)

-- What a reader of the file finds in the line of a value: `w` bits, which are the number `v`, and the
-- channel's symbol.
pub record Reads (line : Text) (w v : ℕ) (symbol : Text) : Type 0 where
  pub bits : Text
  pub is_line : line ≡ b'b' ∷ (bits ++ b' ' ∷ symbol)
  pub has_width : length bits ≡ w
  pub is_value : read_front 2 0 bits ≡ v

two_pow : (w : ℕ) → w ≤ 31 → 2 ^ w ≤ 2 ^ 31
two_pow w h = pow-le-pow_right (omega arith) h

pub value_line-Reads :
    (index : ℕ) (c : Channel) (sample : ℕ)
    → 2 ≤ c.width
    → c.width ≤ 31
    → Reads
        (value_line index c sample)
        c.width
        (shr sample (c.bit % 32) % 2 ^ c.width)
        (symbol_of index)
unfolding value_line channel_value value_bits
value_line-Reads index c sample h k =
    let several : (c.width == 1) ≡ false = ground arith in
    let narrow : leb 32 c.width ≡ false = ground arith in
    let v : ℕ = shr sample (c.bit % 32) % 2 ^ c.width in
    let below : v < 2 ^ c.width =
      mod-lt (shr sample (c.bit % 32))
        (pow-le-pow_right {n = 2} (omega arith) {i = 0} (omega arith)) in
    let unsigned : leb (2 ^ 31) v ≡ false = ground (arith, two_pow c.width k) in
    rw (several, narrow)
      (rw unsigned (record {
        bits = pad_start c.width (to_text 2 v);
        is_line = refl;
        has_width =
            length-pad_start c.width (to_text 2 v) (length-to_text c.width v (omega arith) below);
        is_value =
            unfold pad_start in
            (read-zeros 2 (c.width - length (to_text 2 v)) (to_text 2 v) (omega arith) (omega arith)
              ∙ read-to_text 2 v (omega arith) (omega arith));
      }))
