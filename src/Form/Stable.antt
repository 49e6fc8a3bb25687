-- ===== src/Form/Stable.antt =====
-- The form of the logic analyzer's configuration (`applyLogicAnalyzerConfig` of tools/viewer/web/app.js):
-- the limits of what is read from it, and what is read from it a second time.
use open_fpgastudio.Base.{
  ℕ, ◌^◌, ◌≤◌, ◌<◌, ◌≡◌, ap, ◌∙◌, min, max, Option, none, some, List, [], ◌∷◌, arith, to_u32,
}
use open_fpgastudio.Base.Texts.{Text, dec, hex}
use open_fpgastudio.State.Tables.{Channel}
use open_fpgastudio.Form.{
  parse_number, parse_decimal, parse_trimmed, trim_start, after_0x, Form, visible_mask, read_form,
  show_form,
}
use open_fpgastudio.Form.Numbers.{parse_number-hex, parse_number-dec}

parse_decimal-lt : (t : Text) → parse_decimal t < 2 ^ 32
unfolding parse_decimal
parse_decimal-lt [] = omega arith
parse_decimal-lt (c ∷ cs) = ground arith

trimmed_lt : (digits : Option Text) (t : Text) → parse_trimmed digits t < 2 ^ 32
trimmed_lt none t = parse_decimal-lt t
trimmed_lt (some digits) t = omega arith

parse_number-lt : (t : Text) → parse_number t < 2 ^ 32
unfolding parse_number
parse_number-lt t = trimmed_lt (after_0x (trim_start t)) (trim_start t)

-- A number that fits is read back as it is.
again_dec : (n : ℕ) → n < 2 ^ 32 → parse_number (dec n) ≡ n
again_dec n h = parse_number-dec n ∙ omega arith

again_hex : (n : ℕ) → n < 2 ^ 32 → parse_number (hex n 8) ≡ n
again_hex n h = parse_number-hex n 8 ∙ omega arith

-- Whatever stands in the form, what is read from it is in the ranges of the board's registers; and the
-- form that is written back is read as the same configuration.
pub read_form-show_form :
    (form : Form) (manifest : List Channel)
    → let c = read_form form manifest in
      ((1 ≤ c.sample_divisor) × (c.sample_divisor < 2 ^ 16))
      × ((1 ≤ c.capture_depth) × (c.capture_depth < 2 ^ 32))
      × (c.pretrigger_depth < 2 ^ 32)
      × (c.trigger_mode ≤ 4)
      × (c.trigger_channel ≤ 31)
      × ((c.trigger_value < 2 ^ 32) × (c.trigger_mask < 2 ^ 32))
      × (c.channel_mask < 2 ^ 32)
      × (read_form (show_form c) manifest ≡ c)
unfolding read_form show_form
read_form-show_form form manifest =
    let divisor : ℕ = max 1 (min 0xFFFF (parse_number form.sample_divisor)) in
    let depth : ℕ = max 1 (parse_number form.capture_depth) in
    let before : ℕ = max 0 (parse_number form.pretrigger_depth) in
    let mode : ℕ = max 0 (min 4 (parse_number form.trigger_mode)) in
    let channel : ℕ = max 0 (min 31 (parse_number form.trigger_channel)) in
    let value = parse_number-lt form.trigger_value in
    let mask = parse_number-lt form.trigger_mask in
    let depth_lt = parse_number-lt form.capture_depth in
    let before_lt = parse_number-lt form.pretrigger_depth in
    let e1 : max 1 (min 0xFFFF (parse_number (dec divisor))) ≡ divisor =
      ap (λ n. max 1 (min 0xFFFF n)) (again_dec divisor (omega arith)) ∙ omega arith in
    let e2 : max 1 (parse_number (dec depth)) ≡ depth =
      ap (λ n. max 1 n) (again_dec depth (omega arith)) ∙ omega arith in
    let e3 : max 0 (parse_number (dec before)) ≡ before =
      ap (λ n. max 0 n) (again_dec before (omega arith)) ∙ omega arith in
    let e4 : max 0 (min 4 (parse_number (dec mode))) ≡ mode =
      ap (λ n. max 0 (min 4 n)) (again_dec mode (omega arith)) ∙ omega arith in
    let e5 : max 0 (min 31 (parse_number (dec channel))) ≡ channel =
      ap (λ n. max 0 (min 31 n)) (again_dec channel (omega arith)) ∙ omega arith in
    (
      (omega arith, omega arith),
      (omega arith, omega arith),
      omega arith,
      omega arith,
      omega arith,
      (value, mask),
      omega arith,
      λ i. record {
        sample_divisor = e1 i;
        capture_depth = e2 i;
        pretrigger_depth = e3 i;
        trigger_mode = e4 i;
        trigger_channel = e5 i;
        trigger_value = again_hex (parse_number form.trigger_value) value i;
        trigger_mask = again_hex (parse_number form.trigger_mask) mask i;
        channel_mask = to_u32 (visible_mask 0 manifest);
      },
    )
