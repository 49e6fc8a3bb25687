-- ===== src/Form.antt =====
-- The fields of the page that hold numbers, in tools/viewer/web/app.js: `parseNumber`, the form of the
-- logic analyzer's configuration and the viewport's fields.
pub mod Numbers
pub mod Stable
use open_fpgastudio.Base.{
  ℕ, zero, suc, ◌+◌, ◌-◌, ◌*◌, ◌/◌, ◌^◌, ◌%◌, min, max, bit_or, Bool, true, false, not, ◌&&◌, ◌||◌,
  Option, none, some, List, [], ◌∷◌, ltb, leb, ◌==◌, if◌then◌else◌, shl, to_u32,
}
use open_fpgastudio.Base.Texts.{Text, dec, hex}
use open_fpgastudio.State.Tables.{Channel}
use open_fpgastudio.State.Analyzer.{Config, Viewport}

-- White space, as `trim` takes it off.
unfoldable pub is_space : ℕ → Bool
is_space c =
    (leb 9 c && leb c 13)
    || (c == 32
        || (c == 0xA0
            || (c == 0x1680
                || ((leb 0x2000 c && leb c 0x200A)
                    || (c == 0x2028
                        || (c == 0x2029
                            || (c == 0x202F || (c == 0x205F || (c == 0x3000 || c == 0xFEFF)))))))))

-- `trim`; white space at the end is left, where it ends the digits all the same.
unfoldable pub trim_start : Text → Text
unfolding is_space
trim_start [] = []
trim_start (c ∷ cs) = let rest = trim_start cs in if is_space c then rest else c ∷ cs

unfoldable pub digit_of : ℕ → ℕ
digit_of c =
    if leb b'0' c && leb c b'9'
    then c - b'0'
    else if leb b'A' c && leb c b'Z'
    then c - b'A' + 10
    else if leb b'a' c && leb c b'z'
    then c - b'a' + 10
    else 36

-- The digits at the front, behind the value `acc`.
unfoldable pub read_front : ℕ → ℕ → Text → ℕ
unfolding digit_of
read_front base acc [] = acc
read_front base acc (c ∷ cs) =
    let more = read_front base (acc * base + digit_of c) cs in
    if ltb (digit_of c) base then more else acc

-- `Number.parseInt(value, 10) >>> 0`; without digits it is `NaN >>> 0`, which is 0. Numbers that a
-- double holds exactly are meant, those below 2 ^ 53.
unfoldable pub parse_decimal : Text → ℕ
unfolding read_front
parse_decimal [] = 0
parse_decimal (c ∷ cs) =
    if c == b'-'
    then (2 ^ 32 - read_front 10 0 cs % 2 ^ 32) % 2 ^ 32
    else to_u32 (read_front 10 0 (if c == b'+' then cs else c ∷ cs))

-- `/^0x/i`, with the text behind it.
unfoldable pub after_0x : Text → Option Text
after_0x (a ∷ b ∷ cs) = if a == b'0' && (b == b'x' || b == b'X') then some cs else none
after_0x _ = none

abbrev pub parse_trimmed : Option Text → Text → ℕ
parse_trimmed (some digits) t = to_u32 (read_front 16 0 digits)
parse_trimmed none t = parse_decimal t

-- `parseNumber`
unfoldable pub parse_number : Text → ℕ
unfolding trim_start after_0x parse_decimal read_front
parse_number t = let trimmed = trim_start t in parse_trimmed (after_0x trimmed) trimmed

-- The fields of the form, as they stand on the page.
pub record Form : Type 0 where
  pub sample_divisor : Text
  pub capture_depth : Text
  pub pretrigger_depth : Text
  pub trigger_mode : Text
  pub trigger_channel : Text
  pub trigger_value : Text
  pub trigger_mask : Text

-- The bits of a channel: `((width >= 32 ? 0xFFFFFFFF : (1 << width) - 1) << bit) >>> 0`; a channel's
-- bit is below 32.
unfoldable pub channel_bits : Channel → ℕ
channel_bits c = shl ((if leb 32 c.width then 2 ^ 32 else 2 ^ c.width) - 1) c.bit

unfoldable pub visible_mask : ℕ → List Channel → ℕ
unfolding channel_bits
visible_mask mask [] = mask
visible_mask mask (c ∷ cs) =
    visible_mask (if c.visible then bit_or mask (channel_bits c) else mask) cs

-- What `applyLogicAnalyzerConfig` makes of the form.
unfoldable pub read_form : Form → List Channel → Config
unfolding parse_number visible_mask
read_form form manifest = record {
  sample_divisor = max 1 (min 0xFFFF (parse_number form.sample_divisor));
  capture_depth = max 1 (parse_number form.capture_depth);
  pretrigger_depth = max 0 (parse_number form.pretrigger_depth);
  trigger_mode = max 0 (min 4 (parse_number form.trigger_mode));
  trigger_channel = max 0 (min 31 (parse_number form.trigger_channel));
  trigger_value = parse_number form.trigger_value;
  trigger_mask = parse_number form.trigger_mask;
  channel_mask = to_u32 (visible_mask 0 manifest);
}

-- What it writes back to the form.
unfoldable pub show_form : Config → Form
show_form c = record {
  sample_divisor = dec c.sample_divisor;
  capture_depth = dec c.capture_depth;
  pretrigger_depth = dec c.pretrigger_depth;
  trigger_mode = dec c.trigger_mode;
  trigger_channel = dec c.trigger_channel;
  trigger_value = hex c.trigger_value 8;
  trigger_mask = hex c.trigger_mask 8;
}

-- The texts of the viewport's fields.
pub record ViewportForm : Type 0 where
  pub start_sample : Text
  pub samples_per_pixel : Text
  pub cursor_a : Text
  pub cursor_b : Text

-- `setLogicAnalyzerViewportFromInputs`
unfoldable pub read_viewport : ViewportForm → Viewport
unfolding parse_number
read_viewport form = record {
  start_sample = max 0 (parse_number form.start_sample);
  samples_per_pixel = max 1 (parse_number form.samples_per_pixel);
  cursor_a = max 0 (parse_number form.cursor_a);
  cursor_b = max 0 (parse_number form.cursor_b);
}

-- `Math.max(1, Math.round(samplesPerPixel * factor))` of `zoomLogicAnalyzer`, with the factor 1 / 2
-- of the button that zooms in and the factor 2 of the other one.
unfoldable pub zoom_in : Viewport → Viewport
zoom_in v = record v { samples_per_pixel = max 1 ((v.samples_per_pixel + 1) / 2) }

unfoldable pub zoom_out : Viewport → Viewport
zoom_out v = record v { samples_per_pixel = max 1 (v.samples_per_pixel * 2) }
