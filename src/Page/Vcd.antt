-- ===== src/Page/Vcd.antt =====
-- The export of a capture as a VCD file: `exportLogicAnalyzerVcd` and `laChannelValue` of
-- tools/viewer/web/app.js. The download is left out.
pub mod Values
pub mod Times
use open_fpgastudio.Base.{
  ℕ, zero, suc, ◌+◌, ◌-◌, ◌^◌, ◌%◌, ◌&&◌, Bool, true, false, Option, none, some, List, [], ◌∷◌,
  ◌++◌, leb, ◌==◌, if◌then◌else◌, shr, get_elem?,
}
use open_fpgastudio.Base.Texts.{Text, codes, dec, to_text, pad_start}
use open_fpgastudio.State.Tables.{Channel}
use open_fpgastudio.State.Analyzer.{Analyzer, Capture, Header, TriggerEvent}
use open_fpgastudio.Page.{join, latest_capture}

-- `laChannelValue` of a sample that has come, as the pattern of 32 bits that `&` gives.
unfoldable pub channel_value : Channel → ℕ → ℕ
channel_value c sample =
    if c.width == 1
    then shr sample (c.bit % 32) % 2
    else if leb 32 c.width
    then shr sample (c.bit % 32)
    else shr sample (c.bit % 32) % 2 ^ c.width

-- `value.toString(2)`: the pattern is read as a signed number, and only a channel of 32 bits has its
-- sign.
unfoldable pub value_bits : ℕ → Text
value_bits v = if leb (2 ^ 31) v then b'-' ∷ to_text 2 (2 ^ 32 - v) else to_text 2 v

abbrev pub symbols : Text
symbols = codes "abcdefghijklmnopqrstuvwxyzABCDEFGHIJKLMNOPQRSTUVWXYZ0123456789!@#$%^&*()[]{}"

-- `symbols[index] || ...`
unfoldable pub symbol_of : ℕ → Text
symbol_of index = elim (get_elem? symbols index) [ none ↦ codes "s" ++ dec index | some c ↦ c ∷ [] ]

unfoldable pub visible_channels : List Channel → List Channel
visible_channels [] = []
visible_channels (c ∷ cs) = let rest = visible_channels cs in if c.visible then c ∷ rest else rest

-- The `$var` lines; `index` is that of the first channel.
unfoldable pub var_lines : ℕ → List Channel → List Text
unfolding symbol_of
var_lines index [] = []
var_lines index (c ∷ cs) =
    (codes "$var wire "
      ++ (dec c.width
          ++ (codes " " ++ (symbol_of index ++ (codes " " ++ (c.name ++ codes " $end"))))))
    ∷ var_lines (index + 1) cs

-- The line of one channel's value.
unfoldable pub value_line : ℕ → Channel → ℕ → Text
unfolding channel_value value_bits symbol_of
value_line index c sample =
    let v = channel_value c sample in
    if c.width == 1
    then (if v == 0 then b'0' else b'1') ∷ symbol_of index
    else b'b' ∷ (pad_start c.width (value_bits v) ++ b' ' ∷ symbol_of index)

unfoldable pub value_lines : ℕ → List Channel → ℕ → List Text
unfolding value_line
value_lines index [] sample = []
value_lines index (c ∷ cs) sample = value_line index c sample ∷ value_lines (index + 1) cs sample

-- `triggerIndex + 1`, which is 0 where there is neither a trigger event nor a header.
unfoldable pub behind_trigger : Capture → ℕ
behind_trigger capture = elim capture.trigger_event [
  | some event ↦ event.trigger_index + 1
  | none ↦ elim capture.header [ some header ↦ header.trigger_index + 1 | none ↦ 0 ]
]

unfoldable pub marker_lines : ℕ → ℕ → List Text
marker_lines behind index =
    if index + 1 == behind then codes "1~" ∷ [] else if index == behind then codes "0~" ∷ [] else []

-- The lines of one sample; one that has not come has none.
unfoldable pub sample_lines : List Channel → ℕ → ℕ → Option ℕ → List Text
unfolding value_lines marker_lines
sample_lines channels behind index none = []
sample_lines channels behind index (some sample) =
    (b'#' ∷ dec index) ∷ (value_lines 0 channels sample ++ marker_lines behind index)

-- The loop over the samples, from `index` on.
unfoldable pub all_lines : List Channel → ℕ → ℕ → List (Option ℕ) → List Text
unfolding sample_lines
all_lines channels behind index [] = []
all_lines channels behind index (sample ∷ samples) =
    sample_lines channels behind index sample ++ all_lines channels behind (index + 1) samples

-- The lines before the variables; `date` is `new Date().toISOString()`.
abbrev pub opening_lines : Text → List Text
opening_lines date =
    codes "$date"
    ∷ (codes "  " ++ date)
    ∷ codes "$end"
    ∷ codes "$version"
    ∷ codes "  YiFPGA Studio Web Viewer Logic Analyzer"
    ∷ codes "$end"
    ∷ codes "$timescale 1ns $end"
    ∷ codes "$scope module openfpga_la $end"
    ∷ []

abbrev pub closing_lines : List Text
closing_lines =
    codes "$var wire 1 ~ trigger_marker $end"
    ∷ codes "$upscope $end"
    ∷ codes "$enddefinitions $end"
    ∷ codes "#0"
    ∷ codes "0~"
    ∷ []

-- The lines of the file for a capture that has samples.
unfoldable pub vcd_lines : Text → List Channel → Capture → List Text
unfolding visible_channels var_lines all_lines behind_trigger
vcd_lines date manifest capture =
    let channels = visible_channels manifest in
    opening_lines date
    ++ (var_lines 0 channels
        ++ (closing_lines ++ all_lines channels (behind_trigger capture) 0 capture.samples))

abbrev pub empty_vcd : Text
empty_vcd = codes "$date\n  no capture\n$end\n"

abbrev pub vcd_of : Text → List Channel → Option Capture → Text
vcd_of date manifest none = empty_vcd
vcd_of date manifest (some capture) = elim capture.samples [
  | [] ↦ empty_vcd
  | _ ∷ _ ↦ join (codes "\n") (vcd_lines date manifest capture) ++ codes "\n"
]

-- The text that `exportLogicAnalyzerVcd` downloads.
unfoldable pub vcd_text : Text → Analyzer → Text
unfolding vcd_lines
vcd_text date a = vcd_of date a.manifest (latest_capture a)
