-- ===== src/Page/Vcd/Times.antt =====
-- The times in a VCD file (`exportLogicAnalyzerVcd` of tools/viewer/web/app.js).
use open_fpgastudio.Base.{
  ℕ, zero, suc, sym, append_assoc, arith, get_elem?, ◌+◌, ◌≡◌, refl, ap, ◌∙◌, Bool, true, false,
  Bool-cases, inl, inr, Option, none, some, List, [], ◌∷◌, ◌++◌, ◌==◌, if◌then◌else◌, if-intro, ◌≤◌,
  ◌^◌, ◌%◌, shr,
}
use open_fpgastudio.Base.Texts.{Text, dec}
use open_fpgastudio.State.Tables.{Channel}
use open_fpgastudio.Page.Vcd.Values.{Reads, value_line-Reads}
use open_fpgastudio.Page.Vcd.{
  symbol_of, value_line, value_lines, marker_lines, sample_lines, all_lines,
}

-- The lines that say a time, as a reader of the file finds them.
abbrev pub is_time : Text → Bool
is_time [] = false
is_time (c ∷ cs) = c == b'#'

abbrev pub time_lines : List Text → List Text
time_lines [] = []
time_lines (line ∷ lines) = if is_time line then line ∷ time_lines lines else time_lines lines

-- The times of the samples that have come.
abbrev pub times_of : ℕ → List (Option ℕ) → List Text
times_of index [] = []
times_of index (none ∷ samples) = times_of (index + 1) samples
times_of index (some sample ∷ samples) = (b'#' ∷ dec index) ∷ times_of (index + 1) samples

time_lines-append : (xs ys : List Text) → time_lines (xs ++ ys) ≡ time_lines xs ++ time_lines ys
time_lines-append [] ys = refl
time_lines-append (x ∷ xs) ys = elim (Bool-cases (is_time x)) [
  | inl e ↦ rw e (ap (x ∷◌) (time_lines-append xs ys))
  | inr e ↦ rw e (time_lines-append xs ys)
]

value_no_time : (index : ℕ) (c : Channel) (sample : ℕ) → is_time (value_line index c sample) ≡ false
unfolding value_line
value_no_time index c sample =
    if-intro (λ t. is_time t ≡ false) (c.width == 1) _ _ (digit_no_time _) refl
  where
    digit_no_time : (b : Bool) → ((if b then b'0' else b'1') == b'#') ≡ false
    digit_no_time true = refl
    digit_no_time false = refl

values_no_time :
    (index : ℕ) (cs : List Channel) (sample : ℕ) → time_lines (value_lines index cs sample) ≡ []
unfolding value_lines
values_no_time index [] sample = refl
values_no_time index (c ∷ cs) sample =
    rw (value_no_time index c sample) (values_no_time (index + 1) cs sample)

marker_no_time : (behind index : ℕ) → time_lines (marker_lines behind index) ≡ []
unfolding marker_lines
marker_no_time behind index =
    if-intro (λ ls. time_lines ls ≡ []) (index + 1 == behind) _ _ refl
      (if-intro (λ ls. time_lines ls ≡ []) (index == behind) _ _ refl refl)

time_lines-all_lines :
    (channels : List Channel) (behind index : ℕ) (samples : List (Option ℕ))
    → time_lines (all_lines channels behind index samples) ≡ times_of index samples
unfolding all_lines sample_lines
time_lines-all_lines channels behind index [] = refl
time_lines-all_lines channels behind index (none ∷ samples) =
    time_lines-all_lines channels behind (index + 1) samples
time_lines-all_lines channels behind index (some sample ∷ samples) =
    let values : List Text = value_lines 0 channels sample in
    let markers : List Text = marker_lines behind index in
    let rest : List Text = all_lines channels behind (index + 1) samples in
    ap ((b'#' ∷ dec index) ∷◌) (
      time_lines-append (values ++ markers) rest
      ∙ ap (λ ls. ls ++ time_lines rest)
          (time_lines-append values markers
            ∙ (λ i. values_no_time 0 channels sample i ++ marker_no_time behind index i))
      ∙ time_lines-all_lines channels behind (index + 1) samples)

-- Behind the line of a time, and before the next time, stands a line with the value `v` of `w` bits of a
-- channel.
pub record HasValue (lines : List Text) (time : Text) (w v : ℕ) (symbol : Text) : Type 0 where
  pub front : List Text
  pub between : List Text
  pub line : Text
  pub back : List Text
  pub is_there : lines ≡ front ++ time ∷ (between ++ line ∷ back)
  pub same_time : time_lines between ≡ []
  pub is_read : Reads line w v symbol

-- The line of a channel among those of its sample.
record IsAmong (lines : List Text) (line : Text) : Type 0 where
  pub before : List Text
  pub after : List Text
  pub splits : lines ≡ before ++ line ∷ after
  pub no_time : time_lines before ≡ []

value_IsAmong :
    (index k at : ℕ) (cs : List Channel) (c : Channel) (sample : ℕ)
    → index + k ≡ at
    → get_elem? cs k ≡ some c
    → IsAmong (value_lines index cs sample) (value_line at c sample)
unfolding value_lines
value_IsAmong index k at [] c sample there e = cc
value_IsAmong index zero at (d ∷ cs) c sample there e =
    let same : d ≡ c = cc in
    let here : index ≡ at = omega (arith, there) in
    record {
      before = [];
      after = value_lines (index + 1) cs sample;
      splits = λ i. value_line (here i) (same i) sample ∷ value_lines (index + 1) cs sample;
      no_time = refl;
    }
value_IsAmong index (suc k) at (d ∷ cs) c sample there e =
    let found = value_IsAmong (index + 1) k at cs c sample (omega (arith, there)) e in
    record {
      before = value_line index d sample ∷ found.before;
      after = found.after;
      splits = ap (value_line index d sample ∷◌) found.splits;
      no_time = rw (value_no_time index d sample) found.no_time;
    }

-- A value that stands in the lines of the later samples stands in all of them.
behind_lines :
    (first lines : List Text) (time : Text) (w v : ℕ) (symbol : Text)
    → HasValue lines time w v symbol
    → HasValue (first ++ lines) time w v symbol
behind_lines first lines time w v symbol h = record {
  front = first ++ h.front;
  between = h.between;
  line = h.line;
  back = h.back;
  is_there =
      ap (first ++◌) h.is_there
      ∙ sym (append_assoc first h.front (time ∷ (h.between ++ h.line ∷ h.back)));
  same_time = h.same_time;
  is_read = h.is_read;
}

all_lines-HasValue :
    (channels : List Channel) (behind index i at k : ℕ) (samples : List (Option ℕ)) (c : Channel)
    (sample : ℕ)
    → index + i ≡ at
    → get_elem? samples i ≡ some (some sample)
    → get_elem? channels k ≡ some c
    → 2 ≤ c.width
    → c.width ≤ 31
    → HasValue
        (all_lines channels behind index samples)
        (b'#' ∷ dec at)
        c.width
        (shr sample (c.bit % 32) % 2 ^ c.width)
        (symbol_of k)
unfolding all_lines sample_lines
all_lines-HasValue channels behind index i at k [] c sample there e f h g = cc
all_lines-HasValue channels behind index zero at k (none ∷ samples) c sample there e f h g = cc
all_lines-HasValue channels behind index zero at k (some x ∷ samples) c sample there e f h g =
    let same : x ≡ sample = cc in
    let here : index ≡ at = omega (arith, there) in
    let found = value_IsAmong 0 k k channels c sample (omega arith) f in
    let markers : List Text = marker_lines behind index in
    let rest : List Text = all_lines channels behind (index + 1) samples in
    record {
      front = [];
      between = found.before;
      line = value_line k c sample;
      back = (found.after ++ markers) ++ rest;
      is_there =
          (λ i. (b'#' ∷ dec (here i)) ∷ ((value_lines 0 channels (same i) ++ markers) ++ rest))
          ∙ ap (λ ls. (b'#' ∷ dec at) ∷ ((ls ++ markers) ++ rest)) found.splits
          ∙ ap (λ ls. (b'#' ∷ dec at) ∷ (ls ++ rest))
              (append_assoc found.before (value_line k c sample ∷ found.after) markers)
          ∙ ap ((b'#' ∷ dec at) ∷◌)
              (append_assoc found.before (value_line k c sample ∷ (found.after ++ markers)) rest);
      same_time = found.no_time;
      is_read = value_line-Reads k c sample h g;
    }
all_lines-HasValue channels behind index (suc i) at k (x ∷ samples) c sample there e f h g =
    behind_lines (sample_lines channels behind index x) _ _ _ _ _ (
      all_lines-HasValue channels behind (index + 1) i at k samples c sample (omega (arith, there))
        e f h g)

-- The lines of the samples say the index of each sample that has come, once and in order, and no other
-- time. Behind the index of a sample that has come, and before the next index, each channel of 2 to 31
-- bits has a line with as many bits, which are the channel's bits of the sample, and with the channel's
-- symbol.
pub vcd-Reads :
    (channels : List Channel) (behind : ℕ) (samples : List (Option ℕ)) (i k : ℕ) (c : Channel)
    (sample : ℕ)
    → get_elem? samples i ≡ some (some sample)
    → get_elem? channels k ≡ some c
    → 2 ≤ c.width
    → c.width ≤ 31
    → let lines = all_lines channels behind 0 samples in
      (time_lines lines ≡ times_of 0 samples)
      × HasValue lines (b'#' ∷ dec i) c.width (shr sample (c.bit % 32) % 2 ^ c.width) (symbol_of k)
vcd-Reads channels behind samples i k c sample e f h g = (
  time_lines-all_lines channels behind 0 samples,
  all_lines-HasValue channels behind 0 i i k samples c sample (omega arith) e f h g,
)
