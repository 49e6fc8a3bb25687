-- ===== src/Page/Jsonl/Lines.antt =====
-- A reader of the lines of JSON that `exportJsonl` of tools/viewer/web/app.js writes.
use open_fpgastudio.Base.{◌≢◌, List, [], ◌∷◌, ◌++◌, All, ◌==◌, if◌then◌else◌}
use open_fpgastudio.Base.Texts.{Text}
use open_fpgastudio.Receiver.{Receiver}

-- The lines of a text, of which `acc` is the beginning of the first.
abbrev pub split_lines : Text → Text → List Text
split_lines acc [] = []
split_lines acc (c ∷ cs) =
    let ended = split_lines [] cs in
    let goes_on = split_lines (acc ++ c ∷ []) cs in if c == 10 then acc ∷ ended else goes_on

-- A text without an end of line.
abbrev pub IsLine : Text → Type 0
IsLine = All (λ c. c ≢ 10)

-- A list with an element.
pub data Filled {A : Type 0} : List A → Type 0 where
  filled : (x : A) (xs : List A) → Filled (x ∷ xs)
