-- ===== src/Page/Csv.antt =====
-- What `csvCell` of tools/viewer/web/app.js writes, a reader of comma-separated values reads back.
use open_fpgastudio.Base.{
  ℕ, ◌≡◌, refl, sym, ap, ◌∙◌, true, false, Bool-cases, inl, inr, [], ◌∷◌, ◌++◌, arith, ==_iff, ◌==◌,
  if◌then◌else◌, append_assoc,
}
use open_fpgastudio.Base.Texts.{Text}
use open_fpgastudio.Page.{is_special, any_special, double_quotes, csv_cell}

-- A cell between quotes, whose first quote has been read: up to a quote that stands alone.
abbrev pub read_quoted : Text → Text × Text
read_quoted [] = ([], [])
read_quoted (c ∷ []) = if c == 34 then ([], []) else (c ∷ [], [])
read_quoted (c ∷ d ∷ cs) =
    let next = read_quoted (d ∷ cs) in
    let behind = read_quoted cs in
    if c == 34
    then (if d == 34 then (34 ∷ behind.0, behind.1) else ([], d ∷ cs))
    else (c ∷ next.0, next.1)

-- A cell without quotes: up to a comma or the end of the line.
abbrev pub read_plain : Text → Text × Text
read_plain [] = ([], [])
read_plain (c ∷ cs) =
    let next = read_plain cs in
    if c == 44 then ([], c ∷ cs) else if c == 10 then ([], c ∷ cs) else (c ∷ next.0, next.1)

-- A cell, and what comes behind it.
abbrev pub read_cell : Text → Text × Text
read_cell [] = ([], [])
read_cell (c ∷ cs) = if c == 34 then read_quoted cs else read_plain (c ∷ cs)

-- What may stand behind a cell: nothing, a comma, or the end of the line.
abbrev pub EndsCell : Text → Type 0
EndsCell [] = Unit {0}
EndsCell (c ∷ cs) = (if c == 44 then true else c == 10) ≡ true

quoted_step :
    (c : ℕ) (cs : Text)
    → (c == 34) ≡ false
    → read_quoted (c ∷ cs) ≡ (c ∷ (read_quoted cs).0, (read_quoted cs).1)
quoted_step c [] h = rw h
quoted_step c (d ∷ cs) h = rw h

quoted_end : (rest : Text) → EndsCell rest → read_quoted (34 ∷ rest) ≡ ([], rest)
quoted_end [] h = refl
quoted_end (c ∷ rest) h = ground arith

read-double :
    (t rest : Text) → EndsCell rest → read_quoted (double_quotes t ++ 34 ∷ rest) ≡ (t, rest)
unfolding double_quotes
read-double [] rest h = quoted_end rest h
read-double (c ∷ t) rest h = elim (Bool-cases (c == 34)) [
  | inl e ↦ rw (e, read-double t rest h) (ap (λ x. (x ∷ t, rest)) (sym ((==_iff c 34).0 e)))
  | inr e ↦ rw (e, quoted_step c (double_quotes t ++ 34 ∷ rest) e, read-double t rest h)
]

read-plain :
    (t rest : Text) → EndsCell rest → any_special t ≡ false → read_plain (t ++ rest) ≡ (t, rest)
unfolding any_special is_special
read-plain [] [] h none = refl
read-plain [] (c ∷ rest) h none = ground arith
read-plain (c ∷ t) rest h none =
    let later : any_special t ≡ false = ground arith in
    let behind : read_plain (t ++ rest) ≡ (t, rest) = read-plain t rest h later in
    let comma : (c == 44) ≡ false = ground arith in
    let line : (c == 10) ≡ false = ground arith in rw (comma, line, behind)

read-unquoted :
    (t rest : Text) → EndsCell rest → any_special t ≡ false → read_cell (t ++ rest) ≡ (t, rest)
unfolding any_special is_special
read-unquoted [] [] h none = refl
read-unquoted [] (c ∷ rest) h none =
    let quote : (c == 34) ≡ false = ground arith in rw quote (read-plain [] (c ∷ rest) h none)
read-unquoted (c ∷ t) rest h none =
    let quote : (c == 34) ≡ false = ground arith in rw quote (read-plain (c ∷ t) rest h none)

-- A cell is read back as the text that was written, whatever it holds (quotes, commas, ends of
-- lines), and the reader stops exactly behind it, if nothing, a comma or the end of the line is
-- there.
pub read_cell-csv_cell :
    (t rest : Text) → EndsCell rest → read_cell (csv_cell t ++ rest) ≡ (t, rest)
unfolding csv_cell
read_cell-csv_cell t rest h = elim (Bool-cases (any_special t)) [
  | inl e ↦
      rw e (ap read_quoted (append_assoc (double_quotes t) (34 ∷ []) rest) ∙ read-double t rest h)
  | inr e ↦ rw e (read-unquoted t rest h e)
]
