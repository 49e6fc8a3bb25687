-- ===== src/Diagnosis/Validator.antt =====
-- The validator of a provider's reply, tools/viewer/web/diagnosis_validator.js. The serialized reply
-- and what `JSON.parse` makes of it are arguments, and `string_of` stands for JavaScript's conversion
-- of an evidence id to a string.
pub mod Check
pub mod Sound
pub mod Throws
use open_fpgastudio.Base.{
  ℕ, zero, suc, ◌+◌, ◌*◌, ◌<◌, Bool, true, false, not, ◌&&◌, ◌||◌, Option, none, some, List, [],
  ◌∷◌, ◌++◌, map, length, leb, ltb, ◌==◌, if◌then◌else◌,
}
use open_fpgastudio.Base.Texts.{Text, codes, dec}
use open_fpgastudio.Base.Dict.{same_text}
use open_fpgastudio.Diagnosis.Json.{
  Number, Value, Items, Fields, null, bool, num, str, arr, obj, nil, cons, end, field, texts,
  get_field, set_field,
}
use open_fpgastudio.Diagnosis.Redaction.{
  lower, starts_with, includes, is_letter, is_digit, contains,
}

-- What `validate` comes to: it throws a `TypeError`, or gives the errors, or the changed reply.
pub data Verdict : Type 0 where
  thrown : Verdict
  invalid : List Text → Verdict
  valid : Value → Verdict

-- `Number.isFinite(n) && !(n < 0) && !(n > 1)`
unfoldable pub in_unit : Number → Bool
in_unit n =
    not (n.bottom == 0) && (not (n.negative && ltb 0 n.top) && (n.negative || leb n.top n.bottom))

unfoldable pub at_most_quarter : Number → Bool
at_most_quarter n = n.negative || leb (4 * n.top) n.bottom

-- `Math.min(n, 0.25)`
unfoldable pub capped : Number → Number
unfolding at_most_quarter
capped n = if at_most_quarter n then n else record { negative = false; top = 1; bottom = 4 }

-- `Boolean(value)`
unfoldable pub truthy : Option Value → Bool
truthy none = false
truthy (some null) = false
truthy (some (bool b)) = b
truthy (some (num n)) = not (n.top == 0)
truthy (some (str [])) = false
truthy (some _) = true

-- `!ids || !ids.length`
unfoldable pub no_ids : Option Value → Bool
unfolding truthy get_field
no_ids (some (arr (cons id ids))) = false
no_ids (some (str (c ∷ cs))) = false
no_ids (some (obj fields)) = not (truthy (get_field (codes "length") fields))
no_ids _ = true

-- `value === text`
unfoldable pub is_text : Text → Option Value → Bool
unfolding same_text
is_text t (some (str u)) = same_text u t
is_text t _ = false

abbrev pub add_if : Bool → Text → List Text
add_if false error = []
add_if true error = error ∷ []

unfoldable pub is_word_char : ℕ → Bool
unfolding is_letter is_digit
is_word_char c = is_letter c || is_digit c || c == b'_'

-- `\b` in front of the rest of a text.
unfoldable pub ends_word : Text → Bool
unfolding is_word_char
ends_word [] = true
ends_word (c ∷ cs) = not (is_word_char c)

-- A word of the list stands at the start of the text, in lower case, with its end behind it.
unfoldable pub word_here : Text → Text → Bool
unfolding ends_word
word_here [] t = ends_word t
word_here (w ∷ ws) [] = false
word_here (w ∷ ws) (c ∷ cs) = w == c && word_here ws cs

abbrev pub mutating_words : List Text
mutating_words =
    codes "write"
    ∷ codes "program"
    ∷ codes "flash"
    ∷ codes "delete"
    ∷ codes "remove"
    ∷ codes "reset"
    ∷ codes "modify"
    ∷ codes "install"
    ∷ codes "execute"
    ∷ codes "run command"
    ∷ []

unfoldable pub any_word : List Text → Text → Bool
unfolding word_here
any_word [] t = false
any_word (w ∷ ws) t = word_here w t || any_word ws t

-- `inside`: a word character stands in front.
unfoldable pub mutating_from : Bool → Text → Bool
unfolding any_word is_word_char
mutating_from inside [] = false
mutating_from inside (c ∷ cs) =
    (not inside && any_word mutating_words (c ∷ cs)) || mutating_from (is_word_char c) cs

-- `MUTATING.test(action)`
unfoldable pub is_mutating : Text → Bool
unfolding mutating_from lower
is_mutating action = mutating_from false (lower action)

-- `errors.push("secret_echo_detected")` for every secret that the reply holds.
unfoldable pub secret_errors : List Text → Text → List Text
unfolding includes
secret_errors [] serialized = []
secret_errors ([] ∷ secrets) serialized = secret_errors secrets serialized
secret_errors ((c ∷ cs) ∷ secrets) serialized =
    add_if (includes (c ∷ cs) serialized) (codes "secret_echo_detected")
    ++ secret_errors secrets serialized

abbrev pub required : List Text
required =
    codes "schema_version"
    ∷ codes "summary"
    ∷ codes "observed_facts"
    ∷ codes "hypotheses"
    ∷ codes "recommended_actions"
    ∷ codes "insufficient_evidence"
    ∷ codes "metadata"
    ∷ []

abbrev pub is_absent : Option Value → Bool
is_absent none = true
is_absent (some v) = false

unfoldable pub missing_fields : List Text → Fields → List Text
unfolding get_field
missing_fields [] fields = []
missing_fields (key ∷ keys) fields =
    add_if (is_absent (get_field key fields)) (codes "missing_field:" ++ key)
    ++ missing_fields keys fields

unfoldable pub is_one : Option Value → Bool
is_one (some (num n)) = not n.negative && (n.top == n.bottom && not (n.bottom == 0))
is_one _ = false

abbrev pub is_string : Option Value → Bool
is_string (some (str t)) = true
is_string _ = false

abbrev pub is_array : Option Value → Bool
is_array (some (arr items)) = true
is_array _ = false

abbrev pub is_object : Option Value → Bool
is_object (some (obj fields)) = true
is_object _ = false

unfoldable pub not_arrays : List Text → Fields → List Text
unfolding get_field
not_arrays [] fields = []
not_arrays (key ∷ keys) fields =
    add_if (not (is_array (get_field key fields))) (codes "invalid_type:" ++ key)
    ++ not_arrays keys fields

abbrev pub array_keys : List Text
array_keys =
    codes "observed_facts"
    ∷ codes "hypotheses"
    ∷ codes "recommended_actions"
    ∷ codes "insufficient_evidence"
    ∷ []

-- The tests of the fields' types.
unfoldable pub type_errors : Fields → List Text
unfolding is_one not_arrays get_field
type_errors fields =
    add_if (not (is_one (get_field (codes "schema_version") fields)))
      (codes "unsupported_schema_version")
    ++ add_if (not (is_string (get_field (codes "summary") fields))) (codes "invalid_summary")
    ++ not_arrays array_keys fields
    ++ add_if (not (is_object (get_field (codes "metadata") fields)))
        (codes "invalid_type:metadata")

-- The errors up to the first `if (errors.length)`.
unfoldable pub shape_errors : List Text → Text → Fields → List Text
unfolding secret_errors missing_fields type_errors
shape_errors secrets serialized fields =
    secret_errors secrets serialized ++ missing_fields required fields ++ type_errors fields
