-- ===== src/Diagnosis/Json.antt =====
-- JSON values as the diagnosis files beside tools/viewer/web/app.js handle them. The fields of an
-- object stand in the order of `Object.entries`, each key once. A number is `top / bottom` with its
-- sign; that is every number a double can hold, and with a `bottom` of 0 the infinite one that
-- `JSON.parse` makes of a literal that is too large.
use open_fpgastudio.Base.{
  ℕ, ◌≡◌, refl, Bool, true, false, Bool-cases, inl, inr, Option, none, some, List, [], ◌∷◌,
  if◌then◌else◌,
}
use open_fpgastudio.Base.Texts.{Text}
use open_fpgastudio.Base.Dict.{same_text, same_text_iff}

pub record Number : Type 0 where
  pub negative : Bool
  pub top : ℕ
  pub bottom : ℕ

mutual
  pub data Value : Type 0 where
    null : Value
    bool : Bool → Value
    num : Number → Value
    str : Text → Value
    arr : Items → Value
    obj : Fields → Value

  pub data Items : Type 0 where
    nil : Items
    cons : Value → Items → Items

  pub data Fields : Type 0 where
    end : Fields
    field : Text → Value → Fields → Fields

-- `typeof value === "string"`, with the string.
abbrev pub as_text : Value → Option Text
as_text (str t) = some t
as_text _ = none

-- An array of strings.
abbrev pub texts : List Text → Items
texts [] = nil
texts (t ∷ ts) = cons (str t) (texts ts)

-- `object[key]`, and `object[key] = value`.
unfoldable pub get_field : Text → Fields → Option Value
get_field key end = none
get_field key (field k v fields) = if same_text k key then some v else get_field key fields

unfoldable pub set_field : Text → Value → Fields → Fields
set_field key value end = field key value end
set_field key value (field k v fields) =
    let others = set_field key value fields in
    if same_text k key then field k value fields else field k v others

pub get_field-set_field :
    (key : Text) (value : Value) (fields : Fields)
    → get_field key (set_field key value fields) ≡ some value
unfolding get_field set_field
get_field-set_field key value end = rw ((same_text_iff key key).1 refl)
get_field-set_field key value (field k v fields) = elim (Bool-cases (same_text k key)) [
  | inl e ↦ rw (e, e)
  | inr e ↦ rw (e, e, get_field-set_field key value fields)
]

same_text_other :
    (k j key : Text) → same_text key j ≡ false → same_text k key ≡ true → same_text k j ≡ false
same_text_other k j key apart e = rw ((same_text_iff k key).0 e) apart

pub get_field_other :
    (j key : Text) (value : Value) (fields : Fields)
    → same_text key j ≡ false
    → get_field j (set_field key value fields) ≡ get_field j fields
unfolding get_field set_field
get_field_other j key value end apart = rw apart
get_field_other j key value (field k v fields) apart = elim (Bool-cases (same_text k key)) [
  | inl e ↦ rw (e, same_text_other k j key apart e)
  | inr e ↦ rw (e, get_field_other j key value fields apart)
]
