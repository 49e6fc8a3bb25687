-- ===== src/Diagnosis/Validator/Throws.antt =====
-- When `validate` (tools/viewer/web/diagnosis_validator.js) throws instead of giving errors.
use open_fpgastudio.Base.{
  ℕ, ◌+◌, ◌≤◌, ◌≡◌, refl, ap, ◌∙◌, Bool, true, false, Bool-cases, inl, inr, not, ◌&&◌, ◌||◌, Option,
  none, some, List, [], ◌∷◌, length, arith, ltb,
}
use open_fpgastudio.Base.Texts.{Text, codes}
use open_fpgastudio.Base.Dict.{same_text}
use open_fpgastudio.Diagnosis.Json.{
  Number, Value, Items, Fields, null, bool, num, str, arr, obj, nil, cons, get_field,
  get_field_other,
}
use open_fpgastudio.Diagnosis.Validator.{Verdict, thrown, no_ids, shape_errors}
use open_fpgastudio.Diagnosis.Validator.Check.{
  Conversions, quarter_at_most, capped_value, put_confidence, mark_unverified, with_id, with_errors,
  with_conflicts, is_known, id_text, unknown_ids, evidence_errors, confidence_errors, items_of,
  at_index, and_then, check_each, check_fact, check_hypothesis, check_action, conclude,
  validate_items, limit_of, validate,
}

abbrev pub is_thrown : Verdict → Bool
is_thrown thrown = true
is_thrown _ = false

abbrev pub is_nothing : {A : Type 0} → Option A → Bool
is_nothing none = true
is_nothing (some a) = false

abbrev pub any : (Value → Bool) → Items → Bool
any test nil = false
any test (cons v items) = test v || any test items

-- What makes `validate` throw, where the conversions `js` may throw for some values.
module _ (js : Conversions) where
  -- An id that is no string is not one of the evidence; its text is asked for.
  abbrev pub is_unprintable : Value → Bool
  is_unprintable (str t) = false
  is_unprintable v = is_nothing (js.string_of v)

  abbrev pub ids_throw : Option Value → Bool
  ids_throw (some (arr ids)) = any is_unprintable ids
  ids_throw _ = false

  abbrev pub fact_throws : Value → Bool
  fact_throws null = true
  fact_throws (obj fields) = ids_throw (get_field (codes "evidence_ids") fields)
  fact_throws _ = false

  abbrev pub confidence_throws : Option Value → Bool
  confidence_throws none = false
  confidence_throws (some (num n)) = false
  confidence_throws (some v) = is_nothing (js.number_of v)

  abbrev pub hypothesis_throws : Value → Bool
  hypothesis_throws (arr items) = false
  hypothesis_throws (obj fields) =
      ids_throw (get_field (codes "evidence_ids") fields)
      || (no_ids (get_field (codes "evidence_ids") fields)
          && confidence_throws (get_field (codes "confidence") fields))
  hypothesis_throws _ = true

and_then_none :
    (x : Option (Value × List Text)) (y : Option (Items × List Text))
    → is_nothing (and_then x y) ≡ (is_nothing x || is_nothing y)
and_then_none none y = refl
and_then_none (some p) none = refl
and_then_none (some p) (some q) = refl

each_none :
    (check : ℕ → Value → Option (Value × List Text)) (test : Value → Bool)
    (law : (index : ℕ) (v : Value) → is_nothing (check index v) ≡ test v) (index : ℕ)
    (items : Items)
    → is_nothing (check_each check index items) ≡ any test items
unfolding check_each
each_none check test law index nil = refl
each_none check test law index (cons v items) = rw (
  and_then_none (check index v) (check_each check (index + 1) items),
  law index v,
  each_none check test law (index + 1) items,
)

conclude_none :
    (fields : Fields) (a b c : Option (Items × List Text))
    → is_thrown (conclude fields a b c) ≡ (is_nothing a || (is_nothing b || is_nothing c))
conclude_none fields none b c = refl
conclude_none fields (some (i, e)) none c = refl
conclude_none fields (some (i, e)) (some (j, f)) none = refl
conclude_none fields (some (i, [])) (some (j, [])) (some (k, [])) = refl
conclude_none fields (some (i, [])) (some (j, [])) (some (k, x ∷ g)) = refl
conclude_none fields (some (i, [])) (some (j, x ∷ f)) (some (k, g)) = refl
conclude_none fields (some (i, x ∷ e)) (some (j, f)) (some (k, g)) = refl

action_none : (index : ℕ) (v : Value) → is_nothing (check_action index v) ≡ false
unfolding check_action
action_none index null = refl
action_none index (bool b) = refl
action_none index (num n) = refl
action_none index (str t) = refl
action_none index (arr items) = refl
action_none index (obj fields) = refl

any_lem : (items : Items) → any (λ v. false) items ≡ false
any_lem nil = refl
any_lem (cons v items) = any_lem items

or_false : (a b : Bool) → (a || (b || false)) ≡ (a || b)
or_false true b = refl
or_false false true = refl
or_false false false = refl

and_false : (b : Bool) → (b && false) ≡ false
and_false true = refl
and_false false = refl

with_id_nothing :
    (known : Bool) (id : Option Text) (errors : Option (List Text))
    → is_nothing (with_id known id errors) ≡ ((not known && is_nothing id) || is_nothing errors)
with_id_nothing true id errors = refl
with_id_nothing false none errors = refl
with_id_nothing false (some t) none = refl
with_id_nothing false (some t) (some errors) = refl

with_errors_nothing :
    (v : Value) (errors : Option (List Text))
    → is_nothing (with_errors v errors) ≡ is_nothing errors
with_errors_nothing v none = refl
with_errors_nothing v (some errors) = refl

with_conflicts_nothing :
    (rules : List Text) (errors : Option (List Text)) (marked : Option Fields) (more : List Text)
    → is_nothing (with_conflicts rules errors marked more)
      ≡ (is_nothing errors || is_nothing marked)
with_conflicts_nothing rules none marked more = refl
with_conflicts_nothing rules (some errors) none more = refl
with_conflicts_nothing rules (some errors) (some marked) more = refl

put_nothing :
    (v : Option Value) (fields : Fields) → is_nothing (put_confidence v fields) ≡ is_nothing v
put_nothing none fields = refl
put_nothing (some v) fields = refl

quarter_nothing : (n : Option Number) → is_nothing (quarter_at_most n) ≡ is_nothing n
quarter_nothing none = refl
quarter_nothing (some n) = refl

status_apart : same_text (codes "status") (codes "confidence") ≡ false
unfolding same_text
status_apart = refl

module _ (js : Conversions) where
  capped_nothing :
      (confidence : Option Value)
      → is_nothing (capped_value js confidence) ≡ confidence_throws js confidence
  unfolding capped_value
  capped_nothing none = refl
  capped_nothing (some (num n)) = refl
  capped_nothing (some null) = quarter_nothing _
  capped_nothing (some (bool b)) = quarter_nothing _
  capped_nothing (some (str t)) = quarter_nothing _
  capped_nothing (some (arr items)) = quarter_nothing _
  capped_nothing (some (obj fields)) = quarter_nothing _

  mark_nothing :
      (fields : Fields)
      → is_nothing (mark_unverified js fields) ≡ (
          no_ids (get_field (codes "evidence_ids") fields)
          && confidence_throws js (get_field (codes "confidence") fields))
  unfolding mark_unverified
  mark_nothing fields = elim (Bool-cases (no_ids (get_field (codes "evidence_ids") fields))) [
    | inl e ↦ rw e (
        put_nothing _ _
        ∙ capped_nothing _
        ∙ ap (confidence_throws js) (
            get_field_other (codes "confidence") (codes "status") (str (codes "unverified")) fields
              status_apart))
    | inr e ↦ rw e refl
  ]

  id_nothing :
      (allowed : List Text) (id : Value)
      → (not (is_known allowed id) && is_nothing (id_text js id)) ≡ is_unprintable js id
  unfolding is_known
  id_nothing allowed (str t) = and_false _
  id_nothing allowed null = refl
  id_nothing allowed (bool b) = refl
  id_nothing allowed (num n) = refl
  id_nothing allowed (arr items) = refl
  id_nothing allowed (obj fields) = refl

  unknown_nothing :
      (allowed : List Text) (ids : Items)
      → is_nothing (unknown_ids js allowed ids) ≡ any (is_unprintable js) ids
  unfolding unknown_ids
  unknown_nothing allowed nil = refl
  unknown_nothing allowed (cons id ids) =
      with_id_nothing (is_known allowed id) (id_text js id) (unknown_ids js allowed ids) ∙ λ i.
      id_nothing allowed id i || unknown_nothing allowed ids i

  evidence_nothing :
      (allowed : List Text) (path : Text) (ids : Option Value)
      → is_nothing (evidence_errors js allowed path ids) ≡ ids_throw js ids
  unfolding evidence_errors
  evidence_nothing allowed path (some (arr ids)) = unknown_nothing allowed ids
  evidence_nothing allowed path none = refl
  evidence_nothing allowed path (some null) = refl
  evidence_nothing allowed path (some (bool b)) = refl
  evidence_nothing allowed path (some (num n)) = refl
  evidence_nothing allowed path (some (str t)) = refl
  evidence_nothing allowed path (some (obj fields)) = refl

module _ (js : Conversions) (evidence rules : List Text) where
  fact_none :
      (index : ℕ) (v : Value) → is_nothing (check_fact js evidence index v) ≡ fact_throws js v
  unfolding check_fact evidence_errors
  fact_none index null = refl
  fact_none index (bool b) = refl
  fact_none index (num n) = refl
  fact_none index (str t) = refl
  fact_none index (arr items) = refl
  fact_none index (obj fields) =
      let ids : Option Value = get_field (codes "evidence_ids") fields in
      let path : Text = at_index (codes "observed_facts") index in
      with_errors_nothing (obj fields) (evidence_errors js evidence path ids)
      ∙ evidence_nothing js evidence path ids

  hypothesis_none :
      (index : ℕ) (v : Value)
      → is_nothing (check_hypothesis js evidence rules index v) ≡ hypothesis_throws js v
  unfolding check_hypothesis
  hypothesis_none index null = refl
  hypothesis_none index (bool b) = refl
  hypothesis_none index (num n) = refl
  hypothesis_none index (str t) = refl
  hypothesis_none index (arr items) = refl
  hypothesis_none index (obj fields) =
      let ids : Option Value = get_field (codes "evidence_ids") fields in
      let path : Text = at_index (codes "hypotheses") index in
      with_conflicts_nothing rules (evidence_errors js evidence path ids)
        (mark_unverified js fields)
        (confidence_errors index (get_field (codes "confidence") fields))
      ∙ λ i. evidence_nothing js evidence path ids i || mark_nothing js fields i

  items_throw :
      (fields : Fields)
      → is_thrown (validate_items js evidence rules fields) ≡ (
          any (fact_throws js) (items_of (get_field (codes "observed_facts") fields))
          || any (hypothesis_throws js) (items_of (get_field (codes "hypotheses") fields)))
  unfolding validate_items
  items_throw fields =
      let facts : Items = items_of (get_field (codes "observed_facts") fields) in
      let hypotheses : Items = items_of (get_field (codes "hypotheses") fields) in
      let actions : Items = items_of (get_field (codes "recommended_actions") fields) in
      conclude_none fields _ _ _
      ∙ rw (
        each_none (check_fact js evidence) (fact_throws js) fact_none 0 facts,
        each_none (check_hypothesis js evidence rules) (hypothesis_throws js) hypothesis_none 0
            hypotheses,
        each_none check_action (λ v. false) action_none 0 actions,
        any_lem actions,
        or_false (any (fact_throws js) facts) (any (hypothesis_throws js) hypotheses),
      )

  -- A reply of the right shape makes the validator throw, instead of giving errors, exactly when one of
  -- its facts is `null`, or one of its hypotheses is `null`, a string, a number or a Boolean, or one of
  -- them cites an id that is no string and cannot be made one, or one of its hypotheses has no evidence
  -- and a confidence that is no number and cannot be made one.
  pub validate_throws :
      (max_bytes : Option ℕ) (forbidden : List Text) (serialized : Text) (fields : Fields)
      → length serialized ≤ limit_of max_bytes
      → shape_errors forbidden serialized fields ≡ []
      → is_thrown (validate js max_bytes forbidden evidence rules serialized (some (obj fields)))
        ≡ (any (fact_throws js) (items_of (get_field (codes "observed_facts") fields))
            || any (hypothesis_throws js) (items_of (get_field (codes "hypotheses") fields)))
  unfolding validate
  validate_throws max_bytes forbidden serialized fields short shape =
      let fits : ltb (limit_of max_bytes) (length serialized) ≡ false = ground arith in
      rw (fits, shape) (items_throw fields)
