-- ===== src/Diagnosis/Validator/Sound/Whole.antt =====
-- The whole of `validate` (tools/viewer/web/diagnosis_validator.js), when it accepts a reply.
use open_fpgastudio.Base.{
  ℕ, ◌≤◌, ◌≡◌, refl, sym, ap, subst, Bool, true, false, Bool-cases, inl, inr, not, ◌&&◌, Option,
  none, some, List, [], ◌∷◌, ◌++◌, length, arith, ltb,
}
use open_fpgastudio.Base.Texts.{Text, codes}
use open_fpgastudio.Base.Dict.{same_text}
use open_fpgastudio.Diagnosis.Json.{
  Value, Items, Fields, null, bool, num, str, arr, obj, get_field, set_field, get_field-set_field,
  get_field_other,
}
use open_fpgastudio.Diagnosis.Redaction.{includes}
use open_fpgastudio.Diagnosis.Validator.{
  Verdict, invalid, valid, add_if, secret_errors, missing_fields, is_array, not_arrays, array_keys,
  required, type_errors, shape_errors,
}
use open_fpgastudio.Diagnosis.Validator.Check.{
  Conversions, items_of, check_each, check_fact, check_hypothesis, check_action, validated,
  conclude, validate_items, after_shape, validate_parsed, limit_of, validate,
}
use open_fpgastudio.Diagnosis.Validator.Sound.{
  fact_is_cited, hypothesis_is_supported, action_is_labelled, every, append_empty, add_if_empty,
  check_each_lem, check_each_kept,
}
use open_fpgastudio.Diagnosis.Validator.Sound.Hypotheses.{
  check_hypothesis_lem, check_fact_lem, check_fact_kept,
}
use open_fpgastudio.Diagnosis.Validator.Sound.Actions.{check_action_lem}

-- Field `key` holds an array, every item of which passes the test.
abbrev pub every_in : Text → (Value → Bool) → Value → Bool
every_in key test (obj fields) =
    is_array (get_field key fields) && every test (items_of (get_field key fields))
every_in key test _ = false

-- No secret stands in the text.
abbrev pub no_secret : List Text → Text → Bool
no_secret [] serialized = true
no_secret ([] ∷ secrets) serialized = no_secret secrets serialized
no_secret ((c ∷ cs) ∷ secrets) serialized =
    not (includes (c ∷ cs) serialized) && no_secret secrets serialized

secrets_none :
    (secrets : List Text) (serialized : Text)
    → secret_errors secrets serialized ≡ []
    → no_secret secrets serialized ≡ true
unfolding secret_errors
secrets_none [] serialized h = refl
secrets_none ([] ∷ secrets) serialized h = secrets_none secrets serialized h
secrets_none ((c ∷ cs) ∷ secrets) serialized h =
    let parts = append_empty (add_if (includes (c ∷ cs) serialized) _) _ h in
    rw (add_if_empty _ _ parts.0, secrets_none secrets serialized parts.1)

not_array :
    (key : Text) (keys : List Text) (fields : Fields)
    → not_arrays (key ∷ keys) fields ≡ []
    → (is_array (get_field key fields) ≡ true) × (not_arrays keys fields ≡ [])
unfolding not_arrays
not_array key keys fields h =
    let parts = append_empty (add_if (not (is_array (get_field key fields))) _) _ h in
    let one : not (is_array (get_field key fields)) ≡ false = add_if_empty _ _ parts.0 in
    (ground arith, parts.1)

types_none : (fields : Fields) → type_errors fields ≡ [] → not_arrays array_keys fields ≡ []
unfolding type_errors
types_none fields h =
    let front = append_empty (_ ++ not_arrays array_keys fields) _ h in
    (append_empty _ (not_arrays array_keys fields) front.0).1

-- What the first half of `validate` makes sure of.
shape_none :
    (secrets : List Text) (serialized : Text) (fields : Fields)
    → shape_errors secrets serialized fields ≡ []
    → (no_secret secrets serialized ≡ true) × (not_arrays array_keys fields ≡ [])
unfolding shape_errors
shape_none secrets serialized fields h =
    let parts =
      append_empty (secret_errors secrets serialized ++ missing_fields required fields)
        (type_errors fields) h in
    let secret =
      append_empty (secret_errors secrets serialized) (missing_fields required fields) parts.0 in
    (secrets_none secrets serialized secret.0, types_none fields parts.1)

or_value : Value → Verdict → Value
or_value default (valid v) = v
or_value default _ = default

valid-injective : (v w : Value) → valid v ≡ valid w → v ≡ w
unfolding or_value
valid-injective v w h = ap (or_value v) h

-- The reply as it is given back.
abbrev accepted : Fields → Items → Items → Value
accepted fields hypotheses actions =
    let changed =
      set_field (codes "recommended_actions") (arr actions)
        (set_field (codes "hypotheses") (arr hypotheses) fields) in
    obj (set_field (codes "metadata") (validated (get_field (codes "metadata") changed)) changed)

conclude_lem :
    (fields : Fields) (a b c : Option (Items × List Text)) (v : Value)
    → conclude fields a b c ≡ valid v
    → (facts : Items) × (hypotheses : Items) × (actions : Items) × (a ≡ some (facts, []))
      × (b ≡ some (hypotheses, []))
      × (c ≡ some (actions, []))
      × (accepted fields hypotheses actions ≡ v)
conclude_lem fields none b c v h = cc
conclude_lem fields (some (i, e)) none c v h = cc
conclude_lem fields (some (i, e)) (some (j, f)) none v h = cc
conclude_lem fields (some (i, [])) (some (j, [])) (some (k, [])) v h =
    (i, j, k, refl, refl, refl, valid-injective _ v h)
conclude_lem fields (some (i, [])) (some (j, [])) (some (k, x ∷ g)) v h = cc
conclude_lem fields (some (i, [])) (some (j, x ∷ f)) (some (k, g)) v h = cc
conclude_lem fields (some (i, x ∷ e)) (some (j, f)) (some (k, g)) v h = cc

keys_apart :
    (same_text (codes "metadata") (codes "hypotheses") ≡ false)
    × (same_text (codes "metadata") (codes "recommended_actions") ≡ false)
    × (same_text (codes "metadata") (codes "observed_facts") ≡ false)
    × (same_text (codes "recommended_actions") (codes "hypotheses") ≡ false)
    × (same_text (codes "recommended_actions") (codes "observed_facts") ≡ false)
    × (same_text (codes "hypotheses") (codes "observed_facts") ≡ false)
unfolding same_text
keys_apart = (refl, refl, refl, refl, refl, refl)

-- What stands in an accepted reply.
module _ (fields : Fields) (hypotheses actions : Items) where
  changed : Fields
  changed =
      set_field (codes "recommended_actions") (arr actions)
        (set_field (codes "hypotheses") (arr hypotheses) fields)

  facts_kept :
      (test : Value → Bool)
      → is_array (get_field (codes "observed_facts") fields) ≡ true
      → every test (items_of (get_field (codes "observed_facts") fields)) ≡ true
      → every_in (codes "observed_facts") test (accepted fields hypotheses actions) ≡ true
  facts_kept test array all = rw (
    get_field_other (codes "observed_facts") (codes "metadata") _ _ keys_apart.2,
    get_field_other (codes "observed_facts") (codes "recommended_actions") _ _ keys_apart.4,
    get_field_other (codes "observed_facts") (codes "hypotheses") _ fields keys_apart.5,
    array,
    all,
  )

  hypotheses_put :
      (test : Value → Bool)
      → every test hypotheses ≡ true
      → every_in (codes "hypotheses") test (accepted fields hypotheses actions) ≡ true
  hypotheses_put test all = rw (
    get_field_other (codes "hypotheses") (codes "metadata") _ _ keys_apart.0,
    get_field_other (codes "hypotheses") (codes "recommended_actions") _ _ keys_apart.3,
    get_field-set_field (codes "hypotheses") _ fields,
    all,
  )

  actions_put :
      (test : Value → Bool)
      → every test actions ≡ true
      → every_in (codes "recommended_actions") test (accepted fields hypotheses actions) ≡ true
  actions_put test all = rw (
    get_field_other (codes "recommended_actions") (codes "metadata") _ _ keys_apart.1,
    get_field-set_field (codes "recommended_actions") _ _,
    all,
  )

module _ (js : Conversions) (evidence rules : List Text) where
  -- What may be relied on in the fields of an accepted reply.
  abbrev pub IsTrusted : Value → Type 0
  IsTrusted v =
      (every_in (codes "observed_facts") (fact_is_cited evidence) v ≡ true)
      × (every_in (codes "hypotheses") (hypothesis_is_supported evidence) v ≡ true)
      × (every_in (codes "recommended_actions") action_is_labelled v ≡ true)

  items-IsTrusted :
      (fields : Fields) (v : Value)
      → is_array (get_field (codes "observed_facts") fields) ≡ true
      → validate_items js evidence rules fields ≡ valid v
      → IsTrusted v
  unfolding validate_items
  items-IsTrusted fields v array h =
      let facts_in : Items = items_of (get_field (codes "observed_facts") fields) in
      let hypotheses_in : Items = items_of (get_field (codes "hypotheses") fields) in
      let actions_in : Items = items_of (get_field (codes "recommended_actions") fields) in
      let (facts, hypotheses, actions, first, second, third, same) =
        conclude_lem fields (check_each (check_fact js evidence) 0 facts_in)
          (check_each (check_hypothesis js evidence rules) 0 hypotheses_in)
          (check_each check_action 0 actions_in) v h in
      subst IsTrusted same (
        facts_kept fields hypotheses actions (fact_is_cited evidence) array (
            subst (λ all. every (fact_is_cited evidence) all ≡ true)
              (sym (
                check_each_kept (check_fact js evidence) (check_fact_kept js evidence) 0 facts_in
                  facts first))
              (check_each_lem (check_fact js evidence) (fact_is_cited evidence)
                (check_fact_lem js evidence) 0 facts_in facts first)),
        hypotheses_put fields hypotheses actions (hypothesis_is_supported evidence) (
            check_each_lem (check_hypothesis js evidence rules) (hypothesis_is_supported evidence)
              (check_hypothesis_lem js evidence rules) 0 hypotheses_in hypotheses second),
        actions_put fields hypotheses actions action_is_labelled (
            check_each_lem check_action action_is_labelled check_action_lem 0 actions_in actions
              third),
      )

  shape-IsTrusted :
      (forbidden errors : List Text) (serialized : Text) (fields : Fields) (v : Value)
      → shape_errors forbidden serialized fields ≡ errors
      → after_shape js evidence rules fields errors ≡ valid v
      → (no_secret forbidden serialized ≡ true) × IsTrusted v
  shape-IsTrusted forbidden [] serialized fields v shape h =
      let right = shape_none forbidden serialized fields shape in
      (right.0, items-IsTrusted fields v (not_array (codes "observed_facts") _ fields right.1).0 h)
  shape-IsTrusted forbidden (error ∷ errors) serialized fields v shape h = cc

  parsed-IsTrusted :
      (forbidden : List Text) (serialized : Text) (parsed : Option Value) (v : Value)
      → validate_parsed js forbidden evidence rules serialized parsed ≡ valid v
      → (no_secret forbidden serialized ≡ true) × IsTrusted v
  parsed-IsTrusted forbidden serialized (some (obj fields)) v h =
      shape-IsTrusted forbidden (shape_errors forbidden serialized fields) serialized fields v refl
        h
  parsed-IsTrusted forbidden serialized none v h = cc
  parsed-IsTrusted forbidden serialized (some null) v h = cc
  parsed-IsTrusted forbidden serialized (some (bool b)) v h = cc
  parsed-IsTrusted forbidden serialized (some (num n)) v h = cc
  parsed-IsTrusted forbidden serialized (some (str t)) v h = cc
  parsed-IsTrusted forbidden serialized (some (arr items)) v h = cc

  -- A reply that is accepted is no longer than the limit and holds no secret; every fact in it cites
  -- evidence that was sent, and so does every hypothesis, whose confidence is from 0 to 1, and without
  -- evidence at most 0.25 and called unverified; every action carries one of the three safeties, and the
  -- manual confirmation when its text has a mutating word.
  pub validate-IsTrusted :
      (max_bytes : Option ℕ) (forbidden : List Text) (serialized : Text) (parsed : Option Value)
      (v : Value)
      → validate js max_bytes forbidden evidence rules serialized parsed ≡ valid v
      → (length serialized ≤ limit_of max_bytes)
        × (no_secret forbidden serialized ≡ true)
        × IsTrusted v
  unfolding validate
  validate-IsTrusted max_bytes forbidden serialized parsed v h =
      elim (Bool-cases (ltb (limit_of max_bytes) (length serialized))) [
        | inl long ↦
            let early : invalid (codes "response_too_large" ∷ []) ≡ valid v = rw long at h in cc
        | inr short ↦
            let right = parsed-IsTrusted forbidden serialized parsed v (rw short at h) in
            (ground arith, right.0, right.1)
      ]
