-- ===== src/Diagnosis/Validator/Check.antt =====
-- `validate` of tools/viewer/web/diagnosis_validator.js: the checks of the items of a reply, which
-- change some of them, and the whole.
use open_fpgastudio.Base.{
  ℕ, zero, suc, ◌+◌, ◌*◌, Bool, true, false, not, ◌&&◌, ◌||◌, Option, none, some, List, [], ◌∷◌,
  ◌++◌, length, ltb, ◌==◌, if◌then◌else◌,
}
use open_fpgastudio.Base.Texts.{Text, codes, dec}
use open_fpgastudio.Diagnosis.Json.{
  Number, Value, Items, Fields, null, num, str, arr, obj, nil, cons, texts, get_field, set_field,
}
use open_fpgastudio.Diagnosis.Redaction.{contains}
use open_fpgastudio.Diagnosis.Validator.{
  Verdict, thrown, invalid, valid, in_unit, capped, no_ids, is_text, add_if, is_mutating,
  shape_errors,
}

-- `allowed.has(id)`; the set holds strings.
unfoldable pub is_known : List Text → Value → Bool
unfolding contains
is_known allowed (str id) = contains allowed id
is_known allowed _ = false

abbrev pub at_index : Text → ℕ → Text
at_index key index = key ++ codes "[" ++ dec index ++ codes "]"

unfoldable pub confidence_errors : ℕ → Option Value → List Text
unfolding in_unit
confidence_errors index (some (num n)) =
    add_if (not (in_unit n)) (codes "invalid_confidence:" ++ at_index (codes "hypotheses") index)
confidence_errors index _ =
    (codes "invalid_confidence:" ++ at_index (codes "hypotheses") index) ∷ []

-- JavaScript's conversions: `String(value)` of a value that is no string, and `Number(value) || 0` of one
-- that is no number; either throws for some objects.
pub record Conversions : Type 0 where
  pub string_of : Value → Option Text
  pub number_of : Value → Option Number

abbrev pub quarter_at_most : Option Number → Option Value
quarter_at_most none = none
quarter_at_most (some n) = some (num (capped n))

-- `Math.min(Number(confidence) || 0, 0.25)`; a missing confidence counts as 0.
unfoldable pub capped_value : Conversions → Option Value → Option Value
unfolding capped
capped_value js none = some (num (record { negative = false; top = 0; bottom = 1 }))
capped_value js (some (num n)) = quarter_at_most (some n)
capped_value js (some v) = quarter_at_most (js.number_of v)

abbrev pub put_confidence : Option Value → Fields → Option Fields
put_confidence none fields = none
put_confidence (some v) fields = some (set_field (codes "confidence") v fields)

-- A hypothesis without evidence.
unfoldable pub mark_unverified : Conversions → Fields → Option Fields
unfolding no_ids capped_value get_field set_field
mark_unverified js fields =
    let marked = set_field (codes "status") (str (codes "unverified")) fields in
    if no_ids (get_field (codes "evidence_ids") fields)
    then put_confidence (capped_value js (get_field (codes "confidence") marked)) marked
    else some fields

unfoldable pub text_leb : Text → Text → Bool
text_leb [] t = true
text_leb (c ∷ cs) [] = false
text_leb (c ∷ cs) (d ∷ ds) = ltb c d || (c == d && text_leb cs ds)

unfoldable pub insert_text : Text → List Text → List Text
unfolding text_leb
insert_text t [] = t ∷ []
insert_text t (u ∷ us) =
    let others = insert_text t us in if text_leb t u then t ∷ u ∷ us else u ∷ others

-- `conflicts.sort()`
unfoldable pub sort_texts : List Text → List Text
unfolding insert_text
sort_texts [] = []
sort_texts (t ∷ ts) = insert_text t (sort_texts ts)

-- `contradicts_rule_ids.filter((id) => localRules.has(id))`
unfoldable pub known_texts : List Text → Items → List Text
unfolding contains
known_texts rules nil = []
known_texts rules (cons (str t) items) =
    let others = known_texts rules items in if contains rules t then t ∷ others else others
known_texts rules (cons v items) = known_texts rules items

unfoldable pub rule_conflicts : List Text → Option Value → List Text
unfolding known_texts
rule_conflicts rules (some (arr items)) = known_texts rules items
rule_conflicts rules _ = []

abbrev pub record_conflicts : List Text → Fields → Fields
record_conflicts [] fields = fields
record_conflicts conflicts fields =
    set_field (codes "conflicts_with_local_findings") (arr (texts (sort_texts conflicts))) fields

unfoldable pub mark_conflicts : List Text → Fields → Fields
unfolding rule_conflicts sort_texts get_field set_field
mark_conflicts rules fields =
    record_conflicts (rule_conflicts rules (get_field (codes "contradicts_rule_ids") fields)) fields

-- The safety of an action whose text is `action`.
unfoldable pub safety_of : Text → Option Value → Text
unfolding is_mutating is_text
safety_of action safety =
    if is_mutating action || is_text (codes "mutating") safety
    then codes "requires_manual_confirmation"
    else if is_text (codes "read_only") safety
    then codes "read_only"
    else codes "manual"

abbrev pub with_safety : ℕ → Option Value → Fields → Value × List Text
with_safety index (some (str action)) fields = (
  obj (
      set_field (codes "safety") (str (safety_of action (get_field (codes "safety") fields)))
        fields),
  [],
)
with_safety index _ fields =
    (obj fields, (codes "invalid_action:" ++ at_index (codes "recommended_actions") index) ∷ [])

unfoldable pub check_action : ℕ → Value → Option (Value × List Text)
unfolding safety_of get_field set_field
check_action index (obj fields) =
    some (with_safety index (get_field (codes "action") fields) fields)
check_action index v =
    some (v, (codes "invalid_action:" ++ at_index (codes "recommended_actions") index) ∷ [])

-- The `forEach` loops: an item is changed, and errors are added, until one throws.
abbrev pub and_then :
    Option (Value × List Text) → Option (Items × List Text) → Option (Items × List Text)
and_then none others = none
and_then (some first) none = none
and_then (some (v, errors)) (some (items, more)) = some (cons v items, errors ++ more)

unfoldable pub check_each :
    (ℕ → Value → Option (Value × List Text)) → ℕ → Items → Option (Items × List Text)
check_each f index nil = some (nil, [])
check_each f index (cons v items) = and_then (f index v) (check_each f (index + 1) items)

abbrev pub items_of : Option Value → Items
items_of (some (arr items)) = items
items_of _ = nil

-- `Array.from(new Set(errors))`
unfoldable pub without_repeats : List Text → List Text → List Text
unfolding contains
without_repeats seen [] = []
without_repeats seen (e ∷ es) =
    let known = contains seen e in
    let others = without_repeats (if known then seen else e ∷ seen) es in
    if known then others else e ∷ others

abbrev pub validated : Option Value → Value
validated (some (obj metadata)) =
    obj (set_field (codes "validation_status") (str (codes "validated")) metadata)
validated _ = null

-- The end of `validate`, once the shape is right; a throw of one of the loops goes through.
abbrev pub conclude :
    Fields
    → Option (Items × List Text)
    → Option (Items × List Text)
    → Option (Items × List Text)
    → Verdict
conclude fields (some (facts, e)) (some (hypotheses, f)) (some (actions, g)) =
    let changed =
      set_field (codes "recommended_actions") (arr actions)
        (set_field (codes "hypotheses") (arr hypotheses) fields) in
    elim (e ++ f ++ g) [
      | [] ↦ valid (
          obj (
            set_field (codes "metadata") (validated (get_field (codes "metadata") changed))
              changed))
      | error ∷ errors ↦ invalid (without_repeats [] (error ∷ errors))
    ]
conclude fields _ _ _ = thrown

-- `options.maxBytes || MAX_BYTES`
abbrev pub limit_of : Option ℕ → ℕ
limit_of none = 256 * 1024
limit_of (some zero) = 256 * 1024
limit_of (some (suc n)) = suc n

-- One id, by whether it is known, its text, and the errors of the ids behind it.
abbrev pub with_id : Bool → Option Text → Option (List Text) → Option (List Text)
with_id true id errors = errors
with_id false none errors = none
with_id false (some id) none = none
with_id false (some id) (some errors) = some ((codes "unknown_evidence:" ++ id) ∷ errors)

abbrev pub with_errors : Value → Option (List Text) → Option (Value × List Text)
with_errors v none = none
with_errors v (some errors) = some (v, errors)

-- A hypothesis, by its evidence's errors, its fields when it has been marked, and its confidence's
-- errors.
abbrev pub with_conflicts :
    List Text → Option (List Text) → Option Fields → List Text → Option (Value × List Text)
with_conflicts rules (some errors) (some marked) more =
    some (obj (mark_conflicts rules marked), errors ++ more)
with_conflicts rules _ _ more = none

module _ (js : Conversions) where
  -- `${id}`
  abbrev pub id_text : Value → Option Text
  id_text (str t) = some t
  id_text v = js.string_of v

  unfoldable pub unknown_ids : List Text → Items → Option (List Text)
  unfolding is_known
  unknown_ids allowed nil = some []
  unknown_ids allowed (cons id ids) =
      with_id (is_known allowed id) (id_text id) (unknown_ids allowed ids)

  -- `checkEvidence`, from `item.evidence_ids`.
  unfoldable pub evidence_errors : List Text → Text → Option Value → Option (List Text)
  unfolding unknown_ids
  evidence_errors allowed path (some (arr ids)) = unknown_ids allowed ids
  evidence_errors allowed path _ = some ((codes "invalid_evidence_ids:" ++ path) ∷ [])

  abbrev pub ids_of : Value → Option Value
  ids_of (obj fields) = get_field (codes "evidence_ids") fields
  ids_of _ = none

  -- Reading a field of `null` throws.
  unfoldable pub check_fact : List Text → ℕ → Value → Option (Value × List Text)
  unfolding evidence_errors get_field
  check_fact allowed index null = none
  check_fact allowed index v =
      with_errors v (evidence_errors allowed (at_index (codes "observed_facts") index) (ids_of v))

  -- An array has no `evidence_ids`, and what is written to its properties is not in its JSON; writing
  -- to a property of a string, a number or a Boolean throws.
  unfoldable pub check_hypothesis : List Text → List Text → ℕ → Value → Option (Value × List Text)
  unfolding evidence_errors confidence_errors mark_unverified mark_conflicts get_field
  check_hypothesis allowed rules index (obj fields) =
      with_conflicts rules
        (evidence_errors allowed (at_index (codes "hypotheses") index)
          (get_field (codes "evidence_ids") fields))
        (mark_unverified js fields)
        (confidence_errors index (get_field (codes "confidence") fields))
  check_hypothesis allowed rules index (arr items) = some (
    arr items,
    (codes "invalid_evidence_ids:" ++ at_index (codes "hypotheses") index)
        ∷ confidence_errors index none,
  )
  check_hypothesis allowed rules index v = none

  unfoldable pub validate_items : List Text → List Text → Fields → Verdict
  unfolding check_each check_fact check_hypothesis check_action without_repeats get_field set_field
  validate_items evidence rules fields =
      conclude fields
        (check_each (check_fact evidence) 0 (items_of (get_field (codes "observed_facts") fields)))
        (check_each (check_hypothesis evidence rules) 0
          (items_of (get_field (codes "hypotheses") fields)))
        (check_each check_action 0 (items_of (get_field (codes "recommended_actions") fields)))

  -- `if (errors.length)`, with the errors so far.
  abbrev pub after_shape : List Text → List Text → Fields → List Text → Verdict
  after_shape evidence rules fields [] = validate_items evidence rules fields
  after_shape evidence rules fields (error ∷ errors) = invalid (error ∷ errors)

  abbrev pub validate_parsed : List Text → List Text → List Text → Text → Option Value → Verdict
  validate_parsed forbidden evidence rules serialized none = invalid (codes "invalid_json" ∷ [])
  validate_parsed forbidden evidence rules serialized (some (obj fields)) =
      after_shape evidence rules fields (shape_errors forbidden serialized fields)
  validate_parsed forbidden evidence rules serialized (some v) =
      invalid (codes "result_must_be_object" ∷ [])

  -- `validate`
  unfoldable pub validate :
      Option ℕ → List Text → List Text → List Text → Text → Option Value → Verdict
  unfolding validate_items shape_errors
  validate max_bytes forbidden evidence rules serialized parsed =
      if ltb (limit_of max_bytes) (length serialized)
      then invalid (codes "response_too_large" ∷ [])
      else validate_parsed forbidden evidence rules serialized parsed
