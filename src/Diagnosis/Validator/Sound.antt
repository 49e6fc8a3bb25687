-- ===== src/Diagnosis/Validator/Sound.antt =====
-- What may be relied on in a reply that `validate` (tools/viewer/web/diagnosis_validator.js) accepts:
-- the tests that such a reply passes, and its loops.
pub mod Hypotheses
pub mod Actions
pub mod Whole
use open_fpgastudio.Base.{
  ℕ, zero, suc, ◌+◌, ◌*◌, ◌≤◌, ◌<◌, ◌≡◌, ◌≢◌, refl, sym, ap, subst, ◌∙◌, Bool, true, false,
  Bool-cases, inl, inr, not, ◌&&◌, ◌||◌, Option, none, some, List, [], ◌∷◌, ◌++◌, arith, leb, ltb,
  ◌==◌, if◌then◌else◌,
}
use open_fpgastudio.Base.Texts.{Text, codes, dec}
use open_fpgastudio.Base.Dict.{same_text, same_text_iff}
use open_fpgastudio.Diagnosis.Json.{
  Number, Value, Items, Fields, null, bool, num, str, arr, obj, nil, cons, end, field, texts,
  get_field, set_field, get_field-set_field, get_field_other,
}
use open_fpgastudio.Diagnosis.Validator.{
  in_unit, at_most_quarter, capped, no_ids, is_text, add_if, is_mutating,
}
use open_fpgastudio.Diagnosis.Validator.Check.{
  is_known, confidence_errors, capped_value, mark_unverified, sort_texts, rule_conflicts,
  record_conflicts, mark_conflicts, safety_of, with_safety, check_action, and_then, check_each,
  unknown_ids, evidence_errors, ids_of, check_fact, check_hypothesis,
}

-- Every id is one of the evidence that was sent.
abbrev pub all_known : List Text → Items → Bool
all_known allowed nil = true
all_known allowed (cons id ids) = is_known allowed id && all_known allowed ids

abbrev pub cites : List Text → Option Value → Bool
cites allowed (some (arr ids)) = all_known allowed ids
cites allowed _ = false

-- A number from 0 to 1.
abbrev pub is_confidence : Option Value → Bool
is_confidence (some (num n)) = in_unit n
is_confidence _ = false

abbrev pub is_low : Option Value → Bool
is_low (some (num n)) = at_most_quarter n
is_low _ = false

abbrev pub fact_is_cited : List Text → Value → Bool
fact_is_cited allowed (obj fields) = cites allowed (get_field (codes "evidence_ids") fields)
fact_is_cited allowed _ = false

abbrev pub hypothesis_fields : List Text → Option Value → Option Value → Option Value → Bool
hypothesis_fields allowed ids confidence status =
    cites allowed ids
    && (is_confidence confidence
        && (not (no_ids ids) || (is_text (codes "unverified") status && is_low confidence)))

-- The evidence was sent, the confidence is one, and without evidence it is at most 0.25 and the
-- hypothesis is called unverified.
abbrev pub hypothesis_is_supported : List Text → Value → Bool
hypothesis_is_supported allowed (obj fields) =
    hypothesis_fields allowed (get_field (codes "evidence_ids") fields)
      (get_field (codes "confidence") fields) (get_field (codes "status") fields)
hypothesis_is_supported allowed _ = false

abbrev pub safety_is_right : Option Value → Option Value → Bool
safety_is_right (some (str action)) safety =
    is_text (codes "requires_manual_confirmation") safety
    || (not (is_mutating action)
        && (is_text (codes "read_only") safety || is_text (codes "manual") safety))
safety_is_right _ safety = false

-- One of the three safeties stands there, and for an action with a mutating word it is the manual
-- confirmation.
abbrev pub action_is_labelled : Value → Bool
action_is_labelled (obj fields) =
    safety_is_right (get_field (codes "action") fields) (get_field (codes "safety") fields)
action_is_labelled _ = false

abbrev pub every : (Value → Bool) → Items → Bool
every test nil = true
every test (cons v items) = test v && every test items

pub append_empty : {A : Type 0} (xs ys : List A) → (xs ++ ys) ≡ [] → (xs ≡ []) × (ys ≡ [])
append_empty [] ys h = (refl, h)
append_empty (x ∷ xs) ys h = cc

pub add_if_empty : (b : Bool) (e : Text) → add_if b e ≡ [] → b ≡ false
add_if_empty false e h = refl
add_if_empty true e h = cc

pair_or : {A B : Type 0} → A × B → Option (A × B) → A × B
pair_or default none = default
pair_or default (some p) = p

pub some_pair :
    {A B : Type 0} (a c : A) (b d : B)
    → ◌≡◌ {A = Option (A × B)} (some (a, b)) (some (c, d))
    → (a ≡ c) × (b ≡ d)
unfolding pair_or
some_pair {A = A} {B = B} a c b d h =
    let same : ◌≡◌ {A = A × B} (a, b) (c, d) = ap (pair_or (a, b)) h in
    (ap (λ p. p.0) same, ap (λ p. p.1) same)

-- Where there is an error, there is not none.
pub failed_lem :
    {A : Type 0} {B : Type 0} (v w : B) (e : A) (es : List A)
    → ◌≢◌ {A = Option (B × List A)} (some (v, e ∷ es)) (some (w, []))
failed_lem v w e es h = let parts = some_pair v w (e ∷ es) [] h in cc

-- The loops.
and_then_lem :
    (x : Option (Value × List Text)) (y : Option (Items × List Text)) (items : Items)
    → ◌≡◌ {A = Option (Items × List Text)} (and_then x y) (some (items, []))
    → (v : Value) × (rest : Items) × (x ≡ some (v, []))
      × (y ≡ some (rest, []))
      × (cons v rest ≡ items)
and_then_lem none y items h = cc
and_then_lem (some (v, e)) none items h = cc
and_then_lem (some (v, e)) (some (rest, f)) items h =
    let parts = some_pair (cons v rest) items (e ++ f) [] h in
    let empty = append_empty e f parts.1 in
    (v, rest, ap (λ es. some (v, es)) empty.0, ap (λ es. some (rest, es)) empty.1, parts.0)

pub check_each_lem :
    (check : ℕ → Value → Option (Value × List Text)) (test : Value → Bool)
    (law : (index : ℕ) (v w : Value) → check index v ≡ some (w, []) → test w ≡ true) (index : ℕ)
    (items done : Items)
    → check_each check index items ≡ some (done, [])
    → every test done ≡ true
unfolding check_each
check_each_lem check test law index nil done h =
    subst (λ all. every test all ≡ true) (some_pair nil done [] [] h).0 refl
check_each_lem check test law index (cons v items) done h =
    let (w, rest, first, others, same) =
      and_then_lem (check index v) (check_each check (index + 1) items) done h in
    subst (λ all. every test all ≡ true) same
      (rw (law index v w first, check_each_lem check test law (index + 1) items rest others))

-- A check that changes no item leaves them all.
pub check_each_kept :
    (check : ℕ → Value → Option (Value × List Text))
    (law : (index : ℕ) (v w : Value) → check index v ≡ some (w, []) → v ≡ w) (index : ℕ)
    (items done : Items)
    → check_each check index items ≡ some (done, [])
    → items ≡ done
unfolding check_each
check_each_kept check law index nil done h = (some_pair nil done [] [] h).0
check_each_kept check law index (cons v items) done h =
    let (w, rest, first, others, same) =
      and_then_lem (check index v) (check_each check (index + 1) items) done h in
    ap (λ w. cons w items) (law index v w first)
    ∙ ap (cons w) (check_each_kept check law (index + 1) items rest others)
    ∙ same
