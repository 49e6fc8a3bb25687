-- ===== src/Diagnosis/Validator/Sound/Hypotheses.antt =====
-- The facts and the hypotheses that `validate` (tools/viewer/web/diagnosis_validator.js) lets pass.
use open_fpgastudio.Base.{
  ℕ, ◌≡◌, refl, sym, ap, ◌∙◌, subst, Bool, true, false, Bool-cases, inl, inr, not, ◌||◌, Option,
  none, some, List, [], ◌∷◌, arith,
}
use open_fpgastudio.Base.Texts.{Text, codes}
use open_fpgastudio.Base.Dict.{same_text}
use open_fpgastudio.Diagnosis.Json.{
  Value, Items, Fields, null, bool, num, str, arr, obj, nil, cons, get_field, set_field,
  get_field-set_field, get_field_other,
}
use open_fpgastudio.Diagnosis.Validator.{in_unit, at_most_quarter, capped, no_ids, is_text}
use open_fpgastudio.Diagnosis.Validator.Check.{
  Conversions, at_index, ids_of, with_id, id_text, with_errors, with_conflicts, is_known,
  confidence_errors, capped_value, mark_unverified, rule_conflicts, record_conflicts,
  mark_conflicts, unknown_ids, evidence_errors, check_fact, check_hypothesis,
}
use open_fpgastudio.Diagnosis.Validator.Sound.{
  all_known, cites, is_confidence, is_low, fact_is_cited, hypothesis_is_supported, append_empty,
  add_if_empty, some_pair, failed_lem,
}

not_lem : (b : Bool) → not b ≡ false → b ≡ true
not_lem true h = refl
not_lem false h = cc

module _ (js : Conversions) where
  with_id_none :
      (known : Bool) (id : Option Text) (errors : Option (List Text))
      → with_id known id errors ≡ some []
      → (known ≡ true) × (errors ≡ some [])
  with_id_none true id errors h = (refl, h)
  with_id_none false none errors h = cc
  with_id_none false (some t) none h = cc
  with_id_none false (some t) (some errors) h = cc

  unknown_none :
      (allowed : List Text) (ids : Items)
      → unknown_ids js allowed ids ≡ some []
      → all_known allowed ids ≡ true
  unfolding unknown_ids
  unknown_none allowed nil h = refl
  unknown_none allowed (cons id ids) h =
      let parts =
        with_id_none (is_known allowed id) (id_text js id) (unknown_ids js allowed ids) h in
      rw (parts.0, unknown_none allowed ids parts.1)

  evidence_none :
      (allowed : List Text) (path : Text) (ids : Option Value)
      → evidence_errors js allowed path ids ≡ some []
      → cites allowed ids ≡ true
  unfolding evidence_errors
  evidence_none allowed path (some (arr ids)) h = unknown_none allowed ids h
  evidence_none allowed path none h = cc
  evidence_none allowed path (some null) h = cc
  evidence_none allowed path (some (bool b)) h = cc
  evidence_none allowed path (some (num n)) h = cc
  evidence_none allowed path (some (str t)) h = cc
  evidence_none allowed path (some (obj fields)) h = cc

confidence_none :
    (index : ℕ) (confidence : Option Value)
    → confidence_errors index confidence ≡ []
    → is_confidence confidence ≡ true
unfolding confidence_errors
confidence_none index (some (num n)) h = not_lem (in_unit n) (add_if_empty _ _ h)
confidence_none index none h = cc
confidence_none index (some null) h = cc
confidence_none index (some (bool b)) h = cc
confidence_none index (some (arr ids)) h = cc
confidence_none index (some (str t)) h = cc
confidence_none index (some (obj fields)) h = cc

-- The smaller of a confidence and 0.25, when the confidence is a number.
capped_number : Option Value → Value
capped_number (some (num n)) = num (capped n)
capped_number _ = null

capped_lem :
    (confidence : Option Value)
    → is_confidence confidence ≡ true
    → (is_confidence (some (capped_number confidence)) ≡ true)
      × (is_low (some (capped_number confidence)) ≡ true)
unfolding capped_number capped in_unit at_most_quarter
capped_lem (some (num n)) h = (ground arith, ground arith)
capped_lem none h = cc
capped_lem (some null) h = cc
capped_lem (some (bool b)) h = cc
capped_lem (some (arr ids)) h = cc
capped_lem (some (str t)) h = cc
capped_lem (some (obj fields)) h = cc

capped_value_lem :
    (js : Conversions) (confidence : Option Value)
    → is_confidence confidence ≡ true
    → capped_value js confidence ≡ some (capped_number confidence)
unfolding capped_value capped_number
capped_value_lem js (some (num n)) h = refl
capped_value_lem js none h = cc
capped_value_lem js (some null) h = cc
capped_value_lem js (some (bool b)) h = cc
capped_value_lem js (some (arr ids)) h = cc
capped_value_lem js (some (str t)) h = cc
capped_value_lem js (some (obj fields)) h = cc

-- The conflicts are written where nothing of this is read.
conflicts_apart :
    (j : Text) (conflicts : List Text) (fields : Fields)
    → same_text (codes "conflicts_with_local_findings") j ≡ false
    → get_field j (record_conflicts conflicts fields) ≡ get_field j fields
conflicts_apart j [] fields h = refl
conflicts_apart j (c ∷ cs) fields h = get_field_other j _ _ fields h

apart :
    (same_text (codes "conflicts_with_local_findings") (codes "evidence_ids") ≡ false)
    × (same_text (codes "conflicts_with_local_findings") (codes "confidence") ≡ false)
    × (same_text (codes "conflicts_with_local_findings") (codes "status") ≡ false)
    × (same_text (codes "status") (codes "evidence_ids") ≡ false)
    × (same_text (codes "confidence") (codes "evidence_ids") ≡ false)
    × (same_text (codes "confidence") (codes "status") ≡ false)
    × (same_text (codes "status") (codes "confidence") ≡ false)
unfolding same_text
apart = (refl, refl, refl, refl, refl, refl, refl)

unverified_lem : is_text (codes "unverified") (some (str (codes "unverified"))) ≡ true
unfolding is_text same_text
unverified_lem = refl

or_true : (b : Bool) → (b || true) ≡ true
or_true true = refl
or_true false = refl

-- The fields of a hypothesis without evidence, when they have been marked.
marked_fields : Fields → Fields
marked_fields fields =
    set_field (codes "confidence") (capped_number (get_field (codes "confidence") fields))
      (set_field (codes "status") (str (codes "unverified")) fields)

marked_lem :
    (allowed : List Text) (fields : Fields)
    → no_ids (get_field (codes "evidence_ids") fields) ≡ true
    → cites allowed (get_field (codes "evidence_ids") fields) ≡ true
    → is_confidence (get_field (codes "confidence") fields) ≡ true
    → hypothesis_is_supported allowed (obj (marked_fields fields)) ≡ true
unfolding marked_fields
marked_lem allowed fields e cited confident =
    let low = capped_lem (get_field (codes "confidence") fields) confident in
    rw (
      get_field_other (codes "evidence_ids") (codes "confidence") _ _ apart.4,
      get_field_other (codes "evidence_ids") (codes "status") _ fields apart.3,
      get_field-set_field (codes "confidence") _ _,
      get_field_other (codes "status") (codes "confidence") _ _ apart.5,
      get_field-set_field (codes "status") _ fields,
      cited,
      low.0,
      low.1,
      unverified_lem,
      or_true _,
    )

fields_or : Fields → Option Fields → Fields
fields_or default none = default
fields_or default (some fields) = fields

some_lem : (a b : Fields) → some a ≡ some b → a ≡ b
unfolding fields_or
some_lem a b h = ap (fields_or a) h

marked_supported :
    (js : Conversions) (allowed : List Text) (fields marked : Fields)
    → mark_unverified js fields ≡ some marked
    → cites allowed (get_field (codes "evidence_ids") fields) ≡ true
    → is_confidence (get_field (codes "confidence") fields) ≡ true
    → hypothesis_is_supported allowed (obj marked) ≡ true
unfolding mark_unverified marked_fields
marked_supported js allowed fields marked h cited confident =
    elim (Bool-cases (no_ids (get_field (codes "evidence_ids") fields))) [
      | inl e ↦
          let computed : mark_unverified js fields ≡ some (marked_fields fields) =
            rw
              (
                e,
                get_field_other (codes "confidence") (codes "status") (str (codes "unverified"))
                    fields apart.6,
                capped_value_lem js (get_field (codes "confidence") fields) confident,
              )
              refl in
          let same : marked_fields fields ≡ marked = some_lem _ _ (sym computed ∙ h) in
          subst (λ fs. hypothesis_is_supported allowed (obj fs) ≡ true) same
            (marked_lem allowed fields e cited confident)
      | inr e ↦
          let computed : mark_unverified js fields ≡ some fields = rw e refl in
          let same : fields ≡ marked = some_lem _ _ (sym computed ∙ h) in
          subst (λ fs. hypothesis_is_supported allowed (obj fs) ≡ true) same
            (rw (cited, confident, e))
    ]

conflicts_supported :
    (allowed rules : List Text) (fields : Fields)
    → hypothesis_is_supported allowed (obj fields) ≡ true
    → hypothesis_is_supported allowed (obj (mark_conflicts rules fields)) ≡ true
unfolding mark_conflicts
conflicts_supported allowed rules fields h =
    let found = rule_conflicts rules (get_field (codes "contradicts_rule_ids") fields) in
    rw
      (
        conflicts_apart (codes "evidence_ids") found fields apart.0,
        conflicts_apart (codes "confidence") found fields apart.1,
        conflicts_apart (codes "status") found fields apart.2,
      )
      h

with_conflicts_lem :
    (rules : List Text) (errors : Option (List Text)) (marked : Option Fields) (more : List Text)
    (w : Value)
    → with_conflicts rules errors marked more ≡ some (w, [])
    → (errors ≡ some [])
      × (more ≡ [])
      × ((fields : Fields) × (marked ≡ some fields) × (obj (mark_conflicts rules fields) ≡ w))
with_conflicts_lem rules (some errors) (some fields) more w h =
    let parts = some_pair _ w _ [] h in
    let none_left = append_empty errors more parts.1 in
    (ap some none_left.0, none_left.1, (fields, refl, parts.0))
with_conflicts_lem rules none marked more w h = cc
with_conflicts_lem rules (some errors) none more w h = cc

with_errors_lem :
    (v w : Value) (errors : Option (List Text))
    → with_errors v errors ≡ some (w, [])
    → (v ≡ w) × (errors ≡ some [])
with_errors_lem v w none h = cc
with_errors_lem v w (some errors) h =
    let parts = some_pair v w errors [] h in (parts.0, ap some parts.1)

module _ (js : Conversions) (evidence rules : List Text) where
  pub check_hypothesis_lem :
      (index : ℕ) (v w : Value)
      → check_hypothesis js evidence rules index v ≡ some (w, [])
      → hypothesis_is_supported evidence w ≡ true
  unfolding check_hypothesis
  check_hypothesis_lem index (obj fields) w h =
      let (cited, confident, (marked, is_marked, same)) = with_conflicts_lem rules _ _ _ w h in
      subst (λ v. hypothesis_is_supported evidence v ≡ true) same
        (conflicts_supported evidence rules marked (
          marked_supported js evidence fields marked is_marked
            (evidence_none js evidence _ (get_field (codes "evidence_ids") fields) cited)
            (confidence_none index (get_field (codes "confidence") fields) confident)))
  check_hypothesis_lem index (arr items) w h = absurd (failed_lem _ w _ _ h)
  check_hypothesis_lem index null w h = cc
  check_hypothesis_lem index (bool b) w h = cc
  check_hypothesis_lem index (num n) w h = cc
  check_hypothesis_lem index (str t) w h = cc

module _ (js : Conversions) (evidence : List Text) where
  pub check_fact_lem :
      (index : ℕ) (v w : Value)
      → check_fact js evidence index v ≡ some (w, [])
      → fact_is_cited evidence w ≡ true
  unfolding check_fact evidence_errors
  check_fact_lem index (obj fields) w h =
      let parts = with_errors_lem (obj fields) w _ h in
      subst (λ v. fact_is_cited evidence v ≡ true) parts.0
        (evidence_none js evidence _ (get_field (codes "evidence_ids") fields) parts.1)
  check_fact_lem index (arr items) w h = absurd (failed_lem _ w _ _ h)
  check_fact_lem index null w h = cc
  check_fact_lem index (bool b) w h = absurd (failed_lem _ w _ _ h)
  check_fact_lem index (num n) w h = absurd (failed_lem _ w _ _ h)
  check_fact_lem index (str t) w h = absurd (failed_lem _ w _ _ h)

  -- The errors of a fact.
  abbrev fact_errors : ℕ → Value → Option (List Text)
  fact_errors index v =
      evidence_errors js evidence (at_index (codes "observed_facts") index) (ids_of js v)

  pub check_fact_kept :
      (index : ℕ) (v w : Value) → check_fact js evidence index v ≡ some (w, []) → v ≡ w
  unfolding check_fact
  check_fact_kept index (obj fields) w h =
      (with_errors_lem (obj fields) w (fact_errors index (obj fields)) h).0
  check_fact_kept index (arr items) w h =
      (with_errors_lem (arr items) w (fact_errors index (arr items)) h).0
  check_fact_kept index null w h = cc
  check_fact_kept index (bool b) w h = (with_errors_lem (bool b) w (fact_errors index (bool b)) h).0
  check_fact_kept index (num n) w h = (with_errors_lem (num n) w (fact_errors index (num n)) h).0
  check_fact_kept index (str t) w h = (with_errors_lem (str t) w (fact_errors index (str t)) h).0
