-- ===== src/Diagnosis/Validator/Sound/Actions.antt =====
-- The actions that `validate` (tools/viewer/web/diagnosis_validator.js) lets pass.
use open_fpgastudio.Base.{
  ℕ, ◌≡◌, refl, subst, Bool, true, false, not, ◌&&◌, ◌||◌, Option, none, some, List, [],
  if◌then◌else◌,
}
use open_fpgastudio.Base.Texts.{Text, codes}
use open_fpgastudio.Base.Dict.{same_text}
use open_fpgastudio.Diagnosis.Json.{
  Value, Fields, null, bool, num, str, arr, obj, get_field, get_field-set_field, get_field_other,
}
use open_fpgastudio.Diagnosis.Validator.{is_text, is_mutating}
use open_fpgastudio.Diagnosis.Validator.Check.{safety_of, with_safety, check_action}
use open_fpgastudio.Diagnosis.Validator.Sound.{
  safety_is_right, action_is_labelled, some_pair, failed_lem,
}

label : Bool → Bool → Bool → Text
label mutates says reads =
    if mutates || says
    then codes "requires_manual_confirmation"
    else if reads
    then codes "read_only"
    else codes "manual"

label_lem :
    (mutates says reads : Bool)
    → (same_text (label mutates says reads) (codes "requires_manual_confirmation")
        || (not mutates
            && (same_text (label mutates says reads) (codes "read_only")
                || same_text (label mutates says reads) (codes "manual"))))
      ≡ true
unfolding label same_text
label_lem true says reads = refl
label_lem false true reads = refl
label_lem false false true = refl
label_lem false false false = refl

safety_lem :
    (action : Text) (safety : Option Value)
    → safety_is_right (some (str action)) (some (str (safety_of action safety))) ≡ true
unfolding safety_of is_text label
safety_lem action safety =
    label_lem (is_mutating action) (is_text (codes "mutating") safety)
      (is_text (codes "read_only") safety)

safety_apart : same_text (codes "safety") (codes "action") ≡ false
unfolding same_text
safety_apart = refl

with_safety_lem :
    (index : ℕ) (action : Option Value) (fields : Fields) (w : Value)
    → get_field (codes "action") fields ≡ action
    → ◌≡◌ {A = Option (Value × List Text)} (some (with_safety index action fields)) (some (w, []))
    → action_is_labelled w ≡ true
with_safety_lem index (some (str action)) fields w e h =
    let label = safety_of action (get_field (codes "safety") fields) in
    subst (λ v. action_is_labelled v ≡ true) (some_pair _ w [] [] h).0
      (rw
        (
          get_field_other (codes "action") (codes "safety") (str label) fields safety_apart,
          e,
          get_field-set_field (codes "safety") (str label) fields,
        )
        (safety_lem action (get_field (codes "safety") fields)))
with_safety_lem index none fields w e h = absurd (failed_lem _ w _ _ h)
with_safety_lem index (some null) fields w e h = absurd (failed_lem _ w _ _ h)
with_safety_lem index (some (bool b)) fields w e h = absurd (failed_lem _ w _ _ h)
with_safety_lem index (some (num n)) fields w e h = absurd (failed_lem _ w _ _ h)
with_safety_lem index (some (arr items)) fields w e h = absurd (failed_lem _ w _ _ h)
with_safety_lem index (some (obj inner)) fields w e h = absurd (failed_lem _ w _ _ h)

pub check_action_lem :
    (index : ℕ) (v w : Value) → check_action index v ≡ some (w, []) → action_is_labelled w ≡ true
unfolding check_action
check_action_lem index (obj fields) w h =
    with_safety_lem index (get_field (codes "action") fields) fields w refl h
check_action_lem index null w h = absurd (failed_lem _ w _ _ h)
check_action_lem index (bool b) w h = absurd (failed_lem _ w _ _ h)
check_action_lem index (num n) w h = absurd (failed_lem _ w _ _ h)
check_action_lem index (str t) w h = absurd (failed_lem _ w _ _ h)
check_action_lem index (arr t) w h = absurd (failed_lem _ w _ _ h)
