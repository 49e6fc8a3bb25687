-- ===== src/Diagnosis/Rules/Thresholds.antt =====
-- The thresholds of the local rules (`threshold` of tools/viewer/web/diagnostic_rules.js) under a
-- configuration that `validateConfig` lets pass.
use open_fpgastudio.Base.{
  ◌≡◌, refl, sym, ap, ◌∙◌, Bool, true, false, Bool-cases, inl, inr, not, Option, none, some, List,
  [], ◌∷◌, All, Option-cases,
}
use open_fpgastudio.Base.Texts.{Text, codes}
use open_fpgastudio.Base.Dict.{same_text}
use open_fpgastudio.Diagnosis.Json.{
  Value, Fields, null, bool, num, str, arr, obj, end, field, get_field,
}
use open_fpgastudio.Diagnosis.Validator.{add_if}
use open_fpgastudio.Diagnosis.Validator.Sound.{append_empty, add_if_empty}
use open_fpgastudio.Diagnosis.Rules.{
  Rule, registry, is_rule, field_entries, entries_of, unknown_fields, unknown_rules, not_list,
  is_limit, threshold_errors, config_errors, entry_at, from_baseline, threshold_of,
}

-- A threshold that is a number, finite and not negative.
abbrev IsLimit : Value → Type 0
IsLimit v = is_limit v ≡ true

or_limit : Value → Option Value → Value
or_limit d none = d
or_limit d (some v) = v

some_value : (v w : Value) → some v ≡ some w → v ≡ w
unfolding or_limit
some_value v w h = ap (or_limit v) h

not_lem : (b : Bool) → not b ≡ false → b ≡ true
not_lem true h = refl
not_lem false h = cc

fields-IsLimit :
    (id : Text) (fields : Fields) (v : Value)
    → threshold_errors (field_entries fields) ≡ []
    → get_field id fields ≡ some v
    → IsLimit v
unfolding threshold_errors field_entries get_field
fields-IsLimit id end v none_wrong h = cc
fields-IsLimit id (field key w fields) v none_wrong h =
    let known = append_empty (add_if (not (is_rule registry key)) _) _ none_wrong in
    let right = append_empty (add_if (not (is_limit w)) _) _ known.1 in
    let good : IsLimit w = not_lem (is_limit w) (add_if_empty _ _ right.0) in
    elim (Bool-cases (same_text key id)) [
      | inl e ↦ ap is_limit (some_value v w (sym (rw e at h))) ∙ good
      | inr e ↦ fields-IsLimit id fields v right.1 (rw e at h)
    ]

project-IsLimit :
    (id : Text) (given : Option Value) (v : Value)
    → threshold_errors (entries_of given) ≡ []
    → entry_at id given ≡ some v
    → IsLimit v
project-IsLimit id (some (obj fields)) v none_wrong h = fields-IsLimit id fields v none_wrong h
project-IsLimit id none v none_wrong h = cc
project-IsLimit id (some null) v none_wrong h = cc
project-IsLimit id (some (bool b)) v none_wrong h = cc
project-IsLimit id (some (num n)) v none_wrong h = cc
project-IsLimit id (some (str t)) v none_wrong h = cc
project-IsLimit id (some (arr items)) v none_wrong h = cc

baseline-IsLimit :
    (rule : Rule) (base : Option Value)
    → IsLimit (num rule.threshold)
    → IsLimit (from_baseline rule base).0
baseline-IsLimit rule none own = own
baseline-IsLimit rule (some base) own = elim (Bool-cases (is_limit base)) [
  | inl e ↦ rw e e
  | inr e ↦ rw e own
]

rule-IsLimit :
    (rule : Rule) (config baseline : Fields)
    → IsLimit (num rule.threshold)
    → threshold_errors (entries_of (get_field (codes "thresholds") config)) ≡ []
    → IsLimit (threshold_of rule config baseline).0
unfolding threshold_of
rule-IsLimit rule config baseline own none_wrong =
    elim (Option-cases (entry_at rule.id (get_field (codes "thresholds") config))) [
      | inl e ↦
          rw e
            (baseline-IsLimit rule (entry_at rule.id (get_field (codes "thresholds") baseline)) own)
      | inr (v, e) ↦
          rw e (project-IsLimit rule.id (get_field (codes "thresholds") config) v none_wrong e)
    ]

last_empty :
    (config : Fields)
    → config_errors config ≡ []
    → threshold_errors (entries_of (get_field (codes "thresholds") config)) ≡ []
unfolding config_errors
last_empty config h =
    let fields = append_empty (unknown_fields (field_entries config)) _ h in
    let enabled =
      append_empty (add_if (not_list (get_field (codes "enabled_groups") config)) _) _ fields.1 in
    let disabled =
      append_empty (add_if (not_list (get_field (codes "disabled_groups") config)) _) _ enabled.1 in
    (append_empty (unknown_rules (entries_of (get_field (codes "rules") config))) _ disabled.1).1

own_limits : All (λ rule. IsLimit (num rule.threshold)) registry
own_limits = (refl, (refl, (refl, (refl, (refl, (refl, (refl, (refl, (refl, (refl, tt))))))))))

rules-IsLimit :
    (config baseline : Fields)
    → threshold_errors (entries_of (get_field (codes "thresholds") config)) ≡ []
    → (rules : List Rule) → All (λ rule. IsLimit (num rule.threshold)) rules
    → All (λ rule. is_limit (threshold_of rule config baseline).0 ≡ true) rules
rules-IsLimit config baseline h [] own = own
rules-IsLimit config baseline h (rule ∷ rules) own =
    (rule-IsLimit rule config baseline own.0 h, rules-IsLimit config baseline h rules own.1)

-- Under a configuration that `validateConfig` lets pass, every rule of the registry has a threshold that
-- is a finite number and not negative, whatever the baseline of the session holds.
pub threshold_of-IsLimit :
    (config baseline : Fields)
    → config_errors config ≡ []
    → All (λ rule. is_limit (threshold_of rule config baseline).0 ≡ true) registry
threshold_of-IsLimit config baseline h =
    rules-IsLimit config baseline (last_empty config h) registry own_limits
