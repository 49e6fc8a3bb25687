-- ===== src/Diagnosis/Rules.antt =====
-- The configuration of the local rules, tools/viewer/web/diagnostic_rules.js: `REGISTRY`,
-- `validateConfig`, `enabled` and `threshold`. The rules themselves are left out.
pub mod Thresholds
use open_fpgastudio.Base.{
  ℕ, zero, suc, ◌+◌, Bool, true, false, not, ◌&&◌, ◌||◌, Option, none, some, List, [], ◌∷◌, ◌++◌,
  ltb, ◌==◌, if◌then◌else◌,
}
use open_fpgastudio.Base.Texts.{Text, codes, dec}
use open_fpgastudio.Base.Dict.{same_text}
use open_fpgastudio.Diagnosis.Json.{
  Number, Value, Items, Fields, bool, num, str, arr, obj, nil, cons, end, field, get_field,
}
use open_fpgastudio.Diagnosis.Redaction.{contains}
use open_fpgastudio.Diagnosis.Validator.{add_if, is_text}

pub record Rule : Type 0 where
  pub id : Text
  pub group : Text
  pub threshold : Number

abbrev whole : ℕ → Number
whole n = record { negative = false; top = n; bottom = 1 }

abbrev rule_of : Text → Text → Number → Rule
rule_of id group threshold = record { id = id; group = group; threshold = threshold }

-- `REGISTRY`, without kinds and severities.
abbrev pub registry : List Rule
registry =
    rule_of (codes "data_quality.incomplete.v1") (codes "data_quality") (whole 1)
    ∷ rule_of (codes "transport.error_rate.v1") (codes "transport") (whole 1)
    ∷ rule_of (codes "monitor.response_timeout.v1") (codes "monitor") (whole 1)
    ∷ rule_of (codes "fifo.backpressure.v1") (codes "fifo") (whole 8)
    ∷ rule_of (codes "throughput.drop.v1") (codes "throughput")
        (record { negative = false; top = 4; bottom = 5 })
    ∷ rule_of (codes "latency.spike.v1") (codes "latency") (whole 100)
    ∷ rule_of (codes "frame.stall.v1") (codes "frame") (whole 2)
    ∷ rule_of (codes "la.trigger_missing.v1") (codes "logic_analyzer") (whole 1000)
    ∷ rule_of (codes "la.data_integrity.v1") (codes "logic_analyzer") (whole 1)
    ∷ rule_of (codes "cross_source.temporal_overlap.v1") (codes "correlation") (whole 50)
    ∷ []

-- `BY_ID.has(key)`
unfoldable pub is_rule : List Rule → Text → Bool
unfolding same_text
is_rule [] key = false
is_rule (rule ∷ rules) key = same_text rule.id key || is_rule rules key

abbrev pub allowed_config : List Text
allowed_config =
    codes "enabled_groups" ∷ codes "disabled_groups" ∷ codes "rules" ∷ codes "thresholds" ∷ []

-- `Object.entries`
unfoldable pub field_entries : Fields → List (Text × Value)
field_entries end = []
field_entries (field key v fields) = (key, v) ∷ field_entries fields

unfoldable pub item_entries : ℕ → Items → List (Text × Value)
item_entries index nil = []
item_entries index (cons v items) = (dec index, v) ∷ item_entries (index + 1) items

unfoldable pub char_entries : ℕ → Text → List (Text × Value)
char_entries index [] = []
char_entries index (c ∷ cs) = (dec index, str (c ∷ [])) ∷ char_entries (index + 1) cs

-- `Object.entries(value || {})`
abbrev pub entries_of : Option Value → List (Text × Value)
entries_of (some (obj fields)) = field_entries fields
entries_of (some (arr items)) = item_entries 0 items
entries_of (some (str t)) = char_entries 0 t
entries_of _ = []

unfoldable pub unknown_fields : List (Text × Value) → List Text
unfolding contains
unknown_fields [] = []
unknown_fields ((key, v) ∷ entries) =
    add_if (not (contains allowed_config key)) (codes "unknown config field: " ++ key)
    ++ unknown_fields entries

abbrev not_list : Option Value → Bool
not_list none = false
not_list (some (arr items)) = false
not_list (some v) = true

unfoldable pub unknown_rules : List (Text × Value) → List Text
unfolding is_rule
unknown_rules [] = []
unknown_rules ((key, v) ∷ entries) =
    add_if (not (is_rule registry key)) (codes "unknown rule: " ++ key) ++ unknown_rules entries

-- `Number.isFinite(value) && !(value < 0)`
abbrev pub is_limit : Value → Bool
is_limit (num n) = not (n.bottom == 0) && not (n.negative && ltb 0 n.top)
is_limit _ = false

unfoldable pub threshold_errors : List (Text × Value) → List Text
unfolding is_rule
threshold_errors [] = []
threshold_errors ((key, v) ∷ entries) =
    add_if (not (is_rule registry key)) (codes "unknown threshold rule: " ++ key)
    ++ (add_if (not (is_limit v)) (codes "invalid threshold for " ++ key)
        ++ threshold_errors entries)

-- `validateConfig`: the errors that it throws, or none.
unfoldable pub config_errors : Fields → List Text
unfolding unknown_fields unknown_rules threshold_errors field_entries item_entries char_entries
    get_field
config_errors config =
    unknown_fields (field_entries config)
    ++ (add_if (not_list (get_field (codes "enabled_groups") config))
          (codes "enabled_groups must be an array")
        ++ (add_if (not_list (get_field (codes "disabled_groups") config))
              (codes "disabled_groups must be an array")
            ++ (unknown_rules (entries_of (get_field (codes "rules") config))
                ++ threshold_errors (entries_of (get_field (codes "thresholds") config)))))

-- `value && value[key]`, for a key that is no index.
abbrev pub entry_at : Text → Option Value → Option Value
entry_at key (some (obj fields)) = get_field key fields
entry_at key _ = none

abbrev is_off : Option Value → Bool
is_off (some (bool false)) = true
is_off _ = false

unfoldable pub lists_text : Text → Items → Bool
unfolding is_text
lists_text t nil = false
lists_text t (cons v items) = is_text t (some v) || lists_text t items

-- `groups && groups.includes(group)`; `validateConfig` lets only an array through.
abbrev names_group : Text → Option Value → Bool
names_group group (some (arr items)) = lists_text group items
names_group group _ = false

abbrev is_given : Option Value → Bool
is_given (some (arr items)) = true
is_given _ = false

-- `enabled`
unfoldable pub is_enabled : Rule → Fields → Bool
unfolding get_field lists_text
is_enabled rule config =
    if is_off (entry_at rule.id (get_field (codes "rules") config))
    then false
    else if names_group rule.group (get_field (codes "disabled_groups") config)
    then false
    else not (is_given (get_field (codes "enabled_groups") config))
      || names_group rule.group (get_field (codes "enabled_groups") config)

pub data Source : Type 0 where
  project session_baseline default : Source

abbrev pub from_baseline : Rule → Option Value → Value × Source
from_baseline rule none = (num rule.threshold, default)
from_baseline rule (some base) =
    if is_limit base then (base, session_baseline) else (num rule.threshold, default)

abbrev pub from_project : Rule → Option Value → Option Value → Value × Source
from_project rule (some v) base = (v, project)
from_project rule none base = from_baseline rule base

-- `threshold`
unfoldable pub threshold_of : Rule → Fields → Fields → Value × Source
unfolding get_field
threshold_of rule config baseline =
    from_project rule (entry_at rule.id (get_field (codes "thresholds") config))
      (entry_at rule.id (get_field (codes "thresholds") baseline))
