-- ===== src/Tests/Diagnosing.antt =====
-- The diagnosis and the trace view at concrete input.
use mathlib.Core.List.{Perm}
use open_fpgastudio.Base.{
  ℕ, ◌≤◌, ◌≡◌, ◌↔◌, refl, true, false, ◌||◌, Option, none, some, List, [], ◌∷◌, ◌++◌, arith, length,
  min, All, ◌==◌, if◌then◌else◌,
}
use open_fpgastudio.Base.Texts.{Text, codes}
use open_fpgastudio.Base.Dict.{same_text}
use open_fpgastudio.Diagnosis.Timeline.{unwrap_timestamps}
use open_fpgastudio.Diagnosis.Timeline.Unwrap.{modulus, shown_all, ticks, unwrap_timestamps-shown}
use open_fpgastudio.Diagnosis.Ranges.{max_ranges, sample_summary}
use open_fpgastudio.Diagnosis.Ranges.Expand.{expand, sample_summary-expand}
use open_fpgastudio.Diagnosis.Json.{
  Value, Items, Fields, null, bool, num, str, arr, obj, nil, cons, end, field, texts, get_field,
}
use open_fpgastudio.Diagnosis.Redaction.{provider_preview, redact_value}
use open_fpgastudio.Diagnosis.Redaction.Clean.{is_clean, redact_value_cases}
use open_fpgastudio.Diagnosis.Validator.{valid, shape_errors}
use open_fpgastudio.Diagnosis.Validator.Check.{Conversions, validate, items_of}
use open_fpgastudio.Diagnosis.Validator.Sound.Whole.{no_secret, IsTrusted, validate-IsTrusted}
use open_fpgastudio.Diagnosis.Validator.Throws.{
  is_thrown, fact_throws, hypothesis_throws, any, validate_throws,
}
use open_fpgastudio.Diagnosis.Controller.{
  completed, cancelled, failed, timeout, show, ProviderError, Checked, passed, refused, Controller,
  new_controller, cancel_run, start_run, provider_throws, provider_replies,
}
use open_fpgastudio.Diagnosis.Controller.Steps.{starts, replies, throws, Reach, initial, later}
use open_fpgastudio.Diagnosis.Controller.Overtaken.{
  overtaken, overtaken_timeout, cancelled_completes,
}
use open_fpgastudio.Diagnosis.Controller.Ends.{
  replied, threw, is_ended, take_replies, take_replies_ends,
}
use open_fpgastudio.Diagnosis.Controller.Trusted.{Context, IsResult, check_reply, shown-IsResult}
use open_fpgastudio.Page.TraceView.{
  Item, mark, trace_item_time, trace_item_end_time, TraceFilter, trace_matches_filter,
  visible_items, max_render_items,
}
use open_fpgastudio.Page.TraceView.Window.{IsInWindow, without_window, trace_matches_filter_iff}
use open_fpgastudio.Page.TraceView.Newest.{AreNotOlder, matching_items, visible_items_newest}

-- Two times with a wrap between them, and a record without one.
abbrev times : List (Option ℕ)
times = some 4294967290 ∷ none ∷ some 4294967300 ∷ []

unwrap_timestamps-shown_example : ticks (unwrap_timestamps (shown_all times) modulus) ≡ times
unwrap_timestamps-shown_example =
    unwrap_timestamps-shown times (omega arith, (omega arith, omega arith, tt))

abbrev samples : List (Option ℕ)
samples = some 3 ∷ some 3 ∷ none ∷ some 3 ∷ []

sample_summary-expand_example :
    (length (sample_summary samples).ranges ≤ max_ranges)
    × (((sample_summary samples).truncated ≡ false)
        ↔ (expand (sample_summary samples).ranges ≡ samples))
sample_summary-expand_example = sample_summary-expand samples

-- A snapshot with a path, and a path inside an array.
abbrev snapshot : Value
snapshot = obj (
    field (codes "dir") (str (codes "/home/a"))
      (field (codes "lines") (arr (texts (codes "/home/a" ∷ []))) end))

redact_value_cases_example :
    (is_clean provider_preview (redact_value provider_preview [] snapshot).0 ≡ true)
    × (redact_value provider_preview [] (arr (texts (codes "/home/a" ∷ [])))
        ≡ (arr (texts (codes "/home/a" ∷ [])), []))
redact_value_cases_example = redact_value_cases provider_preview [] snapshot (codes "/home/a" ∷ [])

-- Conversions that throw for objects.
abbrev plain : Conversions
plain = record {
  string_of = λ v. elim v [
    | obj fields ↦ none
    | null ↦ some (codes "null")
    | bool b ↦ some (codes "true")
    | num n ↦ some (codes "1")
    | str t ↦ some t
    | arr items ↦ some []
  ];
  number_of = λ v. none;
}

abbrev one : Value
one = num (record { negative = false; top = 1; bottom = 1 })

-- A reply with some facts, one hypothesis and one action.
abbrev reply_of : Items → Fields → Fields → Fields → Fields
reply_of facts hypothesis action metadata = field (codes "schema_version") one (
    field (codes "summary") (str (codes "S")) (
      field (codes "observed_facts") (arr facts) (
        field (codes "hypotheses") (arr (cons (obj hypothesis) nil)) (
          field (codes "recommended_actions") (arr (cons (obj action) nil)) (
            field (codes "insufficient_evidence") (arr nil)
              (field (codes "metadata") (obj metadata) end))))))

-- A hypothesis that cites nothing, and an action that writes.
abbrev reply_with : Items → Fields
reply_with facts =
    reply_of facts (field (codes "confidence") one (field (codes "evidence_ids") (arr nil) end))
      (field (codes "action") (str (codes "Write it")) end) end

-- The reply as it is given back.
abbrev labelled : Value
labelled = obj (
    reply_of nil
      (field (codes "confidence") (num (record { negative = false; top = 1; bottom = 4 })) (
        field (codes "evidence_ids") (arr nil)
          (field (codes "status") (str (codes "unverified")) end)))
      (field (codes "action") (str (codes "Write it"))
        (field (codes "safety") (str (codes "requires_manual_confirmation")) end))
      (field (codes "validation_status") (str (codes "validated")) end))

validate_run : validate plain (some 10) [] [] [] [] (some (obj (reply_with nil))) ≡ valid labelled
unfolding validate
validate_run = refl

validate-IsTrusted_example :
    (length {A = ℕ} [] ≤ 10) × (no_secret [] [] ≡ true) × IsTrusted plain [] [] labelled
validate-IsTrusted_example =
    validate-IsTrusted plain [] [] (some 10) [] [] (some (obj (reply_with nil))) labelled
      validate_run

-- A reply with a fact that cites an object.
abbrev odd_reply : Fields
odd_reply =
    reply_with (cons (obj (field (codes "evidence_ids") (arr (cons (obj end) nil)) end)) nil)

reply_shape : shape_errors [] [] odd_reply ≡ []
unfolding shape_errors same_text
reply_shape = refl

validate_throws_example :
    is_thrown (validate plain (some 10) [] [] [] [] (some (obj odd_reply))) ≡ (
      any (fact_throws plain) (items_of (get_field (codes "observed_facts") odd_reply))
      || any (hypothesis_throws plain) (items_of (get_field (codes "hypotheses") odd_reply)))
validate_throws_example =
    validate_throws plain [] [] (some 10) [] [] odd_reply (omega arith) reply_shape

odd_reply_throws : is_thrown (validate plain (some 10) [] [] [] [] (some (obj odd_reply))) ≡ true
unfolding validate
odd_reply_throws = refl

abbrev first : Controller Value
first = new_controller

-- A run with one retry, whose provider fails once and then replies.
abbrev run : Controller Value
run = start_run 1 new_controller

abbrev busy : ProviderError
busy = record { is_abort = false; retryable = true; code = none }

abbrev aborted_error : ProviderError
aborted_error = record { is_abort = true; retryable = false; code = none }

abbrev again : Controller Value
again = provider_throws 1 busy run

-- Only the first run sends evidence.
abbrev contexts : ℕ → Context
contexts g = record { forbidden = []; evidence = if g == 1 then codes "E" ∷ [] else []; rules = [] }

abbrev checked : ℕ → Text × Option Value → Checked Value
checked = check_reply plain contexts

abbrev reply : Text × Option Value
reply = ([], some (obj (reply_with nil)))

abbrev done : Controller Value
done = provider_replies 1 (checked 1 reply) again

done_reached : Reach checked done
unfolding start_run provider_throws
done_reached = later (later (later initial (starts 1)) (throws 1 busy refl)) (replies 1 reply refl)

done_status : done.shown.status ≡ completed
unfolding start_run provider_throws provider_replies validate
done_status = refl

done_result : done.shown.result ≡ some labelled
unfolding start_run provider_throws provider_replies validate
done_result = refl

shown-IsResult_example : (done.shown.generation ≡ 1) × IsResult plain contexts 1 labelled
unfolding start_run provider_throws provider_replies validate
shown-IsResult_example =
    shown-IsResult plain contexts done labelled done_reached done_status done_result

overtaken_timeout_example :
    ((start_run 0 (start_run 0 first)).timers 1 ≡ true)
    × ((overtaken first 0 0).timers 2 ≡ true)
    × ((overtaken first 0 0).aborted 2 ≡ true)
    × ((provider_throws 2 aborted_error (overtaken first 0 0)).shown
        ≡ show failed 2 none (some timeout))
overtaken_timeout_example = overtaken_timeout first 0 0 aborted_error refl

cancelled_completes_example :
    ((cancel_run (start_run 0 first)).shown.status ≡ cancelled)
    × ((provider_replies 1 (passed labelled) (cancel_run (start_run 0 first))).shown
        ≡ show completed 1 (some labelled) none)
cancelled_completes_example = cancelled_completes first 0 labelled

take_replies_ends_example :
    ((take_replies (threw busy ∷ replied refused ∷ []) run).generation ≡ 1)
    × ((take_replies (threw busy ∷ replied refused ∷ []) run).waiting 1 ≡ none)
    × (is_ended (take_replies (threw busy ∷ replied refused ∷ []) run).shown.status ≡ true)
    × ((take_replies (threw busy ∷ replied refused ∷ []) run).shown.generation ≡ 1)
unfolding start_run
take_replies_ends_example =
    take_replies_ends (threw busy ∷ replied refused ∷ []) (record { attempt = 0; retries = 1 }) run
      refl (omega arith) (omega arith)

abbrev moment : Item
moment = mark (record { timestamp = 7; trace_id = 1; level = 0; arg0 = 0 })

abbrev window : TraceFilter
window = record { lane = codes "all"; status = codes "all"; from_time = some 5; to_time = some 9 }

trace_matches_filter_iff_example : (trace_matches_filter moment window ≡ true) ↔ (
    (trace_matches_filter moment (without_window window) ≡ true)
    × ((t : ℕ) × (trace_item_time moment ≤ t)
        × (t ≤ trace_item_end_time moment)
        × IsInWindow (some 5) (some 9) t))
unfolding trace_item_time trace_item_end_time
trace_matches_filter_iff_example =
    trace_matches_filter_iff moment window (omega arith) (omega arith)

abbrev open_window : TraceFilter
open_window = without_window window

visible_items_newest_example :
    (left : List Item) × Perm
      (left ++ visible_items open_window (moment ∷ []))
      (matching_items open_window (moment ∷ []))
    × All (AreNotOlder (visible_items open_window (moment ∷ []))) left
    × (length (visible_items open_window (moment ∷ []))
        ≡ min max_render_items (length (matching_items open_window (moment ∷ []))))
visible_items_newest_example = visible_items_newest open_window (moment ∷ []) refl refl
