-- ===== src/Page/TraceView/Window.antt =====
-- The time window of the trace view's filter (`traceMatchesFilter` of tools/viewer/web/app.js).
use open_fpgastudio.Base.{
  ℕ, ◌≤◌, ◌≡◌, ◌↔◌, refl, Bool, true, false, not, ◌&&◌, Option, none, some, arith, if◌then◌else◌,
  max,
}
use open_fpgastudio.Base.Texts.{codes, dec}
use open_fpgastudio.Base.Dict.{same_text}
use open_fpgastudio.Page.TraceView.{
  Item, item_trace, trace_item_time, trace_item_end_time, TraceFilter, passes_status, is_before,
  is_after, trace_matches_filter,
}

-- A moment that the window does not leave out.
abbrev pub IsInWindow : Option ℕ → Option ℕ → ℕ → Type 0
IsInWindow from_time to_time t = (is_before t from_time ≡ false) × (is_after t to_time ≡ false)

-- The window does not end before it begins.
abbrev pub IsWindow : Option ℕ → Option ℕ → Type 0
IsWindow (some from_time) (some to_time) = from_time ≤ to_time
IsWindow _ _ = Unit

-- The filter with the window taken away.
abbrev pub without_window : TraceFilter → TraceFilter
without_window filter = record filter { from_time = none; to_time = none }

overlap_lem :
    (start finish : ℕ) (from_time to_time : Option ℕ)
    → start ≤ finish
    → IsWindow from_time to_time
    → ((is_before finish from_time ≡ false) × (is_after start to_time ≡ false))
      ↔ ((t : ℕ) × (start ≤ t) × (t ≤ finish) × IsInWindow from_time to_time t)
overlap_lem start finish none none order window =
    (λ h. (start, omega arith, order, (refl, refl)), λ h. (refl, refl))
overlap_lem start finish none (some b) order window = (
  λ h. (start, omega arith, order, (refl, h.1)),
  λ (t, low, high, (left, right)). (refl, ground arith),
)
overlap_lem start finish (some a) none order window = (
  λ h. (finish, order, omega arith, (h.0, refl)),
  λ (t, low, high, (left, right)). (ground arith, refl),
)
overlap_lem start finish (some a) (some b) order window = (
  λ h. (max start a, omega arith, ground arith, (ground arith, ground arith)),
  λ (t, low, high, (left, right)). (ground arith, ground arith),
)

-- The tests one after the other.
tests_lem :
    (lane status early late : Bool)
    → ((if lane then false else if not status then false else if early then false else not late)
        ≡ true)
      ↔ (((if lane then false else if not status then false else if false then false else not false)
            ≡ true)
          × (early ≡ false)
          × (late ≡ false))
tests_lem true status early late = ground arith
tests_lem false true true late = ground arith
tests_lem false true false true = ground arith
tests_lem false true false false = ground arith
tests_lem false false early late = ground arith

-- When neither an item nor a time window ends before it begins, the item is let through the window
-- exactly when it is let through without the window, and some moment of it lies in the window.
pub trace_matches_filter_iff :
    (item : Item) (filter : TraceFilter)
    → trace_item_time item ≤ trace_item_end_time item
    → IsWindow filter.from_time filter.to_time
    → (trace_matches_filter item filter ≡ true) ↔ (
        (trace_matches_filter item (without_window filter) ≡ true)
        × ((t : ℕ) × (trace_item_time item ≤ t)
            × (t ≤ trace_item_end_time item)
            × IsInWindow filter.from_time filter.to_time t))
unfolding trace_matches_filter
trace_matches_filter_iff item filter order window =
    let overlap =
      overlap_lem (trace_item_time item) (trace_item_end_time item) filter.from_time filter.to_time
        order window in
    let tests =
      tests_lem
        (not (same_text filter.lane (codes "all"))
          && not (same_text (dec (item_trace item)) filter.lane))
        (passes_status item filter.status) (is_before (trace_item_end_time item) filter.from_time)
        (is_after (trace_item_time item) filter.to_time) in
    (
      λ h. let parts = tests.0 h in (parts.0, overlap.0 (parts.1, parts.2)),
      λ (plain, moment). let ends = overlap.1 moment in tests.1 (plain, ends.0, ends.1),
    )
