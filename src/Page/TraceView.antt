-- ===== src/Page/TraceView.antt =====
-- The trace view of tools/viewer/web/app.js: the items it is built from, the filter, the newest items
-- that are drawn, and the counts above the timeline. The fields of the filter are arguments; the ends
-- of the window are whole numbers that are not negative. The HTML is left out.
pub mod Window
pub mod Newest
pub mod Averages
use open_fpgastudio.Base.{
  ℕ, zero, suc, ◌+◌, ◌-◌, ◌*◌, ◌/◌, max, Bool, true, false, not, ◌&&◌, ◌||◌, Option, none, some,
  List, [], ◌∷◌, ◌++◌, map, length, drop, ltb, leb, ◌==◌, if◌then◌else◌,
}
use open_fpgastudio.Base.Texts.{Text, codes, dec}
use open_fpgastudio.Base.Dict.{Dict, same_text}
use open_fpgastudio.State.Trace.{OpenSpan, Span, Mark, Drop, Trace}

-- A span as it is shown; one that is open has neither a duration nor a status.
pub record ShownSpan : Type 0 where
  pub trace_id : ℕ
  pub instance_id : ℕ
  pub start_timestamp : Option ℕ
  pub end_timestamp : ℕ
  pub duration : Option ℕ
  pub status : Option ℕ
  pub start_arg0 : Option ℕ
  pub end_arg0 : Option ℕ
  pub is_open : Bool
  pub orphan : Bool

pub data Item : Type 0 where
  span : ShownSpan → Item
  mark : Mark → Item
  dropped : Drop → Item

abbrev pub time_or : Option ℕ → ℕ → ℕ
time_or none d = d
time_or (some n) d = n

-- `traceItemTime`
unfoldable pub trace_item_time : Item → ℕ
trace_item_time (span s) = time_or s.start_timestamp s.end_timestamp
trace_item_time (mark m) = m.timestamp
trace_item_time (dropped d) = d.timestamp

-- `traceItemEndTime`
unfoldable pub trace_item_end_time : Item → ℕ
trace_item_end_time (span s) = s.end_timestamp
trace_item_end_time (mark m) = m.timestamp
trace_item_end_time (dropped d) = d.timestamp

abbrev pub item_trace : Item → ℕ
item_trace (span s) = s.trace_id
item_trace (mark m) = m.trace_id
item_trace (dropped d) = d.trace_id

-- `getTraceFilter`
pub record TraceFilter : Type 0 where
  pub lane : Text
  pub status : Text
  pub from_time : Option ℕ
  pub to_time : Option ℕ

abbrev is_status : ℕ → Option ℕ → Bool
is_status n none = false
is_status n (some status) = status == n

-- `isTraceProblem`
unfoldable pub is_trace_problem : ShownSpan → Bool
is_trace_problem s =
    s.orphan || (is_status 1 s.status || (is_status 2 s.status || is_status 3 s.status))

unfoldable pub is_digits : Text → Bool
is_digits [] = true
is_digits (c ∷ cs) = (leb b'0' c && leb c b'9') && is_digits cs

-- `/^\d+$/`
abbrev is_number : Text → Bool
is_number [] = false
is_number (c ∷ cs) = is_digits (c ∷ cs)

-- `String(item.status)`
abbrev status_text : Option ℕ → Text
status_text none = codes "null"
status_text (some n) = dec n

-- The tests of the item's kind and status.
unfoldable pub passes_status : Item → Text → Bool
unfolding is_trace_problem is_digits same_text
passes_status (span s) status =
    if same_text status (codes "problem") && not (is_trace_problem s)
    then false
    else not (is_number status && not (same_text (status_text s.status) status))
passes_status (mark m) status = same_text status (codes "all")
passes_status (dropped d) status =
    same_text status (codes "problem") || same_text status (codes "all")

abbrev is_before : ℕ → Option ℕ → Bool
is_before t none = false
is_before t (some limit) = ltb t limit

abbrev is_after : ℕ → Option ℕ → Bool
is_after t none = false
is_after t (some limit) = ltb limit t

-- `traceMatchesFilter`
unfoldable pub trace_matches_filter : Item → TraceFilter → Bool
unfolding passes_status trace_item_time trace_item_end_time same_text
trace_matches_filter item filter =
    if not (same_text filter.lane (codes "all"))
      && not (same_text (dec (item_trace item)) filter.lane)
    then false
    else if not (passes_status item filter.status)
    then false
    else if is_before (trace_item_end_time item) filter.from_time
    then false
    else not (is_after (trace_item_time item) filter.to_time)

abbrev shown_open : OpenSpan → Item
shown_open s = span (record {
  trace_id = s.trace_id;
  instance_id = s.instance_id;
  start_timestamp = some s.start_timestamp;
  end_timestamp = s.start_timestamp;
  duration = none;
  status = none;
  start_arg0 = some s.start_arg0;
  end_arg0 = none;
  is_open = true;
  orphan = false;
})

abbrev shown_span : Span → Item
shown_span s = span (record {
  trace_id = s.trace_id;
  instance_id = s.instance_id;
  start_timestamp = s.start_timestamp;
  end_timestamp = s.end_timestamp;
  duration = s.duration;
  status = some s.status;
  start_arg0 = s.start_arg0;
  end_arg0 = some s.end_arg0;
  is_open = false;
  orphan = s.orphan;
})

-- `buildTraceItems`
unfoldable pub build_trace_items : Trace → List Item
build_trace_items t =
    map shown_span t.spans
    ++ map (λ entry. shown_open entry.1) t.open_spans
    ++ map mark t.marks
    ++ map dropped t.drops

unfoldable pub filter_items : (Item → Bool) → List Item → List Item
filter_items test [] = []
filter_items test (item ∷ items) =
    let others = filter_items test items in if test item then item ∷ others else others

unfoldable pub insert_item : Item → List Item → List Item
unfolding trace_item_time
insert_item item [] = item ∷ []
insert_item item (other ∷ items) =
    let rest = insert_item item items in
    if leb (trace_item_time item) (trace_item_time other)
    then item ∷ other ∷ items
    else other ∷ rest

-- `.sort((a, b) => traceItemTime(a) - traceItemTime(b))`, which keeps the order of equal times.
unfoldable pub sort_items : List Item → List Item
unfolding insert_item
sort_items [] = []
sort_items (item ∷ items) = insert_item item (sort_items items)

abbrev pub max_render_items : ℕ
max_render_items = 1200

-- `.slice(-limit)`
abbrev pub last_items : ℕ → List Item → List Item
last_items limit items = drop (length items - limit) items

abbrev is_none : Option ℕ → Bool
is_none none = true
is_none (some n) = false

-- The newest of the items that match, when there are too many.
unfoldable pub newest_of : Bool → List Item → List Item
unfolding sort_items
newest_of limited matching =
    if limited && ltb max_render_items (length matching)
    then last_items max_render_items (sort_items matching)
    else matching

-- `visibleItems` of `renderTrace`.
unfoldable pub visible_items : TraceFilter → List Item → List Item
unfolding filter_items trace_matches_filter newest_of
visible_items filter items =
    newest_of (is_none filter.from_time && is_none filter.to_time)
      (filter_items (λ item. trace_matches_filter item filter) items)

-- `duration` of a span that is shown and not open.
abbrev closed_duration : Item → List ℕ
closed_duration (span s) = elim s.duration [ none ↦ [] | some d ↦ if s.is_open then [] else d ∷ [] ]
closed_duration _ = []

unfoldable pub durations : List Item → List ℕ
durations [] = []
durations (item ∷ items) = closed_duration item ++ durations items

unfoldable pub sum : List ℕ → ℕ
sum [] = 0
sum (d ∷ ds) = d + sum ds

unfoldable pub largest : List ℕ → ℕ
largest [] = 0
largest (d ∷ ds) = max d (largest ds)

abbrev problem_of : Item → ℕ
problem_of (span s) = if is_trace_problem s && not s.is_open then 1 else 0
problem_of (mark m) = 0
problem_of (dropped d) = 1

unfoldable pub problem_count : List Item → ℕ
unfolding is_trace_problem
problem_count [] = 0
problem_count (item ∷ items) = problem_of item + problem_count items

-- `Math.round(totalDuration / durations.length)`, "-" without durations.
unfoldable pub average_duration : List ℕ → Option ℕ
unfolding sum
average_duration [] = none
average_duration (d ∷ ds) = some ((2 * sum (d ∷ ds) + length (d ∷ ds)) / (2 * length (d ∷ ds)))

-- `maxDuration`
unfoldable pub max_duration : List ℕ → Option ℕ
unfolding largest
max_duration [] = none
max_duration (d ∷ ds) = some (largest (d ∷ ds))
