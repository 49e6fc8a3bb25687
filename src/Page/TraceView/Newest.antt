-- ===== src/Page/TraceView/Newest.antt =====
-- The items that the trace view draws when there are many (`renderTrace` of tools/viewer/web/app.js).
use mathlib.Core.List.{Perm}
use mathlib.Core.List.Perm
use open_fpgastudio.Base.{
  ℕ, zero, suc, ◌-◌, ◌≤◌, ◌≡◌, refl, sym, ap, subst, ◌∙◌, min, true, Bool-cases, inl, inr, ◌&&◌,
  none, List, [], ◌∷◌, ◌++◌, arith, length, take, drop, length-drop, All, ltb, leb, ltb→lt,
  if-intro,
}
use open_fpgastudio.Page.TraceView.{
  Item, trace_item_time, TraceFilter, trace_matches_filter, filter_items, insert_item, sort_items,
  max_render_items, is_none, newest_of, visible_items,
}

abbrev pub AreNotOlder : List Item → Item → Type 0
AreNotOlder items item = All (λ other. trace_item_time item ≤ trace_item_time other) items

IsOrdered : List Item → Type 0
IsOrdered [] = Unit
IsOrdered (item ∷ items) = AreNotOlder items item × IsOrdered items

insert_item-perm : (item : Item) (items : List Item) → Perm (insert_item item items) (item ∷ items)
unfolding insert_item
insert_item-perm item [] = Perm.rfl
insert_item-perm item (other ∷ items) =
    if-intro (λ xs. Perm xs (item ∷ other ∷ items))
      (leb (trace_item_time item) (trace_item_time other)) (item ∷ other ∷ items)
      (other ∷ insert_item item items) Perm.rfl
      (Perm.trans (Perm.cons other (insert_item-perm item items)) (Perm.swap item other items))

pub sort_items-perm : (items : List Item) → Perm (sort_items items) items
unfolding sort_items
sort_items-perm [] = Perm.rfl
sort_items-perm (item ∷ items) =
    Perm.trans (insert_item-perm item (sort_items items)) (Perm.cons item (sort_items-perm items))

All-insert :
    (P : Item → Type 0) (item : Item) (items : List Item)
    → P item
    → All P items
    → All P (insert_item item items)
unfolding insert_item
All-insert P item [] h all = (h, all)
All-insert P item (other ∷ items) h all =
    if-intro (All P) (leb (trace_item_time item) (trace_item_time other)) (item ∷ other ∷ items)
      (other ∷ insert_item item items) (h, all) (all.0, All-insert P item items h all.1)

All-weaken :
    {P Q : Item → Type 0} (law : (item : Item) → P item → Q item) (items : List Item)
    → All P items
    → All Q items
All-weaken law [] all = all
All-weaken law (item ∷ items) all = (law item all.0, All-weaken law items all.1)

insert-IsOrdered :
    (item : Item) (items : List Item) → IsOrdered items → IsOrdered (insert_item item items)
unfolding insert_item IsOrdered
insert-IsOrdered item [] order = (_, _)
insert-IsOrdered item (other ∷ items) order =
    elim (Bool-cases (leb (trace_item_time item) (trace_item_time other))) [
      | inl e ↦
          let first : trace_item_time item ≤ trace_item_time other = ground arith in
          rw e ((first, All-weaken (λ next h. omega arith) items order.0), order)
      | inr e ↦
          let first : trace_item_time other ≤ trace_item_time item = ground arith in
          rw e (All-insert _ item items first order.0, insert-IsOrdered item items order.1)
    ]

sort-IsOrdered : (items : List Item) → IsOrdered (sort_items items)
unfolding sort_items IsOrdered
sort-IsOrdered [] = _
sort-IsOrdered (item ∷ items) = insert-IsOrdered item (sort_items items) (sort-IsOrdered items)

All-drop : (P : Item → Type 0) (n : ℕ) (items : List Item) → All P items → All P (drop n items)
All-drop P zero items all = all
All-drop P (suc n) [] all = all
All-drop P (suc n) (item ∷ items) all = All-drop P n items all.1

split_ordered :
    (n : ℕ) (items : List Item) → IsOrdered items → All (AreNotOlder (drop n items)) (take n items)
unfolding IsOrdered
split_ordered zero items order = _
split_ordered (suc n) [] order = _
split_ordered (suc n) (item ∷ items) order =
    (All-drop _ n items order.0, split_ordered n items order.1)

take-drop : (n : ℕ) (items : List Item) → (take n items ++ drop n items) ≡ items
take-drop zero items = refl
take-drop (suc n) [] = refl
take-drop (suc n) (item ∷ items) = ap (item ∷◌) (take-drop n items)

length-insert_item :
    (item : Item) (items : List Item) → length (insert_item item items) ≡ suc (length items)
unfolding insert_item
length-insert_item item [] = refl
length-insert_item item (other ∷ items) =
    if-intro (λ xs. length xs ≡ suc (suc (length items)))
      (leb (trace_item_time item) (trace_item_time other)) (item ∷ other ∷ items)
      (other ∷ insert_item item items) refl (ap suc (length-insert_item item items))

length-sort_items : (items : List Item) → length (sort_items items) ≡ length items
unfolding sort_items
length-sort_items [] = refl
length-sort_items (item ∷ items) =
    length-insert_item item (sort_items items) ∙ ap suc (length-sort_items items)

-- What is drawn of many items.
abbrev IsNewest : List Item → List Item → Type 0
IsNewest matching shown =
    (left : List Item) × Perm (left ++ shown) matching
    × All (AreNotOlder shown) left
    × (length shown ≡ min max_render_items (length matching))

newest_lem : (matching : List Item) → IsNewest matching (newest_of true matching)
unfolding newest_of
newest_lem matching =
    let sorted = sort_items matching in
    let n = length sorted - max_render_items in
    let same = length-sort_items matching in
    elim (Bool-cases (ltb max_render_items (length matching))) [
      | inl many ↦ rw many (
        take n sorted,
        rw (take-drop n sorted) (sort_items-perm matching),
        split_ordered n sorted (sort-IsOrdered matching),
        omega (arith, length-drop n sorted, ltb→lt _ _ many),
      )
      | inr few ↦ rw few ([], Perm.rfl, _, ground arith)
    ]

-- The items that the filter lets through.
abbrev pub matching_items : TraceFilter → List Item → List Item
matching_items filter items = filter_items (λ item. trace_matches_filter item filter) items

-- Without a time window at most 1200 of the items that the filter lets through are drawn, all of them
-- if there are no more; those that are left out and those that are drawn make up all of them, and none
-- that is left out is newer than one that is drawn.
pub visible_items_newest :
    (filter : TraceFilter) (items : List Item)
    → filter.from_time ≡ none
    → filter.to_time ≡ none
    → (left : List Item) × Perm (left ++ visible_items filter items) (matching_items filter items)
      × All (AreNotOlder (visible_items filter items)) left
      × (length (visible_items filter items)
          ≡ min max_render_items (length (matching_items filter items)))
unfolding visible_items
visible_items_newest filter items no_from no_to =
    let limited : (is_none filter.from_time && is_none filter.to_time) ≡ true = ground arith in
    subst (λ b. IsNewest (matching_items filter items) (newest_of b (matching_items filter items)))
      (sym limited) (newest_lem (matching_items filter items))
