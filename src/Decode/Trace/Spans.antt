-- ===== src/Decode/Trace/Spans.antt =====
-- Spans are matched by their keys, and their durations survive the wrap of the timestamps
-- (`beginTraceSpan` and `endTraceSpan` of tools/viewer/web/app.js).
use open_fpgastudio.Base.{
  ℕ, ◌+◌, ◌%◌, ◌^◌, ◌<◌, ◌≡◌, ◌≢◌, ◌⊎◌, sym, ap, ◌∙◌, false, Bool-cases, inl, inr, none, some, ◌++◌,
  ◌∷◌, [], arith, append_assoc, refl, zero, suc, ◌-◌, ◌≤◌, List, Option, length, length-append,
  drop, ltb,
}
use open_fpgastudio.Base.Texts.{hex, Text}
use open_fpgastudio.Base.Texts.Hex.{
  hex-injective, hex-IsPlain, before_colon, after_colon, before_colon_lem, after_colon_lem,
}
use open_fpgastudio.Base.Dict.{
  get, put, text_key, same_text, same_text_iff, get-put, get-put_self, get-delete_self, get-delete,
}
use open_fpgastudio.State.Trace.{Trace, OpenSpan, Span}
use open_fpgastudio.Decode.Trace.{
  trace_key, elapsed, max_spans, keep_last, closed_span, begin_trace_span, end_trace_span,
  prune_trace_history,
}

key_lem : (a b : ℕ) → trace_key a b ≡ hex a 4 ++ b':' ∷ hex b 4
unfolding trace_key
key_lem a b = append_assoc (hex a 4) (b':' ∷ []) (hex b 4)

-- Spans with one key are spans of one trace and one instance.
pub trace_key-injective : (a b c d : ℕ) → trace_key a b ≡ trace_key c d → (a ≡ c) × (b ≡ d)
trace_key-injective a b c d e =
    let same : hex a 4 ++ b':' ∷ hex b 4 ≡ hex c 4 ++ b':' ∷ hex d 4 =
      sym (key_lem a b) ∙ e ∙ key_lem c d in
    let front : hex a 4 ≡ hex c 4 =
      sym (before_colon_lem (hex a 4) (hex b 4) (hex-IsPlain a 4))
      ∙ ap before_colon same
      ∙ before_colon_lem (hex c 4) (hex d 4) (hex-IsPlain c 4) in
    let back : hex b 4 ≡ hex d 4 =
      sym (after_colon_lem (hex a 4) (hex b 4) (hex-IsPlain a 4))
      ∙ ap after_colon same
      ∙ after_colon_lem (hex c 4) (hex d 4) (hex-IsPlain c 4) in
    (hex-injective a c 4 4 front, hex-injective b d 4 4 back)

-- The duration is the number of ticks that passed, if these are fewer than 2 ^ 32, also when the
-- 32-bit timestamp wraps in between.
pub elapsed_wraps :
    (start d : ℕ) → start < 2 ^ 32 → d < 2 ^ 32 → elapsed start ((start + d) % 2 ^ 32) ≡ d
unfolding elapsed
elapsed_wraps start d h k = omega arith

keys_apart :
    (tid iid a b : ℕ)
    → (a ≢ tid) ⊎ (b ≢ iid)
    → same_text (trace_key tid iid) (trace_key a b) ≡ false
keys_apart tid iid a b other = elim (Bool-cases (same_text (trace_key tid iid) (trace_key a b))) [
  | inr e ↦ e
  | inl e ↦
      let same = trace_key-injective tid iid a b ((same_text_iff _ _).0 e) in
      absurd (clash other (sym same.0) (sym same.1))
]
  where
    clash : (a ≢ tid) ⊎ (b ≢ iid) → a ≡ tid → b ≡ iid → ⊥
    clash (inl h) p q = h p
    clash (inr h) p q = h q

drop_snoc :
    {A : Type 0} (n : ℕ) (xs : List A) (x : A)
    → n ≤ length xs
    → drop n (xs ++ x ∷ []) ≡ drop n xs ++ x ∷ []
drop_snoc zero xs x h = refl
drop_snoc (suc n) [] x h = absurd (omega arith)
drop_snoc (suc n) (y ∷ xs) x h = drop_snoc n xs x (omega arith)

keep_last_snoc :
    {A : Type 0} (limit : ℕ) (xs : List A) (x : A)
    → 1 ≤ limit
    → keep_last limit (xs ++ x ∷ []) ≡ drop (length xs + 1 - limit) xs ++ x ∷ []
unfolding keep_last
keep_last_snoc limit xs x h =
    let size : length (xs ++ x ∷ []) ≡ length xs + 1 = length-append xs (x ∷ []) in
    elim (Bool-cases (ltb limit (length xs + 1))) [
      | inl over ↦ rw (size, over) (drop_snoc (length xs + 1 - limit) xs x (omega arith))
      | inr under ↦
          let nothing : length xs + 1 - limit ≡ 0 = ground arith in rw (size, under, nothing) refl
    ]

-- A span that is begun and, `d` ticks later and fewer than 2 ^ 32, ended is finished with its begin,
-- the duration `d`, also when the 32-bit timestamp wraps in between, and the arguments of both frames;
-- it is the last of the finished spans, behind those that there were, of which the oldest go when
-- there would be more than 20000; its key is free again, and the spans of other traces or instances
-- stay open or closed as they were.
pub end_trace_span-begin_trace_span :
    (t : Trace) (trace_id instance_id start d status arg0 arg1 : ℕ)
    → start < 2 ^ 32
    → d < 2 ^ 32
    → let finish = (start + d) % 2 ^ 32 in
      let span : Span = record {
        trace_id = trace_id;
        instance_id = instance_id;
        start_timestamp = some start;
        end_timestamp = finish;
        duration = some d;
        status = status;
        start_arg0 = some arg0;
        end_arg0 = arg1;
        orphan = false;
      } in
      let ended =
        end_trace_span finish trace_id instance_id status arg1
          (begin_trace_span start trace_id instance_id arg0 t) in
      (ended.0 ≡ span)
      × (ended.1.spans ≡ drop (length t.spans + 1 - max_spans) t.spans ++ span ∷ [])
      × (get (trace_key trace_id instance_id) ended.1.open_spans ≡ none)
      × ((a b : ℕ)
          → (a ≢ trace_id) ⊎ (b ≢ instance_id)
          → get (trace_key a b) ended.1.open_spans ≡ get (trace_key a b) t.open_spans)
unfolding end_trace_span begin_trace_span prune_trace_history closed_span
end_trace_span-begin_trace_span t tid iid start d status arg0 arg1 h k =
    let finish : ℕ = (start + d) % 2 ^ 32 in
    let key : Text = trace_key tid iid in
    let begun : OpenSpan = record {
      trace_id = tid;
      instance_id = iid;
      start_timestamp = start;
      start_arg0 = arg0;
    } in
    let found : Option OpenSpan = get key (put key begun t.open_spans) in
    let built : closed_span finish tid iid status arg1 found ≡ record {
      trace_id = tid;
      instance_id = iid;
      start_timestamp = some start;
      end_timestamp = finish;
      duration = some d;
      status = status;
      start_arg0 = some arg0;
      end_arg0 = arg1;
      orphan = false;
    } =
      ap (closed_span finish tid iid status arg1) (get-put_self key begun t.open_spans) ∙ λ i.
      record {
        trace_id = tid;
        instance_id = iid;
        start_timestamp = some start;
        end_timestamp = finish;
        duration = some (elapsed_wraps start d h k i);
        status = status;
        start_arg0 = some arg0;
        end_arg0 = arg1;
        orphan = false;
      } in
    (
      built,
      keep_last_snoc max_spans t.spans _ (omega arith)
          ∙ ap (λ x. drop (length t.spans + 1 - max_spans) t.spans ++ x ∷ []) built,
      get-delete_self key (put key begun t.open_spans),
      λ a b other.
          let apart : same_text key (trace_key a b) ≡ false = keys_apart tid iid a b other in
          get-delete key (trace_key a b) (put key begun t.open_spans)
          ∙ rw apart (get-put key (trace_key a b) begun t.open_spans ∙ rw apart),
    )
