-- ===== src/Decode/Analyzer/Complete.antt =====
-- Captures that are marked complete, whatever frames come (the handlers of `decodeFrame` in
-- tools/viewer/web/app.js).
use open_fpgastudio.Base.{
  ℕ, ◌≤◌, true, false, Bool, Bool-cases, inl, inr, Option, none, some, List, [], ◌∷◌, length, arith,
  take, length-replicate, All, is_some, if-intro, ◌==◌,
}
use open_fpgastudio.Base.Texts.{Text}
use open_fpgastudio.Base.Dict.{Dict, get, put, number_key}
use open_fpgastudio.State.Analyzer.{Analyzer, Capture, Header}
use open_fpgastudio.State.{Viewer, request_render, add_log}
use open_fpgastudio.Decode.Analyzer.Samples.{all_present}
use open_fpgastudio.Decode.Analyzer.Recorded.{IsFull, fill-IsFull, fill_room}
use open_fpgastudio.Decode.Analyzer.{
  request_analyzer, record_analyzer_malformed, header_record, store_header, accept_header,
  store_status, accept_status, store_trigger, accept_trigger, check_header, now_complete,
  fill_chunk, add_chunk, store_chunk, drop_duplicate, accept_chunk, accept_sample_data, capture_or,
  la_capture,
}

-- What the samples of a capture are, by its header and its mark: as many as the header says, and all
-- of these are there when the mark is set.
abbrev pub HasSamples : Option Header → Bool → List (Option ℕ) → Type 0
HasSamples none complete xs = Unit {0}
HasSamples (some h) false xs = h.sample_count ≤ length xs
HasSamples (some h) true xs = IsFull h.sample_count xs

abbrev pub IsSound : Capture → Type 0
IsSound c = HasSamples c.header c.complete c.samples

-- All captures of the page.
abbrev pub AreSound : Analyzer → Type 0
AreSound a = All (λ e. IsSound e.1) a.captures

put-AreSound :
    (k : ℕ) (c : Capture) (m : Dict ℕ Capture)
    → IsSound c
    → All (λ e. IsSound e.1) m
    → All (λ e. IsSound e.1) (put k c m)
unfolding put
put-AreSound k c [] h all = (h, tt)
put-AreSound k c ((j, d) ∷ m) h all =
    if-intro (All (λ e. IsSound e.1)) (j == k) _ _ (h, all.1) (all.0, put-AreSound k c m h all.1)

get-IsSound :
    (k : ℕ) (m : Dict ℕ Capture) → All (λ e. IsSound e.1) m → IsSound (capture_or (get k m))
unfolding get capture_or
get-IsSound k [] all = tt
get-IsSound k ((j, d) ∷ m) all =
    if-intro (λ o. IsSound (capture_or o)) (j == k) _ _ all.0 (get-IsSound k m all.1)

capture-IsSound : (k : ℕ) (a : Analyzer) → AreSound a → IsSound (la_capture k a)
unfolding la_capture
capture-IsSound k a all = get-IsSound k a.captures all

check-IsSound : (c : Capture) → IsSound c → IsSound (check_header c)
unfolding check_header
check-IsSound c h = if-intro IsSound (is_some c.header) _ _ h h

mark-HasSamples :
    (o : Option Header) (before : Bool) (xs : List (Option ℕ))
    → HasSamples o before xs
    → HasSamples o (now_complete o xs before) xs
unfolding now_complete
mark-HasSamples none before xs h = tt
mark-HasSamples (some o) before xs h = elim (Bool-cases (all_present (take o.sample_count xs))) [
  | inl e ↦ rw e (room before h, e)
  | inr e ↦ rw e h
]
  where
    room : (b : Bool) → HasSamples (some o) b xs → o.sample_count ≤ length xs
    room true full = full.0
    room false many = many

fill-HasSamples :
    (p : List ℕ) (o : Option Header) (b : Bool) (c : Capture)
    → HasSamples o b c.samples
    → HasSamples o b (fill_chunk p c).samples
unfolding fill_chunk
fill-HasSamples p none b c h = tt
fill-HasSamples p (some o) true c h = fill-IsFull p _ _ 0 _ o.sample_count _ h
fill-HasSamples p (some o) false c h = fill_room p _ _ 0 _ o.sample_count _ h

store_chunk-AreSound :
    (p : List ℕ) (c : Capture) (a : Analyzer)
    → IsSound c
    → AreSound a
    → AreSound (store_chunk p c a)
unfolding store_chunk add_chunk
store_chunk-AreSound p c a h all =
    put-AreSound _ _ a.captures
      (mark-HasSamples c.header c.complete (fill_chunk p c).samples
        (fill-HasSamples p c.header c.complete c h))
      all

duplicate-AreSound :
    (k : ℕ) (c : Capture) (a : Analyzer) → IsSound c → AreSound a → AreSound (drop_duplicate k c a)
unfolding drop_duplicate
duplicate-AreSound k c a h all = put-AreSound k _ a.captures h all

header-AreSound : (h : Header) (a : Analyzer) → AreSound a → AreSound (store_header h a)
unfolding store_header
header-AreSound h a all =
    let blank : Option ℕ = none in
    put-AreSound h.capture_id _ a.captures (omega (arith, length-replicate h.sample_count blank))
      all

abbrev pub Keeps : (Viewer → Viewer) → Type 0
Keeps f = (s : Viewer) → AreSound s.analyzer → AreSound (f s).analyzer

-- A chunk of samples keeps every capture sound.
accept_chunk-Keeps :
    (p : List ℕ) (c : Capture) (s : Viewer)
    → IsSound c
    → AreSound s.analyzer
    → AreSound (accept_chunk p c s).analyzer
unfolding accept_chunk request_analyzer request_render add_log
accept_chunk-Keeps p c s h all =
    if-intro (λ (x : Viewer). AreSound x.analyzer) _ _ _ (duplicate-AreSound _ c s.analyzer h all)
      (store_chunk-AreSound p c s.analyzer h all)

pub samples-Keeps : (p : List ℕ) → Keeps (accept_sample_data p)
unfolding accept_sample_data
samples-Keeps p s all =
    accept_chunk-Keeps p _ s (check-IsSound _ (capture-IsSound _ s.analyzer all)) all

pub header-Keeps : (p : List ℕ) → Keeps (accept_header p)
unfolding accept_header request_render add_log
header-Keeps p s all = header-AreSound (header_record p) s.analyzer all

pub la_status-Keeps : (p : List ℕ) → Keeps (accept_status p)
unfolding accept_status store_status request_render add_log request_analyzer
la_status-Keeps p s all =
    put-AreSound _ _ s.analyzer.captures (capture-IsSound _ s.analyzer all) all

pub trigger-Keeps : (p : List ℕ) → Keeps (accept_trigger p)
unfolding accept_trigger store_trigger request_render add_log request_analyzer
trigger-Keeps p s all = put-AreSound _ _ s.analyzer.captures (capture-IsSound _ s.analyzer all) all

pub malformed-Keeps : (t n : ℕ) (why : Text) → Keeps (record_analyzer_malformed t n why)
unfolding record_analyzer_malformed request_analyzer request_render add_log
malformed-Keeps t n why s all = all
