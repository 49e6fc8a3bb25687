-- ===== src/Decode/Analyzer/Resend.antt =====
-- Chunks that come again, and headers that come again, in the logic-analyzer part of
-- tools/viewer/web/app.js.
use open_fpgastudio.Base.{
  ℕ, ◌≡◌, sym, ap, ◌∙◌, true, false, Bool-cases, inl, inr, Option, none, some, List, length, get_or,
  replicate, is_some, if◌then◌else◌, if-intro, not, ◌==◌, ==_iff,
}
use open_fpgastudio.Base.Dict.{Dict, get, put, has, number_key, get-put, get-put_self}
use open_fpgastudio.Wire.{u16, u32, byte_at}
use open_fpgastudio.State.Analyzer.{Capture}
use open_fpgastudio.State.{Viewer, request_render, add_log}
use open_fpgastudio.Decode.Analyzer.Recorded.{fill_recorded}
use open_fpgastudio.Decode.Analyzer.{
  bad_packing, request_analyzer, record_analyzer_malformed, header_record, store_header,
  accept_header, check_header, fill_chunk, add_chunk, store_chunk, drop_duplicate, accept_chunk,
  accept_sample_data, decode_header, decode_sample_data, capture_or, la_capture,
}

-- Sample `j` of capture `k`.
abbrev pub sample_at : ℕ → ℕ → Viewer → Option ℕ
sample_at k j s = get_or (la_capture k s.analyzer).samples j none

capture-put :
    (k id : ℕ) (c : Capture) (m : Dict ℕ Capture)
    → capture_or (get k (put id c m)) ≡ (if id == k then c else capture_or (get k m))
unfolding capture_or
capture-put k id c m = elim (Bool-cases (id == k)) [
  | inl e ↦ rw (get-put id k c m, e)
  | inr e ↦ rw (get-put id k c m, e)
]

put_recorded :
    (k id j x : ℕ) (c : Capture) (m : Dict ℕ Capture)
    → (id ≡ k → get_or c.samples j none ≡ some x)
    → get_or (capture_or (get k m)).samples j none ≡ some x
    → get_or (capture_or (get k (put id c m))).samples j none ≡ some x
put_recorded k id j x c m new old = elim (Bool-cases (id == k)) [
  | inl e ↦ rw (capture-put k id c m, e) (new ((==_iff id k).0 e))
  | inr e ↦ rw (capture-put k id c m, e) old
]

check_samples : (c : Capture) → (check_header c).samples ≡ c.samples
unfolding check_header
check_samples c = elim (Bool-cases (is_some c.header)) [ inl e ↦ rw e | inr e ↦ rw e ]

check_chunks : (c : Capture) → (check_header c).chunks ≡ c.chunks
unfolding check_header
check_chunks c = elim (Bool-cases (is_some c.header)) [ inl e ↦ rw e | inr e ↦ rw e ]

chunk_recorded :
    (p : List ℕ) (s : Viewer) (k j x : ℕ)
    → sample_at k j s ≡ some x
    → sample_at k j (accept_sample_data p s) ≡ some x
unfolding accept_sample_data accept_chunk request_analyzer request_render add_log drop_duplicate
    store_chunk add_chunk fill_chunk la_capture
chunk_recorded p s k j x h =
    let m : Dict ℕ Capture = s.analyzer.captures in
    let c : Capture = check_header (capture_or (get (u32 p 0) m)) in
    let now : u32 p 0 ≡ k → get_or c.samples j none ≡ some x =
      λ e. ap (λ xs. get_or xs j none) (check_samples (capture_or (get (u32 p 0) m))) ∙ rw e h in
    if-intro
      (λ (v : Viewer). get_or (capture_or (get k v.analyzer.captures)).samples j none ≡ some x)
      (has (u16 p 4) c.chunks) _ _ (put_recorded k (u32 p 0) j x _ m now h)
      (put_recorded k (u32 p 0) j x _ m (λ e. fill_recorded p _ _ 0 _ j x _ (now e)) h)

-- A sample that a capture has recorded is as it was after any sample frame, well formed or not,
-- for this capture or another.
pub samples_recorded :
    (p : List ℕ) (s : Viewer) (k j x : ℕ)
    → sample_at k j s ≡ some x
    → sample_at k j (decode_sample_data p s) ≡ some x
unfolding decode_sample_data record_analyzer_malformed request_analyzer request_render add_log
    la_capture
samples_recorded p s k j x h =
    let stays : (Viewer → Viewer) → Type 0 = λ f. sample_at k j (f s) ≡ some x in
    if-intro stays (not (length p == 32)) _ _ h
      (if-intro stays (bad_packing (byte_at p 8) (byte_at p 9)) _ _ h (chunk_recorded p s k j x h))

header_capture :
    (q : List ℕ) (s : Viewer)
    → la_capture (u32 q 0) (accept_header q s).analyzer ≡ record (la_capture (u32 q 0) s.analyzer) {
      header = some (header_record q);
      samples = replicate (u16 q 10) none;
      complete = false;
    }
unfolding la_capture accept_header store_header request_render add_log header_record capture_or
header_capture q s = ap capture_or (get-put_self (u32 q 0) _ s.analyzer.captures)

known_dropped :
    (p : List ℕ) (s : Viewer)
    → has (u16 p 4) (la_capture (u32 p 0) s.analyzer).chunks ≡ true
    → (la_capture (u32 p 0) (accept_sample_data p s).analyzer).samples
      ≡ (la_capture (u32 p 0) s.analyzer).samples
unfolding accept_sample_data accept_chunk request_analyzer request_render add_log drop_duplicate
    la_capture
known_dropped p s known =
    let m : Dict ℕ Capture = s.analyzer.captures in
    let c : Capture = capture_or (get (u32 p 0) m) in
    rw (check_chunks c, known)
      (ap (λ (o : Capture). o.samples) (ap capture_or (get-put_self (u32 p 0) _ m))
        ∙ check_samples c)

-- When a header of the right length comes for a capture that knows a chunk already (a second
-- readout, or a header that is late), the samples are cleared but the chunks stay known: a chunk
-- with the same index, of the right length and packing, is dropped when it comes next, and the
-- capture has as many samples as the header says, all missing.
pub resend_blank :
    (q p : List ℕ) (s : Viewer)
    → length q ≡ 24
    → length p ≡ 32
    → bad_packing (byte_at p 8) (byte_at p 9) ≡ false
    → u32 q 0 ≡ u32 p 0
    → has (u16 p 4) (la_capture (u32 p 0) s.analyzer).chunks ≡ true
    → (la_capture (u32 p 0) (decode_sample_data p (decode_header q s)).analyzer).samples
      ≡ replicate (u16 q 10) none
unfolding decode_sample_data decode_header
resend_blank q p s hq hp packed same known =
    let after : Viewer = accept_header q s in
    let kept : has (u16 p 4) (la_capture (u32 p 0) after.analyzer).chunks ≡ true = rw (← same) (
      ap (λ (o : Capture). has (u16 p 4) o.chunks) (header_capture q s)
      ∙ ap (λ i. has (u16 p 4) (la_capture i s.analyzer).chunks) same
      ∙ known) in
    rw (hq, hp, packed)
      (known_dropped p after kept
        ∙ ap (λ i. (la_capture i after.analyzer).samples) (sym same)
        ∙ ap (λ (o : Capture). o.samples) (header_capture q s))
