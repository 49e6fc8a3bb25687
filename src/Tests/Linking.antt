-- ===== src/Tests/Linking.antt =====
-- Connections, the VCD file, canonical texts and the debug page, at concrete input.
use open_fpgastudio.Base.{
  ap, get_or, ℕ, ◌+◌, ◌≡◌, refl, true, none, some, List, [], ◌∷◌, arith, ◌^◌, ◌%◌, shr,
}
use open_fpgastudio.Base.Texts.{Text, dec, codes, pad_start, to_text}
use open_fpgastudio.State.Tables.{Channel}
use open_fpgastudio.Connection.{
  Link, fresh_link, asks_jtag, opens, react, connect_jtag, on_close, disconnect, holds, is_port,
}
use open_fpgastudio.Connection.Orderly.{Orderly, from_fresh, goes_on, IsGood, Orderly_lem}
use open_fpgastudio.Connection.Late.{IsLost, on_close-IsLost}
use open_fpgastudio.Page.Vcd.{value_line, symbol_of, all_lines}
use open_fpgastudio.Page.Vcd.Times.{HasValue, time_lines, times_of, vcd-Reads}
use open_fpgastudio.Page.{join}
use open_fpgastudio.Page.Jsonl.{JsonRecord}
use open_fpgastudio.Diagnosis.Json.{Value, null, bool, obj, field, end}
use open_fpgastudio.Diagnosis.Canonical.{Printer, canonicalize, evidence_id}
use open_fpgastudio.Diagnosis.Canonical.Shuffle.{
  Shuffled, in_object, swapped, canonicalize-Shuffled,
}
use open_fpgastudio.Diagnosis.Workflow.{
  Sources, DebugSession, PageEvent, clicks_local, clears, snapshot_built, picks_scope, follow,
  fresh_session, built, reset, run_local, change_scope, local_analyzing, local_complete,
}
use open_fpgastudio.Diagnosis.Workflow.Findings.{IsCoherent, follow-IsCoherent}
use open_fpgastudio.Diagnosis.Workflow.Overlap.{built_late}

abbrev opened : Link
opened = react opens (react (asks_jtag 8765) fresh_link)

opened-Orderly : Orderly opened
opened-Orderly = goes_on (goes_on from_fresh (asks_jtag 8765) (refl, refl)) opens tt

Orderly_lem_example : IsGood opened × ((disconnect opened).live ≡ [])
Orderly_lem_example = Orderly_lem opened-Orderly

valid_first : is_port 8765 ≡ true
unfolding is_port
valid_first = refl

valid_second : is_port 80 ≡ true
unfolding is_port
valid_second = refl

on_close-IsLost_example :
    IsLost 0 (on_close 5 (connect_jtag 8765 fresh_link))
    × (let after = disconnect (connect_jtag 80 (connect_jtag 8765 fresh_link)) in
        (after.socket ≡ none) × (holds 0 after.live ≡ true))
on_close-IsLost_example =
    on_close-IsLost 5 8765 80 fresh_link valid_first valid_second (λ e. absurd (omega arith))

-- A channel of eight bits.
abbrev byte_channel : Channel
byte_channel = record {
  bit = 8;
  width = 8;
  name = codes "count";
  color = codes "#000";
  visible = true;
}

-- The lines of three samples, of which one has not come.
abbrev byte_lines : List Text
byte_lines = all_lines (byte_channel ∷ []) 2 0 (some 0 ∷ none ∷ some 0xA500 ∷ [])

vcd-Reads_example :
    (time_lines byte_lines ≡ times_of 0 (some 0 ∷ none ∷ some 0xA500 ∷ []))
    × HasValue byte_lines (b'#' ∷ dec 2) 8 (shr 0xA500 8 % 2 ^ 8) (symbol_of 0)
vcd-Reads_example =
    vcd-Reads (byte_channel ∷ []) 2 (some 0 ∷ none ∷ some 0xA500 ∷ []) 2 0 byte_channel 0xA500 refl
      refl (omega arith) (omega arith)

byte_line : value_line 0 byte_channel 0xA500 ≡ codes "b10100101 a"
unfolding value_line pad_start to_text
byte_line = refl

-- Snapshots that are their own findings.
abbrev number_sources : Sources
number_sources = record {
  Snapshot = ℕ;
  Rules = ℕ;
  Result = ℕ;
  id_of = λ n. n ∷ [];
  evaluate = λ n. n + 1;
  count = λ n. n;
}

abbrev some_events : List (PageEvent number_sources)
some_events = clicks_local 3 ∷ picks_scope (codes "la_capture") ∷ snapshot_built 0 ∷ clears ∷ []

follow-IsCoherent_example : IsCoherent (follow some_events fresh_session)
follow-IsCoherent_example = follow-IsCoherent some_events

abbrev start_session : DebugSession number_sources
start_session = fresh_session

built_late_example :
    let cleared = built 0 (reset (run_local 3 start_session)) in
    let rescoped = built 0 (change_scope (codes "la_capture") (run_local 3 start_session)) in
    ((cleared.status ≡ local_analyzing) × (cleared.snapshot ≡ none) × (cleared.rule_result ≡ none))
    × ((rescoped.scope ≡ codes "la_capture")
        × (rescoped.snapshot ≡ some 3)
        × (rescoped.rule_result ≡ some 4)
        × (rescoped.status ≡ local_complete))
built_late_example = built_late 3 (codes "la_capture") start_session

-- Strings and numbers as they are.
abbrev plain_printer : Printer
plain_printer = record { of_string = λ t. t; of_number = λ n. dec n.top }

abbrev one_order : Value
one_order = obj (field (codes "b") (bool true) (field (codes "a") null end))

abbrev other_order : Value
other_order = obj (field (codes "a") null (field (codes "b") (bool true) end))

orders-Shuffled : Shuffled one_order other_order
orders-Shuffled = in_object (
    swapped (codes "b") (codes "a") (bool true) null end
      (λ e. absurd (omega (arith, ap (λ (t : Text). get_or t 0 0) e))))

canonicalize-Shuffled_example :
    (canonicalize plain_printer one_order ≡ canonicalize plain_printer other_order)
    × (evidence_id plain_printer one_order ≡ evidence_id plain_printer other_order)
canonicalize-Shuffled_example = canonicalize-Shuffled plain_printer orders-Shuffled

canonical_text : canonicalize plain_printer one_order ≡ some (codes "{a:null,b:true}")
unfolding canonicalize join
canonical_text = refl

-- Every record is printed alike.
abbrev print_alike : JsonRecord → Text
print_alike x = codes "{}"
