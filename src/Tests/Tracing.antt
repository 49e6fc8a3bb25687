-- ===== src/Tests/Tracing.antt =====
-- Spans and monitor requests at concrete input.
use open_fpgastudio.Base.{
  ℕ, none, ◌≢◌, ◌⊎◌, if◌then◌else◌, ◌+◌, ◌≡◌, List, [], ◌∷◌, ◌++◌, some, false, arith, true, refl,
}
use open_fpgastudio.Base.Dict.{get, number_key, text_key}
use open_fpgastudio.Wire.{u16}
use open_fpgastudio.State.{initial_viewer, unshift_bounded}
use open_fpgastudio.Base.{if◌then◌else◌}
use open_fpgastudio.Base.Dict.{Dict}
use open_fpgastudio.State.{Viewer}
use open_fpgastudio.State.Monitor.{Op, Request, create_monitor}
use open_fpgastudio.Base.{◌≢◌}
use open_fpgastudio.Wire.{u16}
use open_fpgastudio.Decode.Monitor.{encode_monitor_write, encode_monitor_read}
use open_fpgastudio.Decode.Monitor.{expire_monitor_pending}
use open_fpgastudio.Decode.Monitor.Expiry.{due_events, is_due, expire_cases}
use open_fpgastudio.Decode.Trace.{trace_key, begin_trace_span, end_trace_span}
use open_fpgastudio.Decode.Trace.Spans.{end_trace_span-begin_trace_span}
use open_fpgastudio.Decode.Monitor.{decode_monitor_read_response, max_errors}
use open_fpgastudio.Decode.Monitor.Responses.{read_event, read_value, answered_once}
use open_fpgastudio.State.Monitor.{Monitor}
use open_fpgastudio.State.Trace.{Trace, Span, empty_trace}

abbrev ended : Span × Trace
ended = end_trace_span 16 1 2 0 7 (begin_trace_span 0xFFFFFFF0 1 2 5 empty_trace)

abbrev finished : Span
finished = record {
  trace_id = 1;
  instance_id = 2;
  start_timestamp = some 0xFFFFFFF0;
  end_timestamp = 16;
  duration = some 32;
  status = 0;
  start_arg0 = some 5;
  end_arg0 = 7;
  orphan = false;
}

end_trace_span-begin_trace_span_example :
    (ended.0 ≡ finished)
    × (ended.1.spans ≡ finished ∷ [])
    × (get (trace_key 1 2) ended.1.open_spans ≡ none)
    × ((a b : ℕ)
        → (a ≢ 1) ⊎ (b ≢ 2)
        → get (trace_key a b) ended.1.open_spans ≡ get (trace_key a b) empty_trace.open_spans)
end_trace_span-begin_trace_span_example =
    end_trace_span-begin_trace_span empty_trace 1 2 0xFFFFFFF0 32 0 5 7 (omega arith) (omega arith)

-- A successful response to the first request.
abbrev response : List ℕ
response = 1 ∷ 0 ∷ 0 ∷ 0 ∷ 1 ∷ 0 ∷ 0x0C ∷ 0 ∷ 0 ∷ 4 ∷ 9 ∷ 0 ∷ 0 ∷ 0 ∷ []

abbrev first_asked : Viewer
first_asked = record initial_viewer {
  monitor = (encode_monitor_read 0 0x0C 4 initial_viewer.monitor).1;
}

abbrev once : Viewer
once = decode_monitor_read_response response first_asked

response_seq : u16 response 4 ≡ initial_viewer.monitor.seq
unfolding u16
response_seq = refl

answered_once_example :
    (get 1 once.monitor.pending ≡ none)
    × ((n : ℕ) → n ≢ 1 → get n once.monitor.pending ≡ get n create_monitor.pending)
    × (get (u16 response 6) once.monitor.values ≡ some (read_value response initial_viewer.monitor))
    × ((a : ℕ) → a ≢ u16 response 6 → get a once.monitor.values ≡ get a create_monitor.values)
    × (once.monitor.errors ≡ [])
    × ((decode_monitor_read_response response once).monitor.errors
        ≡ unshift_bounded max_errors
            (record { event = read_event response true; created_at = once.clock })
            once.monitor.errors)
answered_once_example = answered_once 0 0x0C 4 response initial_viewer response_seq

abbrev read_request : ℕ → ℕ → Request
read_request seq at = record {
  seq = seq;
  created_at = at;
  timeout_at = at + 1000;
  op = Op.read;
  addr = 4;
  width = 4;
  value = none;
  mask = none;
  bytes = [];
}

-- Two requests, of which one is due at 1000.
abbrev requests : Dict ℕ Request
requests = (1, read_request 1 0) ∷ (2, read_request 2 500) ∷ []

abbrev asking : Viewer
asking = record initial_viewer { monitor = record create_monitor { pending = requests } }

expire_cases_example :
    ((expire_monitor_pending 1000 asking).0 ≡ due_events 1000 requests)
    × ((expire_monitor_pending 1000 asking).1.monitor.history ≡ [] ++ due_events 1000 requests)
    × ((k : ℕ)
        → get k (expire_monitor_pending 1000 asking).1.monitor.pending
          ≡ (if is_due 1000 k requests then none else get k requests))
expire_cases_example = expire_cases 1000 asking

abbrev sent : (ℕ × List ℕ) × Monitor
sent = encode_monitor_write 10 0x0C 5 0xFFFFFFFF 4 create_monitor
