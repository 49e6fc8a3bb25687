-- ===== src/Tests/Capturing.antt =====
-- Logic-analyzer captures at concrete input.
use open_fpgastudio.Base.{ℕ, none, ◌≡◌, refl, List, [], ◌∷◌, ◌++◌, some}
use open_fpgastudio.Base.Dict.{number_key, text_key}
use open_fpgastudio.Wire.{u16, u32, push_u16, push_u32}
use open_fpgastudio.State.{initial_viewer}
use open_fpgastudio.Base.{replicate}
use open_fpgastudio.Base.Dict.{has}
use open_fpgastudio.State.{Viewer}
use open_fpgastudio.State.Analyzer.{Capture, empty_capture, create_analyzer}
use open_fpgastudio.Receiver.Captures.{receive-AreSound}
use open_fpgastudio.Decode.Analyzer.Complete.{AreSound}
use open_fpgastudio.Decode.Analyzer.Resend.{sample_at, samples_recorded, resend_blank}
use open_fpgastudio.Decode.Analyzer.{
  la_capture, capture_or, decode_sample_data, decode_header, header_record, chunk_record,
  bad_packing,
}
use open_fpgastudio.Builders.{
  header_frame, header_payload, sample_frame, sample_payload, pad_payload, values_bytes,
  value_bytes,
}
use open_fpgastudio.Receiver.{receive, initial_receiver}
use open_fpgastudio.Tests.{program}

-- A capture of two samples: its header, and a chunk that holds both.
abbrev capture_bytes : List ℕ
capture_bytes = header_frame 66 0 32 2 0 1 4 11 ++ sample_frame 66 0 0 4 (7 ∷ 9 ∷ []) 1

receive-AreSound_example : AreSound (receive capture_bytes initial_receiver).viewer.analyzer
receive-AreSound_example = receive-AreSound capture_bytes initial_receiver tt

-- A capture that knows its chunk 0 and has one sample.
abbrev known_capture : Capture
known_capture = record empty_capture {
  header = some (header_record (header_payload 66 0 8 1 0 1 4 11));
  samples = some 7 ∷ [];
  chunks = (0, chunk_record (sample_payload 66 0 0 1 (7 ∷ []) 1) (7 ∷ [])) ∷ [];
}

abbrev known_page : Viewer
known_page = record initial_viewer {
  analyzer = record create_analyzer { captures = (66, known_capture) ∷ [] };
}

abbrev again : List ℕ
again = sample_payload 66 0 0 1 (7 ∷ []) 1

samples_recorded_example : sample_at 66 0 (decode_sample_data again known_page) ≡ some 7
unfolding program la_capture capture_or
samples_recorded_example = samples_recorded again known_page 66 0 7 refl

resend_blank_example :
    (la_capture
      (u32 again 0)
      (decode_sample_data again
        (decode_header (header_payload 66 0 8 1 0 1 4 11) known_page)).analyzer).samples
    ≡ replicate (u16 (header_payload 66 0 8 1 0 1 4 11) 10) none
unfolding program la_capture capture_or has bad_packing push_u16 push_u32 header_payload
    sample_payload pad_payload values_bytes value_bytes
resend_blank_example =
    resend_blank (header_payload 66 0 8 1 0 1 4 11) again known_page refl refl refl refl refl
