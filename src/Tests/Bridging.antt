-- ===== src/Tests/Bridging.antt =====
-- The bridge's records at concrete input.
use open_fpgastudio.Base.{ℕ, none, ◌≡◌, refl, List, [], ◌∷◌, ◌++◌, arith, length, some}
use open_fpgastudio.Base.Dict.{number_key, text_key}
use open_fpgastudio.Base.{◌-◌}
use open_fpgastudio.Wire.{u32}
use open_fpgastudio.Bridge.{
  Json, Bridge, null, undefined, returned, consume_loop, consume_bridge_record,
  consume_bridge_bytes,
}
use open_fpgastudio.Bridge.Data.{data_records, joined, consume_bridge_bytes-data_records}
use open_fpgastudio.Bridge.Pieces.{consume_bridge_bytes-append}
use open_fpgastudio.Receiver.{receive, initial_receiver}

-- Messages that are texts, without a session.
abbrev plain : Json
plain = record {
  Value = List ℕ;
  Rate = ℕ;
  parse = λ bytes. some bytes;
  session_id = λ bytes. undefined;
  new_session = λ bytes. undefined;
  payload_bytes = length;
  error_text = λ bytes. bytes;
  rate = λ bytes before now at. now - at;
}

abbrev idle : Bridge plain
idle = record {
  receiver = initial_receiver;
  transport = record {
    hello = none;
    status = none;
    last_error = none;
    session_id = null;
    record_rx = [];
    current_bps = none;
    last_status_bytes = 0;
    last_status_at = 0;
  };
  now = 0;
}

consume_bridge_bytes-data_records_example :
    consume_bridge_bytes plain (data_records ((0xA5 ∷ 1 ∷ []) ∷ (1 ∷ 0 ∷ []) ∷ [])) idle ≡ (
      record idle {
        receiver = receive ((0xA5 ∷ 1 ∷ []) ++ joined ((1 ∷ 0 ∷ []) ∷ [])) initial_receiver;
      },
      returned,
    )
consume_bridge_bytes-data_records_example =
    consume_bridge_bytes-data_records plain (0xA5 ∷ 1 ∷ []) ((1 ∷ 0 ∷ []) ∷ []) idle
      (omega arith, (omega arith, tt)) refl

-- A record that is cut inside its length.
abbrev front : List ℕ
front = 2 ∷ 2 ∷ 0 ∷ []

abbrev back : List ℕ
back = 0 ∷ 0 ∷ 0xA5 ∷ 1 ∷ []

taken : (consume_bridge_bytes plain (front ++ back) idle).1 ≡ returned
unfolding consume_bridge_bytes consume_loop u32 consume_bridge_record
taken = refl

consume_bridge_bytes-append_example :
    ((consume_bridge_bytes plain front idle).1 ≡ returned)
    × (consume_bridge_bytes plain back (consume_bridge_bytes plain front idle).0
        ≡ consume_bridge_bytes plain (front ++ back) idle)
consume_bridge_bytes-append_example = consume_bridge_bytes-append plain front back idle taken
