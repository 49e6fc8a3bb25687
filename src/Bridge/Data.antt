-- ===== src/Bridge/Data.antt =====
-- DATA records of the bridge (`consumeBridgeBytes` of tools/viewer/web/app.js): the bytes of the board
-- pass through them unchanged.
use open_fpgastudio.Base.{
  ℕ, zero, suc, ◌+◌, ◌≤◌, ◌≡◌, refl, sym, ap, ◌∙◌, false, List, [], ◌∷◌, ◌++◌, length, arith, take,
  drop, ltb, take_all, drop_all, length-append, append-nil, All,
}
use open_fpgastudio.Wire.{byte_at, u32, push_u32}
use open_fpgastudio.Wire.Fields.{u32-push_u32}
use open_fpgastudio.Receiver.{Receiver, receive}
use open_fpgastudio.Receiver.Pieces.{receive-append}
use open_fpgastudio.Bridge.{
  Json, Bridge, returned, max_record, consume_bridge_record, consume_loop, keep_rest,
  consume_bridge_bytes,
}

-- A DATA record, as the bridge sends it: the kind, the length in four bytes, the payload.
abbrev pub data_record : List ℕ → List ℕ
data_record p = push_u32 (2 ∷ []) (length p) ++ p

abbrev pub data_records : List (List ℕ) → List ℕ
data_records [] = []
data_records (p ∷ ps) = data_record p ++ data_records ps

-- The payloads, received one after the other.
abbrev pub receive_each : List (List ℕ) → Receiver → Receiver
receive_each [] r = r
receive_each (p ∷ ps) r = receive_each ps (receive p r)

-- The payloads in one piece.
abbrev pub joined : List (List ℕ) → List ℕ
joined [] = []
joined (p ∷ ps) = p ++ joined ps

receive_each-joined :
    (p : List ℕ) (ps : List (List ℕ)) (r : Receiver)
    → receive_each (p ∷ ps) r ≡ receive (p ++ joined ps) r
receive_each-joined p [] r = ap (λ xs. receive xs r) (sym (append-nil p))
receive_each-joined p (q ∷ qs) r =
    receive_each-joined q qs (receive p r) ∙ receive-append p (q ++ joined qs) r

-- The payload is as long as a record may be, at most.
abbrev pub IsShort : List ℕ → Type 0
IsShort p = length p ≤ max_record

length-data_record : (p rest : List ℕ) → length (data_record p ++ rest) ≡ 5 + length p + length rest
unfolding push_u32
length-data_record p rest = omega (arith, length-append p rest)

size_lem : (p rest : List ℕ) → length p ≤ max_record → u32 (data_record p ++ rest) 1 ≡ length p
unfolding push_u32
size_lem p rest h = u32-push_u32 (2 ∷ []) (p ++ rest) (length p) (omega arith)

payload_lem : (p rest : List ℕ) → take (length p) (drop 5 (data_record p ++ rest)) ≡ p
unfolding push_u32
payload_lem p rest = take_all p rest

rest_lem : (p rest : List ℕ) → drop (5 + length p) (data_record p ++ rest) ≡ rest
unfolding push_u32
rest_lem p rest =
    let header : 5 + length p ≡ suc (suc (suc (suc (suc (length p))))) = omega arith in
    ap (λ k. drop k (data_record p ++ rest)) header ∙ drop_all p rest

kind_lem : (p rest : List ℕ) → byte_at (data_record p ++ rest) 0 ≡ 2
unfolding push_u32
kind_lem p rest = refl

module _ (j : Json) where
  abbrev with_receiver : Receiver → Bridge j → Bridge j
  with_receiver r b = record b { receiver = r }

  record_lem :
      (kind : ℕ) (p payload : List ℕ) (b : Bridge j)
      → kind ≡ 2
      → payload ≡ p
      → consume_bridge_record j kind payload b ≡ (with_receiver (receive p b.receiver) b, returned)
  unfolding consume_bridge_record
  record_lem kind p payload b two same =
      ap (λ k. consume_bridge_record j k payload b) two
      ∙ ap (λ xs. (with_receiver (receive xs b.receiver) b, returned)) same

  round_lem :
      (f : ℕ) (all p rest : List ℕ) (b : Bridge j)
      → byte_at all 0 ≡ 2
      → u32 all 1 ≡ length p
      → take (length p) (drop 5 all) ≡ p
      → drop (5 + length p) all ≡ rest
      → length all ≡ 5 + length p + length rest
      → length p ≤ max_record
      → consume_loop j (suc f) all b
        ≡ consume_loop j f rest (with_receiver (receive p b.receiver) b)
  unfolding consume_loop
  round_lem f all p rest b kind size payload left long h =
      let enough : ltb (length all) 5 ≡ false = ground arith in
      let small : ltb max_record (length p) ≡ false = ground arith in
      let whole : ltb (length all) (5 + length p) ≡ false = ground arith in
      let found : consume_bridge_record j (byte_at all 0) (take (length p) (drop 5 all)) b
          ≡ (with_receiver (receive p b.receiver) b, returned) =
        record_lem (byte_at all 0) p (take (length p) (drop 5 all)) b kind payload in
      rw (size, enough, small, whole, found)
        (ap
            (λ n.
              consume_loop j f (drop (5 + n) all)
                (consume_bridge_record j (byte_at all 0) (take n (drop 5 all)) b).0)
            size
          ∙ ap (λ x. consume_loop j f (drop (5 + length p) all) x.0) found
          ∙ ap (λ xs. consume_loop j f xs (with_receiver (receive p b.receiver) b)) left)

  data_round :
      (f : ℕ) (p rest : List ℕ) (b : Bridge j)
      → length p ≤ max_record
      → consume_loop j (suc f) (data_record p ++ rest) b
        ≡ consume_loop j f rest (with_receiver (receive p b.receiver) b)
  data_round f p rest b h =
      round_lem f (data_record p ++ rest) p rest b (kind_lem p rest) (size_lem p rest h)
        (payload_lem p rest) (rest_lem p rest) (length-data_record p rest) h

  data_loop :
      (f : ℕ) (ps : List (List ℕ)) (b : Bridge j)
      → length (data_records ps) ≤ f
      → All IsShort ps
      → consume_loop j f (data_records ps) b
        ≡ ((with_receiver (receive_each ps b.receiver) b, returned), [])
  unfolding consume_loop
  data_loop zero [] b h short = refl
  data_loop (suc f) [] b h short = refl
  data_loop zero (p ∷ ps) b h short = absurd (omega (arith, length-data_record p (data_records ps)))
  data_loop (suc f) (p ∷ ps) b h short =
      data_round f p (data_records ps) b short.0
      ∙ data_loop f ps _ (omega (arith, length-data_record p (data_records ps))) short.1

  consume_each :
      (ps : List (List ℕ)) (b : Bridge j)
      → All IsShort ps
      → b.transport.record_rx ≡ []
      → consume_bridge_bytes j (data_records ps) b
        ≡ (record b { receiver = receive_each ps b.receiver }, returned)
  unfolding consume_bridge_bytes keep_rest
  consume_each ps b short empty =
      let started : Bridge j = record b {
        transport = record b.transport { record_rx = data_records ps };
      } in
      rw empty (
        ap (λ x. keep_rest j x (data_records ps))
          (data_loop (length (data_records ps)) ps started (omega arith) short))

  -- However the board's bytes are cut into DATA records, as long as none is longer than a
  -- record may be and nothing is left over from before, the frame parser is as if they had
  -- come in one piece; nothing is left over, nothing is thrown, and nothing else of the state
  -- changes.
  pub consume_bridge_bytes-data_records :
      (p : List ℕ) (ps : List (List ℕ)) (b : Bridge j)
      → All IsShort (p ∷ ps)
      → b.transport.record_rx ≡ []
      → consume_bridge_bytes j (data_records (p ∷ ps)) b
        ≡ (record b { receiver = receive (p ++ joined ps) b.receiver }, returned)
  consume_bridge_bytes-data_records p ps b short empty =
      consume_each (p ∷ ps) b short empty
      ∙ ap (λ r. (with_receiver r b, returned)) (receive_each-joined p ps b.receiver)
