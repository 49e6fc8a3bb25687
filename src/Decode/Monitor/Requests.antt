-- ===== src/Decode/Monitor/Requests.antt =====
-- Requests of the monitor (`nextMonitorSeq` and `encodeMonitorWrite` of tools/viewer/web/app.js).
use open_fpgastudio.Base.{
  ℕ, ◌+◌, ◌^◌, ◌%◌, ◌≤◌, ◌<◌, ◌≡◌, ◌≢◌, refl, sym, ◌∙◌, false, some, List, arith, ==_ne, to_u32,
  ◌==◌,
}
use open_fpgastudio.Base.Dict.{get, number_key, get-put, get-put_self}
use open_fpgastudio.Wire.{u16, u32, byte_at, push_u16, push_u32, frame}
use open_fpgastudio.Wire.Offsets.{u16_at, u32_at}
use open_fpgastudio.State.Monitor.{Monitor, Request, write}
use open_fpgastudio.Decode.Monitor.{
  next_monitor_seq, track_monitor_pending, encode_monitor_write, monitor_timeout_ms,
}

-- After a number from 1 to 65535 comes another number from 1 to 65535.
pub next_seq :
    (m : Monitor)
    → 1 ≤ m.seq
    → m.seq < 2 ^ 16
    → let next = (next_monitor_seq m).1.seq in (1 ≤ next) × (next < 2 ^ 16) × (next ≢ m.seq)
unfolding next_monitor_seq
next_seq m h k = (ground arith, ground arith, λ e. absurd (ground arith))

-- What the bytes of a write request say, in the order of the frame.
write_bytes :
    (now addr value mask width : ℕ) (m : Monitor)
    → m.seq < 2 ^ 16
    → addr < 2 ^ 16
    → let bytes = (encode_monitor_write now addr value mask width m).0.1 in
      (u16 bytes 4 ≡ m.seq)
      × (u16 bytes 6 ≡ addr)
      × (byte_at bytes 8 ≡ width)
      × (u32 bytes 9 ≡ value % 2 ^ 32)
      × (u32 bytes 13 ≡ mask % 2 ^ 32)
unfolding encode_monitor_write next_monitor_seq push_u16 push_u32 frame
write_bytes now addr value mask width m hs ha =
    let bytes : List ℕ = (encode_monitor_write now addr value mask width m).0.1 in
    (
      u16_at bytes _ 4 m.seq refl hs,
      u16_at bytes _ 6 addr refl ha,
      refl,
      u32_at bytes _ 9 (value % 2 ^ 32) refl (omega arith),
      u32_at bytes _ 13 (mask % 2 ^ 32) refl (omega arith),
    )

-- The request of a write.
abbrev pub write_entry : ℕ → ℕ → ℕ → ℕ → ℕ → Monitor → Request
write_entry now addr value mask width m = record {
  seq = m.seq;
  created_at = now;
  timeout_at = now + monitor_timeout_ms;
  op = write;
  addr = addr;
  width = width;
  value = some (to_u32 value);
  mask = some (to_u32 mask);
  bytes = (encode_monitor_write now addr value mask width m).0.1;
}

-- When the monitor's number and the address have 16 bits, the frame of a write carries the number,
-- the address, the width and, modulo 2 ^ 32, the value and the mask; under that number the request
-- waits, with its deadline a second later, and the requests under other numbers wait as before.
pub write_cases :
    (now addr value mask width : ℕ) (m : Monitor)
    → m.seq < 2 ^ 16
    → addr < 2 ^ 16
    → let encoded = encode_monitor_write now addr value mask width m in
      let bytes = encoded.0.1 in
      ((u16 bytes 4 ≡ m.seq)
        × (u16 bytes 6 ≡ addr)
        × (byte_at bytes 8 ≡ width)
        × (u32 bytes 9 ≡ value % 2 ^ 32)
        × (u32 bytes 13 ≡ mask % 2 ^ 32))
      × (encoded.0.0 ≡ m.seq)
      × (get m.seq encoded.1.pending ≡ some (write_entry now addr value mask width m))
      × ((k : ℕ) → k ≢ m.seq → get k encoded.1.pending ≡ get k m.pending)
unfolding encode_monitor_write next_monitor_seq track_monitor_pending
write_cases now addr value mask width m hs ha = (
  write_bytes now addr value mask width m hs ha,
  refl,
  get-put_self m.seq _ m.pending,
  λ k other.
      let apart : (m.seq == k) ≡ false = ==_ne m.seq k (λ e. other (sym e)) in
      get-put m.seq k _ m.pending ∙ rw apart,
)
