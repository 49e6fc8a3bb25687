-- ===== src/Connection.antt =====
-- How the page is connected (tools/viewer/web/app.js): `connect`, `connectJtag` with the handlers of its
-- WebSocket, `disconnect` and `setConnected`; and `readLoop` and `replayRawCapture`, which hand bytes
-- to the receiver.
pub mod Orderly
pub mod Late
pub mod Replay
use open_fpgastudio.Base.{
  ℕ, ◌+◌, Bool, true, false, not, ◌&&◌, ◌||◌, Option, none, some, List, [], ◌∷◌, ◌++◌, length, ltb,
  ◌==◌, if◌then◌else◌,
}
use open_fpgastudio.Base.Texts.{Text, codes, dec}
use open_fpgastudio.State.{Viewer, dash, text, log_row, add_log}
use open_fpgastudio.Receiver.{Receiver, receive}

-- `state.transport.connection`
pub data LinkShown : Type 0 where
  connecting connected disconnected : LinkShown

-- Sockets are numbered in the order of their making. `socket` is `state.socket`; `live` are the sockets
-- that can hand over messages, `closing` those that were closed and whose `close` event is to come.
-- `jtag` says that `state.sourceType` is "jtag", `record_rx` are the bridge's bytes that are left over.
-- `port` and `reader` say whether there is one, `reading` is `readLoopActive`.
pub record Link : Type 0 where
  pub jtag : Bool
  pub shown : LinkShown
  pub socket : Option ℕ
  pub made : ℕ
  pub live : List ℕ
  pub closing : List ℕ
  pub record_rx : List ℕ
  pub port : Bool
  pub reader : Bool
  pub reading : Bool

abbrev pub fresh_link : Link
fresh_link = record {
  jtag = false;
  shown = disconnected;
  socket = none;
  made = 0;
  live = [];
  closing = [];
  record_rx = [];
  port = false;
  reader = false;
  reading = false;
}

unfoldable pub holds : ℕ → List ℕ → Bool
holds n [] = false
holds n (m ∷ ms) = m == n || holds n ms

unfoldable pub without : ℕ → List ℕ → List ℕ
without n [] = []
without n (m ∷ ms) = let rest = without n ms in if m == n then rest else m ∷ rest

-- `setConnected`, without the page's elements and the text of an error.
unfoldable pub set_connected : Bool → Link → Link
set_connected on l = record l { shown = if on then connected else disconnected }

-- `socket.close(...)`: a socket that is closed already stays as it is.
unfoldable pub close_socket : ℕ → Link → Link
unfolding holds without
close_socket n l =
    if holds n l.live then record l { live = without n l.live; closing = n ∷ l.closing } else l

-- `port < 1 || port > 65535`, where the field holds a whole number.
unfoldable pub is_port : ℕ → Bool
is_port port = not (ltb port 1 || ltb 65535 port)

-- `connect` with the JTAG bridge as its source, and `connectJtag` with the number of the bridge's port.
unfoldable pub connect_jtag : ℕ → Link → Link
unfolding is_port
connect_jtag port l =
    let chosen : Link = record l { jtag = true } in
    if is_port port
    then record chosen {
      record_rx = [];
      socket = some l.made;
      made = l.made + 1;
      live = l.made ∷ l.live;
      shown = connecting;
    }
    else chosen

-- `connect` with a serial port that was asked for and opened.
unfoldable pub connect_serial : Link → Link
unfolding set_connected
connect_serial l =
    set_connected true (record l { jtag = false; port = true; reader = true; reading = true })

-- `onmessage` where `consumeBridgeBytes` throws. It closes the page's socket; where there is none, the
-- handler throws in its turn.
unfoldable pub protocol_error : Link → Link
unfolding close_socket set_connected
protocol_error l = elim l.socket [ none ↦ l | some n ↦ set_connected false (close_socket n l) ]

-- `onclose` of the socket `n`.
unfoldable pub on_close : ℕ → Link → Link
unfolding without set_connected
on_close n l =
    set_connected false
      (record l { socket = none; live = without n l.live; closing = without n l.closing })

abbrev pub close_current : Option ℕ → Link → Link
close_current none l = l
close_current (some n) l = close_socket n (record l { socket = none })

-- `disconnect`, where the reader and the port can be closed.
unfoldable pub disconnect : Link → Link
unfolding close_socket set_connected
disconnect l = set_connected false (record (close_current l.socket (record l { reading = false })) {
  reader = false;
  port = false;
})

-- What the user, the bridge and the port do.
pub data Happens : Type 0 where
  asks_jtag : ℕ → Happens
  asks_serial : Happens
  opens : Happens
  fails : Happens
  breaks_protocol : Happens
  closes : ℕ → Happens
  loop_ends : Happens
  asks_disconnect : Happens

unfoldable pub react : Happens → Link → Link
react (asks_jtag port) l = connect_jtag port l
react asks_serial l = connect_serial l
react opens l = set_connected true l
react fails l = set_connected false l
react breaks_protocol l = protocol_error l
react (closes n) l = on_close n l
react loop_ends l = set_connected false l
react asks_disconnect l = disconnect l

-- What `reader.read()` gives.
pub data ReadResult : Type 0 where
  value : List ℕ → ReadResult
  done : ReadResult
  failed : Text → ReadResult

-- `readLoop`, without `setConnected` at its end; the results are those up to the end or to now.
unfoldable pub read_loop : List ReadResult → Receiver → Receiver
read_loop [] s = s
read_loop (value bytes ∷ rest) s = read_loop rest (receive bytes s)
read_loop (done ∷ rest) s = s
read_loop (failed message ∷ rest) s = record s {
  viewer = add_log (log_row dash (codes "ERROR") (codes "-") dash message) s.viewer;
}

-- `replayRawCapture`
unfoldable pub replay_raw_capture : Text → List ℕ → Receiver → Receiver
replay_raw_capture name bytes s =
    let received = receive bytes s in
    record received {
      viewer =
          add_log
            (log_row dash (codes "REPLAY") (codes "-") (text (dec (length bytes) ++ codes " bytes"))
              name)
            received.viewer;
    }
