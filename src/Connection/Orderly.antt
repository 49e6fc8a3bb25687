-- ===== src/Connection/Orderly.antt =====
-- Runs in which the page connects to the bridge only when its last WebSocket has been closed
-- (`connectJtag` and `disconnect` of tools/viewer/web/app.js).
use open_fpgastudio.Base.{
  ℕ, ◌≡◌, refl, sym, true, Bool-cases, inl, inr, ◌||◌, Option, none, some, List, [], ◌∷◌, arith,
  if-intro, ◌==◌, ==_iff,
}
use open_fpgastudio.Connection.{
  Link, fresh_link, holds, without, set_connected, close_socket, is_port, connect_jtag,
  connect_serial, protocol_error, on_close, disconnect, Happens, asks_jtag, asks_serial, opens,
  fails, breaks_protocol, closes, loop_ends, asks_disconnect, react,
}

-- A page connects when no socket is live or closing, and a socket's `close` event comes once.
abbrev pub Allowed : Happens → Link → Type 0
Allowed (asks_jtag port) l = (l.live ≡ []) × (l.closing ≡ [])
Allowed (closes n) l = (holds n l.live || holds n l.closing) ≡ true
Allowed _ l = Unit {0}

pub data Orderly : Link → Type 0 where
  from_fresh : Orderly fresh_link
  goes_on : {l : Link} → Orderly l → (h : Happens) → Allowed h l → Orderly (react h l)

-- There is one socket at most, and a live one is the page's.
pub data HasOne : Option ℕ → List ℕ → List ℕ → Type 0 where
  no_socket : (socket : Option ℕ) → HasOne socket [] []
  one_closing : (socket : Option ℕ) (n : ℕ) → HasOne socket [] (n ∷ [])
  one_live : (k n : ℕ) → k ≡ n → HasOne (some k) (n ∷ []) []

abbrev pub IsGood : Link → Type 0
IsGood l = HasOne l.socket l.live l.closing

-- A link with other sockets.
abbrev with_sockets : Option ℕ → List ℕ → List ℕ → Link → Link
with_sockets socket live closing l = record l { socket = socket; live = live; closing = closing }

protocol_lem :
    {socket : Option ℕ} {live closing : List ℕ} (l : Link)
    → HasOne socket live closing
    → IsGood (protocol_error (with_sockets socket live closing l))
unfolding protocol_error close_socket set_connected holds without
protocol_lem l (no_socket none) = no_socket none
protocol_lem l (no_socket (some k)) = no_socket (some k)
protocol_lem l (one_closing none n) = one_closing none n
protocol_lem l (one_closing (some k) n) = one_closing (some k) n
protocol_lem l (one_live k n e) =
    let same : (n == k) ≡ true = (==_iff n k).1 (sym e) in rw same (one_closing (some k) k)

disconnect_lem :
    {socket : Option ℕ} {live closing : List ℕ} (l : Link)
    → HasOne socket live closing
    → let after = disconnect (with_sockets socket live closing l) in
      IsGood after × (after.live ≡ [])
unfolding disconnect close_socket set_connected holds without
disconnect_lem l (no_socket none) = (no_socket none, refl)
disconnect_lem l (no_socket (some k)) = (no_socket none, refl)
disconnect_lem l (one_closing none n) = (one_closing none n, refl)
disconnect_lem l (one_closing (some k) n) = (one_closing none n, refl)
disconnect_lem l (one_live k n e) =
    let same : (n == k) ≡ true = (==_iff n k).1 (sym e) in rw same (one_closing none k, refl)

close_lem :
    {socket : Option ℕ} {live closing : List ℕ} (n : ℕ) (l : Link)
    → HasOne socket live closing
    → (holds n live || holds n closing) ≡ true
    → IsGood (on_close n (with_sockets socket live closing l))
unfolding on_close set_connected holds without
close_lem n l (no_socket socket) h = cc
close_lem n l (one_closing socket m) h = elim (Bool-cases (m == n)) [
  | inl e ↦ rw e (no_socket none)
  | inr e ↦ rw e (one_closing none m)
]
close_lem n l (one_live k m e) h = elim (Bool-cases (m == n)) [
  | inl same ↦ rw same (no_socket none)
  | inr other ↦ absurd (ground arith)
]

connect_lem :
    (port : ℕ) (l : Link) → IsGood l → l.live ≡ [] → l.closing ≡ [] → IsGood (connect_jtag port l)
unfolding connect_jtag
connect_lem port l good e f =
    if-intro IsGood (is_port port) _ _ (rw (e, f) (one_live l.made l.made refl)) good

react-IsGood : (h : Happens) (l : Link) → Allowed h l → IsGood l → IsGood (react h l)
unfolding react connect_serial set_connected
react-IsGood (asks_jtag port) l a good = connect_lem port l good a.0 a.1
react-IsGood asks_serial l a good = good
react-IsGood opens l a good = good
react-IsGood fails l a good = good
react-IsGood breaks_protocol l a good = protocol_lem l good
react-IsGood (closes n) l a good = close_lem n l good a
react-IsGood loop_ends l a good = good
react-IsGood asks_disconnect l a good = (disconnect_lem l good).0

Orderly-IsGood : {l : Link} → Orderly l → IsGood l
Orderly-IsGood from_fresh = no_socket none
Orderly-IsGood (goes_on {l} run h allowed) = react-IsGood h l allowed (Orderly-IsGood run)

-- When the page connects to the bridge only while no socket is live or closing, and each socket is closed
-- once, there is at every time at most one socket that is live or closing; a live one is the page's;
-- and after a disconnect none is live.
pub Orderly_lem : {l : Link} → Orderly l → IsGood l × ((disconnect l).live ≡ [])
Orderly_lem {l} run = let good = Orderly-IsGood run in (good, (disconnect_lem l good).1)
