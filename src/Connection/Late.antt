-- ===== src/Connection/Late.antt =====
-- A WebSocket that the page loses (`onclose` and `connectJtag` of tools/viewer/web/app.js).
use open_fpgastudio.Base.{
  ℕ, ◌+◌, ◌≡◌, ◌≢◌, refl, sym, true, false, none, arith, ◌==◌, ==_ne, ==_iff,
}
use open_fpgastudio.Connection.{
  Link, holds, without, set_connected, close_socket, is_port, connect_jtag, on_close, disconnect,
}

-- The socket is live although the page has no socket, and `disconnect` leaves it so.
pub record IsLost (n : ℕ) (l : Link) : Type 0 where
  pub no_socket : l.socket ≡ none
  pub is_live : holds n l.live ≡ true
  pub stays : (disconnect l).live ≡ l.live

late_close :
    (old port : ℕ) (l : Link)
    → is_port port ≡ true
    → old ≢ l.made
    → IsLost l.made (on_close old (connect_jtag port l))
unfolding on_close connect_jtag disconnect set_connected without holds
late_close old port l valid other =
    let apart : (l.made == old) ≡ false = ==_ne l.made old (λ e. other (sym e)) in
    let same : (l.made == l.made) ≡ true = (==_iff l.made l.made).1 refl in
    rw valid (rw apart (record { no_socket = refl; is_live = rw same refl; stays = refl }))

connect_twice :
    (first second : ℕ) (l : Link)
    → is_port first ≡ true
    → is_port second ≡ true
    → let after = disconnect (connect_jtag second (connect_jtag first l)) in
      (after.socket ≡ none) × (holds l.made after.live ≡ true)
unfolding connect_jtag disconnect close_socket set_connected without holds
connect_twice first second l h k =
    let apart : (l.made == l.made + 1) ≡ false =
      ==_ne l.made (l.made + 1) (λ e. absurd (omega arith)) in
    let same : (l.made == l.made) ≡ true = (==_iff l.made l.made).1 refl in
    let next : (l.made + 1 == l.made + 1) ≡ true = (==_iff (l.made + 1) (l.made + 1)).1 refl in
    rw (h, k) (rw (next, apart) (refl, rw same refl))

-- When an old socket's `close` event comes after the page has connected again, the page loses the new
-- socket, which stays live and is not closed by a disconnect. When the page connects twice, which it
-- allows while a socket has not opened, a disconnect leaves the first socket live and the page has none.
-- Both ports are valid, and the old socket is not the new one.
pub on_close-IsLost :
    (old first second : ℕ) (l : Link)
    → is_port first ≡ true
    → is_port second ≡ true
    → old ≢ l.made
    → IsLost l.made (on_close old (connect_jtag first l))
      × (let after = disconnect (connect_jtag second (connect_jtag first l)) in
          (after.socket ≡ none) × (holds l.made after.live ≡ true))
on_close-IsLost old first second l h k other =
    (late_close old first l h other, connect_twice first second l h k)
