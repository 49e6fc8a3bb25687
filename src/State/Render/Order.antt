-- ===== src/State/Render/Order.antt =====
-- The order of render requests does not matter, and a second request of a panel adds nothing.
use open_fpgastudio.Base.{◌≡◌, true, arith}
use open_fpgastudio.State.Render.{View, Pending, mark, Render, schedule, request}

mark_comm : (v w : View) (p : Pending) → mark v (mark w p) ≡ mark w (mark v p)
unfolding mark
mark_comm v w p = ground arith

mark_twice : (v : View) (p : Pending) → mark v (mark v p) ≡ mark v p
unfolding mark
mark_twice v p = ground arith

pub request_comm : (v w : View) (r : Render) → request v (request w r) ≡ request w (request v r)
unfolding request schedule
request_comm v w r = ground (arith, mark_comm v w r.pending)

pub request_twice : (v : View) (r : Render) → request v (request v r) ≡ request v r
unfolding request schedule
request_twice v r = ground (arith, mark_twice v r.pending)

-- A paused viewer asks for no drawing.
pub request_paused : (v : View) (r : Render) → r.paused ≡ true → request v r ≡ r
unfolding request
request_paused v r h = ground arith
