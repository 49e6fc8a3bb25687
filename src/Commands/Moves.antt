-- ===== src/Commands/Moves.antt =====
-- An abstract queue of numbered frames, and the page with its port (`monitorWriteQueue` and
-- `nextMonitorSeq` of tools/viewer/web/app.js) as one.
use open_fpgastudio.Base.{
  ℕ, ◌+◌, ◌^◌, ◌<◌, ◌≡◌, refl, sym, ap, ◌∙◌, subst, List, [], ◌∷◌, ◌++◌, map, arith, ◌==◌,
  if◌then◌else◌,
}
use open_fpgastudio.Wire.{u16}
use open_fpgastudio.Commands.{Waiting, Line}

-- The number behind `n`, from 1 to 65535 and round again.
abbrev pub following : ℕ → ℕ
following n = if n == 0xFFFF then 1 else n + 1

-- The next number, the frames that were handed to the port and those that wait.
pub record Numbered : Type 0 where
  pub next : ℕ
  pub sent : List (List ℕ)
  pub waits : List (List ℕ)

-- A frame with the next number joins the queue at its end; the frame at the front is handed to the port,
-- or it is given up; and the numbers begin again at 1.
pub data Move : Numbered → Numbered → Type 0 where
  join :
      (q : Numbered) (bytes : List ℕ)
      → u16 bytes 4 ≡ q.next
      → Move q (record { next = following q.next; sent = q.sent; waits = q.waits ++ bytes ∷ [] })
  hand_over :
      (q : Numbered) (bytes : List ℕ) (rest : List (List ℕ))
      → q.waits ≡ bytes ∷ rest
      → Move q (record { next = q.next; sent = q.sent ++ bytes ∷ []; waits = rest })
  abandon :
      (q : Numbered) (bytes : List ℕ) (rest : List (List ℕ))
      → q.waits ≡ bytes ∷ rest
      → Move q (record { next = q.next; sent = q.sent; waits = rest })
  renumber : (q : Numbered) → Move q (record { next = 1; sent = q.sent; waits = q.waits })

pub data Moves (q : Numbered) : Numbered → Type 0 where
  here : Moves q q
  then_move : {r t : Numbered} → Moves q r → Move r t → Moves q t

Moves-trans : {q r t : Numbered} → Moves q r → Moves r t → Moves q t
Moves-trans a here = a
Moves-trans a (then_move b m) = then_move (Moves-trans a b) m

abbrev pub abstraction : Line → Numbered
abstraction l = record {
  next = l.viewer.monitor.seq;
  sent = l.written;
  waits = map (λ (w : Waiting). w.bytes) l.queue;
}

-- What a line becomes: its moves, and the number stays in its range.
pub record Runs (l l' : Line) : Type 0 where
  pub moves : Moves (abstraction l) (abstraction l')
  pub in_range : l'.viewer.monitor.seq < 2 ^ 16

abbrev pub Refines : (Line → Line) → Type 0
Refines f = (l : Line) → l.viewer.monitor.seq < 2 ^ 16 → Runs l (f l)

pub Refines-trans :
    (l m n : Line) → Runs l m → (m.viewer.monitor.seq < 2 ^ 16 → Runs m n) → Runs l n
Refines-trans l m n a f = record {
  moves = Moves-trans a.moves (f a.in_range).moves;
  in_range = (f a.in_range).in_range;
}

-- A line that has the same number, frames and queue.
pub same_moves :
    (l l' : Line)
    → l'.viewer.monitor.seq ≡ l.viewer.monitor.seq
    → l'.written ≡ l.written
    → l'.queue ≡ l.queue
    → l.viewer.monitor.seq < 2 ^ 16
    → Runs l l'
same_moves l l' n w q h = record {
  moves =
      subst (Moves (abstraction l))
        (λ i. record {
          next = sym n i;
          sent = sym w i;
          waits = map (λ (w : Waiting). w.bytes) (sym q i);
        })
        here;
  in_range = rw n h;
}

map_snoc :
    (q : List Waiting) (w : Waiting)
    → map (λ (w : Waiting). w.bytes) (q ++ w ∷ [])
      ≡ map (λ (w : Waiting). w.bytes) q ++ w.bytes ∷ []
map_snoc [] w = refl
map_snoc (x ∷ q) w = ap (x.bytes ∷◌) (map_snoc q w)

pub following_lt : (n : ℕ) → n < 2 ^ 16 → following n < 2 ^ 16
following_lt n h = ground arith

-- A frame that has the number of the monitor joins.
pub join_moves :
    (w : Waiting) (l l' : Line)
    → u16 w.bytes 4 ≡ l.viewer.monitor.seq
    → l'.viewer.monitor.seq ≡ following l.viewer.monitor.seq
    → l'.written ≡ l.written
    → l'.queue ≡ l.queue ++ w ∷ []
    → l.viewer.monitor.seq < 2 ^ 16
    → Runs l l'
join_moves w l l' e n s q h = record {
  moves =
      subst (Moves (abstraction l))
        (λ i. record {
          next = sym n i;
          sent = sym s i;
          waits = sym (ap (map (λ (w : Waiting). w.bytes)) q ∙ map_snoc l.queue w) i;
        })
        (then_move here (join (abstraction l) w.bytes e));
  in_range = rw n (following_lt _ h);
}
