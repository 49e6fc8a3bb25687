-- ===== src/Connection/Replay.antt =====
-- A recorded file and the line it was recorded from (`readLoop` and `replayRawCapture` of
-- tools/viewer/web/app.js).
use open_fpgastudio.Base.{
  ℕ, ◌≡◌, sym, ap, ◌∙◌, List, [], ◌∷◌, ◌++◌, map, length, append-nil, append_assoc,
}
use open_fpgastudio.Base.Texts.{Text, codes, dec}
use open_fpgastudio.State.{dash, text, log_row, add_log}
use open_fpgastudio.Receiver.{Receiver, receive}
use open_fpgastudio.Receiver.Pieces.{receive-append}
use open_fpgastudio.Connection.{value, done, read_loop, replay_raw_capture}

abbrev pub joined : List (List ℕ) → List ℕ
joined [] = []
joined (x ∷ xs) = x ++ joined xs

pieces_lem :
    (first : List ℕ) (rest : List (List ℕ)) (s : Receiver)
    → read_loop (map value rest ++ done ∷ []) (receive first s) ≡ receive (joined (first ∷ rest)) s
unfolding read_loop
pieces_lem first [] s = ap (λ xs. receive xs s) (sym (append-nil first))
pieces_lem first (x ∷ rest) s =
    ap (λ t. read_loop (map value rest ++ done ∷ []) t) (receive-append first x s)
    ∙ pieces_lem (first ++ x) rest s
    ∙ ap (λ xs. receive xs s) (append_assoc first x (joined rest))

-- A file that holds what the port handed over piece by piece, one piece at least, is replayed to the
-- state that the read loop reached, with one row in the log that names the file and its length.
pub replay-read_loop :
    (name : Text) (first : List ℕ) (rest : List (List ℕ)) (s : Receiver)
    → let bytes = joined (first ∷ rest) in
      let live = read_loop (map value (first ∷ rest) ++ done ∷ []) s in
      replay_raw_capture name bytes s ≡ record live {
        viewer =
            add_log
              (log_row dash
                (codes "REPLAY")
                (codes "-")
                (text (dec (length bytes) ++ codes " bytes"))
                name)
              live.viewer;
      }
unfolding replay_raw_capture read_loop
replay-read_loop name first rest s =
    ap
      (λ (t : Receiver). record t {
        viewer =
            add_log
              (log_row dash (codes "REPLAY") (codes "-")
                (text (dec (length (joined (first ∷ rest))) ++ codes " bytes")) name)
              t.viewer;
      })
      (sym (pieces_lem first rest s))
