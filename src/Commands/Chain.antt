-- ===== src/Commands/Chain.antt =====
-- The writes of `applyLogicAnalyzerConfig` of tools/viewer/web/app.js, each of which waits for the one
-- before.
use open_fpgastudio.Base.{
  ℕ, ◌^◌, ◌<◌, ◌≡◌, refl, sym, ap, ◌∙◌, true, false, Bool-cases, inl, inr, none, some, List, [],
  ◌∷◌, ◌++◌, append_assoc, append-nil, map, arith, length, All, ◌==◌,
}
use open_fpgastudio.Wire.{u16, u32}
use open_fpgastudio.State.Analyzer.{Analyzer, Config}
use open_fpgastudio.State.Render.{View}
use open_fpgastudio.State.{Viewer, add_log, request_render}
use open_fpgastudio.Decode.Monitor.{
  monitor_register, encode_monitor_write, add_monitor_error, next_monitor_seq,
  track_monitor_pending,
}
use open_fpgastudio.Decode.Monitor.Requests.{write_cases}
use open_fpgastudio.Form.{Form, read_form}
use open_fpgastudio.Form.Stable.{read_form-show_form}
use open_fpgastudio.Commands.{
  Writes, Steps, Line, WriteResult, accepted, rejected, send_monitor_bytes, width_or_four,
  write_then, next_write, next_step, after_send, give_up, send_now, next_frame, start, settle_write,
  finish_write,
}
use open_fpgastudio.Commands.Actions.{take_form, config_steps, control_word, apply_config}
use open_fpgastudio.Commands.Moves.{following_lt}

-- A line with a port that can be written to, and with nothing to send.
abbrev pub idle_line : Viewer → List (List ℕ) → Line
idle_line viewer written = record {
  viewer = viewer;
  jtag = false;
  writable = true;
  sending = none;
  queue = [];
  written = written;
}

-- One frame after the other has its turn, and the port's writer ends as `outcomes` say.
unfoldable pub serve : List WriteResult → Line → Line
unfolding start finish_write
serve [] l = l
serve (o ∷ outcomes) l = serve outcomes (finish_write o (start l))

-- What a frame of a write says: the address and the value.
abbrev pub write_of : List ℕ → ℕ × ℕ
write_of bytes = (u16 bytes 6, u32 bytes 9)

-- The frame of a write, and the page when the write is through.
abbrev written_bytes : ℕ → ℕ → Viewer → List ℕ
written_bytes addr value v =
    (encode_monitor_write v.clock addr value 0xFFFFFFFF
      (width_or_four (monitor_register addr v.monitor)) v.monitor).0.1

-- What is kept while the writes go on.
record Kept (v v' : Viewer) : Type 0 where
  pub same_analyzer : v'.analyzer ≡ v.analyzer
  pub in_range : v'.monitor.seq < 2 ^ 16

-- Writes that read the page's own configuration.
abbrev own : Steps → Writes
own steps = record { detached = none; steps = steps }

-- One write has its turn and is through: the next one is asked for.
record Through (steps : Steps) (addr value : ℕ) (v : Viewer) (written : List (List ℕ))
    (o : WriteResult) : Type 0 where
  pub viewer : Viewer
  pub kept : Kept v viewer
  pub goes_on :
      finish_write o
        (start (write_then (some (own steps)) addr value 0xFFFFFFFF (idle_line v written)))
      ≡ next_step none steps (idle_line viewer (written ++ written_bytes addr value v ∷ []))

write-Through :
    (steps : Steps) (addr value : ℕ) (v : Viewer) (written : List (List ℕ)) (o : WriteResult)
    → v.monitor.seq < 2 ^ 16
    → Through steps addr value v written o
unfolding finish_write settle_write after_send give_up start next_frame send_now next_write
    write_then send_monitor_bytes encode_monitor_write next_monitor_seq track_monitor_pending
    request_render add_log add_monitor_error
write-Through steps addr value v written accepted h = record {
  viewer = _;
  kept = record { same_analyzer = refl; in_range = following_lt v.monitor.seq h };
  goes_on = refl;
}
write-Through steps addr value v written (rejected message) h = record {
  viewer = _;
  kept = record { same_analyzer = refl; in_range = following_lt v.monitor.seq h };
  goes_on = refl;
}

abbrev Fits : ℕ × ℕ → Type 0
Fits w = (w.0 < 2 ^ 16) × (w.1 < 2 ^ 32)

written_lem :
    (addr value : ℕ) (v : Viewer)
    → addr < 2 ^ 16
    → value < 2 ^ 32
    → v.monitor.seq < 2 ^ 16
    → write_of (written_bytes addr value v) ≡ (addr, value)
written_lem addr value v ha hv hs =
    let said =
      (write_cases v.clock addr value 0xFFFFFFFF (width_or_four (monitor_register addr v.monitor))
        v.monitor hs ha).0 in
    let low : u32 (written_bytes addr value v) 9 ≡ value = said.3 ∙ omega arith in
    λ i. (said.1 i, low i)

-- What stands at the end of the writes.
pub record Served (ws : List (ℕ × ℕ)) (v : Viewer) (written : List (List ℕ)) (l : Line)
    : Type 0 where
  pub viewer : Viewer
  pub frames : List (List ℕ)
  pub ends : l ≡ idle_line viewer (written ++ frames)
  pub says : map write_of frames ≡ ws
  pub same_analyzer : viewer.analyzer ≡ v.analyzer

-- What the writes say of one configuration.
abbrev writes_said : Config → Steps → List (ℕ × ℕ)
writes_said config [] = []
writes_said config ((addr, value) ∷ steps) = (addr, value config) ∷ writes_said config steps

chain :
    (steps : Steps) (outcomes : List WriteResult) (config : Config) (v : Viewer)
    (written : List (List ℕ))
    → length outcomes ≡ length steps
    → All Fits (writes_said config steps)
    → v.monitor.seq < 2 ^ 16
    → v.analyzer.config ≡ config
    → Served
        (writes_said config steps)
        v
        written
        (serve outcomes (next_step none steps (idle_line v written)))
unfolding serve
chain [] [] config v written same fits h own_config = record {
  viewer = request_render View.analyzer v;
  frames = [];
  ends = λ i. idle_line (request_render View.analyzer v) (sym (append-nil written) i);
  says = refl;
  same_analyzer = unfold request_render in refl;
}
chain [] (o ∷ outcomes) config v written same fits h own_config = absurd (omega arith)
chain (w ∷ steps) [] config v written same fits h own_config = absurd (omega arith)
chain ((addr, value) ∷ steps) (o ∷ outcomes) config v written same fits h own_config =
    let now : ℕ = value v.analyzer.config in
    let through = write-Through steps addr now v written o h in
    let bytes : List ℕ = written_bytes addr now v in
    let kept_config : through.viewer.analyzer.config ≡ config =
      ap (λ (a : Analyzer). a.config) through.kept.same_analyzer ∙ own_config in
    let rest =
      chain steps outcomes config through.viewer (written ++ bytes ∷ []) (omega arith) fits.1
        through.kept.in_range kept_config in
    let says_now : write_of bytes ≡ (addr, value config) =
      ap (λ c. write_of (written_bytes addr (value c) v)) own_config
      ∙ written_lem addr (value config) v fits.0.0 fits.0.1 h in
    record {
      viewer = rest.viewer;
      frames = bytes ∷ rest.frames;
      ends =
          ap (serve outcomes) through.goes_on
          ∙ rest.ends
          ∙ ap (idle_line rest.viewer) (append_assoc written (bytes ∷ []) rest.frames);
      says = λ i. says_now i ∷ rest.says i;
      same_analyzer = rest.same_analyzer ∙ through.kept.same_analyzer;
    }

-- The nine writes of a configuration.
unfoldable pub config_writes : Config → List (ℕ × ℕ)
config_writes c =
    (0x0068, control_word c)
    ∷ (0x0070, c.sample_divisor)
    ∷ (0x0074, c.capture_depth)
    ∷ (0x0078, c.pretrigger_depth)
    ∷ (0x007C, c.trigger_mode)
    ∷ (0x0080, c.trigger_channel)
    ∷ (0x0084, c.trigger_value)
    ∷ (0x0088, c.trigger_mask)
    ∷ (0x0094, c.channel_mask)
    ∷ []

control_lt : (c : Config) → control_word c < 2 ^ 32
unfolding control_word
control_lt c = elim (Bool-cases (c.trigger_mode == 0)) [
  | inl e ↦ rw e (omega arith)
  | inr e ↦ rw e (omega arith)
]

-- The configuration that the page takes from the form.
abbrev pub taken_config : Form → Viewer → Config
taken_config form v = read_form form v.analyzer.manifest

writes_fit : (form : Form) (v : Viewer) → All Fits (config_writes (taken_config form v))
unfolding config_writes
writes_fit form v =
    let h = read_form-show_form form v.analyzer.manifest in
    let c : Config = taken_config form v in
    (
      (omega arith, control_lt c),
      (
        (omega arith, omega arith),
        (
          (omega arith, h.1.1),
          (
            (omega arith, h.2),
            (
              (omega arith, omega arith),
              (
                (omega arith, omega arith),
                ((omega arith, h.5.0), ((omega arith, h.5.1), ((omega arith, h.6), tt))),
              ),
            ),
          ),
        ),
      ),
    )

-- On an idle port that can be written to, while the page does nothing else, and as the port accepts or
-- refuses each of nine frames: the page ends idle, its configuration is what the form says, and the
-- frames that it handed over are the nine writes of that configuration, in their order, if the number
-- of the next request has 16 bits.
pub apply_config-serve :
    (form : Form) (outcomes : List WriteResult) (v : Viewer) (written : List (List ℕ))
    → length outcomes ≡ 9
    → v.monitor.seq < 2 ^ 16
    → let after = serve outcomes (apply_config form (idle_line v written)) in
      Served
        (config_writes (taken_config form v))
        (take_form form (idle_line v written)).viewer
        written
        after
      × (after.viewer.analyzer.config ≡ taken_config form v)
unfolding apply_config
apply_config-serve form outcomes v written same h =
    let config : Config = taken_config form v in
    let taken : Viewer = (take_form form (idle_line v written)).viewer in
    let served : Served (config_writes config) taken written
        (serve outcomes (apply_config form (idle_line v written))) =
      unfold take_form next_write config_steps config_writes in
      (chain (config_steps config) outcomes config taken written same (writes_fit form v) h refl) in
    (
      served,
      ap (λ (l : Line). l.viewer.analyzer.config) served.ends
          ∙ ap (λ (a : Analyzer). a.config) served.same_analyzer
          ∙ unfold take_form in refl,
    )
