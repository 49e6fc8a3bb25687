-- ===== src/Diagnosis/Workflow.antt =====
-- The session of the debug page, `AIDebugModel` of tools/viewer/web/ai_debug_model.js. What waits for a
-- promise goes on with an event: a snapshot that was asked for is built, and a run of the provider ends.
-- The snapshot, the local findings and the provider's result are parameters; drawing, the feedback
-- fields and the downloads are left out.
pub mod Findings
pub mod Overlap
use open_fpgastudio.Base.{
  ℕ, ◌+◌, Bool, true, false, not, Option, none, some, List, [], ◌∷◌, take, ◌==◌, if◌then◌else◌,
  is_some,
}
use open_fpgastudio.Base.Texts.{Text, codes}
use open_fpgastudio.Base.Dict.{Dict, get, put, delete, number_key}

pub data SessionStatus : Type 0 where
  idle building_snapshot local_analyzing local_complete awaiting_consent running : SessionStatus
  completed failed cancelled stale : SessionStatus

pub data Kind : Type 0 where
  local_run provider_run : Kind

-- An entry of the history, without its time.
pub record Entry : Type 0 where
  pub kind : Kind
  pub snapshot_id : Text
  pub status : SessionStatus
  pub finding_count : ℕ

-- What the page uses of `YiFPGADiagnosticSnapshot` and `YiFPGADiagnosticRules`: the snapshot of a scope,
-- its id, the local findings of a snapshot and their number; and the provider's results.
pub record Sources : Type 1 where
  pub Snapshot : Type 0
  pub Rules : Type 0
  pub Result : Type 0
  pub id_of : Snapshot → Text
  pub evaluate : Snapshot → Rules
  pub count : Rules → ℕ

module _ (x : Sources) where
  -- A snapshot that is being built: the page's state it is put into, the scope it is of, and whether
  -- `askAI` waits for it. What it will be is settled when it is asked for.
  pub record Build : Type 0 where
    pub epoch : ℕ
    pub scope : Text
    pub snapshot : x.Snapshot
    pub asks : Bool

  -- `this.state` and the field of consent. `reset` makes a new state: `epoch` counts them. `builds` are the
  -- snapshots that are being built, by the number of their request.
  pub record DebugSession : Type 0 where
    pub status : SessionStatus
    pub scope : Text
    pub snapshot : Option x.Snapshot
    pub rule_result : Option x.Rules
    pub provider_result : Option x.Result
    pub history : List Entry
    pub consent : Bool
    pub epoch : ℕ
    pub requests : ℕ
    pub builds : Dict ℕ Build

  -- How a run of the provider ends.
  pub data Ending : Type 0 where
    with_result : x.Result → Ending
    without_result : SessionStatus → Ending

module _ {x : Sources} where
  abbrev pub fresh_session : DebugSession x
  fresh_session = record {
    status = idle;
    scope = codes "session";
    snapshot = none;
    rule_result = none;
    provider_result = none;
    history = [];
    consent = false;
    epoch = 0;
    requests = 0;
    builds = [];
  }

  abbrev pub with_entry :
      Kind → Option x.Snapshot → Option x.Rules → DebugSession x → DebugSession x
  with_entry kind (some snapshot) (some rules) s = record s {
    history = take 20 (
        record {
          kind = kind;
          snapshot_id = x.id_of snapshot;
          status = s.status;
          finding_count = x.count rules;
        }
        ∷ s.history);
  }
  with_entry kind _ _ s = s

  -- `record`; without a snapshot or findings it throws, and the history stays.
  unfoldable pub record_entry : Kind → DebugSession x → DebugSession x
  record_entry kind s = with_entry kind s.snapshot s.rule_result s

  -- `buildSnapshot` up to its `await`.
  unfoldable pub begin_build : Bool → x.Snapshot → DebugSession x → DebugSession x
  begin_build asks snapshot s = record s {
    status = building_snapshot;
    requests = s.requests + 1;
    builds =
        put s.requests
          (record { epoch = s.epoch; scope = s.scope; snapshot = snapshot; asks = asks }) s.builds;
  }

  -- `askAI` from the call of the provider to its `await`.
  unfoldable pub begin_run : DebugSession x → DebugSession x
  begin_run s = record s { status = running }

  -- The rest of `runLocal`, from the snapshot that `buildSnapshot` returned; `evaluate` throws where there
  -- is none. `askAI` goes on behind it.
  unfoldable pub analyze : Bool → Option x.Snapshot → DebugSession x → DebugSession x
  unfolding record_entry begin_run
  analyze asks none s = record s { status = local_analyzing }
  analyze asks (some snapshot) s =
      let done = record_entry local_run (record s {
        status = local_complete;
        rule_result = some (x.evaluate snapshot);
        provider_result = none;
      }) in
      if asks then begin_run done else done

  -- `this.state.snapshot = await ...`: the state is the one of the time of the request.
  unfoldable pub place : Build x → DebugSession x → DebugSession x
  place b s = if b.epoch == s.epoch then record s { snapshot = some b.snapshot } else s

  unfoldable pub resume_build : ℕ → Option (Build x) → DebugSession x → DebugSession x
  unfolding place analyze
  resume_build n none s = s
  resume_build n (some b) s =
      let placed = place b (record s { builds = delete n s.builds }) in
      analyze b.asks placed.snapshot placed

  -- The snapshot of request `n` is built.
  unfoldable pub built : ℕ → DebugSession x → DebugSession x
  unfolding resume_build
  built n s = resume_build n (get n s.builds) s

  -- `runLocal`; the snapshot is what the page's state comes to.
  unfoldable pub run_local : x.Snapshot → DebugSession x → DebugSession x
  unfolding begin_build
  run_local = begin_build false

  -- `askAI`
  unfoldable pub ask_ai : x.Snapshot → DebugSession x → DebugSession x
  unfolding begin_build begin_run
  ask_ai snapshot s =
      if not s.consent
      then record s { status = awaiting_consent }
      else if not (is_some s.rule_result)
      then begin_build true snapshot s
      else begin_run s

  -- The end of `askAI`, when the run of the provider has ended.
  unfoldable pub answered : Ending x → DebugSession x → DebugSession x
  unfolding record_entry
  answered (with_result result) s =
      record_entry provider_run (record s { status = completed; provider_result = some result })
  answered (without_result status) s = record s { status = status; provider_result = none }

  -- The button that cancels.
  unfoldable pub cancel : DebugSession x → DebugSession x
  cancel s = record s { status = cancelled }

  -- Another scope.
  unfoldable pub change_scope : Text → DebugSession x → DebugSession x
  change_scope scope s = record s {
    scope = scope;
    snapshot = none;
    rule_result = none;
    provider_result = none;
    status = idle;
  }

  -- `reset`
  unfoldable pub reset : DebugSession x → DebugSession x
  reset s = record fresh_session { epoch = s.epoch + 1; requests = s.requests; builds = s.builds }

-- What happens to the page, in any order.
pub data PageEvent (x : Sources) : Type 0 where
  clicks_local : x.Snapshot → PageEvent x
  clicks_ask : x.Snapshot → PageEvent x
  clicks_cancel : PageEvent x
  gives_consent : Bool → PageEvent x
  picks_scope : Text → PageEvent x
  clears : PageEvent x
  snapshot_built : ℕ → PageEvent x
  run_ended : Ending x → PageEvent x

unfoldable pub react_page : {x : Sources} → PageEvent x → DebugSession x → DebugSession x
react_page (clicks_local snapshot) s = run_local snapshot s
react_page (clicks_ask snapshot) s = ask_ai snapshot s
react_page clicks_cancel s = cancel s
react_page (gives_consent given) s = record s { consent = given }
react_page (picks_scope scope) s = change_scope scope s
react_page clears s = reset s
react_page (snapshot_built n) s = built n s
react_page (run_ended ending) s = answered ending s

unfoldable pub follow : {x : Sources} → List (PageEvent x) → DebugSession x → DebugSession x
unfolding react_page
follow [] s = s
follow (e ∷ events) s = follow events (react_page e s)
