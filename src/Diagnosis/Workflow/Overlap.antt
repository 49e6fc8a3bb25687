-- ===== src/Diagnosis/Workflow/Overlap.antt =====
-- Events of the debug page while a snapshot is being built (tools/viewer/web/ai_debug_model.js).
use open_fpgastudio.Base.{◌+◌, ◌≡◌, refl, true, false, none, some, ◌==◌, ==_iff, arith}
use open_fpgastudio.Base.Texts.{Text}
use open_fpgastudio.Base.Dict.{number_key, get-put_self}
use open_fpgastudio.Diagnosis.Workflow.{
  local_analyzing, Sources, Build, DebugSession, record_entry, begin_build, analyze, place,
  resume_build, built, run_local, change_scope, reset, local_complete,
}

module _ {x : Sources} where
  cleared_run :
      (snapshot : x.Snapshot) (s : DebugSession x)
      → let after = built s.requests (reset (run_local snapshot s)) in
        (after.status ≡ local_analyzing) × (after.snapshot ≡ none) × (after.rule_result ≡ none)
  unfolding built reset run_local begin_build
  cleared_run snapshot s =
      let b : Build x = record {
        epoch = s.epoch;
        scope = s.scope;
        snapshot = snapshot;
        asks = false;
      } in
      let other : (s.epoch == s.epoch + 1) ≡ false = ground arith in
      rw (get-put_self s.requests b s.builds)
        (unfold resume_build place in rw other (unfold analyze in (refl, refl, refl)))

  rescoped_run :
      (snapshot : x.Snapshot) (scope : Text) (s : DebugSession x)
      → let after = built s.requests (change_scope scope (run_local snapshot s)) in
        (after.scope ≡ scope)
        × (after.snapshot ≡ some snapshot)
        × (after.rule_result ≡ some (x.evaluate snapshot))
        × (after.status ≡ local_complete)
  unfolding built change_scope run_local begin_build
  rescoped_run snapshot scope s =
      let b : Build x = record {
        epoch = s.epoch;
        scope = s.scope;
        snapshot = snapshot;
        asks = false;
      } in
      let same : (s.epoch == s.epoch) ≡ true = (==_iff s.epoch s.epoch).1 refl in
      rw (get-put_self s.requests b s.builds) (
        unfold resume_build place in
        rw same (unfold analyze record_entry in (refl, refl, refl, refl)))

-- When the page is cleared while the snapshot of a local run is being built, the run throws when that is
-- done: the page says that it is analyzing, with no snapshot and no findings. When another scope is chosen
-- in the meantime, the page shows that scope as analyzed, with the snapshot and the findings of the old
-- one.
pub built_late :
    {x : Sources} (snapshot : x.Snapshot) (scope : Text) (s : DebugSession x)
    → let cleared = built s.requests (reset (run_local snapshot s)) in
      let rescoped = built s.requests (change_scope scope (run_local snapshot s)) in
      ((cleared.status ≡ local_analyzing)
        × (cleared.snapshot ≡ none)
        × (cleared.rule_result ≡ none))
      × ((rescoped.scope ≡ scope)
          × (rescoped.snapshot ≡ some snapshot)
          × (rescoped.rule_result ≡ some (x.evaluate snapshot))
          × (rescoped.status ≡ local_complete))
built_late snapshot scope s = (cleared_run snapshot s, rescoped_run snapshot scope s)
