-- ===== src/Diagnosis/Workflow/Findings.antt =====
-- What holds in every session of the debug page (tools/viewer/web/ai_debug_model.js).
use open_fpgastudio.Base.{
  ℕ, ◌≤◌, ◌≡◌, refl, sym, subst, Bool, true, false, Bool-cases, inl, inr, not, Option, none, some,
  List, [], ◌∷◌, length, length-take, arith, ◌==◌, if-intro, is_some,
}
use open_fpgastudio.Base.Dict.{get, delete, number_key}
use open_fpgastudio.Diagnosis.Workflow.{
  local_complete, completed, Kind, local_run, provider_run, Sources, Build, DebugSession, Ending,
  with_result, without_result, fresh_session, with_entry, record_entry, begin_build, begin_run,
  analyze, place, resume_build, built, run_local, ask_ai, answered, cancel, change_scope, reset,
  PageEvent, clicks_local, clicks_ask, clicks_cancel, gives_consent, picks_scope, clears,
  snapshot_built, run_ended, react_page, follow,
}

-- Findings are those of the snapshot that is there.
pub data IsOf (x : Sources) : Option x.Snapshot → Option x.Rules → Type 0 where
  no_rules : (o : Option x.Snapshot) → IsOf x o none
  rules_of :
      (snapshot : x.Snapshot) (rules : x.Rules)
      → rules ≡ x.evaluate snapshot
      → IsOf x (some snapshot) (some rules)

module _ {x : Sources} where
  pub record IsCoherent (s : DebugSession x) : Type 0 where
    pub findings : IsOf x s.snapshot s.rule_result
    pub bounded : length s.history ≤ 20

  entry_lem :
      (kind : Kind) (o : Option x.Snapshot) (r : Option x.Rules) (s : DebugSession x)
      → IsCoherent s
      → IsCoherent (with_entry kind o r s)
  entry_lem kind (some snapshot) (some rules) s h = record {
    findings = h.findings;
    bounded = omega (arith, length-take 19 s.history);
  }
  entry_lem kind (some snapshot) none s h = h
  entry_lem kind none (some rules) s h = h
  entry_lem kind none none s h = h

  record-IsCoherent :
      (kind : Kind) (s : DebugSession x) → IsCoherent s → IsCoherent (record_entry kind s)
  unfolding record_entry
  record-IsCoherent kind s h = entry_lem kind s.snapshot s.rule_result s h

  run-IsCoherent : (s : DebugSession x) → IsCoherent s → IsCoherent (begin_run s)
  unfolding begin_run
  run-IsCoherent s h = record { findings = h.findings; bounded = h.bounded }

  build-IsCoherent :
      (asks : Bool) (snapshot : x.Snapshot) (s : DebugSession x)
      → IsCoherent s
      → IsCoherent (begin_build asks snapshot s)
  unfolding begin_build
  build-IsCoherent asks snapshot s h = record { findings = h.findings; bounded = h.bounded }

  -- A session whose findings, if it has a snapshot, are about to be made again.
  analyze_lem :
      (asks : Bool) (o : Option x.Snapshot) (s : DebugSession x)
      → s.snapshot ≡ o
      → length s.history ≤ 20
      → (o ≡ none → s.rule_result ≡ none)
      → IsCoherent (analyze asks o s)
  unfolding analyze
  analyze_lem asks none s e h old = record {
    findings = subst (IsOf x s.snapshot) (sym (old refl)) (no_rules s.snapshot);
    bounded = h;
  }
  analyze_lem asks (some snapshot) s e h old =
      let analyzed : DebugSession x = record s {
        status = local_complete;
        rule_result = some (x.evaluate snapshot);
        provider_result = none;
      } in
      let sound : IsCoherent analyzed = record {
        findings =
            subst (λ o. IsOf x o (some (x.evaluate snapshot))) (sym e) (rules_of snapshot _ refl);
        bounded = h;
      } in
      let recorded = record-IsCoherent local_run analyzed sound in
      if-intro IsCoherent asks _ _ (run-IsCoherent _ recorded) recorded

  no_findings : (o : Option x.Snapshot) (r : Option x.Rules) → IsOf x o r → o ≡ none → r ≡ none
  no_findings o none h e = refl
  no_findings (some snapshot) (some rules) h e = cc
  no_findings none (some rules) h e = elim h [ ]

  resume_build-IsCoherent :
      (n : ℕ) (o : Option (Build x)) (s : DebugSession x)
      → IsCoherent s
      → IsCoherent (resume_build n o s)
  unfolding resume_build place
  resume_build-IsCoherent n none s h = h
  resume_build-IsCoherent n (some b) s h =
      let waits : DebugSession x = record s { builds = delete n s.builds } in
      let placed : DebugSession x = record waits { snapshot = some b.snapshot } in
      elim (Bool-cases (b.epoch == s.epoch)) [
        | inl same ↦
            rw same
              (analyze_lem b.asks (some b.snapshot) placed refl h.bounded (λ e. absurd (cc e)))
        | inr other ↦ rw other (
            analyze_lem b.asks s.snapshot waits refl h.bounded
              (no_findings s.snapshot s.rule_result h.findings))
      ]

  answered-IsCoherent :
      (ending : Ending x) (s : DebugSession x) → IsCoherent s → IsCoherent (answered ending s)
  unfolding answered
  answered-IsCoherent (with_result result) s h =
      record-IsCoherent provider_run
        (record s { status = completed; provider_result = some result })
        (record { findings = h.findings; bounded = h.bounded })
  answered-IsCoherent (without_result status) s h = record {
    findings = h.findings;
    bounded = h.bounded;
  }

  react_page-IsCoherent :
      (e : PageEvent x) (s : DebugSession x) → IsCoherent s → IsCoherent (react_page e s)
  unfolding react_page run_local ask_ai cancel change_scope reset built
  react_page-IsCoherent (clicks_local snapshot) s h = build-IsCoherent false snapshot s h
  react_page-IsCoherent (clicks_ask snapshot) s h =
      if-intro IsCoherent (not s.consent) _ _
        (record { findings = h.findings; bounded = h.bounded })
        (if-intro IsCoherent (not (is_some s.rule_result)) _ _ (build-IsCoherent true snapshot s h)
          (run-IsCoherent s h))
  react_page-IsCoherent clicks_cancel s h = record { findings = h.findings; bounded = h.bounded }
  react_page-IsCoherent (gives_consent given) s h = record {
    findings = h.findings;
    bounded = h.bounded;
  }
  react_page-IsCoherent (picks_scope scope) s h = record {
    findings = no_rules none;
    bounded = h.bounded;
  }
  react_page-IsCoherent clears s h = record { findings = no_rules none; bounded = omega arith }
  react_page-IsCoherent (snapshot_built n) s h = resume_build-IsCoherent n (get n s.builds) s h
  react_page-IsCoherent (run_ended ending) s h = answered-IsCoherent ending s h

  follow_lem :
      (events : List (PageEvent x)) (s : DebugSession x)
      → IsCoherent s
      → IsCoherent (follow events s)
  unfolding follow
  follow_lem [] s h = h
  follow_lem (e ∷ events) s h = follow_lem events (react_page e s) (react_page-IsCoherent e s h)

-- Whatever happens to the debug page, in any order: the local findings that it shows are those of the
-- snapshot that it shows, and the history has 20 entries at most.
pub follow-IsCoherent :
    {x : Sources} (events : List (PageEvent x)) → IsCoherent (follow events fresh_session)
follow-IsCoherent events =
    follow_lem events fresh_session (record { findings = no_rules none; bounded = omega arith })
