-- ===== src/Diagnosis/Controller/Trusted.antt =====
-- What the page shows of a reply: `AnalysisController` (tools/viewer/web/ai_provider.js) with `validate`
-- (tools/viewer/web/diagnosis_validator.js) as its validator. The
-- metadata that the controller adds to an accepted reply are left out.
use open_fpgastudio.Base.{ℕ, ◌≡◌, ap, subst, ◌∙◌, true, Option, none, some, List}
use open_fpgastudio.Base.Texts.{Text}
use open_fpgastudio.Diagnosis.Json.{Value}
use open_fpgastudio.Diagnosis.Validator.{Verdict, thrown, invalid, valid}
use open_fpgastudio.Diagnosis.Validator.Check.{Conversions, validate}
use open_fpgastudio.Diagnosis.Validator.Sound.Whole.{no_secret, IsTrusted, validate-IsTrusted}
use open_fpgastudio.Diagnosis.Controller.{
  Status, idle, queued, running, validating, completed, cancelled, failed, Checked, passed, refused,
  broke, Controller,
}
use open_fpgastudio.Diagnosis.Controller.Steps.{Reach, IsVerified}
use open_fpgastudio.Diagnosis.Controller.Invariant.{Reach-Inv}

-- What a run is started with: `secretValues`, the ids of the evidence that is sent, and the ids of the
-- rules.
pub record Context : Type 0 where
  pub forbidden : List Text
  pub evidence : List Text
  pub rules : List Text

-- `checked.valid`, or what `validate` throws.
abbrev pub checked_value : Verdict → Checked Value
checked_value (valid v) = passed v
checked_value (invalid errors) = refused
checked_value thrown = broke

checked-valid : (r : Verdict) (v : Value) → checked_value r ≡ passed v → r ≡ valid v
checked-valid (valid w) v h = cc
checked-valid thrown v h = cc
checked-valid (invalid errors) v h = cc

module _ (js : Conversions) (context : ℕ → Context) where
  -- The serialized reply to run `g`, and what `JSON.parse` makes of it, are checked with the context of
  -- that run.
  abbrev pub check_reply : ℕ → Text × Option Value → Checked Value
  check_reply g (serialized, parsed) =
      let sent = context g in
      checked_value (validate js none sent.forbidden sent.evidence sent.rules serialized parsed)

  -- The result of a reply to run `g`, which the validator let pass.
  pub record IsResult (g : ℕ) (v : Value) : Type 0 where
    pub serialized : Text
    pub parsed : Option Value
    pub lets_pass :
        validate js none
          (context g).forbidden
          (context g).evidence
          (context g).rules
          serialized
          parsed
        ≡ valid v
    pub has_no_secret : no_secret (context g).forbidden serialized ≡ true
    pub is_trusted : IsTrusted js (context g).evidence (context g).rules v

  verified-IsResult :
      (g : ℕ) (status : Status) (result : Option Value) (v : Value)
      → IsVerified check_reply g status result
      → status ≡ completed
      → result ≡ some v
      → IsResult g v
  verified-IsResult g completed (some result) v ((serialized, parsed), checked) done shown =
      let sent : Context = context g in
      let same : result ≡ v = cc in
      let let_pass = checked-valid _ v (checked ∙ ap passed same) in
      let sound =
        validate-IsTrusted js sent.evidence sent.rules none sent.forbidden serialized parsed v
          let_pass in
      record {
        serialized = serialized;
        parsed = parsed;
        lets_pass = let_pass;
        has_no_secret = sound.1;
        is_trusted = sound.2;
      }
  verified-IsResult g completed none v verified done shown = cc
  verified-IsResult g idle result v verified done shown = cc
  verified-IsResult g queued result v verified done shown = cc
  verified-IsResult g running result v verified done shown = cc
  verified-IsResult g validating result v verified done shown = cc
  verified-IsResult g cancelled result v verified done shown = cc
  verified-IsResult g failed result v verified done shown = cc

  -- Runs with contexts of their own are started, and the events come in whatever order: a result that
  -- the page shows as completed belongs to the latest run, and the validator made it, with that run's
  -- context, of a reply: the reply has none of that run's secrets, the facts and hypotheses of the
  -- result cite evidence that was sent for that run, and its actions carry the right safety.
  pub shown-IsResult :
      (c : Controller Value) (v : Value)
      → Reach check_reply c
      → c.shown.status ≡ completed
      → c.shown.result ≡ some v
      → (c.shown.generation ≡ c.generation) × IsResult c.generation v
  shown-IsResult c v reach done shown =
      let inv = Reach-Inv check_reply reach in
      let own =
        subst (λ g. IsVerified check_reply g c.shown.status c.shown.result) inv.latest
          inv.verified in
      (inv.latest, verified-IsResult c.generation c.shown.status c.shown.result v own done shown)
