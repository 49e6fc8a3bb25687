-- ===== src/Diagnosis/Controller/Steps.antt =====
-- Every order of events of `AnalysisController` (tools/viewer/web/ai_provider.js).
use open_fpgastudio.Base.{ℕ, ◌<◌, ◌≡◌, ◌≢◌, true, Option, none, some, is_some}
use open_fpgastudio.Diagnosis.Controller.{
  Status, queued, running, validating, completed, ProviderError, Checked, passed, Controller,
  new_controller, cancel_run, start_run, fire_timer, provider_throws, provider_replies,
}

module _ {Raw Result : Type 0} (check : ℕ → Raw → Checked Result) where
  -- The events: the user starts or cancels a run, a run's provider replies or throws while the run
  -- waits for it, a run's timer fires while it is set. `check g` is the validator with the context of
  -- run `g`.
  pub data Step (c : Controller Result) : Controller Result → Type 0 where
    starts : (retries : ℕ) → Step c (start_run retries c)
    cancels : Step c (cancel_run c)
    replies :
        (g : ℕ) (raw : Raw)
        → is_some (c.waiting g) ≡ true
        → Step c (provider_replies g (check g raw) c)
    throws :
        (g : ℕ) (e : ProviderError) → is_some (c.waiting g) ≡ true → Step c (provider_throws g e c)
    fires : (g : ℕ) → c.timers g ≡ true → Step c (fire_timer g c)

  pub data Reach : Controller Result → Type 0 where
    initial : Reach new_controller
    later : {c d : Controller Result} → Reach c → Step c d → Reach d

  -- What is shown while a result is there: one that the validator made of a reply to run `g`.
  abbrev pub IsVerified : ℕ → Status → Option Result → Type 0
  IsVerified g completed (some result) = (raw : Raw) × (check g raw ≡ passed result)
  IsVerified g completed none = ⊥
  IsVerified g _ _ = Unit {0}

  -- What the page may rely on between two events.
  pub record Inv (c : Controller Result) : Type 0 where
    pub latest : c.shown.generation ≡ c.generation
    pub verified : IsVerified c.shown.generation c.shown.status c.shown.result
    pub settled : (c.shown.status ≢ queued) × (c.shown.status ≢ validating)
    pub superseded : (g : ℕ) → 0 < g → g < c.generation → c.aborted g ≡ true
    pub started : (g : ℕ) → c.generation < g → c.waiting g ≡ none
    pub awaited : c.shown.status ≡ running → is_some (c.waiting c.generation) ≡ true
