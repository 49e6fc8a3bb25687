-- ===== src/Diagnosis/Controller/Overtaken.antt =====
-- Runs of `AnalysisController` (tools/viewer/web/ai_provider.js) that are overtaken by other events.
use open_fpgastudio.Base.{ℕ, ◌+◌, ◌≡◌, refl, true, none, some, arith}
use open_fpgastudio.Diagnosis.Controller.{
  completed, cancelled, failed, is_active, is_cancelled, timeout, ProviderError, passed, Controller,
  show, abort_latest, cancel_run, start_run, finish, shown_error, throw_error, fire_timer,
  retry_or_throw, provider_throws, validate_shown, settle_reply, provider_replies,
}

module _ {Result : Type 0} (c : Controller Result) where
  abbrev pub older : ℕ
  older = c.generation + 1

  abbrev pub newer : ℕ
  newer = c.generation + 2

  -- A run that is followed by another at once, and whose timer then fires.
  abbrev pub overtaken : ℕ → ℕ → Controller Result
  overtaken r q = fire_timer older (start_run q (start_run r c))

  -- When a run is followed by another, its timer stays set; when it fires, the provider of the newer
  -- run, which has its own timer still set, is aborted, and the newer run is shown as timed out as soon
  -- as its provider throws for that.
  pub overtaken_timeout :
      (r q : ℕ) (e : ProviderError)
      → e.is_abort ≡ true
      → ((start_run q (start_run r c)).timers older ≡ true)
        × ((overtaken r q).timers newer ≡ true)
        × ((overtaken r q).aborted newer ≡ true)
        × ((provider_throws newer e (overtaken r q)).shown ≡ show failed newer none (some timeout))
  unfolding provider_throws retry_or_throw throw_error shown_error fire_timer start_run abort_latest
      cancel_run is_cancelled finish
  overtaken_timeout r q e h = (ground arith, ground arith, ground arith, ground arith)

  -- When a run is cancelled and its provider replies all the same, with a reply that the validator
  -- accepts, the run is shown as completed.
  pub cancelled_completes :
      (r : ℕ) (result : Result)
      → let stopped = cancel_run (start_run r c) in
        (stopped.shown.status ≡ cancelled)
        × ((provider_replies older (passed result) stopped).shown
            ≡ show completed older (some result) none)
  unfolding provider_replies start_run cancel_run abort_latest validate_shown settle_reply finish
      is_active
  cancelled_completes r result = (refl, ground arith)
