-- ===== src/Diagnosis/Controller.antt =====
-- `AnalysisController` of tools/viewer/web/ai_provider.js. A run waits for its provider between two
-- events; the provider's replies, the timers and the user's clicks come as events in any order. The
-- context, its preview, the local findings and the texts of errors are left out; the validator's
-- verdict on a reply is a parameter.
pub mod Steps
pub mod Invariant
pub mod Overtaken
pub mod Ends
pub mod Trusted
use open_fpgastudio.Base.{
  ℕ, ◌+◌, Bool, true, false, not, ◌&&◌, ◌||◌, Option, none, some, [], ◌∷◌, ltb, ◌==◌, if◌then◌else◌,
  is_some,
}
use open_fpgastudio.Base.Texts.{Text, codes}

pub data Status : Type 0 where
  idle queued running validating completed cancelled failed : Status

-- `["queued", "running", "validating"].includes(status)`
unfoldable pub is_active : Status → Bool
is_active queued = true
is_active running = true
is_active validating = true
is_active _ = false

unfoldable pub is_cancelled : Status → Bool
is_cancelled cancelled = true
is_cancelled _ = false

-- `reason` of a run that failed or was cancelled; `code` is `error.code || "provider_error"`.
pub data Reason : Type 0 where
  cancel timeout validation_failed : Reason
  code : Text → Reason

-- What a provider throws: whether its name is "AbortError", `retryable`, and `code`.
pub record ProviderError : Type 0 where
  pub is_abort : Bool
  pub retryable : Bool
  pub code : Option Text

-- What the validator makes of a reply: it lets a result pass, it gives errors, or it throws.
pub data Checked (Result : Type 0) : Type 0 where
  passed : Result → Checked Result
  refused : Checked Result
  broke : Checked Result

-- `this.state`
pub record Shown (Result : Type 0) : Type 0 where
  pub status : Status
  pub generation : ℕ
  pub result : Option Result
  pub reason : Option Reason

-- A run that waits for its provider: `attempt`, and `options.retries || 0`.
pub record Attempt : Type 0 where
  pub attempt : ℕ
  pub retries : ℕ

-- The controller. Each run has the number of its generation, its `AbortController` too, of which
-- `this.abortController` is the one of the latest run; generation 0 has none.
pub record Controller (Result : Type 0) : Type 0 where
  pub generation : ℕ
  pub shown : Shown Result
  pub aborted : ℕ → Bool
  pub timers : ℕ → Bool
  pub waiting : ℕ → Option Attempt

abbrev pub update {ℓ} : {A : Type ℓ} → (ℕ → A) → ℕ → A → ℕ → A
update f i a j = if i == j then a else f j

abbrev pub error_code : Option Text → Text
error_code none = codes "provider_error"
error_code (some []) = codes "provider_error"
error_code (some (c ∷ cs)) = c ∷ cs

module _ {Result : Type 0} where
  abbrev pub show : Status → ℕ → Option Result → Option Reason → Shown Result
  show status generation result reason = record {
    status = status;
    generation = generation;
    result = result;
    reason = reason;
  }

  -- `constructor`
  abbrev pub new_controller : Controller Result
  new_controller = record {
    generation = 0;
    shown = record { status = idle; generation = 0; result = none; reason = none };
    aborted = λ g. false;
    timers = λ g. false;
    waiting = λ g. none;
  }

  -- `this.abortController.abort()`, of the latest run.
  unfoldable pub abort_latest : Controller Result → Controller Result
  abort_latest c = record c {
    aborted = if c.generation == 0 then c.aborted else update c.aborted c.generation true;
  }

  -- `cancel`
  unfoldable pub cancel_run : Controller Result → Controller Result
  unfolding abort_latest
  cancel_run c =
      let stopped = abort_latest c in
      record stopped {
        shown = if is_active c.shown.status then record c.shown { status = cancelled } else c.shown;
      }

  -- `run` up to `buildContext`; a run whose context cannot be built stays like this.
  abbrev pub queue_run : Controller Result → Controller Result
  queue_run c =
      let before = cancel_run c in
      let generation = c.generation + 1 in
      record before { generation = generation; shown = show queued generation none none }

  -- `run` up to the call of the provider, with a context that could be built.
  unfoldable pub start_run : ℕ → Controller Result → Controller Result
  start_run retries c =
      let made = queue_run c in
      let first : Attempt = record { attempt = 0; retries = retries } in
      record made {
        shown = record made.shown { status = running };
        timers = update made.timers made.generation true;
        waiting = update made.waiting made.generation (some first);
      }

  -- `finally`: the run is over.
  unfoldable pub finish : ℕ → Controller Result → Controller Result
  finish g c = record c { timers = update c.timers g false; waiting = update c.waiting g none }

  -- `catch`: what is shown after an error of the latest run.
  unfoldable pub shown_error : ℕ → Reason → Controller Result → Shown Result
  shown_error g reason c =
      if c.aborted g && is_cancelled c.shown.status
      then show cancelled g none (some cancel)
      else show failed g none (some (if c.aborted g then timeout else reason))

  unfoldable pub throw_error : ℕ → Reason → Controller Result → Controller Result
  unfolding finish
  throw_error g reason c =
      if g == c.generation
      then finish g (record c { shown = shown_error g reason c })
      else finish g c

  -- The timer of run `g` fires: it aborts `this.abortController`.
  unfoldable pub fire_timer : ℕ → Controller Result → Controller Result
  unfolding abort_latest
  fire_timer g c =
      let stopped = abort_latest c in record stopped { timers = update c.timers g false }

  -- The provider of run `g` throws: another attempt, or the error goes on.
  unfoldable pub retry_or_throw :
      ℕ → ProviderError → Option Attempt → Controller Result → Controller Result
  unfolding throw_error
  retry_or_throw g error none c = c
  retry_or_throw g error (some a) c =
      if error.is_abort || not error.retryable || not (ltb a.attempt a.retries)
      then throw_error g (code (error_code error.code)) c
      else record c { waiting = update c.waiting g (some (record a { attempt = a.attempt + 1 })) }

  unfoldable pub provider_throws : ℕ → ProviderError → Controller Result → Controller Result
  unfolding retry_or_throw
  provider_throws g error c = retry_or_throw g error (c.waiting g) c

  -- `state = { ...state, status: "validating" }`
  unfoldable pub validate_shown : Controller Result → Controller Result
  validate_shown c = record c { shown = record c.shown { status = validating } }

  -- What the validator makes of the reply of the latest run; what it throws has no `code`.
  unfoldable pub settle_reply : ℕ → Checked Result → Controller Result → Controller Result
  unfolding throw_error finish
  settle_reply g refused c = throw_error g validation_failed c
  settle_reply g broke c = throw_error g (code (error_code none)) c
  settle_reply g (passed result) c =
      finish g (record c { shown = show completed g (some result) none })

  -- The provider of run `g` replies.
  unfoldable pub provider_replies : ℕ → Checked Result → Controller Result → Controller Result
  unfolding validate_shown settle_reply finish
  provider_replies g checked c =
      if g == c.generation then settle_reply g checked (validate_shown c) else finish g c
