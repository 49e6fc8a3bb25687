-- ===== src/Diagnosis/Controller/Ends.antt =====
-- A run of `AnalysisController` (tools/viewer/web/ai_provider.js) comes to an end.
use open_fpgastudio.Base.{
  ℕ, ◌+◌, ◌<◌, ◌≡◌, refl, sym, ap, subst, ◌∙◌, Bool, true, false, Bool-cases, ◌⊎◌, ◌≤◌, inl, inr,
  not, ◌||◌, Option, none, some, List, [], ◌∷◌, length, arith, ltb, ◌==◌, ==_iff,
}
use open_fpgastudio.Diagnosis.Controller.{
  Status, completed, cancelled, failed, Reason, ProviderError, Checked, passed, refused, broke,
  Shown, Attempt, Controller, update, show, finish, shown_error, throw_error, retry_or_throw,
  provider_throws, validate_shown, settle_reply, provider_replies,
}

-- What a provider does when it is called: it replies, and the validator has a verdict on that, or it
-- throws.
pub data Reply (Result : Type 0) : Type 0 where
  replied : Checked Result → Reply Result
  threw : ProviderError → Reply Result

-- Over, in one way or another.
abbrev pub is_ended : Status → Bool
is_ended completed = true
is_ended cancelled = true
is_ended failed = true
is_ended _ = false

module _ {Result : Type 0} where
  -- The next of the provider's replies to the latest run, while this waits.
  abbrev pub take_reply : Option Attempt → Reply Result → Controller Result → Controller Result
  take_reply none reply c = c
  take_reply (some a) (replied verdict) c = provider_replies c.generation verdict c
  take_reply (some a) (threw e) c = provider_throws c.generation e c

  abbrev pub take_replies : List (Reply Result) → Controller Result → Controller Result
  take_replies [] c = c
  take_replies (reply ∷ replies) c =
      take_replies replies (take_reply (c.waiting c.generation) reply c)

  abbrev IsOver : ℕ → Controller Result → Type 0
  IsOver g c =
      (c.generation ≡ g)
      × (c.waiting g ≡ none)
      × (is_ended c.shown.status ≡ true)
      × (c.shown.generation ≡ g)

  over_stays :
      (replies : List (Reply Result)) (c : Controller Result)
      → IsOver c.generation c
      → take_replies replies c ≡ c
  over_stays [] c h = refl
  over_stays (reply ∷ replies) c h = rw h.1 (over_stays replies c h)

  finish-IsOver :
      (c : Controller Result) (s : Shown Result)
      → is_ended s.status ≡ true
      → s.generation ≡ c.generation
      → IsOver c.generation (finish c.generation (record c { shown = s }))
  unfolding finish
  finish-IsOver c s h k = (refl, ground arith, h, k)

  error_ended :
      (g : ℕ) (reason : Reason) (c : Controller Result)
      → is_ended (shown_error g reason c).status ≡ true
  unfolding shown_error
  error_ended g reason c = ground arith

  error_generation :
      (g : ℕ) (reason : Reason) (c : Controller Result) → (shown_error g reason c).generation ≡ g
  unfolding shown_error
  error_generation g reason c = ground arith

  throw-IsOver :
      (reason : Reason) (c : Controller Result)
      → IsOver c.generation (throw_error c.generation reason c)
  unfolding throw_error
  throw-IsOver reason c =
      let same : (c.generation == c.generation) ≡ true =
        (==_iff c.generation c.generation).1 refl in
      rw same (
        finish-IsOver c (shown_error c.generation reason c) (error_ended c.generation reason c)
          (error_generation c.generation reason c))

  verdict-IsOver :
      (v : Checked Result) (c : Controller Result)
      → IsOver c.generation (settle_reply c.generation v (validate_shown c))
  unfolding settle_reply validate_shown
  verdict-IsOver refused c = throw-IsOver _ (validate_shown c)
  verdict-IsOver broke c = throw-IsOver _ (validate_shown c)
  verdict-IsOver (passed result) c =
      finish-IsOver c (show completed c.generation (some result) none) refl refl

  reply-IsOver :
      (verdict : Checked Result) (c : Controller Result)
      → IsOver c.generation (provider_replies c.generation verdict c)
  unfolding provider_replies
  reply-IsOver verdict c =
      let same : (c.generation == c.generation) ≡ true =
        (==_iff c.generation c.generation).1 refl in
      rw same (verdict-IsOver verdict c)

  -- One more attempt.
  abbrev again : Attempt → Controller Result → Controller Result
  again a c = record c {
    waiting = update c.waiting c.generation (some (record a { attempt = a.attempt + 1 }));
  }

  again_waiting :
      (a : Attempt) (c : Controller Result)
      → (again a c).waiting c.generation ≡ some (record a { attempt = a.attempt + 1 })
  again_waiting a c = ground arith

  -- What a run has come to when its provider throws.
  throws_lem :
      (a : Attempt) (e : ProviderError) (c : Controller Result)
      → c.waiting c.generation ≡ some a
      → IsOver c.generation (provider_throws c.generation e c)
        ⊎ ((a.attempt < a.retries) × (provider_throws c.generation e c ≡ again a c))
  unfolding provider_throws retry_or_throw
  throws_lem a e c h =
      elim (Bool-cases (e.is_abort || not e.retryable || not (ltb a.attempt a.retries))) [
        | inl stop ↦ inl (rw (h, stop) (throw-IsOver _ c))
        | inr go ↦ inr (ground arith, rw (h, go))
      ]

  -- What is left of the replies to a run that is over changes nothing.
  settled_by :
      (replies : List (Reply Result)) (g : ℕ) (d : Controller Result)
      → IsOver g d
      → IsOver g (take_replies replies d)
  settled_by replies g d (same, none_waits, ended, own) =
      subst (IsOver g)
        (sym (over_stays replies d (refl, ap d.waiting same ∙ none_waits, ended, own ∙ sym same)))
        (same, none_waits, ended, own)

  -- The first reply reaches the run that waits.
  first_reply :
      (reply : Reply Result) (replies : List (Reply Result)) (a : Attempt) (c d : Controller Result)
      → c.waiting c.generation ≡ some a
      → take_reply (some a) reply c ≡ d
      → take_replies (reply ∷ replies) c ≡ take_replies replies d
  first_reply reply replies a c d h step =
      ap (λ m. take_replies replies (take_reply m reply c)) h ∙ ap (take_replies replies) step

  -- A run whose provider replies or throws whenever it is called comes to an end: after as many replies
  -- as it has retries left, and one more, it waits no longer, what is shown belongs to it and is
  -- completed, failed or cancelled.
  pub take_replies_ends :
      (replies : List (Reply Result)) (a : Attempt) (c : Controller Result)
      → c.waiting c.generation ≡ some a
      → a.retries < a.attempt + length replies
      → a.attempt ≤ a.retries
      → let d = take_replies replies c in
        (d.generation ≡ c.generation)
        × (d.waiting c.generation ≡ none)
        × (is_ended d.shown.status ≡ true)
        × (d.shown.generation ≡ c.generation)
  take_replies_ends [] a c h enough small = absurd (omega arith)
  take_replies_ends (replied verdict ∷ replies) a c h enough small =
      subst (IsOver c.generation) (sym (first_reply (replied verdict) replies a c _ h refl)) (
        settled_by replies c.generation (provider_replies c.generation verdict c)
          (reply-IsOver verdict c))
  take_replies_ends (threw e ∷ replies) a c h enough small = elim (throws_lem a e c h) [
    | inl over ↦
        subst (IsOver c.generation) (sym (first_reply (threw e) replies a c _ h refl))
          (settled_by replies c.generation (provider_throws c.generation e c) over)
    | inr (more, same) ↦
        subst (IsOver c.generation) (sym (first_reply (threw e) replies a c (again a c) h same)) (
          take_replies_ends replies (record a { attempt = a.attempt + 1 }) (again a c)
            (again_waiting a c) (omega arith) (omega arith))
  ]
