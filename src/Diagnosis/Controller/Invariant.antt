-- ===== src/Diagnosis/Controller/Invariant.antt =====
-- What holds in every state of `AnalysisController` (tools/viewer/web/ai_provider.js).
use open_fpgastudio.Base.{
  ℕ, ◌<◌, ◌≡◌, ◌≢◌, inl, inr, refl, sym, subst, if-intro, ◌∙◌, true, Bool-cases, Option, none, some,
  arith, ◌==◌, ==_iff, if◌then◌else◌,
}
use open_fpgastudio.Diagnosis.Controller.{
  Status, idle, queued, running, validating, completed, cancelled, failed, is_active, Reason,
  ProviderError, Checked, passed, refused, broke, Shown, Attempt, Controller, update, show,
  new_controller, abort_latest, cancel_run, start_run, finish, shown_error, throw_error, fire_timer,
  retry_or_throw, provider_throws, validate_shown, settle_reply, provider_replies,
}
use open_fpgastudio.Diagnosis.Controller.Steps.{
  Step, starts, cancels, replies, throws, fires, Reach, initial, later, IsVerified, Inv,
}

module _ {Raw Result : Type 0} (check : ℕ → Raw → Checked Result) where
  Inv-new : Inv check new_controller
  Inv-new = record {
    latest = refl;
    verified = tt;
    settled = (λ e. cc, λ e. cc);
    superseded = λ g h k. absurd (omega arith);
    started = λ g h. refl;
    awaited = λ e. cc;
  }

  -- Cancelling changes the status at most, to `cancelled`.
  stop_lem :
      (s : Shown Result)
      → let t = if is_active s.status then record s { status = cancelled } else s in
        (t.generation ≡ s.generation)
        × (IsVerified check s.generation s.status s.result
            → IsVerified check t.generation t.status t.result)
        × (t.status ≢ queued)
        × (t.status ≢ validating)
        × (t.status ≢ running)
  unfolding is_active
  stop_lem s = by_status s.status s.result s.generation s.reason
    where
      by_status :
          (status : Status) (result : Option Result) (g : ℕ) (reason : Option Reason)
          → let s = show status g result reason in
            let t = if is_active s.status then record s { status = cancelled } else s in
            (t.generation ≡ s.generation)
            × (IsVerified check s.generation s.status s.result
                → IsVerified check t.generation t.status t.result)
            × (t.status ≢ queued)
            × (t.status ≢ validating)
            × (t.status ≢ running)
      by_status idle r g w = (refl, λ v. v, λ e. cc, λ e. cc, λ e. cc)
      by_status queued r g w = (refl, λ v. tt, λ e. cc, λ e. cc, λ e. cc)
      by_status running r g w = (refl, λ v. tt, λ e. cc, λ e. cc, λ e. cc)
      by_status validating r g w = (refl, λ v. tt, λ e. cc, λ e. cc, λ e. cc)
      by_status completed r g w = (refl, λ v. v, λ e. cc, λ e. cc, λ e. cc)
      by_status cancelled r g w = (refl, λ v. tt, λ e. cc, λ e. cc, λ e. cc)
      by_status failed r g w = (refl, λ v. tt, λ e. cc, λ e. cc, λ e. cc)

  abort_lem :
      (g : ℕ) (c : Controller Result) → c.aborted g ≡ true → (abort_latest c).aborted g ≡ true
  unfolding abort_latest
  abort_lem g c h = ground arith

  abort_latest_lem :
      (c : Controller Result) → 0 < c.generation → (abort_latest c).aborted c.generation ≡ true
  unfolding abort_latest
  abort_latest_lem c h = ground arith

  cancel-Inv : (c : Controller Result) → Inv check c → Inv check (cancel_run c)
  unfolding cancel_run
  cancel-Inv c i =
      let s = stop_lem c.shown in
      record {
        latest = s.0 ∙ i.latest;
        verified = s.1 i.verified;
        settled = (s.2, s.3);
        superseded = λ g h k. abort_lem g c (i.superseded g h k);
        started = i.started;
        awaited = λ e. absurd (s.4 e);
      }

  start-Inv : (retries : ℕ) (c : Controller Result) → Inv check c → Inv check (start_run retries c)
  unfolding start_run cancel_run
  start-Inv retries c i = record {
    latest = refl;
    verified = tt;
    settled = (λ e. cc, λ e. cc);
    superseded = λ g h k. elim (Bool-cases (g == c.generation)) [
      | inl e ↦
          let same : g ≡ c.generation = (==_iff g c.generation).0 e in
          subst (λ x. (abort_latest c).aborted x ≡ true) (sym same)
            (abort_latest_lem c (omega arith))
      | inr e ↦ abort_lem g c (i.superseded g h (ground arith))
    ];
    started = λ g h. ground (arith, i.started g);
    awaited = λ e. ground arith;
  }

  finish_waiting :
      (g h : ℕ) (c : Controller Result) → c.waiting h ≡ none → (finish g c).waiting h ≡ none
  unfolding finish
  finish_waiting g h c e = ground arith

  finish_other : (g h : ℕ) (c : Controller Result) → g ≢ h → (finish g c).waiting h ≡ c.waiting h
  unfolding finish
  finish_other g h c e = ground arith

  fire-Inv : (g : ℕ) (c : Controller Result) → Inv check c → Inv check (fire_timer g c)
  unfolding fire_timer
  fire-Inv g c i = record {
    latest = i.latest;
    verified = i.verified;
    settled = i.settled;
    superseded = λ g h k. abort_lem g c (i.superseded g h k);
    started = i.started;
    awaited = i.awaited;
  }

  -- What is shown when run `g` is over.
  abbrev IsOver : ℕ → Shown Result → Type 0
  IsOver g s =
      (s.generation ≡ g)
      × IsVerified check s.generation s.status s.result
      × (s.status ≢ queued)
      × (s.status ≢ validating)
      × (s.status ≢ running)

  error-IsOver :
      (g : ℕ) (reason : Reason) (c : Controller Result) → IsOver g (shown_error g reason c)
  unfolding shown_error
  error-IsOver g reason c =
      if-intro (IsOver g) _ _ _ (refl, tt, λ e. cc, λ e. cc, λ e. cc)
        (refl, tt, λ e. cc, λ e. cc, λ e. cc)

  -- The latest run is over.
  over-Inv :
      (c : Controller Result) (s : Shown Result)
      → IsOver c.generation s
      → ((g : ℕ) → 0 < g → g < c.generation → c.aborted g ≡ true)
      → ((g : ℕ) → c.generation < g → c.waiting g ≡ none)
      → Inv check (finish c.generation (record c { shown = s }))
  unfolding finish
  over-Inv c s over superseded started = record {
    latest = over.0;
    verified = over.1;
    settled = (over.2, over.3);
    superseded = superseded;
    started = λ g h. finish_waiting c.generation g (record c { shown = s }) (started g h);
    awaited = λ e. absurd (over.4 e);
  }

  -- A run that is not the latest is over: nothing that is shown changes.
  finish-Inv :
      (g : ℕ) (c : Controller Result) → g ≢ c.generation → Inv check c → Inv check (finish g c)
  unfolding finish
  finish-Inv g c old i = record {
    latest = i.latest;
    verified = i.verified;
    settled = i.settled;
    superseded = i.superseded;
    started = λ h k. finish_waiting g h c (i.started h k);
    awaited = λ e. rw (finish_other g c.generation c old) (i.awaited e);
  }

  ==_refl : {a b : ℕ} → a ≡ b → (a == b) ≡ true
  ==_refl {a} {b} e = (==_iff a b).1 e

  throw_latest :
      (reason : Reason) (c : Controller Result)
      → ((g : ℕ) → 0 < g → g < c.generation → c.aborted g ≡ true)
      → ((g : ℕ) → c.generation < g → c.waiting g ≡ none)
      → Inv check (throw_error c.generation reason c)
  unfolding throw_error
  throw_latest reason c superseded started =
      let same : (c.generation == c.generation) ≡ true = ==_refl refl in
      rw same (over-Inv c _ (error-IsOver c.generation reason c) superseded started)

  throw-Inv :
      (g : ℕ) (reason : Reason) (c : Controller Result)
      → Inv check c
      → Inv check (throw_error g reason c)
  unfolding throw_error
  throw-Inv g reason c i = elim (Bool-cases (g == c.generation)) [
    | inl e ↦
        rw (e, (==_iff g c.generation).0 e)
          (over-Inv c _ (error-IsOver c.generation reason c) i.superseded i.started)
    | inr e ↦ rw e (finish-Inv g c (λ same. cc (==_refl same, e)) i)
  ]

  again-Inv :
      (g : ℕ) (a b : Attempt) (c : Controller Result)
      → c.waiting g ≡ some a
      → Inv check c
      → Inv check (record c { waiting = update c.waiting g (some b) })
  again-Inv g a b c here i = record {
    latest = i.latest;
    verified = i.verified;
    settled = i.settled;
    superseded = i.superseded;
    started = λ h k. ground (arith, i.started h k);
    awaited = λ e. ground (arith, i.awaited e);
  }

  retry-Inv :
      (g : ℕ) (e : ProviderError) (o : Option Attempt) (c : Controller Result)
      → c.waiting g ≡ o
      → Inv check c
      → Inv check (retry_or_throw g e o c)
  unfolding retry_or_throw
  retry-Inv g e none c here i = i
  retry-Inv g e (some a) c here i =
      if-intro (Inv check) _ _ _ (throw-Inv g _ c i) (again-Inv g a _ c here i)

  reply-Inv :
      (g : ℕ) (raw : Raw) (c : Controller Result)
      → Inv check c
      → Inv check (provider_replies g (check g raw) c)
  unfolding provider_replies validate_shown
  reply-Inv g raw c i = elim (Bool-cases (g == c.generation)) [
    | inl e ↦
        let same : g ≡ c.generation = (==_iff g c.generation).0 e in
        rw (e, same) (verdict_lem (check c.generation raw) refl)
    | inr e ↦ rw e (finish-Inv g c (λ same. cc (==_refl same, e)) i)
  ]
    where
      verdict_lem :
          (o : Checked Result)
          → check c.generation raw ≡ o
          → Inv check (settle_reply c.generation o (validate_shown c))
      verdict_lem refused h = throw_latest _ (validate_shown c) i.superseded i.started
      verdict_lem broke h = throw_latest _ (validate_shown c) i.superseded i.started
      verdict_lem (passed r) h =
          over-Inv c (show completed c.generation (some r) none)
            (refl, (raw, h), λ e. cc, λ e. cc, λ e. cc) i.superseded i.started

  Step-Inv : {c d : Controller Result} → Step check c d → Inv check c → Inv check d
  Step-Inv {c} (starts retries) i = start-Inv retries c i
  Step-Inv {c} cancels i = cancel-Inv c i
  Step-Inv {c} (replies g raw w) i = reply-Inv g raw c i
  Step-Inv {c} (throws g e w) i = throws_lem c g e i
    where
      throws_lem :
          (c : Controller Result) (g : ℕ) (e : ProviderError)
          → Inv check c
          → Inv check (provider_throws g e c)
      throws_lem c g e i = unfold provider_throws in retry-Inv g e (c.waiting g) c refl i
  Step-Inv {c} (fires g t) i = fire-Inv g c i

  pub Reach-Inv : {c : Controller Result} → Reach check c → Inv check c
  Reach-Inv initial = Inv-new
  Reach-Inv (later r s) = Step-Inv s (Reach-Inv r)
