-- ===== src/Decode/Monitor/Expiry.antt =====
-- Requests of the monitor that get no answer (`expireMonitorPending` of tools/viewer/web/app.js).
use open_fpgastudio.Base.{
  ℕ, ◌≡◌, refl, sym, ap, ◌∙◌, false, Bool, Bool-cases, inl, inr, none, List, ◌++◌, ◌∷◌, [], arith,
  append-nil, append_assoc, if◌then◌else◌, leb, ◌==◌, ◌&&◌, ◌||◌,
}
use open_fpgastudio.Base.Dict.{Dict, get, delete, number_key, get-delete}
use open_fpgastudio.State.Monitor.{Request, Event}
use open_fpgastudio.State.{Viewer, request_render}
use open_fpgastudio.Decode.Monitor.{
  timeout_event, expire_entries, expire_monitor_pending, add_monitor_error, set_monitor,
}

-- The time-outs of the requests that are due, in the order of the requests.
abbrev pub due_events : ℕ → Dict ℕ Request → List Event
due_events now [] = []
due_events now ((seq, request) ∷ rest) =
    let more = due_events now rest in
    if leb request.timeout_at now then timeout_event seq request ∷ more else more

-- The dictionary without the keys of the requests that are due.
abbrev pub without_due : ℕ → Dict ℕ Request → Dict ℕ Request → Dict ℕ Request
without_due now [] m = m
without_due now ((seq, request) ∷ rest) m =
    let fewer = without_due now rest (delete seq m) in
    let same = without_due now rest m in if leb request.timeout_at now then fewer else same

abbrev Expires : ℕ → Dict ℕ Request → Viewer → List Event × Viewer → Type 0
Expires now entries s result =
    (result.0 ≡ due_events now entries)
    × (result.1.monitor.history ≡ s.monitor.history ++ due_events now entries)
    × (result.1.monitor.pending ≡ without_due now entries s.monitor.pending)

entries-Expires :
    (now : ℕ) (entries : Dict ℕ Request) (s : Viewer)
    → Expires now entries s (expire_entries now entries s)
unfolding expire_entries add_monitor_error request_render
entries-Expires now [] s = (refl, sym (append-nil s.monitor.history), refl)
entries-Expires now ((seq, request) ∷ rest) s =
    let event : Event = timeout_event seq request in
    let removed : Viewer = add_monitor_error event (
      set_monitor s (record s.monitor {
        pending = delete seq s.monitor.pending;
        history = s.monitor.history ++ event ∷ [];
      })) in
    let go = entries-Expires now rest removed in
    let stay = entries-Expires now rest s in
    elim (Bool-cases (leb request.timeout_at now)) [
      | inl e ↦ rw e (
        ap (event ∷◌) go.0,
        go.1 ∙ append_assoc s.monitor.history (event ∷ []) (due_events now rest),
        go.2,
      )
      | inr e ↦ rw e stay
    ]

-- Whether a request with this number is due.
abbrev pub is_due : ℕ → ℕ → Dict ℕ Request → Bool
is_due now k [] = false
is_due now k ((seq, request) ∷ rest) = (seq == k && leb request.timeout_at now) || is_due now k rest

get-without_due :
    (now k : ℕ) (entries m : Dict ℕ Request)
    → get k (without_due now entries m) ≡ (if is_due now k entries then none else get k m)
get-without_due now k [] m = refl
get-without_due now k ((seq, request) ∷ rest) m = ground (
  arith,
  get-without_due now k rest m,
  get-without_due now k rest (delete seq m),
  get-delete seq k m,
)

-- Expiry returns a time-out for each request that is due, in the order of the requests, puts the
-- same time-outs behind the history, and afterwards exactly the requests wait whose number no
-- due request has.
pub expire_cases :
    (now : ℕ) (s : Viewer)
    → let expired = expire_monitor_pending now s in
      let m = s.monitor in
      (expired.0 ≡ due_events now m.pending)
      × (expired.1.monitor.history ≡ m.history ++ due_events now m.pending)
      × ((k : ℕ)
          → get k expired.1.monitor.pending
            ≡ (if is_due now k m.pending then none else get k m.pending))
unfolding expire_monitor_pending
expire_cases now s =
    let result = entries-Expires now s.monitor.pending s in
    (
      result.0,
      result.1,
      λ k. ap (get k) result.2 ∙ get-without_due now k s.monitor.pending s.monitor.pending,
    )
