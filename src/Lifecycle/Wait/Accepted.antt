-- ===== src/Lifecycle/Wait/Accepted.antt =====
-- What `waitUntilAccepted` returns, from the sequence of its requests.
use alchemy_alibaba.Prelude.{
  ℕ, suc, ◌<◌, ◌≡◌, refl, subst, Bool, true, false, Bool-cases, inl, inr, ◌↔◌,
}
use alchemy_alibaba.Effect.{
  Result, ok, fail, Effect, continue, Runtime, IsRuntime, ok_injective, fail_injective,
}
use alchemy_alibaba.Errors.{ProviderError}
use alchemy_alibaba.Lifecycle.Observe.{Wait, WaitOptions, with_defaults, WaitResult, budget}
use alchemy_alibaba.Lifecycle.Observe.Laws.{
  Polls, none_yet, one_more, not_ready, repeatable, Observed, in_time, rejected, never_ready,
  unreadable, observe_until-Observed, observe_until-eq_of_Observed,
}
use alchemy_alibaba.Lifecycle.Wait.{
  Acceptance, accepted, is_accepted, accept_once, match_acceptance, value_of, wait_until_accepted,
}

module _ {W : Type 0} (rt : Runtime W) {R : Type 0} (retry_if : ProviderError → Bool)
    (o : WaitOptions) (request : Effect W ProviderError R) where
  abbrev options : Wait
  options = with_defaults o

  -- `n` rejections that may be repeated, each followed by a pause.
  pub data Rejections : W → ℕ → W → Type 0 where
    no_rejection : {s : W} → Rejections s 0 s
    rejection :
        {s t u : W} {e : ProviderError} {n : ℕ}
        → request s ≡ (fail e, t)
        → retry_if e ≡ true
        → Rejections (rt.sleep options.interval t) n u
        → Rejections s (suc n) u

  -- How the requests from `s` end.
  pub data Settled (s : W) : Result ProviderError R → W → Type 0 where
    agreed :
        {n : ℕ} {t u : W} {r : R}
        → Rejections s n t
        → n < budget options
        → request t ≡ (ok r, u)
        → Settled s (ok r) u
    refused :
        {n : ℕ} {t u : W} {e : ProviderError}
        → Rejections s n t
        → n < budget options
        → request t ≡ (fail e, u)
        → retry_if e ≡ false
        → Settled s (fail e) u
    worn_out :
        {n : ℕ} {t u : W} {e : ProviderError}
        → Rejections s n t
        → suc n ≡ budget options
        → request t ≡ (fail e, u)
        → retry_if e ≡ true
        → Settled s (fail e) u

  abbrev Polled : W → ℕ → W → Type 0
  Polled = Polls rt is_accepted (λ _. false) options (accept_once retry_if request)

  -- The three ways in which a request and its classification go together.
  once_rejected :
      {s t : W} {e : ProviderError}
      → request s ≡ (fail e, t)
      → retry_if e ≡ true
      → accept_once retry_if request s ≡ (ok (Acceptance.rejected e), t)
  once_rejected r h = rw (r, h)

  once_refused :
      {s t : W} {e : ProviderError}
      → request s ≡ (fail e, t)
      → retry_if e ≡ false
      → accept_once retry_if request s ≡ (fail e, t)
  once_refused r h = rw (r, h)

  once_agreed :
      {s t : W} {r : R}
      → request s ≡ (ok r, t)
      → accept_once retry_if request s ≡ (ok (accepted r), t)
  once_agreed r = rw r

  Polled-Rejections : {s t : W} {n : ℕ} → Rejections s n t → Polled s n t
  Polled-Rejections no_rejection = none_yet
  Polled-Rejections (rejection r h rest) =
      one_more (not_ready (once_rejected r h) refl) (Polled-Rejections rest)

  request_of_rejection :
      (s : W) {t : W} (f : ProviderError) (x : Result ProviderError R × W)
      → request s ≡ x
      → accept_once retry_if request s ≡ (ok (Acceptance.rejected f), t)
      → (request s ≡ (fail f, t)) × (retry_if f ≡ true)
  request_of_rejection s f (ok r, u) h a = cc ((ok_injective (rw h at a)).0)
  request_of_rejection s f (fail e, u) h a = elim (Bool-cases (retry_if e)) [
    | inl p ↦
        let (q, c) = ok_injective (rw (h, p) at a) in
        let same : e ≡ f = cc q in (cc (h, same, c), rw same at p)
    | inr p ↦ cc (rw (h, p) at a)
  ]

  request_of_acceptance :
      (s : W) {t : W} (r : R) (x : Result ProviderError R × W)
      → request s ≡ x
      → accept_once retry_if request s ≡ (ok (accepted r), t)
      → request s ≡ (ok r, t)
  request_of_acceptance s r (ok q, u) h a = cc (h, rw h at a)
  request_of_acceptance s r (fail e, u) h a = elim (Bool-cases (retry_if e)) [
    | inl p ↦ cc ((ok_injective (rw (h, p) at a)).0)
    | inr p ↦ cc (rw (h, p) at a)
  ]

  request_of_error :
      (s : W) {t : W} (f : ProviderError) (x : Result ProviderError R × W)
      → request s ≡ x
      → accept_once retry_if request s ≡ (fail f, t)
      → (request s ≡ (fail f, t)) × (retry_if f ≡ false)
  request_of_error s f (ok q, u) h a = cc (rw h at a)
  request_of_error s {t} f (fail e, u) h a = elim (Bool-cases (retry_if e)) [
    | inl p ↦ cc (rw (h, p) at a)
    | inr p ↦
        let (q, c) = fail_injective (rw (h, p) at a) in
        (cc (h, q, c), subst (λ z. retry_if z ≡ false) q p)
  ]

  Rejections-Polled : {s t : W} {n : ℕ} → Polled s n t → Rejections s n t
  Rejections-Polled none_yet = no_rejection
  Rejections-Polled (one_more (not_ready {v = accepted r} a h) rest) = cc
  Rejections-Polled (one_more {s = s} (not_ready {v = Acceptance.rejected e} a h) rest) =
      let (b, p) = request_of_rejection s e (request s) refl a in
      rejection b p (Rejections-Polled rest)
  Rejections-Polled (one_more (repeatable r h) rest) = cc

  abbrev settle : Result ProviderError (WaitResult (Acceptance R)) × W → Result ProviderError R × W
  settle = continue (λ result. match_acceptance (value_of result))

  Settled-Observed :
      {s t : W} {r : Result ProviderError (WaitResult (Acceptance R))}
      → Observed rt is_accepted (λ _. false) options (accept_once retry_if request) s r t
      → Settled s (settle (r, t)).0 (settle (r, t)).1
  Settled-Observed (in_time {t = t} {v = accepted r} p b a h) =
      agreed (Rejections-Polled p) b (request_of_acceptance t r (request t) refl a)
  Settled-Observed (in_time {v = Acceptance.rejected e} p b a h) = cc
  Settled-Observed (rejected {t = t} {e = e} p b a h) =
      let (q, c) = request_of_error t e (request t) refl a in refused (Rejections-Polled p) b q c
  Settled-Observed (never_ready {v = accepted r} p b a h) = cc
  Settled-Observed (never_ready {t = t} {v = Acceptance.rejected e} p b a h) =
      let (q, c) = request_of_rejection t e (request t) refl a in
      worn_out (Rejections-Polled p) b q c
  Settled-Observed (unreadable p b a h) = cc

  module _ (L : IsRuntime rt) where
    pub wait_until_accepted-Settled :
        (s : W) → let y = wait_until_accepted rt retry_if o request s in Settled s y.0 y.1
    unfolding wait_until_accepted
    wait_until_accepted-Settled s = Settled-Observed (
        observe_until-Observed rt is_accepted (λ _. false) options (accept_once retry_if request) L
          s)

    abbrev completes :
        {s u : W} {r : Result ProviderError (WaitResult (Acceptance R))}
        → Observed rt is_accepted (λ _. false) options (accept_once retry_if request) s r u
        → wait_until_accepted rt retry_if o request s ≡ settle (r, u)
    unfolding wait_until_accepted
    completes x = rw (
        observe_until-eq_of_Observed rt is_accepted (λ _. false) options
          (accept_once retry_if request) L x)

    pub wait_until_accepted-eq_of_Settled :
        {s u : W} {r : Result ProviderError R}
        → Settled s r u
        → wait_until_accepted rt retry_if o request s ≡ (r, u)
    wait_until_accepted-eq_of_Settled (agreed p b a) =
        completes (in_time (Polled-Rejections p) b (once_agreed a) refl)
    wait_until_accepted-eq_of_Settled (refused p b a h) =
        completes (rejected (Polled-Rejections p) b (once_refused a h) refl)
    wait_until_accepted-eq_of_Settled (worn_out p b a h) =
        completes (never_ready (Polled-Rejections p) b (once_rejected a h) refl)

    -- Over a runtime that repeats as documented, `waitUntilAccepted` returns a result and a world
    -- exactly when its requests end so (`Settled`): with the result of the first accepted request,
    -- the error of the first request that may not be repeated, or, when the budget is used, the
    -- error of the last request.
    pub wait_until_accepted-iff_Settled :
        (s u : W) (r : Result ProviderError R)
        → (wait_until_accepted rt retry_if o request s ≡ (r, u)) ↔ Settled s r u
    wait_until_accepted-iff_Settled s u r = (
      λ e. subst (λ y. Settled s y.0 y.1) e (wait_until_accepted-Settled s),
      λ x. wait_until_accepted-eq_of_Settled x,
    )
