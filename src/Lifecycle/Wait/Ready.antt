-- ===== src/Lifecycle/Wait/Ready.antt =====
-- When the waits return, and with what.
use alchemy_alibaba.Prelude.{ℕ, suc, ◌<◌, ◌≡◌, ◌↔◌, sym, subst, Bool, true, false}
use alchemy_alibaba.Effect.{
  Result, ok, fail, Effect, continue, Runtime, IsRuntime, ok_injective, fail_injective,
}
use alchemy_alibaba.Errors.{Failure}
use alchemy_alibaba.Errors.Classify.{is_retryable_observation}
use alchemy_alibaba.Lifecycle.Observe.{Wait, with_defaults, WaitResult, budget}
use alchemy_alibaba.Lifecycle.Observe.Laws.{
  Polls, Observed, in_time, rejected, never_ready, unreadable, observe_until-Observed,
  observe_until-eq_of_Observed,
}
use alchemy_alibaba.Lifecycle.Wait.{WaitLabel, finish_wait, timeout_error, wait_for}

module _ {W : Type 0} (rt : Runtime W) {V : Type 0} (o : WaitLabel V) (test : V → Bool)
    (read : Effect W Failure V) where
  abbrev options : Wait
  options = with_defaults o.wait

  abbrev Waited : W → ℕ → W → Type 0
  Waited = Polls rt test is_retryable_observation options read

  -- Fewer unusable reads than the budget, then a read whose value is ready.
  pub record Seen (s : W) (v : V) (u : W) : Type 0 where
    pub reads : ℕ
    pub at : W
    pub polls : Waited s reads at
    pub in_budget : reads < budget options
    pub found : read at ≡ (ok v, u)
    pub is_ready : test v ≡ true

  Seen-Observed :
      {s t u : W} {r : Result Failure (WaitResult V)} {v : V}
      → Observed rt test is_retryable_observation options read s r t
      → continue (finish_wait o) (r, t) ≡ (ok v, u)
      → Seen s v u
  Seen-Observed {s} {u = u} (in_time {n} {t} {v = x} p b r h) e =
      let (a, c) = ok_injective e in
      let seen : Seen s x _ = record {
        reads = n;
        at = t;
        polls = p;
        in_budget = b;
        found = r;
        is_ready = h;
      } in
      subst (λ z. Seen s z u) a (subst (λ z. Seen s x z) c seen)
  Seen-Observed (rejected p b r h) e = cc
  Seen-Observed (never_ready p b r h) e = cc
  Seen-Observed (unreadable p b r h) e = cc

  -- Why a wait fails, and with what error.
  pub data Stuck (s : W) (e : Failure) (u : W) : Type 0 where
    refused :
        {n : ℕ} {t : W}
        → Waited s n t
        → n < budget options
        → read t ≡ (fail e, u)
        → is_retryable_observation e ≡ false
        → Stuck s e u
    unreadable_end :
        {n : ℕ} {t : W}
        → Waited s n t
        → suc n ≡ budget options
        → read t ≡ (fail e, u)
        → is_retryable_observation e ≡ true
        → Stuck s e u
    timed_out :
        {n : ℕ} {t : W} {v : V}
        → Waited s n t
        → suc n ≡ budget options
        → read t ≡ (ok v, u)
        → test v ≡ false
        → e ≡ timeout_error o (λ _. "not-ready") v (budget options) options.interval
        → Stuck s e u

  Stuck-Observed :
      {s t u : W} {r : Result Failure (WaitResult V)} {e : Failure}
      → Observed rt test is_retryable_observation options read s r t
      → continue (finish_wait o) (r, t) ≡ (fail e, u)
      → Stuck s e u
  Stuck-Observed (in_time p b r h) x = cc
  Stuck-Observed {s} {u = u} (rejected {e = f} p b r h) x =
      let (a, c) = fail_injective x in
      subst (λ z. Stuck s z u) a (subst (λ z. Stuck s f z) c (refused p b r h))
  Stuck-Observed {s} {u = u} (unreadable {e = f} p b r h) x =
      let (a, c) = fail_injective x in
      subst (λ z. Stuck s z u) a (subst (λ z. Stuck s f z) c (unreadable_end p b r h))
  Stuck-Observed {s} {u = u} {e = e} (never_ready p b r h) x =
      let (a, c) = fail_injective x in subst (λ z. Stuck s e z) c (timed_out p b r h (sym a))

  module _ (L : IsRuntime rt) where
    -- Over a runtime that repeats as documented, `waitFor` returns a value exactly when some read within the budget sees it ready and every
    -- read before that one was unusable: not ready, or failed in a way that may be repeated.
    pub wait_for-iff_Seen :
        (s : W) (v : V) (u : W) → (wait_for rt o test read s ≡ (ok v, u)) ↔ Seen s v u
    unfolding wait_for
    wait_for-iff_Seen s v u = (
      λ e.
          Seen-Observed (observe_until-Observed rt test is_retryable_observation options read L s)
            e,
      λ seen. rw (
          observe_until-eq_of_Observed rt test is_retryable_observation options read L
            (in_time seen.polls seen.in_budget seen.found seen.is_ready)),
    )

    -- Over a runtime that repeats as documented, `waitFor` fails exactly when a read within the budget is refused for good, or when the last
    -- read of the budget fails or sees a value that is not ready. The first two surface the error
    -- of that read; the third is a timeout that reports the budget and the interval.
    pub wait_for-iff_Stuck :
        (s : W) (e : Failure) (u : W) → (wait_for rt o test read s ≡ (fail e, u)) ↔ Stuck s e u
    unfolding wait_for
    wait_for-iff_Stuck s e u = (
      λ h.
          Stuck-Observed (observe_until-Observed rt test is_retryable_observation options read L s)
            h,
      λ stuck. elim stuck [
        | refused p b r h ↦ rw (
            observe_until-eq_of_Observed rt test is_retryable_observation options read L
              (rejected p b r h))
        | unreadable_end p b r h ↦ rw (
            observe_until-eq_of_Observed rt test is_retryable_observation options read L
              (unreadable p b r h))
        | timed_out p b r h x ↦
            rw
              (observe_until-eq_of_Observed rt test is_retryable_observation options read L
                (never_ready p b r h))
              (rw x)
      ],
    )
