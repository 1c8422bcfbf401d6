-- ===== src/Lifecycle/Wait/Presence.antt =====
-- `waitForPresent` returns only what a read saw, and `waitForAbsent` only after a read saw nothing.
use alchemy_alibaba.Prelude.{ℕ, ◌<◌, ◌≡◌, ◌↔◌, refl, subst, Bool, true, Option, none, some}
use alchemy_alibaba.Effect.{
  Result, ok, fail, Effect, succeed, continue, Runtime, IsRuntime, ok_injective,
}
use alchemy_alibaba.Errors.{Failure}
use alchemy_alibaba.Errors.Classify.{is_retryable_observation}
use alchemy_alibaba.Lifecycle.Observe.{Wait, with_defaults, WaitResult, budget}
use alchemy_alibaba.Lifecycle.Observe.Laws.{
  Polls, Observed, in_time, rejected, never_ready, unreadable, observe_until-Observed,
  observe_until-eq_of_Observed,
}
use alchemy_alibaba.Lifecycle.Wait.{
  WaitLabel, wait_for, wait_for_present, wait_for_absent, present_and, presence_now, is_absent,
  finish_present,
}
use alchemy_alibaba.Lifecycle.Wait.Ready.{wait_for-iff_Seen}

module _ {W : Type 0} (rt : Runtime W) {V : Type 0} (o : WaitLabel (Option V))
    (read : Effect W Failure (Option V)) where
  abbrev options : Wait
  options = with_defaults o.wait

  -- Fewer unusable reads than the budget, then a read that sees a value which passes the test.
  pub record Present (test : V → Bool) (s : W) (v : V) (u : W) : Type 0 where
    pub reads : ℕ
    pub at : W
    pub polls : Polls rt (present_and test) is_retryable_observation options read s reads at
    pub in_budget : reads < budget options
    pub found : read at ≡ (ok (some v), u)
    pub is_ready : test v ≡ true

  -- Fewer unusable reads than the budget, then a read that sees nothing.
  pub record Gone (s : W) (u : W) : Type 0 where
    pub reads : ℕ
    pub at : W
    pub polls : Polls rt is_absent is_retryable_observation options read s reads at
    pub in_budget : reads < budget options
    pub found : read at ≡ (ok none, u)

  Present-Observed :
      (test : V → Bool) {s t u : W} {r : Result Failure (WaitResult (Option V))} {v : V}
      → Observed rt (present_and test) is_retryable_observation options read s r t
      → continue (finish_present o) (r, t) ≡ (ok v, u)
      → Present test s v u
  Present-Observed test {s} {u = u} (in_time {n} {t} {v = some x} p b r h) e =
      let (a, c) = ok_injective e in
      let seen : Present test s x _ = record {
        reads = n;
        at = t;
        polls = p;
        in_budget = b;
        found = r;
        is_ready = h;
      } in
      subst (λ z. Present test s z u) a (subst (λ z. Present test s x z) c seen)
  Present-Observed test (in_time {v = none} p b r h) e = cc
  Present-Observed test (rejected p b r h) e = cc
  Present-Observed test (never_ready p b r h) e = cc
  Present-Observed test (unreadable p b r h) e = cc

  present_none : (v : Option V) → is_absent v ≡ true → v ≡ none
  present_none none h = refl
  present_none (some v) h = cc

  abbrev absent_label : WaitLabel (Option V)
  absent_label = record o { describe = some presence_now }

  finish_absent :
      (s : W) {u : W} (x : Result Failure (Option V) × W)
      → wait_for rt absent_label is_absent read s ≡ x
      → continue (λ _. succeed tt) x ≡ (ok tt, u)
      → (v : Option V) × (wait_for rt absent_label is_absent read s ≡ (ok v, u))
  finish_absent s (ok v, t) h e =
      let (_, c) = ok_injective e in
      (v, subst (λ z. wait_for rt absent_label is_absent read s ≡ (ok v, z)) c h)
  finish_absent s (fail e, t) h x = cc

  module _ (L : IsRuntime rt) where
    -- Over a runtime that repeats as documented, `waitForPresent` returns a value exactly when a read within the budget sees that value and
    -- it passes the test, after reads that saw nothing, saw a value that fails the test, or failed
    -- in a way that may be repeated.
    pub wait_for_present-iff_Present :
        (test : V → Bool) (s : W) (v : V) (u : W)
        → (wait_for_present rt o test read s ≡ (ok v, u)) ↔ Present test s v u
    unfolding wait_for_present
    wait_for_present-iff_Present test s v u = (
      λ e.
          Present-Observed test
            (observe_until-Observed rt (present_and test) is_retryable_observation options read L s)
            e,
      λ p. rw (
          observe_until-eq_of_Observed rt (present_and test) is_retryable_observation options read L
            (in_time p.polls p.in_budget p.found p.is_ready)),
    )

    -- Over a runtime that repeats as documented, `waitForAbsent` succeeds exactly when a read within the budget sees nothing, after reads that
    -- saw the resource or failed in a way that may be repeated: a failed read is never absence.
    pub wait_for_absent-iff_Gone : (s u : W) → (wait_for_absent rt o read s ≡ (ok tt, u)) ↔ Gone s u
    unfolding wait_for_absent
    wait_for_absent-iff_Gone s u = (
      λ e.
          let (v, h) = finish_absent s (wait_for rt absent_label is_absent read s) refl e in
          let seen = (wait_for-iff_Seen rt absent_label is_absent read L s v u).0 h in
          record {
            reads = seen.reads;
            at = seen.at;
            polls = seen.polls;
            in_budget = seen.in_budget;
            found = rw (← present_none v seen.is_ready) seen.found;
          },
      λ g. rw (
          (wait_for-iff_Seen rt absent_label is_absent read L s none u).1 (record {
            reads = g.reads;
            at = g.at;
            polls = g.polls;
            in_budget = g.in_budget;
            found = g.found;
            is_ready = refl;
          })),
    )
