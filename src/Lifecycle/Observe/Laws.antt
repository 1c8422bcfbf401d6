-- ===== src/Lifecycle/Observe/Laws.antt =====
-- What a bounded observation returns, from the sequence of its reads.
use alchemy_alibaba.Prelude.{
  ℕ, suc, ◌-◌, ◌≤◌, ◌<◌, ◌≡◌, refl, sym, ◌∙◌, ap, Bool, true, false, arith, Bool-cases, inl, inr,
  ◌⊎◌, subst, ◌↔◌,
}
use alchemy_alibaba.Effect.{Result, ok, fail, Effect, continue, Runtime, IsRuntime, ok_injective}
use alchemy_alibaba.Effect.Repeat.{
  Passes, Outcome, Ends, passed, failed as failing, repeat_cases, repeat-eq_of_Outcome,
  spent_of_unended, spent-le,
}
use alchemy_alibaba.Lifecycle.Observe.{
  Wait, Observation, pending, ready, failed, WaitResult, completed, exhausted, budget, is_ready,
  observe_once, conclude, observe_until,
}

module _ {W : Type 0} (rt : Runtime W) {V E : Type 0} (test : V → Bool) (retry_read : E → Bool)
    (w : Wait) (read : Effect W E V) where
  abbrev once : Effect W E (Observation V E)
  once = observe_once test retry_read read

  -- A read that does not end the loop: its value is not ready, or its error may be repeated.
  pub data Unusable (s : W) : Observation V E → W → Type 0 where
    not_ready : {v : V} {t : W} → read s ≡ (ok v, t) → test v ≡ false → Unusable s (pending v) t
    repeatable :
        {e : E} {t : W} → read s ≡ (fail e, t) → retry_read e ≡ true → Unusable s (failed e) t

  -- `n` unusable reads, each followed by a pause, lead from one world to another.
  pub data Polls : W → ℕ → W → Type 0 where
    none_yet : {s : W} → Polls s 0 s
    one_more :
        {s t u : W} {o : Observation V E} {n : ℕ}
        → Unusable s o t
        → Polls (rt.sleep w.interval t) n u
        → Polls s (suc n) u

  once-Unusable :
      {s t : W} {o : Observation V E} → Unusable s o t → (once s ≡ (ok o, t)) × (is_ready o ≡ false)
  once-Unusable (not_ready e h) = (rw (e, h), refl)
  once-Unusable (repeatable e h) = (rw (e, h), refl)

  -- What the sequence of reads from `s` says that a bounded observation returns: the first ready
  -- value and the first error that may not be repeated end it at once; when the budget is used,
  -- the last read decides between an exhausted wait and its own error.
  pub data Observed (s : W) : Result E (WaitResult V) → W → Type 0 where
    in_time :
        {n : ℕ} {t u : W} {v : V}
        → Polls s n t
        → n < budget w
        → read t ≡ (ok v, u)
        → test v ≡ true
        → Observed s (ok (completed v (budget w) w.interval)) u
    rejected :
        {n : ℕ} {t u : W} {e : E}
        → Polls s n t
        → n < budget w
        → read t ≡ (fail e, u)
        → retry_read e ≡ false
        → Observed s (fail e) u
    never_ready :
        {n : ℕ} {t u : W} {v : V}
        → Polls s n t
        → suc n ≡ budget w
        → read t ≡ (ok v, u)
        → test v ≡ false
        → Observed s (ok (exhausted v (budget w) w.interval)) u
    unreadable :
        {n : ℕ} {t u : W} {e : E}
        → Polls s n t
        → suc n ≡ budget w
        → read t ≡ (fail e, u)
        → retry_read e ≡ true
        → Observed s (fail e) u

  Passes-Polls : {s t : W} {n : ℕ} → Polls s n t → Passes rt w.interval is_ready once s n t
  Passes-Polls none_yet = Passes.none_yet
  Passes-Polls (one_more h rest) =
      Passes.one_more (once-Unusable h).0 (once-Unusable h).1 (Passes-Polls rest)

  -- A value that `observe_once` classifies as not ready comes from an unusable read.
  Unusable-once :
      {s t : W} {o : Observation V E} (x : Result E V × W)
      → read s ≡ x
      → once s ≡ (ok o, t)
      → is_ready o ≡ false
      → Unusable s o t
  Unusable-once {s} {t} (ok v, u) r h n = elim (Bool-cases (test v)) [
    | inl yes_ ↦ cc (rw (r, yes_) at h, n)
    | inr no_ ↦
        let (a, b) = ok_injective (rw (r, no_) at h) in
        subst (λ o. Unusable s o t) a (subst (λ t. Unusable s (pending v) t) b (not_ready r no_))
  ]
  Unusable-once {s} {t} (fail e, u) r h n = elim (Bool-cases (retry_read e)) [
    | inl yes_ ↦
        let (a, b) = ok_injective (rw (r, yes_) at h) in
        subst (λ o. Unusable s o t) a (subst (λ t. Unusable s (failed e) t) b (repeatable r yes_))
    | inr no_ ↦ cc (rw (r, no_) at h)
  ]

  Polls-Passes : {s t : W} {n : ℕ} → Passes rt w.interval is_ready once s n t → Polls s n t
  Polls-Passes Passes.none_yet = none_yet
  Polls-Passes (Passes.one_more {s = s} h n rest) =
      one_more (Unusable-once (read s) refl h n) (Polls-Passes rest)

  -- The last read, and what is concluded from it.
  last-Observed :
      {s t : W} {n : ℕ} (x : Result E V × W)
      → read t ≡ x
      → Polls s n t
      → n < budget w
      → ((o : Observation V E) → (once t).0 ≡ ok o → is_ready o ≡ false → suc n ≡ budget w)
      → let y = continue (conclude w) (once t) in Observed s y.0 y.1
  last-Observed (ok v, u) r p b stop = elim (Bool-cases (test v)) [
    | inl yes_ ↦ rw (r, yes_) (in_time p b r yes_)
    | inr no_ ↦ rw (r, no_) (never_ready p (stop (pending v) (rw (r, no_)) refl) r no_)
  ]
  last-Observed (fail e, u) r p b stop = elim (Bool-cases (retry_read e)) [
    | inl yes_ ↦ rw (r, yes_) (unreadable p (stop (failed e) (rw (r, yes_)) refl) r yes_)
    | inr no_ ↦ rw (r, no_) (rejected p b r no_)
  ]

  module _ (L : IsRuntime rt) where
    pub observe_until-Observed :
        (s : W) → let y = observe_until rt test retry_read w read s in Observed s y.0 y.1
    unfolding observe_until
    observe_until-Observed s =
        let (r, u, o) = repeat_cases rt w.interval is_ready once (budget w - 1) s in
        rw (repeat-eq_of_Outcome rt w.interval is_ready once L o ∙ sym o.last) (
          last-Observed (read o.at) refl (Polls-Passes o.passes)
            (omega (arith, spent-le rt w.interval is_ready once o))
            (λ x e h. omega (
              arith,
              spent_of_unended rt w.interval is_ready once o
                  (sym (ap (λ (p : Result E (Observation V E) × W). p.0) o.last) ∙ e) h,
            )))

    conclude-Outcome :
        {s t : W} {n : ℕ} (r : Result E (Observation V E)) (u : W)
        → Polls s n t
        → once t ≡ (r, u)
        → (Ends is_ready r × (n ≤ budget w - 1)) ⊎ (n ≡ budget w - 1)
        → observe_until rt test retry_read w read s ≡ continue (conclude w) (r, u)
    unfolding observe_until
    conclude-Outcome {t = t} {n = n} r u p e stop =
        let o : Outcome rt w.interval is_ready once (budget w - 1) _ _ _ = record {
          spent = n;
          at = t;
          passes = Passes-Polls p;
          last = e;
          stop = stop;
        } in
        rw (repeat-eq_of_Outcome rt w.interval is_ready once L o)

    pub observe_until-eq_of_Observed :
        {s u : W} {r : Result E (WaitResult V)}
        → Observed s r u
        → observe_until rt test retry_read w read s ≡ (r, u)
    observe_until-eq_of_Observed (in_time {u = u} {v = v} p b r h) =
        conclude-Outcome (ok (ready v)) u p (rw (r, h)) (inl (passed refl, omega arith))
    observe_until-eq_of_Observed (rejected {u = u} {e = e} p b r h) =
        conclude-Outcome (fail e) u p (rw (r, h)) (inl (failing, omega arith))
    observe_until-eq_of_Observed (never_ready {u = u} {v = v} p b r h) =
        conclude-Outcome (ok (pending v)) u p (rw (r, h)) (inr (omega arith))
    observe_until-eq_of_Observed (unreadable {u = u} {e = e} p b r h) =
        conclude-Outcome (ok (failed e)) u p (rw (r, h)) (inr (omega arith))

    -- Over a runtime that repeats as documented, `observeUntil` returns a result and a world exactly
    -- when the sequence of its reads says so (`Observed`): the first ready value within the budget,
    -- the first error that may not be repeated, or, after unusable reads up to the budget, an
    -- exhausted wait or the error of the last read.
    pub observe_until-iff_Observed :
        (s u : W) (r : Result E (WaitResult V))
        → (observe_until rt test retry_read w read s ≡ (r, u)) ↔ Observed s r u
    observe_until-iff_Observed s u r = (
      λ e. subst (λ y. Observed s y.0 y.1) e (observe_until-Observed s),
      λ o. observe_until-eq_of_Observed o,
    )
