-- ===== src/Ack/Task/Reads.antt =====
-- The reads of the wait of src/ack/task.ts, from the descriptions of the task.
use alchemy_alibaba.Prelude.{
  ℕ, suc, ◌<◌, ◌≡◌, refl, sym, ◌∙◌, subst, String, true, false, ◌||◌, Option, none, some, inl, inr,
  Bool-cases, eq_iff, str_eq,
}
use alchemy_alibaba.Effect.{ok, fail, Result, Effect, ok_injective, fail_injective}
use alchemy_alibaba.Effect.Chain.{◌>>=◌}
use alchemy_alibaba.Errors.{Failure}
use alchemy_alibaba.Errors.Classify.{is_retryable_observation}
use alchemy_alibaba.Lifecycle.Observe.{Wait, with_defaults, budget}
use alchemy_alibaba.Lifecycle.Observe.Laws.{Polls, Unusable}
use alchemy_alibaba.Provider.{Context}
use alchemy_alibaba.Ack.Task.{
  SdkTask, AckClients, TaskWait, has_failed, has_succeeded, task_error, describe_task, read_task,
  task_label,
}

module _ {W : Type 0} (c : Context (AckClients W) W) (lower : String → String) (o : TaskWait)
    (task_id : String) where
  abbrev pub options : Wait
  options = with_defaults (task_label c o).wait

  -- `n` reads of the task that neither saw it ended nor failed for good, each followed by a pause.
  pub data Running : W → ℕ → W → Type 0 where
    none_yet : {s : W} → Running s 0 s
    not_ended :
        {s t u : W} {task : Option SdkTask} {n : ℕ}
        → describe_task c task_id s ≡ (ok task, t)
        → has_failed lower task ≡ false
        → has_succeeded lower task ≡ false
        → Running (c.runtime.sleep options.interval t) n u
        → Running s (suc n) u
    unreadable :
        {s t u : W} {e : Failure} {n : ℕ}
        → describe_task c task_id s ≡ (fail e, t)
        → is_retryable_observation e ≡ true
        → Running (c.runtime.sleep options.interval t) n u
        → Running s (suc n) u

  -- Fewer such reads than the budget, then one that sees the task succeed.
  pub record Succeeded (s u : W) : Type 0 where
    pub reads : ℕ
    pub at : W
    pub task : SdkTask
    pub running : Running s reads at
    pub in_budget : reads < budget options
    pub described : describe_task c task_id at ≡ (ok (some task), u)
    pub succeeded : has_succeeded lower (some task) ≡ true

  abbrev pub read : Effect W Failure (Option SdkTask)
  read = read_task c lower o.operation task_id

  pub not_both :
      (task : Option SdkTask) → has_succeeded lower task ≡ true → has_failed lower task ≡ false
  unfolding has_succeeded has_failed
  not_both none h = refl
  not_both (some task) h = not_both_state task.state h
    where
      not_both_state :
          (state : Option String)
          → elim state [ none ↦ false | some s ↦ str_eq (lower s) "success" ] ≡ true
          → elim state [
            | none ↦ false
            | some s ↦
                str_eq (lower s) "fail" || str_eq (lower s) "failed" || str_eq (lower s) "error"
          ]
            ≡ false
      not_both_state none h = refl
      not_both_state (some s) h = rw ((eq_iff (lower s) "success").0 h) refl

  pub read_sees :
      (s : W) {t : W} {task : Option SdkTask}
      → describe_task c task_id s ≡ (ok task, t)
      → has_failed lower task ≡ false
      → read s ≡ (ok task, t)
  unfolding read_task ◌>>=◌
  read_sees s e h = rw e (rw h refl)

  pub read_fails :
      (s : W) {t : W} {e : Failure} → describe_task c task_id s ≡ (fail e, t) → read s ≡ (fail e, t)
  unfolding read_task ◌>>=◌
  read_fails s e = rw e refl

  pub task_error_final :
      (task : Option SdkTask)
      → is_retryable_observation (task_error o.operation task_id task) ≡ false
  unfolding is_retryable_observation task_error
  task_error_final task = refl

  -- A read of a task that has failed.
  pub read_failed :
      (s : W) {t : W} {task : Option SdkTask}
      → describe_task c task_id s ≡ (ok task, t)
      → has_failed lower task ≡ true
      → read s ≡ (fail (task_error o.operation task_id task), t)
  unfolding read_task ◌>>=◌
  read_failed s e h = rw e (rw h refl)

  pub seen_of_read :
      (s : W) {t : W} {task : Option SdkTask}
      → read s ≡ (ok task, t)
      → (describe_task c task_id s ≡ (ok task, t)) × (has_failed lower task ≡ false)
  seen_of_read s {t} {task} h = of_describe (describe_task c task_id s) refl
    where
      of_describe :
          (x : Result Failure (Option SdkTask) × W)
          → describe_task c task_id s ≡ x
          → (describe_task c task_id s ≡ (ok task, t)) × (has_failed lower task ≡ false)
      of_describe (fail e, u) d = let f = read_fails s d in cc
      of_describe (ok seen, u) d = elim (Bool-cases (has_failed lower seen)) [
        | inl y ↦ let f = read_failed s d y in cc
        | inr n ↦
            let f = read_sees s d n in
            let same = ok_injective (sym f ∙ h) in
            (d ∙ (λ j. (ok (same.0 j), same.1 j)), subst (λ z. has_failed lower z ≡ false) same.0 n)
      ]

  pub fails_of_read :
      (s : W) {t : W} {e : Failure}
      → read s ≡ (fail e, t)
      → is_retryable_observation e ≡ true
      → describe_task c task_id s ≡ (fail e, t)
  fails_of_read s {t} {e} h retryable = of_describe (describe_task c task_id s) refl
    where
      of_describe :
          (x : Result Failure (Option SdkTask) × W)
          → describe_task c task_id s ≡ x
          → describe_task c task_id s ≡ (fail e, t)
      of_describe (fail f, u) d = d ∙ (sym (read_fails s d) ∙ h)
      of_describe (ok seen, u) d = elim (Bool-cases (has_failed lower seen)) [
        | inl y ↦
            let same = fail_injective (sym (read_failed s d y) ∙ h) in
            let final =
              subst (λ z. is_retryable_observation z ≡ false) same.0 (task_error_final seen) in
            cc
        | inr n ↦ let f = read_sees s d n in cc
      ]

  pub Running-Polls :
      {s t : W} {n : ℕ}
      → Running s n t
      → Polls c.runtime (has_succeeded lower) is_retryable_observation options read s n t
  Running-Polls none_yet = Polls.none_yet
  Running-Polls (not_ended e h p more) =
      Polls.one_more (Unusable.not_ready (read_sees _ e h) p) (Running-Polls more)
  Running-Polls (unreadable e h more) =
      Polls.one_more (Unusable.repeatable (read_fails _ e) h) (Running-Polls more)

  pub Polls-Running :
      {s t : W} {n : ℕ}
      → Polls c.runtime (has_succeeded lower) is_retryable_observation options read s n t
      → Running s n t
  Polls-Running Polls.none_yet = none_yet
  Polls-Running {s} (Polls.one_more (Unusable.not_ready e p) more) =
      let (d, h) = seen_of_read s e in not_ended d h p (Polls-Running more)
  Polls-Running {s} (Polls.one_more (Unusable.repeatable e h) more) =
      unreadable (fails_of_read s e h) h (Polls-Running more)
