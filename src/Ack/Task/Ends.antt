-- ===== src/Ack/Task/Ends.antt =====
-- When the wait of src/ack/task.ts ends, and how.
use alchemy_alibaba.Prelude.{
  ℕ, suc, ◌<◌, ◌≡◌, ◌↔◌, refl, sym, ◌∙◌, subst, String, true, false, Option, none, some, ◌⊎◌, inl,
  inr, Bool-cases,
}
use alchemy_alibaba.Effect.{
  ok, fail, Result, Effect, succeed, continue, IsRuntime, ok_injective, fail_injective,
}
use alchemy_alibaba.Effect.Chain.{◌>>=◌, chain-steps}
use alchemy_alibaba.Errors.{Failure}
use alchemy_alibaba.Errors.Classify.{is_retryable_observation}
use alchemy_alibaba.Lifecycle.Observe.{Wait, with_defaults, budget}
use alchemy_alibaba.Lifecycle.Wait.{wait_for, timeout_error}
use alchemy_alibaba.Lifecycle.Wait.Ready.{Seen, Stuck, wait_for-iff_Seen, wait_for-iff_Stuck}
use alchemy_alibaba.Provider.{Context}
use alchemy_alibaba.Ack.Task.{
  SdkTask, AckClients, TaskWait, has_failed, has_succeeded, task_error, describe_task, read_task,
  task_label, wait_for_known, wait_for_task,
}
use alchemy_alibaba.Ack.Task.Reads.{
  read_sees, read_fails, read_failed, seen_of_read, fails_of_read, Running-Polls, Polls-Running,
  not_both, task_error_final, Running, Succeeded,
}

module _ {W : Type 0} (c : Context (AckClients W) W) (lower : String → String) (o : TaskWait)
    (task_id : String) where
  abbrev options : Wait
  options = with_defaults (task_label c o).wait

  abbrev read : Effect W Failure (Option SdkTask)
  read = read_task c lower o.operation task_id

  none_succeeds : has_succeeded lower none ≡ true → ⊥
  unfolding has_succeeded
  none_succeeds h = cc

  Succeeded-Seen :
      {s u : W} {task : Option SdkTask}
      → Seen c.runtime (task_label c o) (has_succeeded lower) read s task u
      → Succeeded c lower o task_id s u
  Succeeded-Seen {task = none} seen = let h = seen.is_ready in absurd (none_succeeds h)
  Succeeded-Seen {task = some task} seen = record {
    reads = seen.reads;
    at = seen.at;
    task = task;
    running = Polls-Running c lower o task_id seen.polls;
    in_budget = seen.in_budget;
    described = (seen_of_read c lower o task_id seen.at seen.found).0;
    succeeded = seen.is_ready;
  }

  Seen-Succeeded :
      {s u : W} (done : Succeeded c lower o task_id s u)
      → Seen c.runtime (task_label c o) (has_succeeded lower) read s (some done.task) u
  Seen-Succeeded done = record {
    reads = done.reads;
    at = done.at;
    polls = Running-Polls c lower o task_id done.running;
    in_budget = done.in_budget;
    found =
        read_sees c lower o task_id done.at done.described
          (not_both c lower o task_id (some done.task) done.succeeded);
    is_ready = done.succeeded;
  }

  -- The ways in which the wait fails.
  pub data Broken (s : W) (e : Failure) (u : W) : Type 0 where
    task_failed :
        {n : ℕ} {t : W} {task : Option SdkTask}
        → Running c lower o task_id s n t
        → n < budget options
        → describe_task c task_id t ≡ (ok task, u)
        → has_failed lower task ≡ true
        → e ≡ task_error o.operation task_id task
        → Broken s e u
    refused :
        {n : ℕ} {t : W}
        → Running c lower o task_id s n t
        → n < budget options
        → describe_task c task_id t ≡ (fail e, u)
        → is_retryable_observation e ≡ false
        → Broken s e u
    unreadable_end :
        {n : ℕ} {t : W}
        → Running c lower o task_id s n t
        → suc n ≡ budget options
        → describe_task c task_id t ≡ (fail e, u)
        → is_retryable_observation e ≡ true
        → Broken s e u
    timed_out :
        {n : ℕ} {t : W} {task : Option SdkTask}
        → Running c lower o task_id s n t
        → suc n ≡ budget options
        → describe_task c task_id t ≡ (ok task, u)
        → has_failed lower task ≡ false
        → has_succeeded lower task ≡ false
        → e
          ≡ timeout_error (task_label c o) (λ _. "not-ready") task (budget options) options.interval
        → Broken s e u

  -- A read fails for good because the task has failed, or because its description does.
  refused_cases :
      (s : W) {t : W} {e : Failure}
      → read s ≡ (fail e, t)
      → (describe_task c task_id s ≡ (fail e, t))
        ⊎ ((task : Option SdkTask) × (describe_task c task_id s ≡ (ok task, t))
            × (has_failed lower task ≡ true)
            × (e ≡ task_error o.operation task_id task))
  refused_cases s {t} {e} h = of_describe (describe_task c task_id s) refl
    where
      of_describe :
          (x : Result Failure (Option SdkTask) × W)
          → describe_task c task_id s ≡ x
          → (describe_task c task_id s ≡ (fail e, t))
            ⊎ ((task : Option SdkTask) × (describe_task c task_id s ≡ (ok task, t))
                × (has_failed lower task ≡ true)
                × (e ≡ task_error o.operation task_id task))
      of_describe (fail f, u) d = inl (d ∙ (sym (read_fails c lower o task_id s d) ∙ h))
      of_describe (ok seen, u) d = elim (Bool-cases (has_failed lower seen)) [
        | inl y ↦
            let same = fail_injective (sym (read_failed c lower o task_id s d y) ∙ h) in
            inr (seen, d ∙ (λ j. (ok seen, same.1 j)), y, sym same.0)
        | inr n ↦ let f = read_sees c lower o task_id s d n in cc
      ]

  Broken-Stuck :
      {s u : W} {e : Failure}
      → Stuck c.runtime (task_label c o) (has_succeeded lower) read s e u
      → Broken s e u
  Broken-Stuck (Stuck.refused {t = t} p b r h) = elim (refused_cases t r) [
    | inl d ↦ refused (Polls-Running c lower o task_id p) b d h
    | inr (task, d, y, x) ↦ task_failed (Polls-Running c lower o task_id p) b d y x
  ]
  Broken-Stuck (Stuck.unreadable_end {t = t} p b r h) =
      unreadable_end (Polls-Running c lower o task_id p) b (fails_of_read c lower o task_id t r h) h
  Broken-Stuck (Stuck.timed_out {t = t} p b r h x) =
      let (d, n) = seen_of_read c lower o task_id t r in
      timed_out (Polls-Running c lower o task_id p) b d n h x

  Stuck-Broken :
      {s u : W} {e : Failure}
      → Broken s e u
      → Stuck c.runtime (task_label c o) (has_succeeded lower) read s e u
  Stuck-Broken {s} {u} (task_failed {t = t} {task} p b d y x) =
      subst (λ z. Stuck c.runtime (task_label c o) (has_succeeded lower) read s z u) (sym x)
        (Stuck.refused (Running-Polls c lower o task_id p) b (read_failed c lower o task_id t d y)
          (task_error_final c lower o task_id task))
  Stuck-Broken (refused {t = t} p b d h) =
      Stuck.refused (Running-Polls c lower o task_id p) b (read_fails c lower o task_id t d) h
  Stuck-Broken (unreadable_end {t = t} p b d h) =
      Stuck.unreadable_end (Running-Polls c lower o task_id p) b (read_fails c lower o task_id t d)
        h
  Stuck-Broken (timed_out {t = t} p b d n h x) =
      Stuck.timed_out (Running-Polls c lower o task_id p) b (read_sees c lower o task_id t d n) h x

  abbrev waiting : Effect W Failure (Option SdkTask)
  waiting = wait_for c.runtime (task_label c o) (has_succeeded lower) read

  dropped_fails :
      (x : Result Failure (Option SdkTask) × W) {e : Failure} {u : W}
      → continue (λ _. succeed {A = Unit {0}} tt) x ≡ (fail e, u)
      → x ≡ (fail e, u)
  dropped_fails (ok task, t) h = cc
  dropped_fails (fail e, t) h = let (p, q) = fail_injective h in λ j. (fail (p j), q j)

  module _ (L : IsRuntime c.runtime) (known : o.task_id ≡ some task_id) where
    wait_for_task-known : (s : W) → wait_for_task c lower o s ≡ wait_for_known c lower o task_id s
    unfolding wait_for_task
    wait_for_task-known s = rw known refl

    known-Succeeded :
        (s u : W)
        → wait_for_known c lower o task_id s ≡ (ok tt, u)
        → Succeeded c lower o task_id s u
    unfolding wait_for_known
    known-Succeeded s u h =
        let (task, t, after, first) = chain-steps waiting _ s h in
        let seen =
          (wait_for-iff_Seen c.runtime (task_label c o) (has_succeeded lower) read L s task t).0
            first in
        subst (Succeeded c lower o task_id s) (ok_injective after).1 (Succeeded-Seen seen)

    -- Over a runtime that repeats as documented, the wait for a task with an id succeeds exactly
    -- when one of its reads, within twice the usual budget unless the options set another, sees
    -- the task in the state of success, and every read before it saw the task in no final state or
    -- failed in a way that may be repeated: such a task always ends the wait, at this read.
    pub wait_for_task-iff_Succeeded :
        (s u : W) → (wait_for_task c lower o s ≡ (ok tt, u)) ↔ Succeeded c lower o task_id s u
    unfolding wait_for_known ◌>>=◌
    wait_for_task-iff_Succeeded s u = (
      λ h. known-Succeeded s u (sym (wait_for_task-known s) ∙ h),
      λ done.
          wait_for_task-known s
          ∙ rw
              ((wait_for-iff_Seen c.runtime (task_label c o) (has_succeeded lower) read L s
                  (some done.task) u).1
                (Seen-Succeeded done))
              refl,
    )

    -- Over a runtime that repeats as documented, the wait for a task with an id fails exactly when,
    -- after reads that neither saw the task end nor failed for good, a read within the budget sees
    -- that the task failed, or fails for good, or the last read of the budget fails or sees the task
    -- in no final state. A failed task gives the error of the task at once, which names the task and
    -- at most its code.
    pub wait_for_task-iff_Broken :
        (s u : W) (e : Failure) → (wait_for_task c lower o s ≡ (fail e, u)) ↔ Broken s e u
    unfolding wait_for_known ◌>>=◌
    wait_for_task-iff_Broken s u e = (
      λ h. Broken-Stuck (
          (wait_for-iff_Stuck c.runtime (task_label c o) (has_succeeded lower) read L s e u).0
            (dropped_fails (waiting s) (sym (wait_for_task-known s) ∙ h))),
      λ broken.
          wait_for_task-known s
          ∙ rw
              ((wait_for-iff_Stuck c.runtime (task_label c o) (has_succeeded lower) read L s e u).1
                (Stuck-Broken broken))
              refl,
    )
