-- ===== src/Tests/Waits.antt =====
-- Waits over a script of answers: one unavailable read, one value that is not ready, one that is.
use alchemy_alibaba.Prelude.{ℕ, ◌≡◌, ◌↔◌, refl, true, [], ◌∷◌, Option, none, some, leb, String}
use alchemy_alibaba.Effect.{Result, ok, fail, Effect}
use alchemy_alibaba.Errors.{rds, ProviderError, Failure, provider}
use alchemy_alibaba.Errors.Pattern.{test_any}
use alchemy_alibaba.Errors.Classify.{
  is_retryable_observation, is_transient, is_transient_code, is_transport_text,
}
use alchemy_alibaba.Lifecycle.Observe.{
  Wait, WaitOptions, WaitResult, completed, exhausted, observe_until,
}
use alchemy_alibaba.Lifecycle.Observe.Laws.{Polls, none_yet, one_more, not_ready, repeatable}
use alchemy_alibaba.Lifecycle.Wait.{WaitLabel}
use alchemy_alibaba.Lifecycle.Wait.Ready.{Seen, Stuck, wait_for-iff_Seen, wait_for-iff_Stuck}
use alchemy_alibaba.Lifecycle.Wait.{
  wait_for, wait_for_present, wait_for_absent, wait_until_accepted,
}
use alchemy_alibaba.Lifecycle.Wait.Presence.{
  Present, Gone, wait_for_present-iff_Present, wait_for_absent-iff_Gone,
}
use alchemy_alibaba.Lifecycle.Wait.Accepted.{Settled, wait_until_accepted-iff_Settled}
use alchemy_alibaba.Tests.Clock.{Scripted, clock, clock_lawful, answer, script}

abbrev error : Option ℕ → String → ProviderError
error status code = record {
  service = rds;
  operation = "DescribeDBInstances";
  message = "RDS DescribeDBInstances failed";
  code = some code;
  status_code = status;
  request_id = none;
  retry_after_ms = none;
}

abbrev unavailable : Failure
unavailable = provider (error (some 503) "ServiceUnavailable")

abbrev forbidden : Failure
forbidden = provider (error (some 403) "Forbidden")

abbrev Answers : Type 0
Answers = Scripted (Result Failure ℕ)

abbrev read : Effect Answers Failure ℕ
read = answer (ok 0)

abbrev wait : Wait
wait = record { attempts = 4; interval = 10 }

abbrev three_reads : Answers
three_reads = script (fail unavailable ∷ ok 1 ∷ ok 5 ∷ [])

observed : Answers → Result Failure (WaitResult ℕ) × Answers
unfolding observe_until is_retryable_observation is_transient is_transient_code is_transport_text
    test_any
observed = observe_until (clock _) (leb 3) is_retryable_observation wait read

ridden_out : observed three_reads ≡ (ok (completed 5 4 10), record { now = 20; answers = [] })
unfolding observed
ridden_out = refl

used_up : observed (script []) ≡ (ok (exhausted 0 4 10), record { now = 30; answers = [] })
unfolding observed
used_up = refl

aborted :
    observed (script (fail forbidden ∷ ok 5 ∷ []))
    ≡ (fail forbidden, record { now = 0; answers = ok 5 ∷ [] })
unfolding observed
aborted = refl

-- Two unusable reads before a ready value.
Polls-three :
    Polls
      (clock _)
      (leb 3)
      is_retryable_observation
      wait
      read
      three_reads
      2
      (record { now = 20; answers = ok 5 ∷ [] })
unfolding is_retryable_observation is_transient is_transient_code is_transport_text test_any
Polls-three = one_more (repeatable refl refl) (one_more (not_ready refl refl) none_yet)

abbrev label : {V : Type 0} → WaitLabel V
label = record {
  service = rds;
  resource_type = none;
  operation = "WaitForInstance";
  describe = none;
  wait = record { attempts = some 4; interval = some 10 };
}

abbrev finished : Answers
finished = record { now = 20; answers = [] }

wait_for-iff_Seen_example :
    (wait_for (clock _) label (leb 3) read three_reads ≡ (ok 5, finished))
    ↔ Seen (clock _) label (leb 3) read three_reads 5 finished
wait_for-iff_Seen_example =
    wait_for-iff_Seen (clock _) label (leb 3) read (clock_lawful _) three_reads 5 finished

abbrev refusing : Answers
refusing = script (ok 1 ∷ fail forbidden ∷ [])

abbrev refused_at : Answers
refused_at = record { now = 10; answers = [] }

wait_for-iff_Stuck_example :
    (wait_for (clock _) label (leb 3) read refusing ≡ (fail forbidden, refused_at))
    ↔ Stuck (clock _) label (leb 3) read refusing forbidden refused_at
wait_for-iff_Stuck_example =
    wait_for-iff_Stuck (clock _) label (leb 3) read (clock_lawful _) refusing forbidden refused_at

abbrev Sights : Type 0
Sights = Scripted (Result Failure (Option ℕ))

abbrev look : Effect Sights Failure (Option ℕ)
look = answer (ok none)

abbrev appearing : Sights
appearing = script (ok none ∷ ok (some 1) ∷ ok (some 4) ∷ [])

wait_for_present-iff_Present_example :
    (wait_for_present (clock _) label (leb 3) look appearing
      ≡ (ok 4, record { now = 20; answers = [] }))
    ↔ Present (clock _) label look (leb 3) appearing 4 (record { now = 20; answers = [] })
wait_for_present-iff_Present_example =
    wait_for_present-iff_Present (clock _) label look (clock_lawful _) (leb 3) appearing 4
      (record { now = 20; answers = [] })

abbrev vanishing : Sights
vanishing = script (ok (some 1) ∷ fail unavailable ∷ ok none ∷ [])

wait_for_absent-iff_Gone_example :
    (wait_for_absent (clock _) label look vanishing ≡ (ok tt, record { now = 20; answers = [] }))
    ↔ Gone (clock _) label look vanishing (record { now = 20; answers = [] })
wait_for_absent-iff_Gone_example =
    wait_for_absent-iff_Gone (clock _) label look (clock_lawful _) vanishing
      (record { now = 20; answers = [] })

abbrev Requests : Type 0
Requests = Scripted (Result ProviderError ℕ)

abbrev request : Effect Requests ProviderError ℕ
request = answer (ok 0)

abbrev twice : WaitOptions
twice = record { attempts = some 2; interval = some 5 }

abbrev busy : Requests
busy = script (fail (error none "TaskConflict") ∷ fail (error none "TaskConflict") ∷ ok 7 ∷ [])

wait_until_accepted-iff_Settled_example :
    (wait_until_accepted (clock _) (λ _. true) twice request busy
      ≡ (fail (error none "TaskConflict"), record { now = 5; answers = ok 7 ∷ [] }))
    ↔ Settled
        (clock _)
        (λ _. true)
        twice
        request
        busy
        (fail (error none "TaskConflict"))
        (record { now = 5; answers = ok 7 ∷ [] })
wait_until_accepted-iff_Settled_example =
    wait_until_accepted-iff_Settled (clock _) (λ _. true) twice request (clock_lawful _) busy
      (record { now = 5; answers = ok 7 ∷ [] }) (fail (error none "TaskConflict"))
