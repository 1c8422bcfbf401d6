-- ===== src/Tests/Tasks.antt =====
-- The wait for an ACK task over scripted answers.
use alchemy_alibaba.Prelude.{◌≡◌, ◌↔◌, refl, String, [], ◌∷◌, Option, none, some}
use alchemy_alibaba.Effect.{Result, ok, fail}
use alchemy_alibaba.Errors.Classify.{SdkCause, is_retryable_observation}
use alchemy_alibaba.Provider.{Context, call}
use alchemy_alibaba.Effect.Chain.{◌>>=◌}
use alchemy_alibaba.Errors.Calls.{retrying_sdk_call, retry_within_budget, sdk_call}
use alchemy_alibaba.Lifecycle.Observe.{with_defaults, observe_until}
use alchemy_alibaba.Lifecycle.Wait.{wait_for}
use alchemy_alibaba.Ack.Task.{
  SdkTask, AckClients, TaskWait, task_error, wait_for_task, describe_task,
}
use alchemy_alibaba.Ack.Task.Reads.{Succeeded}
use alchemy_alibaba.Ack.Task.Ends.{wait_for_task-iff_Succeeded}
use alchemy_alibaba.Tests.Clock.{Scripted, clock, clock_lawful, answer, script}
use alchemy_alibaba.Tests.Databases.{plain}

abbrev Answer : Type 0
Answer = Result SdkCause (Option SdkTask)

abbrev ack_cloud : Context (AckClients (Scripted Answer)) (Scripted Answer)
ack_cloud = record {
  runtime = clock Answer;
  alchemy = plain;
  clients = record { describe_task_info = λ id. answer (ok none) };
  wait = record { attempts = none; interval = none };
}

abbrev removal : TaskWait
removal = record {
  operation = "DeleteCluster";
  task_id = some "T-1";
  wait = record { attempts = some 3; interval = some 10 };
}

abbrev in_state : String → Answer
in_state state = ok (some (record { state = some state; error_code = some "QuotaExceeded" }))

abbrev ended : Scripted Answer
ended = record { now = 10; answers = [] }

wait_for_task-iff_Succeeded_example :
    (wait_for_task ack_cloud
        (λ s. s)
        removal
        (script (in_state "running" ∷ in_state "success" ∷ []))
      ≡ (ok tt, ended))
    ↔ Succeeded ack_cloud
        (λ s. s)
        removal
        "T-1"
        (script (in_state "running" ∷ in_state "success" ∷ []))
        ended
wait_for_task-iff_Succeeded_example =
    wait_for_task-iff_Succeeded ack_cloud (λ s. s) removal "T-1" (clock_lawful Answer) refl
      (script (in_state "running" ∷ in_state "success" ∷ [])) ended

abbrev failed_removal : SdkTask
failed_removal = record { state = some "failed"; error_code = some "QuotaExceeded" }

breaks :
    wait_for_task ack_cloud (λ s. s) removal (script (in_state "running" ∷ in_state "failed" ∷ []))
    ≡ (fail (task_error "DeleteCluster" "T-1" (some failed_removal)), ended)
unfolding wait_for_task describe_task is_retryable_observation call retrying_sdk_call
    retry_within_budget sdk_call wait_for observe_until with_defaults task_error ◌>>=◌
breaks = refl
