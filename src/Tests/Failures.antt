-- ===== src/Tests/Failures.antt =====
-- Errors and their classification at concrete inputs.
use alchemy_alibaba.Prelude.{String, ◌≡◌, refl, true, false, none, some}
use alchemy_alibaba.Errors.Pattern.{is_safe_code, test_any}
use alchemy_alibaba.Errors.{rds, ProviderError, provider}
use alchemy_alibaba.Errors.Classify.{
  SdkCause, absent, str, num, from_sdk_error, failure_message, is_not_found, is_transient,
  is_transport_text, is_retryable_observation, is_ambiguous_create, is_dependency_violation,
  is_incorrect_instance_state,
}
use alchemy_alibaba.Errors.Classify.Laws.{from_sdk_error_redacts, absence_is_final}
use alchemy_alibaba.Prelude.{ℕ, [], ◌∷◌, ◌⊎◌}
use alchemy_alibaba.Effect.{Result, ok, fail, Effect}
use alchemy_alibaba.Effect.Retry.{Attempted}
use alchemy_alibaba.Errors.Calls.{
  sdk_call, retry_delay, retrying_sdk_call, safe_retry_budget_error, retrying_sdk_call-Attempted,
}
use alchemy_alibaba.Tests.Clock.{Scripted, clock, clock_lawful, answer, script}

abbrev leaking : SdkCause
leaking = record {
  code = str "key=secret";
  name = absent;
  message = str "password is secret";
  status_code = num 400;
  request_id = absent;
  request_id_snake = str "R-1";
  retry_after = absent;
}

from_sdk_error_redacts_example :
    let e = from_sdk_error rds "CreateAccount" leaking in
    ((c : String) → e.code ≡ some c → is_safe_code c ≡ true)
    × (e.message ≡ failure_message rds "CreateAccount" e.code)
from_sdk_error_redacts_example = from_sdk_error_redacts rds "CreateAccount" leaking

abbrev missing : ProviderError
missing = record {
  service = rds;
  operation = "DescribeAccounts";
  message = "RDS DescribeAccounts failed (InvalidAccount.NotFound)";
  code = some "InvalidAccount.NotFound";
  status_code = some 404;
  request_id = none;
  retry_after_ms = none;
}

abbrev busy : ProviderError
busy = record {
  service = rds;
  operation = "CreateAccount";
  message = "RDS CreateAccount failed (Throttling)";
  code = some "Throttling";
  status_code = some 400;
  request_id = none;
  retry_after_ms = none;
}

absence_is_final_example :
    (is_transient missing ≡ false)
    × (is_retryable_observation (provider missing) ≡ false)
    × (is_ambiguous_create missing ≡ false)
    × (is_dependency_violation missing ≡ false)
    × (is_incorrect_instance_state missing ≡ false)
unfolding is_not_found is_transport_text test_any
absence_is_final_example = absence_is_final missing refl refl refl

abbrev throttled : SdkCause
throttled = record {
  code = str "Throttling";
  name = absent;
  message = absent;
  status_code = num 429;
  request_id = absent;
  request_id_snake = absent;
  retry_after = num 700;
}

-- Two calls are throttled, the third answers.
abbrev Calls : Type 0
Calls = Scripted (Result SdkCause ℕ)

abbrev calls : Calls
calls = script (fail throttled ∷ fail throttled ∷ ok 5 ∷ [])

retrying_sdk_call-Attempted_example :
    let call : Effect Calls SdkCause ℕ = answer (ok 0) in
    let y = retrying_sdk_call (clock _) rds "DescribeAccounts" none call calls in
    Attempted
      (clock _)
      is_transient
      (sdk_call rds "DescribeAccounts" call)
      y.0
      y.1
      (retry_delay (clock _))
      6
      calls
    ⊎ (y.0 ≡ fail (safe_retry_budget_error rds "DescribeAccounts"))
retrying_sdk_call-Attempted_example =
    retrying_sdk_call-Attempted (clock _) (clock_lawful _) rds "DescribeAccounts" none
      (answer (ok 0)) calls
