-- ===== src/Errors/Calls.antt =====
-- The calls of the SDKs in src/error.ts: `sdkCall`, the ACR envelope, and the retries within a budget.
use Prim.Native.String.{◌++◌ as ◌<>◌}
use alchemy_alibaba.Prelude.{
  ℕ, ◌*◌, ◌^◌, max, String, Bool, true, false, ◌&&◌, Option, none, some, str_eq, if◌then◌else◌, ◌≡◌,
  ◌⊎◌, inl, inr, refl,
}
use alchemy_alibaba.Effect.{fail, Effect, succeed, raise, match_effect, ◌>>=◌, Runtime, IsRuntime}
use alchemy_alibaba.Effect.Retry.{Attempted, retry-Attempted}
use alchemy_alibaba.Errors.{Service, acr, ProviderError}
use alchemy_alibaba.Errors.Classify.{
  SdkCause, Field, absent, str, num, from_sdk_error, get_or, service_name, is_transient,
}

-- `AcrEnvelopeResponse`
pub record AcrBody : Type 0 where
  pub is_success : Option Bool
  pub code : Option String
  pub request_id : Option String

pub record AcrEnvelope : Type 0 where
  pub status_code : Option ℕ
  pub body : Option AcrBody

abbrev text_field : Option String → Field
text_field none = absent
text_field (some s) = str s

abbrev count_field : Option ℕ → Field
count_field none = absent
count_field (some n) = num n

-- An SDK error that carries a code and a message alone.
abbrev cause_of : String → String → Option String → Option ℕ → SdkCause
cause_of code message request_id status = record {
  code = str code;
  name = absent;
  message = str message;
  status_code = count_field status;
  request_id = text_field request_id;
  request_id_snake = absent;
  retry_after = absent;
}

abbrev is_not_refused : Option Bool → Bool
is_not_refused (some false) = false
is_not_refused _ = true

-- `lower` is `toLowerCase`.
abbrev pub is_good_body : (String → String) → AcrBody → Bool
is_good_body lower b =
    is_not_refused b.is_success
    && (elim b.code [ none ↦ true | some c ↦ str_eq (lower c) "success" ])

acr_failure : String → Option ℕ → AcrBody → ProviderError
acr_failure operation status b =
    let code = get_or b.code "ACRRequestFailed" in
    from_sdk_error acr operation (cause_of code ("ACR API returned " <> code) b.request_id status)

module _ {W A : Type 0} where
  -- `sdkCall`, of a call that is rejected with an SDK error.
  unfoldable pub sdk_call : Service → String → Effect W SdkCause A → Effect W ProviderError A
  sdk_call service operation call =
      match_effect (λ cause. raise (from_sdk_error service operation cause)) (λ a. succeed a) call

  module _ (lower : String → String) (envelope : A → AcrEnvelope) (operation : String) where
    -- `validateAcrEnvelope`
    unfoldable pub validate_acr_envelope : A → Effect W ProviderError A
    unfolding acr_failure
    validate_acr_envelope response = elim (envelope response).body [
      | none ↦ succeed response
      | some b ↦
          if is_good_body lower b
          then succeed response
          else raise (acr_failure operation (envelope response).status_code b)
    ]

    unfoldable pub acr_sdk_call : Effect W SdkCause A → Effect W ProviderError A
    unfolding sdk_call validate_acr_envelope
    acr_sdk_call call = sdk_call acr operation call >>= validate_acr_envelope

unfoldable pub safe_retry_budget_error : Service → String → ProviderError
safe_retry_budget_error service operation = from_sdk_error service operation (
    cause_of "SafeRetryBudgetExceeded"
      (service_name service <> " " <> operation <> " exceeded its safe retry wall-clock budget")
      none none)

module _ {W : Type 0} (rt : Runtime W) where
  -- `retrySchedule`: 250 ms, doubled at each retry and varied, or the delay that the error asks for.
  abbrev pub retry_delay : ℕ → ProviderError → W → ℕ
  retry_delay k e s = max (rt.jittered (250 * 2 ^ k) s) (get_or e.retry_after_ms 0)

module _ {W : Type 0} (rt : Runtime W) {A : Type 0} where
  -- `withinSafeRetryBudget` around `Effect.retry`.
  unfoldable pub retry_within_budget :
      Service → String → Option ℕ → Effect W ProviderError A → Effect W ProviderError A
  retry_within_budget service operation budget call =
      rt.timeout_or_else ProviderError A (get_or budget 60000)
        (raise (safe_retry_budget_error service operation))
        (rt.retry ProviderError A (retry_delay rt) 6 is_transient call)

  -- `retryingSdkCall`
  unfoldable pub retrying_sdk_call :
      Service → String → Option ℕ → Effect W SdkCause A → Effect W ProviderError A
  unfolding retry_within_budget
  retrying_sdk_call service operation budget call =
      retry_within_budget service operation budget (sdk_call service operation call)

  -- `retryingAcrSdkCall`
  unfoldable pub retrying_acr_sdk_call :
      (String → String)
      → (A → AcrEnvelope)
      → String
      → Option ℕ
      → Effect W SdkCause A
      → Effect W ProviderError A
  unfolding retry_within_budget
  retrying_acr_sdk_call lower envelope operation budget call =
      retry_within_budget acr operation budget (acr_sdk_call lower envelope operation call)

  module _ (L : IsRuntime rt) where
    -- Over a runtime that retries and times out as documented, `retryingSdkCall` ends in one of two
    -- ways: with the error that its budget is exceeded, or with the last of at most seven calls,
    -- each but the last of which failed in a transient way; the last one succeeded, failed in a way
    -- that is not transient, or was the seventh.
    pub retrying_sdk_call-Attempted :
        (service : Service) (operation : String) (budget : Option ℕ) (call : Effect W SdkCause A)
        (s : W)
        → let y = retrying_sdk_call service operation budget call s in
          Attempted rt is_transient (sdk_call service operation call) y.0 y.1 (retry_delay rt) 6 s
          ⊎ (y.0 ≡ fail (safe_retry_budget_error service operation))
    unfolding retrying_sdk_call
    retrying_sdk_call-Attempted service operation budget call s =
        elim (L.timeout_cases ProviderError A (get_or budget 60000)
          (raise (safe_retry_budget_error service operation))
          (rt.retry ProviderError A (retry_delay rt) 6 is_transient
            (sdk_call service operation call))
          s) [
            | inl e ↦ rw e (
                inl (
                  retry-Attempted rt is_transient (sdk_call service operation call) L
                    (retry_delay rt) 6 s))
            | inr (t, e) ↦ rw e (inr refl)
          ]
