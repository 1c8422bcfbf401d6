-- ===== src/Lifecycle/Wait.antt =====
-- The waits of src/internal/lifecycle.ts on top of `observeUntil`: `waitFor`, `waitForPresent`,
-- `waitForAbsent` and `waitUntilAccepted`.
pub mod Ready
pub mod Presence
pub mod Accepted
use Prim.Native.String.{◌++◌ as ◌<>◌}
use alchemy_alibaba.Prelude.{ℕ, String, Bool, true, false, Option, none, some, if◌then◌else◌}
use alchemy_alibaba.Effect.{
  Result, ok, fail, Effect, succeed, raise, ◌>>=◌, match_effect, fmap, Runtime,
}
use alchemy_alibaba.Errors.{Service, ProviderError, Failure, wait_timeout}
use alchemy_alibaba.Errors.Classify.{get_or, service_name, is_retryable_observation}
use alchemy_alibaba.Lifecycle.Observe.{
  WaitOptions, Wait, with_defaults, WaitResult, completed, exhausted, observe_until,
}

-- The options that say who waits and for what; `describe` speaks of the last observation.
pub record WaitLabel (V : Type 0) : Type 0 where
  pub service : Service
  pub resource_type : Option String
  pub operation : String
  pub describe : Option (V → String)
  pub wait : WaitOptions

module _ {V : Type 0} (o : WaitLabel V) where
  abbrev pub describe_or : (V → String) → V → String
  describe_or default v = elim o.describe [ none ↦ default v | some f ↦ f v ]

  abbrev pub timeout_error : (V → String) → V → ℕ → ℕ → Failure
  timeout_error default v attempts interval = wait_timeout (record {
    service = o.service;
    resource_type = get_or o.resource_type ("Alibaba." <> service_name o.service);
    operation = o.operation;
    attempts = attempts;
    interval_ms = interval;
    last_observation = describe_or default v;
  })

  abbrev pub finish_wait : {W : Type 0} → WaitResult V → Effect W Failure V
  finish_wait (completed v a i) = succeed v
  finish_wait (exhausted v a i) = raise (timeout_error (λ _. "not-ready") v a i)

-- `{ value !== undefined && test(value) }`
abbrev pub present_and : {V : Type 0} → (V → Bool) → Option V → Bool
present_and test none = false
present_and test (some v) = test v

abbrev pub is_absent : {V : Type 0} → Option V → Bool
is_absent none = true
is_absent (some v) = false

abbrev presence : {V : Type 0} → Option V → String
presence none = "absent"
presence (some v) = "not-ready"

-- The text of `waitForAbsent`.
abbrev pub presence_now : {V : Type 0} → Option V → String
presence_now none = "absent"
presence_now (some v) = "present"

abbrev pub finish_present :
    {W V : Type 0} → WaitLabel (Option V) → WaitResult (Option V) → Effect W Failure V
finish_present o (completed (some v) a i) = succeed v
finish_present o (completed none a i) = raise (timeout_error o presence none a i)
finish_present o (exhausted v a i) = raise (timeout_error o presence v a i)

module _ {W : Type 0} (rt : Runtime W) {V : Type 0} where
  -- `waitFor`
  unfoldable pub wait_for : WaitLabel V → (V → Bool) → Effect W Failure V → Effect W Failure V
  wait_for o test read =
      observe_until rt test is_retryable_observation (with_defaults o.wait) read >>= finish_wait o

  -- `waitForPresent`
  unfoldable pub wait_for_present :
      WaitLabel (Option V) → (V → Bool) → Effect W Failure (Option V) → Effect W Failure V
  wait_for_present o test read =
      observe_until rt (present_and test) is_retryable_observation (with_defaults o.wait) read
      >>= finish_present o

module _ {W : Type 0} (rt : Runtime W) {V : Type 0} where
  -- `waitForAbsent`
  unfoldable pub wait_for_absent :
      WaitLabel (Option V) → Effect W Failure (Option V) → Effect W Failure (Unit {0})
  wait_for_absent o read =
      fmap (λ _. tt) (wait_for rt (record o { describe = some presence_now }) is_absent read)

-- What one mutating request did.
pub data Acceptance (R : Type 0) : Type 0 where
  rejected : ProviderError → Acceptance R
  accepted : R → Acceptance R

module _ {R : Type 0} where
  abbrev pub is_accepted : Acceptance R → Bool
  is_accepted (accepted r) = true
  is_accepted (rejected e) = false

  abbrev pub value_of : WaitResult R → R
  value_of (completed v a i) = v
  value_of (exhausted v a i) = v

module _ {W R : Type 0} where
  -- A rejection that may be repeated becomes a value; any other stays an error.
  abbrev pub accept_once :
      (ProviderError → Bool) → Effect W ProviderError R → Effect W ProviderError (Acceptance R)
  accept_once retry_if =
      match_effect (λ e. if retry_if e then succeed (rejected e) else raise e)
        (λ r. succeed (accepted r))

  abbrev pub match_acceptance : Acceptance R → Effect W ProviderError R
  match_acceptance (accepted r) = succeed r
  match_acceptance (rejected e) = raise e

module _ {W : Type 0} (rt : Runtime W) {R : Type 0} where
  -- `waitUntilAccepted`
  unfoldable pub wait_until_accepted :
      (ProviderError → Bool) → WaitOptions → Effect W ProviderError R → Effect W ProviderError R
  wait_until_accepted retry_if options request =
      observe_until rt is_accepted (λ _. false) (with_defaults options)
        (accept_once retry_if request)
      >>= λ result. match_acceptance (value_of result)
