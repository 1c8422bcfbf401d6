-- ===== src/Errors/Classify/Laws.antt =====
-- What the classifiers of src/error.ts promise to the code that retries, waits and deletes.
use alchemy_alibaba.Prelude.{
  String, ◌≡◌, refl, Bool, true, false, ◌||◌, not, List, [], ◌∷◌, some, str_eq, eq_iff, arith,
  Option-cases, any, all, inl, inr,
}
use text.Mathlib.Text.{starts_with}
use alchemy_alibaba.Errors.Pattern.{is_safe_code}
use alchemy_alibaba.Errors.{Service, ecs, ack, acr, tair, rds, vpc, ram, ProviderError, provider}
use alchemy_alibaba.Errors.Classify.{
  SdkCause, from_sdk_error, failure_message, when_some, is_transient, is_not_found,
  is_transient_code, is_transient_status, is_transport_text, is_retryable_observation,
  is_ambiguous_create, absent_resource_codes, is_dependency_violation, is_incorrect_instance_state,
}

-- The code of an error made from an SDK cause, if it has one, is a safe code; the message is
-- made of the service, the operation and that code alone.
pub from_sdk_error_redacts :
    (service : Service) (operation : String) (cause : SdkCause)
    → let e = from_sdk_error service operation cause in
      ((c : String) → e.code ≡ some c → is_safe_code c ≡ true)
      × (e.message ≡ failure_message service operation e.code)
unfolding from_sdk_error
from_sdk_error_redacts service operation cause = (λ c h. ground arith, refl)

any-all :
    (p : String → Bool) (c : String) (l : List String)
    → all (λ x. not (p x)) l ≡ true
    → any (str_eq c) l ≡ true
    → p c ≡ false
any-all p c [] h m = cc
any-all p c (x ∷ l) h m = ground (arith, eq_iff c x, any-all p c l)

-- No code that proves absence is a transient code.
absent_codes_fatal :
    (s : Service) → all (λ c. not (is_transient_code c)) (absent_resource_codes s) ≡ true
unfolding is_transient_code
absent_codes_fatal ecs = refl
absent_codes_fatal ack = refl
absent_codes_fatal acr = refl
absent_codes_fatal tair = refl
absent_codes_fatal rds = refl
absent_codes_fatal vpc = refl
absent_codes_fatal ram = refl

-- The codes that the other classifiers single out.
abbrev is_claimed : String → Bool
is_claimed c =
    is_transient_code c
    || str_eq c "SafeRetryBudgetExceeded"
    || str_eq c "CanNotAcquireLock"
    || str_eq c "InvalidConcurrentOperate"
    || str_eq c "IncorrectDBInstanceState"
    || str_eq c "IncorrectInstanceStatus"
    || str_eq c "DependencyViolation"
    || starts_with c "DependencyViolation."

absent_codes_unclaimed :
    (s : Service) → all (λ c. not (is_claimed c)) (absent_resource_codes s) ≡ true
unfolding is_transient_code
absent_codes_unclaimed ecs = refl
absent_codes_unclaimed ack = refl
absent_codes_unclaimed acr = refl
absent_codes_unclaimed tair = refl
absent_codes_unclaimed rds = refl
absent_codes_unclaimed vpc = refl
absent_codes_unclaimed ram = refl

not_claimed :
    (c : String)
    → is_claimed c ≡ false
    → (is_transient_code c ≡ false)
      × (str_eq c "SafeRetryBudgetExceeded" ≡ false)
      × (str_eq c "CanNotAcquireLock" ≡ false)
      × (str_eq c "InvalidConcurrentOperate" ≡ false)
      × (str_eq c "IncorrectDBInstanceState" ≡ false)
      × (str_eq c "IncorrectInstanceStatus" ≡ false)
      × (str_eq c "DependencyViolation" ≡ false)
      × (starts_with c "DependencyViolation." ≡ false)
not_claimed c h = ground arith

-- An error that proves absence, with a status and a message that are not transient by themselves,
-- is none of the errors that the program repeats, rides out or waits on: not transient, not a
-- retryable observation, not an ambiguous create, not a dependency violation and not an
-- incorrect state.
pub absence_is_final :
    (e : ProviderError)
    → is_not_found e ≡ true
    → when_some is_transient_status e.status_code ≡ false
    → is_transport_text e.message ≡ false
    → (is_transient e ≡ false)
      × (is_retryable_observation (provider e) ≡ false)
      × (is_ambiguous_create e ≡ false)
      × (is_dependency_violation e ≡ false)
      × (is_incorrect_instance_state e ≡ false)
unfolding is_not_found is_transient is_retryable_observation is_ambiguous_create
    is_dependency_violation is_incorrect_instance_state
absence_is_final e found status message = elim (Option-cases e.code) [
  | inl none_ ↦ cc (rw none_ at found)
  | inr (c, is_c) ↦
      let facts = not_claimed c (
        any-all is_claimed c (absent_resource_codes e.service) (absent_codes_unclaimed e.service)
          (rw is_c at found)) in
      ground arith
]

-- Every provider error that a bounded wait rides out is one that a create treats as ambiguous.
pub ridden_out_is_ambiguous :
    (e : ProviderError)
    → is_retryable_observation (provider e) ≡ true
    → is_ambiguous_create e ≡ true
unfolding is_retryable_observation is_ambiguous_create
ridden_out_is_ambiguous e h = ground arith
