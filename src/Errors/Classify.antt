-- ===== src/Errors/Classify.antt =====
-- `fromSdkError` and the classifiers of src/error.ts.
pub mod Laws
use text.Mathlib.Text.{starts_with}
use Prim.Native.String.{◌++◌ as ◌<>◌}
use alchemy_alibaba.Prelude.{
  ℕ, String, Bool, true, false, ◌&&◌, ◌||◌, List, [], ◌∷◌, ◌++◌, Option, none, some, leb, ◌==◌,
  str_eq, if◌then◌else◌, any, length,
}
use alchemy_alibaba.Errors.Pattern.{
  Pattern, word, any_optional, any_many, test_any, is_safe_code, codes,
}
use alchemy_alibaba.Errors.{
  Service, ecs, acr, ack, tair, rds, vpc, ram, ProviderError, Failure, provider, invariant,
  wait_timeout, pagination_limit,
}

-- A field of an unknown JavaScript value.
pub data Field : Type 0 where
  absent other : Field
  str : String → Field
  num : ℕ → Field

-- The fields that `fromSdkError` looks at. A cause that is no object has none of them.
pub record SdkCause : Type 0 where
  pub code : Field
  pub name : Field
  pub message : Field
  pub status_code : Field
  pub request_id : Field
  pub request_id_snake : Field
  pub retry_after : Field

-- `field.length > 0` and the test of its type.
abbrev pub string_field : Field → Option String
string_field (str s) = if str_eq s "" then none else some s
string_field _ = none

abbrev pub number_field : Field → Option ℕ
number_field (num n) = some n
number_field _ = none

-- `a ?? b`
abbrev pub or_else {ℓ} : {A : Type ℓ} → Option A → Option A → Option A
or_else none b = b
or_else (some a) b = some a

abbrev pub get_or {ℓ} : {A : Type ℓ} → Option A → A → A
get_or none d = d
get_or (some a) d = a

message_of : SdkCause → String
message_of cause = get_or (string_field cause.message) "Alibaba Cloud API request failed"

abbrev transport_patterns : List Pattern
transport_patterns =
    word "connecttimeout"
    ∷ word "readtimeout"
    ∷ word "responsetimeout"
    ∷ word "requesttimeout"
    ∷ word "econnreset"
    ∷ word "econnrefused"
    ∷ word "etimedout"
    ∷ word "eai_again"
    ∷ word "enotfound"
    ∷ word "socket hang up"
    ∷ word "temporary failure in name resolution"
    ∷ (word "lookup " ++ (any_many ∷ word "i/o timeout"))
    ∷ []

unfoldable pub is_transport_text : String → Bool
is_transport_text = test_any transport_patterns

abbrev pub service_name : Service → String
service_name ecs = "ECS"
service_name ack = "ACK"
service_name acr = "ACR"
service_name tair = "Tair"
service_name rds = "RDS"
service_name vpc = "VPC"
service_name ram = "RAM"

abbrev safe_only : Option String → Option String
safe_only none = none
safe_only (some c) = if is_safe_code c then some c else none

abbrev pub failure_message : Service → String → Option String → String
failure_message service operation none = service_name service <> " " <> operation <> " failed"
failure_message service operation (some c) =
    service_name service <> " " <> operation <> " failed" <> " (" <> c <> ")"

pub candidate_code : SdkCause → Option String
unfolding message_of
candidate_code cause = or_else (string_field cause.code) (
    if is_transport_text (message_of cause) then some "RequestTimeout" else string_field cause.name)

unfoldable pub from_sdk_error : Service → String → SdkCause → ProviderError
from_sdk_error service operation cause = record {
  service = service;
  operation = operation;
  message = failure_message service operation (safe_only (candidate_code cause));
  code = safe_only (candidate_code cause);
  status_code = number_field cause.status_code;
  request_id = or_else (string_field cause.request_id) (string_field cause.request_id_snake);
  retry_after_ms = number_field cause.retry_after;
}

abbrev member : String → List String → Bool
member s l = any (str_eq s) l

abbrev pub transient_codes : List String
transient_codes =
    "ConnectTimeout" ∷ "Conflict" ∷ "InternalError" ∷ "OperationConflict" ∷ "ReadTimeout"
    ∷ "RequestTimeout" ∷ "ResponseTimeout" ∷ "ServiceUnavailable" ∷ "TaskConflict" ∷ "Throttled"
    ∷ "Throttling" ∷ "Throttling.User" ∷ "TooManyRequests" ∷ "IncorrectVSwitchStatus" ∷ []

abbrev transient_patterns : List Pattern
transient_patterns =
    word "throttl"
    ∷ (word "too" ++ (any_optional ∷ word "many"))
    ∷ word "internal"
    ∷ (word "system" ++ (any_optional ∷ word "error"))
    ∷ (word "service" ++ (any_optional ∷ word "unavailable"))
    ∷ (word "operation" ++ (any_optional ∷ word "conflict"))
    ∷ []

-- The tests of `error.code` in `isTransient`.
unfoldable pub is_transient_code : String → Bool
unfolding test_any
is_transient_code c = member c transient_codes || test_any transient_patterns c

-- The tests of `error.statusCode` in `isTransient`.
abbrev pub is_transient_status : ℕ → Bool
is_transient_status n = n == 408 || n == 409 || n == 429 || leb 500 n

abbrev pub when_some {ℓ} : {A : Type ℓ} → (A → Bool) → Option A → Bool
when_some test none = false
when_some test (some a) = test a

unfoldable pub is_transient : ProviderError → Bool
is_transient e =
    when_some is_transient_status e.status_code
    || when_some is_transient_code e.code
    || is_transport_text e.message

-- `isRetryableObservation`
unfoldable pub is_retryable_observation : Failure → Bool
is_retryable_observation (provider e) =
    is_transient e || when_some (λ c. str_eq c "SafeRetryBudgetExceeded") e.code
is_retryable_observation _ = false

abbrev pub absent_resource_codes : Service → List String
absent_resource_codes ram =
    "EntityNotExist.Role" ∷ "EntityNotExist.Policy" ∷ "EntityNotExist.PolicyVersion" ∷ []
absent_resource_codes ecs =
    "InvalidDiskId.NotFound" ∷ "InvalidKeyPair.NotFound" ∷ "InvalidInstanceId.NotFound"
    ∷ "InvalidSecurityGroupId.NotFound" ∷ "InvalidSecurityGroupRuleId.NotFound" ∷ []
absent_resource_codes vpc =
    "InvalidAllocationId.NotFound" ∷ "InvalidNatGatewayId.NotFound" ∷ "InvalidSnatEntryId.NotFound"
    ∷ "InvalidSnatTableId.NotFound" ∷ "InvalidVpcId.NotFound" ∷ "InvalidVSwitchId.NotFound"
    ∷ "InvalidVswitchId.NotFound" ∷ []
absent_resource_codes rds =
    "InvalidDBInstanceId.NotFound" ∷ "InvalidDBInstanceName.NotFound" ∷ "InvalidDBName.NotFound"
    ∷ "InvalidAccountName.NotFound" ∷ "InvalidAccount.NotFound" ∷ "InvalidDB.NotFound" ∷ []
absent_resource_codes tair =
    "InvalidInstanceId.NotFound" ∷ "InvalidAccountName.NotFound" ∷ "InvalidAccount.NotFound"
    ∷ "InvalidSecurityIpGroup.NotFound" ∷ []
absent_resource_codes ack =
    "NotFound" ∷ "Cluster.NotFound" ∷ "ErrorClusterNotFound" ∷ "ErrorNodePoolNotFound"
    ∷ "NodePool.NotFound" ∷ "Nodepool.NotFound" ∷ "Addon.NotFound" ∷ "Task.NotFound" ∷ []
absent_resource_codes acr =
    "INSTANCE_NOT_EXIST" ∷ "NAMESPACE_NOT_EXIST" ∷ "REPO_NOT_EXIST" ∷ "REPOSITORY_NOT_EXIST"
    ∷ "ENDPOINT_NOT_EXIST" ∷ "VPC_NOT_EXIST" ∷ []

unfoldable pub is_not_found : ProviderError → Bool
is_not_found e = when_some (λ c. member c (absent_resource_codes e.service)) e.code

unfoldable pub is_ambiguous_create : ProviderError → Bool
is_ambiguous_create e =
    when_some
      (λ c.
        str_eq c "CanNotAcquireLock"
        || str_eq c "InvalidConcurrentOperate"
        || str_eq c "SafeRetryBudgetExceeded")
      e.code
    || is_transient e

unfoldable pub is_incorrect_instance_state : ProviderError → Bool
is_incorrect_instance_state e =
    when_some (λ c. str_eq c "IncorrectDBInstanceState" || str_eq c "IncorrectInstanceStatus")
      e.code

unfoldable pub is_dependency_violation : ProviderError → Bool
is_dependency_violation e =
    when_some (λ c. str_eq c "DependencyViolation" || starts_with c "DependencyViolation.") e.code
