-- ===== src/Errors.antt =====
-- src/error.ts: the tagged errors, and the classification of provider errors.
pub mod Pattern
pub mod Classify
pub mod Calls
use alchemy_alibaba.Prelude.{ℕ, ◌≡◌, String, Bool, Option, List}

-- `AlibabaService`
pub data Service : Type 0 where
  ecs ack acr tair rds vpc ram : Service

-- `AlibabaProviderError`. `cause` repeats the message. A status is a natural number.
pub record ProviderError : Type 0 where
  pub service : Service
  pub operation : String
  pub message : String
  pub code : Option String
  pub status_code : Option ℕ
  pub request_id : Option String
  pub retry_after_ms : Option ℕ

-- `AlibabaInvariantError`
pub record InvariantError : Type 0 where
  pub resource_type : String
  pub operation : String
  pub message : String

-- `AlibabaWaitTimeoutError`; its message is made of the other fields.
pub record WaitTimeoutError : Type 0 where
  pub service : Service
  pub resource_type : String
  pub operation : String
  pub attempts : ℕ
  pub interval_ms : ℕ
  pub last_observation : String

-- `AlibabaPaginationLimitError`; its message is made of the other fields.
pub record PaginationLimitError : Type 0 where
  pub service : Service
  pub operation : String
  pub page_size : ℕ
  pub max_pages : ℕ
  pub observed_items : ℕ
  pub reported_total : Option ℕ

-- `AlibabaObservationConflictError`
pub record ObservationConflictError : Type 0 where
  pub service : Service
  pub resource_type : String
  pub operation : String
  pub resource_id : String
  pub observations : List String
  pub attempts : ℕ
  pub message : String

-- `AlibabaDependencyBlockedError`, less its `cause`.
pub record DependencyBlockedError : Type 0 where
  pub service : Service
  pub resource_type : String
  pub operation : String
  pub resource_id : String
  pub dependency : String
  pub attempts : ℕ
  pub provider_code : Option String
  pub request_id : Option String
  pub message : String

-- `AlibabaUnsafeLifecycleTransitionError`
pub record UnsafeLifecycleTransitionError : Type 0 where
  pub resource_type : String
  pub operation : String
  pub resource_id : String
  pub from_state : String
  pub allowed_states : List String
  pub message : String

-- What the error channel of the providers carries.
pub data Failure : Type 0 where
  provider : ProviderError → Failure
  invariant : InvariantError → Failure
  wait_timeout : WaitTimeoutError → Failure
  pagination_limit : PaginationLimitError → Failure
  observation_conflict : ObservationConflictError → Failure
  dependency_blocked : DependencyBlockedError → Failure
  unsafe_transition : UnsafeLifecycleTransitionError → Failure
