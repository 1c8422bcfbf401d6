-- ===== src/Provider.antt =====
-- What the resource providers of src/ share: what they take from Alchemy, how a failing SDK call
-- joins their other errors, tags, and what a plan answers.
pub mod Tags
pub mod Names
pub mod Ensures
pub mod Settled
use alchemy_alibaba.Prelude.{
  ℕ, String, Bool, true, false, not, Option, none, some, str_eq, if◌then◌else◌, List, [], ◌∷◌,
}
use alchemy_alibaba.Effect.{Effect, succeed, raise, match_effect, catch_if, fmap, Runtime}
use alchemy_alibaba.Effect.Chain.{◌>>=◌}
use alchemy_alibaba.Errors.{Service, ProviderError, Failure, provider}
use alchemy_alibaba.Errors.Classify.{SdkCause, is_not_found, get_or}
use alchemy_alibaba.Errors.Calls.{sdk_call, retrying_sdk_call}
use alchemy_alibaba.Lifecycle.Identity.Tags.{TagRecord}
use alchemy_alibaba.Lifecycle.Identity.{replacement}
use alchemy_alibaba.Lifecycle.Paginate.{Page}
use alchemy_alibaba.Lifecycle.Observe.{WaitOptions}
use alchemy_alibaba.Lifecycle.Wait.{WaitLabel}

-- The answer of Alchemy's `diffTags`.
pub record TagDiff : Type 0 where
  pub removed : List String
  pub upsert : TagRecord

-- The functions of Alchemy that the providers call.
pub record Alchemy (W : Type 0) : Type 0 where
  pub has_alchemy_tags : String → TagRecord → Effect W Failure Bool
  pub create_internal_tags : String → Effect W Failure TagRecord
  pub strip_internal_tags : TagRecord → TagRecord
  pub create_physical_name : String → ℕ → Effect W Failure String
  pub diff_tags : TagRecord → TagRecord → TagDiff
  -- `session.note`
  pub note : String → Effect W Failure (Unit {0})

-- Inputs of a resource, which are not known as long as they depend on one that is not created.
pub data Planned (P : Type 0) : Type 0 where
  unresolved : Planned P
  resolved : P → Planned P

-- What `diff` returns; `keep` stands for `undefined`.
pub data Plan : Type 0 where
  keep : Plan
  update : Plan
  replace : Plan
  replace_first : Plan

-- What `read` returns.
pub data Reading (A : Type 0) : Type 0 where
  missing : Reading A
  owned : A → Reading A
  unowned : A → Reading A

-- A text that is truthy.
abbrev pub is_given : Option String → Bool
is_given none = false
is_given (some s) = not (str_eq s "")

abbrev pub is_present : {A : Type 0} → Option A → Bool
is_present none = false
is_present (some a) = true

-- `condition && desired !== undefined && observed !== desired`
abbrev pub differs_if_wanted : Option String → Option String → Bool
differs_if_wanted none observed = false
differs_if_wanted (some wanted) none = true
differs_if_wanted (some wanted) (some v) = not (str_eq v wanted)

-- `observed === text`
abbrev pub is_text : String → Option String → Bool
is_text text none = false
is_text text (some s) = str_eq s text

module _ {W : Type 0} where
  -- A conditional statement.
  abbrev pub when : Bool → Effect W Failure (Unit {0}) → Effect W Failure (Unit {0})
  when test m = if test then m else succeed tt

  abbrev pub planned : Bool → Effect W Failure Plan
  planned changed = succeed (if changed then update else keep)

  abbrev pub replace_named : String → Option String → Option String → Effect W Failure Plan
  replace_named resource_type old_name new_name =
      replacement resource_type old_name new_name >>= λ _. succeed replace

module _ {W A : Type 0} where
  abbrev pub widen : Effect W ProviderError A → Effect W Failure A
  widen m = match_effect (λ e. raise (provider e)) (λ a. succeed a) m

  -- `Effect.catchIf(isNotFound, () => Effect.succeed(default))`
  abbrev pub unless_missing : A → Effect W ProviderError A → Effect W ProviderError A
  unless_missing default m = catch_if is_not_found (λ _. succeed default) m

module _ {W : Type 0} where
  -- A request whose resource may be gone already.
  abbrev pub ignore_missing : {R : Type 0} → Effect W ProviderError R → Effect W Failure (Unit {0})
  ignore_missing m = widen (unless_missing tt (fmap (λ _. tt) m))

  -- A statement that drops its value.
  abbrev pub run : {R : Type 0} → Effect W ProviderError R → Effect W Failure (Unit {0})
  run m = widen (fmap (λ _. tt) m)

-- The part of a list response that the providers read.
pub record ListBody (V : Type 0) : Type 0 where
  pub entries : Option (List V)
  pub total_count : Option ℕ

module _ {V : Type 0} where
  abbrev pub page_of : ListBody V → Page V
  page_of b = record { items = get_or b.entries []; total_count = b.total_count }

  abbrev pub no_page : Page V
  no_page = record { items = []; total_count = none }

module _ {W V : Type 0} where
  -- One page, where a resource that is gone is an empty page.
  abbrev pub page_or_empty : Effect W ProviderError (ListBody V) → Effect W Failure (Page V)
  page_or_empty call = widen (unless_missing no_page (fmap page_of call))

  abbrev pub for_each : {A : Type 0} → (V → Effect W Failure A) → List V → Effect W Failure (List A)
  for_each f [] = succeed []
  for_each f (v ∷ vs) = f v >>= λ a. for_each f vs >>= λ rest. succeed (a ∷ rest)

-- What a provider is made with.
pub record Context (Clients : Type 0) (W : Type 0) : Type 1 where
  pub runtime : Runtime W
  pub alchemy : Alchemy W
  pub clients : Clients
  -- `options.wait`
  pub wait : WaitOptions

module _ {Clients W : Type 0} (c : Context Clients W) where
  -- `retryingSdkCall(service, operation, () => call)`
  unfoldable pub call :
      {R : Type 0} → Service → String → Effect W SdkCause R → Effect W ProviderError R
  call service operation request = retrying_sdk_call c.runtime service operation none request

  -- The labels of a wait.
  abbrev pub wait_label : {V : Type 0} → Service → String → WaitLabel V
  wait_label service operation = record {
    service = service;
    resource_type = none;
    operation = operation;
    describe = none;
    wait = c.wait;
  }

-- `items?.find(test)`
unfoldable pub find_first : {A : Type 0} → (A → Bool) → List A → Option A
find_first test [] = none
find_first test (x ∷ xs) = let rest = find_first test xs in if test x then some x else rest

abbrev pub find_in : {A : Type 0} → (A → Bool) → Option (List A) → Option A
find_in test items = find_first test (get_or items [])

-- `desired !== undefined && observed !== desired`, of flags.
abbrev pub flag_differs : Option Bool → Option Bool → Bool
flag_differs none observed = false
flag_differs (some wanted) none = true
flag_differs (some wanted) (some v) = if wanted then not v else v

module _ {W : Type 0} where
  -- The one resource of a list that passes a test, and `undefined` where the API finds none.
  abbrev pub found_or_missing :
      {A : Type 0}
      → (A → Bool)
      → Effect W ProviderError (Option (List A))
      → Effect W Failure (Option A)
  found_or_missing test request = widen (unless_missing none (fmap (find_in test) request))

  -- A request that is sent once.
  abbrev pub run_once :
      Service → String → Effect W SdkCause (Unit {0}) → Effect W Failure (Unit {0})
  run_once service operation request = widen (sdk_call service operation request)
