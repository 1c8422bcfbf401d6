-- ===== src/Lifecycle/Identity.antt =====
-- Identities, regions, names and tags: src/internal/identity.ts and src/internal/lifecycle.ts.
pub mod Tags
use Prim.Native.String.{◌++◌ as ◌<>◌}
use alchemy_alibaba.Prelude.{
  ℕ, String, Bool, true, false, ◌&&◌, List, [], ◌∷◌, Option, none, some, str_eq, if◌then◌else◌, ltb,
  length,
}
use alchemy_alibaba.Effect.{Result, ok, fail, Effect, succeed, raise, ◌>>=◌}
use alchemy_alibaba.Errors.{Failure, invariant}

abbrev pub invariant_error : String → String → String → Failure
invariant_error resource_type operation message =
    invariant (record { resource_type = resource_type; operation = operation; message = message })

abbrev pub head? : {A : Type 0} → List A → Option A
head? [] = none
head? (x ∷ xs) = some x

-- `undefined` has no text.
abbrev pub same_option : Option String → Option String → Bool
same_option none none = true
same_option (some a) (some b) = str_eq a b
same_option _ _ = false

module _ {W : Type 0} where
  -- `uniqueMatch`
  unfoldable pub unique_match : {A : Type 0} → List A → String → Effect W Failure (Option A)
  unique_match items resource_type =
      if ltb 1 (length items)
      then raise (
          invariant_error resource_type "ObserveIdentity"
            "Multiple resources match this name; resolve the inventory before continuing")
      else succeed (head? items)

  -- `replacement`; success stands for `{ action: "replace" }`.
  unfoldable pub replacement : String → Option String → Option String → Effect W Failure (Unit {0})
  replacement resource_type old_name none = succeed tt
  replacement resource_type old_name (some new_name) =
      if same_option old_name (some new_name)
      then raise (
          invariant_error resource_type "PlanReplacement"
            "Immutable settings changed with the same explicit name. Choose a new name for the replacement, or explicitly destroy the old resource first.")
      else succeed tt

  -- `requireRegion`
  unfoldable pub require_region : String → String → Option String → Effect W Failure (Unit {0})
  require_region resource_type configured none = succeed tt
  require_region resource_type configured (some requested) =
      if str_eq requested configured
      then succeed tt
      else raise (
          invariant_error resource_type "ValidateRegion" (
            "Configure an AlibabaClients layer for region " <> requested
            <> " before managing this resource"))

  -- `requireValue`
  unfoldable pub require_value :
      {A : Type 0} → Option A → String → String → String → Effect W Failure A
  require_value none resource_type operation message =
      raise (invariant_error resource_type operation message)
  require_value (some a) resource_type operation message = succeed a

  -- `physicalName`, over Alchemy's `createPhysicalName`.
  unfoldable pub physical_name :
      (String → ℕ → Effect W Failure String) → String → Option String → ℕ → Effect W Failure String
  physical_name create_physical_name id none max_length = create_physical_name id max_length
  physical_name create_physical_name id (some requested) max_length = succeed requested

  -- `requireRecoveryOwnership`, over Alchemy's `hasAlchemyTags`.
  unfoldable pub require_recovery_ownership :
      (String → List (String × String) → Effect W Failure Bool)
      → String
      → String
      → List (String × String)
      → Effect W Failure (Unit {0})
  require_recovery_ownership has_alchemy_tags id resource_type tags =
      has_alchemy_tags id tags >>= λ owned.
      if owned
      then succeed tt
      else raise (
          invariant_error resource_type "RecoverIdentity"
            "A matching name belongs to an unowned resource; adopt the identified resource explicitly before modifying it")
