-- ===== src/Vpc/Association.antt =====
-- The provider of src/vpc/eip-association.ts: the connection of a public address and its target.
pub mod Operations
use Prim.Native.String.{String}
use Prim.Native.Nat.{◌-◌}
use text.Mathlib.Text.{starts_with}
use alchemy_alibaba.Prelude.{
  ℕ, Bool, false, not, ◌&&◌, List, [], ◌∷◌, Option, none, some, str_eq, if◌then◌else◌,
}
use alchemy_alibaba.Effect.{Effect, succeed, raise, fmap}
use alchemy_alibaba.Effect.Chain.{◌>>=◌, ◌>>◌}
use alchemy_alibaba.Errors.{Failure, ProviderError, vpc}
use alchemy_alibaba.Errors.Classify.{get_or, when_some}
use alchemy_alibaba.Lifecycle.Identity.{require_region, invariant_error}
use alchemy_alibaba.Lifecycle.Wait.{wait_for}
use alchemy_alibaba.Provider.{
  Context, call, wait_label, Plan, keep, replace_first, Reading, missing, owned, is_given, is_text,
  planned, widen, ignore_missing, run, unless_missing, ListBody,
}
use alchemy_alibaba.Vpc.Client.{VpcClients, SdkEip}

pub record EipAssociationProps : Type 0 where
  pub allocation_id : String
  pub instance_id : String
  pub instance_type : String

pub record EipAssociationAttributes : Type 0 where
  pub props : EipAssociationProps
  pub region_id : String
  pub ip_address : String

-- Inputs of a plan; `none` is an input that is absent or not resolved.
pub record PlannedAssociation : Type 0 where
  pub allocation_id : Option String
  pub instance_id : Option String
  pub instance_type : Option String

-- `EipAssociation.Type`
abbrev pub association_type : String
association_type = "Alibaba.VPC.EipAssociation"

abbrev pub association_region : Option EipAssociationAttributes → Option String
association_region none = none
association_region (some o) = some o.region_id

abbrev pub same_props : EipAssociationProps → EipAssociationProps → Bool
same_props a b =
    str_eq a.allocation_id b.allocation_id
    && str_eq a.instance_id b.instance_id
    && str_eq a.instance_type b.instance_type

-- `matches`
unfoldable pub is_associated : Option SdkEip → EipAssociationProps → Bool
is_associated none props = false
is_associated (some v) props =
    is_text props.instance_id v.instance_id && is_text props.instance_type v.instance_type

-- `items?.find((value) => value.allocationId === allocationId)`
unfoldable pub find_eip : String → List SdkEip → Option SdkEip
find_eip allocation_id [] = none
find_eip allocation_id (v ∷ vs) =
    let rest = find_eip allocation_id vs in
    if is_text allocation_id v.allocation_id then some v else rest

abbrev found_in : String → ListBody SdkEip → Option SdkEip
found_in allocation_id body = find_eip allocation_id (get_or body.entries [])

-- The errors that leave a detachment to be repeated.
abbrev pub has_dependency : ProviderError → Bool
has_dependency e = when_some (λ c. starts_with c "DependencyViolation") e.code

abbrev address_of : Option SdkEip → Option String
address_of none = none
address_of (some v) = v.ip_address

abbrev target_of : Option SdkEip → Option String
target_of none = none
target_of (some v) = v.instance_id

abbrev status_of : Option SdkEip → Option String
status_of none = none
status_of (some v) = v.status

abbrev is_filled : String → Bool
is_filled s = not (str_eq s "")
