-- ===== src/Vpc/Association/Operations.antt =====
-- The operations of src/vpc/eip-association.ts.
use Prim.Native.String.{String}
use Prim.Native.Nat.{◌-◌}
use alchemy_alibaba.Prelude.{ℕ, Bool, false, not, ◌&&◌, Option, none, some, if◌then◌else◌}
use alchemy_alibaba.Effect.{Effect, succeed, raise, fmap}
use alchemy_alibaba.Effect.Chain.{◌>>=◌, ◌>>◌}
use alchemy_alibaba.Errors.{Failure, ProviderError, vpc}
use alchemy_alibaba.Errors.Classify.{get_or}
use alchemy_alibaba.Lifecycle.Identity.{require_region, invariant_error}
use alchemy_alibaba.Lifecycle.Wait.{wait_for}
use alchemy_alibaba.Provider.{
  Context, call, wait_label, Plan, keep, replace_first, Reading, missing, owned, is_given, is_text,
  planned, widen, ignore_missing, run, unless_missing,
}
use alchemy_alibaba.Vpc.Client.{VpcClients, SdkEip}
use alchemy_alibaba.Vpc.Association.{
  EipAssociationProps, EipAssociationAttributes, PlannedAssociation, association_type,
  association_region, same_props, is_associated, find_eip, found_in, has_dependency, address_of,
  target_of, status_of, is_filled,
}

module _ {W : Type 0} (c : Context (VpcClients W) W) where
  -- `get`
  unfoldable pub get_association : String → Effect W Failure (Option SdkEip)
  unfolding find_eip
  get_association allocation_id = widen (
      unless_missing none (
        fmap (found_in allocation_id) (
          call c vpc "DescribeEipAddresses" (
            c.clients.describe_eip_addresses (record {
              region_id = c.clients.region_id;
              allocation_id = some allocation_id;
              eip_name = none;
              page_number = none;
              page_size = none;
            })))))

  abbrev diff_observed :
      EipAssociationProps → Option EipAssociationAttributes → Effect W Failure Plan
  diff_observed news none = succeed keep
  diff_observed news (some output) = do
    here ← require_region association_type c.clients.region_id (some output.region_id)
    value ← get_association news.allocation_id
    planned (not (is_associated value news))

  abbrev diff_resolved :
      EipAssociationProps
      → EipAssociationProps
      → Option EipAssociationAttributes
      → Effect W Failure Plan
  diff_resolved olds news output =
      if same_props olds news then diff_observed news output else succeed replace_first

  -- `diff`
  unfoldable pub diff_association :
      EipAssociationProps
      → PlannedAssociation
      → Option EipAssociationAttributes
      → Effect W Failure Plan
  unfolding get_association is_associated
  diff_association olds news output = elim news.allocation_id [
    | none ↦ succeed replace_first
    | some allocation_id ↦ elim news.instance_id [
      | none ↦ succeed replace_first
      | some instance_id ↦ elim news.instance_type [
        | none ↦ succeed keep
        | some instance_type ↦
            diff_resolved olds
              (record {
                allocation_id = allocation_id;
                instance_id = instance_id;
                instance_type = instance_type;
              })
              output
      ]
    ]
  ]

  abbrev reading :
      EipAssociationProps → Option SdkEip → Effect W Failure (Reading EipAssociationAttributes)
  reading props value = elim (address_of value) [
    | none ↦ succeed missing
    | some ip ↦ succeed (
        if is_associated value props && is_filled ip
        then owned (record { props = props; region_id = c.clients.region_id; ip_address = ip })
        else missing)
  ]

  abbrev props_or : EipAssociationProps → Option EipAssociationAttributes → EipAssociationProps
  props_or olds none = olds
  props_or olds (some o) = o.props

  -- `read`, of inputs that are resolved.
  unfoldable pub read_association :
      EipAssociationProps
      → Option EipAssociationAttributes
      → Effect W Failure (Reading EipAssociationAttributes)
  unfolding get_association is_associated
  read_association olds output =
      require_region association_type c.clients.region_id (association_region output) >>= λ here.
      let props = props_or olds output in
      if is_filled props.allocation_id && is_filled props.instance_id
      then get_association props.allocation_id >>= reading props
      else succeed missing

  abbrev unassociate : EipAssociationProps → Effect W ProviderError (Unit {0})
  unassociate props = call c vpc "UnassociateEipAddress" (
      c.clients.unassociate_eip_address (record {
        allocation_id = props.allocation_id;
        instance_id = props.instance_id;
        instance_type = props.instance_type;
        region_id = c.clients.region_id;
        force = false;
      }))

  abbrev await_detached : String → EipAssociationProps → Effect W Failure (Option SdkEip)
  await_detached operation props =
      wait_for c.runtime (wait_label c vpc operation) (λ v. not (is_associated v props))
        (get_association props.allocation_id)

  abbrev detach_if_attached : EipAssociationProps → Option SdkEip → Effect W Failure (Unit {0})
  detach_if_attached props value =
      if is_associated value props
      then run (unassociate props) >> fmap (λ _. tt) (await_detached "UnassociatePreviousEip" props)
      else succeed tt

  -- The association that the resource had before.
  unfoldable pub detach_previous :
      EipAssociationProps → Option EipAssociationAttributes → Effect W Failure (Unit {0})
  unfolding get_association is_associated
  detach_previous news none = succeed tt
  detach_previous news (some output) =
      if same_props output.props news
      then succeed tt
      else get_association output.props.allocation_id >>= detach_if_attached output.props

  abbrev ready_association : EipAssociationProps → Option SdkEip → Bool
  ready_association news v = is_associated v news && is_text "InUse" (status_of v)

  -- The address, associated with the wanted target.
  unfoldable pub associate_if_needed :
      EipAssociationProps → Option SdkEip → Effect W Failure (Option SdkEip)
  unfolding get_association is_associated
  associate_if_needed news value =
      if is_associated value news
      then succeed value
      else if is_given (target_of value)
      then raise (
          invariant_error association_type "Associate"
            "EIP is already associated with another target")
      else run (
          call c vpc "AssociateEipAddress" (
            c.clients.associate_eip_address (record {
              allocation_id = news.allocation_id;
              instance_id = news.instance_id;
              instance_type = news.instance_type;
              region_id = c.clients.region_id;
            })))
        >> wait_for c.runtime (wait_label c vpc "AssociateEipAddress") (ready_association news)
            (get_association news.allocation_id)

  abbrev no_address : Effect W Failure EipAssociationAttributes
  no_address = raise (invariant_error association_type "Read" "EIP has no public address")

  unfoldable pub association_attributes :
      EipAssociationProps → Option SdkEip → Effect W Failure EipAssociationAttributes
  association_attributes news value = elim (address_of value) [
    | none ↦ no_address
    | some ip ↦
        if is_filled ip
        then succeed (record { props = news; region_id = c.clients.region_id; ip_address = ip })
        else no_address
  ]

  -- `reconcile`
  unfoldable pub reconcile_association :
      EipAssociationProps
      → Option EipAssociationAttributes
      → Effect W Failure EipAssociationAttributes
  unfolding get_association detach_previous associate_if_needed association_attributes
  reconcile_association news output = do
    here ← require_region association_type c.clients.region_id (association_region output)
    detached ← detach_previous news output
    found ← get_association news.allocation_id
    value ← associate_if_needed news found
    association_attributes news value

  -- The pause of `Effect.retry` around a refused detachment.
  abbrev retry_pause : ℕ
  retry_pause = get_or c.wait.interval 5000

  -- The requests that detach, repeated while a dependency is left.
  unfoldable pub unassociate_patiently : EipAssociationProps → Effect W Failure (Unit {0})
  unassociate_patiently props = ignore_missing (
      c.runtime.retry ProviderError (Unit {0}) (λ _ _ _. retry_pause)
        (get_or c.wait.attempts 60 - 1) has_dependency (unassociate props))

  abbrev detach : EipAssociationProps → Option SdkEip → Effect W Failure (Unit {0})
  detach props value =
      if is_associated value props
      then unassociate_patiently props
        >> fmap (λ _. tt) (await_detached "UnassociateEipAddress" props)
      else succeed tt

  -- `delete`
  unfoldable pub delete_association : EipAssociationAttributes → Effect W Failure (Unit {0})
  unfolding get_association is_associated unassociate_patiently
  delete_association output =
      require_region association_type c.clients.region_id (some output.region_id) >>= λ here.
      get_association output.props.allocation_id >>= detach output.props
