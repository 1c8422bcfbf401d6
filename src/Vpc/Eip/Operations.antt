-- ===== src/Vpc/Eip/Operations.antt =====
-- The operations of src/vpc/eip.ts.
use Prim.Native.String.{◌++◌ as ◌<>◌}
use alchemy_alibaba.Prelude.{
  ℕ, String, Bool, true, not, ◌||◌, List, [], Option, none, some, if◌then◌else◌, filter, str_eq,
}
use alchemy_alibaba.Effect.{Effect, succeed, raise}
use alchemy_alibaba.Effect.Chain.{◌>>=◌, ◌>>◌}
use alchemy_alibaba.Errors.{Failure, vpc}
use alchemy_alibaba.Errors.Classify.{get_or, or_else}
use alchemy_alibaba.Lifecycle.Identity.{
  unique_match, require_region, require_value, physical_name, invariant_error,
}
use alchemy_alibaba.Lifecycle.Identity.Tags.{TagRecord, tags_equal}
use alchemy_alibaba.Lifecycle.Paginate.{paginate}
use alchemy_alibaba.Lifecycle.Wait.{wait_for_present, wait_for_absent}
use alchemy_alibaba.Gateway.Decimal.{decimal_text}
use alchemy_alibaba.Provider.{
  Context, call, wait_label, Planned, unresolved, resolved, Plan, keep, Reading, missing, owned,
  unowned, when, planned, replace_named, widen, ignore_missing, run, page_or_empty, for_each,
}
use alchemy_alibaba.Provider.Tags.{tag_list, tag_record, desired_tags, user_tags}
use alchemy_alibaba.Vpc.Client.{VpcClients, SdkEip, sync_tags}
use alchemy_alibaba.Vpc.Eip.{
  EipProps, EipAttributes, eip_type, output_region, output_id, output_name, wanted_bandwidth,
  charge_type, is_eip, is_ready, bandwidth_of, eip_differs, eip_settled,
}

module _ {W : Type 0} (c : Context (VpcClients W) W) where
  -- `inventory`
  unfoldable pub eip_inventory : Option String → Option String → Effect W Failure (List SdkEip)
  eip_inventory allocation_id name =
      paginate
        (record {
          service = vpc;
          operation = "DescribeEipAddresses";
          page_size = none;
          max_pages = none;
        })
        (λ number size. page_or_empty (
          call c vpc "DescribeEipAddresses" (
            c.clients.describe_eip_addresses (record {
              region_id = c.clients.region_id;
              allocation_id = allocation_id;
              eip_name = name;
              page_number = some number;
              page_size = some size;
            }))))

  -- `get`
  unfoldable pub get_eip : Option String → Option String → Effect W Failure (Option SdkEip)
  unfolding eip_inventory
  get_eip allocation_id name = eip_inventory allocation_id name >>= λ items.
      unique_match (filter (is_eip allocation_id name) items) eip_type

  -- An address of the wanted name that this resource may not take over.
  unfoldable pub refuse_unowned :
      String → Option EipAttributes → Option SdkEip → Effect W Failure (Unit {0})
  refuse_unowned id none (some v) = c.alchemy.has_alchemy_tags id (tag_record v.tags) >>= λ ours.
      if ours
      then succeed tt
      else raise (
          invariant_error eip_type "Recover"
            "EIP name belongs to an unowned address; adopt it explicitly")
  refuse_unowned id output value = succeed tt

  unfoldable pub allocate_if_missing :
      String → EipProps → String → TagRecord → Option SdkEip → Effect W Failure SdkEip
  unfolding get_eip
  allocate_if_missing instance_id news name tags (some v) = succeed v
  allocate_if_missing instance_id news name tags none = do
    noted ← c.alchemy.note ("Allocating EIP " <> name)
    response ← widen (
        call c vpc "AllocateEipAddress" (
          c.clients.allocate_eip_address (record {
            region_id = c.clients.region_id;
            name = name;
            bandwidth = decimal_text (wanted_bandwidth news);
            description = news.description;
            internet_charge_type = charge_type news;
            instance_charge_type = "PostPaid";
            client_token = "create-" <> instance_id;
            tag = tag_list tags;
          })))
    allocation_id ← require_value response eip_type "AllocateEipAddress" "Missing EIP allocation id"
    wait_for_present c.runtime (wait_label c vpc "AllocateEipAddress") is_ready
        (get_eip (some allocation_id) none)

  abbrev modify_eip : String → String → EipProps → Effect W Failure (Unit {0})
  modify_eip allocation_id name news = run (
      call c vpc "ModifyEipAddressAttribute" (
        c.clients.modify_eip_address_attribute (record {
          region_id = c.clients.region_id;
          allocation_id = allocation_id;
          name = name;
          bandwidth = decimal_text (wanted_bandwidth news);
          description = news.description;
        })))

  abbrev release : EipAttributes → Option SdkEip → Effect W Failure (Unit {0})
  release output none = succeed tt
  release output (some v) =
      ignore_missing (
        call c vpc "ReleaseEipAddress" (
          c.clients.release_eip_address
            (record { region_id = c.clients.region_id; allocation_id = output.allocation_id })))
      >> wait_for_absent c.runtime (wait_label c vpc "ReleaseEipAddress")
          (get_eip (some output.allocation_id) none)

  -- `delete`
  unfoldable pub delete_eip : EipAttributes → Effect W Failure (Unit {0})
  unfolding get_eip
  delete_eip output =
      require_region eip_type c.clients.region_id (some output.region_id) >>= λ here.
      get_eip (some output.allocation_id) none >>= release output

module _ {W : Type 0} (c : Context (VpcClients W) W) (other_number : List ℕ → Option ℕ) where
  -- `attrs`
  unfoldable pub eip_attributes : SdkEip → Effect W Failure EipAttributes
  eip_attributes v = do
    allocation_id ← require_value v.allocation_id eip_type "Read" "Missing EIP allocation id"
    ip_address ← require_value v.ip_address eip_type "Read" "Missing EIP address"
    succeed (record {
      allocation_id = allocation_id;
      ip_address = ip_address;
      name = get_or v.name "";
      region_id = c.clients.region_id;
      bandwidth = bandwidth_of other_number v.bandwidth;
      description = v.description;
      status = v.status;
      tags = user_tags c.alchemy.strip_internal_tags (some (tag_record v.tags));
    })

  -- `list`
  unfoldable pub list_eips : Effect W Failure (List EipAttributes)
  list_eips = eip_inventory c none none >>= for_each eip_attributes

  abbrev pub eip_needs_update : EipProps → EipAttributes → Option SdkEip → Bool
  eip_needs_update news output none = true
  eip_needs_update news output (some v) =
      eip_differs other_number (get_or news.name output.name) news v
      || not (
          tags_equal (user_tags c.alchemy.strip_internal_tags (some (tag_record v.tags)))
            (get_or news.tags []))

  abbrev diff_observed : EipProps → Option EipAttributes → Effect W Failure Plan
  diff_observed news none = succeed keep
  diff_observed news (some output) = do
    here ← require_region eip_type c.clients.region_id (some output.region_id)
    value ← get_eip c (some output.allocation_id) none
    planned (eip_needs_update news output value)

  -- `diff`
  unfoldable pub diff_eip :
      EipProps → Planned EipProps → Option EipAttributes → Effect W Failure Plan
  unfolding get_eip eip_differs
  diff_eip olds unresolved output = succeed keep
  diff_eip olds (resolved news) output =
      if str_eq (charge_type olds) (charge_type news)
      then diff_observed news output
      else replace_named eip_type olds.name news.name

  abbrev reading : String → Option SdkEip → Effect W Failure (Reading EipAttributes)
  reading id none = succeed missing
  reading id (some v) = do
    result ← eip_attributes v
    ours ← c.alchemy.has_alchemy_tags id (tag_record v.tags)
    succeed (if ours then owned result else unowned result)

  -- `read`
  unfoldable pub read_eip :
      String → EipProps → Option EipAttributes → Effect W Failure (Reading EipAttributes)
  unfolding get_eip eip_attributes
  read_eip id olds output = do
    here ← require_region eip_type c.clients.region_id (output_region output)
    name ←
        physical_name c.alchemy.create_physical_name id (or_else olds.name (output_name output)) 128
    value ← get_eip c (output_id output) (some name)
    reading id value

  -- `reconcile`
  unfoldable pub reconcile_eip :
      String → String → EipProps → Option EipAttributes → Effect W Failure EipAttributes
  unfolding get_eip refuse_unowned allocate_if_missing
  reconcile_eip id instance_id news output = do
    here ← require_region eip_type c.clients.region_id (output_region output)
    name ←
        physical_name c.alchemy.create_physical_name id (or_else news.name (output_name output)) 128
    tags ← desired_tags c.alchemy.create_internal_tags id news.tags
    found ← get_eip c (output_id output) (some name)
    allowed ← refuse_unowned c id output found
    value ← allocate_if_missing c instance_id news name tags found
    allocation_id ← require_value value.allocation_id eip_type "Read" "Missing EIP allocation id"
    modified ←
        when (eip_differs other_number name news value) (modify_eip c allocation_id name news)
    tagged ← sync_tags c "EIP" allocation_id (tag_record value.tags) tags
    wait_for_present c.runtime (wait_label c vpc "ReconcileEip")
          (eip_settled other_number name news tags) (get_eip c (some allocation_id) none)
        >>= eip_attributes
