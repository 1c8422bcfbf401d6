-- ===== src/Vpc/Nat.antt =====
-- The provider of src/vpc/nat-gateway.ts: enhanced NAT gateways of a network.
pub mod Operations
use Prim.Native.String.{◌++◌ as ◌<>◌}
use alchemy_alibaba.Prelude.{
  String, Bool, true, false, not, ◌&&◌, ◌||◌, List, [], ◌∷◌, Option, none, some, if◌then◌else◌,
  filter, str_eq,
}
use alchemy_alibaba.Effect.{Effect, succeed, raise}
use alchemy_alibaba.Effect.Chain.{◌>>=◌, ◌>>◌}
use alchemy_alibaba.Errors.{Failure, vpc}
use alchemy_alibaba.Errors.Classify.{get_or, or_else}
use alchemy_alibaba.Lifecycle.Identity.{
  unique_match, require_region, require_value, physical_name, invariant_error,
  same_option as same_text,
}
use alchemy_alibaba.Lifecycle.Identity.Tags.{TagRecord, tags_equal}
use alchemy_alibaba.Lifecycle.Paginate.{paginate}
use alchemy_alibaba.Lifecycle.Wait.{wait_for_present, wait_for_absent}
use alchemy_alibaba.Provider.{
  Context, call, wait_label, Planned, unresolved, resolved, Plan, keep, Reading, missing, owned,
  unowned, is_given, is_text, differs_if_wanted, when, planned, replace_named, widen,
  ignore_missing, run, page_or_empty, for_each,
}
use alchemy_alibaba.Provider.Tags.{tag_list, tag_record, desired_tags, user_tags}
use alchemy_alibaba.Vpc.Client.{VpcClients, SdkNat, sync_tags}

pub record NatGatewayProps : Type 0 where
  pub vpc_id : String
  pub v_switch_id : String
  pub name : Option String
  pub description : Option String
  pub tags : Option TagRecord

pub record NatGatewayAttributes : Type 0 where
  pub nat_gateway_id : String
  pub snat_table_id : String
  pub vpc_id : String
  pub v_switch_id : Option String
  pub name : String
  pub region_id : String
  pub description : Option String
  pub status : Option String
  pub tags : TagRecord

-- `NatGateway.Type`
abbrev pub nat_type : String
nat_type = "Alibaba.VPC.NatGateway"

abbrev pub output_region : Option NatGatewayAttributes → Option String
output_region none = none
output_region (some o) = some o.region_id

abbrev pub output_id : Option NatGatewayAttributes → Option String
output_id none = none
output_id (some o) = some o.nat_gateway_id

abbrev pub output_name : Option NatGatewayAttributes → Option String
output_name none = none
output_name (some o) = some o.name

-- `natGatewayId ? item.natGatewayId === natGatewayId : item.name === name`
abbrev pub is_nat : Option String → Option String → SdkNat → Bool
is_nat nat_gateway_id name item =
    if is_given nat_gateway_id
    then same_text item.nat_gateway_id nat_gateway_id
    else same_text item.name name

-- `ready`
abbrev pub is_ready : SdkNat → Bool
is_ready v = is_text "Available" v.status

abbrev first? : Option (List String) → Option String
first? (some (x ∷ xs)) = some x
first? _ = none

-- The fields that `ModifyNatGatewayAttribute` sets.
unfoldable pub nat_differs : String → NatGatewayProps → SdkNat → Bool
nat_differs name p v = not (is_text name v.name) || differs_if_wanted p.description v.description

-- The test that ends a reconcile; `tag_record v.tags` is `tagsOf`.
unfoldable pub nat_settled : String → TagRecord → SdkNat → Bool
nat_settled name tags v = is_ready v && is_text name v.name && tags_equal (tag_record v.tags) tags
