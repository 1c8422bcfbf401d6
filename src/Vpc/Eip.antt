-- ===== src/Vpc/Eip.antt =====
-- The provider of src/vpc/eip.ts: postpaid public addresses. `other_number` stands for JavaScript's
-- reading of texts that are no digits.
pub mod Operations
use Prim.Native.String.{◌++◌ as ◌<>◌}
use alchemy_alibaba.Prelude.{
  ℕ, String, Bool, true, false, not, ◌&&◌, ◌||◌, List, [], Option, none, some, ◌==◌, if◌then◌else◌,
  filter, str_eq,
}
use alchemy_alibaba.Effect.{Effect, succeed, raise}
use alchemy_alibaba.Effect.Chain.{◌>>=◌, ◌>>◌}
use alchemy_alibaba.Errors.{Failure, vpc}
use alchemy_alibaba.Errors.Classify.{get_or, or_else}
use alchemy_alibaba.Errors.Pattern.{codes}
use alchemy_alibaba.Lifecycle.Identity.{
  unique_match, require_region, require_value, physical_name, invariant_error,
  same_option as same_text,
}
use alchemy_alibaba.Lifecycle.Identity.Tags.{TagRecord, tags_equal}
use alchemy_alibaba.Lifecycle.Paginate.{paginate}
use alchemy_alibaba.Lifecycle.Wait.{wait_for_present, wait_for_absent}
use alchemy_alibaba.Gateway.Address.{number_of}
use alchemy_alibaba.Gateway.Decimal.{decimal_text}
use alchemy_alibaba.Provider.{
  Context, call, wait_label, Planned, unresolved, resolved, Plan, keep, Reading, missing, owned,
  unowned, is_given, is_text, differs_if_wanted, when, planned, replace_named, widen,
  ignore_missing, run, page_or_empty, for_each,
}
use alchemy_alibaba.Provider.Tags.{tag_list, tag_record, desired_tags, user_tags}
use alchemy_alibaba.Vpc.Client.{VpcClients, SdkEip, sync_tags}

pub record EipProps : Type 0 where
  pub name : Option String
  pub bandwidth : Option ℕ
  pub description : Option String
  pub internet_charge_type : Option String
  pub tags : Option TagRecord

-- `none` is a bandwidth that is no natural number, such as `NaN`.
pub record EipAttributes : Type 0 where
  pub allocation_id : String
  pub ip_address : String
  pub name : String
  pub region_id : String
  pub bandwidth : Option ℕ
  pub description : Option String
  pub status : Option String
  pub tags : TagRecord

-- `Eip.Type`
abbrev pub eip_type : String
eip_type = "Alibaba.VPC.Eip"

abbrev pub output_region : Option EipAttributes → Option String
output_region none = none
output_region (some o) = some o.region_id

abbrev pub output_id : Option EipAttributes → Option String
output_id none = none
output_id (some o) = some o.allocation_id

abbrev pub output_name : Option EipAttributes → Option String
output_name none = none
output_name (some o) = some o.name

abbrev pub wanted_bandwidth : EipProps → ℕ
wanted_bandwidth p = get_or p.bandwidth 5

abbrev pub charge_type : EipProps → String
charge_type p = get_or p.internet_charge_type "PayByTraffic"

-- `allocationId ? item.allocationId === allocationId : item.name === name`
abbrev pub is_eip : Option String → Option String → SdkEip → Bool
is_eip allocation_id name item =
    if is_given allocation_id
    then same_text item.allocation_id allocation_id
    else same_text item.name name

-- `ready`
abbrev pub is_ready : SdkEip → Bool
is_ready v = is_text "Available" v.status || is_text "InUse" v.status

abbrev pub is_number : Option ℕ → ℕ → Bool
is_number none n = false
is_number (some m) n = m == n

module _ (other_number : List ℕ → Option ℕ) where
  -- `Number(value.bandwidth)`
  abbrev pub bandwidth_of : Option String → Option ℕ
  bandwidth_of none = none
  bandwidth_of (some text) = number_of other_number (codes text)

  -- The fields that `ModifyEipAddressAttribute` sets.
  unfoldable pub eip_differs : String → EipProps → SdkEip → Bool
  eip_differs name p v =
      not (is_text name v.name)
      || not (is_number (bandwidth_of v.bandwidth) (wanted_bandwidth p))
      || differs_if_wanted p.description v.description

  -- The test that ends a reconcile.
  unfoldable pub eip_settled : String → EipProps → TagRecord → SdkEip → Bool
  eip_settled name p tags v =
      is_ready v
      && is_text name v.name
      && is_number (bandwidth_of v.bandwidth) (wanted_bandwidth p)
      && tags_equal (tag_record v.tags) tags
