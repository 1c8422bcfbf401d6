-- ===== src/Vpc/Snat.antt =====
-- The provider of src/vpc/snat-entry.ts: the source address of a switch in the table of a NAT
-- gateway.
pub mod Operations
use Prim.Native.String.{◌++◌ as ◌<>◌}
use alchemy_alibaba.Prelude.{
  String, Bool, true, false, not, ◌&&◌, ◌||◌, Option, none, some, if◌then◌else◌, filter, str_eq,
}
use alchemy_alibaba.Effect.{Effect, succeed, raise}
use alchemy_alibaba.Effect.Chain.{◌>>=◌, ◌>>◌}
use alchemy_alibaba.Errors.{Failure, vpc}
use alchemy_alibaba.Errors.Classify.{get_or, or_else}
use alchemy_alibaba.Lifecycle.Identity.{
  unique_match, require_region, require_value, physical_name, invariant_error,
  same_option as same_text,
}
use alchemy_alibaba.Lifecycle.Paginate.{paginate}
use alchemy_alibaba.Lifecycle.Wait.{wait_for_present, wait_for_absent}
use alchemy_alibaba.Provider.{
  Context, call, wait_label, Plan, keep, replace, replace_first, is_given, is_text, when, planned,
  widen, ignore_missing, run, page_or_empty,
}
use alchemy_alibaba.Vpc.Client.{VpcClients, SdkSnat}

pub record SnatEntryProps : Type 0 where
  pub snat_table_id : String
  pub source_v_switch_id : String
  pub snat_ip : String
  pub name : Option String

pub record SnatEntryAttributes : Type 0 where
  pub snat_table_id : String
  pub source_v_switch_id : String
  pub snat_ip : String
  pub name : Option String
  pub snat_entry_id : String
  pub region_id : String

-- Inputs of a plan; `none` is an input that is absent or not resolved, and `rest` says whether the
-- address and the name are resolved.
pub record PlannedSnat : Type 0 where
  pub snat_table_id : Option String
  pub source_v_switch_id : Option String
  pub rest : Option (String × Option String)

-- `SnatEntry.Type`
abbrev pub snat_type : String
snat_type = "Alibaba.VPC.SnatEntry"

abbrev pub output_region : Option SnatEntryAttributes → Option String
output_region none = none
output_region (some o) = some o.region_id

abbrev pub output_id : Option SnatEntryAttributes → Option String
output_id none = none
output_id (some o) = some o.snat_entry_id

abbrev pub output_name : Option SnatEntryAttributes → Option String
output_name none = none
output_name (some o) = o.name

-- The attributes, where inputs are expected.
abbrev pub props_of : SnatEntryAttributes → SnatEntryProps
props_of o = record {
  snat_table_id = o.snat_table_id;
  source_v_switch_id = o.source_v_switch_id;
  snat_ip = o.snat_ip;
  name = o.name;
}

-- `snatEntryId ? v.snatEntryId === snatEntryId : v.sourceVSwitchId === props.sourceVSwitchId`
abbrev pub is_snat : SnatEntryProps → Option String → SdkSnat → Bool
is_snat props snat_entry_id v =
    if is_given snat_entry_id
    then same_text v.snat_entry_id snat_entry_id
    else is_text props.source_v_switch_id v.source_v_switch_id

-- The fields that `ModifySnatEntry` sets.
unfoldable pub snat_differs : SnatEntryProps → Option String → SdkSnat → Bool
snat_differs news name v =
    not (is_text news.snat_ip v.snat_ip) || not (same_text v.snat_entry_name name)

abbrev pub is_ready : SdkSnat → Bool
is_ready v = is_text "Available" v.status

-- The test that ends a reconcile.
unfoldable pub snat_settled : SnatEntryProps → String → SdkSnat → Bool
snat_settled news name v =
    is_ready v && is_text news.snat_ip v.snat_ip && is_text name v.snat_entry_name
