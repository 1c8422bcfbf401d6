-- ===== src/Tests/Addresses.antt =====
-- The VPC providers over a small cloud: the world is the list of its public addresses.
use alchemy_alibaba.Prelude.{
  ℕ, ◌≡◌, refl, String, List, [], ◌∷◌, ◌++◌, map, Option, none, some, filter, not, if◌then◌else◌,
}
use alchemy_alibaba.Effect.{ok, Effect, succeed}
use alchemy_alibaba.Effect.Chain.{◌>>=◌}
use alchemy_alibaba.Errors.Classify.{SdkCause, or_else}
use alchemy_alibaba.Errors.Calls.{retrying_sdk_call, retry_within_budget, sdk_call}
use alchemy_alibaba.Lifecycle.Identity.{unique_match, require_region, require_value, physical_name}
use alchemy_alibaba.Lifecycle.Identity.Tags.{TagRecord, lookup, tags_equal, HasUniqueKeys}
use alchemy_alibaba.Lifecycle.Paginate.{paginate, drain, reached_end}
use alchemy_alibaba.Lifecycle.Observe.{with_defaults, observe_until}
use alchemy_alibaba.Lifecycle.Wait.{wait_for, wait_for_present, wait_for_absent}
use alchemy_alibaba.Gateway.Address.{number_of}
use alchemy_alibaba.Gateway.Decimal.{decimal_text}
use alchemy_alibaba.Provider.{Context, call, ListBody, is_text}
use alchemy_alibaba.Provider.Tags.{
  tag_list, tag_record, desired_tags, user_tags, spread, put_entry, put_tags, desired_tags-lookup,
  tag_record-lookup, SdkTag,
}
use alchemy_alibaba.Vpc.Client.{VpcClients, SdkEip, AllocateEip, ModifyEip, TagResources, sync_tags}
use alchemy_alibaba.Vpc.Eip.{EipProps, EipAttributes, eip_differs, eip_settled}
use alchemy_alibaba.Vpc.Eip.Operations.{
  get_eip, eip_inventory, reconcile_eip, delete_eip, eip_attributes, refuse_unowned,
  allocate_if_missing,
}
use alchemy_alibaba.Vpc.Reconcile.{ReconciledEip, reconcile_eip-Reconciled}
use alchemy_alibaba.Vpc.Delete.{eip, DeletedAt, delete_deployed-DeletedAt}
use alchemy_alibaba.Tests.Clock.{Scripted, clock, clock_lawful, script}

abbrev Cloud : Type 0
Cloud = Scripted SdkEip

abbrev entries : Effect Cloud SdkCause (ListBody SdkEip)
entries s = (ok (record { entries = some s.answers; total_count = none }), s)

abbrev nothing : {R : Type 0} → Effect Cloud SdkCause (ListBody R)
nothing = succeed (record { entries = none; total_count = some 0 })

abbrev new_address : AllocateEip → SdkEip
new_address r = record {
  allocation_id = some "eip-1";
  ip_address = some "203.0.113.7";
  name = some r.name;
  bandwidth = some r.bandwidth;
  description = r.description;
  status = some "Available";
  instance_id = none;
  instance_type = none;
  tags = some r.tag;
}

abbrev modified : ModifyEip → SdkEip → SdkEip
modified r v = record v { name = some r.name; bandwidth = some r.bandwidth }

abbrev tagged : TagResources → SdkEip → SdkEip
tagged r v = record v { tags = some r.tag }

abbrev done : Effect Cloud SdkCause (Unit {0})
done = succeed tt

abbrev cloud_clients : VpcClients Cloud
cloud_clients = record {
  region_id = "cn-hangzhou";
  describe_eip_addresses = λ q. entries;
  allocate_eip_address =
      λ r s. (ok (some "eip-1"), record s { answers = s.answers ++ (new_address r ∷ []) });
  modify_eip_address_attribute = λ r s. (ok tt, record s { answers = map (modified r) s.answers });
  release_eip_address = λ r s. (
    ok tt,
    record s { answers = filter (λ v. not (is_text r.allocation_id v.allocation_id)) s.answers },
  );
  associate_eip_address = λ r. done;
  unassociate_eip_address = λ r. done;
  describe_nat_gateways = λ q. nothing;
  create_nat_gateway = λ r. succeed none;
  modify_nat_gateway_attribute = λ r. done;
  delete_nat_gateway = λ r. done;
  describe_snat_table_entries = λ q. nothing;
  create_snat_entry = λ r. succeed none;
  modify_snat_entry = λ r. done;
  delete_snat_entry = λ r. done;
  tag_resources = λ r s. (ok tt, record s { answers = map (tagged r) s.answers });
  un_tag_resources = λ r. done;
}

abbrev internal : TagRecord
internal = ("alchemy:id", "web") ∷ []

abbrev cloud : Context (VpcClients Cloud) Cloud
cloud = record {
  runtime = clock SdkEip;
  alchemy = record {
    has_alchemy_tags = λ id tags. succeed (is_text "web" (lookup "alchemy:id" tags));
    create_internal_tags = λ id. succeed internal;
    strip_internal_tags = λ tags. tags;
    create_physical_name = λ id max. succeed "web-1";
    diff_tags = λ observed desired. record {
      removed = [];
      upsert = if tags_equal observed desired then [] else desired;
    };
    note = λ text. succeed tt;
  };
  clients = cloud_clients;
  wait = record { attempts = some 3; interval = some 10 };
}

abbrev digits_only : List ℕ → Option ℕ
digits_only s = none

abbrev web : EipProps
web = record {
  name = none;
  bandwidth = some 20;
  description = none;
  internet_charge_type = none;
  tags = some (("team", "core") ∷ []);
}

abbrev web_attributes : EipAttributes
web_attributes = record {
  allocation_id = "eip-1";
  ip_address = "203.0.113.7";
  name = "web-1";
  region_id = "cn-hangzhou";
  bandwidth = some 20;
  description = none;
  status = some "Available";
  tags = ("team", "core") ∷ ("alchemy:id", "web") ∷ [];
}

abbrev web_address : SdkEip
web_address = record {
  allocation_id = some "eip-1";
  ip_address = some "203.0.113.7";
  name = some "web-1";
  bandwidth = some "20";
  description = none;
  status = some "Available";
  instance_id = none;
  instance_type = none;
  tags = some (tag_list (("team", "core") ∷ ("alchemy:id", "web") ∷ []));
}

reconcile_eip-Reconciled_example :
    ReconciledEip cloud "web" digits_only web none web_attributes (script (web_address ∷ []))
unfolding reconcile_eip eip_attributes get_eip eip_inventory desired_tags spread put_entry
    tag_record put_tags user_tags paginate drain reached_end unique_match require_region
    require_value physical_name refuse_unowned allocate_if_missing call retrying_sdk_call
    retry_within_budget sdk_call wait_for_present observe_until with_defaults eip_differs
    eip_settled tags_equal lookup number_of decimal_text sync_tags ◌>>=◌
reconcile_eip-Reconciled_example =
    reconcile_eip-Reconciled cloud "web" digits_only web none (clock_lawful SdkEip) "i-1"
      web_attributes (script []) (script (web_address ∷ [])) refl

delete_deployed-DeletedAt_example : DeletedAt cloud (eip web_attributes) (script [])
unfolding delete_eip get_eip eip_inventory paginate drain reached_end unique_match require_region
    call retrying_sdk_call retry_within_budget sdk_call wait_for_absent wait_for observe_until
    with_defaults ◌>>=◌
delete_deployed-DeletedAt_example =
    delete_deployed-DeletedAt cloud (clock_lawful SdkEip) (eip web_attributes)
      (script (web_address ∷ [])) (script []) refl

abbrev core_tags : TagRecord
core_tags = ("team", "core") ∷ ("alchemy:id", "mine") ∷ []

desired_tags-lookup_example :
    (wanted : TagRecord) × (desired_tags cloud.alchemy.create_internal_tags "web"
        (some core_tags)
        (script [])
      ≡ (ok wanted, script []))
    × HasUniqueKeys wanted
    × ((k : String) → lookup k wanted ≡ or_else (lookup k internal) (lookup k core_tags))
unfolding lookup
desired_tags-lookup_example =
    desired_tags-lookup cloud.alchemy.create_internal_tags "web" core_tags internal (script [])
      (script []) refl (refl, (refl, tt)) (refl, tt)

abbrev retagged : Option (List SdkTag)
retagged = some (tag_list (("team", "core") ∷ ("team", "edge") ∷ []))

tag_record-lookup_example : lookup "team" (tag_record retagged) ≡ some "edge"
tag_record-lookup_example = tag_record-lookup "team" retagged
