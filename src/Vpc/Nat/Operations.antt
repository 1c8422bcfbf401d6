-- ===== src/Vpc/Nat/Operations.antt =====
-- The operations of src/vpc/nat-gateway.ts.
use Prim.Native.String.{◌++◌ as ◌<>◌}
use alchemy_alibaba.Prelude.{
  String, Bool, true, false, not, ◌&&◌, ◌||◌, List, [], Option, none, some, if◌then◌else◌, filter,
  str_eq,
}
use alchemy_alibaba.Effect.{Effect, succeed, raise}
use alchemy_alibaba.Effect.Chain.{◌>>=◌, ◌>>◌}
use alchemy_alibaba.Errors.{Failure, vpc}
use alchemy_alibaba.Errors.Classify.{get_or, or_else}
use alchemy_alibaba.Lifecycle.Identity.{
  unique_match, require_region, require_value, physical_name, invariant_error,
}
use alchemy_alibaba.Lifecycle.Identity.Tags.{TagRecord, tags_equal}
use alchemy_alibaba.Lifecycle.Paginate.{paginate}
use alchemy_alibaba.Lifecycle.Wait.{wait_for_present, wait_for_absent}
use alchemy_alibaba.Provider.{
  Context, call, wait_label, Planned, unresolved, resolved, Plan, keep, Reading, missing, owned,
  unowned, is_text, when, planned, replace_named, widen, ignore_missing, run, page_or_empty,
  for_each,
}
use alchemy_alibaba.Provider.Tags.{tag_list, tag_record, desired_tags, user_tags}
use alchemy_alibaba.Vpc.Client.{VpcClients, SdkNat, sync_tags}
use alchemy_alibaba.Vpc.Nat.{
  NatGatewayProps, NatGatewayAttributes, nat_type, output_region, output_id, output_name, is_nat,
  is_ready, first?, nat_differs, nat_settled,
}

module _ {W : Type 0} (c : Context (VpcClients W) W) where
  -- `inventory`
  unfoldable pub nat_inventory : Option String → Option String → Effect W Failure (List SdkNat)
  nat_inventory nat_gateway_id name =
      paginate
        (record {
          service = vpc;
          operation = "DescribeNatGateways";
          page_size = none;
          max_pages = none;
        })
        (λ number size. page_or_empty (
          call c vpc "DescribeNatGateways" (
            c.clients.describe_nat_gateways (record {
              region_id = c.clients.region_id;
              nat_gateway_id = nat_gateway_id;
              name = name;
              page_number = number;
              page_size = size;
            }))))

  -- `get`
  unfoldable pub get_nat : Option String → Option String → Effect W Failure (Option SdkNat)
  unfolding nat_inventory
  get_nat nat_gateway_id name = nat_inventory nat_gateway_id name >>= λ items.
      unique_match (filter (is_nat nat_gateway_id name) items) nat_type

  -- `attrs`
  unfoldable pub nat_attributes : SdkNat → Effect W Failure NatGatewayAttributes
  nat_attributes v = do
    nat_gateway_id ← require_value v.nat_gateway_id nat_type "Read" "Missing NAT gateway id"
    snat_table_id ← require_value (first? v.snat_table_ids) nat_type "Read" "Missing SNAT table id"
    vpc_id ← require_value v.vpc_id nat_type "Read" "Missing NAT VPC id"
    succeed (record {
      nat_gateway_id = nat_gateway_id;
      snat_table_id = snat_table_id;
      vpc_id = vpc_id;
      v_switch_id = v.private_v_switch_id;
      name = get_or v.name "";
      region_id = c.clients.region_id;
      description = v.description;
      status = v.status;
      tags = user_tags c.alchemy.strip_internal_tags (some (tag_record v.tags));
    })

  -- `list`
  unfoldable pub list_nats : Effect W Failure (List NatGatewayAttributes)
  list_nats = nat_inventory none none >>= for_each nat_attributes

  abbrev pub nat_needs_update : NatGatewayProps → NatGatewayAttributes → Option SdkNat → Bool
  nat_needs_update news output none = true
  nat_needs_update news output (some v) =
      nat_differs (get_or news.name output.name) news v
      || not (
          tags_equal (user_tags c.alchemy.strip_internal_tags (some (tag_record v.tags)))
            (get_or news.tags []))

  abbrev diff_observed : NatGatewayProps → Option NatGatewayAttributes → Effect W Failure Plan
  diff_observed news none = succeed keep
  diff_observed news (some output) = do
    here ← require_region nat_type c.clients.region_id (some output.region_id)
    value ← get_nat (some output.nat_gateway_id) none
    planned (nat_needs_update news output value)

  -- `diff`
  unfoldable pub diff_nat :
      NatGatewayProps
      → Planned NatGatewayProps
      → Option NatGatewayAttributes
      → Effect W Failure Plan
  unfolding get_nat nat_differs
  diff_nat olds unresolved output = succeed keep
  diff_nat olds (resolved news) output =
      if str_eq olds.vpc_id news.vpc_id && str_eq olds.v_switch_id news.v_switch_id
      then diff_observed news output
      else replace_named nat_type olds.name news.name

  abbrev reading : String → Option SdkNat → Effect W Failure (Reading NatGatewayAttributes)
  reading id none = succeed missing
  reading id (some v) = do
    result ← nat_attributes v
    ours ← c.alchemy.has_alchemy_tags id (tag_record v.tags)
    succeed (if ours then owned result else unowned result)

  -- `read`
  unfoldable pub read_nat :
      String
      → NatGatewayProps
      → Option NatGatewayAttributes
      → Effect W Failure (Reading NatGatewayAttributes)
  unfolding get_nat nat_attributes
  read_nat id olds output = do
    here ← require_region nat_type c.clients.region_id (output_region output)
    name ←
        physical_name c.alchemy.create_physical_name id (or_else olds.name (output_name output)) 128
    value ← get_nat (output_id output) (some name)
    reading id value

  -- A gateway of the wanted name that this resource may not take over.
  unfoldable pub refuse_unowned :
      String → Option NatGatewayAttributes → Option SdkNat → Effect W Failure (Unit {0})
  refuse_unowned id none (some v) = c.alchemy.has_alchemy_tags id (tag_record v.tags) >>= λ ours.
      if ours
      then succeed tt
      else raise (
          invariant_error nat_type "Recover"
            "NAT name belongs to an unowned gateway; adopt it explicitly")
  refuse_unowned id output value = succeed tt

  unfoldable pub create_if_missing :
      String → NatGatewayProps → String → TagRecord → Option SdkNat → Effect W Failure SdkNat
  unfolding get_nat
  create_if_missing instance_id news name tags (some v) = succeed v
  create_if_missing instance_id news name tags none = do
    noted ← c.alchemy.note ("Creating NAT gateway " <> name)
    response ← widen (
        call c vpc "CreateNatGateway" (
          c.clients.create_nat_gateway (record {
            region_id = c.clients.region_id;
            name = name;
            vpc_id = news.vpc_id;
            v_switch_id = news.v_switch_id;
            description = news.description;
            nat_type = "Enhanced";
            network_type = "internet";
            instance_charge_type = "PostPaid";
            internet_charge_type = "PayByLcu";
            eip_bind_mode = "NAT";
            client_token = "create-" <> instance_id;
            tag = tag_list tags;
          })))
    nat_gateway_id ← require_value response nat_type "CreateNatGateway" "Missing NAT gateway id"
    wait_for_present c.runtime (wait_label c vpc "CreateNatGateway") is_ready
        (get_nat (some nat_gateway_id) none)

  -- The gateway stands in the wanted network.
  unfoldable pub require_placement : NatGatewayProps → SdkNat → Effect W Failure (Unit {0})
  require_placement news v =
      if not (is_text news.vpc_id v.vpc_id) || not (is_text news.v_switch_id v.private_v_switch_id)
      then raise (
          invariant_error nat_type "ObserveIdentity"
            "NAT gateway placement differs from the requested network")
      else succeed tt

  abbrev modify_nat : String → String → NatGatewayProps → Effect W Failure (Unit {0})
  modify_nat nat_gateway_id name news = run (
      call c vpc "ModifyNatGatewayAttribute" (
        c.clients.modify_nat_gateway_attribute (record {
          region_id = c.clients.region_id;
          nat_gateway_id = nat_gateway_id;
          name = name;
          description = news.description;
        })))

  -- `reconcile`
  unfoldable pub reconcile_nat :
      String
      → String
      → NatGatewayProps
      → Option NatGatewayAttributes
      → Effect W Failure NatGatewayAttributes
  unfolding get_nat refuse_unowned create_if_missing require_placement
  reconcile_nat id instance_id news output = do
    here ← require_region nat_type c.clients.region_id (output_region output)
    name ←
        physical_name c.alchemy.create_physical_name id (or_else news.name (output_name output)) 128
    tags ← desired_tags c.alchemy.create_internal_tags id news.tags
    found ← get_nat (output_id output) (some name)
    allowed ← refuse_unowned id output found
    value ← create_if_missing instance_id news name tags found
    nat_gateway_id ← require_value value.nat_gateway_id nat_type "Read" "Missing NAT gateway id"
    placed ← require_placement news value
    modified ← when (nat_differs name news value) (modify_nat nat_gateway_id name news)
    tagged ← sync_tags c "NATGATEWAY" nat_gateway_id (tag_record value.tags) tags
    wait_for_present c.runtime (wait_label c vpc "ReconcileNatGateway") (nat_settled name tags)
          (get_nat (some nat_gateway_id) none)
        >>= nat_attributes

  abbrev request_deletion : NatGatewayAttributes → SdkNat → Effect W Failure (Unit {0})
  request_deletion output v = when (not (is_text "Deleting" v.status)) (
      ignore_missing (
        call c vpc "DeleteNatGateway" (
          c.clients.delete_nat_gateway (record {
            region_id = c.clients.region_id;
            nat_gateway_id = output.nat_gateway_id;
            force = false;
          }))))

  abbrev remove : NatGatewayAttributes → Option SdkNat → Effect W Failure (Unit {0})
  remove output none = succeed tt
  remove output (some v) =
      request_deletion output v
      >> wait_for_absent c.runtime (wait_label c vpc "DeleteNatGateway")
          (get_nat (some output.nat_gateway_id) none)

  -- `delete`
  unfoldable pub delete_nat : NatGatewayAttributes → Effect W Failure (Unit {0})
  unfolding get_nat
  delete_nat output =
      require_region nat_type c.clients.region_id (some output.region_id) >>= λ here.
      get_nat (some output.nat_gateway_id) none >>= remove output
