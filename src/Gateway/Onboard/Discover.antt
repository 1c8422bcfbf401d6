-- ===== src/Gateway/Onboard/Discover.antt =====
-- `discover` and `buildPlan` of packages/rds-access/src/gateway/onboard.ts: what exists, and the plan.
use Prim.Native.String.{◌++◌ as ◌<>◌}
use alchemy_alibaba.Prelude.{
  ℕ, zero, suc, String, Bool, true, false, not, List, [], ◌∷◌, Option, none, some, ◌==◌, str_eq,
  if◌then◌else◌, any,
}
use alchemy_alibaba.Effect.{Result, Effect, succeed, raise, ◌>>=◌, ◌>>◌, catch_if, Runtime}
use alchemy_alibaba.Errors.Classify.{or_else}
use alchemy_alibaba.Gateway.Model.{
  AccessError, PeerConnectionInfo, RouteEntryInfo, ConnectivityInput,
}
use alchemy_alibaba.Gateway.Route.{failure}
use alchemy_alibaba.Gateway.Connectivity.{plan_connectivity}
use alchemy_alibaba.Gateway.Planners.{plan_whitelist, plan_account, AccountPlan}
use alchemy_alibaba.Gateway.Grants.{build_grant_statements}
use alchemy_alibaba.Gateway.Onboard.Api.{
  OnboardingInput, OnboardingOptions, RdsInstanceInfo, GatewayTopology, VpcInfo, VSwitchInfo,
  GrantsPlan, Verification, pending, skipped, GatewayApi, Postgres, Discovery,
}
use alchemy_alibaba.Gateway.Onboard.Steps.{grant_options, verify_grants}

-- `text.slice(0, n)`, where a character is one unit, as in the names that the input's schema admits.
unfoldable pub take_text : ℕ → String → String
take_text n String.[] = ""
take_text zero (String.◌∷◌ c s) = ""
take_text (suc n) (String.◌∷◌ c s) = String.◌∷◌ c (take_text n s)

abbrev pub from_result : {W A : Type 0} → Result AccessError A → Effect W AccessError A
from_result r s = (r, s)

-- Both owners are known and differ.
abbrev pub other_owner : Option ℕ → Option ℕ → Bool
other_owner (some a) (some b) = not (a == b)
other_owner _ _ = false

abbrev pub check : {W : Type 0} → Bool → String → Effect W AccessError (Unit {0})
check wrong message = if wrong then raise (failure message) else succeed tt

abbrev pub connectivity_input :
    OnboardingInput
    → OnboardingOptions
    → RdsInstanceInfo
    → GatewayTopology
    → VpcInfo
    → VSwitchInfo
    → List PeerConnectionInfo
    → List RouteEntryInfo
    → List RouteEntryInfo
    → ConnectivityInput
connectivity_input input options rds gateway rds_vpc rds_switch peerings gateway_routes rds_routes =
    record {
      gateway = record {
        vpc_id = gateway.vpc.vpc_id;
        v_switch_id = gateway.v_switch.v_switch_id;
        route_table_id = gateway.v_switch.route_table_id;
        private_ip = gateway.instance.private_ip;
        vpc_cidr = gateway.vpc.cidr_block;
      };
      rds = record {
        vpc_id = rds.vpc_id;
        v_switch_id = rds.v_switch_id;
        route_table_id = rds_switch.route_table_id;
        private_ip = rds.endpoint.ip_address;
        vpc_cidr = rds_vpc.cidr_block;
      };
      peerings = peerings;
      gateway_routes = gateway_routes;
      rds_routes = rds_routes;
      create_peering = options.create_peering;
      peering_name = take_text 128 ("gateway-" <> input.database <> "-" <> input.instance_id);
    }

module _ (encode lower : String → String) (other_number : List ℕ → Option ℕ) {W : Type 0}
    (api : GatewayApi W) (sql : Postgres W) (rt : Runtime W) (input : OnboardingInput)
    (options : OnboardingOptions) where
  abbrev pending_grants : Verification → String → GrantsPlan
  pending_grants verification issue = record {
    is_changed = true;
    verification = verification;
    issues = issue ∷ [];
    statements = build_grant_statements (grant_options encode rt api sql input);
  }

  -- The grants: not looked at without a password, pending without an account, else verified; a
  -- verification that fails is recorded.
  abbrev pub discover_grants :
      RdsInstanceInfo → AccountPlan → Option String → Effect W AccessError GrantsPlan
  discover_grants rds account none =
      succeed
        (pending_grants skipped "account password was not provided; permissions were not verified")
  discover_grants rds account (some password) =
      if account.is_present
      then catch_if (λ _. true)
          (λ e.
            succeed
              (pending_grants pending ("permission verification was unavailable: " <> e.message)))
          (verify_grants encode rt api sql input rds password)
      else succeed (pending_grants pending ("account " <> input.account <> " does not exist yet"))

  -- `discover`
  unfoldable pub discover : Effect W AccessError Discovery
  unfolding take_text
  discover = do
    rds ← api.get_instance input.instance_id
    check (not (any (str_eq input.database) rds.databases)) (
        "Database " <> input.database <> " does not exist on " <> input.instance_id
        <> ". Create it outside this tool; onboarding never creates or drops databases.")
    gateway ← api.get_topology (or_else input.gateway_instance_id options.gateway_instance_id)
    rds_vpc ← api.get_vpc rds.vpc_id
    check (other_owner gateway.vpc.owner_id rds_vpc.owner_id)
        "The gateway and database VPCs belong to different Alibaba Cloud accounts; cross-account peering is not supported by this tool."
    check (not (str_eq rds_vpc.region_id gateway.vpc.region_id)) (
        "The gateway VPC is in " <> gateway.vpc.region_id <> " and the database VPC is in "
        <> rds_vpc.region_id <> "; cross-region onboarding is not supported.")
    rds_switch ← api.get_v_switch rds.v_switch_id
    peerings ← api.get_peerings (gateway.vpc.vpc_id ∷ rds.vpc_id ∷ [])
    gateway_routes ← api.get_routes gateway.v_switch.route_table_id
    rds_routes ← api.get_routes rds_switch.route_table_id
    connectivity ← from_result (
        plan_connectivity
          (connectivity_input input options rds gateway rds_vpc rds_switch peerings gateway_routes
            rds_routes)
          other_number)
    groups ← api.get_groups input.instance_id input.network_type
    whitelist ← from_result (
        plan_whitelist lower (record {
          groups = groups.all_groups;
          network_groups = groups.network;
          group_name = input.whitelist_group;
          network_type = input.network_type;
          gateway_ip = gateway.instance.private_ip;
        }))
    account ← from_result (plan_account lower input.account rds.accounts)
    grants ← discover_grants rds account options.account_password
    succeed (record {
      rds = rds;
      topology = gateway;
      connectivity = connectivity;
      whitelist = whitelist;
      account = account;
      grants = grants;
    })
