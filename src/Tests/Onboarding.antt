-- ===== src/Tests/Onboarding.antt =====
-- Planning and applying at concrete inputs. The world counts the requests.
use alchemy_alibaba.Tests.Grants.{good_row}
use alchemy_alibaba.Prelude.{
  ℕ, String, ◌≡◌, ◌↔◌, ◌⊎◌, refl, Bool, true, false, [], ◌∷◌, none, some, leb,
}
use alchemy_alibaba.Effect.{Result, ok, Effect, continue, succeed}
use alchemy_alibaba.Gateway.Model.{AccessError, reuse, RouteEntryInfo}
use alchemy_alibaba.Gateway.Planners.{
  normalize, mix, Group, WhitelistPlan, AccountPlan, plan_account, WhitelistRequest, plan_whitelist,
  update_group, entries,
}
use alchemy_alibaba.Gateway.Planners.Plans.{
  Whitelisted, Provisioned, plan_whitelist-Whitelisted, plan_account-Provisioned,
}
use alchemy_alibaba.Gateway.Onboard.Api.{
  OnboardingInput, OnboardingOptions, RdsInstanceInfo, GatewayTopology, verified, Discovery,
  GatewayApi, Postgres,
}
use alchemy_alibaba.Gateway.Onboard.Await.{await_value, Reached, await_value-iff_Reached}
use alchemy_alibaba.Gateway.Onboard.Steps.{apply_whitelist}
use alchemy_alibaba.Gateway.Onboard.Apply.{apply_gateway_onboarding}
use alchemy_alibaba.Gateway.Onboard.Laws.{GroupSet, apply_whitelist-GroupSet}
use alchemy_alibaba.Tests.Network.{peering, present_route}
use alchemy_alibaba.Gateway.Connectivity.{plan_connectivity}
use alchemy_alibaba.Gateway.Address.{cidr_overlaps, cidr_contains}
use alchemy_alibaba.Gateway.Route.{plan_route}
use alchemy_alibaba.Gateway.Grants.{interpret_verification}
use alchemy_alibaba.Gateway.Grants.Queries.{build_verification_queries}
use alchemy_alibaba.Gateway.Onboard.Steps.{verify_grants}
use alchemy_alibaba.Gateway.Onboard.Idle.{
  two_networks, nothing_applied, apply_gateway_onboarding-Done,
}
use alchemy_alibaba.Gateway.Onboard.Discover.{discover}
use alchemy_alibaba.Tests.Clock.{Scripted, pause, clock, script, answer}

abbrev gateway_group : Group
gateway_group = record {
  array_name = "gateway";
  security_ip_list = "10.1.2.3/32";
  array_attribute = none;
  security_ip_type = some "IPv4";
  whitelist_network_type = none;
}

abbrev whitelist_request : WhitelistRequest
whitelist_request = record {
  groups = gateway_group ∷ [];
  network_groups = gateway_group ∷ [];
  group_name = "gateway";
  network_type = mix;
  gateway_ip = "10.1.2.3";
}

plan_whitelist-Whitelisted_example :
    Whitelisted (λ s. s) whitelist_request (update_group (λ s. s) whitelist_request gateway_group)
unfolding plan_whitelist
plan_whitelist-Whitelisted_example =
    plan_whitelist-Whitelisted (λ s. s) whitelist_request
      (update_group (λ s. s) whitelist_request gateway_group) refl

abbrev Numbers : Type 0
Numbers = Scripted (Result AccessError ℕ)

await_value-iff_Reached_example :
    let read : Effect Numbers AccessError ℕ = answer (ok 0) in
    let test : ℕ → Bool = leb 1 in
    (await_value (clock _) "Peering" read test 3 (script (ok 0 ∷ ok 7 ∷ []))
      ≡ (ok 7, record { now = 2000; answers = [] }))
    ↔ Reached
        (clock _)
        "Peering"
        read
        test
        7
        (record { now = 2000; answers = [] })
        2
        (script (ok 0 ∷ ok 7 ∷ []))
await_value-iff_Reached_example =
    await_value-iff_Reached (clock _) "Peering" (answer (ok 0)) (leb 1) 3
      (script (ok 0 ∷ ok 7 ∷ [])) 7 (record { now = 2000; answers = [] })

-- A control plane where everything is in place; every request takes a millisecond.
abbrev World : Type 0
World = Scripted ℕ

abbrev reply : {A : Type 0} → A → Effect World AccessError A
reply a s = (ok a, pause 1 s)

abbrev database : RdsInstanceInfo
database = record {
  instance_id = "pgm-1";
  region_id = "cn-hangzhou";
  engine = "PostgreSQL";
  engine_version = none;
  vpc_id = "vpc-2";
  v_switch_id = "vsw-2";
  endpoint = record { host = "pgm-1.rds.aliyuncs.com"; port = 5432; ip_address = "10.2.0.7" };
  databases = "odin" ∷ [];
  accounts = record { name = "gateway_ro"; kind = some "Normal" } ∷ [];
}

abbrev topology : GatewayTopology
topology = record {
  instance = record {
    instance_id = "i-1";
    private_ip = "10.1.2.3";
    vpc_id = "vpc-1";
    v_switch_id = "vsw-1";
    status = "Running";
  };
  vpc = record {
    vpc_id = "vpc-1";
    cidr_block = some "10.1.0.0/16";
    region_id = "cn-hangzhou";
    owner_id = some 1;
  };
  v_switch = record { v_switch_id = "vsw-1"; vpc_id = "vpc-1"; route_table_id = "vtb-1" };
}

abbrev api : GatewayApi World
api = record {
  get_instance = λ id. reply database;
  get_groups = λ id network.
      reply (record { all_groups = gateway_group ∷ []; network = gateway_group ∷ [] });
  get_topology = λ id. reply topology;
  get_vpc = λ id. reply topology.vpc;
  get_v_switch = λ id. reply topology.v_switch;
  get_peerings = λ ids. reply (peering ∷ []);
  get_routes = λ id. reply [];
  create_peering = λ r. reply "pcc-1";
  accept_peering = λ id. reply tt;
  create_route = λ r. reply tt;
  set_whitelist_group = λ id name ip network. reply tt;
  create_account = λ id name password. reply tt;
}

abbrev sql : Postgres World
sql = record { query = λ url statement. reply (good_row ∷ []); run = λ url statements. reply [] }

abbrev input : OnboardingInput
input = record {
  instance_id = "pgm-1";
  region_id = "cn-hangzhou";
  database = "odin";
  display_name = "Odin";
  alias = "odin";
  account = "gateway_ro";
  whitelist_group = "gateway";
  schemas = "public" ∷ [];
  owner_roles = [];
  network_type = mix;
  gateway_instance_id = none;
}

abbrev new_group_plan : WhitelistPlan
new_group_plan = record {
  is_changed = true;
  group_name = "gateway";
  network_type = mix;
  previous = [];
  desired = "10.1.2.3" ∷ [];
}

abbrev start : World
start = script []

apply_whitelist-GroupSet_example :
    ((new_group_plan.is_changed ≡ false) × (true ≡ false) × (pause 2 start ≡ start))
    ⊎ ((new_group_plan.is_changed ≡ true)
        × (◌≡◌ {A = Bool} true true)
        × GroupSet (clock _) api (λ s. s) input "10.1.2.3" new_group_plan start (pause 2 start))
unfolding apply_whitelist await_value normalize
apply_whitelist-GroupSet_example =
    apply_whitelist-GroupSet (clock _) api (λ s. s) input "10.1.2.3" new_group_plan start
      (pause 2 start) true refl

abbrev new_account : AccountPlan
new_account = record {
  is_changed = true;
  account_name = "gateway_ro";
  is_present = false;
  account_type = none;
}

abbrev onboarding_options : OnboardingOptions
onboarding_options = record {
  create_peering = false;
  gateway_instance_id = none;
  account_password = some "secret";
  admin = none;
}

abbrev found : Discovery
found = record {
  rds = database;
  topology = topology;
  connectivity = record {
    is_changed = false;
    summary = "Reuse peering pcc-1; both routes already exist.";
    same_vpc = false;
    gateway_vpc_id = "vpc-1";
    rds_vpc_id = "vpc-2";
    gateway_private_ip = "10.1.2.3";
    rds_private_ip = "10.2.0.7";
    peering = reuse "pcc-1";
    routes =
        present_route
        ∷ record {
          route_table_id = "vtb-2";
          destination_cidr_block = "10.1.0.0/16";
          next_hop_id = some "pcc-1";
          description = "route vpc-2 to the gateway host";
          is_present = true;
          is_changed = false;
        }
        ∷ [];
  };
  whitelist = update_group (λ s. s) whitelist_request gateway_group;
  account = record {
    is_changed = false;
    account_name = "gateway_ro";
    is_present = true;
    account_type = some "Normal";
  };
  grants = record { is_changed = false; verification = verified; issues = []; statements = [] };
}

abbrev route_to : String → RouteEntryInfo
route_to block = record {
  route_entry_id = none;
  destination_cidr_block = block;
  next_hop_id = some "pcc-1";
  next_hop_type = some "VpcPeer";
  status = some "Available";
}

-- The database stands in a network of its own, and both tables lead through the peering.
abbrev idle_api : GatewayApi World
idle_api = record api {
  get_vpc = λ id. reply (record topology.vpc { vpc_id = "vpc-2"; cidr_block = some "10.2.0.0/16" });
  get_v_switch =
      λ id. reply (record { v_switch_id = "vsw-2"; vpc_id = "vpc-2"; route_table_id = "vtb-2" });
  get_routes = λ id. reply (route_to "10.1.0.0/16" ∷ route_to "10.2.0.0/16" ∷ []);
}

discovers :
    discover (λ s. s) (λ s. s) (λ t. none) idle_api sql (clock _) input onboarding_options start
    ≡ (ok found, pause 9 start)
unfolding discover plan_connectivity cidr_overlaps plan_route cidr_contains plan_whitelist
    plan_account verify_grants build_verification_queries interpret_verification
discovers = refl

apply_gateway_onboarding-Done_example :
    let done =
      nothing_applied some
        (λ s. s)
        (λ s. s)
        (λ t. none)
        idle_api
        sql
        (clock _)
        input
        onboarding_options
        found in
    (apply_gateway_onboarding some
        (λ s. s)
        (λ s. s)
        (λ t. none)
        idle_api
        sql
        (clock _)
        input
        onboarding_options
        start
      ≡ continue
          (λ _. succeed done)
          (idle_api.get_peerings ("vpc-1" ∷ "vpc-2" ∷ []) (pause 9 start)))
    × (done.is_applied ≡ false)
unfolding entries
apply_gateway_onboarding-Done_example =
    apply_gateway_onboarding-Done some (λ s. s) (λ s. s) (λ t. none) idle_api sql (clock _) input
      onboarding_options found input "secret" start (pause 9 start)
      (record {
        link = two_networks "pcc-1" refl refl refl;
        group = refl;
        account = refl;
        grants = refl;
      })
      refl refl discovers

plan_account-Provisioned_example : Provisioned (λ s. s) "gateway_ro" database.accounts found.account
unfolding plan_account
plan_account-Provisioned_example =
    plan_account-Provisioned (λ s. s) "gateway_ro" database.accounts found.account refl
