-- ===== src/Gateway/Onboard/Steps.antt =====
-- The steps of an onboarding: `applyConnectivity`, `applyWhitelist`, `applyAccount`, `verifyGrants` and
-- `applyGrants` of packages/rds-access/src/gateway/onboard.ts.
use Prim.Native.String.{◌++◌ as ◌<>◌}
use alchemy_alibaba.Prelude.{
  String, Bool, true, false, not, ◌&&◌, ◌||◌, List, [], ◌∷◌, map, Option, none, some, str_eq,
  if◌then◌else◌, any, filter,
}
use alchemy_alibaba.Effect.{ok, Effect, succeed, raise, ◌>>=◌, Runtime}
use alchemy_alibaba.Gateway.Decimal.{decimal_text}
use alchemy_alibaba.Gateway.Model.{
  AccessError, PeerConnectionInfo, RouteEntryInfo, RoutePlan, PeeringAction, none_needed, reuse,
  accept, create, ConnectivityPlan,
}
use alchemy_alibaba.Gateway.Route.{failure, route_uses_peering}
use alchemy_alibaba.Gateway.Connectivity.{pair_matches}
use alchemy_alibaba.Gateway.Planners.{normalize, is_named, WhitelistPlan, AccountPlan}
use alchemy_alibaba.Gateway.Grants.{
  GrantOptions, build_grant_statements, interpret_verification, Row, AccountVerification,
}
use alchemy_alibaba.Gateway.Grants.Queries.{build_verification_queries}
use alchemy_alibaba.Gateway.Onboard.Api.{
  OnboardingInput, Admin, OnboardingOptions, RdsInstanceInfo, GrantsPlan, verified, pending,
  skipped, GatewayApi, Postgres, WhitelistGroups,
}
use alchemy_alibaba.Gateway.Onboard.Await.{await_value}

abbrev pub when_first : {A : Type 0} → List A → Option A
when_first [] = none
when_first (x ∷ xs) = some x

-- The peering connects the two networks and is active.
abbrev pub is_active_pair : ConnectivityPlan → PeerConnectionInfo → Bool
is_active_pair plan p =
    str_eq p.status "Activated" && pair_matches p plan.gateway_vpc_id plan.rds_vpc_id

abbrev pub is_route_of : RoutePlan → String → RouteEntryInfo → Bool
is_route_of route peering_id entry =
    str_eq entry.destination_cidr_block route.destination_cidr_block
    && route_uses_peering entry (some peering_id)

module _ {W : Type 0} (rt : Runtime W) (api : GatewayApi W) where
  module _ (plan : ConnectivityPlan) where
    abbrev pub both_networks : List String
    both_networks = plan.gateway_vpc_id ∷ plan.rds_vpc_id ∷ []

    -- Create or accept the peering and wait until it is active; the first part of the result.
    unfoldable pub prepare_peering : PeeringAction → Effect W AccessError Bool
    prepare_peering (create name) = do
      rds_vpc ← api.get_vpc plan.rds_vpc_id
      created ← api.create_peering (record {
        name = name;
        gateway_vpc_id = plan.gateway_vpc_id;
        rds_vpc_id = plan.rds_vpc_id;
        accepting_ali_uid = rds_vpc.owner_id;
      })
      seen ←
          await_value rt ("VPC peering " <> created) (api.get_peerings both_networks)
            (any (λ p. str_eq p.peering_id created && is_active_pair plan p)) 60
      succeed true
    prepare_peering (accept id) = do
      accepted ← api.accept_peering id
      seen ←
          await_value rt ("VPC peering " <> id) (api.get_peerings both_networks)
            (any (λ p. str_eq p.peering_id id && str_eq p.status "Activated")) 60
      succeed true
    prepare_peering _ = succeed false

    abbrev pub peering_to_use : PeeringAction → List PeerConnectionInfo → Option String
    peering_to_use (reuse id) ps = some id
    peering_to_use (accept id) ps = some id
    peering_to_use _ ps = elim (when_first (filter (is_active_pair plan) ps)) [
      | none ↦ none
      | some p ↦ some p.peering_id
    ]

    -- The first loop over the routes; it says whether a route was created.
    unfoldable pub create_routes : String → Bool → List RoutePlan → Effect W AccessError Bool
    create_routes id changed [] s = (ok changed, s)
    create_routes id changed (route ∷ routes) s =
        let skip = create_routes id changed routes s in
        let make =
          (api.create_route (record route { next_hop_id = some id }) >>= λ _.
          create_routes id true routes)
            s in
        if route.is_changed then make else skip

    -- The second loop: every new route is seen in its table.
    unfoldable pub confirm_routes : String → List RoutePlan → Effect W AccessError (Unit {0})
    confirm_routes id [] s = (ok tt, s)
    confirm_routes id (route ∷ routes) s =
        let skip = confirm_routes id routes s in
        let confirm =
          (await_value rt
                ("Route " <> route.destination_cidr_block <> " in " <> route.route_table_id)
                (api.get_routes route.route_table_id) (any (is_route_of route id)) 30
              >>= λ _. confirm_routes id routes)
            s in
        if route.is_changed then confirm else skip

    abbrev pub apply_routes : Bool → Option String → Effect W AccessError Bool
    apply_routes changed none =
        raise (failure "The VPC peering is not activated; routes were not created.")
    apply_routes changed (some id) = do
      now_changed ← create_routes id changed plan.routes
      confirmed ← confirm_routes id plan.routes
      succeed now_changed

    abbrev pub is_none_needed : PeeringAction → Bool
    is_none_needed none_needed = true
    is_none_needed _ = false

    -- `applyConnectivity`
    unfoldable pub apply_connectivity : Effect W AccessError Bool
    unfolding prepare_peering create_routes confirm_routes
    apply_connectivity = if plan.same_vpc || is_none_needed plan.peering then succeed false else do
      changed ← prepare_peering plan.peering
      peerings ← api.get_peerings both_networks
      apply_routes changed (peering_to_use plan.peering peerings)

  module _ (lower : String → String) (input : OnboardingInput) where
    abbrev pub holds_only : WhitelistPlan → String → WhitelistGroups → Bool
    holds_only plan ip groups =
        any (λ g. is_named lower plan.group_name g && str_eq (normalize g.security_ip_list) ip)
          groups.network

    -- `applyWhitelist`
    unfoldable pub apply_whitelist : String → WhitelistPlan → Effect W AccessError Bool
    apply_whitelist expected_ip plan =
        if plan.is_changed
        then (do
          done ←
              api.set_whitelist_group input.instance_id plan.group_name expected_ip
                input.network_type
          seen ←
              await_value rt ("Allowlist group " <> plan.group_name)
                (api.get_groups input.instance_id input.network_type) (holds_only plan expected_ip)
                30
          succeed true)
        else succeed false

    abbrev pub has_account : AccountPlan → RdsInstanceInfo → Bool
    has_account plan instance_info =
        any (λ a. str_eq (lower a.name) (lower plan.account_name)) instance_info.accounts

    -- `applyAccount`
    unfoldable pub apply_account : String → AccountPlan → Effect W AccessError Bool
    apply_account password plan =
        if plan.is_changed
        then (do
          done ← api.create_account input.instance_id plan.account_name password
          seen ←
              await_value rt ("Account " <> plan.account_name) (api.get_instance input.instance_id)
                (has_account plan) 30
          succeed true)
        else succeed false

-- `encode` is `encodeURIComponent`.
module _ (encode : String → String) {W : Type 0} (rt : Runtime W) (api : GatewayApi W)
    (sql : Postgres W) (input : OnboardingInput) where
  abbrev pub grant_options : GrantOptions
  grant_options = record {
    database = input.database;
    account = input.account;
    schemas = input.schemas;
    owner_roles = input.owner_roles;
  }

  abbrev pub postgres_url : String → String → RdsInstanceInfo → String
  postgres_url account password rds =
      "postgres://"
      <> encode account
      <> ":"
      <> encode password
      <> "@"
      <> rds.endpoint.host
      <> ":"
      <> decimal_text rds.endpoint.port
      <> "/"
      <> encode input.database

  abbrev query_if : String → Option String → Effect W AccessError (List Row)
  query_if url none = succeed []
  query_if url (some text) = sql.query url text

  abbrev pub grants_of : AccountVerification → GrantsPlan
  grants_of v = record {
    is_changed = not v.verified;
    verification = if v.verified then verified else pending;
    issues = v.issues;
    statements = if v.verified then [] else build_grant_statements grant_options;
  }

  -- `verifyGrants`
  unfoldable pub verify_grants : RdsInstanceInfo → String → Effect W AccessError GrantsPlan
  verify_grants rds password = do
    identity ←
        sql.query (postgres_url input.account password rds)
          (build_verification_queries grant_options).identity
    default_rows ←
        query_if (postgres_url input.account password rds)
          (build_verification_queries grant_options).default_privileges
    succeed (grants_of (interpret_verification grant_options identity default_rows))

  abbrev pub is_verified : GrantsPlan → Bool
  is_verified g = elim g.verification [ verified ↦ true | pending ↦ false | skipped ↦ false ]

  abbrev apply_as : String → Option Admin → Effect W AccessError GrantsPlan
  apply_as password none = raise (
      failure
        "Read-only grants are missing and no privileged database account was provided. Pass --admin-account with --admin-password-file, then rerun.")
  apply_as password (some admin) = do
    rds ← api.get_instance input.instance_id
    done ←
        sql.run (postgres_url admin.account admin.password rds)
          (map (λ p. p.statement) (build_grant_statements grant_options))
    seen ←
        await_value rt ("Read-only grants for " <> input.account) (verify_grants rds password)
          is_verified 30
    succeed (record seen { is_changed = true })

  -- `applyGrants`
  unfoldable pub apply_grants :
      OnboardingOptions → String → GrantsPlan → Effect W AccessError GrantsPlan
  unfolding verify_grants
  apply_grants options password before =
      if is_verified before then succeed before else apply_as password options.admin
