-- ===== src/Gateway/Onboard/Idle.antt =====
-- That an onboarding with nothing left to do changes nothing.
use alchemy_alibaba.Prelude.{
  ℕ, arith, String, Bool, true, false, not, List, [], ◌∷◌, Option, none, some, all, ◌≡◌, refl,
}
use alchemy_alibaba.Effect.{Result, ok, fail, Effect, succeed, continue, Runtime}
use alchemy_alibaba.Gateway.Model.{
  AccessError, PeerConnectionInfo, ConnectivityPlan, RoutePlan, reuse,
}
use alchemy_alibaba.Gateway.Onboard.Api.{
  OnboardingInput, OnboardingOptions, Discovery, GatewayApi, Postgres,
}
use alchemy_alibaba.Gateway.Onboard.Steps.{
  apply_whitelist, apply_account, apply_connectivity, apply_grants, is_verified, create_routes,
  confirm_routes, both_networks, prepare_peering, apply_routes,
}
use alchemy_alibaba.Gateway.Onboard.Apply.{
  apply_gateway_onboarding, validate_input, apply_with, apply_steps, apply_remaining, applied_steps,
  is_any_applied, build_plan, OnboardingResult,
}
use alchemy_alibaba.Gateway.Onboard.Discover.{discover}

module _ {W : Type 0} (rt : Runtime W) (api : GatewayApi W) (plan : ConnectivityPlan)
    (id : String) where
  abbrev pub no_change : List RoutePlan → Bool
  no_change = all (λ r. not r.is_changed)

  create_routes-no_change :
      (b : Bool) (routes : List RoutePlan) (s : W)
      → no_change routes ≡ true
      → create_routes rt api plan id b routes s ≡ (ok b, s)
  unfolding create_routes
  create_routes-no_change b [] s h = refl
  create_routes-no_change b (r ∷ routes) s h =
      let n : r.is_changed ≡ false = ground arith in
      rw n (create_routes-no_change b routes s (ground arith))

  confirm_routes-no_change :
      (routes : List RoutePlan) (s : W)
      → no_change routes ≡ true
      → confirm_routes rt api plan id routes s ≡ (ok tt, s)
  unfolding confirm_routes
  confirm_routes-no_change [] s h = refl
  confirm_routes-no_change (r ∷ routes) s h =
      let n : r.is_changed ≡ false = ground arith in
      rw n (confirm_routes-no_change routes s (ground arith))

  -- A reused peering and routes that all exist: `applyConnectivity` only reads the peerings once.
  apply_connectivity-no_change :
      (s : W)
      → plan.same_vpc ≡ false
      → plan.peering ≡ reuse id
      → no_change plan.routes ≡ true
      → apply_connectivity rt api plan s
        ≡ continue (λ _. succeed false) (api.get_peerings (both_networks rt api plan) s)
  unfolding apply_connectivity prepare_peering
  apply_connectivity-no_change s v p r =
      rw (v, p) (after (api.get_peerings (both_networks rt api plan) s))
    where
      after :
          (x : Result AccessError (List PeerConnectionInfo) × W)
          → continue (λ ps. apply_routes rt api plan false (some id)) x
            ≡ continue (λ _. succeed false) x
      after (fail e, t) = refl
      after (ok ps, t) =
          rw (
            create_routes-no_change false plan.routes t r,
            confirm_routes-no_change plan.routes t r,
          )

  -- In one network nothing is read, whatever else the plan says.
  apply_connectivity-same_vpc :
      (s : W) → plan.same_vpc ≡ true → apply_connectivity rt api plan s ≡ (ok false, s)
  unfolding apply_connectivity
  apply_connectivity-same_vpc s v = rw v refl

module _ (decode : OnboardingInput → Option OnboardingInput) (encode lower : String → String)
    (other_number : List ℕ → Option ℕ) {W : Type 0} (api : GatewayApi W) (sql : Postgres W)
    (rt : Runtime W) (input : OnboardingInput) (options : OnboardingOptions)
    (before : Discovery) where
  -- The gateway reaches the database: both stand in one network, or a peering is reused and all
  -- routes exist.
  pub data Linked : Type 0 where
    one_network : before.connectivity.same_vpc ≡ true → Linked
    two_networks :
        (id : String)
        → before.connectivity.same_vpc ≡ false
        → before.connectivity.peering ≡ reuse id
        → no_change rt api before.connectivity id before.connectivity.routes ≡ true
        → Linked

  -- The reads of the peerings that the steps make: one, between two networks.
  abbrev pub link_reads : Linked → Effect W AccessError (List PeerConnectionInfo)
  link_reads (one_network v) = succeed []
  link_reads (two_networks id v p r) =
      api.get_peerings (before.connectivity.gateway_vpc_id ∷ before.connectivity.rds_vpc_id ∷ [])

  -- Nothing is left to do: the networks are linked, the group holds the gateway, the account exists
  -- and its grants are verified.
  pub record Done : Type 0 where
    pub link : Linked
    pub group : before.whitelist.is_changed ≡ false
    pub account : before.account.is_changed ≡ false
    pub grants : is_verified encode rt api sql input before.grants ≡ true

  abbrev pub nothing_applied : OnboardingResult
  nothing_applied =
      let steps =
        applied_steps decode encode lower other_number api sql rt input options before false false
          false before.grants in
      record { is_applied = is_any_applied steps; plan = build_plan input before; steps = steps }

  remaining-Done :
      (password : String) (t : W)
      → Done
      → apply_remaining decode encode lower other_number api sql rt input options before password
          false t
        ≡ (ok nothing_applied, t)
  unfolding apply_remaining apply_whitelist apply_account apply_grants
  remaining-Done password t d = rw (d.group, d.account, d.grants) refl

  steps_after_read :
      (password : String) (x : Result AccessError (List PeerConnectionInfo) × W)
      → Done
      → continue
          (apply_remaining decode encode lower other_number api sql rt input options before
            password)
          (continue (λ _. succeed false) x)
        ≡ continue (λ _. succeed nothing_applied) x
  steps_after_read password (fail e, t) d = refl
  steps_after_read password (ok ps, t) d = remaining-Done password t d

  steps_when_linked :
      (password : String) (t : W) (d : Done) (link : Linked)
      → apply_steps decode encode lower other_number api sql rt input options before password t
        ≡ continue (λ _. succeed nothing_applied) (link_reads link t)
  unfolding apply_steps
  steps_when_linked password t d (one_network v) =
      rw (apply_connectivity-same_vpc rt api before.connectivity "" t v)
        (remaining-Done password t d)
  steps_when_linked password t d (two_networks id v p r) =
      rw (apply_connectivity-no_change rt api before.connectivity id t v p r) (
        steps_after_read password (api.get_peerings (both_networks rt api before.connectivity) t) d)

  validated :
      (raw : OnboardingInput) (s : W)
      → decode raw ≡ some input
      → validate_input decode encode lower other_number api sql rt raw s ≡ (ok input, s)
  unfolding validate_input
  validated raw s e = ground arith

  applied_after :
      (password : Option String) (given : String) (t : W) (d : Done)
      → password ≡ some given
      → apply_with decode encode lower other_number api sql rt input options before password t
        ≡ continue (λ _. succeed nothing_applied) (link_reads d.link t)
  applied_after none given t d e = cc
  applied_after (some password) given t d e = steps_when_linked password t d d.link

  -- If the input decodes, a password is given, and the discovery finds nothing left to do, then
  -- applying an onboarding makes no request after its discovery, except one read of the peerings
  -- where the gateway and the database stand in two networks. It fails only if that read fails;
  -- otherwise it reports that no step was applied.
  pub apply_gateway_onboarding-Done :
      (raw : OnboardingInput) (password : String) (s t : W) (d : Done)
      → decode raw ≡ some input
      → options.account_password ≡ some password
      → discover encode lower other_number api sql rt input options s ≡ (ok before, t)
      → (apply_gateway_onboarding decode encode lower other_number api sql rt raw options s
          ≡ continue (λ _. succeed nothing_applied) (link_reads d.link t))
        × (nothing_applied.is_applied ≡ false)
  unfolding apply_gateway_onboarding
  apply_gateway_onboarding-Done raw password s t d decoded given found = (
    rw (validated raw s decoded)
        (rw found (applied_after options.account_password password t d given)),
    rw d.grants refl,
  )
