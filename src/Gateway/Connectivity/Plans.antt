-- ===== src/Gateway/Connectivity/Plans.antt =====
-- What an accepted connectivity plan says of the network.
use alchemy_alibaba.Prelude.{
  ℕ, String, Bool, true, false, ◌||◌, List, [], ◌∷◌, Option, none, some, str_eq, eq_iff, filter, In,
  here, there, In-filter, filter-In, ◌≡◌, ◌↔◌, ◌⊎◌, inl, inr, refl, sym, arith, Bool-cases, subst,
  ◌<◌, ◌^◌,
}
use alchemy_alibaba.Effect.{Result, ok, fail}
use alchemy_alibaba.Gateway.Model.{
  AccessError, PeerConnectionInfo, PeeringAction, none_needed, reuse, accept, create,
  ConnectivityInput, ConnectivityPlan, RoutePlan,
}
use alchemy_alibaba.Gateway.Address.{cidr_overlaps}
use alchemy_alibaba.Gateway.Address.Blocks.{InBlock, cidr_overlaps_iff}
use alchemy_alibaba.Gateway.Route.{plan_route}
use alchemy_alibaba.Gateway.Connectivity.{
  is_candidate, use_peering, choose_peering, plan_peering, changes_peering, gateway_request,
  rds_request, same_vpc_plan, peered_plan, plan_peered, plan_across, plan_connectivity, ◌>>=◌,
}

-- The single peering that can connect the two VPCs.
pub record OnlyPeering (input : ConnectivityInput) (p : PeerConnectionInfo) : Type 0 where
  pub listed : In p input.peerings
  pub candidate : is_candidate input p ≡ true
  pub unique : (r : PeerConnectionInfo) → In r input.peerings → is_candidate input r ≡ true → r ≡ p

-- Why a peering action is chosen.
pub data Chosen (input : ConnectivityInput) : PeeringAction → Type 0 where
  reused :
      (p : PeerConnectionInfo)
      → OnlyPeering input p
      → p.status ≡ "Activated"
      → Chosen input (reuse p.peering_id)
  accepted :
      (p : PeerConnectionInfo)
      → OnlyPeering input p
      → (p.status ≡ "Creating") ⊎ (p.status ≡ "Accepting") ⊎ (p.status ≡ "Updating")
      → Chosen input (accept p.peering_id)
  created :
      ((r : PeerConnectionInfo) → In r input.peerings → is_candidate input r ≡ false)
      → input.create_peering ≡ true
      → Chosen input (create input.peering_name)

use_peering_cases :
    (p : PeerConnectionInfo) {a : PeeringAction}
    → use_peering p ≡ ok a
    → ((p.status ≡ "Activated") × (a ≡ reuse p.peering_id))
      ⊎ (((p.status ≡ "Creating") ⊎ (p.status ≡ "Accepting") ⊎ (p.status ≡ "Updating"))
          × (a ≡ accept p.peering_id))
unfolding use_peering
use_peering_cases p h = ground (
  arith,
  eq_iff p.status "Activated",
  eq_iff p.status "Creating",
  eq_iff p.status "Accepting",
  eq_iff p.status "Updating",
)

module _ (input : ConnectivityInput) where
  only_of_filter :
      (p : PeerConnectionInfo)
      → filter (is_candidate input) input.peerings ≡ p ∷ []
      → OnlyPeering input p
  only_of_filter p e =
      let (m, c) = In-filter (is_candidate input) input.peerings (rw e (here refl)) in
      record {
        listed = m;
        candidate = c;
        unique = λ r n d. single (rw e at (filter-In (is_candidate input) n d));
      }
    where
      single : {r : PeerConnectionInfo} → In r (p ∷ []) → r ≡ p
      single (here h) = h
      single (there m) = elim m [ ]

  use_peering-Chosen :
      (p : PeerConnectionInfo) {a : PeeringAction}
      → OnlyPeering input p
      → use_peering p ≡ ok a
      → Chosen input a
  use_peering-Chosen p o h = elim (use_peering_cases p h) [
    | inl (e, a) ↦ subst (Chosen input) (sym a) (reused p o e)
    | inr (e, a) ↦ subst (Chosen input) (sym a) (accepted p o e)
  ]

  choose_peering-Chosen :
      (ps : List PeerConnectionInfo) {a : PeeringAction}
      → filter (is_candidate input) input.peerings ≡ ps
      → choose_peering input ps ≡ ok a
      → Chosen input a
  unfolding choose_peering
  choose_peering-Chosen [] e h = elim (Bool-cases input.create_peering) [
    | inl y ↦ subst (Chosen input) (cc (rw y at h)) (created none_fits y)
    | inr n ↦ cc (rw n at h)
  ]
    where
      none_fits : (r : PeerConnectionInfo) → In r input.peerings → is_candidate input r ≡ false
      none_fits r m = elim (Bool-cases (is_candidate input r)) [
        | inl c ↦ elim (rw e at (filter-In (is_candidate input) m c)) [ ]
        | inr c ↦ c
      ]
  choose_peering-Chosen (p ∷ []) e h = use_peering-Chosen p (only_of_filter p e) h
  choose_peering-Chosen (p ∷ r ∷ more) e h = cc

  -- An accepted peering action is chosen for its reason: the only live peering between the two
  -- VPCs is active and reused, or is on its way and accepted; or there is none and creation is
  -- allowed. So no action is planned where two live peerings connect the VPCs.
  pub plan_peering-Chosen : {a : PeeringAction} → plan_peering input ≡ ok a → Chosen input a
  unfolding plan_peering
  plan_peering-Chosen h = choose_peering-Chosen (filter (is_candidate input) input.peerings) refl h

  module _ (other_number : List ℕ → Option ℕ) where
    -- A plan that joins two VPCs.
    pub record Joined (plan : ConnectivityPlan) : Type 0 where
      pub gateway_cidr : String
      pub rds_cidr : String
      pub gateway_known : input.gateway.vpc_cidr ≡ some gateway_cidr
      pub rds_known : input.rds.vpc_cidr ≡ some rds_cidr
      pub disjoint :
          (v : ℕ)
          → v < 2 ^ 32
          → InBlock other_number gateway_cidr v
          → ¬ InBlock other_number rds_cidr v
      pub action : PeeringAction
      pub outward : RoutePlan
      pub back : RoutePlan
      pub chosen : Chosen input action
      pub outward_planned :
          plan_route other_number (gateway_request input action) input.gateway_routes ≡ ok outward
      pub back_planned :
          plan_route other_number (rds_request input action) input.rds_routes ≡ ok back
      pub plan_parts :
          (plan.peering ≡ action) × (plan.routes ≡ outward ∷ back ∷ []) × (plan.same_vpc ≡ false)
      pub quiet : (plan.is_changed ≡ false) ↔ (
          (changes_peering action ≡ false)
          × (outward.is_changed ≡ false)
          × (back.is_changed ≡ false))

    -- The two steps of a chain that succeeds.
    >>=-steps :
        {A B : Type 0} {b : B} (f : A → Result AccessError B) (m : Result AccessError A)
        → (m >>= f) ≡ ok b
        → (a : A) × (f a ≡ ok b) × (m ≡ ok a)
    >>=-steps f (fail e) h = cc
    >>=-steps f (ok a) h = (a, h, refl)

    ok_of : {A : Type 0} {x y : A} → ◌≡◌ {A = Result AccessError A} (ok x) (ok y) → x ≡ y
    ok_of h = cc

    quiet_lem :
        (c t b : Bool)
        → ((c || (t || (b || false))) ≡ false) ↔ ((c ≡ false) × (t ≡ false) × (b ≡ false))
    quiet_lem c t b = ground arith

    plan_peered-Joined :
        (a b : String) {plan : ConnectivityPlan}
        → input.gateway.vpc_cidr ≡ some a
        → input.rds.vpc_cidr ≡ some b
        → plan_peered input other_number a b ≡ ok plan
        → Joined plan
    unfolding plan_peered
    plan_peered-Joined a b {plan} ka kb h = elim (Bool-cases (cidr_overlaps other_number a b)) [
      | inl o ↦ cc (rw o at h)
      | inr o ↦
          let (action, h1, ea) = >>=-steps _ (plan_peering input) (rw o at h) in
          let (outward, h2, et) =
            >>=-steps _
              (plan_route other_number (gateway_request input action) input.gateway_routes) h1 in
          let (back, h3, eb) =
            >>=-steps _ (plan_route other_number (rds_request input action) input.rds_routes) h2 in
          let same : peered_plan input action outward back ≡ plan = ok_of h3 in
          subst Joined same (record {
            gateway_cidr = a;
            rds_cidr = b;
            gateway_known = ka;
            rds_known = kb;
            disjoint =
                λ v small l r. cc (o, (cidr_overlaps_iff other_number a b).1 (v, small, l, r));
            action = action;
            outward = outward;
            back = back;
            chosen = plan_peering-Chosen ea;
            outward_planned = et;
            back_planned = eb;
            plan_parts = (refl, refl, refl);
            quiet = quiet_lem (changes_peering action) outward.is_changed back.is_changed;
          })
    ]

    plan_across-Joined :
        (g r : Option String) {plan : ConnectivityPlan}
        → input.gateway.vpc_cidr ≡ g
        → input.rds.vpc_cidr ≡ r
        → plan_across input other_number g r ≡ ok plan
        → Joined plan
    plan_across-Joined none r kg kr h = cc
    plan_across-Joined (some a) none kg kr h = cc
    plan_across-Joined (some a) (some b) kg kr h = plan_peered-Joined a b kg kr h

    -- An accepted plan either says that both sides are in one VPC, and then plans nothing, or joins
    -- two VPCs whose blocks share no address, by the only suitable peering and a route of each
    -- table. Such a plan is unchanged exactly when the peering is reused and both routes exist.
    pub plan_connectivity-Joined :
        (plan : ConnectivityPlan)
        → plan_connectivity input other_number ≡ ok plan
        → ((input.gateway.vpc_id ≡ input.rds.vpc_id)
            × (plan.is_changed ≡ false)
            × (plan.peering ≡ none_needed)
            × (plan.routes ≡ []))
          ⊎ Joined plan
    unfolding plan_connectivity
    plan_connectivity-Joined plan h =
        elim (Bool-cases (str_eq input.gateway.vpc_id input.rds.vpc_id)) [
          | inl s ↦
              let same : same_vpc_plan input ≡ plan = ok_of (rw s at h) in
              inl (
                (eq_iff input.gateway.vpc_id input.rds.vpc_id).0 s,
                rw (← same),
                rw (← same),
                rw (← same),
              )
          | inr s ↦
              inr
                (plan_across-Joined input.gateway.vpc_cidr input.rds.vpc_cidr refl refl (rw s at h))
        ]
