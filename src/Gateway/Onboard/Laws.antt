-- ===== src/Gateway/Onboard/Laws.antt =====
-- What the steps of an onboarding have done when they succeed.
use Prim.Native.String.{◌++◌ as ◌<>◌}
use alchemy_alibaba.Prelude.{
  ℕ, ◌-◌, String, Bool, true, false, ◌≡◌, ◌⊎◌, inl, inr, sym, ap, ◌∙◌, Bool-cases,
}
use alchemy_alibaba.Effect.{ok, Effect, succeed, continue, Runtime, ok_injective, continue-steps}
use alchemy_alibaba.Gateway.Model.{AccessError}
use alchemy_alibaba.Gateway.Planners.{WhitelistPlan, AccountPlan}
use alchemy_alibaba.Gateway.Onboard.Api.{
  OnboardingInput, GatewayApi, RdsInstanceInfo, WhitelistGroups,
}
use alchemy_alibaba.Gateway.Onboard.Await.{await_value, Reached, await_value-iff_Reached}
use alchemy_alibaba.Gateway.Onboard.Steps.{apply_whitelist, apply_account, holds_only, has_account}

-- A request and the wait that confirms it.
module _ {W A : Type 0} (rt : Runtime W) (label : String) (read : Effect W AccessError A)
    (test : A → Bool) where
  confirmed :
      (request : Effect W AccessError (Unit {0})) (n : ℕ) (s u : W) (b : Bool)
      → continue
          (λ _ t. continue (λ v. succeed true) (await_value rt label read test n t))
          (request s)
        ≡ (ok b, u)
      → (t : W) × (v : A) × (request s ≡ (ok tt, t))
        × (b ≡ true)
        × Reached rt label read test v u (n - 1) t
  confirmed request n s u b h =
      let (_, t, h1, e) =
        continue-steps (λ _ t. continue (λ v. succeed true) (await_value rt label read test n t))
          (request s) h in
      let (v, w, h2, e2) =
        continue-steps (λ v. succeed true) (await_value rt label read test n t) h1 in
      let (x, z) = ok_injective h2 in
      (
        t,
        v,
        e,
        sym x,
        (await_value-iff_Reached rt label read test n t v u).0 (e2 ∙ ap (λ k. (ok v, k)) z),
      )

module _ {W : Type 0} (rt : Runtime W) (api : GatewayApi W) (lower : String → String)
    (input : OnboardingInput) where
  -- The group was set, and a read after that saw the wanted address alone in it.
  pub record GroupSet (ip : String) (plan : WhitelistPlan) (s u : W) : Type 0 where
    pub after : W
    pub set :
        api.set_whitelist_group input.instance_id plan.group_name ip input.network_type s
        ≡ (ok tt, after)
    pub groups : WhitelistGroups
    pub seen :
        Reached rt
          ("Allowlist group " <> plan.group_name)
          (api.get_groups input.instance_id input.network_type)
          (holds_only rt api lower input plan ip)
          groups
          u
          29
          after

  -- If `applyWhitelist` succeeds, then either the plan was without changes, no request was made and
  -- the answer is false; or the group was set, some later read within 30 attempts saw the wanted
  -- address alone in the group, and the answer is true.
  pub apply_whitelist-GroupSet :
      (ip : String) (plan : WhitelistPlan) (s u : W) (b : Bool)
      → apply_whitelist rt api lower input ip plan s ≡ (ok b, u)
      → ((plan.is_changed ≡ false) × (b ≡ false) × (u ≡ s))
        ⊎ ((plan.is_changed ≡ true) × (b ≡ true) × GroupSet ip plan s u)
  unfolding apply_whitelist
  apply_whitelist-GroupSet ip plan s u b h = elim (Bool-cases plan.is_changed) [
    | inr n ↦ let (x, y) = ok_injective (rw n at h) in inl (n, sym x, sym y)
    | inl y ↦
        let (t, groups, e, x, seen) =
          confirmed rt ("Allowlist group " <> plan.group_name)
            (api.get_groups input.instance_id input.network_type)
            (holds_only rt api lower input plan ip)
            (api.set_whitelist_group input.instance_id plan.group_name ip input.network_type) 30 s u
            b (rw y at h) in
        inr (y, x, record { after = t; set = e; groups = groups; seen = seen })
  ]

  -- The account was created, and a read after that saw it.
  pub record AccountMade (password : String) (plan : AccountPlan) (s u : W) : Type 0 where
    pub after : W
    pub made : api.create_account input.instance_id plan.account_name password s ≡ (ok tt, after)
    pub rds : RdsInstanceInfo
    pub seen :
        Reached rt
          ("Account " <> plan.account_name)
          (api.get_instance input.instance_id)
          (has_account rt api lower input plan)
          rds
          u
          29
          after

  -- If `applyAccount` succeeds, then either the plan was without changes, no request was made and
  -- the answer is false; or the account was created, some later read within 30 attempts saw it, and
  -- the answer is true.
  pub apply_account-AccountMade :
      (password : String) (plan : AccountPlan) (s u : W) (b : Bool)
      → apply_account rt api lower input password plan s ≡ (ok b, u)
      → ((plan.is_changed ≡ false) × (b ≡ false) × (u ≡ s))
        ⊎ ((plan.is_changed ≡ true) × (b ≡ true) × AccountMade password plan s u)
  unfolding apply_account
  apply_account-AccountMade password plan s u b h = elim (Bool-cases plan.is_changed) [
    | inr n ↦ let (x, y) = ok_injective (rw n at h) in inl (n, sym x, sym y)
    | inl y ↦
        let (t, rds, e, x, seen) =
          confirmed rt ("Account " <> plan.account_name) (api.get_instance input.instance_id)
            (has_account rt api lower input plan)
            (api.create_account input.instance_id plan.account_name password) 30 s u b
            (rw y at h) in
        inr (y, x, record { after = t; made = e; rds = rds; seen = seen })
  ]
