-- ===== src/Gateway/Planners/Plans.antt =====
-- What the plans of an allowlist and of an account say.
use alchemy_alibaba.Prelude.{
  String, Bool, true, false, List, [], ◌∷◌, eq_iff, any, filter, In, here, there, In-filter,
  filter-In, str_eq, ◌≡◌, ◌↔◌, inl, inr, refl, sym, subst, arith, Bool-cases,
}
use alchemy_alibaba.Effect.{Result, ok}
use alchemy_alibaba.Gateway.Model.{AccessError}
use alchemy_alibaba.Gateway.Planners.{
  Group, WhitelistPlan, entries, is_incompatible, is_not_only, WhitelistRequest, is_named,
  new_group, update_group, plan_group, plan_groups, plan_whitelist, plan_account, plan_accounts,
  AccountPlan, Account, differs,
}

-- The only element of the list that passes the test.
pub record Only {A : Type 0} (test : A → Bool) (l : List A) (a : A) : Type 0 where
  pub listed : In a l
  pub passes : test a ≡ true
  pub unique : (b : A) → In b l → test b ≡ true → b ≡ a

Only-filter :
    {A : Type 0} (test : A → Bool) (l : List A) (a : A) → filter test l ≡ a ∷ [] → Only test l a
Only-filter {A} test l a e =
    let (m, c) = In-filter test l (rw e (here refl)) in
    record { listed = m; passes = c; unique = λ b n d. single (rw e at (filter-In test n d)) }
  where
    single : {b : A} → In b (a ∷ []) → b ≡ a
    single (here h) = h
    single (there m) = elim m [ ]

none-filter :
    {A : Type 0} (test : A → Bool) (l : List A)
    → filter test l ≡ []
    → (a : A) → In a l
    → test a ≡ false
none-filter test l e a m = elim (Bool-cases (test a)) [
  | inl c ↦ elim (rw e at (filter-In test m c)) [ ]
  | inr c ↦ c
]

is_not_only_iff : (l : List String) (ip : String) → (is_not_only l ip ≡ false) ↔ (l ≡ ip ∷ [])
is_not_only_iff [] ip = (λ h. cc, λ h. cc)
is_not_only_iff (x ∷ []) ip = (
  λ h. let same : x ≡ ip = (eq_iff x ip).0 (ground arith) in rw same refl,
  λ h. let same : x ≡ ip = cc h in rw ((eq_iff x ip).1 same) refl,
)
is_not_only_iff (x ∷ y ∷ l) ip = (λ h. cc, λ h. cc)

module _ (lower : String → String) (o : WhitelistRequest) where
  -- Why a plan of the allowlist is made.
  pub data Whitelisted (plan : WhitelistPlan) : Type 0 where
    unused_name :
        ((g : Group) → In g o.groups → is_named lower o.group_name g ≡ false)
        → plan ≡ new_group lower o
        → Whitelisted plan
    dedicated :
        (g n : Group)
        → Only (is_named lower o.group_name) o.groups g
        → Only (is_named lower o.group_name) o.network_groups n
        → (is_incompatible o.network_type g ≡ false) × (is_incompatible o.network_type n ≡ false)
        → plan ≡ update_group lower o n
        → (plan.is_changed ≡ false) ↔ (entries n ≡ o.gateway_ip ∷ [])
        → Whitelisted plan

  ok_of : {x y : WhitelistPlan} → ◌≡◌ {A = Result AccessError WhitelistPlan} (ok x) (ok y) → x ≡ y
  ok_of h = cc

  group-Whitelisted :
      (g : Group) (ns : List Group) {plan : WhitelistPlan}
      → Only (is_named lower o.group_name) o.groups g
      → filter (is_named lower o.group_name) o.network_groups ≡ ns
      → plan_group lower o g ns ≡ ok plan
      → Whitelisted plan
  unfolding plan_group
  group-Whitelisted g [] u e h = cc
  group-Whitelisted g (n ∷ []) u e h =
      elim (Bool-cases (any (is_incompatible o.network_type) (g ∷ n ∷ []))) [
        | inl bad ↦ cc (rw bad at h)
        | inr fine ↦
            let same = ok_of (rw fine at h) in
            subst Whitelisted same (
              dedicated g n u (Only-filter (is_named lower o.group_name) o.network_groups n e)
                (ground arith, ground arith) refl (is_not_only_iff (entries n) o.gateway_ip))
      ]
  group-Whitelisted g (n ∷ m ∷ ns) u e h = cc

  groups-Whitelisted :
      (gs : List Group) {plan : WhitelistPlan}
      → filter (is_named lower o.group_name) o.groups ≡ gs
      → plan_groups lower o gs (filter (is_named lower o.group_name) o.network_groups) ≡ ok plan
      → Whitelisted plan
  unfolding plan_groups
  groups-Whitelisted [] e h =
      unused_name (none-filter (is_named lower o.group_name) o.groups e) (sym (ok_of h))
  groups-Whitelisted (g ∷ []) e h =
      group-Whitelisted g (filter (is_named lower o.group_name) o.network_groups)
        (Only-filter (is_named lower o.group_name) o.groups g e) refl h
  groups-Whitelisted (g ∷ k ∷ gs) e h = cc

  -- A plan of the allowlist either creates the group, and then no group has its name, or is about
  -- the only group of that name, which the network has too and which is compatible in both reads.
  -- It lists what that group holds, and is unchanged exactly when that is the gateway alone.
  pub plan_whitelist-Whitelisted :
      (plan : WhitelistPlan) → plan_whitelist lower o ≡ ok plan → Whitelisted plan
  unfolding plan_whitelist
  plan_whitelist-Whitelisted plan h =
      groups-Whitelisted (filter (is_named lower o.group_name) o.groups) refl h

module _ (lower : String → String) (account_name : String) where
  abbrev has_name : Account → Bool
  has_name a = str_eq (lower a.name) (lower account_name)

  -- Why a plan of the account is made.
  pub data Provisioned (accounts : List Account) (plan : AccountPlan) : Type 0 where
    to_create :
        ((a : Account) → In a accounts → has_name a ≡ false)
        → (plan.is_changed ≡ true) × (plan.is_present ≡ false)
        → Provisioned accounts plan
    to_reuse :
        (a : Account)
        → Only has_name accounts a
        → differs a.kind "Normal" ≡ false
        → (plan.is_changed ≡ false) × (plan.is_present ≡ true) × (plan.account_type ≡ a.kind)
        → Provisioned accounts plan

  account_of : {x y : AccountPlan} → ◌≡◌ {A = Result AccessError AccountPlan} (ok x) (ok y) → x ≡ y
  account_of h = cc

  accounts-Provisioned :
      (accounts l : List Account) {plan : AccountPlan}
      → filter has_name accounts ≡ l
      → plan_accounts lower account_name l ≡ ok plan
      → Provisioned accounts plan
  unfolding plan_accounts
  accounts-Provisioned accounts [] e h =
      subst (Provisioned accounts) (account_of h)
        (to_create (none-filter has_name accounts e) (refl, refl))
  accounts-Provisioned accounts (a ∷ []) e h = elim (Bool-cases (differs a.kind "Normal")) [
    | inl d ↦ cc (rw d at h)
    | inr n ↦
        subst (Provisioned accounts) (account_of (rw n at h))
          (to_reuse a (Only-filter has_name accounts a e) n (refl, refl, refl))
  ]
  accounts-Provisioned accounts (a ∷ b ∷ l) e h = cc

  -- A plan of the account either creates it, and then no account has its name, or keeps the only
  -- account of that name, whose type is not known to be other than Normal; so an account that
  -- exists is never changed, and one that is known to be privileged is never used.
  pub plan_account-Provisioned :
      (accounts : List Account) (plan : AccountPlan)
      → plan_account lower account_name accounts ≡ ok plan
      → Provisioned accounts plan
  unfolding plan_account
  plan_account-Provisioned accounts plan h =
      accounts-Provisioned accounts (filter has_name accounts) refl h
