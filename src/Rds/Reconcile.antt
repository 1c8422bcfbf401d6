-- ===== src/Rds/Reconcile.antt =====
-- What the reconciles and deletes of src/rds have seen when they return.
use alchemy_alibaba.Prelude.{
  String, true, false, List, Option, none, some, eq_iff, ◌≡◌, refl, sym, ◌∙◌, ap, arith,
}
use alchemy_alibaba.Effect.{ok, succeed, IsRuntime, ok_injective}
use alchemy_alibaba.Errors.{rds}
use alchemy_alibaba.Errors.Classify.{get_or, or_else}
use alchemy_alibaba.Provider.{Context, wait_label, differs_if_wanted}
use alchemy_alibaba.Provider.Names.{account_name}
use alchemy_alibaba.Provider.Ensures.{Ensures, Produced, bind-Ensures, Ensures-imp}
use alchemy_alibaba.Provider.Settled.{
  SettledAt, AbsentAt, wait_for_present-Ensures, wait_for_absent-Ensures, absent_or-Ensures,
}
use alchemy_alibaba.Rds.Client.{RdsClients, SdkIpGroup}
use alchemy_alibaba.Rds.IpLists.{normalize, same_ips}
use alchemy_alibaba.Rds.IpGroup.{
  SecurityIpGroupProps, SecurityIpGroupAttributes, IpSettings, no_settings, ip_group_settled,
  ip_group_attributes, observed_ips,
}
use alchemy_alibaba.Rds.IpGroup.Operations.{get_ip_group, reconcile_ip_group}
use alchemy_alibaba.Rds.Account.{
  AccountProps, AccountAttributes, StoredAccount, account_settled, account_attributes,
}
use alchemy_alibaba.Rds.Account.Operations.{get_account, reconcile_account, delete_account}
use alchemy_alibaba.Rds.Account
use alchemy_alibaba.Rds.Database.{DatabaseAttributes}
use alchemy_alibaba.Rds.Database.Operations.{get_database, delete_database}

module _ {W : Type 0} (c : Context (RdsClients W) W) where
  module _ (lower : String → String) (news : SecurityIpGroupProps) where
    abbrev wanted_settings : IpSettings
    wanted_settings = get_or news.settings no_settings

    -- The last read of the group saw it with the wanted addresses, array attribute and type.
    pub record CoveredGroup (a : SecurityIpGroupAttributes) (u : W) : Type 0 where
      pub settled :
          SettledAt
            (get_ip_group c lower news.instance_id (get_or news.name "Default"))
            (ip_group_settled wanted_settings (normalize news.security_ips))
            (λ g. succeed (ip_group_attributes news.instance_id (get_or news.name "Default") g))
            a
            u
      pub same_addresses : same_ips a.security_ips (normalize news.security_ips) ≡ true
      -- A setting that is not wanted is not compared.
      pub has_attribute :
          (wanted : String)
          → wanted_settings.array_attribute ≡ some wanted
          → a.attribute ≡ some wanted
      pub has_ip_type :
          (wanted : String)
          → wanted_settings.security_ip_type ≡ some wanted
          → a.security_ip_type ≡ some wanted

    not_different :
        (desired observed : Option String) (wanted : String)
        → differs_if_wanted desired observed ≡ false
        → desired ≡ some wanted
        → observed ≡ some wanted
    not_different none observed wanted h e = cc
    not_different (some w) none wanted h e = cc
    not_different (some w) (some v) wanted h e = ground (arith, eq_iff v w)

    settled_settings :
        (settings : IpSettings) (desired : List String) (g : SdkIpGroup)
        → ip_group_settled settings desired g ≡ true
        → (differs_if_wanted settings.array_attribute g.array_attribute ≡ false)
          × (differs_if_wanted settings.security_ip_type g.security_ip_type ≡ false)
    unfolding ip_group_settled
    settled_settings settings desired g h = ground arith

    settled_addresses :
        (settings : IpSettings) (desired : List String) (g : SdkIpGroup)
        → ip_group_settled settings desired g ≡ true
        → same_ips (observed_ips g) desired ≡ true
    unfolding ip_group_settled
    settled_addresses settings desired g h = ground arith

    CoveredGroup-settled :
        (a : SecurityIpGroupAttributes) (u : W)
        → SettledAt
            (get_ip_group c lower news.instance_id (get_or news.name "Default"))
            (ip_group_settled wanted_settings (normalize news.security_ips))
            (λ g. succeed (ip_group_attributes news.instance_id (get_or news.name "Default") g))
            a
            u
        → CoveredGroup a u
    unfolding ip_group_attributes
    CoveredGroup-settled a u x =
        let same =
          settled_addresses wanted_settings (normalize news.security_ips) x.value x.is_settled in
        let (attribute, ip_type) =
          settled_settings wanted_settings (normalize news.security_ips) x.value x.is_settled in
        let is = sym (ok_injective x.returned).0 in
        record {
          settled = x;
          has_attribute = λ wanted e.
              ap (λ b. b.attribute) is
              ∙ not_different wanted_settings.array_attribute x.value.array_attribute wanted
                  attribute e;
          has_ip_type = λ wanted e.
              ap (λ b. b.security_ip_type) is
              ∙ not_different wanted_settings.security_ip_type x.value.security_ip_type wanted
                  ip_type e;
          same_addresses =
              ap (λ b. same_ips b.security_ips (normalize news.security_ips)) is ∙ same;
        }

    module _ (L : IsRuntime c.runtime) where
      reconcile_ip_group-Ensures : Ensures CoveredGroup (reconcile_ip_group c lower news)
      unfolding reconcile_ip_group
      reconcile_ip_group-Ensures = bind-Ensures _ λ filled _. bind-Ensures _ λ group _.
          bind-Ensures _ λ modified _. Ensures-imp CoveredGroup-settled (
            wait_for_present-Ensures c.runtime L (wait_label c rds "ModifySecurityIps")
              (get_ip_group c lower news.instance_id (get_or news.name "Default"))
              (ip_group_settled wanted_settings (normalize news.security_ips))
              (λ g. succeed (ip_group_attributes news.instance_id (get_or news.name "Default") g)))

      -- Over a runtime that repeats as documented, a reconcile of an RDS allowlist that succeeds
      -- ended with a read of the group that saw it settled; the addresses in its result are the
      -- wanted ones for `sameIps`, and so are the array attribute and the type of the addresses,
      -- each if it is wanted. The read compares no other setting.
      pub reconcile_ip_group-Covered :
          (a : SecurityIpGroupAttributes) (s u : W)
          → reconcile_ip_group c lower news s ≡ (ok a, u)
          → CoveredGroup a u
      reconcile_ip_group-Covered a s u h = reconcile_ip_group-Ensures.holds_after h

  module _ (lower sha256_hex : String → String) (L : IsRuntime c.runtime) where
    -- What a reconcile of an account has seen, under the name that was made for it.
    pub record ReconciledAccount (id : String) (news : AccountProps)
        (output : Option AccountAttributes) (a : AccountAttributes) (u : W) : Type 0 where
      pub name : String
      pub named :
          Produced
            (account_name c.alchemy.create_physical_name sha256_hex id
              (or_else news.name (Account.output_name output))
              16)
            name
      pub settled :
          SettledAt
            (get_account c news.instance_id name)
            (account_settled lower news)
            (λ x. succeed (account_attributes news.instance_id name x))
            a
            u

    reconcile_account-Ensures :
        (id : String) (news : AccountProps) (olds : Option StoredAccount)
        (output : Option AccountAttributes)
        → Ensures
            (ReconciledAccount id news output)
            (reconcile_account c lower sha256_hex id news olds output)
    unfolding reconcile_account
    reconcile_account-Ensures id news olds output = bind-Ensures _ λ name named.
        bind-Ensures _ λ found _. bind-Ensures _ λ changed _.
          Ensures-imp (λ a u settled. record { name = name; named = named; settled = settled })
            (wait_for_present-Ensures c.runtime L (wait_label c rds "ReconcileAccount")
              (get_account c news.instance_id name) (account_settled lower news)
              (λ x. succeed (account_attributes news.instance_id name x)))

    -- Over a runtime that repeats as documented, a reconcile of an RDS account that succeeds ended
    -- with a read that saw the account of its name available, with the wanted description, type
    -- and policy, and the result is what the provider reads off this account.
    pub reconcile_account-Reconciled :
        (id : String) (news : AccountProps) (olds : Option StoredAccount)
        (output : Option AccountAttributes) (a : AccountAttributes) (s u : W)
        → reconcile_account c lower sha256_hex id news olds output s ≡ (ok a, u)
        → ReconciledAccount id news output a u
    reconcile_account-Reconciled id news olds output a s u h =
        (reconcile_account-Ensures id news olds output).holds_after h

  module _ (L : IsRuntime c.runtime) where
    delete_account-Ensures :
        (o : AccountAttributes)
        → Ensures (λ a u. AbsentAt (get_account c o.instance_id o.name) u) (delete_account c o)
    unfolding delete_account
    delete_account-Ensures o = bind-Ensures _ λ requested _.
        wait_for_absent-Ensures c.runtime L (wait_label c rds "DeleteAccount")
          (get_account c o.instance_id o.name)

    delete_database-Ensures :
        (o : DatabaseAttributes)
        → Ensures (λ a u. AbsentAt (get_database c o.instance_id o.name) u) (delete_database c o)
    unfolding delete_database
    delete_database-Ensures o =
        absent_or-Ensures _ (λ s. refl)
          λ d. bind-Ensures _ λ requested _.
            wait_for_absent-Ensures c.runtime L (wait_label c rds "DeleteDatabase")
              (get_database c o.instance_id o.name)

    -- Over a runtime that repeats as documented, a delete of an RDS account that succeeds ends with
    -- a read that does not see the account.
    pub delete_account-AbsentAt :
        (o : AccountAttributes) (s u : W)
        → delete_account c o s ≡ (ok tt, u)
        → AbsentAt (get_account c o.instance_id o.name) u
    delete_account-AbsentAt o s u h = (delete_account-Ensures o).holds_after h

    -- The same for a database.
    pub delete_database-AbsentAt :
        (o : DatabaseAttributes) (s u : W)
        → delete_database c o s ≡ (ok tt, u)
        → AbsentAt (get_database c o.instance_id o.name) u
    delete_database-AbsentAt o s u h = (delete_database-Ensures o).holds_after h
