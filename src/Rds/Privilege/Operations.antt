-- ===== src/Rds/Privilege/Operations.antt =====
-- The operations of src/rds/account-privilege.ts.
use alchemy_alibaba.Prelude.{String, Bool, true, false, not, Option, none, some, if◌then◌else◌}
use alchemy_alibaba.Effect.{Effect, succeed, raise, fmap}
use alchemy_alibaba.Effect.Chain.{◌>>=◌, ◌>>◌}
use alchemy_alibaba.Errors.{Failure, ProviderError, rds}
use alchemy_alibaba.Lifecycle.Wait.{wait_for_present, wait_for_absent}
use alchemy_alibaba.Provider.{
  Context, call, wait_label, is_text, when, widen, unless_missing, ignore_missing, run_once,
}
use alchemy_alibaba.Rds.Client.{RdsClients}
use alchemy_alibaba.Rds.Privilege.{
  PrivilegeProps, StoredPrivilege, PrivilegeAttributes, ObservedPrivilege, revoke_refused,
  is_privilege, privilege_in_accounts, privilege_in_databases, nothing_to_revoke, has_postgres,
  privilege_attributes, known_privilege,
}

module _ {W : Type 0} (c : Context (RdsClients W) W) where
  -- `getFromAccounts`
  unfoldable pub get_from_accounts :
      String → String → String → Effect W ProviderError (Option ObservedPrivilege)
  unfolding privilege_in_accounts
  get_from_accounts instance_id account_name database_name = unless_missing none (
      fmap (privilege_in_accounts account_name database_name) (
        call c rds "DescribeAccounts" (
          c.clients.describe_accounts (record {
            db_instance_id = instance_id;
            account_name = account_name;
            page_number = 1;
            page_size = 200;
          }))))

  -- `getFromDatabases`
  unfoldable pub get_from_databases :
      String → String → String → Effect W ProviderError (Option ObservedPrivilege)
  unfolding privilege_in_databases
  get_from_databases instance_id account_name database_name = unless_missing none (
      fmap (privilege_in_databases account_name database_name) (
        call c rds "DescribeDatabases" (
          c.clients.describe_databases (record {
            db_instance_id = instance_id;
            db_name = database_name;
            page_number = 1;
            page_size = 100;
          }))))

  abbrev or_look_in_databases :
      String
      → String
      → String
      → Option ObservedPrivilege
      → Effect W ProviderError (Option ObservedPrivilege)
  or_look_in_databases instance_id account_name database_name (some observed) =
      succeed (some observed)
  or_look_in_databases instance_id account_name database_name none =
      get_from_databases instance_id account_name database_name

  -- `get`
  unfoldable pub get_privilege :
      String → String → String → Effect W Failure (Option ObservedPrivilege)
  unfolding get_from_accounts get_from_databases
  get_privilege instance_id account_name database_name = widen (
      unless_missing none (
        get_from_accounts instance_id account_name database_name
        >>= or_look_in_databases instance_id account_name database_name))

  abbrev pub of_observed :
      (String → PrivilegeProps) → Option ObservedPrivilege → Option PrivilegeAttributes
  of_observed props none = none
  of_observed props (some o) = elim o.account_privilege [
    | none ↦ none
    | some privilege ↦
        if is_privilege (some privilege)
        then some (privilege_attributes (props privilege) o.account_privilege_detail)
        else none
  ]

  -- The read of a privilege, if its three names are known.
  abbrev pub read_if_known :
      Option String → Option String → Option String → Effect W Failure (Option PrivilegeAttributes)
  read_if_known none account_name database_name = succeed none
  read_if_known (some instance_id) none database_name = succeed none
  read_if_known (some instance_id) (some account_name) none = succeed none
  read_if_known (some instance_id) (some account_name) (some database_name) =
      get_privilege instance_id account_name database_name >>= λ observed. succeed (
        of_observed
          (λ privilege. record {
            instance_id = instance_id;
            account_name = account_name;
            database_name = database_name;
            privilege = privilege;
          })
          observed)

  -- `read`
  unfoldable pub read_privilege :
      StoredPrivilege → Option PrivilegeAttributes → Effect W Failure (Option PrivilegeAttributes)
  unfolding get_privilege known_privilege is_privilege privilege_attributes
  read_privilege olds output =
      let props = known_privilege olds output in
      read_if_known props.instance_id props.account_name props.database_name

  abbrev holds : String → Option ObservedPrivilege → Bool
  holds privilege none = false
  holds privilege (some o) = is_text privilege o.account_privilege

  -- `reconcile`
  unfoldable pub reconcile_privilege : PrivilegeProps → Effect W Failure PrivilegeAttributes
  unfolding get_privilege privilege_attributes
  reconcile_privilege news = do
    observed ← get_privilege news.instance_id news.account_name news.database_name
    granted ← when (not (holds news.privilege observed)) (
        run_once rds "GrantAccountPrivilege" (
          c.clients.grant_account_privilege (record {
            db_instance_id = news.instance_id;
            account_name = news.account_name;
            db_name = news.database_name;
            account_privilege = news.privilege;
          })))
    fresh ←
        wait_for_present c.runtime (wait_label c rds "GrantAccountPrivilege")
          (λ v. is_text news.privilege v.account_privilege)
          (get_privilege news.instance_id news.account_name news.database_name)
    succeed (privilege_attributes news fresh.account_privilege_detail)

  -- Whether the account leaves nothing to revoke, as a fresh read says.
  unfoldable pub needs_no_revoke : (String → String) → PrivilegeAttributes → Effect W Failure Bool
  unfolding nothing_to_revoke
  needs_no_revoke lower output = widen (
      unless_missing true (
        fmap (nothing_to_revoke lower output.account_name) (
          call c rds "DescribeAccountsForPrivilegeDelete" (
            c.clients.describe_accounts (record {
              db_instance_id = output.instance_id;
              account_name = output.account_name;
              page_number = 1;
              page_size = 200;
            })))))

  -- Whether the instance runs PostgreSQL, as a fresh read says.
  unfoldable pub runs_postgres : PrivilegeAttributes → Effect W Failure Bool
  unfolding has_postgres
  runs_postgres output = widen (
      fmap (has_postgres output.instance_id) (
        call c rds "DescribeDBInstanceAttribute"
          (c.clients.describe_db_instance_attribute output.instance_id)))

  -- The request and the wait for its effect.
  unfoldable pub revoke : PrivilegeAttributes → Effect W Failure (Unit {0})
  unfolding get_privilege
  revoke output =
      ignore_missing (
        call c rds "RevokeAccountPrivilege" (
          c.clients.revoke_account_privilege (record {
            db_instance_id = output.instance_id;
            account_name = output.account_name;
            db_name = output.database_name;
          })))
      >> wait_for_absent c.runtime (wait_label c rds "RevokeAccountPrivilege")
          (get_privilege output.instance_id output.account_name output.database_name)

  abbrev pub revoke_if_held :
      PrivilegeAttributes → Option ObservedPrivilege → Effect W Failure (Unit {0})
  revoke_if_held output none = succeed tt
  revoke_if_held output (some v) =
      runs_postgres output >>= λ postgres. if postgres then raise revoke_refused else revoke output

  abbrev pub delete_unless : PrivilegeAttributes → Bool → Effect W Failure (Unit {0})
  delete_unless output spared =
      if spared
      then succeed tt
      else get_privilege output.instance_id output.account_name output.database_name
        >>= revoke_if_held output

  -- `delete`
  unfoldable pub delete_privilege :
      (String → String) → PrivilegeAttributes → Effect W Failure (Unit {0})
  unfolding get_privilege needs_no_revoke runs_postgres revoke
  delete_privilege lower output = needs_no_revoke lower output >>= delete_unless output
