-- ===== src/Tests/Privileges.antt =====
-- The privileges of RDS accounts over a small cloud: the world is the list of the accounts of one
-- instance, whose engine is given.
use alchemy_alibaba.Prelude.{refl, ◌≡◌, String, List, [], ◌∷◌, Option, none, some}
use alchemy_alibaba.Effect.{ok, fail, Effect, succeed}
use alchemy_alibaba.Effect.Chain.{◌>>=◌}
use alchemy_alibaba.Errors.Classify.{SdkCause}
use alchemy_alibaba.Errors.Calls.{retrying_sdk_call, retry_within_budget, sdk_call}
use alchemy_alibaba.Lifecycle.Observe.{with_defaults, observe_until}
use alchemy_alibaba.Lifecycle.Wait.{wait_for, wait_for_present, wait_for_absent}
use alchemy_alibaba.Provider.{Context, call, find_first}
use alchemy_alibaba.Rds.Client.{RdsClients, SdkAccount, SdkPrivilege}
use alchemy_alibaba.Rds.Privilege.{
  revoke_refused, PrivilegeProps, StoredPrivilege, PrivilegeAttributes, privilege_attributes,
  privilege_in_accounts, privilege_in_databases, normalize_privilege, nothing_to_revoke,
  has_implicit_access, has_postgres, is_privilege, known_privilege,
}
use alchemy_alibaba.Rds.Privilege.Operations.{
  get_privilege, get_from_accounts, get_from_databases, reconcile_privilege, needs_no_revoke,
  runs_postgres, revoke, delete_privilege, read_privilege,
}
use alchemy_alibaba.Rds.Privilege.Ends.{Released, delete_privilege-Released}
use alchemy_alibaba.Rds.Privilege.Reads.{SeenPrivilege, read_privilege-Seen}
use alchemy_alibaba.Tests.Clock.{Scripted, clock, clock_lawful, script}
use alchemy_alibaba.Tests.Databases.{plain}

abbrev Accounts : Type 0
Accounts = Scripted SdkAccount

abbrev none_listed : {R : Type 0} → Effect Accounts SdkCause (Option (List R))
none_listed = succeed none

abbrev done : Effect Accounts SdkCause (Unit {0})
done = succeed tt

abbrev account_with : List SdkPrivilege → SdkAccount
account_with privileges = record {
  account_name = some "app";
  account_status = some "Available";
  account_type = some "Normal";
  account_description = none;
  check_policy = none;
  database_privileges = some privileges;
  password_expire_time = none;
}

abbrev can : String → SdkPrivilege
can privilege = record {
  db_name = some "shop";
  account_privilege = some privilege;
  account_privilege_detail = some "SELECT";
}

abbrev privilege_clients : String → RdsClients Accounts
privilege_clients engine = record {
  describe_ip_array_list = λ id. none_listed;
  modify_security_ips = λ r. done;
  describe_accounts = λ q s. (ok (some s.answers), s);
  create_account = λ r. done;
  modify_account_description = λ r. done;
  reset_account_password = λ r. done;
  delete_account = λ r. done;
  describe_databases = λ q. none_listed;
  create_database = λ r. done;
  modify_db_description = λ r. done;
  delete_database = λ r. done;
  grant_account_privilege =
      λ r s. (ok tt, record s { answers = account_with (can r.account_privilege ∷ []) ∷ [] });
  revoke_account_privilege = λ r s. (ok tt, record s { answers = account_with [] ∷ [] });
  describe_db_instance_attribute =
      λ id. succeed (some (record { db_instance_id = some id; engine = some engine } ∷ []));
}

abbrev rds_cloud : String → Context (RdsClients Accounts) Accounts
rds_cloud engine = record {
  runtime = clock SdkAccount;
  alchemy = plain;
  clients = privilege_clients engine;
  wait = record { attempts = some 3; interval = some 10 };
}

abbrev wanted : PrivilegeProps
wanted = record {
  instance_id = "pgm-1";
  account_name = "app";
  database_name = "shop";
  privilege = "ReadWrite";
}

abbrev granted : PrivilegeAttributes
granted = record {
  instance_id = "pgm-1";
  account_name = "app";
  database_name = "shop";
  privilege = "ReadWrite";
  detail = some "SELECT";
}

abbrev with_access : Accounts
with_access = script (account_with (can "ReadWrite" ∷ []) ∷ [])

abbrev without_access : Accounts
without_access = script (account_with [] ∷ [])

abbrev stored : StoredPrivilege
stored = record {
  instance_id = some "pgm-1";
  account_name = some "app";
  database_name = none;
  privilege = none;
}

grants : reconcile_privilege (rds_cloud "MySQL") wanted without_access ≡ (ok granted, with_access)
unfolding reconcile_privilege get_privilege get_from_accounts get_from_databases
    privilege_in_accounts privilege_in_databases normalize_privilege privilege_attributes call
    retrying_sdk_call retry_within_budget sdk_call wait_for_present observe_until with_defaults
    find_first ◌>>=◌
grants = refl

delete_privilege-Released_example :
    Released (rds_cloud "MySQL") (λ s. s) granted with_access without_access
unfolding delete_privilege get_privilege get_from_accounts get_from_databases needs_no_revoke
    runs_postgres revoke nothing_to_revoke has_implicit_access has_postgres privilege_in_accounts
    privilege_in_databases normalize_privilege call retrying_sdk_call retry_within_budget sdk_call
    wait_for_absent wait_for observe_until with_defaults find_first ◌>>=◌
delete_privilege-Released_example =
    delete_privilege-Released (rds_cloud "MySQL") (λ s. s) granted (clock_lawful SdkAccount)
      with_access without_access refl

refuses :
    delete_privilege (rds_cloud "PostgreSQL") (λ s. s) granted with_access
    ≡ (fail revoke_refused, with_access)
unfolding delete_privilege get_privilege get_from_accounts get_from_databases needs_no_revoke
    runs_postgres nothing_to_revoke has_implicit_access has_postgres privilege_in_accounts
    privilege_in_databases normalize_privilege call retrying_sdk_call retry_within_budget sdk_call
    find_first ◌>>=◌
refuses = refl

read_privilege-Seen_example :
    SeenPrivilege (rds_cloud "MySQL") stored (some granted) granted with_access with_access
unfolding read_privilege get_privilege get_from_accounts get_from_databases known_privilege
    is_privilege privilege_attributes privilege_in_accounts privilege_in_databases
    normalize_privilege call retrying_sdk_call retry_within_budget sdk_call find_first ◌>>=◌
read_privilege-Seen_example =
    read_privilege-Seen (rds_cloud "MySQL") stored (some granted) granted with_access with_access
      refl
