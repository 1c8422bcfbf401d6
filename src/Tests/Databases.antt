-- ===== src/Tests/Databases.antt =====
-- The RDS providers over a small cloud: the world is the list of the allowlists of one instance.
use alchemy_alibaba.Prelude.{
  ℕ, ◌≡◌, ◌↔◌, ◌≤◌, refl, arith, String, true, List, [], ◌∷◌, Option, none, some, In,
}
use alchemy_alibaba.Effect.{ok, Effect, succeed}
use alchemy_alibaba.Effect.Chain.{◌>>=◌}
use alchemy_alibaba.Errors.Classify.{SdkCause}
use alchemy_alibaba.Errors.Calls.{retrying_sdk_call, retry_within_budget, sdk_call}
use alchemy_alibaba.Lifecycle.Identity.{physical_name}
use alchemy_alibaba.Lifecycle.Identity.Tags.{lookup}
use alchemy_alibaba.Lifecycle.Observe.{with_defaults, observe_until}
use alchemy_alibaba.Lifecycle.Wait.{wait_for_present}
use alchemy_alibaba.Gateway.Text.{trim_text, split_text}
use alchemy_alibaba.Gateway.Grants.Queries.{join}
use alchemy_alibaba.Provider.{Alchemy, Context, call, find_first}
use alchemy_alibaba.Provider.Names.{account_name, take_text, text_length, account_name-bounded}
use alchemy_alibaba.Provider.Tags.{spread, put_entry, tag_record, put_tags}
use alchemy_alibaba.Rds.Client.{RdsClients, SdkIpGroup, ModifySecurityIps}
use alchemy_alibaba.Rds.IpLists.{normalize, sort, insert, unique, text_leb, listed_ips, same_ips}
use alchemy_alibaba.Rds.IpLists.Sets.{addresses, is_single, same_ips_iff}
use alchemy_alibaba.Rds.IpGroup.{
  SecurityIpGroupProps, SecurityIpGroupAttributes, ip_group_settled, ip_group_attributes,
}
use alchemy_alibaba.Rds.IpGroup.Operations.{get_ip_group, reconcile_ip_group}
use alchemy_alibaba.Rds.Reconcile.{CoveredGroup, reconcile_ip_group-Covered}
use alchemy_alibaba.Rds.Configuration.{
  BackupPolicy, InstanceConfiguration, ConfigurationAttributes, ConfigurationClient,
  configuration_matches, desired_entries_match, value_at, combine_parameters,
}
use alchemy_alibaba.Rds.Configuration.Operations.{
  read_configuration, read_backup, read_parameters, user_limit, sync_configuration,
}
use alchemy_alibaba.Rds.Configuration.Quiet.{sync_configuration-quiet}
use alchemy_alibaba.Tests.Clock.{Scripted, clock, clock_lawful, script}

same_ips_iff_example :
    (same_ips (" 10.0.0.2" ∷ "10.0.0.1" ∷ []) ("10.0.0.1" ∷ "10.0.0.2" ∷ "" ∷ "10.0.0.1" ∷ [])
      ≡ true)
    ↔ ((ip : String)
        → In ip (addresses (" 10.0.0.2" ∷ "10.0.0.1" ∷ []))
          ↔ In ip (addresses ("10.0.0.1" ∷ "10.0.0.2" ∷ "" ∷ "10.0.0.1" ∷ [])))
unfolding trim_text is_single
same_ips_iff_example =
    same_ips_iff (" 10.0.0.2" ∷ "10.0.0.1" ∷ []) ("10.0.0.1" ∷ "10.0.0.2" ∷ "" ∷ "10.0.0.1" ∷ [])
      (refl, (refl, tt)) (refl, (refl, (refl, (refl, tt))))

abbrev Groups : Type 0
Groups = Scripted SdkIpGroup

abbrev none_listed : {R : Type 0} → Effect Groups SdkCause (Option (List R))
none_listed = succeed none

abbrev done : Effect Groups SdkCause (Unit {0})
done = succeed tt

abbrev covered : ModifySecurityIps → List SdkIpGroup
covered r =
    record {
      array_name = some r.array_name;
      security_ip_list = some r.security_ips;
      array_attribute = r.array_attribute;
      security_ip_type = r.security_ip_type;
    }
    ∷ []

abbrev rds_clients : RdsClients Groups
rds_clients = record {
  describe_ip_array_list = λ id s. (ok (some s.answers), s);
  modify_security_ips = λ r s. (ok tt, record s { answers = covered r });
  describe_accounts = λ q. none_listed;
  create_account = λ r. done;
  modify_account_description = λ r. done;
  reset_account_password = λ r. done;
  delete_account = λ r. done;
  describe_databases = λ q. none_listed;
  create_database = λ r. done;
  modify_db_description = λ r. done;
  delete_database = λ r. done;
  grant_account_privilege = λ r. done;
  revoke_account_privilege = λ r. done;
  describe_db_instance_attribute = λ id. none_listed;
}

abbrev pub plain : {W : Type 0} → Alchemy W
plain = record {
  has_alchemy_tags = λ id tags. succeed true;
  create_internal_tags = λ id. succeed [];
  strip_internal_tags = λ tags. tags;
  create_physical_name = λ id max. succeed "web-1";
  diff_tags = λ observed desired. record { removed = []; upsert = [] };
  note = λ text. succeed tt;
}

abbrev rds_cloud : Context (RdsClients Groups) Groups
rds_cloud = record {
  runtime = clock SdkIpGroup;
  alchemy = plain;
  clients = rds_clients;
  wait = record { attempts = some 3; interval = some 10 };
}

abbrev allowed : SecurityIpGroupProps
allowed = record {
  instance_id = "pgm-1";
  name = some "gateway";
  security_ips = "10.0.0.2" ∷ " 10.0.0.1" ∷ [];
  settings =
      some (record { array_attribute = some "hidden"; security_ip_type = none; others = [] });
  reset_to = none;
}

abbrev allowed_attributes : SecurityIpGroupAttributes
allowed_attributes = record {
  instance_id = "pgm-1";
  name = "gateway";
  security_ips = "10.0.0.1" ∷ "10.0.0.2" ∷ [];
  attribute = some "hidden";
  security_ip_type = none;
}

abbrev gateway_group : SdkIpGroup
gateway_group = record {
  array_name = some "gateway";
  security_ip_list = some "10.0.0.1,10.0.0.2";
  array_attribute = some "hidden";
  security_ip_type = none;
}

reconcile_ip_group-Covered_example :
    CoveredGroup rds_cloud (λ s. s) allowed allowed_attributes (script (gateway_group ∷ []))
unfolding reconcile_ip_group get_ip_group ip_group_settled ip_group_attributes normalize sort insert
    unique text_leb listed_ips same_ips trim_text split_text join call retrying_sdk_call
    retry_within_budget sdk_call wait_for_present observe_until with_defaults find_first ◌>>=◌
reconcile_ip_group-Covered_example =
    reconcile_ip_group-Covered rds_cloud (λ s. s) allowed (clock_lawful SdkIpGroup)
      allowed_attributes (script []) (script (gateway_group ∷ [])) refl

account_name-bounded_example : (text_length "a9f86d0" ≤ 7) × (take_text 1 "a9f86d0" ≡ "a")
unfolding account_name physical_name ◌>>=◌
account_name-bounded_example =
    account_name-bounded (plain {W = Groups}).create_physical_name (λ text. "9f86d081884c7d65")
      "web" 7 (script []) (script []) "a9f86d0" (omega arith) refl

abbrev Sent : Type 0
Sent = Scripted ℕ

abbrev sent : Effect Sent SdkCause (Unit {0})
sent s = (ok tt, record s { answers = 1 ∷ s.answers })

abbrev weekly : BackupPolicy
weekly = record {
  backup_retention_period = some 7;
  preferred_backup_period = some "Monday";
  preferred_backup_time = none;
  enable_backup_log = none;
  log_backup_retention_period = none;
  released_keep_policy = none;
}

abbrev settings_cloud : Context (ConfigurationClient Sent) Sent
settings_cloud = record {
  runtime = clock ℕ;
  alchemy = plain;
  clients = record {
    describe_backup_policy =
        λ id. succeed (record weekly { preferred_backup_time = some "02:00Z-03:00Z" });
    describe_parameters = λ id. succeed (record {
      config_parameters = some (record { key = some "work_mem"; value = some "4096" } ∷ []);
      running_parameters = some (record { key = some "work_mem"; value = some "1024" } ∷ []);
      engine = some "PostgreSQL";
    });
    describe_instance_attribute = λ id. succeed none;
    modify_backup_policy = λ r. sent;
    modify_parameter = λ r. sent;
    modify_maintain_time = λ id window. sent;
  };
  wait = record { attempts = some 3; interval = some 10 };
}

abbrev wanted : InstanceConfiguration
wanted = record {
  backup_policy = some weekly;
  parameters = some (("work_mem", "4096") ∷ []);
  restart_for_parameter_changes = none;
  maintenance_window = some "02:00Z-03:00Z";
}

abbrev observed : ConfigurationAttributes
observed = record {
  backup_policy = some (record weekly { preferred_backup_time = some "02:00Z-03:00Z" });
  parameters = some (("work_mem", "4096") ∷ []);
  pending_restart_parameters = some ("work_mem" ∷ []);
  maintenance_window = some "02:00Z-03:00Z";
}

sync_configuration-quiet_example :
    sync_configuration settings_cloud
      (λ s. s)
      (λ tags. "{}")
      "pgm-1"
      wanted
      (some "02:00Z-03:00Z")
      (script [])
    ≡ (ok tt, script [])
unfolding read_configuration read_backup read_parameters user_limit combine_parameters
    configuration_matches desired_entries_match value_at spread put_entry tag_record put_tags lookup
    call retrying_sdk_call retry_within_budget sdk_call ◌>>=◌
sync_configuration-quiet_example =
    sync_configuration-quiet settings_cloud (λ s. s) (λ tags. "{}") "pgm-1" wanted
      (some "02:00Z-03:00Z") observed (script []) (script []) refl refl
