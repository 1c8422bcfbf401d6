-- ===== src/Rds/Configuration/Operations.antt =====
-- The operations of src/rds/configuration.ts.
use alchemy_alibaba.Prelude.{
  String, Bool, not, ◌&&◌, ◌||◌, Option, none, some, length, ◌==◌, if◌then◌else◌,
}
use alchemy_alibaba.Effect.{Effect, succeed, fmap}
use alchemy_alibaba.Effect.Chain.{◌>>=◌, ◌>>◌}
use alchemy_alibaba.Errors.{Failure, rds}
use alchemy_alibaba.Lifecycle.Identity.Tags.{TagRecord, lookup}
use alchemy_alibaba.Lifecycle.Wait.{wait_for}
use alchemy_alibaba.Provider.{Context, call, wait_label, is_text, when, widen, run, find_in}
use alchemy_alibaba.Provider.Tags.{tag_record}
use alchemy_alibaba.Rds.Configuration.{
  BackupPolicy, InstanceConfiguration, ConfigurationAttributes, policy_entries, record_entries,
  desired_entries_match, entries_of_policy, entries_of_record, is_true, has_some,
  ConfigurationClient, ObservedParameters, combine_parameters, is_wanted, is_mysql, with_limit,
  number_text,
}

module _ {W : Type 0} (c : Context (ConfigurationClient W) W) (lower : String → String) where
  -- `backup`
  unfoldable pub read_backup : String → Effect W Failure BackupPolicy
  read_backup instance_id =
      widen (call c rds "DescribeBackupPolicy" (c.clients.describe_backup_policy instance_id))

  -- The running parameters, with the limit of connections that a user may set.
  unfoldable pub user_limit :
      String → TagRecord → Option String → TagRecord → Effect W Failure TagRecord
  unfolding lookup
  user_limit instance_id desired engine running =
      if is_wanted (lookup "max_connections" desired) && is_mysql lower engine
      then widen (
          fmap
            (λ instances.
              with_limit running
                (find_in (λ instance. is_text instance_id instance.db_instance_id) instances))
            (call c rds "DescribeDBInstanceAttribute"
              (c.clients.describe_instance_attribute instance_id)))
      else succeed running

  -- `parameters`
  unfoldable pub read_parameters : String → TagRecord → Effect W Failure ObservedParameters
  unfolding user_limit combine_parameters
  read_parameters instance_id desired = do
    response ← widen (call c rds "DescribeParameters" (c.clients.describe_parameters instance_id))
    running ←
        user_limit instance_id desired response.engine (tag_record response.running_parameters)
    succeed (combine_parameters running (tag_record response.config_parameters) desired)

  abbrev pub with_backup :
      String
      → Option BackupPolicy
      → ConfigurationAttributes
      → Effect W Failure ConfigurationAttributes
  with_backup instance_id none a = succeed a
  with_backup instance_id (some p) a =
      read_backup instance_id >>= λ policy. succeed (record a { backup_policy = some policy })

  abbrev pub with_parameters :
      String → Option TagRecord → ConfigurationAttributes → Effect W Failure ConfigurationAttributes
  with_parameters instance_id none a = succeed a
  with_parameters instance_id (some desired) a = read_parameters instance_id desired >>= λ observed.
      succeed (record a {
        parameters = some observed.parameters;
        pending_restart_parameters = some observed.pending_restart_parameters;
      })

  -- `read`
  unfoldable pub read_configuration :
      String → InstanceConfiguration → Option String → Effect W Failure ConfigurationAttributes
  unfolding read_backup read_parameters
  read_configuration instance_id desired window =
      with_backup instance_id desired.backup_policy (record {
        backup_policy = none;
        parameters = none;
        pending_restart_parameters = none;
        maintenance_window = window;
      })
      >>= with_parameters instance_id desired.parameters

  abbrev backup_settled : BackupPolicy → BackupPolicy → Bool
  backup_settled wanted value =
      desired_entries_match (some (policy_entries value)) (some (policy_entries wanted))

  -- The first part of `sync`.
  unfoldable pub sync_backup :
      String → Option BackupPolicy → Option BackupPolicy → Effect W Failure (Unit {0})
  unfolding read_backup desired_entries_match
  sync_backup instance_id observed none = succeed tt
  sync_backup instance_id observed (some wanted) =
      when (not (desired_entries_match (entries_of_policy observed) (some (policy_entries wanted))))
        (run (
            call c rds "ModifyBackupPolicy" (
              c.clients.modify_backup_policy (record {
                policy = wanted;
                db_instance_id = instance_id;
                backup_retention_period = number_text wanted.backup_retention_period;
                log_backup_retention_period = number_text wanted.log_backup_retention_period;
              })))
          >> wait_for c.runtime (wait_label c rds "ModifyBackupPolicy") (backup_settled wanted)
              (read_backup instance_id)
          >>= λ seen. succeed tt)

  abbrev parameters_settled : TagRecord → Bool → ObservedParameters → Bool
  parameters_settled wanted restart value =
      desired_entries_match (some (record_entries value.parameters)) (some (record_entries wanted))
      && (not restart || length value.pending_restart_parameters == 0)

  -- The second part.
  unfoldable pub sync_parameters :
      (TagRecord → String)
      → String
      → ConfigurationAttributes
      → Option TagRecord
      → Bool
      → Effect W Failure (Unit {0})
  unfolding read_parameters desired_entries_match
  sync_parameters json_text instance_id observed none restart = succeed tt
  sync_parameters json_text instance_id observed (some wanted) restart =
      when
        (not (
            desired_entries_match (entries_of_record observed.parameters)
              (some (record_entries wanted)))
          || (restart && has_some observed.pending_restart_parameters))
        (run (
            call c rds "ModifyParameter" (
              c.clients.modify_parameter (record {
                db_instance_id = instance_id;
                parameters = json_text wanted;
                force_restart = restart;
              })))
          >> wait_for c.runtime (wait_label c rds "ModifyParameter")
              (parameters_settled wanted restart) (read_parameters instance_id wanted)
          >>= λ seen. succeed tt)

  -- The last part.
  unfoldable pub sync_window : String → Option String → Option String → Effect W Failure (Unit {0})
  sync_window instance_id window none = succeed tt
  sync_window instance_id window (some wanted) = when (not (is_text wanted window)) (
      run (
        call c rds "ModifyDBInstanceMaintainTime"
          (c.clients.modify_maintain_time instance_id wanted)))

  -- `sync`
  unfoldable pub sync_configuration :
      (TagRecord → String)
      → String
      → InstanceConfiguration
      → Option String
      → Effect W Failure (Unit {0})
  unfolding read_configuration sync_backup sync_parameters sync_window
  sync_configuration json_text instance_id desired window = do
    observed ← read_configuration instance_id desired window
    backed ← sync_backup instance_id observed.backup_policy desired.backup_policy
    set ←
        sync_parameters json_text instance_id observed desired.parameters
          (is_true desired.restart_for_parameter_changes)
    sync_window instance_id window desired.maintenance_window
