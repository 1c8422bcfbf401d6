-- ===== src/Rds/Configuration.antt =====
-- `instanceConfiguration` of src/rds/configuration.ts: backup policy, parameters and maintenance
-- window of an RDS instance. `json_text` is `JSON.stringify` of a record of texts, `lower` is
-- `toLowerCase`, and numbers are natural.
pub mod Operations
pub mod Quiet
use alchemy_alibaba.Prelude.{
  ℕ, String, Bool, true, false, not, ◌&&◌, ◌||◌, List, [], ◌∷◌, map, Option, none, some, str_eq,
  eq_iff, length, ◌==◌, if◌then◌else◌, all, filter,
}
use alchemy_alibaba.Effect.{Effect, succeed, raise, fmap}
use alchemy_alibaba.Effect.Chain.{◌>>=◌, ◌>>◌}
use alchemy_alibaba.Errors.{Failure, rds}
use alchemy_alibaba.Errors.Classify.{SdkCause, get_or, or_else}
use alchemy_alibaba.Lifecycle.Identity.{same_option as same_text}
use alchemy_alibaba.Lifecycle.Identity.Tags.{TagRecord, lookup}
use alchemy_alibaba.Lifecycle.Wait.{wait_for}
use alchemy_alibaba.Gateway.Decimal.{decimal_text}
use alchemy_alibaba.Provider.{Context, call, wait_label, is_text, when, widen, run, find_in}
use alchemy_alibaba.Provider.Tags.{SdkTag, tag_record, put_entry, spread}

pub record BackupPolicy : Type 0 where
  pub backup_retention_period : Option ℕ
  pub preferred_backup_period : Option String
  pub preferred_backup_time : Option String
  pub enable_backup_log : Option String
  pub log_backup_retention_period : Option ℕ
  pub released_keep_policy : Option String

pub record InstanceConfiguration : Type 0 where
  pub backup_policy : Option BackupPolicy
  pub parameters : Option TagRecord
  pub restart_for_parameter_changes : Option Bool
  pub maintenance_window : Option String

pub record ConfigurationAttributes : Type 0 where
  pub backup_policy : Option BackupPolicy
  pub parameters : Option TagRecord
  pub pending_restart_parameters : Option (List String)
  pub maintenance_window : Option String

-- The value of a field.
pub data Value : Type 0 where
  text : String → Value
  number : ℕ → Value

-- The entries of an object, `none` where a field is `undefined`.
abbrev pub Entries : Type 0
Entries = List (String × Option Value)

abbrev text_value : Option String → Option Value
text_value none = none
text_value (some s) = some (text s)

abbrev number_value : Option ℕ → Option Value
number_value none = none
number_value (some n) = some (number n)

abbrev pub policy_entries : BackupPolicy → Entries
policy_entries p =
    ("backupRetentionPeriod", number_value p.backup_retention_period)
    ∷ ("preferredBackupPeriod", text_value p.preferred_backup_period)
    ∷ ("preferredBackupTime", text_value p.preferred_backup_time)
    ∷ ("enableBackupLog", text_value p.enable_backup_log)
    ∷ ("logBackupRetentionPeriod", number_value p.log_backup_retention_period)
    ∷ ("releasedKeepPolicy", text_value p.released_keep_policy)
    ∷ []

abbrev pub record_entries : TagRecord → Entries
record_entries tags = map (λ entry. (entry.0, some (text entry.1))) tags

unfoldable pub value_at : String → Entries → Option Value
value_at key [] = none
value_at key ((k, v) ∷ rest) = let later = value_at key rest in if str_eq k key then v else later

abbrev same_value : Value → Value → Bool
same_value (text a) (text b) = str_eq a b
same_value (number a) (number b) = a == b
same_value _ _ = false

abbrev is_value : Value → Option Value → Bool
is_value wanted none = false
is_value wanted (some v) = same_value v wanted

abbrev entry_matches : Entries → String × Option Value → Bool
entry_matches observed (key, none) = true
entry_matches observed (key, some value) = is_value value (value_at key observed)

-- `desiredEntriesMatch`
unfoldable pub desired_entries_match : Option Entries → Option Entries → Bool
unfolding value_at
desired_entries_match observed none = true
desired_entries_match observed (some desired) = all (entry_matches (get_or observed [])) desired

abbrev pub entries_of_policy : Option BackupPolicy → Option Entries
entries_of_policy none = none
entries_of_policy (some p) = some (policy_entries p)

abbrev pub entries_of_record : Option TagRecord → Option Entries
entries_of_record none = none
entries_of_record (some r) = some (record_entries r)

abbrev pub is_true : Option Bool → Bool
is_true none = false
is_true (some b) = b

abbrev pub has_some : Option (List String) → Bool
has_some none = false
has_some (some []) = false
has_some (some (x ∷ xs)) = true

-- `desired === undefined || desired === observed`
abbrev pub window_matches : Option String → Option String → Bool
window_matches none observed = true
window_matches (some wanted) observed = is_text wanted observed

-- `configurationMatches`
unfoldable pub configuration_matches : ConfigurationAttributes → InstanceConfiguration → Bool
unfolding desired_entries_match
configuration_matches observed desired =
    desired_entries_match (entries_of_policy observed.backup_policy)
      (entries_of_policy desired.backup_policy)
    && desired_entries_match (entries_of_record observed.parameters)
        (entries_of_record desired.parameters)
    && (not (is_true desired.restart_for_parameter_changes)
        || not (has_some observed.pending_restart_parameters))
    && window_matches desired.maintenance_window observed.maintenance_window

-- What the responses say: parameters as pairs of a name and a value.
pub record SdkParameters : Type 0 where
  pub config_parameters : Option (List SdkTag)
  pub running_parameters : Option (List SdkTag)
  pub engine : Option String

pub record SdkInstance : Type 0 where
  pub db_instance_id : Option String
  pub max_connections : Option ℕ

pub record ModifyBackupPolicy : Type 0 where
  pub policy : BackupPolicy
  pub db_instance_id : String
  pub backup_retention_period : Option String
  pub log_backup_retention_period : Option String

pub record ModifyParameter : Type 0 where
  pub db_instance_id : String
  pub parameters : String
  pub force_restart : Bool

-- The operations of the RDS client that this code calls.
pub record ConfigurationClient (W : Type 0) : Type 0 where
  pub describe_backup_policy : String → Effect W SdkCause BackupPolicy
  pub describe_parameters : String → Effect W SdkCause SdkParameters
  pub describe_instance_attribute : String → Effect W SdkCause (Option (List SdkInstance))
  pub modify_backup_policy : ModifyBackupPolicy → Effect W SdkCause (Unit {0})
  pub modify_parameter : ModifyParameter → Effect W SdkCause (Unit {0})
  -- The instance and the window.
  pub modify_maintain_time : String → String → Effect W SdkCause (Unit {0})

pub record ObservedParameters : Type 0 where
  pub parameters : TagRecord
  pub pending_restart_parameters : List String

-- `running[key] !== (configured[key] ?? running[key])`
abbrev pub awaits_restart : TagRecord → TagRecord → String → Bool
awaits_restart running configured key =
    not (same_text (lookup key running) (or_else (lookup key configured) (lookup key running)))

-- The parameters that `parameters` returns, from the running and the configured ones.
unfoldable pub combine_parameters : TagRecord → TagRecord → TagRecord → ObservedParameters
unfolding spread lookup
combine_parameters running configured desired = record {
  parameters = spread running configured;
  pending_restart_parameters =
      filter (awaits_restart running configured) (map (λ entry. entry.0) desired);
}

abbrev is_wanted : Option String → Bool
is_wanted none = false
is_wanted (some v) = true

abbrev is_mysql : (String → String) → Option String → Bool
is_mysql lower none = false
is_mysql lower (some engine) = str_eq (lower engine) "mysql"

abbrev with_limit : TagRecord → Option SdkInstance → TagRecord
with_limit running none = running
with_limit running (some instance) = elim instance.max_connections [
  | none ↦ running
  | some n ↦ put_entry "max_connections" (decimal_text n) running
]

abbrev number_text : Option ℕ → Option String
number_text none = none
number_text (some n) = some (decimal_text n)
