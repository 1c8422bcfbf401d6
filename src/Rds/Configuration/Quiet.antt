-- ===== src/Rds/Configuration/Quiet.antt =====
-- `sync` of src/rds/configuration.ts leaves alone what `configurationMatches` accepts.
use alchemy_alibaba.Prelude.{
  String, Bool, true, false, not, ◌&&◌, ◌||◌, Option, none, some, ◌≡◌, refl, sym, ◌∙◌, ap, arith,
}
use alchemy_alibaba.Effect.{ok, ok_injective}
use alchemy_alibaba.Effect.Chain.{◌>>=◌, chain-steps}
use alchemy_alibaba.Lifecycle.Identity.Tags.{TagRecord}
use alchemy_alibaba.Provider.{Context}
use alchemy_alibaba.Provider.Ensures.{Ensures, bind-Ensures}
use alchemy_alibaba.Rds.Configuration.{
  BackupPolicy, InstanceConfiguration, ConfigurationAttributes, ConfigurationClient,
  configuration_matches, desired_entries_match, entries_of_policy, entries_of_record,
  window_matches, is_true, has_some,
}
use alchemy_alibaba.Rds.Configuration.Operations.{
  read_configuration, sync_configuration, sync_backup, sync_parameters, sync_window,
  with_parameters, with_backup,
}

module _ {W : Type 0} (c : Context (ConfigurationClient W) W) (lower : String → String)
    (json_text : TagRecord → String) (instance_id : String) where
  sync_backup-quiet :
      (observed wanted : Option BackupPolicy) (s : W)
      → desired_entries_match (entries_of_policy observed) (entries_of_policy wanted) ≡ true
      → sync_backup c lower instance_id observed wanted s ≡ (ok tt, s)
  unfolding sync_backup
  sync_backup-quiet observed none s h = refl
  sync_backup-quiet observed (some wanted) s h = rw h refl

  sync_window-quiet :
      (window wanted : Option String) (s : W)
      → window_matches wanted window ≡ true
      → sync_window c lower instance_id window wanted s ≡ (ok tt, s)
  unfolding sync_window
  sync_window-quiet window none s h = refl
  sync_window-quiet window (some wanted) s h = rw h refl

  sync_parameters-quiet :
      (observed : ConfigurationAttributes) (wanted : Option TagRecord) (restart : Bool) (s : W)
      → desired_entries_match (entries_of_record observed.parameters) (entries_of_record wanted)
        ≡ true
      → (not restart || not (has_some observed.pending_restart_parameters)) ≡ true
      → sync_parameters c lower json_text instance_id observed wanted restart s ≡ (ok tt, s)
  unfolding sync_parameters
  sync_parameters-quiet observed none restart s h k = refl
  sync_parameters-quiet observed (some wanted) restart s h k =
      let quiet : (restart && has_some observed.pending_restart_parameters) ≡ false =
        ground arith in
      rw (h, quiet) refl

  with_parameters-window :
      (wanted : Option TagRecord) (a : ConfigurationAttributes)
      → Ensures
          (λ b u. b.maintenance_window ≡ a.maintenance_window)
          (with_parameters c lower instance_id wanted a)
  with_parameters-window none a = record {
    holds_after = λ h. ap (λ b. b.maintenance_window) (sym (ok_injective h).0);
  }
  with_parameters-window (some wanted) a = bind-Ensures _ λ observed _. record {
    holds_after = λ h. ap (λ b. b.maintenance_window) (sym (ok_injective h).0);
  }

  with_backup-window :
      (wanted : Option BackupPolicy) (a : ConfigurationAttributes) (b : ConfigurationAttributes)
      (s u : W)
      → with_backup c lower instance_id wanted a s ≡ (ok b, u)
      → b.maintenance_window ≡ a.maintenance_window
  with_backup-window none a b s u h = ap (λ b. b.maintenance_window) (sym (ok_injective h).0)
  with_backup-window (some wanted) a b s u h =
      let (policy, t, after, _) = chain-steps _ _ s h in
      ap (λ b. b.maintenance_window) (sym (ok_injective after).0)

  read_configuration-window :
      (desired : InstanceConfiguration) (window : Option String) (a : ConfigurationAttributes)
      (s u : W)
      → read_configuration c lower instance_id desired window s ≡ (ok a, u)
      → a.maintenance_window ≡ window
  unfolding read_configuration
  read_configuration-window desired window a s u h =
      let (b, t, after, first) = chain-steps _ _ s h in
      (with_parameters-window desired.parameters b).holds_after after
      ∙ with_backup-window desired.backup_policy _ b s t first

  -- If the configuration that a sync reads matches the wanted one for `configurationMatches`, the
  -- sync succeeds and sends no request after this read.
  pub sync_configuration-quiet :
      (desired : InstanceConfiguration) (window : Option String)
      (observed : ConfigurationAttributes) (s t : W)
      → read_configuration c lower instance_id desired window s ≡ (ok observed, t)
      → configuration_matches observed desired ≡ true
      → sync_configuration c lower json_text instance_id desired window s ≡ (ok tt, t)
  unfolding sync_configuration configuration_matches ◌>>=◌
  sync_configuration-quiet desired window observed s t h m =
      let same = read_configuration-window desired window observed s t h in
      let parts : (desired_entries_match (entries_of_policy observed.backup_policy)
              (entries_of_policy desired.backup_policy)
            ≡ true)
          × (desired_entries_match (entries_of_record observed.parameters)
                (entries_of_record desired.parameters)
              ≡ true)
          × ((not (is_true desired.restart_for_parameter_changes)
                || not (has_some observed.pending_restart_parameters))
              ≡ true)
          × (window_matches desired.maintenance_window observed.maintenance_window ≡ true) =
        ground arith in
      let (backup, set, restart, kept) = parts in
      let last : window_matches desired.maintenance_window window ≡ true = rw (← same) kept in
      rw
        (
          h,
          sync_backup-quiet observed.backup_policy desired.backup_policy t backup,
          sync_parameters-quiet observed desired.parameters
              (is_true desired.restart_for_parameter_changes) t set restart,
        )
        (sync_window-quiet window desired.maintenance_window t last)
