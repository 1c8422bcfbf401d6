-- ===== src/Rds/Database/Operations.antt =====
-- The operations of src/rds/database.ts.
use Prim.Native.String.{◌++◌ as ◌<>◌}
use alchemy_alibaba.Prelude.{String, Bool, not, [], Option, none, some, if◌then◌else◌}
use alchemy_alibaba.Effect.{Effect, succeed, raise}
use alchemy_alibaba.Effect.Chain.{◌>>=◌, ◌>>◌}
use alchemy_alibaba.Errors.{Failure, rds}
use alchemy_alibaba.Errors.Classify.{get_or, or_else}
use alchemy_alibaba.Lifecycle.Identity.{invariant_error, physical_name}
use alchemy_alibaba.Lifecycle.Wait.{wait_for_present, wait_for_absent}
use alchemy_alibaba.Provider.{
  Context, call, wait_label, is_text, when, ignore_missing, found_or_missing, run_once,
}
use alchemy_alibaba.Provider.Names.{validate_desired_input, model_fields}
use alchemy_alibaba.Rds.Client.{RdsClients, SdkDatabase}
use alchemy_alibaba.Rds.Database.{
  DatabaseProps, StoredDatabase, DatabaseAttributes, database_type, output_instance, output_name,
  character_set_matches, database_attributes, database_settled,
}

module _ {W : Type 0} (c : Context (RdsClients W) W) where
  -- `get`
  unfoldable pub get_database : String → String → Effect W Failure (Option SdkDatabase)
  get_database instance_id name =
      found_or_missing (λ d. is_text name d.db_name)
        (call c rds "DescribeDatabases" (
          c.clients.describe_databases (record {
            db_instance_id = instance_id;
            db_name = name;
            page_number = 1;
            page_size = 100;
          })))

  abbrev attributes_if_found : String → String → Option SdkDatabase → Option DatabaseAttributes
  attributes_if_found instance_id name none = none
  attributes_if_found instance_id name (some d) = some (database_attributes instance_id name d)

  -- `read`
  unfoldable pub read_database :
      String
      → StoredDatabase
      → Option DatabaseAttributes
      → Effect W Failure (Option DatabaseAttributes)
  unfolding get_database database_attributes
  read_database id olds output = elim (or_else olds.instance_id (output_instance output)) [
    | none ↦ succeed none
    | some instance_id ↦
        physical_name c.alchemy.create_physical_name id (or_else olds.name (output_name output)) 64
        >>= λ name. get_database instance_id name >>= λ database.
            succeed (attributes_if_found instance_id name database)
  ]

  abbrev describe_if_needed : DatabaseProps → String → SdkDatabase → Effect W Failure (Unit {0})
  describe_if_needed news name d = elim news.description [
    | none ↦ succeed tt
    | some wanted ↦ when (not (is_text wanted d.db_description)) (
        run_once rds "ModifyDBDescription" (
          c.clients.modify_db_description (record {
            db_instance_id = news.instance_id;
            db_name = name;
            db_description = wanted;
          })))
  ]

  abbrev remove : DatabaseAttributes → Option SdkDatabase → Effect W Failure (Unit {0})
  remove output none = succeed tt
  remove output (some d) =
      ignore_missing (
        call c rds "DeleteDatabase" (
          c.clients.delete_database
            (record { db_instance_id = output.instance_id; db_name = output.name })))
      >> wait_for_absent c.runtime (wait_label c rds "DeleteDatabase")
          (get_database output.instance_id output.name)

  -- `delete`
  unfoldable pub delete_database : DatabaseAttributes → Effect W Failure (Unit {0})
  unfolding get_database
  delete_database output = get_database output.instance_id output.name >>= remove output

  module _ (in_model : String → Bool) where
    abbrev create : DatabaseProps → String → Effect W Failure (Unit {0})
    create news name = run_once rds "CreateDatabase" (
        c.clients.create_database (record {
          others = model_fields in_model [] news.others;
          db_instance_id = news.instance_id;
          db_name = name;
          character_set_name = news.character_set_name;
          db_description = news.description;
        }))

    -- The database is created, or brought to the wanted description.
    unfoldable pub create_or_modify_database :
        DatabaseProps → String → Option SdkDatabase → Effect W Failure (Unit {0})
    unfolding character_set_matches
    create_or_modify_database news name none = create news name
    create_or_modify_database news name (some d) =
        if character_set_matches d news.character_set_name
        then describe_if_needed news name d
        else raise (
            invariant_error database_type "ReconcileDatabase" (
              "Database "
              <> name
              <> " exists with character set "
              <> get_or d.character_set_name "unknown"
              <> "; changing characterSetName requires replacement"))

    -- `reconcile`
    unfoldable pub reconcile_database :
        (String → String)
        → String
        → DatabaseProps
        → Option DatabaseAttributes
        → Effect W Failure DatabaseAttributes
    unfolding get_database create_or_modify_database database_settled database_attributes
    reconcile_database lower id news output = do
      valid ← validate_desired_input news.others database_type
      name ←
          physical_name c.alchemy.create_physical_name id (or_else news.name (output_name output))
            64
      found ← get_database news.instance_id name
      changed ← create_or_modify_database news name found
      database ←
          wait_for_present c.runtime (wait_label c rds "ReconcileDatabase")
            (database_settled lower news) (get_database news.instance_id name)
      succeed (database_attributes news.instance_id name database)
