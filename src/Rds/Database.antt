-- ===== src/Rds/Database.antt =====
-- The provider of src/rds/database.ts: a database of an RDS instance. `lower` is `toLowerCase`, and
-- `in_model` says whether the creation request has a field of a name.
pub mod Operations
use Prim.Native.String.{◌++◌ as ◌<>◌}
use alchemy_alibaba.Prelude.{
  String, Bool, false, not, ◌&&◌, ◌||◌, List, [], ◌∷◌, Option, none, some, str_eq, if◌then◌else◌,
}
use alchemy_alibaba.Effect.{Effect, succeed, raise}
use alchemy_alibaba.Effect.Chain.{◌>>=◌, ◌>>◌}
use alchemy_alibaba.Errors.{Failure, rds}
use alchemy_alibaba.Errors.Classify.{get_or, or_else}
use alchemy_alibaba.Lifecycle.Identity.{invariant_error, physical_name, same_option as same_text}
use alchemy_alibaba.Lifecycle.Identity.Tags.{TagRecord}
use alchemy_alibaba.Lifecycle.Wait.{wait_for_present, wait_for_absent}
use alchemy_alibaba.Gateway.Text.{split_text}
use alchemy_alibaba.Provider.{
  Context, call, wait_label, Planned, unresolved, resolved, Plan, keep, replace, differs_if_wanted,
  is_text, when, ignore_missing, found_or_missing, run_once,
}
use alchemy_alibaba.Provider.Names.{validate_desired_input, model_fields}
use alchemy_alibaba.Rds.Client.{RdsClients, SdkDatabase}

-- `others` are the fields that the code does not read.
pub record DatabaseProps : Type 0 where
  pub instance_id : String
  pub name : Option String
  pub character_set_name : String
  pub description : Option String
  pub others : TagRecord

-- The inputs as an earlier run has stored them.
pub record StoredDatabase : Type 0 where
  pub instance_id : Option String
  pub name : Option String
  pub character_set_name : Option String

pub record DatabaseAttributes : Type 0 where
  pub instance_id : String
  pub name : String
  pub status : String
  pub character_set_name : Option String
  pub description : Option String
  pub engine : Option String
  pub collate : Option String
  pub ctype : Option String
  pub connection_limit : Option String
  pub tablespace : Option String

-- `Database.Type`
abbrev pub database_type : String
database_type = "Alibaba.RDS.Database"

abbrev pub output_instance : Option DatabaseAttributes → Option String
output_instance none = none
output_instance (some o) = some o.instance_id

abbrev pub output_name : Option DatabaseAttributes → Option String
output_name none = none
output_name (some o) = some o.name

-- The parts of `desired.split(",")` in turn; a part that is missing wants nothing.
abbrev parts_match : List String → SdkDatabase → Bool
parts_match [] d = false
parts_match (set ∷ []) d = is_text set d.character_set_name
parts_match (set ∷ collate ∷ []) d = is_text set d.character_set_name && is_text collate d.collate
parts_match (set ∷ collate ∷ ctype ∷ more) d =
    is_text set d.character_set_name && is_text collate d.collate && is_text ctype d.ctype

-- `characterSetMatches`
unfoldable pub character_set_matches : SdkDatabase → String → Bool
unfolding split_text
character_set_matches d desired = parts_match (split_text b',' desired) d

-- `toAttributes`
unfoldable pub database_attributes : String → String → SdkDatabase → DatabaseAttributes
database_attributes instance_id name d = record {
  instance_id = instance_id;
  name = get_or d.db_name name;
  status = get_or d.db_status "Unknown";
  character_set_name = d.character_set_name;
  description = d.db_description;
  engine = d.engine;
  collate = d.collate;
  ctype = d.ctype;
  connection_limit = d.conn_limit;
  tablespace = d.tablespace;
}

-- `diff`, which sends no request.
unfoldable pub diff_database : StoredDatabase → Planned DatabaseProps → Plan
diff_database olds unresolved = keep
diff_database olds (resolved news) = elim olds.instance_id [
  | none ↦ keep
  | some old_instance ↦ elim olds.character_set_name [
    | none ↦ keep
    | some old_set ↦
        if not (str_eq old_instance news.instance_id)
          || not (same_text olds.name news.name)
          || not (str_eq old_set news.character_set_name)
        then replace
        else keep
  ]
]

abbrev is_running : (String → String) → Option String → Bool
is_running lower none = false
is_running lower (some status) = str_eq (lower status) "running"

-- The test that ends a reconcile.
unfoldable pub database_settled : (String → String) → DatabaseProps → SdkDatabase → Bool
unfolding character_set_matches
database_settled lower news d =
    is_running lower d.db_status
    && character_set_matches d news.character_set_name
    && not (differs_if_wanted news.description d.db_description)
