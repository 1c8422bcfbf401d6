-- ===== src/Gateway/Grants/Queries.antt =====
-- `buildVerificationQueries` of packages/rds-access/src/gateway/grants.ts.
use Prim.Native.String.{◌++◌ as ◌<>◌}
use alchemy_alibaba.Prelude.{String, List, [], ◌∷◌, ◌++◌, map, Option, none, some}
use alchemy_alibaba.Gateway.Grants.{GrantOptions, quote_literal}

-- `texts.join(separator)`
unfoldable pub join : String → List String → String
join separator [] = ""
join separator (s ∷ []) = s
join separator (s ∷ t ∷ rest) = let more = join separator (t ∷ rest) in s <> separator <> more

pub record VerificationQueries : Type 0 where
  pub identity : String
  pub default_privileges : Option String

module _ (o : GrantOptions) where
  acl_pattern : String → String
  acl_pattern account = quote_literal ("%" <> account <> "=r%")

  schema_values : String
  schema_values = join ", " (map (λ schema. "(" <> quote_literal schema <> ")") o.schemas)

  identity_query : String
  identity_query = join "\n" (
      "SELECT"
      ∷ "  current_database()::text AS database,"
      ∷ "  current_user::text AS username,"
      ∷ "  current_setting('transaction_read_only')::text AS read_only,"
      ∷ "  coalesce(schema_privs.can_usage, true) AS schema_usage,"
      ∷ "  coalesce(schema_privs.can_create, false) AS schema_create,"
      ∷ "  coalesce(table_privs.can_read_all, true) AS can_read_all,"
      ∷ "  coalesce(table_privs.can_write_any, false) AS can_write_any"
      ∷ "FROM ("
      ∷ "  SELECT"
      ∷ "    bool_and(has_schema_privilege(current_user, nspname, 'USAGE')) AS can_usage,"
      ∷ "    bool_or(has_schema_privilege(current_user, nspname, 'CREATE')) AS can_create"
      ∷ ("  FROM (VALUES " <> schema_values <> ") AS schemas(nspname)")
      ∷ ") AS schema_privs"
      ∷ "CROSS JOIN ("
      ∷ "  SELECT"
      ∷ "    bool_and(has_table_privilege(current_user, format('%I.%I', schemaname, tablename), 'SELECT')) AS can_read_all,"
      ∷ "    bool_or(has_table_privilege(current_user, format('%I.%I', schemaname, tablename), 'INSERT,UPDATE,DELETE,TRUNCATE')) AS can_write_any"
      ∷ "  FROM pg_tables"
      ∷ ("  WHERE schemaname IN (" <> join ", " (map quote_literal o.schemas) <> ")")
      ∷ ") AS table_privs"
      ∷ [])

  wanted_rows : List String → List String
  wanted_rows [] = []
  wanted_rows (role ∷ roles) =
      map (λ schema. "(" <> quote_literal role <> ", " <> quote_literal schema <> ")") o.schemas
      ++ wanted_rows roles

  default_query : List String → Option String
  default_query [] = none
  default_query (role ∷ roles) = some (
      join "\n" (
        "SELECT"
        ∷ "  wanted.owner_role,"
        ∷ "  wanted.schema_name,"
        ∷ "  coalesce(bool_or(d.oid IS NOT NULL), false) AS granted"
        ∷ ("FROM (VALUES "
            <> join ", " (wanted_rows (role ∷ roles))
            <> ") AS wanted(owner_role, schema_name)")
        ∷ "LEFT JOIN pg_roles r ON r.rolname = wanted.owner_role"
        ∷ "LEFT JOIN pg_namespace n ON n.nspname = wanted.schema_name"
        ∷ "LEFT JOIN pg_default_acl d"
        ∷ "  ON d.defaclrole = r.oid"
        ∷ " AND d.defaclnamespace = n.oid"
        ∷ " AND d.defaclobjtype = 'r'"
        ∷ (" AND (d.defaclacl::text LIKE "
            <> acl_pattern o.account
            <> " OR d.defaclacl::text LIKE "
            <> acl_pattern ("\"" <> o.account <> "\"")
            <> ")")
        ∷ "GROUP BY wanted.owner_role, wanted.schema_name"
        ∷ "ORDER BY wanted.owner_role, wanted.schema_name"
        ∷ []))

  unfoldable pub build_verification_queries : VerificationQueries
  unfolding identity_query default_query schema_values wanted_rows acl_pattern
  build_verification_queries = record {
    identity = identity_query;
    default_privileges = default_query o.owner_roles;
  }
