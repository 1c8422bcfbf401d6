-- ===== src/Gateway/Grants.antt =====
-- Quoting, grant statements and the verification of a read-only account:
-- packages/rds-access/src/gateway/grants.ts.
pub mod Quoting
pub mod Queries
pub mod Verification
use Prim.Native.Char.{Char, code}
use Prim.Native.String.{◌++◌ as ◌<>◌}
use alchemy_alibaba.Prelude.{
  ℕ, String, Bool, true, false, not, ◌&&◌, List, [], ◌∷◌, ◌++◌, map, Option, none, some, ◌==◌,
  str_eq, if◌then◌else◌, length, ltb,
}

-- `text.replaceAll(q, q + q)`, for a `q` of one character.
unfoldable pub doubled : Char → String → String
doubled q String.[] = ""
doubled q (String.◌∷◌ c s) =
    let rest = doubled q s in
    if code c == code q then String.◌∷◌ q (String.◌∷◌ q rest) else String.◌∷◌ c rest

abbrev pub enclosed : Char → String → String
enclosed q s = String.◌∷◌ q (doubled q s <> String.◌∷◌ q String.[])

abbrev pub double_quote : Char
double_quote = "\""

abbrev pub single_quote : Char
single_quote = "'"

-- `quoteIdentifier`, `quoteLiteral`
unfoldable pub quote_identifier : String → String
unfolding doubled
quote_identifier value = enclosed double_quote value

unfoldable pub quote_literal : String → String
unfolding doubled
quote_literal value = enclosed single_quote value

pub record GrantStatementPlan : Type 0 where
  pub statement : String
  pub description : String

pub record GrantOptions : Type 0 where
  pub database : String
  pub account : String
  pub schemas : List String
  pub owner_roles : List String

module _ (o : GrantOptions) where
  -- The statements for one schema, with those for the owner roles in it.
  abbrev default_privileges : String → String → GrantStatementPlan
  default_privileges schema role = record {
    statement =
        "ALTER DEFAULT PRIVILEGES FOR ROLE "
        <> quote_identifier role
        <> " IN SCHEMA "
        <> quote_identifier schema
        <> " GRANT SELECT ON TABLES TO "
        <> quote_identifier o.account;
    description =
        "allow " <> o.account <> " to read future tables in " <> schema <> " owned by " <> role;
  }

  abbrev schema_statements : String → List GrantStatementPlan
  schema_statements schema =
      record {
        statement =
            "GRANT USAGE ON SCHEMA "
            <> quote_identifier schema
            <> " TO "
            <> quote_identifier o.account;
        description = "allow " <> o.account <> " to use schema " <> schema;
      }
      ∷ record {
        statement =
            "GRANT SELECT ON ALL TABLES IN SCHEMA "
            <> quote_identifier schema
            <> " TO "
            <> quote_identifier o.account;
        description = "allow " <> o.account <> " to read existing tables in " <> schema;
      }
      ∷ record {
        statement =
            "REVOKE CREATE ON SCHEMA "
            <> quote_identifier schema
            <> " FROM "
            <> quote_identifier o.account;
        description = "deny " <> o.account <> " schema creation in " <> schema;
      }
      ∷ map (default_privileges schema) o.owner_roles

  abbrev pub all_schema_statements : List String → List GrantStatementPlan
  all_schema_statements [] = []
  all_schema_statements (schema ∷ schemas) =
      schema_statements schema ++ all_schema_statements schemas

  -- `buildGrantStatements`
  unfoldable pub build_grant_statements : List GrantStatementPlan
  unfolding quote_identifier
  build_grant_statements =
      record {
        statement =
            "GRANT CONNECT ON DATABASE "
            <> quote_identifier o.database
            <> " TO "
            <> quote_identifier o.account;
        description = "allow " <> o.account <> " to connect to " <> o.database;
      }
      ∷ record {
        statement =
            "ALTER ROLE "
            <> quote_identifier o.account
            <> " SET default_transaction_read_only = on";
        description = "default " <> o.account <> " sessions to read-only";
      }
      ∷ all_schema_statements o.schemas

-- A value of a row: a text, a Boolean, `undefined`, or another value with its `String(value)`.
pub data Cell : Type 0 where
  text : String → Cell
  flag : Bool → Cell
  undefined : Cell
  other : String → Cell

abbrev pub Row : Type 0
Row = String → Cell

abbrev pub string_of : Cell → String
string_of (text s) = s
string_of (flag true) = "true"
string_of (flag false) = "false"
string_of undefined = "undefined"
string_of (other s) = s

-- `cell === text`
abbrev pub is_text : Cell → String → Bool
is_text (text s) t = str_eq s t
is_text _ t = false

-- `truthy`
unfoldable pub truthy : Cell → Bool
truthy (flag b) = b
truthy (text s) = if str_eq s "t" then true else str_eq s "true"
truthy _ = false

pub record AccountVerification : Type 0 where
  pub verified : Bool
  pub issues : List String

-- `if (wrong) issues.push(issue)`
abbrev pub issue_if : Bool → String → List String → List String
issue_if wrong issue rest = if wrong then issue ∷ rest else rest

abbrev pub row_issues : List Row → List String
row_issues [] = []
row_issues (row ∷ rows) =
    let rest = row_issues rows in
    issue_if (not (truthy (row "granted")))
      ("default SELECT for future tables is missing for "
        <> string_of (row "owner_role")
        <> " in "
        <> string_of (row "schema_name"))
      rest

abbrev pub identity_issues : GrantOptions → Row → List String → List String
identity_issues o row rest =
    issue_if (not (is_text (row "database") o.database))
      ("connected database is not " <> o.database)
      (issue_if (not (is_text (row "username") o.account)) ("connected user is not " <> o.account) (
        issue_if (not (str_eq (string_of (row "read_only")) "on")) "transaction_read_only is not on"
          (issue_if (not (truthy (row "schema_usage"))) "USAGE is missing on at least one schema" (
            issue_if (truthy (row "schema_create")) "CREATE is still allowed on at least one schema"
              (issue_if (not (truthy (row "can_read_all")))
                "SELECT is missing on at least one existing table"
                (issue_if (truthy (row "can_write_any"))
                  "write privileges are present on at least one existing table" rest))))))

abbrev pub is_empty : {A : Type 0} → List A → Bool
is_empty [] = true
is_empty (x ∷ xs) = false

abbrev pub all_issues : GrantOptions → Row → List Row → List String
all_issues o row rows = identity_issues o row (
    issue_if (not (is_empty o.owner_roles) && is_empty rows)
      "default privileges for future tables were not reported" (row_issues rows))

-- `interpretVerification`
unfoldable pub interpret_verification : GrantOptions → List Row → List Row → AccountVerification
unfolding truthy
interpret_verification o [] rows = record {
  verified = false;
  issues = "PostgreSQL returned no identity row." ∷ [];
}
interpret_verification o (row ∷ more) rows = record {
  verified = is_empty (all_issues o row rows);
  issues = all_issues o row rows;
}
