-- ===== src/Gateway/Grants/Verification.antt =====
-- When a read-only account counts as verified.
use alchemy_alibaba.Prelude.{
  String, Bool, true, false, not, ◌&&◌, List, [], ◌∷◌, eq_iff, ◌≡◌, ◌↔◌, ◌⊎◌, refl, sym, subst, All,
  arith,
}
use alchemy_alibaba.Gateway.Grants.{
  GrantOptions, Row, string_of, is_text, truthy, issue_if, row_issues, is_empty, all_issues,
  interpret_verification,
}

-- What PostgreSQL must report of the connected account.
pub record ReadOnly (o : GrantOptions) (row : Row) : Type 0 where
  pub right_database : is_text (row "database") o.database ≡ true
  pub right_account : is_text (row "username") o.account ≡ true
  pub sessions_read_only : string_of (row "read_only") ≡ "on"
  pub may_use_schemas : truthy (row "schema_usage") ≡ true
  pub may_not_create : truthy (row "schema_create") ≡ false
  pub may_read_all : truthy (row "can_read_all") ≡ true
  pub may_not_write : truthy (row "can_write_any") ≡ false

-- And of future tables: a row for each wanted grant, all granted.
pub record FutureTables (o : GrantOptions) (rows : List Row) : Type 0 where
  pub reported : (is_empty o.owner_roles ≡ true) ⊎ (is_empty rows ≡ false)
  pub granted : All (λ row. truthy (row "granted") ≡ true) rows

empty-issue_if :
    (b : Bool) (s : String) (rest : List String)
    → is_empty (issue_if b s rest) ≡ (not b && is_empty rest)
empty-issue_if b s rest = ground arith

empty-row_issues :
    (rows : List Row)
    → (is_empty (row_issues rows) ≡ true) ↔ All (λ row. truthy (row "granted") ≡ true) rows
empty-row_issues [] = (λ h. tt, λ h. refl)
empty-row_issues (row ∷ rows) = (
  λ h. ground (arith, (empty-row_issues rows).0),
  λ h. ground (arith, (empty-row_issues rows).1 h.1),
)

all_issues_iff :
    (o : GrantOptions) (row : Row) (rows : List Row)
    → (is_empty (all_issues o row rows) ≡ true) ↔ (ReadOnly o row × FutureTables o rows)
all_issues_iff o row rows = (
  λ h. (
    record {
      right_database = ground arith;
      right_account = ground arith;
      sessions_read_only = (eq_iff (string_of (row "read_only")) "on").0 (ground arith);
      may_use_schemas = ground arith;
      may_not_create = ground arith;
      may_read_all = ground arith;
      may_not_write = ground arith;
    },
    record { reported = ground arith; granted = (empty-row_issues rows).0 (ground arith) },
  ),
  λ (r, f).
      let rows_granted = (empty-row_issues rows).1 f.granted in
      rw
        (
          r.right_database,
          r.right_account,
          (eq_iff (string_of (row "read_only")) "on").1 r.sessions_read_only,
          r.may_use_schemas,
          r.may_not_create,
          r.may_read_all,
          r.may_not_write,
        )
        (ground (arith, f.reported, rows_granted)),
)

-- An account is verified exactly when PostgreSQL returned an identity row, its first row says that
-- the database and the user are the wanted ones, that sessions are read-only, that all schemas may be
-- used, none created in, all tables read and none written, and when the rows on future tables,
-- which must exist if an owner role is named, all say granted.
pub interpret_verification_iff :
    (o : GrantOptions) (identity rows : List Row)
    → ((interpret_verification o identity rows).verified ≡ true) ↔ (
        (row : Row) × (more : List Row) × (identity ≡ row ∷ more)
        × ReadOnly o row
        × FutureTables o rows)
unfolding interpret_verification
interpret_verification_iff o identity rows = (
  λ h. first_row identity h,
  λ (row, more, e, r, f).
      subst (λ l. (interpret_verification o l rows).verified ≡ true) (sym e)
        ((all_issues_iff o row rows).1 (r, f)),
)
  where
    first_row :
        (l : List Row)
        → (interpret_verification o l rows).verified ≡ true
        → (row : Row) × (more : List Row) × (l ≡ row ∷ more) × ReadOnly o row × FutureTables o rows
    first_row [] h = cc
    first_row (row ∷ more) h =
        let (r, f) = (all_issues_iff o row rows).0 h in (row, more, refl, r, f)
