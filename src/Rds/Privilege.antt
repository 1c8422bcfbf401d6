-- ===== src/Rds/Privilege.antt =====
-- The provider of src/rds/account-privilege.ts: what an account may do in a database of an RDS
-- instance. `lower` is `toLowerCase`.
pub mod Operations
pub mod Ends
pub mod Reads
use alchemy_alibaba.Prelude.{
  String, Bool, true, false, not, ◌||◌, ◌&&◌, List, [], ◌∷◌, Option, none, some, str_eq,
  if◌then◌else◌,
}
use alchemy_alibaba.Errors.{Failure}
use alchemy_alibaba.Lifecycle.Identity.{invariant_error}
use alchemy_alibaba.Errors.Classify.{get_or, or_else}
use alchemy_alibaba.Provider.{
  Planned, unresolved, resolved, Plan, keep, replace, is_text, find_first, find_in,
}
use alchemy_alibaba.Rds.Client.{
  SdkAccount, SdkPrivilege, SdkDatabase, SdkAccountOfDatabase, SdkInstance,
}

-- `privilege` is one of the names that `is_privilege` accepts.
pub record PrivilegeProps : Type 0 where
  pub instance_id : String
  pub account_name : String
  pub database_name : String
  pub privilege : String

-- The inputs as an earlier run has stored them.
pub record StoredPrivilege : Type 0 where
  pub instance_id : Option String
  pub account_name : Option String
  pub database_name : Option String
  pub privilege : Option String

pub record PrivilegeAttributes : Type 0 where
  pub instance_id : String
  pub account_name : String
  pub database_name : String
  pub privilege : String
  pub detail : Option String

-- `ObservedPrivilege`
pub record ObservedPrivilege : Type 0 where
  pub account_privilege : Option String
  pub account_privilege_detail : Option String

-- `AccountPrivilege.Type`
abbrev pub privilege_type : String
privilege_type = "Alibaba.RDS.AccountPrivilege"

-- The refusal of `delete`.
abbrev pub revoke_refused : Failure
revoke_refused =
    invariant_error privilege_type "delete"
      "PostgreSQL does not support RevokeAccountPrivilege. Remove this binding through reviewed SQL ownership/permission changes before retrying. The provider will not drop the database or account to revoke access."

-- `isPrivilege`
unfoldable pub is_privilege : Option String → Bool
is_privilege value =
    is_text "ReadWrite" value
    || is_text "ReadOnly" value
    || is_text "DDLOnly" value
    || is_text "DMLOnly" value
    || is_text "DBOwner" value

-- `normalizePrivilege`
unfoldable pub normalize_privilege : Option String → Option String
normalize_privilege privilege = if is_text "ALL" privilege then some "DBOwner" else privilege

-- `["super", "high", "privileged"].includes(accountType.toLowerCase())`
abbrev is_privileged : String → Bool
is_privileged kind = str_eq kind "super" || str_eq kind "high" || str_eq kind "privileged"

-- `hasImplicitDatabaseAccess`
unfoldable pub has_implicit_access : (String → String) → Option String → Bool
has_implicit_access lower none = false
has_implicit_access lower (some account_type) = is_privileged (lower account_type)

abbrev privileges_of : Option SdkAccount → List SdkPrivilege
privileges_of none = []
privileges_of (some a) = get_or a.database_privileges []

abbrev accounts_of : Option SdkDatabase → List SdkAccountOfDatabase
accounts_of none = []
accounts_of (some d) = get_or d.accounts []

abbrev of_privilege : Option SdkPrivilege → Option ObservedPrivilege
of_privilege none = none
of_privilege (some p) = some (record {
  account_privilege = normalize_privilege p.account_privilege;
  account_privilege_detail = p.account_privilege_detail;
})

abbrev of_account : Option SdkAccountOfDatabase → Option ObservedPrivilege
of_account none = none
of_account (some p) = some (record {
  account_privilege = normalize_privilege p.account_privilege;
  account_privilege_detail = p.account_privilege_detail;
})

abbrev pub account_named : String → Option (List SdkAccount) → Option SdkAccount
account_named name accounts = find_in (λ a. is_text name a.account_name) accounts

-- What `getFromAccounts` reads in a response.
unfoldable pub privilege_in_accounts :
    String → String → Option (List SdkAccount) → Option ObservedPrivilege
unfolding normalize_privilege
privilege_in_accounts account_name database_name accounts = of_privilege (
    find_first (λ p. is_text database_name p.db_name)
      (privileges_of (account_named account_name accounts)))

-- What `getFromDatabases` reads in a response.
unfoldable pub privilege_in_databases :
    String → String → Option (List SdkDatabase) → Option ObservedPrivilege
unfolding normalize_privilege
privilege_in_databases account_name database_name databases = of_account (
    find_first (λ a. is_text account_name a.account)
      (accounts_of (find_in (λ d. is_text database_name d.db_name) databases)))

-- Whether there is nothing to revoke: the account is gone, or its access is implicit.
unfoldable pub nothing_to_revoke : (String → String) → String → Option (List SdkAccount) → Bool
unfolding has_implicit_access
nothing_to_revoke lower name accounts = elim (account_named name accounts) [
  | none ↦ true
  | some account ↦ has_implicit_access lower account.account_type
]

abbrev is_postgres : String → SdkInstance → Bool
is_postgres instance_id i = is_text instance_id i.db_instance_id && is_text "PostgreSQL" i.engine

-- `items?.some(...)`
unfoldable pub has_postgres : String → Option (List SdkInstance) → Bool
has_postgres instance_id items = elim (find_in (is_postgres instance_id) items) [
  | none ↦ false
  | some i ↦ true
]

-- `attrs`
unfoldable pub privilege_attributes : PrivilegeProps → Option String → PrivilegeAttributes
privilege_attributes props detail = record {
  instance_id = props.instance_id;
  account_name = props.account_name;
  database_name = props.database_name;
  privilege = props.privilege;
  detail = detail;
}

abbrev is_moved : String → String → String → PrivilegeProps → Bool
is_moved instance_id account_name database_name news =
    not (str_eq instance_id news.instance_id)
    || not (str_eq account_name news.account_name)
    || not (str_eq database_name news.database_name)

-- `diff`, which sends no request.
unfoldable pub diff_privilege : StoredPrivilege → Planned PrivilegeProps → Plan
diff_privilege olds unresolved = keep
diff_privilege olds (resolved news) = elim olds.instance_id [
  | none ↦ keep
  | some instance_id ↦ elim olds.account_name [
    | none ↦ keep
    | some account_name ↦ elim olds.database_name [
      | none ↦ keep
      | some database_name ↦ elim olds.privilege [
        | none ↦ keep
        | some privilege ↦
            if is_moved instance_id account_name database_name news then replace else keep
      ]
    ]
  ]
]

-- `olds` with `output` where a field is missing.
unfoldable pub known_privilege : StoredPrivilege → Option PrivilegeAttributes → StoredPrivilege
known_privilege olds none = olds
known_privilege olds (some o) = record {
  instance_id = or_else olds.instance_id (some o.instance_id);
  account_name = or_else olds.account_name (some o.account_name);
  database_name = or_else olds.database_name (some o.database_name);
  privilege = or_else olds.privilege (some o.privilege);
}
