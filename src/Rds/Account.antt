-- ===== src/Rds/Account.antt =====
-- The provider of src/rds/account.ts: an account of an RDS instance. `lower` is `toLowerCase` and
-- `sha256_hex` the hash behind a generated name; a redacted password is its text.
pub mod Operations
use Prim.Native.String.{◌++◌ as ◌<>◌}
use alchemy_alibaba.Prelude.{
  String, Bool, true, false, not, ◌&&◌, ◌||◌, List, [], ◌∷◌, ◌++◌, Option, none, some, str_eq,
  if◌then◌else◌,
}
use alchemy_alibaba.Effect.{Effect, succeed, raise}
use alchemy_alibaba.Effect.Chain.{◌>>=◌, ◌>>◌}
use alchemy_alibaba.Errors.{Failure, rds}
use alchemy_alibaba.Errors.Classify.{get_or, or_else}
use alchemy_alibaba.Lifecycle.Identity.{invariant_error, same_option as same_text}
use alchemy_alibaba.Lifecycle.Identity.Tags.{TagRecord}
use alchemy_alibaba.Lifecycle.Wait.{wait_for_present, wait_for_absent}
use alchemy_alibaba.Provider.{
  Context, call, wait_label, Planned, unresolved, resolved, Plan, keep, replace, differs_if_wanted,
  flag_differs, is_text, when, ignore_missing, found_or_missing, run_once,
}
use alchemy_alibaba.Provider.Names.{account_name}
use alchemy_alibaba.Rds.Client.{RdsClients, SdkAccount, SdkPrivilege}

-- `AccountSettings`; `others` are the settings that the code does not read.
pub record AccountSettings : Type 0 where
  pub account_type : Option String
  pub check_policy : Option Bool
  pub others : TagRecord

pub record AccountProps : Type 0 where
  pub instance_id : String
  pub name : Option String
  pub password : String
  pub description : Option String
  pub settings : Option AccountSettings

-- The inputs as an earlier run has stored them.
pub record StoredAccount : Type 0 where
  pub instance_id : Option String
  pub name : Option String
  pub password : Option String
  pub settings : Option AccountSettings

pub record AccountPrivilegeAttribute : Type 0 where
  pub database_name : String
  pub privilege : Option String
  pub detail : Option String

pub record AccountAttributes : Type 0 where
  pub instance_id : String
  pub name : String
  pub status : Option String
  pub type : Option String
  pub description : Option String
  pub check_policy : Option Bool
  pub privileges : List AccountPrivilegeAttribute
  pub password_expires_at : Option String

-- `Account.Type`
abbrev pub account_type : String
account_type = "Alibaba.RDS.Account"

abbrev pub settings_or_none : Option AccountSettings → AccountSettings
settings_or_none s = get_or s (record { account_type = none; check_policy = none; others = [] })

abbrev pub output_instance : Option AccountAttributes → Option String
output_instance none = none
output_instance (some o) = some o.instance_id

abbrev pub output_name : Option AccountAttributes → Option String
output_name none = none
output_name (some o) = some o.name

abbrev named_privilege : SdkPrivilege → List AccountPrivilegeAttribute
named_privilege p = elim p.db_name [
  | none ↦ []
  | some name ↦
      record {
        database_name = name;
        privilege = p.account_privilege;
        detail = p.account_privilege_detail;
      }
      ∷ []
]

abbrev privileges_of : List SdkPrivilege → List AccountPrivilegeAttribute
privileges_of [] = []
privileges_of (p ∷ ps) = named_privilege p ++ privileges_of ps

-- `toAttributes`
unfoldable pub account_attributes : String → String → SdkAccount → AccountAttributes
account_attributes instance_id name a = record {
  instance_id = instance_id;
  name = get_or a.account_name name;
  status = a.account_status;
  type = a.account_type;
  description = a.account_description;
  check_policy = a.check_policy;
  privileges = privileges_of (get_or a.database_privileges []);
  password_expires_at = a.password_expire_time;
}

abbrev same_flag : Option Bool → Option Bool → Bool
same_flag none none = true
same_flag (some a) (some b) = if a then b else not b
same_flag _ _ = false

abbrev type_of : Option AccountSettings → String
type_of s = get_or (settings_or_none s).account_type "Normal"

-- `diff`, which sends no request.
unfoldable pub diff_account : StoredAccount → Planned AccountProps → Plan
diff_account olds unresolved = keep
diff_account olds (resolved news) = elim olds.instance_id [
  | none ↦ keep
  | some old_instance ↦ elim olds.password [
    | none ↦ keep
    | some password ↦
        if not (str_eq old_instance news.instance_id)
          || not (same_text olds.name news.name)
          || not (str_eq (type_of olds.settings) (type_of news.settings))
          || not (
              same_flag (settings_or_none olds.settings).check_policy
                (settings_or_none news.settings).check_policy)
        then replace
        else keep
  ]
]

-- The settings that cannot change differ from the wanted ones.
unfoldable pub immutable_differs : AccountSettings → SdkAccount → Bool
immutable_differs s a =
    differs_if_wanted s.account_type a.account_type || flag_differs s.check_policy a.check_policy

abbrev status_is : (String → String) → String → Option String → Bool
status_is lower wanted none = false
status_is lower wanted (some status) = str_eq (lower status) wanted

-- The test that ends a reconcile.
unfoldable pub account_settled : (String → String) → AccountProps → SdkAccount → Bool
unfolding immutable_differs
account_settled lower news a =
    (status_is lower "available" a.account_status || status_is lower "normal" a.account_status)
    && not (differs_if_wanted news.description a.account_description)
    && not (immutable_differs (settings_or_none news.settings) a)
