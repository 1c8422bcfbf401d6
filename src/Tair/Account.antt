-- ===== src/Tair/Account.antt =====
-- The provider of src/tair/account.ts: an account of a Tair instance. `lower` is `toLowerCase` and
-- `sha256_hex` the hash behind a generated name; a redacted password is its text.
pub mod Operations
use Prim.Native.String.{◌++◌ as ◌<>◌}
use alchemy_alibaba.Prelude.{
  String, Bool, true, false, not, ◌&&◌, ◌||◌, [], ◌∷◌, Option, none, some, str_eq, if◌then◌else◌,
}
use alchemy_alibaba.Effect.{Effect, succeed, raise}
use alchemy_alibaba.Effect.Chain.{◌>>=◌, ◌>>◌}
use alchemy_alibaba.Errors.{Failure, tair}
use alchemy_alibaba.Errors.Classify.{get_or, or_else}
use alchemy_alibaba.Lifecycle.Identity.{invariant_error, same_option as same_text}
use alchemy_alibaba.Lifecycle.Wait.{wait_for_present, wait_for_absent}
use alchemy_alibaba.Provider.{
  Context, call, wait_label, Planned, unresolved, resolved, Plan, keep, replace, differs_if_wanted,
  is_text, when, ignore_missing, found_or_missing, run, run_once,
}
use alchemy_alibaba.Provider.Names.{account_name}
use alchemy_alibaba.Tair.Client.{TairClients, SdkAccount, AccountSettings, request_mutation}

pub record AccountProps : Type 0 where
  pub instance_id : String
  pub name : Option String
  pub password : String
  pub settings : Option AccountSettings

-- The inputs as an earlier run has stored them.
pub record StoredAccount : Type 0 where
  pub instance_id : Option String
  pub name : Option String
  pub password : Option String
  pub settings : Option AccountSettings

pub record AccountAttributes : Type 0 where
  pub instance_id : String
  pub name : String
  pub status : Option String
  pub type : Option String
  pub description : Option String
  pub privilege : Option String
  pub parameters : Option String

-- `Account.Type`
abbrev pub tair_account_type : String
tair_account_type = "Alibaba.Tair.Account"

abbrev pub settings_or_none : Option AccountSettings → AccountSettings
settings_or_none s = get_or s (record {
  account_privilege = none;
  account_type = none;
  parameters = none;
  account_description = none;
  others = [];
})

abbrev pub output_instance : Option AccountAttributes → Option String
output_instance none = none
output_instance (some o) = some o.instance_id

abbrev pub output_name : Option AccountAttributes → Option String
output_name none = none
output_name (some o) = some o.name

-- `databasePrivileges?.databasePrivilege?.[0]?.accountPrivilege`
abbrev pub first_privilege : SdkAccount → Option String
first_privilege a = elim (get_or a.privileges []) [ [] ↦ none | p ∷ ps ↦ p ]

-- `toAttributes`
unfoldable pub account_attributes : String → String → SdkAccount → AccountAttributes
account_attributes instance_id name a = record {
  instance_id = instance_id;
  name = get_or a.account_name name;
  status = a.account_status;
  type = a.account_type;
  description = a.account_description;
  privilege = first_privilege a;
  parameters = a.parameters;
}

abbrev privilege_of : AccountSettings → String
privilege_of s = get_or s.account_privilege "RoleReadWrite"

abbrev settings_differ : AccountSettings → AccountSettings → Bool
settings_differ olds news =
    not (str_eq (privilege_of olds) (privilege_of news))
    || not (same_text olds.account_type news.account_type)
    || not (same_text olds.parameters news.parameters)

-- `diff`, which sends no request.
unfoldable pub diff_account : StoredAccount → Planned AccountProps → Plan
diff_account olds unresolved = keep
diff_account olds (resolved news) = elim olds.instance_id [
  | none ↦ keep
  | some old_instance ↦ elim olds.password [
    | none ↦ keep
    | some password ↦
        if not (str_eq old_instance news.instance_id)
          || not (same_text olds.name news.name)
          || settings_differ (settings_or_none olds.settings) (settings_or_none news.settings)
        then replace
        else keep
  ]
]

-- The settings that cannot change differ from the wanted ones.
unfoldable pub immutable_differs : AccountSettings → SdkAccount → Bool
immutable_differs s a =
    differs_if_wanted s.account_privilege (first_privilege a)
    || differs_if_wanted s.account_type a.account_type
    || differs_if_wanted s.parameters a.parameters

abbrev status_is : (String → String) → String → Option String → Bool
status_is lower wanted none = false
status_is lower wanted (some status) = str_eq (lower status) wanted

-- The test that ends a reconcile.
unfoldable pub account_settled : (String → String) → AccountSettings → SdkAccount → Bool
unfolding immutable_differs
account_settled lower settings a =
    (status_is lower "available" a.account_status || status_is lower "normal" a.account_status)
    && not (differs_if_wanted settings.account_description a.account_description)
    && not (immutable_differs settings a)
