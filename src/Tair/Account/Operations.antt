-- ===== src/Tair/Account/Operations.antt =====
-- The operations of src/tair/account.ts.
use Prim.Native.String.{◌++◌ as ◌<>◌}
use alchemy_alibaba.Prelude.{String, Bool, true, not, Option, none, some, if◌then◌else◌}
use alchemy_alibaba.Effect.{Effect, succeed, raise}
use alchemy_alibaba.Effect.Chain.{◌>>=◌, ◌>>◌}
use alchemy_alibaba.Errors.{Failure, tair}
use alchemy_alibaba.Errors.Classify.{or_else}
use alchemy_alibaba.Lifecycle.Identity.{invariant_error, same_option as same_text}
use alchemy_alibaba.Lifecycle.Wait.{wait_for_present, wait_for_absent}
use alchemy_alibaba.Provider.{
  Context, call, wait_label, is_text, when, ignore_missing, found_or_missing, run, run_once,
}
use alchemy_alibaba.Provider.Names.{account_name}
use alchemy_alibaba.Tair.Client.{TairClients, SdkAccount, AccountSettings, request_mutation}
use alchemy_alibaba.Tair.Account.{
  AccountProps, StoredAccount, AccountAttributes, tair_account_type, settings_or_none,
  output_instance, output_name, account_attributes, immutable_differs, account_settled,
}

module _ {W : Type 0} (c : Context (TairClients W) W) where
  -- `get`
  unfoldable pub get_account : String → String → Effect W Failure (Option SdkAccount)
  get_account instance_id name =
      found_or_missing (λ a. is_text name a.account_name)
        (call c tair "DescribeAccounts" (
          c.clients.describe_accounts (record {
            instance_id = instance_id;
            account_name = name;
            page_number = 1;
            page_size = 100;
          })))

  abbrev attributes_if_found : String → String → Option SdkAccount → Option AccountAttributes
  attributes_if_found instance_id name none = none
  attributes_if_found instance_id name (some a) = some (account_attributes instance_id name a)

  abbrev create : AccountProps → AccountSettings → String → Effect W Failure (Unit {0})
  create news settings name = run_once tair "CreateAccount" (
      c.clients.create_account (record {
        settings = settings;
        instance_id = news.instance_id;
        account_name = name;
        account_password = news.password;
      }))

  abbrev describe_if_needed :
      AccountProps → AccountSettings → String → SdkAccount → Effect W Failure (Unit {0})
  describe_if_needed news settings name a = elim settings.account_description [
    | none ↦ succeed tt
    | some wanted ↦ when (not (is_text wanted a.account_description)) (
        run (
          request_mutation c "ModifyAccountDescription" (
            c.clients.modify_account_description (record {
              instance_id = news.instance_id;
              account_name = name;
              account_description = wanted;
            }))))
  ]

  -- `olds` is `undefined` at the first reconcile.
  abbrev password_changed : AccountProps → Option StoredAccount → Bool
  password_changed news none = true
  password_changed news (some olds) = not (same_text olds.password (some news.password))

  abbrev reset_if_changed :
      AccountProps → Option StoredAccount → String → Effect W Failure (Unit {0})
  reset_if_changed news olds name = when (password_changed news olds) (
      run (
        request_mutation c "ResetAccountPassword" (
          c.clients.reset_account_password (record {
            instance_id = news.instance_id;
            account_name = name;
            account_password = news.password;
          }))))

  -- The account is created, or brought to the wanted description and password.
  unfoldable pub create_or_modify_account :
      AccountProps → Option StoredAccount → String → Option SdkAccount → Effect W Failure (Unit {0})
  unfolding immutable_differs
  create_or_modify_account news olds name none = create news (settings_or_none news.settings) name
  create_or_modify_account news olds name (some a) =
      if immutable_differs (settings_or_none news.settings) a
      then raise (
          invariant_error tair_account_type "ReconcileAccount" (
            "Account " <> name
            <> " exists with immutable settings that differ from the requested accountPrivilege, accountType, or parameters"))
      else describe_if_needed news (settings_or_none news.settings) name a
        >> reset_if_changed news olds name

  -- `delete`
  unfoldable pub delete_account : AccountAttributes → Effect W Failure (Unit {0})
  unfolding get_account
  delete_account output =
      ignore_missing (
        request_mutation c "DeleteAccount" (
          c.clients.delete_account
            (record { instance_id = output.instance_id; account_name = output.name })))
      >> wait_for_absent c.runtime (wait_label c tair "DeleteAccount")
          (get_account output.instance_id output.name)

  module _ (lower sha256_hex : String → String) where
    -- `read`
    unfoldable pub read_account :
        String
        → StoredAccount
        → Option AccountAttributes
        → Effect W Failure (Option AccountAttributes)
    unfolding get_account account_attributes
    read_account id olds output = elim (or_else olds.instance_id (output_instance output)) [
      | none ↦ succeed none
      | some instance_id ↦
          account_name c.alchemy.create_physical_name sha256_hex id
            (or_else olds.name (output_name output)) 32
          >>= λ name. get_account instance_id name >>= λ account.
              succeed (attributes_if_found instance_id name account)
    ]

    -- `reconcile`
    unfoldable pub reconcile_account :
        String
        → AccountProps
        → Option StoredAccount
        → Option AccountAttributes
        → Effect W Failure AccountAttributes
    unfolding get_account create_or_modify_account account_settled account_attributes
    reconcile_account id news olds output = do
      name ←
          account_name c.alchemy.create_physical_name sha256_hex id
            (or_else news.name (output_name output)) 32
      found ← get_account news.instance_id name
      changed ← create_or_modify_account news olds name found
      account ←
          wait_for_present c.runtime (wait_label c tair "ReconcileAccount")
            (account_settled lower (settings_or_none news.settings))
            (get_account news.instance_id name)
      succeed (account_attributes news.instance_id name account)
