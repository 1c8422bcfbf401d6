-- ===== src/Tair/Client.antt =====
-- The operations of the Tair client that the providers call, each with its request, and
-- `requestMutation`, which waits until the instance accepts a change.
use alchemy_alibaba.Prelude.{ℕ, String, List, Option, ◌||◌}
use alchemy_alibaba.Effect.{Effect}
use alchemy_alibaba.Errors.{ProviderError, tair}
use alchemy_alibaba.Errors.Classify.{SdkCause, is_incorrect_instance_state, is_transient}
use alchemy_alibaba.Errors.Calls.{sdk_call}
use alchemy_alibaba.Lifecycle.Identity.Tags.{TagRecord}
use alchemy_alibaba.Lifecycle.Wait.{wait_until_accepted}
use alchemy_alibaba.Provider.{Context}

pub record ModifySecurityIps : Type 0 where
  pub instance_id : String
  pub modify_mode : String
  pub security_ip_group_name : String
  pub security_ip_group_attribute : Option String
  pub security_ips : String

pub record AccountQuery : Type 0 where
  pub instance_id : String
  pub account_name : String
  pub page_number : ℕ
  pub page_size : ℕ

-- `AccountSettings`; `others` are the settings that the code does not read.
pub record AccountSettings : Type 0 where
  pub account_privilege : Option String
  pub account_type : Option String
  pub parameters : Option String
  pub account_description : Option String
  pub others : TagRecord

pub record CreateAccount : Type 0 where
  pub settings : AccountSettings
  pub instance_id : String
  pub account_name : String
  pub account_password : String

pub record DescriptionOfAccount : Type 0 where
  pub instance_id : String
  pub account_name : String
  pub account_description : String

pub record PasswordOfAccount : Type 0 where
  pub instance_id : String
  pub account_name : String
  pub account_password : String

pub record AccountKey : Type 0 where
  pub instance_id : String
  pub account_name : String

-- What the responses say of the resources.
pub record SdkIpGroup : Type 0 where
  pub group_name : Option String
  pub security_ip_list : Option String
  pub group_attribute : Option String

pub record SdkAccount : Type 0 where
  pub account_name : Option String
  pub account_status : Option String
  pub account_type : Option String
  pub account_description : Option String
  -- The privileges of `databasePrivileges?.databasePrivilege`.
  pub privileges : Option (List (Option String))
  pub parameters : Option String

-- The client. A list is `none` where a part of the body is missing.
pub record TairClients (W : Type 0) : Type 0 where
  pub describe_security_ips : String → Effect W SdkCause (Option (List SdkIpGroup))
  pub modify_security_ips : ModifySecurityIps → Effect W SdkCause (Unit {0})
  pub describe_accounts : AccountQuery → Effect W SdkCause (Option (List SdkAccount))
  pub create_account : CreateAccount → Effect W SdkCause (Unit {0})
  pub modify_account_description : DescriptionOfAccount → Effect W SdkCause (Unit {0})
  pub reset_account_password : PasswordOfAccount → Effect W SdkCause (Unit {0})
  pub delete_account : AccountKey → Effect W SdkCause (Unit {0})

module _ {W : Type 0} (c : Context (TairClients W) W) where
  -- `requestMutation`
  unfoldable pub request_mutation :
      String → Effect W SdkCause (Unit {0}) → Effect W ProviderError (Unit {0})
  request_mutation operation request =
      wait_until_accepted c.runtime (λ e. is_incorrect_instance_state e || is_transient e) c.wait
        (sdk_call tair operation request)
