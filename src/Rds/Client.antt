-- ===== src/Rds/Client.antt =====
-- The operations of the RDS client that the providers call, each with its request.
use alchemy_alibaba.Prelude.{ℕ, String, Bool, List, Option}
use alchemy_alibaba.Effect.{Effect}
use alchemy_alibaba.Errors.Classify.{SdkCause}
use alchemy_alibaba.Lifecycle.Identity.Tags.{TagRecord}

-- A request with settings of the caller: `others` are the settings that the code does not read.
pub record ModifySecurityIps : Type 0 where
  pub others : TagRecord
  pub array_attribute : Option String
  pub security_ip_type : Option String
  pub db_instance_id : String
  pub array_name : String
  pub modify_mode : String
  pub security_ips : String

pub record AccountQuery : Type 0 where
  pub db_instance_id : String
  pub account_name : String
  pub page_number : ℕ
  pub page_size : ℕ

pub record CreateAccount : Type 0 where
  pub others : TagRecord
  pub account_type : Option String
  pub check_policy : Option Bool
  pub db_instance_id : String
  pub account_name : String
  pub account_password : String
  pub account_description : Option String

pub record DescriptionOfAccount : Type 0 where
  pub db_instance_id : String
  pub account_name : String
  pub account_description : String

pub record PasswordOfAccount : Type 0 where
  pub db_instance_id : String
  pub account_name : String
  pub account_password : String

pub record AccountKey : Type 0 where
  pub db_instance_id : String
  pub account_name : String

pub record DatabaseQuery : Type 0 where
  pub db_instance_id : String
  pub db_name : String
  pub page_number : ℕ
  pub page_size : ℕ

pub record CreateDatabase : Type 0 where
  pub others : TagRecord
  pub db_instance_id : String
  pub db_name : String
  pub character_set_name : String
  pub db_description : Option String

pub record DescriptionOfDatabase : Type 0 where
  pub db_instance_id : String
  pub db_name : String
  pub db_description : String

pub record DatabaseKey : Type 0 where
  pub db_instance_id : String
  pub db_name : String

pub record GrantPrivilege : Type 0 where
  pub db_instance_id : String
  pub account_name : String
  pub db_name : String
  pub account_privilege : String

pub record RevokePrivilege : Type 0 where
  pub db_instance_id : String
  pub account_name : String
  pub db_name : String

-- What the responses say of the resources.
pub record SdkIpGroup : Type 0 where
  pub array_name : Option String
  pub security_ip_list : Option String
  pub array_attribute : Option String
  pub security_ip_type : Option String

pub record SdkPrivilege : Type 0 where
  pub db_name : Option String
  pub account_privilege : Option String
  pub account_privilege_detail : Option String

pub record SdkAccount : Type 0 where
  pub account_name : Option String
  pub account_status : Option String
  pub account_type : Option String
  pub account_description : Option String
  pub check_policy : Option Bool
  pub database_privileges : Option (List SdkPrivilege)
  pub password_expire_time : Option String

pub record SdkAccountOfDatabase : Type 0 where
  pub account : Option String
  pub account_privilege : Option String
  pub account_privilege_detail : Option String

pub record SdkDatabase : Type 0 where
  pub db_name : Option String
  pub db_status : Option String
  pub character_set_name : Option String
  pub db_description : Option String
  pub engine : Option String
  pub collate : Option String
  pub ctype : Option String
  pub conn_limit : Option String
  pub tablespace : Option String
  pub accounts : Option (List SdkAccountOfDatabase)

-- What `DescribeDBInstanceAttribute` says of an instance.
pub record SdkInstance : Type 0 where
  pub db_instance_id : Option String
  pub engine : Option String

-- The client. A list is `none` where a part of the body is missing.
pub record RdsClients (W : Type 0) : Type 0 where
  pub describe_ip_array_list : String → Effect W SdkCause (Option (List SdkIpGroup))
  pub modify_security_ips : ModifySecurityIps → Effect W SdkCause (Unit {0})
  pub describe_accounts : AccountQuery → Effect W SdkCause (Option (List SdkAccount))
  pub create_account : CreateAccount → Effect W SdkCause (Unit {0})
  pub modify_account_description : DescriptionOfAccount → Effect W SdkCause (Unit {0})
  pub reset_account_password : PasswordOfAccount → Effect W SdkCause (Unit {0})
  pub delete_account : AccountKey → Effect W SdkCause (Unit {0})
  pub describe_databases : DatabaseQuery → Effect W SdkCause (Option (List SdkDatabase))
  pub create_database : CreateDatabase → Effect W SdkCause (Unit {0})
  pub modify_db_description : DescriptionOfDatabase → Effect W SdkCause (Unit {0})
  pub delete_database : DatabaseKey → Effect W SdkCause (Unit {0})
  pub grant_account_privilege : GrantPrivilege → Effect W SdkCause (Unit {0})
  pub revoke_account_privilege : RevokePrivilege → Effect W SdkCause (Unit {0})
  pub describe_db_instance_attribute : String → Effect W SdkCause (Option (List SdkInstance))
