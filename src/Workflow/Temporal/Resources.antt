-- ===== src/Workflow/Temporal/Resources.antt =====
-- The rows of internal/model that the workflows read, and the contexts of
-- internal/activity/context.go: the fields that the modelled code uses.
use hosting.Common.{ℕ, String, Bytes, Bool, Option, List}

-- internal/model/status.go
pub data Status : Type 0 where
  pending provisioning converging active failed suspended deleting deleted auto_disabled : Status

pub record Database : Type 0 where
  pub id : String
  pub tenant_id : String
  pub shard_id : Option String

pub record DatabaseUser : Type 0 where
  pub id : String
  pub database_id : String
  pub username : String
  pub password_hash : String
  pub privileges : List String
  pub status : Status

pub record DatabaseUserContext : Type 0 where
  pub user : DatabaseUser
  pub database : Database

pub record ValkeyInstance : Type 0 where
  pub id : String
  pub tenant_id : String
  pub shard_id : Option String
  pub port : ℕ
  pub password_hash : String
  pub max_memory_mb : ℕ

pub record ValkeyUser : Type 0 where
  pub id : String
  pub valkey_instance_id : String
  pub username : String
  pub password_hash : String
  pub privileges : List String
  pub key_pattern : String
  pub status : Status

pub record Tenant : Type 0 where
  pub id : String
  pub uid : ℕ
  pub cluster_id : String
  pub shard_id : Option String

pub record Node : Type 0 where
  pub id : String
  pub shard_index : Option ℕ

-- `config` is the JSON text of the shard's configuration.
pub record Shard : Type 0 where
  pub id : String
  pub config : Bytes

pub record ValkeyUserContext : Type 0 where
  pub user : ValkeyUser
  pub instance_row : ValkeyInstance
  pub nodes : List Node

pub record S3Bucket : Type 0 where
  pub id : String
  pub tenant_id : String
  pub shard_id : Option String
  pub public : Bool
  pub quota_bytes : ℕ

pub record S3AccessKey : Type 0 where
  pub s3_bucket_id : String
  pub access_key_id : String

pub record S3AccessKeyContext : Type 0 where
  pub key : S3AccessKey
  pub bucket : S3Bucket
  pub nodes : List Node

pub record EmailAccount : Type 0 where
  pub id : String
  pub fqdn_id : String
  pub address : String
  pub display_name : String
  pub quota_bytes : ℕ

pub record EmailAlias : Type 0 where
  pub id : String
  pub email_account_id : String
  pub address : String
  pub status : Status

pub record EmailForward : Type 0 where
  pub id : String
  pub email_account_id : String
  pub status : Status

-- A date is a number.
pub record EmailAutoReply : Type 0 where
  pub id : String
  pub email_account_id : String
  pub subject : String
  pub body : String
  pub start_date : Option ℕ
  pub end_date : Option ℕ
  pub enabled : Bool
  pub status : Status

pub record StalwartContext : Type 0 where
  pub stalwart_url : String
  pub stalwart_token : String
  pub mail_hostname : String
  pub fqdn_id : String
  pub fqdn : String
  pub spf_includes : String
  pub dkim_selector : String
  pub dkim_public_key : String
  pub dmarc_policy : String

pub record SshKey : Type 0 where
  pub tenant_id : String
  pub public_key : String

pub record WireGuardPeer : Type 0 where
  pub tenant_id : String
  pub public_key : String
  pub preshared_key : String
  pub assigned_ip : String

pub record Webroot : Type 0 where
  pub id : String
  pub env_file_name : String

pub record Backup : Type 0 where
  pub tenant_id : String
  pub type : String
  pub source_id : String
  pub source_name : String
  pub storage_path : String

pub record BackupContext : Type 0 where
  pub backup : Backup
  pub tenant : Tenant
  pub nodes : List Node

pub record BackupResult : Type 0 where
  pub storage_path : String
  pub size_bytes : ℕ

pub record CronJob : Type 0 where
  pub id : String
  pub tenant_id : String
  pub schedule : String
  pub command : String
  pub working_directory : String
  pub enabled : Bool
  pub timeout_seconds : ℕ
  pub max_memory_mb : ℕ

pub record CronJobContext : Type 0 where
  pub cron_job : CronJob
  pub webroot : Webroot
  pub tenant : Tenant
  pub nodes : List Node
