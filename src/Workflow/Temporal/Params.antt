-- ===== src/Workflow/Temporal/Params.antt =====
-- The parameters of activities, internal/activity/params.go and internal/activity/stalwart.go.
use hosting.Common.{ℕ, String, Bytes, Bool, Option, List}

pub record DatabaseUserParams : Type 0 where
  pub database_name : String
  pub username : String
  pub password_hash : String
  pub privileges : List String

pub record CreateValkeyInstanceParams : Type 0 where
  pub name : String
  pub port : ℕ
  pub password_hash : String
  pub max_memory_mb : ℕ

pub record ConfigureTenantAddressesParams : Type 0 where
  pub tenant_name : String
  pub tenant_uid : ℕ
  pub cluster_id : String
  pub node_shard_idx : ℕ

pub record ValkeyUserParams : Type 0 where
  pub instance_name : String
  pub port : ℕ
  pub username : String
  pub password_hash : String
  pub privileges : List String
  pub key_pattern : String

pub record CreateS3BucketParams : Type 0 where
  pub tenant_id : String
  pub name : String
  pub quota_bytes : ℕ

pub record UpdateS3BucketPolicyParams : Type 0 where
  pub tenant_id : String
  pub name : String
  pub public : Bool

pub record CreateS3AccessKeyParams : Type 0 where
  pub tenant_id : String
  pub access_key_id : String
  pub secret_access_key : String

pub record ConfigureWireGuardPeerParams : Type 0 where
  pub public_key : String
  pub preshared_key : String
  pub assigned_ip : String
  pub allowed_ips : List Bytes

pub record CreateWebBackupParams : Type 0 where
  pub tenant_name : String
  pub webroot_name : String
  pub backup_path : Bytes

pub record RestoreWebBackupParams : Type 0 where
  pub tenant_name : String
  pub webroot_name : String
  pub backup_path : String

pub record UpdateBackupResultParams : Type 0 where
  pub id : String
  pub storage_path : String
  pub size_bytes : ℕ
  pub started_at : ℕ
  pub completed_at : ℕ

pub record CreateCronJobParams : Type 0 where
  pub id : String
  pub tenant_name : String
  pub webroot_name : String
  pub name : String
  pub schedule : String
  pub command : String
  pub working_directory : String
  pub timeout_seconds : ℕ
  pub max_memory_mb : ℕ
  pub env_file_name : String

pub record CronJobTimerParams : Type 0 where
  pub id : String
  pub tenant_name : String

-- What the calls of a mail server take before their own parameters.
pub record StalwartServer : Type 0 where
  pub base_url : String
  pub admin_token : String

pub record StalwartCreateAccountParams : Type 0 where
  pub address : String
  pub display_name : String
  pub quota_bytes : ℕ

pub record VacationParams : Type 0 where
  pub subject : String
  pub body : String
  pub enabled : Bool
  pub start_date : Option String
  pub end_date : Option String

pub record AutoCreateEmailDnsRecordsParams : Type 0 where
  pub fqdn : String
  pub mail_hostname : String
  pub spf_includes : String
  pub dkim_selector : String
  pub dkim_public_key : String
  pub dmarc_policy : String
  pub source_fqdn_id : String

pub record CreateIncidentParams : Type 0 where
  pub dedupe_key : Bytes
  pub type : String
  pub severity : String
  pub title : Bytes
  pub detail : Bytes
  pub resource_type : Bytes
  pub resource_id : String
  pub source : String

pub record CreateIncidentResult : Type 0 where
  pub id : String
  pub created : Bool

-- The incident that a webhook carries: the parameters, and the id that the database gave.
pub record WebhookIncident : Type 0 where
  pub id : String
  pub params : CreateIncidentParams

pub record SendWebhookParams : Type 0 where
  pub url : String
  pub template : String
  pub incident : WebhookIncident
  pub trigger : String
