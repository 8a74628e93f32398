-- ===== src/Workflow/Temporal/Calls.antt =====
-- The calls that the workflows make: activities of the nodes, of the mail server and of the core
-- database, and child workflows.
use hosting.Common.{ℕ, String, Bytes, Option, List}
use hosting.Workflow.Temporal.Resources.{Status}
use hosting.Workflow.Temporal.Params.{
  DatabaseUserParams, CreateValkeyInstanceParams, ConfigureTenantAddressesParams, ValkeyUserParams,
  CreateS3BucketParams, UpdateS3BucketPolicyParams, CreateS3AccessKeyParams,
  ConfigureWireGuardPeerParams, CreateWebBackupParams, RestoreWebBackupParams,
  UpdateBackupResultParams, CreateCronJobParams, CronJobTimerParams, StalwartServer,
  StalwartCreateAccountParams, VacationParams, AutoCreateEmailDnsRecordsParams,
  CreateIncidentParams, SendWebhookParams,
}

-- The activities that a node's agent runs.
pub data NodeActivity : Type 0 where
  create_database : String → NodeActivity
  delete_database : String → NodeActivity
  create_database_user : DatabaseUserParams → NodeActivity
  update_database_user : DatabaseUserParams → NodeActivity
  delete_database_user : String → String → NodeActivity
  create_valkey_instance : CreateValkeyInstanceParams → NodeActivity
  delete_valkey_instance : String → ℕ → NodeActivity
  configure_service_tenant_addr : ConfigureTenantAddressesParams → NodeActivity
  create_valkey_user : ValkeyUserParams → NodeActivity
  update_valkey_user : ValkeyUserParams → NodeActivity
  delete_valkey_user : String → ℕ → String → NodeActivity
  create_s3_bucket : CreateS3BucketParams → NodeActivity
  update_s3_bucket_policy : UpdateS3BucketPolicyParams → NodeActivity
  delete_s3_bucket : String → String → NodeActivity
  create_s3_access_key : CreateS3AccessKeyParams → NodeActivity
  delete_s3_access_key : String → String → NodeActivity
  sync_ssh_keys : String → List String → NodeActivity
  configure_wireguard_peer : ConfigureWireGuardPeerParams → NodeActivity
  remove_wireguard_peer : String → String → NodeActivity
  create_web_backup : CreateWebBackupParams → NodeActivity
  create_mysql_backup : String → Bytes → NodeActivity
  restore_web_backup : RestoreWebBackupParams → NodeActivity
  restore_mysql_backup : String → String → NodeActivity
  delete_backup_file : String → NodeActivity
  dump_mysql_database : String → Bytes → NodeActivity
  import_mysql_database : String → Bytes → NodeActivity
  dump_valkey_data : String → ℕ → Bytes → NodeActivity
  import_valkey_data : String → ℕ → Bytes → NodeActivity
  cleanup_migrate_file : Bytes → NodeActivity
  create_cron_job_units : CreateCronJobParams → NodeActivity
  update_cron_job_units : CreateCronJobParams → NodeActivity
  delete_cron_job_units : CronJobTimerParams → NodeActivity
  enable_cron_job_timer : CronJobTimerParams → NodeActivity
  disable_cron_job_timer : CronJobTimerParams → NodeActivity

-- The activities on a mail server; an account is named by its address.
pub data StalwartActivity : Type 0 where
  create_domain : String → StalwartActivity
  delete_domain : String → StalwartActivity
  create_account : StalwartCreateAccountParams → StalwartActivity
  delete_account : String → StalwartActivity
  add_alias : String → String → StalwartActivity
  remove_alias : String → String → StalwartActivity
  set_vacation : String → Option VacationParams → StalwartActivity
  sync_forward_script : String → String → StalwartActivity

-- `Arg` of every child workflow here is a resource's id.
pub record ChildWorkflowSpec : Type 0 where
  pub workflow_name : String
  pub workflow_id : Bytes
  pub arg : String

-- One call of an activity or a child workflow; a reading activity is named by its Go name.
pub data Call : Type 0 where
  update_resource_status : String → String → Status → Option Bytes → Call
  get : String → String → Call
  create_incident : CreateIncidentParams → Call
  send_webhook : SendWebhookParams → Call
  on_node : String → NodeActivity → Call
  start_child : ChildWorkflowSpec → Call
  on_stalwart : StalwartServer → StalwartActivity → Call
  auto_create_email_dns_records : AutoCreateEmailDnsRecordsParams → Call
  auto_delete_email_dns_records : String → Call
  update_backup_result : UpdateBackupResultParams → Call
  update_database_shard_id : String → String → Call
  update_valkey_instance_shard_id : String → String → Call
