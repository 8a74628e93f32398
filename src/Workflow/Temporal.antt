-- ===== src/Workflow/Temporal.antt =====
-- What a workflow runs on: the activities that it calls, their results, the status rows of the core
-- database, and the record of the calls made (internal/model, internal/activity/core_db.go).
--
-- An activity's result is an argument: a function of the number of calls made so far. So it may be
-- any result at any time. An activity that fails is one that changed nothing.
use hosting.Common.{
  ℕ, ◌+◌, String, Bytes, Bool, Option, none, some, List, [], ◌∷◌, ◌++◌, ◌&&◌, if◌then◌else◌,
}
use text.Mathlib.Text.{◌==◌}
pub use hosting.Common.Result.{Result, ok, err}
mod Resources
mod Params
mod Calls
pub use hosting.Workflow.Temporal.Resources.{
  Status, pending, provisioning, converging, active, failed, suspended, deleting, deleted,
  auto_disabled, Database, DatabaseUser, DatabaseUserContext, ValkeyInstance, ValkeyUser, Tenant,
  Node, Shard, ValkeyUserContext, S3Bucket, S3AccessKey, S3AccessKeyContext, EmailAccount,
  EmailAlias, EmailForward, EmailAutoReply, StalwartContext, SshKey, WireGuardPeer, Webroot, Backup,
  BackupContext, BackupResult, CronJob, CronJobContext,
}
pub use hosting.Workflow.Temporal.Params.{
  DatabaseUserParams, CreateValkeyInstanceParams, ConfigureTenantAddressesParams, ValkeyUserParams,
  CreateS3BucketParams, UpdateS3BucketPolicyParams, CreateS3AccessKeyParams,
  ConfigureWireGuardPeerParams, CreateWebBackupParams, RestoreWebBackupParams,
  UpdateBackupResultParams, CreateCronJobParams, CronJobTimerParams, StalwartServer,
  StalwartCreateAccountParams, VacationParams, AutoCreateEmailDnsRecordsParams,
  CreateIncidentParams, CreateIncidentResult, WebhookIncident, SendWebhookParams,
}
pub use hosting.Workflow.Temporal.Calls.{
  NodeActivity, StalwartActivity, ChildWorkflowSpec, Call, create_database, delete_database,
  create_database_user, update_database_user, delete_database_user, create_valkey_instance,
  delete_valkey_instance, configure_service_tenant_addr, create_valkey_user, update_valkey_user,
  delete_valkey_user, create_s3_bucket, update_s3_bucket_policy, delete_s3_bucket,
  create_s3_access_key, delete_s3_access_key, sync_ssh_keys, configure_wireguard_peer,
  remove_wireguard_peer, create_web_backup, create_mysql_backup, restore_web_backup,
  restore_mysql_backup, delete_backup_file, dump_mysql_database, import_mysql_database,
  dump_valkey_data, import_valkey_data, cleanup_migrate_file, update_database_shard_id,
  update_valkey_instance_shard_id, create_cron_job_units, update_cron_job_units,
  delete_cron_job_units, enable_cron_job_timer, disable_cron_job_timer, create_domain,
  delete_domain, create_account, delete_account, add_alias, remove_alias, set_vacation,
  sync_forward_script, update_resource_status, get, create_incident, send_webhook, on_node,
  start_child, on_stalwart, auto_create_email_dns_records, auto_delete_email_dns_records,
  update_backup_result,
}

-- The columns of a resource's row that the workflows write.
pub record Row : Type 0 where
  pub status : Status
  pub status_message : Option Bytes

abbrev pub Rows : Type 0
Rows = String → String → Option Row

-- The effect of `UpdateResourceStatus` on the row: an UPDATE of a row that is not there changes
-- nothing.
abbrev pub updated_row : Status → Option Bytes → Option Row → Option Row
updated_row deleted message row = none
updated_row status message none = none
updated_row active message (some row) = some (record { status = active; status_message = none })
updated_row status (some text) (some row) =
    some (record { status = status; status_message = some text })
updated_row status none (some row) = some (record row { status = status })

abbrev pub write : Rows → String → String → Option Row → Rows
write rows table id row t i = if t == table && i == id then row else rows t i

-- The results, each a function of the number of calls made so far. `done` is of the calls that
-- return no value. `node_order` and `child_order` are the orders in which parallel calls run.
pub record Env : Type 0 where
  pub done : ℕ → Call → Result (Unit {0})
  pub database_by_id : ℕ → String → Result Database
  pub database_user_context : ℕ → String → Result DatabaseUserContext
  pub database_users : ℕ → String → Result (List DatabaseUser)
  pub valkey_instance_by_id : ℕ → String → Result ValkeyInstance
  pub valkey_users : ℕ → String → Result (List ValkeyUser)
  pub shard_by_id : ℕ → String → Result Shard
  pub nodes_by_shard : ℕ → String → Result (List Node)
  pub tenant_by_id : ℕ → String → Result Tenant
  pub incident : ℕ → CreateIncidentParams → Result CreateIncidentResult
  pub platform_config : ℕ → String → Result String
  pub unmarshal_primary_node_id : Bytes → String
  pub valkey_user_context : ℕ → String → Result ValkeyUserContext
  pub s3_bucket_by_id : ℕ → String → Result S3Bucket
  pub s3_access_key_context : ℕ → String → Result S3AccessKeyContext
  pub email_account_by_id : ℕ → String → Result EmailAccount
  pub email_alias_by_id : ℕ → String → Result EmailAlias
  pub email_forward_by_id : ℕ → String → Result EmailForward
  pub email_auto_reply_by_id : ℕ → String → Result EmailAutoReply
  pub email_aliases : ℕ → String → Result (List EmailAlias)
  pub email_forwards : ℕ → String → Result (List EmailForward)
  pub email_auto_replies : ℕ → String → Result (List EmailAutoReply)
  pub active_email_accounts : ℕ → String → Result ℕ
  pub stalwart_context : ℕ → String → Result StalwartContext
  pub ssh_key_by_id : ℕ → String → Result SshKey
  pub ssh_keys_by_tenant : ℕ → String → Result (List SshKey)
  pub wireguard_peer_by_id : ℕ → String → Result WireGuardPeer
  pub shards_by_cluster_and_role : ℕ → String → String → Result (List Shard)
  pub backup_context : ℕ → String → Result BackupContext
  pub webroot_by_id : ℕ → String → Result Webroot
  pub backup_result : ℕ → Call → Result BackupResult
  pub cron_job_context : ℕ → String → Result CronJobContext
  pub now : ℕ → ℕ
  pub format_rfc3339 : ℕ → String
  pub node_order : ℕ → List Node → List Node
  pub child_order : ℕ → List ChildWorkflowSpec → List ChildWorkflowSpec

pub record World : Type 0 where
  pub clock : ℕ
  pub rows : Rows
  pub trace : List Call

abbrev pub Wf : Type 0 → Type 0
Wf A = World → Result A × World

abbrev pub pure : {A : Type 0} → A → Wf A
pure a w = (ok a, w)

abbrev pub raise : {A : Type 0} → Bytes → Wf A
raise message w = (err message, w)

abbrev pub continue : {A B : Type 0} → Result A → (A → Wf B) → Wf B
continue (ok a) f w = f a w
continue (err message) f w = (err message, w)

infixl 5 ◌>>=◌ ◌>>◌
unfoldable pub ◌>>=◌ : {A B : Type 0} → Wf A → (A → Wf B) → Wf B
◌>>=◌ m f w = let (r, w') = m w in continue r f w'

abbrev pub ◌>>◌ : {B : Type 0} → Wf (Unit {0}) → Wf B → Wf B
m >> k = m >>= λ _. k

-- Run `m` and hand its error on as a value.
unfoldable pub attempt : {A : Type 0} → Wf A → Wf (Result A)
attempt m w = let (r, w') = m w in (ok r, w')

-- Run `m` and drop its result, `_ = m`.
unfoldable pub ignore : {A : Type 0} → Wf A → Wf (Unit {0})
ignore m w = let (r, w') = m w in (ok tt, w')

abbrev pub called : Call → World → World
called c w = record w { clock = w.clock + 1; trace = w.trace ++ (c ∷ []) }

-- `workflow.ExecuteActivity(ctx, c).Get(ctx, &result)`
unfoldable pub ask : {A : Type 0} → (ℕ → Result A) → Call → Wf A
ask result c w = (result w.clock, called c w)

module _ (e : Env) where
  unfoldable pub call : Call → Wf (Unit {0})
  unfolding ask
  call c = ask (λ t. e.done t c) c

  -- On the task queue of a node, `nodeActivityCtx`.
  abbrev pub call_node : String → NodeActivity → Wf (Unit {0})
  call_node node_id a = call (on_node node_id a)

  unfoldable pub update_status : String → String → Status → Option Bytes → Wf (Unit {0})
  update_status table id status message w =
      let c = update_resource_status table id status message in
      let w' = called c w in
      elim (e.done w.clock c) [
        | ok _ ↦ (
          ok tt,
          record w' { rows = write w.rows table id (updated_row status message (w.rows table id)) },
        )
        | err text ↦ (err text, w')
      ]
