-- ===== src/Workflow/Provisioning.antt =====
-- The life cycles that share one shape, in one theorem for each shape.
use hosting.Common.{String}
use hosting.Workflow.Temporal.{Status, active, deleted, Env, World, Wf}
use hosting.Workflow.ValkeyUser.{
  create_valkey_user_workflow, update_valkey_user_workflow, delete_valkey_user_workflow,
  valkey_user_workflows_settle,
}
use hosting.Workflow.S3.{
  create_s3_bucket_workflow, delete_s3_bucket_workflow, create_s3_access_key_workflow,
  delete_s3_access_key_workflow, s3_bucket_workflows_settle, s3_access_key_workflows_settle,
}
use hosting.Workflow.Email.{
  create_email_account_workflow, create_email_alias_workflow, delete_email_alias_workflow,
  create_email_forward_workflow, update_email_auto_reply_workflow, delete_email_auto_reply_workflow,
  delete_email_account_workflow, delete_email_forward_workflow,
}
use hosting.Workflow.SshKey.{
  add_ssh_key_workflow, remove_ssh_key_workflow, ssh_key_workflows_settle,
}
use hosting.Workflow.WireGuardPeer.{
  create_wireguard_peer_workflow, delete_wireguard_peer_workflow, wireguard_peer_workflows_settle,
}
use hosting.Workflow.Backup.{
  create_backup_workflow, delete_backup_workflow, backup_workflows_settle,
}
use hosting.Workflow.Email.Lifecycles.{
  email_account_workflows_settle, email_alias_workflows_settle, email_forward_workflows_settle,
  email_auto_reply_workflows_settle,
}
use hosting.Workflow.Guards.{Settled}
use hosting.Workflow.Guards.Rules.{UpdatesSucceed}
use hosting.Workflow.Guards.Withdrawal.{Withdrawn}

-- The workflows that set their row's last status at the end; a key's creation is given its secret.
pub data LifeCycle : Type 0 where
  valkey_user_creation : LifeCycle
  valkey_user_update : LifeCycle
  valkey_user_deletion : LifeCycle
  s3_bucket_creation : LifeCycle
  s3_bucket_deletion : LifeCycle
  s3_access_key_creation : String → LifeCycle
  s3_access_key_deletion : LifeCycle
  email_account_creation : LifeCycle
  email_alias_creation : LifeCycle
  email_alias_deletion : LifeCycle
  email_forward_creation : LifeCycle
  email_auto_reply_update : LifeCycle
  email_auto_reply_deletion : LifeCycle
  ssh_key_addition : LifeCycle
  wireguard_peer_creation : LifeCycle
  wireguard_peer_deletion : LifeCycle
  backup_creation : LifeCycle
  backup_deletion : LifeCycle

abbrev pub table_of : LifeCycle → String
table_of valkey_user_creation = "valkey_users"
table_of valkey_user_update = "valkey_users"
table_of valkey_user_deletion = "valkey_users"
table_of s3_bucket_creation = "s3_buckets"
table_of s3_bucket_deletion = "s3_buckets"
table_of (s3_access_key_creation secret) = "s3_access_keys"
table_of s3_access_key_deletion = "s3_access_keys"
table_of email_account_creation = "email_accounts"
table_of email_alias_creation = "email_aliases"
table_of email_alias_deletion = "email_aliases"
table_of email_forward_creation = "email_forwards"
table_of email_auto_reply_update = "email_autoreplies"
table_of email_auto_reply_deletion = "email_autoreplies"
table_of ssh_key_addition = "ssh_keys"
table_of wireguard_peer_creation = "wireguard_peers"
table_of wireguard_peer_deletion = "wireguard_peers"
table_of backup_creation = "backups"
table_of backup_deletion = "backups"

abbrev pub goal_of : LifeCycle → Status
goal_of valkey_user_creation = active
goal_of valkey_user_update = active
goal_of valkey_user_deletion = deleted
goal_of s3_bucket_creation = active
goal_of s3_bucket_deletion = deleted
goal_of (s3_access_key_creation secret) = active
goal_of s3_access_key_deletion = deleted
goal_of email_account_creation = active
goal_of email_alias_creation = active
goal_of email_alias_deletion = deleted
goal_of email_forward_creation = active
goal_of email_auto_reply_update = active
goal_of email_auto_reply_deletion = deleted
goal_of ssh_key_addition = active
goal_of wireguard_peer_creation = active
goal_of wireguard_peer_deletion = deleted
goal_of backup_creation = active
goal_of backup_deletion = deleted

abbrev pub workflow_of : Env → LifeCycle → String → Wf (Unit {0})
workflow_of e valkey_user_creation id = create_valkey_user_workflow e id
workflow_of e valkey_user_update id = update_valkey_user_workflow e id
workflow_of e valkey_user_deletion id = delete_valkey_user_workflow e id
workflow_of e s3_bucket_creation id = create_s3_bucket_workflow e id
workflow_of e s3_bucket_deletion id = delete_s3_bucket_workflow e id
workflow_of e (s3_access_key_creation secret) id = create_s3_access_key_workflow e id secret
workflow_of e s3_access_key_deletion id = delete_s3_access_key_workflow e id
workflow_of e email_account_creation id = create_email_account_workflow e id
workflow_of e email_alias_creation id = create_email_alias_workflow e id
workflow_of e email_alias_deletion id = delete_email_alias_workflow e id
workflow_of e email_forward_creation id = create_email_forward_workflow e id
workflow_of e email_auto_reply_update id = update_email_auto_reply_workflow e id
workflow_of e email_auto_reply_deletion id = delete_email_auto_reply_workflow e id
workflow_of e ssh_key_addition id = add_ssh_key_workflow e id
workflow_of e wireguard_peer_creation id = create_wireguard_peer_workflow e id
workflow_of e wireguard_peer_deletion id = delete_wireguard_peer_workflow e id
workflow_of e backup_creation id = create_backup_workflow e id
workflow_of e backup_deletion id = delete_backup_workflow e id

-- The workflows that delete their row before their last calls.
pub data Removal : Type 0 where
  email_account_deletion email_forward_deletion ssh_key_removal : Removal

abbrev pub removed_from : Removal → String
removed_from email_account_deletion = "email_accounts"
removed_from email_forward_deletion = "email_forwards"
removed_from ssh_key_removal = "ssh_keys"

abbrev pub removal_of : Env → Removal → String → Wf (Unit {0})
removal_of e email_account_deletion id = delete_email_account_workflow e id
removal_of e email_forward_deletion id = delete_email_forward_workflow e id
removal_of e ssh_key_removal id = remove_ssh_key_workflow e id

-- If the updates of the resource's status succeed, then whatever the other activities answer, each of
-- these workflows ends with the row at its goal (`active` without a message, or gone) when it returns
-- no error, and at `failed` with the error's text when it returns one, also where only some of the
-- nodes were reached. A row that is not there is not made.
pub life_cycle_settles :
    (e : Env) (l : LifeCycle) (id : String)
    → UpdatesSucceed e (table_of l) id
    → (w : World)
    → let (r, w') = workflow_of e l id w in
      Settled (table_of l) id (goal_of l) (w.rows (table_of l) id) r (w'.rows (table_of l) id)
life_cycle_settles e valkey_user_creation id u w = (valkey_user_workflows_settle e id u w).0
life_cycle_settles e valkey_user_update id u w = (valkey_user_workflows_settle e id u w).1
life_cycle_settles e valkey_user_deletion id u w = (valkey_user_workflows_settle e id u w).2
life_cycle_settles e s3_bucket_creation id u w = (s3_bucket_workflows_settle e id u w).0
life_cycle_settles e s3_bucket_deletion id u w = (s3_bucket_workflows_settle e id u w).2
life_cycle_settles e (s3_access_key_creation secret) id u w =
    (s3_access_key_workflows_settle e id secret u w).0
life_cycle_settles e s3_access_key_deletion id u w = (s3_access_key_workflows_settle e id "" u w).1
life_cycle_settles e email_account_creation id u w = (email_account_workflows_settle e id u w).0
life_cycle_settles e email_alias_creation id u w = (email_alias_workflows_settle e id u w).0
life_cycle_settles e email_alias_deletion id u w = (email_alias_workflows_settle e id u w).1
life_cycle_settles e email_forward_creation id u w = (email_forward_workflows_settle e id u w).0
life_cycle_settles e email_auto_reply_update id u w = (email_auto_reply_workflows_settle e id u w).0
life_cycle_settles e email_auto_reply_deletion id u w =
    (email_auto_reply_workflows_settle e id u w).1
life_cycle_settles e ssh_key_addition id u w = (ssh_key_workflows_settle e id u w).0
life_cycle_settles e wireguard_peer_creation id u w = (wireguard_peer_workflows_settle e id u w).0
life_cycle_settles e wireguard_peer_deletion id u w = (wireguard_peer_workflows_settle e id u w).1
life_cycle_settles e backup_creation id u w = (backup_workflows_settle e id u w).0
life_cycle_settles e backup_deletion id u w = (backup_workflows_settle e id u w).1

-- If the updates of the resource's status succeed, then whatever the other activities answer, a removal
-- that returns no error ends with the row gone. When it returns an error, either the row is gone all
-- the same, so that no later run finds it, or it holds `failed` and the error's text.
pub removal_withdraws :
    (e : Env) (l : Removal) (id : String)
    → UpdatesSucceed e (removed_from l) id
    → (w : World)
    → let (r, w') = removal_of e l id w in
      Withdrawn (w.rows (removed_from l) id) r (w'.rows (removed_from l) id)
removal_withdraws e email_account_deletion id u w = (email_account_workflows_settle e id u w).1
removal_withdraws e email_forward_deletion id u w = (email_forward_workflows_settle e id u w).1
removal_withdraws e ssh_key_removal id u w = (ssh_key_workflows_settle e id u w).1
