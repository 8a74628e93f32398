-- ===== src/Workflow/Backup.antt =====
-- internal/workflow/backup.go, and where its three life cycles leave the row.
use text.Mathlib.Text.{◌==◌ as str_eq}
use hosting.Common.{ℕ, refl, String, Bytes, codes, none, ◌++◌, ◌≡◌, ◌⊎◌, inl, inr, if◌then◌else◌}
use hosting.Workflow.Temporal.{
  provisioning, active, deleted, BackupContext, BackupResult, Node, create_web_backup,
  create_mysql_backup, restore_web_backup, restore_mysql_backup, delete_backup_file, NodeActivity,
  on_node, update_backup_result, get, Result, ok, err, Env, World, Wf, pure, raise, ask, call,
  call_node, update_status, ◌>>=◌, ◌>>◌,
}
use hosting.Workflow.Helpers.{or_failed}
use hosting.Workflow.Database.{required, no_shard}
use hosting.Workflow.Nodes.{first_or, on_each_node}
use hosting.Workflow.Nodes.Rules.{lifecycle}
use hosting.Workflow.Guards.{Silent, Settled, Settles}
use hosting.Workflow.Guards.Rules.{UpdatesSucceed}

abbrev backup_path : String → String → String → Bytes
backup_path tenant_id id suffix =
    codes "/var/backups/hosting/" ++ (codes tenant_id ++ (codes "/" ++ (codes id ++ codes suffix)))

abbrev unsupported : String → Bytes
unsupported type = codes "unsupported backup type: " ++ codes type

module _ (e : Env) where
  abbrev backup_context_of : String → Wf BackupContext
  backup_context_of id = ask (λ t. e.backup_context t id) (get "GetBackupContext" id)

  -- A backup activity on a node, which returns where it stored what.
  abbrev backup_on : String → NodeActivity → Wf BackupResult
  backup_on node_id a = ask (λ t. e.backup_result t (on_node node_id a)) (on_node node_id a)

  abbrev now_of : Wf ℕ
  now_of w = (ok (e.now w.clock), w)

  -- The guards on the shard and its nodes.
  unfoldable pub backup_node : String → BackupContext → Wf Node
  backup_node id bctx = do
    shard_id ←
        or_failed e "backups" id
          (required bctx.tenant.shard_id (no_shard "tenant" bctx.backup.tenant_id))
    or_failed e "backups" id
        (first_or (codes "no nodes found for shard " ++ codes shard_id) bctx.nodes)

  -- The switch on the type.
  unfoldable pub create_backup_on : String → BackupContext → String → Wf BackupResult
  create_backup_on id bctx node_id =
      if str_eq bctx.backup.type "web"
      then (do
        webroot ← or_failed e "backups" id (
            ask (λ t. e.webroot_by_id t bctx.backup.source_id)
              (get "GetWebrootByID" bctx.backup.source_id))
        or_failed e "backups" id (
            backup_on node_id (
              create_web_backup (record {
                tenant_name = bctx.tenant.id;
                webroot_name = webroot.id;
                backup_path = backup_path bctx.tenant.id id ".tar.gz";
              }))))
      else if str_eq bctx.backup.type "database"
      then or_failed e "backups" id (
          backup_on node_id
            (create_mysql_backup bctx.backup.source_name (backup_path bctx.tenant.id id ".sql.gz")))
      else or_failed e "backups" id (raise (unsupported bctx.backup.type))

  unfoldable pub create_backup_workflow : String → Wf (Unit {0})
  create_backup_workflow id = do
    update_status e "backups" id provisioning none
    bctx ← or_failed e "backups" id (backup_context_of id)
    node ← backup_node id bctx
    started_at ← now_of
    result ← create_backup_on id bctx node.id
    completed_at ← now_of
    or_failed e "backups" id (
        call e (
          update_backup_result (record {
            id = id;
            storage_path = result.storage_path;
            size_bytes = result.size_bytes;
            started_at = started_at;
            completed_at = completed_at;
          })))
    update_status e "backups" id active none

  -- The switch on the type: a web backup on each node, a database on the first.
  unfoldable pub restore_backup_on : String → BackupContext → String → Wf (Unit {0})
  restore_backup_on id bctx node_id =
      if str_eq bctx.backup.type "web"
      then (do
        webroot ← or_failed e "backups" id (
            ask (λ t. e.webroot_by_id t bctx.backup.source_id)
              (get "GetWebrootByID" bctx.backup.source_id))
        on_each_node e "backups" id
            (restore_web_backup (record {
              tenant_name = bctx.tenant.id;
              webroot_name = webroot.id;
              backup_path = bctx.backup.storage_path;
            }))
            bctx.nodes)
      else if str_eq bctx.backup.type "database"
      then or_failed e "backups" id (
          call_node e node_id
            (restore_mysql_backup bctx.backup.source_name bctx.backup.storage_path))
      else or_failed e "backups" id (raise (unsupported bctx.backup.type))

  -- What follows the reading of the backup.
  unfoldable pub restore_backup_in : String → BackupContext → Wf (Unit {0})
  restore_backup_in id bctx = do
    update_status e "backups" id provisioning none
    node ← backup_node id bctx
    restore_backup_on id bctx node.id
    update_status e "backups" id active none

  -- An error in reading the backup leaves its row alone.
  unfoldable pub restore_backup_workflow : String → Wf (Unit {0})
  restore_backup_workflow id = do bctx ← backup_context_of id; restore_backup_in id bctx

  unfoldable pub delete_backup_workflow : String → Wf (Unit {0})
  delete_backup_workflow id = do
    bctx ← or_failed e "backups" id (backup_context_of id)
    node ← backup_node id bctx
    (if str_eq bctx.backup.storage_path ""
        then pure tt
        else or_failed e "backups" id
            (call_node e node.id (delete_backup_file bctx.backup.storage_path)))
    update_status e "backups" id deleted none

module _ (e : Env) (id : String) where
  module _ (u : UpdatesSucceed e "backups" id) where
    Silent-now_of : Silent "backups" id (now_of e)
    Silent-now_of = record { at = λ w. refl; value = λ w. (_, refl) }

    restore_backup_in-Settles :
        (b : BackupContext) → Settles "backups" id active (restore_backup_in e id b)
    unfolding restore_backup_in restore_backup_on backup_node
    restore_backup_in-Settles b = search lifecycle depth 25 fits 9000

  -- If the updates of the backup's status succeed, then whatever the other activities answer, creation
  -- ends with the row `active` and no message when it returns no error, deletion with the row gone,
  -- and each with `failed` and the error's text when it returns an error, also for a type of backup
  -- that is not supported.
  pub backup_workflows_settle :
      UpdatesSucceed e "backups" id
      → (w : World)
      → let (r₁, w₁) = create_backup_workflow e id w in
        let (r₂, w₂) = delete_backup_workflow e id w in
        let old = w.rows "backups" id in
        Settled "backups" id active old r₁ (w₁.rows "backups" id)
        × Settled "backups" id deleted old r₂ (w₂.rows "backups" id)
  unfolding create_backup_workflow delete_backup_workflow create_backup_on backup_node
  backup_workflows_settle u w =
      let p : Settles "backups" id active (create_backup_workflow e id) =
        search (lifecycle, Silent-now_of u) depth 25 fits 9000 in
      let q : Settles "backups" id deleted (delete_backup_workflow e id) =
        search lifecycle depth 25 fits 9000 in
      (p.at w, q.at w)

  -- If the updates of the backup's status succeed, then restoring it ends with the row `active` and no
  -- message when it returns no error; when it returns one, the row holds `failed` and the error's
  -- text, or the backup could not be read, and its row is as it was.
  pub restore_backup_workflow_settles :
      UpdatesSucceed e "backups" id
      → (w : World)
      → let (r, w') = restore_backup_workflow e id w in
        let old = w.rows "backups" id in
        Settled "backups" id active old r (w'.rows "backups" id)
        ⊎ ((text : Bytes) × (e.backup_context w.clock id ≡ err text)
            × (r ≡ err text)
            × (w'.rows "backups" id ≡ old))
  unfolding restore_backup_workflow ◌>>=◌ ask
  restore_backup_workflow_settles u w = go _ refl
    where
      go :
          (r : Result BackupContext)
          → e.backup_context w.clock id ≡ r
          → let (r, w') = restore_backup_workflow e id w in
            let old = w.rows "backups" id in
            Settled "backups" id active old r (w'.rows "backups" id)
            ⊎ ((text : Bytes) × (e.backup_context w.clock id ≡ err text)
                × (r ≡ err text)
                × (w'.rows "backups" id ≡ old))
      go (ok b) p = rw p (inl ((restore_backup_in-Settles u b).at _))
      go (err text) p = rw p (inr (text, refl, refl, refl))
