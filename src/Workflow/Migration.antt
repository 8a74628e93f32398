-- ===== src/Workflow/Migration.antt =====
-- internal/workflow/migrate_database.go and migrate_valkey.go, and where they leave the row.
pub mod InPlace
use hosting.Common.{ℕ, String, Bytes, codes, concat, none, List, [], ◌∷◌, ◌++◌}
use hosting.Workflow.Temporal.{
  provisioning, active, Database, Node, DatabaseUser, ValkeyUser, ValkeyInstance, create_database,
  delete_database, create_database_user, create_valkey_instance, delete_valkey_instance,
  create_valkey_user, dump_mysql_database, import_mysql_database, dump_valkey_data,
  import_valkey_data, cleanup_migrate_file, update_database_shard_id,
  update_valkey_instance_shard_id, get, Env, World, Wf, pure, ask, ignore, call, call_node,
  update_status, ◌>>=◌, ◌>>◌,
}
use hosting.Workflow.Helpers.{or_failed, wrap}
use hosting.Workflow.Database.{required, nodes_of_shard}
use hosting.Workflow.Nodes.{first_or}
use hosting.Workflow.Nodes.Rules.{lifecycle}
use hosting.Workflow.Guards.{Silent-pure}
use hosting.Workflow.Guards.Rules.{UpdatesSucceed, Guarded-Silent, Guarded-or_failed}
use hosting.Workflow.Guards.{Quiet-call}
use hosting.Workflow.Guards.Reports.{
  Reported, Reports, Marks, Marks-of_Guarded, Marks-wrap, Marks-bind, reports,
}

abbrev no_current_shard : String → String → Bytes
no_current_shard kind id =
    codes kind ++ (codes " " ++ (codes id ++ codes " has no current shard assignment"))

-- `%s shard %s has no nodes`
abbrev no_nodes : String → String → Bytes
no_nodes which shard_id =
    codes which ++ (codes " shard " ++ (codes shard_id ++ codes " has no nodes"))

abbrev on_target : String → String → Bytes
on_target what node_id = codes what ++ (codes " on target node " ++ (codes node_id ++ codes ": "))

abbrev on_source : String → String → Bytes
on_source what node_id = codes what ++ (codes " on source node " ++ (codes node_id ++ codes ": "))

abbrev pub migrate_path : String → String → Bytes
migrate_path id suffix = codes "/var/backups/hosting/migrate/" ++ (codes id ++ codes suffix)

module _ (e : Env) where
  -- The loop over the users.
  unfoldable pub migrate_database_users :
      String → String → String → List DatabaseUser → Wf (Unit {0})
  migrate_database_users id database_id node_id [] = pure tt
  migrate_database_users id database_id node_id (user ∷ users) = do
    wrap (on_target (concat ("create user " ∷ user.username ∷ [])) node_id) (
        or_failed e "databases" id (
          call_node e node_id (
            create_database_user (record {
              database_name = database_id;
              username = user.username;
              password_hash = user.password_hash;
              privileges = user.privileges;
            }))))
    migrate_database_users id database_id node_id users

  -- The database, and the first nodes of the shard that it is in and of the target shard.
  unfoldable pub locate_migration : String → String → Wf (Database × (Node × Node))
  locate_migration id target_shard_id = do
    database ←
        or_failed e "databases" id (ask (λ t. e.database_by_id t id) (get "GetDatabaseByID" id))
    source_shard_id ←
        or_failed e "databases" id (required database.shard_id (no_current_shard "database" id))
    source_nodes ← or_failed e "databases" id (nodes_of_shard e source_shard_id)
    source ← or_failed e "databases" id (first_or (no_nodes "source" source_shard_id) source_nodes)
    target_nodes ← or_failed e "databases" id (nodes_of_shard e target_shard_id)
    target ← or_failed e "databases" id (first_or (no_nodes "target" target_shard_id) target_nodes)
    pure (database, (source, target))

  -- From the import on.
  unfoldable pub import_and_switch : String → String → Database → Node → Node → Wf (Unit {0})
  unfolding migrate_database_users
  import_and_switch id target_shard_id database source target = do
    let dump_path = migrate_path database.id ".sql.gz"
    wrap (on_target "import database" target.id) (
        or_failed e "databases" id
          (call_node e target.id (import_mysql_database database.id dump_path)))
    users ← wrap (codes "list database users: ") (
        or_failed e "databases" id
          (ask (λ t. e.database_users t id) (get "ListDatabaseUsersByDatabaseID" id)))
    migrate_database_users id database.id target.id users
    or_failed e "databases" id (call e (update_database_shard_id id target_shard_id))
    ignore (call_node e source.id (delete_database database.id))
    ignore (call_node e source.id (cleanup_migrate_file dump_path))
    ignore (call_node e target.id (cleanup_migrate_file dump_path))
    update_status e "databases" id active none

  -- The arguments are the id of the database and of the target shard.
  unfoldable pub migrate_database_workflow : String → String → Wf (Unit {0})
  migrate_database_workflow id target_shard_id = do
    update_status e "databases" id provisioning none
    (database, (source, target)) ← locate_migration id target_shard_id
    let dump_path = migrate_path database.id ".sql.gz"
    wrap (on_target "create database" target.id)
        (or_failed e "databases" id (call_node e target.id (create_database database.id)))
    wrap (on_source "dump database" source.id) (
        or_failed e "databases" id
          (call_node e source.id (dump_mysql_database database.id dump_path)))
    import_and_switch id target_shard_id database source target

  unfoldable pub migrate_valkey_users :
      String → ValkeyInstance → String → List ValkeyUser → Wf (Unit {0})
  migrate_valkey_users id instance_row node_id [] = pure tt
  migrate_valkey_users id instance_row node_id (user ∷ users) = do
    wrap (on_target (concat ("create valkey user " ∷ user.username ∷ [])) node_id) (
        or_failed e "valkey_instances" id (
          call_node e node_id (
            create_valkey_user (record {
              instance_name = instance_row.id;
              port = instance_row.port;
              username = user.username;
              password_hash = user.password_hash;
              privileges = user.privileges;
              key_pattern = user.key_pattern;
            }))))
    migrate_valkey_users id instance_row node_id users

  unfoldable pub migrate_valkey_instance_workflow : String → String → Wf (Unit {0})
  unfolding migrate_valkey_users
  migrate_valkey_instance_workflow id target_shard_id = do
    update_status e "valkey_instances" id provisioning none
    instance_row ←
        or_failed e "valkey_instances" id
          (ask (λ t. e.valkey_instance_by_id t id) (get "GetValkeyInstanceByID" id))
    source_shard_id ←
        or_failed e "valkey_instances" id
          (required instance_row.shard_id (no_current_shard "valkey instance" id))
    source_nodes ← or_failed e "valkey_instances" id (nodes_of_shard e source_shard_id)
    source ←
        or_failed e "valkey_instances" id
          (first_or (no_nodes "source" source_shard_id) source_nodes)
    target_nodes ← or_failed e "valkey_instances" id (nodes_of_shard e target_shard_id)
    target ←
        or_failed e "valkey_instances" id
          (first_or (no_nodes "target" target_shard_id) target_nodes)
    let dump_path = migrate_path instance_row.id ".rdb"
    wrap (on_target "create valkey instance" target.id) (
        or_failed e "valkey_instances" id (
          call_node e target.id (
            create_valkey_instance (record {
              name = instance_row.id;
              port = instance_row.port;
              password_hash = instance_row.password_hash;
              max_memory_mb = instance_row.max_memory_mb;
            }))))
    wrap (on_source "dump valkey data" source.id) (
        or_failed e "valkey_instances" id
          (call_node e source.id (dump_valkey_data instance_row.id instance_row.port dump_path)))
    wrap (on_target "import valkey data" target.id) (
        or_failed e "valkey_instances" id
          (call_node e target.id (import_valkey_data instance_row.id instance_row.port dump_path)))
    users ← wrap (codes "list valkey users: ") (
        or_failed e "valkey_instances" id
          (ask (λ t. e.valkey_users t id) (get "ListValkeyUsersByInstanceID" id)))
    migrate_valkey_users id instance_row target.id users
    or_failed e "valkey_instances" id (call e (update_valkey_instance_shard_id id target_shard_id))
    ignore (call_node e source.id (delete_valkey_instance instance_row.id instance_row.port))
    ignore (call_node e source.id (cleanup_migrate_file dump_path))
    ignore (call_node e target.id (cleanup_migrate_file dump_path))
    update_status e "valkey_instances" id active none

module _ (e : Env) (id : String) where
  module _ (u : UpdatesSucceed e "databases" id) where
    Marks-migrate_database_users :
        (d n : String) (us : List DatabaseUser)
        → Marks "databases" id (migrate_database_users e id d n us)
    unfolding migrate_database_users
    Marks-migrate_database_users d n [] =
        Marks-of_Guarded _ (Guarded-Silent e "databases" id u _ (Silent-pure tt))
    Marks-migrate_database_users d n (x ∷ us) =
        Marks-bind _ _
          (Marks-wrap _ _
            (Marks-of_Guarded _ (Guarded-or_failed e "databases" id u _ (Quiet-call e _))))
          λ _. Marks-migrate_database_users d n us

  module _ (u : UpdatesSucceed e "valkey_instances" id) where
    Marks-migrate_valkey_users :
        (i : ValkeyInstance) (n : String) (us : List ValkeyUser)
        → Marks "valkey_instances" id (migrate_valkey_users e id i n us)
    unfolding migrate_valkey_users
    Marks-migrate_valkey_users i n [] =
        Marks-of_Guarded _ (Guarded-Silent e "valkey_instances" id u _ (Silent-pure tt))
    Marks-migrate_valkey_users i n (x ∷ us) =
        Marks-bind _ _
          (Marks-wrap _ _
            (Marks-of_Guarded _ (Guarded-or_failed e "valkey_instances" id u _ (Quiet-call e _))))
          λ _. Marks-migrate_valkey_users i n us

  -- If the updates of the statuses succeed, then whatever the other activities answer, the migration of
  -- a database and that of a Valkey instance end with the row `active` and no message when they return
  -- no error; when one returns an error, the row holds `failed` and the error's text, less what the
  -- workflow may have put before it.
  pub migrations_report :
      (target_shard_id : String)
      → UpdatesSucceed e "databases" id
      → UpdatesSucceed e "valkey_instances" id
      → (w : World)
      → let (r, w₁) = migrate_database_workflow e id target_shard_id w in
        let (s, w₂) = migrate_valkey_instance_workflow e id target_shard_id w in
        Reported active (w.rows "databases" id) r (w₁.rows "databases" id)
        × Reported active (w.rows "valkey_instances" id) s (w₂.rows "valkey_instances" id)
  unfolding migrate_database_workflow locate_migration import_and_switch
      migrate_valkey_instance_workflow
  migrations_report target u v w =
      let p : Reports "databases" id active (migrate_database_workflow e id target) =
        search (reports, lifecycle, Marks-migrate_database_users u) depth 30 fits 9000 in
      let q : Reports "valkey_instances" id active (migrate_valkey_instance_workflow e id target) =
        search (reports, lifecycle, Marks-migrate_valkey_users v) depth 30 fits 9000 in
      (p.at w, q.at w)
