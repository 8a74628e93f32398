-- ===== src/Workflow/Database.antt =====
-- internal/workflow/database.go and database_user.go.
use hosting.Common.{ℕ, String, Bytes, codes, Option, none, some, List, [], ◌∷◌, ◌++◌}
use hosting.Workflow.Temporal.{
  pending, provisioning, active, deleting, deleted, DatabaseUser, DatabaseUserContext,
  DatabaseUserParams, Tenant, Node, create_database, delete_database, create_database_user,
  update_database_user, delete_database_user, configure_service_tenant_addr, ChildWorkflowSpec, get,
  Env, Wf, pure, raise, attempt, ignore, ask, call_node, update_status, ◌>>=◌, ◌>>◌,
}
use hosting.Workflow.Helpers.{
  value_or, or_failed, fan_out_nodes, fan_out_child_workflows, db_shard_primary,
}

-- `noShardErr` where no shard is assigned.
abbrev pub required : {A : Type 0} → Option A → Bytes → Wf A
required none message = raise message
required (some a) message = pure a

abbrev pub no_shard : String → String → Bytes
no_shard kind id = codes kind ++ (codes " " ++ (codes id ++ codes " has no shard assigned"))

-- The users whose creation was left pending, as child workflows.
unfoldable pub pending_database_users : List DatabaseUser → List ChildWorkflowSpec
pending_database_users [] = []
pending_database_users (u ∷ us) = elim u.status [
  | pending ↦
      record {
        workflow_name = "CreateDatabaseUserWorkflow";
        workflow_id = codes "create-database-user-" ++ codes u.id;
        arg = u.id;
      }
      ∷ pending_database_users us
  | _ ↦ pending_database_users us
]

module _ (e : Env) where
  abbrev pub nodes_of_shard : String → Wf (List Node)
  nodes_of_shard shard_id = ask (λ t. e.nodes_by_shard t shard_id) (get "ListNodesByShard" shard_id)

  abbrev pub get_tenant : String → Wf Tenant
  get_tenant id = ask (λ t. e.tenant_by_id t id) (get "GetTenantByID" id)

  unfoldable pub service_addr_at : Tenant → String → Option ℕ → Wf (Unit {0})
  service_addr_at tenant node_id none = pure tt
  service_addr_at tenant node_id (some index) = call_node e node_id (
      configure_service_tenant_addr (record {
        tenant_name = tenant.id;
        tenant_uid = tenant.uid;
        cluster_id = tenant.cluster_id;
        node_shard_idx = index;
      }))

  abbrev pub service_addr_on : Tenant → Node → Wf (Unit {0})
  service_addr_on tenant node = service_addr_at tenant node.id node.shard_index

  -- `Configure tenant ULA on all DB shard nodes (non-fatal)`
  unfoldable pub configure_database_addrs : String → String → Wf (Unit {0})
  unfolding service_addr_at
  configure_database_addrs tenant_id shard_id = do
    tenant ← get_tenant tenant_id
    nodes ← nodes_of_shard shard_id
    ignore (fan_out_nodes e nodes (service_addr_on tenant))

  unfoldable pub create_database_workflow : String → Wf (Unit {0})
  unfolding pending_database_users
  create_database_workflow id = do
    update_status e "databases" id provisioning none
    database ←
        or_failed e "databases" id (ask (λ t. e.database_by_id t id) (get "GetDatabaseByID" id))
    shard_id ← or_failed e "databases" id (required database.shard_id (no_shard "database" id))
    (primary_id, _) ← or_failed e "databases" id (db_shard_primary e shard_id)
    or_failed e "databases" id (call_node e primary_id (create_database database.id))
    ignore (configure_database_addrs database.tenant_id shard_id)
    update_status e "databases" id active none
    users ← attempt (ask (λ t. e.database_users t id) (get "ListDatabaseUsersByDatabaseID" id))
    ignore (fan_out_child_workflows e (pending_database_users (value_or [] users)))

  unfoldable pub delete_database_workflow : String → Wf (Unit {0})
  delete_database_workflow id = do
    update_status e "databases" id deleting none
    database ←
        or_failed e "databases" id (ask (λ t. e.database_by_id t id) (get "GetDatabaseByID" id))
    shard_id ← or_failed e "databases" id (required database.shard_id (no_shard "database" id))
    (primary_id, _) ← or_failed e "databases" id (db_shard_primary e shard_id)
    or_failed e "databases" id (call_node e primary_id (delete_database database.id))
    update_status e "databases" id deleted none

  -- What the three workflows of a database user do before their node activity.
  unfoldable pub locate_database_user : String → Wf (DatabaseUserContext × String)
  locate_database_user id = do
    dctx ←
        or_failed e "database_users" id
          (ask (λ t. e.database_user_context t id) (get "GetDatabaseUserContext" id))
    shard_id ←
        or_failed e "database_users" id
          (required dctx.database.shard_id (no_shard "database" dctx.user.database_id))
    (primary_id, _) ← or_failed e "database_users" id (db_shard_primary e shard_id)
    pure (dctx, primary_id)

  abbrev user_params : DatabaseUserContext → DatabaseUserParams
  user_params dctx = record {
    database_name = dctx.database.id;
    username = dctx.user.username;
    password_hash = dctx.user.password_hash;
    privileges = dctx.user.privileges;
  }

  unfoldable pub create_database_user_workflow : String → Wf (Unit {0})
  create_database_user_workflow id = do
    update_status e "database_users" id provisioning none
    (dctx, primary_id) ← locate_database_user id
    or_failed e "database_users" id
        (call_node e primary_id (create_database_user (user_params dctx)))
    update_status e "database_users" id active none

  unfoldable pub update_database_user_workflow : String → Wf (Unit {0})
  update_database_user_workflow id = do
    update_status e "database_users" id provisioning none
    (dctx, primary_id) ← locate_database_user id
    or_failed e "database_users" id
        (call_node e primary_id (update_database_user (user_params dctx)))
    update_status e "database_users" id active none

  unfoldable pub delete_database_user_workflow : String → Wf (Unit {0})
  delete_database_user_workflow id = do
    update_status e "database_users" id deleting none
    (dctx, primary_id) ← locate_database_user id
    or_failed e "database_users" id
        (call_node e primary_id (delete_database_user dctx.database.id dctx.user.username))
    update_status e "database_users" id deleted none
