-- ===== src/Workflow/Valkey.antt =====
-- internal/workflow/valkey_instance.go, and where its two life cycles leave the row.
use hosting.Common.{String, codes, ◌++◌, none, List, [], ◌∷◌}
use hosting.Workflow.Temporal.{
  pending, provisioning, active, deleting, deleted, Node, ValkeyUser, create_valkey_instance,
  delete_valkey_instance, ChildWorkflowSpec, get, Env, World, Wf, ask, attempt, ignore,
  update_status, ◌>>=◌, ◌>>◌,
}
use hosting.Workflow.Helpers.{value_or, or_failed, fan_out_nodes, fan_out_child_workflows}
use hosting.Workflow.Database.{required, no_shard, get_tenant, nodes_of_shard, service_addr_on}
use hosting.Workflow.Nodes.{on_each_node, Guarded-on_each_node}
use hosting.Workflow.Guards.{
  Quiet, Quiet-ask, Quiet-ignore, Quiet-bind, Silent-attempt, Silent-ignore, Silent-bind, Settled,
  Settles,
}
use hosting.Workflow.Guards.Helpers.{Quiet-fan_out_nodes, Quiet-fan_out_child_workflows}
use hosting.Workflow.Guards.Rules.{
  UpdatesSucceed, Settles-start, Settles-bind, Settles-step, Settles-skip, Settles-finish,
  Settles-finish_then, opens_provisioning, opens_deleting, goal_active, goal_deleted,
}
use hosting.Workflow.Lifecycle.{Quiet-required, Quiet-service_addr_at}

unfoldable pub pending_valkey_users : List ValkeyUser → List ChildWorkflowSpec
pending_valkey_users [] = []
pending_valkey_users (u ∷ us) = elim u.status [
  | pending ↦
      record {
        workflow_name = "CreateValkeyUserWorkflow";
        workflow_id = codes "create-valkey-user-" ++ codes u.id;
        arg = u.id;
      }
      ∷ pending_valkey_users us
  | _ ↦ pending_valkey_users us
]

module _ (e : Env) where
  unfoldable pub configure_valkey_addrs : String → List Node → Wf (Unit {0})
  configure_valkey_addrs tenant_id nodes = do
    tenant ← get_tenant e tenant_id
    ignore (fan_out_nodes e nodes (service_addr_on e tenant))

  unfoldable pub create_valkey_instance_workflow : String → Wf (Unit {0})
  unfolding configure_valkey_addrs pending_valkey_users
  create_valkey_instance_workflow id = do
    update_status e "valkey_instances" id provisioning none
    instance_row ←
        or_failed e "valkey_instances" id
          (ask (λ t. e.valkey_instance_by_id t id) (get "GetValkeyInstanceByID" id))
    shard_id ←
        or_failed e "valkey_instances" id
          (required instance_row.shard_id (no_shard "valkey instance" id))
    nodes ← or_failed e "valkey_instances" id (nodes_of_shard e shard_id)
    on_each_node e "valkey_instances" id
        (create_valkey_instance (record {
          name = instance_row.id;
          port = instance_row.port;
          password_hash = instance_row.password_hash;
          max_memory_mb = instance_row.max_memory_mb;
        }))
        nodes
    ignore (configure_valkey_addrs instance_row.tenant_id nodes)
    update_status e "valkey_instances" id active none
    users ← attempt (ask (λ t. e.valkey_users t id) (get "ListValkeyUsersByInstanceID" id))
    ignore (fan_out_child_workflows e (pending_valkey_users (value_or [] users)))

  unfoldable pub delete_valkey_instance_workflow : String → Wf (Unit {0})
  delete_valkey_instance_workflow id = do
    update_status e "valkey_instances" id deleting none
    instance_row ←
        or_failed e "valkey_instances" id
          (ask (λ t. e.valkey_instance_by_id t id) (get "GetValkeyInstanceByID" id))
    shard_id ←
        or_failed e "valkey_instances" id
          (required instance_row.shard_id (no_shard "valkey instance" id))
    nodes ← or_failed e "valkey_instances" id (nodes_of_shard e shard_id)
    on_each_node e "valkey_instances" id (delete_valkey_instance instance_row.id instance_row.port)
        nodes
    update_status e "valkey_instances" id deleted none

module _ (e : Env) (id : String) where
  module _ (u : UpdatesSucceed e "valkey_instances" id) where
    Quiet-configure_valkey_addrs :
        (t : String) (ns : List Node) → Quiet "valkey_instances" id (configure_valkey_addrs e t ns)
    unfolding configure_valkey_addrs
    Quiet-configure_valkey_addrs t ns = Quiet-bind _ _ (Quiet-ask _ _) λ tenant. Quiet-ignore _ (
        Quiet-fan_out_nodes e ns (service_addr_on e tenant)
          (λ n. Quiet-service_addr_at e tenant n.id n.shard_index))

    create_valkey_instance_workflow-Settles :
        Settles "valkey_instances" id active (create_valkey_instance_workflow e id)
    unfolding create_valkey_instance_workflow
    create_valkey_instance_workflow-Settles =
        Settles-start e "valkey_instances" id u provisioning active _ opens_provisioning goal_active
          (Settles-step e "valkey_instances" id u active _ _ (Quiet-ask _ _) λ d.
            Settles-step e "valkey_instances" id u active _ _ (Quiet-required _ _) λ s.
              Settles-step e "valkey_instances" id u active _ _ (Quiet-ask _ _) λ ns.
                Settles-bind e "valkey_instances" id u active _ _
                  (Guarded-on_each_node e "valkey_instances" id u _ ns)
                  λ _.
                    Settles-skip e "valkey_instances" id u active _ _
                      (Silent-ignore _ (Quiet-configure_valkey_addrs _ ns))
                      λ _. Settles-finish_then e "valkey_instances" id u active _ (
                        Silent-bind _ _ (Silent-attempt _ (Quiet-ask _ _))
                          λ us. Silent-ignore _ (Quiet-fan_out_child_workflows e _)))

    delete_valkey_instance_workflow-Settles :
        Settles "valkey_instances" id deleted (delete_valkey_instance_workflow e id)
    unfolding delete_valkey_instance_workflow
    delete_valkey_instance_workflow-Settles =
        Settles-start e "valkey_instances" id u deleting deleted _ opens_deleting goal_deleted (
          Settles-step e "valkey_instances" id u deleted _ _ (Quiet-ask _ _) λ d.
            Settles-step e "valkey_instances" id u deleted _ _ (Quiet-required _ _) λ s.
              Settles-step e "valkey_instances" id u deleted _ _ (Quiet-ask _ _) λ ns.
                Settles-bind e "valkey_instances" id u deleted _ _
                  (Guarded-on_each_node e "valkey_instances" id u _ ns)
                  λ _. Settles-finish e "valkey_instances" id u deleted)

  -- If the updates of the instance's status succeed, then whatever the other activities answer,
  -- creation ends with the row `active` and no message when it returns no error, deletion with the
  -- row gone, and each with `failed` and the error's text when it returns an error, also where only
  -- some of the nodes were reached.
  pub valkey_instance_workflows_settle :
      UpdatesSucceed e "valkey_instances" id
      → (w : World)
      → let (r, w₁) = create_valkey_instance_workflow e id w in
        let (s, w₂) = delete_valkey_instance_workflow e id w in
        let old = w.rows "valkey_instances" id in
        Settled "valkey_instances" id active old r (w₁.rows "valkey_instances" id)
        × Settled "valkey_instances" id deleted old s (w₂.rows "valkey_instances" id)
  valkey_instance_workflows_settle u w = (
    (create_valkey_instance_workflow-Settles u).at w,
    (delete_valkey_instance_workflow-Settles u).at w,
  )
