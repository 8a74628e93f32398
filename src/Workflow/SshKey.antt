-- ===== src/Workflow/SshKey.antt =====
-- internal/workflow/ssh_key.go, and where its two life cycles leave the row.
use hosting.Common.{String, none, List, [], ◌∷◌, ◌++◌}
use hosting.Workflow.Temporal.{
  provisioning, active, deleted, SshKey, sync_ssh_keys, get, Env, World, Wf, ask, update_status,
  ◌>>=◌, ◌>>◌,
}
use hosting.Workflow.Helpers.{or_failed}
use hosting.Workflow.Database.{required, no_shard, nodes_of_shard, get_tenant}
use hosting.Workflow.Nodes.{on_each_node, call_each_node}
use hosting.Workflow.Nodes.Rules.{lifecycle}
use hosting.Workflow.Guards.{Settled, Settles}
use hosting.Workflow.Guards.Rules.{UpdatesSucceed}
use hosting.Workflow.Guards.Withdrawal.{Withdrawn, Withdraws, withdrawal}

-- The loop that collects the keys.
unfoldable pub public_keys_of : List SshKey → List String
public_keys_of [] = []
public_keys_of (key ∷ keys) = key.public_key ∷ public_keys_of keys

module _ (e : Env) where
  abbrev ssh_key_by_id : String → Wf SshKey
  ssh_key_by_id id = ask (λ t. e.ssh_key_by_id t id) (get "GetSSHKeyByID" id)

  -- The active keys.
  abbrev keys_by_tenant : String → Wf (List SshKey)
  keys_by_tenant tenant_id =
      ask (λ t. e.ssh_keys_by_tenant t tenant_id) (get "GetSSHKeysByTenant" tenant_id)

  -- The new key is not active yet, so it is put behind the active ones.
  unfoldable pub add_ssh_key_workflow : String → Wf (Unit {0})
  unfolding public_keys_of
  add_ssh_key_workflow id = do
    update_status e "ssh_keys" id provisioning none
    key ← or_failed e "ssh_keys" id (ssh_key_by_id id)
    tenant ← or_failed e "ssh_keys" id (get_tenant e key.tenant_id)
    shard_id ←
        or_failed e "ssh_keys" id (required tenant.shard_id (no_shard "tenant" key.tenant_id))
    active_keys ← or_failed e "ssh_keys" id (keys_by_tenant key.tenant_id)
    nodes ← or_failed e "ssh_keys" id (nodes_of_shard e shard_id)
    on_each_node e "ssh_keys" id
        (sync_ssh_keys tenant.id (public_keys_of active_keys ++ (key.public_key ∷ []))) nodes
    update_status e "ssh_keys" id active none

  -- The row goes first, so that the key is not among those read after.
  unfoldable pub remove_ssh_key_workflow : String → Wf (Unit {0})
  unfolding public_keys_of
  remove_ssh_key_workflow id = do
    key ← or_failed e "ssh_keys" id (ssh_key_by_id id)
    or_failed e "ssh_keys" id (update_status e "ssh_keys" id deleted none)
    tenant ← get_tenant e key.tenant_id
    shard_id ← required tenant.shard_id (no_shard "tenant" key.tenant_id)
    remaining_keys ← keys_by_tenant key.tenant_id
    nodes ← nodes_of_shard e shard_id
    call_each_node e "ssh_keys" id (sync_ssh_keys tenant.id (public_keys_of remaining_keys)) nodes

module _ (e : Env) (id : String) where
  -- If the updates of the key's status succeed, then whatever the other activities answer, adding a
  -- key ends with its row `active` and no message when it returns no error, and with `failed` and the
  -- error's text when it returns one. Removal ends with the row gone when it returns no error; when it
  -- returns one, the row is gone too or holds `failed` and the error's text.
  pub ssh_key_workflows_settle :
      UpdatesSucceed e "ssh_keys" id
      → (w : World)
      → let (r₁, w₁) = add_ssh_key_workflow e id w in
        let (r₂, w₂) = remove_ssh_key_workflow e id w in
        let old = w.rows "ssh_keys" id in
        Settled "ssh_keys" id active old r₁ (w₁.rows "ssh_keys" id)
        × Withdrawn old r₂ (w₂.rows "ssh_keys" id)
  unfolding add_ssh_key_workflow remove_ssh_key_workflow
  ssh_key_workflows_settle u w =
      let p : Settles "ssh_keys" id active (add_ssh_key_workflow e id) =
        search lifecycle depth 25 fits 9000 in
      let q : Withdraws "ssh_keys" id (remove_ssh_key_workflow e id) =
        search (lifecycle, withdrawal) depth 25 fits 9000 in
      (p.at w, q.at w)
