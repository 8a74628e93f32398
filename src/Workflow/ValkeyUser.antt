-- ===== src/Workflow/ValkeyUser.antt =====
-- internal/workflow/valkey_user.go, and where its three life cycles leave the row.
use hosting.Common.{String, none}
use hosting.Workflow.Temporal.{
  provisioning, active, deleting, deleted, ValkeyUserContext, ValkeyUserParams, create_valkey_user,
  update_valkey_user, delete_valkey_user, get, Env, World, Wf, pure, ask, update_status, ◌>>=◌,
  ◌>>◌,
}
use hosting.Workflow.Helpers.{or_failed}
use hosting.Workflow.Database.{required, no_shard}
use hosting.Workflow.Nodes.{on_each_node}
use hosting.Workflow.Guards.{Settled, Settles}
use hosting.Workflow.Guards.Rules.{UpdatesSucceed}
use hosting.Workflow.Nodes.Rules.{lifecycle}

abbrev valkey_user_params : ValkeyUserContext → ValkeyUserParams
valkey_user_params vctx = record {
  instance_name = vctx.instance_row.id;
  port = vctx.instance_row.port;
  username = vctx.user.username;
  password_hash = vctx.user.password_hash;
  privileges = vctx.user.privileges;
  key_pattern = vctx.user.key_pattern;
}

module _ (e : Env) (id : String) where
  -- What the three workflows do before their loop over the nodes; the shard is only tested for.
  unfoldable pub locate_valkey_user : Wf ValkeyUserContext
  locate_valkey_user = do
    vctx ←
        or_failed e "valkey_users" id
          (ask (λ t. e.valkey_user_context t id) (get "GetValkeyUserContext" id))
    _ ← or_failed e "valkey_users" id (
        required vctx.instance_row.shard_id
          (no_shard "valkey instance" vctx.user.valkey_instance_id))
    pure vctx

  unfoldable pub create_valkey_user_workflow : Wf (Unit {0})
  create_valkey_user_workflow = do
    update_status e "valkey_users" id provisioning none
    vctx ← locate_valkey_user
    on_each_node e "valkey_users" id (create_valkey_user (valkey_user_params vctx)) vctx.nodes
    update_status e "valkey_users" id active none

  unfoldable pub update_valkey_user_workflow : Wf (Unit {0})
  update_valkey_user_workflow = do
    update_status e "valkey_users" id provisioning none
    vctx ← locate_valkey_user
    on_each_node e "valkey_users" id (update_valkey_user (valkey_user_params vctx)) vctx.nodes
    update_status e "valkey_users" id active none

  unfoldable pub delete_valkey_user_workflow : Wf (Unit {0})
  delete_valkey_user_workflow = do
    update_status e "valkey_users" id deleting none
    vctx ← locate_valkey_user
    on_each_node e "valkey_users" id
        (delete_valkey_user vctx.instance_row.id vctx.instance_row.port vctx.user.username)
        vctx.nodes
    update_status e "valkey_users" id deleted none

  -- If the updates of the user's status succeed, then whatever the other activities answer, creation
  -- and update end with the row `active` and no message when they return no error, deletion with the
  -- row gone, and each with `failed` and the error's text when it returns an error, also where only
  -- some of the nodes were reached.
  pub valkey_user_workflows_settle :
      UpdatesSucceed e "valkey_users" id
      → (w : World)
      → let (r₁, w₁) = create_valkey_user_workflow w in
        let (r₂, w₂) = update_valkey_user_workflow w in
        let (r₃, w₃) = delete_valkey_user_workflow w in
        let old = w.rows "valkey_users" id in
        Settled "valkey_users" id active old r₁ (w₁.rows "valkey_users" id)
        × Settled "valkey_users" id active old r₂ (w₂.rows "valkey_users" id)
        × Settled "valkey_users" id deleted old r₃ (w₃.rows "valkey_users" id)
  unfolding create_valkey_user_workflow update_valkey_user_workflow delete_valkey_user_workflow
      locate_valkey_user
  valkey_user_workflows_settle u w =
      let p : Settles "valkey_users" id active create_valkey_user_workflow =
        search lifecycle depth 20 in
      let q : Settles "valkey_users" id active update_valkey_user_workflow =
        search lifecycle depth 20 in
      let r : Settles "valkey_users" id deleted delete_valkey_user_workflow =
        search lifecycle depth 20 in
      (p.at w, q.at w, r.at w)
