-- ===== src/Workflow/CronJob.antt =====
-- internal/workflow/cron_job.go, and where its five workflows leave the row.
use hosting.Common.{String, Bytes, codes, join, none, some, List, [], ◌∷◌, ◌++◌, if◌then◌else◌}
use hosting.Workflow.Temporal.{
  Status, provisioning, active, failed, deleting, deleted, CronJobContext, CreateCronJobParams,
  CronJobTimerParams, Node, NodeActivity, create_cron_job_units, update_cron_job_units,
  delete_cron_job_units, enable_cron_job_timer, disable_cron_job_timer, get, Env, World, Wf, pure,
  raise, ask, ignore, call_node, update_status, ◌>>=◌, ◌>>◌,
}
use hosting.Workflow.Helpers.{or_failed, wrap, run_each, join_errors, set_resource_failed}
use hosting.Workflow.Database.{required, no_shard}
use hosting.Workflow.Nodes.{first_or}
use hosting.Workflow.Nodes.Rules.{lifecycle}
use hosting.Workflow.Guards.Rules.{UpdatesSucceed}
use hosting.Workflow.Guards.Reports.{
  Reported, Reports, Reports-finish, Reports-update, Reports-fail, reports,
}

abbrev unit_params : CronJobContext → CreateCronJobParams
unit_params cron_ctx = record {
  id = cron_ctx.cron_job.id;
  tenant_name = cron_ctx.tenant.id;
  webroot_name = cron_ctx.webroot.id;
  name = cron_ctx.cron_job.id;
  schedule = cron_ctx.cron_job.schedule;
  command = cron_ctx.cron_job.command;
  working_directory = cron_ctx.cron_job.working_directory;
  timeout_seconds = cron_ctx.cron_job.timeout_seconds;
  max_memory_mb = cron_ctx.cron_job.max_memory_mb;
  env_file_name = cron_ctx.webroot.env_file_name;
}

abbrev timer_params : CronJobContext → CronJobTimerParams
timer_params cron_ctx = record { id = cron_ctx.cron_job.id; tenant_name = cron_ctx.tenant.id }

-- `node %s: <step>%v`
abbrev node_error : String → Node → Bytes
node_error step node = codes "node " ++ (codes node.id ++ (codes ": " ++ codes step))

module _ (e : Env) where
  -- A loop over the nodes that goes on after an error and collects it.
  unfoldable pub errors_on_each : String → NodeActivity → List Node → Wf (List Bytes)
  errors_on_each step a nodes =
      run_each (λ node. wrap (node_error step node) (call_node e node.id a)) nodes

  -- What stands behind the loops: the errors as the row's message, cut to 4000 bytes.
  unfoldable pub finish_or_report : String → Status → String → List Bytes → Wf (Unit {0})
  finish_or_report id goal prefix [] = update_status e "cron_jobs" id goal none
  finish_or_report id goal prefix (text ∷ texts) = do
    ignore (update_status e "cron_jobs" id failed (some (join_errors (text ∷ texts))))
    raise (codes prefix ++ join_errors (text ∷ texts))

  -- The same by way of setResourceFailed, the message whole.
  unfoldable pub finish_or_fail : String → Status → String → List Bytes → Wf (Unit {0})
  finish_or_fail id goal prefix [] = update_status e "cron_jobs" id goal none
  finish_or_fail id goal prefix (text ∷ texts) = do
    ignore (set_resource_failed e "cron_jobs" id (join (codes "; ") (text ∷ texts)))
    raise (codes prefix ++ join (codes "; ") (text ∷ texts))

  unfoldable pub locate_cron_job : String → Wf CronJobContext
  locate_cron_job id = do
    cron_ctx ←
        or_failed e "cron_jobs" id (ask (λ t. e.cron_job_context t id) (get "GetCronJobContext" id))
    _ ←
        or_failed e "cron_jobs" id
          (required cron_ctx.tenant.shard_id (no_shard "tenant" cron_ctx.cron_job.tenant_id))
    pure cron_ctx

  unfoldable pub create_cron_job_workflow : String → Wf (Unit {0})
  create_cron_job_workflow id = do
    update_status e "cron_jobs" id provisioning none
    cron_ctx ← locate_cron_job id
    unit_errs ←
        errors_on_each "create units: " (create_cron_job_units (unit_params cron_ctx))
          cron_ctx.nodes
    timer_errs ←
        if cron_ctx.cron_job.enabled
        then errors_on_each "enable timer: " (enable_cron_job_timer (timer_params cron_ctx))
            cron_ctx.nodes
        else pure []
    finish_or_report id active "create cron job failed: " (unit_errs ++ timer_errs)

  unfoldable pub update_cron_job_workflow : String → Wf (Unit {0})
  update_cron_job_workflow id = do
    update_status e "cron_jobs" id provisioning none
    cron_ctx ← locate_cron_job id
    unit_errs ←
        errors_on_each "update units: " (update_cron_job_units (unit_params cron_ctx))
          cron_ctx.nodes
    timer_errs ←
        if cron_ctx.cron_job.enabled
        then errors_on_each "enable timer: " (enable_cron_job_timer (timer_params cron_ctx))
            cron_ctx.nodes
        else errors_on_each "disable timer: " (disable_cron_job_timer (timer_params cron_ctx))
            cron_ctx.nodes
    finish_or_report id active "update cron job failed: " (unit_errs ++ timer_errs)

  unfoldable pub delete_cron_job_workflow : String → Wf (Unit {0})
  delete_cron_job_workflow id = do
    update_status e "cron_jobs" id deleting none
    cron_ctx ← locate_cron_job id
    errs ←
        errors_on_each "delete units: " (delete_cron_job_units (timer_params cron_ctx))
          cron_ctx.nodes
    finish_or_report id deleted "delete cron job failed: " errs

  unfoldable pub enable_cron_job_workflow : String → Wf (Unit {0})
  enable_cron_job_workflow id = do
    update_status e "cron_jobs" id provisioning none
    cron_ctx ← locate_cron_job id
    _ ← or_failed e "cron_jobs" id (
        first_or
          (codes "no nodes available in shard for tenant " ++ codes cron_ctx.cron_job.tenant_id)
          cron_ctx.nodes)
    errs ← errors_on_each "" (enable_cron_job_timer (timer_params cron_ctx)) cron_ctx.nodes
    finish_or_fail id active "enable cron job failed: " errs

  unfoldable pub disable_cron_job_workflow : String → Wf (Unit {0})
  disable_cron_job_workflow id = do
    update_status e "cron_jobs" id provisioning none
    cron_ctx ← locate_cron_job id
    errs ← errors_on_each "" (disable_cron_job_timer (timer_params cron_ctx)) cron_ctx.nodes
    finish_or_report id active "disable cron job failed: " errs

module _ (e : Env) (id : String) where
  module _ (u : UpdatesSucceed e "cron_jobs" id) where
    Reports-finish_or_report :
        (goal : Status) (prefix : String) (errs : List Bytes)
        → Reports "cron_jobs" id goal (finish_or_report e id goal prefix errs)
    unfolding finish_or_report
    Reports-finish_or_report goal prefix [] = Reports-finish e "cron_jobs" id u goal
    Reports-finish_or_report goal prefix (text ∷ texts) =
        Reports-update e "cron_jobs" id u goal (codes prefix) (join_errors (text ∷ texts))

    Reports-finish_or_fail :
        (goal : Status) (prefix : String) (errs : List Bytes)
        → Reports "cron_jobs" id goal (finish_or_fail e id goal prefix errs)
    unfolding finish_or_fail
    Reports-finish_or_fail goal prefix [] = Reports-finish e "cron_jobs" id u goal
    Reports-finish_or_fail goal prefix (text ∷ texts) =
        Reports-fail e "cron_jobs" id u goal (codes prefix) (join (codes "; ") (text ∷ texts))

  -- If the updates of the cron job's status succeed, then whatever the other activities answer,
  -- creation, update, enabling and disabling end with the row `active` and no message when they return
  -- no error, and deletion with the row gone. When one returns an error, the row holds `failed` and the
  -- error's text, less what the workflow may have put before it.
  pub cron_job_workflows_report :
      UpdatesSucceed e "cron_jobs" id
      → (w : World)
      → let (r₁, w₁) = create_cron_job_workflow e id w in
        let (r₂, w₂) = update_cron_job_workflow e id w in
        let (r₃, w₃) = delete_cron_job_workflow e id w in
        let (r₄, w₄) = enable_cron_job_workflow e id w in
        let (r₅, w₅) = disable_cron_job_workflow e id w in
        let old = w.rows "cron_jobs" id in
        Reported active old r₁ (w₁.rows "cron_jobs" id)
        × Reported active old r₂ (w₂.rows "cron_jobs" id)
        × Reported deleted old r₃ (w₃.rows "cron_jobs" id)
        × Reported active old r₄ (w₄.rows "cron_jobs" id)
        × Reported active old r₅ (w₅.rows "cron_jobs" id)
  unfolding create_cron_job_workflow update_cron_job_workflow delete_cron_job_workflow
      enable_cron_job_workflow disable_cron_job_workflow locate_cron_job errors_on_each
  cron_job_workflows_report u w =
      let p : Reports "cron_jobs" id active (create_cron_job_workflow e id) =
        search (lifecycle, reports, Reports-finish_or_report u) depth 25 fits 9000 in
      let q : Reports "cron_jobs" id active (update_cron_job_workflow e id) =
        search (lifecycle, reports, Reports-finish_or_report u) depth 25 fits 9000 in
      let r : Reports "cron_jobs" id deleted (delete_cron_job_workflow e id) =
        search (lifecycle, reports, Reports-finish_or_report u) depth 25 fits 9000 in
      let s : Reports "cron_jobs" id active (enable_cron_job_workflow e id) =
        search (lifecycle, reports, Reports-finish_or_fail u) depth 25 fits 9000 in
      let v : Reports "cron_jobs" id active (disable_cron_job_workflow e id) =
        search (lifecycle, reports, Reports-finish_or_report u) depth 25 fits 9000 in
      (p.at w, q.at w, r.at w, s.at w, v.at w)
