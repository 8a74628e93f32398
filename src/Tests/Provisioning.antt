-- ===== src/Tests/Provisioning.antt =====
-- The theorems on life cycles at workflows that one node's silence ends.
use hosting.Common.{
  String, codes, some, none, List, [], ◌∷◌, ◌++◌, join, length, ◌≤◌, ◌≡◌, ◌⊎◌, refl, Bytes,
}
use hosting.Tests.Environment.{test_env, test_rows, test_world}
use hosting.Workflow.Temporal.{
  active, deleted, ok, err, Env, SshKey, Tenant, Node, Call, update_resource_status, update_status,
  call, ask, ignore, Database, on_node, import_mysql_database, delete_database, ◌>>=◌,
}
use hosting.Workflow.Guards.{Settled}
use hosting.Workflow.Guards.Withdrawal.{Withdrawn}
use hosting.Workflow.Guards.Reports.{Reported}
use hosting.Workflow.Provisioning.{
  workflow_of, ssh_key_addition, life_cycle_settles, removal_of, ssh_key_removal, removal_withdraws,
}
use hosting.Workflow.Reach.{Answers, sync_calls, add_ssh_key_reaches}
use hosting.Workflow.SshKey.{add_ssh_key_workflow}
use hosting.Workflow.FanOut.{join_errors_bounded}
use hosting.Workflow.Helpers.{join_errors, or_failed, settle, wrap}
use hosting.Workflow.Nodes.{on_each_node}
use hosting.Workflow.Migration.{
  migrate_database_workflow, migrate_valkey_instance_workflow, migrate_path, migrations_report,
  locate_migration, import_and_switch, migrate_database_users,
}
use hosting.Workflow.Migration.InPlace.{migrate_in_place_drops}
use hosting.Workflow.Backup.{restore_backup_workflow, restore_backup_workflow_settles}
use hosting.Workflow.CronJob.{
  create_cron_job_workflow, update_cron_job_workflow, delete_cron_job_workflow,
  enable_cron_job_workflow, disable_cron_job_workflow, cron_job_workflows_report,
}

life_cycle_settles_example :
    let (r, w) = workflow_of test_env ssh_key_addition "k-1" test_world in
    Settled "ssh_keys" "k-1" active (test_rows "ssh_keys" "k-1") r (w.rows "ssh_keys" "k-1")
life_cycle_settles_example =
    life_cycle_settles test_env ssh_key_addition "k-1" (λ t s m. refl) test_world

removal_withdraws_example :
    let (r, w) = removal_of test_env ssh_key_removal "k-1" test_world in
    Withdrawn (test_rows "ssh_keys" "k-1") r (w.rows "ssh_keys" "k-1")
removal_withdraws_example =
    removal_withdraws test_env ssh_key_removal "k-1" (λ t s m. refl) test_world

cron_job_workflows_report_example :
    let (r₁, w₁) = create_cron_job_workflow test_env "j-1" test_world in
    let (r₂, w₂) = update_cron_job_workflow test_env "j-1" test_world in
    let (r₃, w₃) = delete_cron_job_workflow test_env "j-1" test_world in
    let (r₄, w₄) = enable_cron_job_workflow test_env "j-1" test_world in
    let (r₅, w₅) = disable_cron_job_workflow test_env "j-1" test_world in
    let old = test_rows "cron_jobs" "j-1" in
    Reported active old r₁ (w₁.rows "cron_jobs" "j-1")
    × Reported active old r₂ (w₂.rows "cron_jobs" "j-1")
    × Reported deleted old r₃ (w₃.rows "cron_jobs" "j-1")
    × Reported active old r₄ (w₄.rows "cron_jobs" "j-1")
    × Reported active old r₅ (w₅.rows "cron_jobs" "j-1")
cron_job_workflows_report_example =
    cron_job_workflows_report test_env "j-1" (λ t s m. refl) test_world

restore_backup_workflow_settles_example :
    let (r, w) = restore_backup_workflow test_env "b-1" test_world in
    let old = test_rows "backups" "b-1" in
    Settled "backups" "b-1" active old r (w.rows "backups" "b-1")
    ⊎ ((text : Bytes) × (test_env.backup_context 0 "b-1" ≡ err text)
        × (r ≡ err text)
        × (w.rows "backups" "b-1" ≡ old))
restore_backup_workflow_settles_example =
    restore_backup_workflow_settles test_env "b-1" (λ t s m. refl) test_world

abbrev all_nodes_up : Env
all_nodes_up = record test_env { done = λ t c. ok tt }

add_ssh_key_reaches_example :
    (key : SshKey) × (tenant : Tenant) × (shard_id : String) × (keys : List SshKey) × (nodes : List
      Node)
    × (before : List Call) × Answers (λ t. all_nodes_up.ssh_key_by_id t "k-1") key
    × Answers (λ t. all_nodes_up.tenant_by_id t key.tenant_id) tenant
    × (tenant.shard_id ≡ some shard_id)
    × Answers (λ t. all_nodes_up.ssh_keys_by_tenant t key.tenant_id) keys
    × Answers (λ t. all_nodes_up.nodes_by_shard t shard_id) nodes
    × ((add_ssh_key_workflow all_nodes_up "k-1" test_world).1.trace
        ≡ (before ++ sync_calls tenant key keys nodes)
          ++ (update_resource_status "ssh_keys" "k-1" active none ∷ []))
unfolding add_ssh_key_workflow ◌>>=◌ update_status or_failed settle on_each_node call ask
add_ssh_key_reaches_example = add_ssh_key_reaches all_nodes_up "k-1" test_world refl

join_errors_bounded_example :
    (length (join_errors (codes "db-1: timeout" ∷ codes "db-2: refused" ∷ [])) ≤ 4000)
    × ((rest : Bytes) × (join (codes "; ") (codes "db-1: timeout" ∷ codes "db-2: refused" ∷ [])
          ≡ join_errors (codes "db-1: timeout" ∷ codes "db-2: refused" ∷ []) ++ rest))
join_errors_bounded_example =
    join_errors_bounded (codes "db-1: timeout" ∷ codes "db-2: refused" ∷ [])

migrations_report_example :
    let (r, v) = migrate_database_workflow test_env "d-1" "s-2" test_world in
    let (s, w) = migrate_valkey_instance_workflow test_env "d-1" "s-2" test_world in
    Reported active (test_rows "databases" "d-1") r (v.rows "databases" "d-1")
    × Reported active (test_rows "valkey_instances" "d-1") s (w.rows "valkey_instances" "d-1")
migrations_report_example =
    migrations_report test_env "d-1" "s-2" (λ t s m. refl) (λ t s m. refl) test_world

migrate_in_place_drops_example :
    (d : Database) × (n : Node) × (before : List Call) × (middle : List Call) × (after : List Call)
    × Answers (λ t. all_nodes_up.database_by_id t "d-1") d
    × ((migrate_database_workflow all_nodes_up "d-1" "s-1" test_world).1.trace
        ≡ ((before
              ++ (on_node n.id (import_mysql_database d.id (migrate_path d.id ".sql.gz")) ∷ []))
            ++ middle)
          ++ (on_node n.id (delete_database d.id) ∷ after))
unfolding migrate_database_workflow locate_migration import_and_switch migrate_database_users ◌>>=◌
    update_status or_failed settle wrap ignore call ask
migrate_in_place_drops_example =
    migrate_in_place_drops all_nodes_up "d-1" "s-1" (λ t d h. cc) (λ t t'. refl) test_world refl
