-- ===== src/Tests/Lifecycles.antt =====
-- Workflows on an environment in which one node does not answer.
use mathlib.Core.List.{Permᴰ}
use mathlib.Core.List.Permᴰ as Perm
use hosting.Common.{Bytes, codes, List, [], ◌∷◌, ◌++◌, map, refl, ◌≡◌, ◌≤◌, length}
use hosting.Workflow.Temporal.{ok, active, deleted, Node, Call, on_node, create_database, call}
use hosting.Workflow.Helpers.{fan_out_nodes}
use hosting.Workflow.Database.{
  create_database_workflow, delete_database_workflow, create_database_user_workflow,
  update_database_user_workflow, delete_database_user_workflow,
}
use hosting.Workflow.Guards.{Settled}
use hosting.Workflow.Lifecycle.{database_workflows_settle, database_user_workflows_settle}
use hosting.Workflow.Valkey.{
  create_valkey_instance_workflow, delete_valkey_instance_workflow,
  valkey_instance_workflows_settle,
}
use hosting.Tests.Environment.{test_env, test_rows, test_world, test_nodes}
use hosting.Workflow.FanOut.{fan_out_nodes_reaches_all}

database_workflows_settle_example :
    let (r, v) = create_database_workflow test_env "d-1" test_world in
    let (s, w) = delete_database_workflow test_env "d-1" test_world in
    let old = test_rows "databases" "d-1" in
    Settled "databases" "d-1" active old r (v.rows "databases" "d-1")
    × Settled "databases" "d-1" deleted old s (w.rows "databases" "d-1")
database_workflows_settle_example =
    database_workflows_settle test_env "d-1" (λ t s m. refl) test_world

database_user_workflows_settle_example :
    let (r, u) = create_database_user_workflow test_env "u-1" test_world in
    let (s, v) = update_database_user_workflow test_env "u-1" test_world in
    let (t, w) = delete_database_user_workflow test_env "u-1" test_world in
    let old = test_rows "database_users" "u-1" in
    Settled "database_users" "u-1" active old r (u.rows "database_users" "u-1")
    × Settled "database_users" "u-1" active old s (v.rows "database_users" "u-1")
    × Settled "database_users" "u-1" deleted old t (w.rows "database_users" "u-1")
database_user_workflows_settle_example =
    database_user_workflows_settle test_env "u-1" (λ t s m. refl) test_world

valkey_instance_workflows_settle_example :
    let (r, v) = create_valkey_instance_workflow test_env "v-1" test_world in
    let (s, w) = delete_valkey_instance_workflow test_env "v-1" test_world in
    let old = test_rows "valkey_instances" "v-1" in
    Settled "valkey_instances" "v-1" active old r (v.rows "valkey_instances" "v-1")
    × Settled "valkey_instances" "v-1" deleted old s (w.rows "valkey_instances" "v-1")
valkey_instance_workflows_settle_example =
    valkey_instance_workflows_settle test_env "v-1" (λ t s m. refl) test_world

abbrev create_on : Node → Call
create_on n = on_node n.id (create_database "app")

fan_out_nodes_reaches_all_example :
    (order : List Node) × Permᴰ order test_nodes
    × ((fan_out_nodes test_env test_nodes (λ n. call test_env (create_on n)) test_world).1.trace
        ≡ [] ++ map create_on order)
    × ((errs : List Bytes) × ((fan_out_nodes test_env test_nodes
            (λ n. call test_env (create_on n))
            test_world).0
          ≡ ok errs)
        × (length errs ≤ length order))
fan_out_nodes_reaches_all_example =
    fan_out_nodes_reaches_all test_env create_on test_nodes test_world (λ k ns. Perm.refl ns)

abbrev test_errors : List Bytes
test_errors = codes "db-1: timeout" ∷ codes "db-2: refused" ∷ []
