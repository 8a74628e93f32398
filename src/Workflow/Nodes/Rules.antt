-- ===== src/Workflow/Nodes/Rules.antt =====
-- The rules that follow a whole workflow to where it leaves its row.
use hosting.Common.{List, [], ◌∷◌, ◌++◌, Bool, true, false, String, if◌then◌else◌}
use hosting.Workflow.Temporal.{Env, Wf, Node}
use hosting.Workflow.Helpers.{run_each, errors_of, fan_out_nodes}
use hosting.Workflow.Guards.{
  Quiet-pure, Quiet-raise, Quiet-attempt, Quiet-wrap, Quiet-ask, Quiet-call, Quiet-bind,
  Quiet-ignore, Quiet-if, Silent-pure, Silent-bind, Silent-attempt, Silent-ignore, Silent, Quiet,
  Guarded, Settles,
}
use hosting.Workflow.Guards.Helpers.{
  Quiet-fan_out_nodes, Quiet-fan_out_child_workflows, Quiet-db_shard_primary,
}
use hosting.Workflow.Guards.Rules.{
  UpdatesSucceed, Guarded-or_failed, Guarded-Silent, Guarded-bind, Settles-start, Settles-bind,
  Settles-finish, Settles-finish_then, opens_provisioning, opens_deleting, goal_active,
  goal_deleted,
}
use hosting.Workflow.Lifecycle.{Quiet-required}
use hosting.Workflow.Nodes.{
  Quiet-call_each_node, Quiet-no_errors, Quiet-first_or, Guarded-on_each_node,
}

module _ {table id : String} {A : Type 0} where
  pub Guarded-if :
      (b : Bool) (m n : Wf A)
      → Guarded table id m
      → Guarded table id n
      → Guarded table id (if b then m else n)
  Guarded-if true m n gm gn = gm
  Guarded-if false m n gm gn = gn

module _ {table id : String} where
  pub Silent-run_each :
      {A : Type 0} (fn : A → Wf (Unit {0}))
      → ((a : A) → Quiet table id (fn a))
      → (xs : List A) → Silent table id (run_each fn xs)
  unfolding run_each
  Silent-run_each fn q [] = Silent-pure []
  Silent-run_each fn q (x ∷ xs) =
      Silent-bind _ _ (Silent-attempt _ (q x))
        λ r. Silent-bind _ _ (Silent-run_each fn q xs) (λ rest. Silent-pure (errors_of r ++ rest))

  pub Silent-fan_out_nodes :
      (e : Env) (nodes : List Node) (fn : Node → Wf (Unit {0}))
      → ((n : Node) → Quiet table id (fn n))
      → Silent table id (fan_out_nodes e nodes fn)
  unfolding fan_out_nodes
  Silent-fan_out_nodes e [] fn q = Silent-pure []
  Silent-fan_out_nodes e (n ∷ []) fn q =
      Silent-bind _ _ (Silent-attempt _ (q n)) (λ r. Silent-pure (errors_of r))
  Silent-fan_out_nodes e (n ∷ m ∷ ns) fn q = record {
    at = λ w. (Silent-run_each fn q (e.node_order w.clock (n ∷ m ∷ ns))).at w;
    value = λ w. (Silent-run_each fn q (e.node_order w.clock (n ∷ m ∷ ns))).value w;
  }

pub ruleset lifecycle = (
  Settles-start, Settles-bind, Settles-finish, Settles-finish_then, opens_provisioning,
  opens_deleting, goal_active, goal_deleted, Guarded-bind, Guarded-or_failed, Guarded-Silent,
  Guarded-if, Guarded-on_each_node, Silent-pure, Silent-bind, Silent-attempt, Silent-ignore,
  Quiet-ask, Quiet-call, Quiet-required, Quiet-first_or, Quiet-fan_out_nodes,
  Quiet-fan_out_child_workflows, Quiet-db_shard_primary, Quiet-pure, Quiet-raise, Quiet-bind,
  Quiet-if, Quiet-attempt, Quiet-ignore, Quiet-wrap, Quiet-call_each_node, Quiet-no_errors,
  Silent-run_each, Silent-fan_out_nodes,
)
