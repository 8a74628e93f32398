-- ===== src/Workflow/Guards/Helpers.antt =====
-- The helpers of internal/workflow/helpers.go leave the row alone.
use hosting.Common.{◌++◌, String, List, [], ◌∷◌}
use hosting.Workflow.Temporal.{
  Result, ok, err, Node, ChildWorkflowSpec, CreateIncidentParams, CreateIncidentResult,
  WebhookIncident, Env, Wf,
}
use hosting.Workflow.Helpers.{
  notify, record_incident, send_incident_webhook, errors_of, run_each, fan_out_nodes,
  fan_out_child_workflows, first_node, db_shard_primary,
}
use hosting.Workflow.Guards.{
  Quiet, Quiet-pure, Quiet-raise, Quiet-ask, Quiet-attempt, Quiet-ignore, Quiet-wrap, Quiet-if,
  Quiet-call, Quiet-bind,
}

pub ruleset quiet = (
  Quiet-pure, Quiet-raise, Quiet-ask, Quiet-attempt, Quiet-ignore, Quiet-wrap, Quiet-if, Quiet-call,
  Quiet-bind,
)

module _ {table id : String} (e : Env) where
  Quiet-send_incident_webhook :
      (i : WebhookIncident) (t : String) → Quiet table id (send_incident_webhook e i t)
  unfolding send_incident_webhook
  Quiet-send_incident_webhook i t = search quiet depth 9

  Quiet-notify :
      (p : CreateIncidentParams) (r : Result CreateIncidentResult) → Quiet table id (notify e p r)
  unfolding notify
  Quiet-notify p (err text) = Quiet-pure tt
  Quiet-notify p (ok r) = Quiet-if _ _ _ (Quiet-send_incident_webhook _ _) (Quiet-pure tt)

  pub Quiet-record_incident : (p : CreateIncidentParams) → Quiet table id (record_incident e p)
  unfolding record_incident
  Quiet-record_incident p = search (quiet, Quiet-notify)

  pub Quiet-run_each :
      {A : Type 0} (fn : A → Wf (Unit {0}))
      → ((a : A) → Quiet table id (fn a))
      → (xs : List A) → Quiet table id (run_each fn xs)
  unfolding run_each
  Quiet-run_each fn q [] = Quiet-pure []
  Quiet-run_each fn q (x ∷ xs) =
      Quiet-bind _ _ (Quiet-attempt _ (q x))
        λ r. Quiet-bind _ _ (Quiet-run_each fn q xs) (λ rest. Quiet-pure (errors_of r ++ rest))

  pub Quiet-fan_out_nodes :
      (nodes : List Node) (fn : Node → Wf (Unit {0}))
      → ((n : Node) → Quiet table id (fn n))
      → Quiet table id (fan_out_nodes e nodes fn)
  unfolding fan_out_nodes
  Quiet-fan_out_nodes [] fn q = Quiet-pure []
  Quiet-fan_out_nodes (n ∷ []) fn q =
      Quiet-bind _ _ (Quiet-attempt _ (q n)) (λ r. Quiet-pure (errors_of r))
  Quiet-fan_out_nodes (n ∷ m ∷ ns) fn q = record {
    at = λ w. (Quiet-run_each fn q (e.node_order w.clock (n ∷ m ∷ ns))).at w;
  }

  pub Quiet-fan_out_child_workflows :
      (cs : List ChildWorkflowSpec) → Quiet table id (fan_out_child_workflows e cs)
  unfolding fan_out_child_workflows
  Quiet-fan_out_child_workflows [] = Quiet-pure []
  Quiet-fan_out_child_workflows (c ∷ cs) = record {
    at = λ w. (Quiet-run_each _ (λ c'. search quiet) (e.child_order w.clock (c ∷ cs))).at w;
  }

  Quiet-first_node : (s : String) (ns : List Node) → Quiet table id (first_node e s ns)
  Quiet-first_node s [] = Quiet-raise _
  Quiet-first_node s (n ∷ ns) = Quiet-pure _

  pub Quiet-db_shard_primary : (s : String) → Quiet table id (db_shard_primary e s)
  unfolding db_shard_primary
  Quiet-db_shard_primary s = search (quiet, Quiet-first_node)
