-- ===== src/Workflow/Helpers.antt =====
-- internal/workflow/helpers.go and incident_webhook.go.
use hosting.Common.{
  String, Bytes, codes, concat, join, some, List, [], ◌∷◌, ◌++◌, ◌&&◌, ◌||◌, length, take, is_empty,
  ltb, ◌==◌, if◌then◌else◌,
}
use text.Mathlib.Text.{◌==◌ as str_eq}
use hosting.Workflow.Temporal.{
  Result, ok, err, failed, Node, Shard, CreateIncidentParams, CreateIncidentResult, WebhookIncident,
  ChildWorkflowSpec, get, create_incident, send_webhook, start_child, Env, Wf, pure, raise, attempt,
  ignore, ask, call, update_status, ◌>>=◌, ◌>>◌,
}

unfoldable pub join_errors : List Bytes → Bytes
join_errors errs =
    let msg = join (codes "; ") errs in if ltb 4000 (length msg) then take 4000 msg else msg

-- `strings.TrimSuffix(s, "s")`
unfoldable pub trim_suffix_s : Bytes → Bytes
trim_suffix_s [] = []
trim_suffix_s (c ∷ []) = if c == b's' then [] else c ∷ []
trim_suffix_s (c ∷ d ∷ s) = c ∷ trim_suffix_s (d ∷ s)

-- `%w` of an error, with what stands before it.
abbrev pub wrapped : {A : Type 0} → Bytes → Result A → Result A
wrapped prefix (ok a) = ok a
wrapped prefix (err message) = err (prefix ++ message)

unfoldable pub wrap : {A : Type 0} → Bytes → Wf A → Wf A
wrap prefix m w = let (r, w') = m w in (wrapped prefix r, w')

-- The value of a call whose error is dropped, as Go's zero value stands there.
abbrev pub value_or : {A : Type 0} → A → Result A → A
value_or zero_value (ok a) = a
value_or zero_value (err _) = zero_value

-- An error as a list of none or one.
abbrev pub errors_of : {A : Type 0} → Result A → List Bytes
errors_of (ok _) = []
errors_of (err message) = message ∷ []

-- The calls one after another in the order given; the errors in the order in which they come.
unfoldable pub run_each : {A : Type 0} → (A → Wf (Unit {0})) → List A → Wf (List Bytes)
run_each fn [] = pure []
run_each fn (x ∷ xs) = do r ← attempt (fn x); rest ← run_each fn xs; pure (errors_of r ++ rest)

module _ (e : Env) where
  unfoldable pub send_incident_webhook : WebhookIncident → String → Wf (Unit {0})
  send_incident_webhook incident trigger = do
    let url_key : String = concat ("webhook." ∷ trigger ∷ ".url" ∷ [])
    let template_key : String = concat ("webhook." ∷ trigger ∷ ".template" ∷ [])
    url ← attempt (ask (λ t. e.platform_config t url_key) (get "GetPlatformConfig" url_key))
    let webhook_url = value_or "" url
    if str_eq webhook_url "" then pure tt else do
      value ←
          attempt
            (ask (λ t. e.platform_config t template_key) (get "GetPlatformConfig" template_key))
      let template_value = value_or "" value
      let template = if str_eq template_value "" then "generic" else template_value
      ignore (
          call e (
            send_webhook (record {
              url = webhook_url;
              template = template;
              incident = incident;
              trigger = trigger;
            })))

  -- Only an incident that is new, and critical or a warning, is sent on.
  unfoldable pub notify : CreateIncidentParams → Result CreateIncidentResult → Wf (Unit {0})
  unfolding send_incident_webhook
  notify params (err _) = pure tt
  notify params (ok r) =
      if r.created && (str_eq params.severity "critical" || str_eq params.severity "warning")
      then send_incident_webhook (record { id = r.id; params = params }) params.severity
      else pure tt

  -- A failure to record the incident, or to send the webhook, is dropped.
  unfoldable pub record_incident : CreateIncidentParams → Wf (Unit {0})
  unfolding notify
  record_incident params = do
    result ← attempt (ask (λ t. e.incident t params) (create_incident params))
    notify params result

  unfoldable pub failure_incident : String → String → Bytes → CreateIncidentParams
  failure_incident table id message = record {
    dedupe_key = codes "provisioning_failed:" ++ (codes table ++ (codes ":" ++ codes id));
    type = "provisioning_failed";
    severity = "warning";
    title = trim_suffix_s (codes table) ++ codes " provisioning failed";
    detail = message;
    resource_type = trim_suffix_s (codes table);
    resource_id = id;
    source = "workflow";
  }

  unfoldable pub set_resource_failed : String → String → Bytes → Wf (Unit {0})
  unfolding failure_incident record_incident
  set_resource_failed table id message = do
    status_err ← attempt (update_status e table id failed (some message))
    record_incident (failure_incident table id message)
    λ w. (status_err, w)

  -- `if err != nil { _ = setResourceFailed(ctx, table, id, err); return err }`
  unfoldable pub settle : {A : Type 0} → String → String → Result A → Wf A
  unfolding set_resource_failed
  settle table id (ok a) w = (ok a, w)
  settle table id (err message) w = (err message, (set_resource_failed table id message w).1)

  -- The same behind a call.
  unfoldable pub or_failed : {A : Type 0} → String → String → Wf A → Wf A
  unfolding settle
  or_failed table id m w = let (r, w') = m w in settle table id r w'

  unfoldable pub fan_out_nodes : List Node → (Node → Wf (Unit {0})) → Wf (List Bytes)
  unfolding run_each
  fan_out_nodes [] fn = pure []
  fan_out_nodes (node ∷ []) fn = do r ← attempt (fn node); pure (errors_of r)
  fan_out_nodes (node ∷ next ∷ rest) fn =
      λ w. run_each fn (e.node_order w.clock (node ∷ next ∷ rest)) w

  -- The error text of a child, `%s(%s): %v`.
  abbrev child_error : ChildWorkflowSpec → Bytes
  child_error child = codes child.workflow_name ++ (codes "(" ++ (child.workflow_id ++ codes "): "))

  unfoldable pub fan_out_child_workflows : List ChildWorkflowSpec → Wf (List Bytes)
  unfolding run_each wrap
  fan_out_child_workflows [] = pure []
  fan_out_child_workflows (child ∷ rest) = λ w.
      run_each (λ c. wrap (child_error c) (call e (start_child c)))
        (e.child_order w.clock (child ∷ rest)) w

  -- The shard's configuration is read only where there is one.
  abbrev configured_primary : Shard → String
  configured_primary shard =
      if is_empty shard.config then "" else e.unmarshal_primary_node_id shard.config

  abbrev pub first_node : String → List Node → Wf (String × List Node)
  first_node shard_id [] = raise (codes "shard " ++ (codes shard_id ++ codes " has no nodes"))
  first_node shard_id (node ∷ rest) = pure (node.id, node ∷ rest)

  unfoldable pub db_shard_primary : String → Wf (String × List Node)
  unfolding wrap
  db_shard_primary shard_id = do
    shard ←
        wrap (codes "get shard: ")
          (ask (λ t. e.shard_by_id t shard_id) (get "GetShardByID" shard_id))
    nodes ←
        wrap (codes "list nodes: ")
          (ask (λ t. e.nodes_by_shard t shard_id) (get "ListNodesByShard" shard_id))
    let primary = configured_primary shard
    if str_eq primary "" then first_node shard_id nodes else pure (primary, nodes)
