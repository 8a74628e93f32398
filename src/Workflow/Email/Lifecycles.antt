-- ===== src/Workflow/Email/Lifecycles.antt =====
-- Where the workflows of e-mail accounts, aliases, forwards and auto-replies leave their rows.
use hosting.Common.{String}
use hosting.Workflow.Temporal.{active, deleted, Env, World}
use hosting.Workflow.Email.{
  create_email_account_workflow, delete_email_account_workflow, start_pending_children,
  create_email_alias_workflow, delete_email_alias_workflow, locate_alias, resolve_cluster_stalwart,
  create_email_forward_workflow, delete_email_forward_workflow, locate_forward,
  update_email_auto_reply_workflow, delete_email_auto_reply_workflow, locate_auto_reply,
}
use hosting.Workflow.Guards.{Settled, Settles}
use hosting.Workflow.Guards.Rules.{UpdatesSucceed}
use hosting.Workflow.Guards.Withdrawal.{Withdrawn, Withdraws, withdrawal}
use hosting.Workflow.Nodes.Rules.{lifecycle}

module _ (e : Env) (id : String) where
  -- If the updates of the account's status succeed, then whatever the other activities answer,
  -- creation ends with the row `active` and no message when it returns no error, and with `failed` and
  -- the error's text when it returns one. Deletion ends with the row gone when it returns no error;
  -- when it returns one, the row is gone too or holds `failed` and the error's text.
  pub email_account_workflows_settle :
      UpdatesSucceed e "email_accounts" id
      → (w : World)
      → let (r₁, w₁) = create_email_account_workflow e id w in
        let (r₂, w₂) = delete_email_account_workflow e id w in
        let old = w.rows "email_accounts" id in
        Settled "email_accounts" id active old r₁ (w₁.rows "email_accounts" id)
        × Withdrawn old r₂ (w₂.rows "email_accounts" id)
  unfolding create_email_account_workflow delete_email_account_workflow start_pending_children
  email_account_workflows_settle u w =
      let p : Settles "email_accounts" id active (create_email_account_workflow e id) =
        search lifecycle depth 25 fits 9000 in
      let q : Withdraws "email_accounts" id (delete_email_account_workflow e id) =
        search (lifecycle, withdrawal) depth 25 fits 9000 in
      (p.at w, q.at w)

  -- If the updates of the alias's status succeed, then whatever the other activities answer, creation
  -- ends with the row `active` and no message when it returns no error, deletion with the row gone,
  -- and each with `failed` and the error's text when it returns an error.
  pub email_alias_workflows_settle :
      UpdatesSucceed e "email_aliases" id
      → (w : World)
      → let (r₁, w₁) = create_email_alias_workflow e id w in
        let (r₂, w₂) = delete_email_alias_workflow e id w in
        let old = w.rows "email_aliases" id in
        Settled "email_aliases" id active old r₁ (w₁.rows "email_aliases" id)
        × Settled "email_aliases" id deleted old r₂ (w₂.rows "email_aliases" id)
  unfolding create_email_alias_workflow delete_email_alias_workflow locate_alias
      resolve_cluster_stalwart
  email_alias_workflows_settle u w =
      let p : Settles "email_aliases" id active (create_email_alias_workflow e id) =
        search lifecycle depth 25 fits 9000 in
      let q : Settles "email_aliases" id deleted (delete_email_alias_workflow e id) =
        search lifecycle depth 25 fits 9000 in
      (p.at w, q.at w)

  -- If the updates of the forward's status succeed, then whatever the other activities answer,
  -- creation ends with the row `active` and no message when it returns no error, and with `failed` and
  -- the error's text when it returns one. Deletion ends with the row gone when it returns no error;
  -- when it returns one, the row is gone too or holds `failed` and the error's text.
  pub email_forward_workflows_settle :
      UpdatesSucceed e "email_forwards" id
      → (w : World)
      → let (r₁, w₁) = create_email_forward_workflow e id w in
        let (r₂, w₂) = delete_email_forward_workflow e id w in
        let old = w.rows "email_forwards" id in
        Settled "email_forwards" id active old r₁ (w₁.rows "email_forwards" id)
        × Withdrawn old r₂ (w₂.rows "email_forwards" id)
  unfolding create_email_forward_workflow delete_email_forward_workflow locate_forward
      resolve_cluster_stalwart
  email_forward_workflows_settle u w =
      let p : Settles "email_forwards" id active (create_email_forward_workflow e id) =
        search lifecycle depth 25 fits 9000 in
      let q : Withdraws "email_forwards" id (delete_email_forward_workflow e id) =
        search (lifecycle, withdrawal) depth 25 fits 9000 in
      (p.at w, q.at w)

  -- If the updates of the auto-reply's status succeed, then whatever the other activities answer,
  -- the update ends with the row `active` and no message when it returns no error, deletion with the
  -- row gone, and each with `failed` and the error's text when it returns an error.
  pub email_auto_reply_workflows_settle :
      UpdatesSucceed e "email_autoreplies" id
      → (w : World)
      → let (r₁, w₁) = update_email_auto_reply_workflow e id w in
        let (r₂, w₂) = delete_email_auto_reply_workflow e id w in
        let old = w.rows "email_autoreplies" id in
        Settled "email_autoreplies" id active old r₁ (w₁.rows "email_autoreplies" id)
        × Settled "email_autoreplies" id deleted old r₂ (w₂.rows "email_autoreplies" id)
  unfolding update_email_auto_reply_workflow delete_email_auto_reply_workflow locate_auto_reply
      resolve_cluster_stalwart
  email_auto_reply_workflows_settle u w =
      let p : Settles "email_autoreplies" id active (update_email_auto_reply_workflow e id) =
        search lifecycle depth 25 fits 9000 in
      let q : Settles "email_autoreplies" id deleted (delete_email_auto_reply_workflow e id) =
        search lifecycle depth 25 fits 9000 in
      (p.at w, q.at w)
