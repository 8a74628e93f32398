-- ===== src/Workflow/Email.antt =====
-- internal/workflow/email_account.go, email_alias.go, email_forward.go and email_autoreply.go.
pub mod Lifecycles
use text.Mathlib.Text.{◌==◌ as str_eq}
use hosting.Common.{
  String, codes, concat, Option, none, some, List, [], ◌∷◌, ◌++◌, if◌then◌else◌, ℕ, ◌==◌,
}
use hosting.Workflow.Temporal.{
  pending, provisioning, active, deleting, deleted, EmailAccount, EmailAlias, EmailForward,
  EmailAutoReply, StalwartContext, StalwartServer, VacationParams, AutoCreateEmailDnsRecordsParams,
  create_domain, delete_domain, create_account, delete_account, add_alias, remove_alias,
  set_vacation, sync_forward_script, on_stalwart, auto_create_email_dns_records,
  auto_delete_email_dns_records, ChildWorkflowSpec, get, Env, Wf, pure, ask, attempt, ignore, call,
  update_status, ◌>>=◌, ◌>>◌,
}
use hosting.Workflow.Helpers.{or_failed, value_or, fan_out_child_workflows}

abbrev server_of : StalwartContext → StalwartServer
server_of sctx = record { base_url = sctx.stalwart_url; admin_token = sctx.stalwart_token }

unfoldable pub pending_aliases : List EmailAlias → List ChildWorkflowSpec
pending_aliases [] = []
pending_aliases (a ∷ rest) = elim a.status [
  | pending ↦
      record {
        workflow_name = "CreateEmailAliasWorkflow";
        workflow_id = codes "create-email-alias-" ++ codes a.id;
        arg = a.id;
      }
      ∷ pending_aliases rest
  | _ ↦ pending_aliases rest
]

unfoldable pub pending_forwards : List EmailForward → List ChildWorkflowSpec
pending_forwards [] = []
pending_forwards (f ∷ rest) = elim f.status [
  | pending ↦
      record {
        workflow_name = "CreateEmailForwardWorkflow";
        workflow_id = codes "create-email-forward-" ++ codes f.id;
        arg = f.id;
      }
      ∷ pending_forwards rest
  | _ ↦ pending_forwards rest
]

unfoldable pub pending_auto_replies : List EmailAutoReply → List ChildWorkflowSpec
pending_auto_replies [] = []
pending_auto_replies (r ∷ rest) = elim r.status [
  | pending ↦
      record {
        workflow_name = "UpdateEmailAutoReplyWorkflow";
        workflow_id = codes "update-email-autoreply-" ++ codes r.id;
        arg = r.id;
      }
      ∷ pending_auto_replies rest
  | _ ↦ pending_auto_replies rest
]

module _ (e : Env) where
  abbrev account_by_id : String → Wf EmailAccount
  account_by_id id = ask (λ t. e.email_account_by_id t id) (get "GetEmailAccountByID" id)

  abbrev stalwart_context_of : String → Wf StalwartContext
  stalwart_context_of fqdn_id =
      ask (λ t. e.stalwart_context t fqdn_id) (get "GetStalwartContext" fqdn_id)

  unfoldable pub resolve_cluster_stalwart : String → String → String → Wf StalwartServer
  resolve_cluster_stalwart fqdn_id table resource_id = do
    sctx ← or_failed e table resource_id (stalwart_context_of fqdn_id)
    pure (server_of sctx)

  abbrev mail_hostname_of : StalwartContext → String
  mail_hostname_of sctx =
      if str_eq sctx.mail_hostname "" then concat ("mail." ∷ sctx.fqdn ∷ []) else sctx.mail_hostname

  abbrev email_dns_params : StalwartContext → AutoCreateEmailDnsRecordsParams
  email_dns_params sctx = record {
    fqdn = sctx.fqdn;
    mail_hostname = mail_hostname_of sctx;
    spf_includes = sctx.spf_includes;
    dkim_selector = sctx.dkim_selector;
    dkim_public_key = sctx.dkim_public_key;
    dmarc_policy = sctx.dmarc_policy;
    source_fqdn_id = sctx.fqdn_id;
  }

  -- The children that were left pending, started in parallel.
  unfoldable pub start_pending_children : String → Wf (Unit {0})
  unfolding pending_aliases pending_forwards pending_auto_replies
  start_pending_children id = do
    aliases ← attempt (ask (λ t. e.email_aliases t id) (get "ListEmailAliasesByAccountID" id))
    forwards ← attempt (ask (λ t. e.email_forwards t id) (get "ListEmailForwardsByAccountID" id))
    autoreplies ←
        attempt (ask (λ t. e.email_auto_replies t id) (get "ListEmailAutoRepliesByAccountID" id))
    ignore (
        fan_out_child_workflows e (
          pending_aliases (value_or [] aliases)
          ++ (pending_forwards (value_or [] forwards)
              ++ pending_auto_replies (value_or [] autoreplies))))

  unfoldable pub create_email_account_workflow : String → Wf (Unit {0})
  create_email_account_workflow id = do
    update_status e "email_accounts" id provisioning none
    account ← or_failed e "email_accounts" id (account_by_id id)
    sctx ← or_failed e "email_accounts" id (stalwart_context_of account.fqdn_id)
    or_failed e "email_accounts" id
        (call e (on_stalwart (server_of sctx) (create_domain sctx.fqdn)))
    or_failed e "email_accounts" id (
        call e (
          on_stalwart (server_of sctx) (
            create_account (record {
              address = account.address;
              display_name = account.display_name;
              quota_bytes = account.quota_bytes;
            }))))
    or_failed e "email_accounts" id (call e (auto_create_email_dns_records (email_dns_params sctx)))
    update_status e "email_accounts" id active none
    start_pending_children id

  -- The domain and its DNS records go with the last account of the host name.
  unfoldable pub delete_email_account_workflow : String → Wf (Unit {0})
  delete_email_account_workflow id = do
    update_status e "email_accounts" id deleting none
    account ← or_failed e "email_accounts" id (account_by_id id)
    sctx ← or_failed e "email_accounts" id (stalwart_context_of account.fqdn_id)
    or_failed e "email_accounts" id
        (call e (on_stalwart (server_of sctx) (delete_account account.address)))
    update_status e "email_accounts" id deleted none
    remaining ←
        ask (λ t. e.active_email_accounts t account.fqdn_id)
          (get "CountActiveEmailAccountsByFQDN" account.fqdn_id)
    if remaining == 0
        then (do
          ignore (call e (on_stalwart (server_of sctx) (delete_domain sctx.fqdn)))
          ignore (call e (auto_delete_email_dns_records sctx.fqdn)))
        else pure tt

  -- The account of an alias and its mail server.
  unfoldable pub locate_alias : String → Wf (EmailAlias × (EmailAccount × StalwartServer))
  locate_alias id = do
    alias ←
        or_failed e "email_aliases" id
          (ask (λ t. e.email_alias_by_id t id) (get "GetEmailAliasByID" id))
    account ← or_failed e "email_aliases" id (account_by_id alias.email_account_id)
    server ← resolve_cluster_stalwart account.fqdn_id "email_aliases" id
    pure (alias, (account, server))

  unfoldable pub create_email_alias_workflow : String → Wf (Unit {0})
  create_email_alias_workflow id = do
    update_status e "email_aliases" id provisioning none
    (alias, (account, server)) ← locate_alias id
    or_failed e "email_aliases" id
        (call e (on_stalwart server (add_alias account.address alias.address)))
    update_status e "email_aliases" id active none

  unfoldable pub delete_email_alias_workflow : String → Wf (Unit {0})
  delete_email_alias_workflow id = do
    update_status e "email_aliases" id deleting none
    (alias, (account, server)) ← locate_alias id
    or_failed e "email_aliases" id
        (call e (on_stalwart server (remove_alias account.address alias.address)))
    update_status e "email_aliases" id deleted none

  unfoldable pub locate_forward : String → Wf (EmailAccount × StalwartServer)
  locate_forward id = do
    fwd ←
        or_failed e "email_forwards" id
          (ask (λ t. e.email_forward_by_id t id) (get "GetEmailForwardByID" id))
    account ← or_failed e "email_forwards" id (account_by_id fwd.email_account_id)
    server ← resolve_cluster_stalwart account.fqdn_id "email_forwards" id
    pure (account, server)

  unfoldable pub create_email_forward_workflow : String → Wf (Unit {0})
  create_email_forward_workflow id = do
    update_status e "email_forwards" id provisioning none
    (account, server) ← locate_forward id
    or_failed e "email_forwards" id
        (call e (on_stalwart server (sync_forward_script account.address account.id)))
    update_status e "email_forwards" id active none

  -- The row is marked first, so that the script is generated without it.
  unfoldable pub delete_email_forward_workflow : String → Wf (Unit {0})
  delete_email_forward_workflow id = do
    update_status e "email_forwards" id deleting none
    (account, server) ← locate_forward id
    update_status e "email_forwards" id deleted none
    call e (on_stalwart server (sync_forward_script account.address account.id))

  abbrev formatted : Option ℕ → Option String
  formatted none = none
  formatted (some date) = some (e.format_rfc3339 date)

  abbrev vacation_of : EmailAutoReply → VacationParams
  vacation_of ar = record {
    subject = ar.subject;
    body = ar.body;
    enabled = ar.enabled;
    start_date = formatted ar.start_date;
    end_date = formatted ar.end_date;
  }

  unfoldable pub locate_auto_reply : String → Wf (EmailAutoReply × (EmailAccount × StalwartServer))
  locate_auto_reply id = do
    ar ←
        or_failed e "email_autoreplies" id
          (ask (λ t. e.email_auto_reply_by_id t id) (get "GetEmailAutoReplyByID" id))
    account ← or_failed e "email_autoreplies" id (account_by_id ar.email_account_id)
    server ← resolve_cluster_stalwart account.fqdn_id "email_autoreplies" id
    pure (ar, (account, server))

  unfoldable pub update_email_auto_reply_workflow : String → Wf (Unit {0})
  update_email_auto_reply_workflow id = do
    update_status e "email_autoreplies" id provisioning none
    (ar, (account, server)) ← locate_auto_reply id
    or_failed e "email_autoreplies" id
        (call e (on_stalwart server (set_vacation account.address (some (vacation_of ar)))))
    update_status e "email_autoreplies" id active none

  unfoldable pub delete_email_auto_reply_workflow : String → Wf (Unit {0})
  delete_email_auto_reply_workflow id = do
    update_status e "email_autoreplies" id deleting none
    (ar, (account, server)) ← locate_auto_reply id
    or_failed e "email_autoreplies" id
        (call e (on_stalwart server (set_vacation account.address none)))
    update_status e "email_autoreplies" id deleted none
