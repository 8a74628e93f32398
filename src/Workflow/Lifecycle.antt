-- ===== src/Workflow/Lifecycle.antt =====
-- Where the life cycles of internal/workflow/database.go and database_user.go leave their rows.
use hosting.Common.{ℕ, String, Bytes, Option, none, some, List, []}
use hosting.Workflow.Temporal.{
  active, deleted, provisioning, deleting, Tenant, DatabaseUser, Env, World, Wf, ignore, attempt,
  ◌>>=◌,
}
use hosting.Workflow.Helpers.{fan_out_child_workflows, value_or}
use hosting.Workflow.Database.{
  required, service_addr_at, service_addr_on, configure_database_addrs, pending_database_users,
  create_database_workflow, delete_database_workflow, locate_database_user,
  create_database_user_workflow, update_database_user_workflow, delete_database_user_workflow,
}
use hosting.Workflow.Guards.{
  Quiet, Quiet-pure, Quiet-raise, Quiet-ask, Quiet-ignore, Quiet-bind, Quiet-call, Silent,
  Silent-pure, Silent-attempt, Silent-ignore, Silent-bind, Guarded, Settled, Settles,
}
use hosting.Workflow.Guards.Helpers.{
  Quiet-fan_out_nodes, Quiet-fan_out_child_workflows, Quiet-db_shard_primary,
}
use hosting.Workflow.Guards.Rules.{
  UpdatesSucceed, Guarded-or_failed, Guarded-Silent, Guarded-bind, Settles-start, Settles-bind,
  Settles-step, Settles-skip, Settles-finish, Settles-finish_then, opens_provisioning,
  opens_deleting, goal_active, goal_deleted,
}

module _ {table id : String} where
  pub Quiet-required : {A : Type 0} (o : Option A) (text : Bytes) → Quiet table id (required o text)
  Quiet-required none text = Quiet-raise text
  Quiet-required (some a) text = Quiet-pure a

  pub Quiet-service_addr_at :
      (e : Env) (t : Tenant) (n : String) (i : Option ℕ) → Quiet table id (service_addr_at e t n i)
  unfolding service_addr_at
  Quiet-service_addr_at e t n none = Quiet-pure tt
  Quiet-service_addr_at e t n (some index) = Quiet-call e _

  Quiet-configure_database_addrs :
      (e : Env) (t s : String) → Quiet table id (configure_database_addrs e t s)
  unfolding configure_database_addrs
  Quiet-configure_database_addrs e t s = Quiet-bind _ _ (Quiet-ask _ _) λ tenant.
      Quiet-bind _ _ (Quiet-ask _ _) λ nodes. Quiet-ignore _ (
        Quiet-fan_out_nodes e nodes (service_addr_on e tenant)
          (λ n. Quiet-service_addr_at e tenant n.id n.shard_index))

  Quiet-pending_child_workflows :
      (e : Env) (m : Wf (List DatabaseUser))
      → Quiet table id m
      → Silent table id (
          attempt m >>= λ us.
          ignore (fan_out_child_workflows e (pending_database_users (value_or [] us))))
  Quiet-pending_child_workflows e m q =
      Silent-bind _ _ (Silent-attempt _ q) λ us. Silent-ignore _ (Quiet-fan_out_child_workflows e _)

module _ (e : Env) (id : String) where
  module _ (u : UpdatesSucceed e "databases" id) where
    create_database_workflow-Settles : Settles "databases" id active (create_database_workflow e id)
    unfolding create_database_workflow
    create_database_workflow-Settles =
        Settles-start e "databases" id u provisioning active _ opens_provisioning goal_active (
          Settles-step e "databases" id u active _ _ (Quiet-ask _ _) λ d.
            Settles-step e "databases" id u active _ _ (Quiet-required _ _) λ s.
              Settles-step e "databases" id u active _ _ (Quiet-db_shard_primary e s) λ p.
                Settles-step e "databases" id u active _ _ (Quiet-call e _) λ _.
                  Settles-skip e "databases" id u active _ _
                    (Silent-ignore _ (Quiet-configure_database_addrs e _ _))
                    λ _.
                      Settles-finish_then e "databases" id u active _
                        (Quiet-pending_child_workflows e _ (Quiet-ask _ _)))

    delete_database_workflow-Settles :
        Settles "databases" id deleted (delete_database_workflow e id)
    unfolding delete_database_workflow
    delete_database_workflow-Settles =
        Settles-start e "databases" id u deleting deleted _ opens_deleting goal_deleted (
          Settles-step e "databases" id u deleted _ _ (Quiet-ask _ _) λ d.
            Settles-step e "databases" id u deleted _ _ (Quiet-required _ _) λ s.
              Settles-step e "databases" id u deleted _ _ (Quiet-db_shard_primary e s) λ p.
                Settles-step e "databases" id u deleted _ _ (Quiet-call e _)
                  λ _. Settles-finish e "databases" id u deleted)

  -- If the updates of the database's status succeed, then whatever the other activities answer,
  -- creation ends with the row `active` and no message when it returns no error, deletion with the row
  -- gone, and each with `failed` and the error's text when it returns an error. A row that is not there
  -- is not made.
  pub database_workflows_settle :
      UpdatesSucceed e "databases" id
      → (w : World)
      → let (r₁, w₁) = create_database_workflow e id w in
        let (r₂, w₂) = delete_database_workflow e id w in
        let old = w.rows "databases" id in
        Settled "databases" id active old r₁ (w₁.rows "databases" id)
        × Settled "databases" id deleted old r₂ (w₂.rows "databases" id)
  database_workflows_settle u w =
      ((create_database_workflow-Settles u).at w, (delete_database_workflow-Settles u).at w)

  module _ (u : UpdatesSucceed e "database_users" id) where
    Guarded-locate_database_user : Guarded "database_users" id (locate_database_user e id)
    unfolding locate_database_user
    Guarded-locate_database_user =
        Guarded-bind e "database_users" id u _ _
          (Guarded-or_failed e "database_users" id u _ (Quiet-ask _ _))
          λ d.
            Guarded-bind e "database_users" id u _ _
              (Guarded-or_failed e "database_users" id u _ (Quiet-required _ _))
              λ s.
                Guarded-bind e "database_users" id u _ _
                  (Guarded-or_failed e "database_users" id u _ (Quiet-db_shard_primary e s))
                  λ p. Guarded-Silent e "database_users" id u _ (Silent-pure _)

  -- If the updates of the user's status succeed, then whatever the other activities answer, creation
  -- and update end with the row `active` and no message when they return no error, deletion with the
  -- row gone, and each with `failed` and the error's text when it returns an error.
  pub database_user_workflows_settle :
      UpdatesSucceed e "database_users" id
      → (w : World)
      → let (r₁, w₁) = create_database_user_workflow e id w in
        let (r₂, w₂) = update_database_user_workflow e id w in
        let (r₃, w₃) = delete_database_user_workflow e id w in
        let old = w.rows "database_users" id in
        Settled "database_users" id active old r₁ (w₁.rows "database_users" id)
        × Settled "database_users" id active old r₂ (w₂.rows "database_users" id)
        × Settled "database_users" id deleted old r₃ (w₃.rows "database_users" id)
  unfolding create_database_user_workflow update_database_user_workflow
      delete_database_user_workflow
  database_user_workflows_settle u w = (
    (Settles-start e "database_users" id u provisioning active _ opens_provisioning goal_active (
          Settles-bind e "database_users" id u active _ _ (Guarded-locate_database_user u) λ d.
            Settles-step e "database_users" id u active _ _ (Quiet-call e _)
              λ _. Settles-finish e "database_users" id u active)).at
        w,
    (Settles-start e "database_users" id u provisioning active _ opens_provisioning goal_active (
          Settles-bind e "database_users" id u active _ _ (Guarded-locate_database_user u) λ d.
            Settles-step e "database_users" id u active _ _ (Quiet-call e _)
              λ _. Settles-finish e "database_users" id u active)).at
        w,
    (Settles-start e "database_users" id u deleting deleted _ opens_deleting goal_deleted (
          Settles-bind e "database_users" id u deleted _ _ (Guarded-locate_database_user u) λ d.
            Settles-step e "database_users" id u deleted _ _ (Quiet-call e _)
              λ _. Settles-finish e "database_users" id u deleted)).at
        w,
  )
