-- ===== src/Workflow/S3.antt =====
-- internal/workflow/s3_bucket.go and s3_access_key.go, and where their life cycles leave the rows.
use text.Mathlib.Text.{◌==◌ as str_eq}
use hosting.Common.{Bytes, String, codes, concat, true, none, [], ◌∷◌, ◌++◌, if◌then◌else◌, ◌≡◌}
use hosting.Workflow.Temporal.{
  provisioning, active, deleting, deleted, S3Bucket, S3AccessKeyContext, create_s3_bucket,
  update_s3_bucket_policy, delete_s3_bucket, create_s3_access_key, delete_s3_access_key, get, Env,
  World, Wf, pure, raise, ask, call_node, update_status, ◌>>=◌, ◌>>◌, Node,
}
use hosting.Workflow.Helpers.{or_failed}
use hosting.Workflow.Database.{required, no_shard, nodes_of_shard, get_tenant}
use hosting.Workflow.Nodes.{first_or}
use hosting.Workflow.Nodes.Rules.{lifecycle}
use hosting.Workflow.Guards.{Quiet, Settled, Settles}
use hosting.Workflow.Guards.Rules.{UpdatesSucceed}

abbrev no_s3_nodes : String → Bytes
no_s3_nodes shard_id = codes "no nodes found in S3 shard " ++ codes shard_id

-- `tenant.ID + "-" + bucket.ID`
abbrev internal_name : String → S3Bucket → String
internal_name tenant_id bucket = concat (tenant_id ∷ "-" ∷ bucket.id ∷ [])

module _ (e : Env) where
  abbrev bucket_by_id : String → Wf S3Bucket
  bucket_by_id id = ask (λ t. e.s3_bucket_by_id t id) (get "GetS3BucketByID" id)

  -- The id of the tenant that was read, and the empty text where a bucket has no tenant.
  abbrev tenant_id_of : S3Bucket → Wf String
  tenant_id_of bucket =
      if str_eq bucket.tenant_id ""
      then pure ""
      else do tenant ← get_tenant e bucket.tenant_id; pure tenant.id

  abbrev tenant_assigned : String → S3Bucket → Wf (Unit {0})
  tenant_assigned id bucket =
      if str_eq bucket.tenant_id ""
      then raise (codes "s3 bucket " ++ (codes id ++ codes " has no tenant assigned"))
      else pure tt

  unfoldable pub create_s3_bucket_workflow : String → Wf (Unit {0})
  create_s3_bucket_workflow id = do
    update_status e "s3_buckets" id provisioning none
    bucket ← or_failed e "s3_buckets" id (bucket_by_id id)
    shard_id ← or_failed e "s3_buckets" id (required bucket.shard_id (no_shard "s3 bucket" id))
    or_failed e "s3_buckets" id (tenant_assigned id bucket)
    tenant ← or_failed e "s3_buckets" id (get_tenant e bucket.tenant_id)
    nodes ← or_failed e "s3_buckets" id (nodes_of_shard e shard_id)
    node ← or_failed e "s3_buckets" id (first_or (no_s3_nodes shard_id) nodes)
    let name = internal_name tenant.id bucket
    or_failed e "s3_buckets" id (
        call_node e node.id (
          create_s3_bucket
            (record { tenant_id = tenant.id; name = name; quota_bytes = bucket.quota_bytes })))
    (if bucket.public
        then or_failed e "s3_buckets" id (
            call_node e node.id (
              update_s3_bucket_policy
                (record { tenant_id = tenant.id; name = name; public = true })))
        else pure tt)
    update_status e "s3_buckets" id active none

  -- Neither sets a status.
  unfoldable pub update_s3_bucket_workflow : String → Wf (Unit {0})
  update_s3_bucket_workflow id = do
    bucket ← bucket_by_id id
    shard_id ← required bucket.shard_id (no_shard "s3 bucket" id)
    tenant_id ← tenant_id_of bucket
    nodes ← nodes_of_shard e shard_id
    node ← first_or (no_s3_nodes shard_id) nodes
    call_node e node.id (
        update_s3_bucket_policy (record {
          tenant_id = tenant_id;
          name = internal_name tenant_id bucket;
          public = bucket.public;
        }))

  unfoldable pub delete_s3_bucket_workflow : String → Wf (Unit {0})
  delete_s3_bucket_workflow id = do
    update_status e "s3_buckets" id deleting none
    bucket ← or_failed e "s3_buckets" id (bucket_by_id id)
    shard_id ← or_failed e "s3_buckets" id (required bucket.shard_id (no_shard "s3 bucket" id))
    tenant_id ← or_failed e "s3_buckets" id (tenant_id_of bucket)
    nodes ← or_failed e "s3_buckets" id (nodes_of_shard e shard_id)
    node ← or_failed e "s3_buckets" id (first_or (no_s3_nodes shard_id) nodes)
    or_failed e "s3_buckets" id
        (call_node e node.id (delete_s3_bucket tenant_id (internal_name tenant_id bucket)))
    update_status e "s3_buckets" id deleted none

  -- What both workflows of an access key do before their node activity.
  unfoldable pub locate_s3_access_key : String → Wf (S3AccessKeyContext × Node)
  locate_s3_access_key id = do
    sctx ←
        or_failed e "s3_access_keys" id
          (ask (λ t. e.s3_access_key_context t id) (get "GetS3AccessKeyContext" id))
    shard_id ←
        or_failed e "s3_access_keys" id
          (required sctx.bucket.shard_id (no_shard "s3 bucket" sctx.key.s3_bucket_id))
    node ← or_failed e "s3_access_keys" id (first_or (no_s3_nodes shard_id) sctx.nodes)
    pure (sctx, node)

  -- The arguments are the id of the key and its secret.
  unfoldable pub create_s3_access_key_workflow : String → String → Wf (Unit {0})
  create_s3_access_key_workflow id secret_access_key = do
    update_status e "s3_access_keys" id provisioning none
    (sctx, node) ← locate_s3_access_key id
    or_failed e "s3_access_keys" id (
        call_node e node.id (
          create_s3_access_key (record {
            tenant_id = sctx.bucket.tenant_id;
            access_key_id = sctx.key.access_key_id;
            secret_access_key = secret_access_key;
          })))
    update_status e "s3_access_keys" id active none

  unfoldable pub delete_s3_access_key_workflow : String → Wf (Unit {0})
  delete_s3_access_key_workflow id = do
    update_status e "s3_access_keys" id deleting none
    (sctx, node) ← locate_s3_access_key id
    or_failed e "s3_access_keys" id
        (call_node e node.id (delete_s3_access_key sctx.bucket.tenant_id sctx.key.access_key_id))
    update_status e "s3_access_keys" id deleted none

module _ (e : Env) (id : String) where
  -- If the updates of the bucket's status succeed, then whatever the other activities answer,
  -- creation ends with the row `active` and no message when it returns no error, deletion with the
  -- row gone, and each with `failed` and the error's text when it returns an error. The update of a
  -- bucket leaves the row as it was, whether it returns an error or not.
  pub s3_bucket_workflows_settle :
      UpdatesSucceed e "s3_buckets" id
      → (w : World)
      → let (r₁, w₁) = create_s3_bucket_workflow e id w in
        let (r₂, w₂) = update_s3_bucket_workflow e id w in
        let (r₃, w₃) = delete_s3_bucket_workflow e id w in
        let old = w.rows "s3_buckets" id in
        Settled "s3_buckets" id active old r₁ (w₁.rows "s3_buckets" id)
        × (w₂.rows "s3_buckets" id ≡ old)
        × Settled "s3_buckets" id deleted old r₃ (w₃.rows "s3_buckets" id)
  unfolding create_s3_bucket_workflow update_s3_bucket_workflow delete_s3_bucket_workflow
  s3_bucket_workflows_settle u w =
      let p : Settles "s3_buckets" id active (create_s3_bucket_workflow e id) =
        search lifecycle depth 25 fits 9000 in
      let q : Quiet "s3_buckets" id (update_s3_bucket_workflow e id) =
        search lifecycle depth 25 fits 9000 in
      let r : Settles "s3_buckets" id deleted (delete_s3_bucket_workflow e id) =
        search lifecycle depth 25 fits 9000 in
      (p.at w, q.at w, r.at w)

  -- If the updates of the key's status succeed, then whatever the other activities answer, creation
  -- ends with the row `active` and no message when it returns no error, deletion with the row gone,
  -- and each with `failed` and the error's text when it returns an error.
  pub s3_access_key_workflows_settle :
      (secret : String)
      → UpdatesSucceed e "s3_access_keys" id
      → (w : World)
      → let (r, w₁) = create_s3_access_key_workflow e id secret w in
        let (s, w₂) = delete_s3_access_key_workflow e id w in
        let old = w.rows "s3_access_keys" id in
        Settled "s3_access_keys" id active old r (w₁.rows "s3_access_keys" id)
        × Settled "s3_access_keys" id deleted old s (w₂.rows "s3_access_keys" id)
  unfolding create_s3_access_key_workflow delete_s3_access_key_workflow locate_s3_access_key
  s3_access_key_workflows_settle secret u w =
      let p : Settles "s3_access_keys" id active (create_s3_access_key_workflow e id secret) =
        search lifecycle depth 25 fits 9000 in
      let q : Settles "s3_access_keys" id deleted (delete_s3_access_key_workflow e id) =
        search lifecycle depth 25 fits 9000 in
      (p.at w, q.at w)
