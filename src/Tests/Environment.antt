-- ===== src/Tests/Environment.antt =====
-- An environment of workflows in which one node does not answer.
use text.Mathlib.Text.{◌==◌ as str_eq}
use hosting.Common.{ℕ, codes, none, some, List, [], ◌∷◌, if◌then◌else◌, true}
use hosting.Workflow.Temporal.{
  Result, ok, err, pending, Rows, Node, S3Bucket, Webroot, Call, on_node, Env, World,
}

abbrev one_node_down : ℕ → Call → Result (Unit {0})
one_node_down t (on_node n a) = if str_eq n "db-2" then err (codes "timeout") else ok tt
one_node_down t c = ok tt

abbrev pub test_nodes : List Node
test_nodes =
    record { id = "db-1"; shard_index = some 1 } ∷ record { id = "db-2"; shard_index = some 2 } ∷ []

abbrev pub test_bucket : S3Bucket
test_bucket = record {
  id = "b-1";
  tenant_id = "t-1";
  shard_id = some "s-1";
  public = true;
  quota_bytes = 0;
}

abbrev test_webroot : Webroot
test_webroot = record { id = "w-1"; env_file_name = ".env" }

abbrev pub test_env : Env
test_env = record {
  done = one_node_down;
  database_by_id = λ t id. ok (record { id = id; tenant_id = "t-1"; shard_id = some "s-1" });
  database_user_context = λ t id. ok (record {
    user = record {
      id = id;
      database_id = "d-1";
      username = "app";
      password_hash = "x";
      privileges = "ALL" ∷ [];
      status = pending;
    };
    database = record { id = "d-1"; tenant_id = "t-1"; shard_id = some "s-1" };
  });
  database_users = λ t id. ok [];
  valkey_instance_by_id = λ t id. ok (record {
    id = id;
    tenant_id = "t-1";
    shard_id = some "s-1";
    port = 6379;
    password_hash = "x";
    max_memory_mb = 64;
  });
  valkey_users = λ t id. ok [];
  shard_by_id = λ t id. ok (record { id = id; config = [] });
  nodes_by_shard = λ t id. ok (
      record { id = "db-1"; shard_index = some 1 }
      ∷ record { id = "db-2"; shard_index = some 2 }
      ∷ []);
  tenant_by_id =
      λ t id. ok (record { id = id; uid = 5001; cluster_id = "osl-1"; shard_id = some "s-1" });
  incident = λ t p. ok (record { id = "inc-1"; created = true });
  platform_config = λ t key. err (codes "no rows");
  unmarshal_primary_node_id = λ config. "";
  valkey_user_context = λ t id. ok (record {
    user = record {
      id = id;
      valkey_instance_id = "v-1";
      username = "app";
      password_hash = "x";
      privileges = [];
      key_pattern = "*";
      status = pending;
    };
    instance_row = record {
      id = "v-1";
      tenant_id = "t-1";
      shard_id = some "s-1";
      port = 6379;
      password_hash = "x";
      max_memory_mb = 64;
    };
    nodes = test_nodes;
  });
  s3_bucket_by_id = λ t id. ok test_bucket;
  s3_access_key_context = λ t id. ok (record {
    key = record { s3_bucket_id = "b-1"; access_key_id = "AK" };
    bucket = test_bucket;
    nodes = test_nodes;
  });
  email_account_by_id = λ t id. ok (record {
    id = id;
    fqdn_id = "f-1";
    address = "a@example.org";
    display_name = "A";
    quota_bytes = 0;
  });
  email_alias_by_id = λ t id.
      ok
        (record { id = id; email_account_id = "m-1"; address = "b@example.org"; status = pending });
  email_forward_by_id = λ t id. ok (record { id = id; email_account_id = "m-1"; status = pending });
  email_auto_reply_by_id = λ t id. err (codes "no rows");
  email_aliases = λ t id. ok [];
  email_forwards = λ t id. ok [];
  email_auto_replies = λ t id. ok [];
  active_email_accounts = λ t id. err (codes "timeout");
  stalwart_context = λ t id. ok (record {
    stalwart_url = "https://mail";
    stalwart_token = "x";
    mail_hostname = "";
    fqdn_id = id;
    fqdn = "example.org";
    spf_includes = "";
    dkim_selector = "";
    dkim_public_key = "";
    dmarc_policy = "";
  });
  ssh_key_by_id = λ t id. ok (record { tenant_id = "t-1"; public_key = "ssh-ed25519 N" });
  ssh_keys_by_tenant = λ t id. ok (record { tenant_id = "t-1"; public_key = "ssh-ed25519 A" } ∷ []);
  wireguard_peer_by_id = λ t id. ok (record {
    tenant_id = "t-1";
    public_key = "P";
    preshared_key = "S";
    assigned_ip = "fd00:1:ffff::1";
  });
  shards_by_cluster_and_role = λ t c role. ok (record { id = "s-1"; config = [] } ∷ []);
  backup_context = λ t id. ok (record {
    backup = record {
      tenant_id = "t-1";
      type = "database";
      source_id = "d-1";
      source_name = "d-1";
      storage_path = "/b";
    };
    tenant = record { id = "t-1"; uid = 5001; cluster_id = "osl-1"; shard_id = some "s-1" };
    nodes = test_nodes;
  });
  webroot_by_id = λ t id. ok test_webroot;
  backup_result = λ t c. ok (record { storage_path = "/b"; size_bytes = 1 });
  cron_job_context = λ t id. ok (record {
    cron_job = record {
      id = id;
      tenant_id = "t-1";
      schedule = "* * * * *";
      command = "true";
      working_directory = "";
      enabled = true;
      timeout_seconds = 60;
      max_memory_mb = 64;
    };
    webroot = test_webroot;
    tenant = record { id = "t-1"; uid = 5001; cluster_id = "osl-1"; shard_id = some "s-1" };
    nodes = test_nodes;
  });
  now = λ t. t;
  format_rfc3339 = λ t. "";
  node_order = λ t ns. ns;
  child_order = λ t cs. cs;
}

abbrev pub test_rows : Rows
test_rows table id = some (record { status = pending; status_message = none })

abbrev pub test_world : World
test_world = record { clock = 0; rows = test_rows; trace = [] }
