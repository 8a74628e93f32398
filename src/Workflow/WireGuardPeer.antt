-- ===== src/Workflow/WireGuardPeer.antt =====
-- internal/workflow/wireguard_peer.go, and where its two life cycles leave the row.
use hosting.Common.{String, Bytes, codes, none, some, List, [], ◌∷◌, ◌++◌}
use hosting.Workflow.Temporal.{
  provisioning, active, deleting, deleted, Shard, Node, Tenant, WireGuardPeer, NodeActivity,
  configure_wireguard_peer, remove_wireguard_peer, get, Env, World, Wf, pure, raise, ask, attempt,
  call_node, update_status, ◌>>=◌, ◌>>◌,
}
use hosting.Workflow.Helpers.{or_failed, value_or, fan_out_nodes}
use hosting.Workflow.Database.{nodes_of_shard, get_tenant}
use hosting.Workflow.Nodes.{no_errors}
use hosting.Workflow.Nodes.Rules.{lifecycle}
use hosting.Workflow.Guards.{
  Quiet, Quiet-ask, Silent, Silent-pure, Silent-bind, Silent-attempt, Guarded, Settled, Settles,
}
use hosting.Workflow.Guards.Rules.{UpdatesSucceed, Guarded-Silent, Guarded-bind}
use hosting.Ula.Address.{ula_text, compute_cluster_hash}

-- `fd00:%x:%x::%x` and `/128` for each node that has an index.
unfoldable pub node_ips : Tenant → List Node → List Bytes
node_ips tenant [] = []
node_ips tenant (node ∷ nodes) = elim node.shard_index [
  | none ↦ node_ips tenant nodes
  | some index ↦
      (ula_text (compute_cluster_hash (codes tenant.cluster_id)) index tenant.uid ++ codes "/128")
      ∷ node_ips tenant nodes
]

abbrev require_shards : String → List Shard → Wf (Unit {0})
require_shards cluster_id [] =
    raise (codes "no gateway shard found for cluster " ++ codes cluster_id)
require_shards cluster_id (shard ∷ shards) = pure tt

module _ (e : Env) where
  abbrev shards_of_role : String → String → Wf (List Shard)
  shards_of_role cluster_id role =
      ask (λ t. e.shards_by_cluster_and_role t cluster_id role)
        (get "ListShardsByClusterAndRole" cluster_id)

  -- The addresses of a role's nodes; a listing that fails is passed over.
  unfoldable pub shard_ips : Tenant → List Shard → Wf (List Bytes)
  shard_ips tenant [] = pure []
  shard_ips tenant (shard ∷ shards) = do
    nodes ← attempt (nodes_of_shard e shard.id)
    rest ← shard_ips tenant shards
    pure (node_ips tenant (value_or [] nodes) ++ rest)

  unfoldable pub role_ips : Tenant → List String → Wf (List Bytes)
  unfolding shard_ips
  role_ips tenant [] = pure []
  role_ips tenant (role ∷ roles) = do
    shards ← attempt (shards_of_role tenant.cluster_id role)
    here ← shard_ips tenant (value_or [] shards)
    rest ← role_ips tenant roles
    pure (here ++ rest)

  unfoldable pub allowed_ips_of : Tenant → Wf (List Bytes)
  unfolding role_ips
  allowed_ips_of tenant = role_ips tenant ("database" ∷ "valkey" ∷ [])

  -- The loop over the gateway shards; the first shard with an error fails the peer and ends it.
  unfoldable pub on_gateways : String → Bytes → NodeActivity → List Shard → Wf (Unit {0})
  on_gateways id prefix a [] = pure tt
  on_gateways id prefix a (shard ∷ shards) = do
    nodes ← or_failed e "wireguard_peers" id (nodes_of_shard e shard.id)
    errs ← fan_out_nodes e nodes (λ node. call_node e node.id a)
    or_failed e "wireguard_peers" id (no_errors prefix errs)
    on_gateways id prefix a shards

  -- The peer, its tenant and the gateway shards of the tenant's cluster.
  unfoldable pub locate_peer : String → Wf (WireGuardPeer × (Tenant × List Shard))
  locate_peer id = do
    peer ←
        or_failed e "wireguard_peers" id
          (ask (λ t. e.wireguard_peer_by_id t id) (get "GetWireGuardPeerByID" id))
    tenant ← or_failed e "wireguard_peers" id (get_tenant e peer.tenant_id)
    shards ← or_failed e "wireguard_peers" id (shards_of_role tenant.cluster_id "gateway")
    pure (peer, (tenant, shards))

  unfoldable pub create_wireguard_peer_workflow : String → Wf (Unit {0})
  unfolding on_gateways allowed_ips_of
  create_wireguard_peer_workflow id = do
    update_status e "wireguard_peers" id provisioning none
    (peer, (tenant, shards)) ← locate_peer id
    or_failed e "wireguard_peers" id (require_shards tenant.cluster_id shards)
    allowed_ips ← allowed_ips_of tenant
    on_gateways id (codes "configure peer on gateway: ")
        (configure_wireguard_peer (record {
          public_key = peer.public_key;
          preshared_key = peer.preshared_key;
          assigned_ip = peer.assigned_ip;
          allowed_ips = allowed_ips;
        }))
        shards
    update_status e "wireguard_peers" id active none

  -- Without a gateway shard there is nothing to remove.
  unfoldable pub delete_wireguard_peer_workflow : String → Wf (Unit {0})
  unfolding on_gateways
  delete_wireguard_peer_workflow id = do
    update_status e "wireguard_peers" id deleting none
    (peer, (tenant, shards)) ← locate_peer id
    on_gateways id (codes "remove peer from gateway: ")
        (remove_wireguard_peer peer.public_key peer.assigned_ip) shards
    update_status e "wireguard_peers" id deleted none

module _ (e : Env) {table id : String} where
  Quiet-require_shards : (c : String) (ss : List Shard) → Quiet table id (require_shards c ss)
  Quiet-require_shards c [] = search lifecycle
  Quiet-require_shards c (s ∷ ss) = search lifecycle

  Silent-shard_ips : (t : Tenant) (ss : List Shard) → Silent table id (shard_ips e t ss)
  unfolding shard_ips
  Silent-shard_ips t [] = Silent-pure _
  Silent-shard_ips t (s ∷ ss) =
      Silent-bind _ _ (Silent-attempt _ (Quiet-ask _ _))
        λ ns. Silent-bind _ _ (Silent-shard_ips t ss) λ rest. Silent-pure _

  Silent-role_ips : (t : Tenant) (roles : List String) → Silent table id (role_ips e t roles)
  unfolding role_ips
  Silent-role_ips t [] = Silent-pure _
  Silent-role_ips t (r ∷ rs) = Silent-bind _ _ (Silent-attempt _ (Quiet-ask _ _)) λ ss.
      Silent-bind _ _ (Silent-shard_ips t _)
        λ here. Silent-bind _ _ (Silent-role_ips t rs) λ rest. Silent-pure _

module _ (e : Env) (id : String) where
  Guarded-on_gateways :
      UpdatesSucceed e "wireguard_peers" id
      → (p : Bytes) (a : NodeActivity) (ss : List Shard)
      → Guarded "wireguard_peers" id (on_gateways e id p a ss)
  unfolding on_gateways
  Guarded-on_gateways u p a [] = Guarded-Silent e "wireguard_peers" id u _ (Silent-pure tt)
  Guarded-on_gateways u p a (s ∷ ss) =
      Guarded-bind e "wireguard_peers" id u _ _ (search lifecycle) λ ns.
        Guarded-bind e "wireguard_peers" id u _ _ (search lifecycle) λ errs.
          Guarded-bind e "wireguard_peers" id u _ _ (search lifecycle)
            λ _. Guarded-on_gateways u p a ss

  -- If the updates of the peer's status succeed, then whatever the other activities answer, creation
  -- ends with the row `active` and no message when it returns no error, deletion with the row gone,
  -- and each with `failed` and the error's text when it returns an error, also where only some of the
  -- gateways were reached.
  pub wireguard_peer_workflows_settle :
      UpdatesSucceed e "wireguard_peers" id
      → (w : World)
      → let (r₁, w₁) = create_wireguard_peer_workflow e id w in
        let (r₂, w₂) = delete_wireguard_peer_workflow e id w in
        let old = w.rows "wireguard_peers" id in
        Settled "wireguard_peers" id active old r₁ (w₁.rows "wireguard_peers" id)
        × Settled "wireguard_peers" id deleted old r₂ (w₂.rows "wireguard_peers" id)
  unfolding create_wireguard_peer_workflow delete_wireguard_peer_workflow locate_peer allowed_ips_of
  wireguard_peer_workflows_settle u w =
      let p : Settles "wireguard_peers" id active (create_wireguard_peer_workflow e id) =
        search (lifecycle, Quiet-require_shards, Silent-role_ips, Guarded-on_gateways) depth 25 fits
          9000 in
      let q : Settles "wireguard_peers" id deleted (delete_wireguard_peer_workflow e id) =
        search (lifecycle, Guarded-on_gateways) depth 25 fits 9000 in
      (p.at w, q.at w)
