-- ===== src/Ula/WireGuard.antt =====
-- The addresses in the WireGuard service (internal/core/wireguard_peer.go).
use hosting.Common.{
  ℕ, ◌+◌, ◌<◌, ◌≤◌, ◌≢◌, sym, ◌∙◌, String, Bytes, List, [], ◌∷◌, All, arith, leb, leb→le,
  Bool-cases, inl, inr, All-map, if◌then◌else◌,
}
use hosting.Ula.Address.{
  compute_tenant_ula, transit_index, compute_wireguard_client_ip, gateway_shard_index,
}
use hosting.Ula.Distinct.{compute_tenant_ula_injective, wireguard_ip-ula}

max_index : List ℕ → ℕ
max_index [] = 0
max_index (i ∷ is) = let rest = max_index is in if leb i rest then rest else i

-- `COALESCE(MAX(peer_index), 0) + 1` over the peers of the tenant.
unfoldable pub next_index : List ℕ → ℕ
unfolding max_index
next_index indices = max_index indices + 1

unfoldable pub assigned_ip : Bytes → List ℕ → Bytes
unfolding next_index
assigned_ip cluster_id indices = compute_wireguard_client_ip cluster_id (next_index indices)

-- The address of a service in the client's configuration.
unfoldable pub service_ula : Bytes → String → ℕ → ℕ → Bytes
unfolding compute_tenant_ula transit_index
service_ula cluster_id shard_role shard_idx tenant_uid =
    compute_tenant_ula cluster_id (transit_index shard_role shard_idx) tenant_uid

max_index_bound : (is : List ℕ) → All (λ i. i ≤ max_index is) is
unfolding max_index
max_index_bound [] = tt
max_index_bound (i ∷ is) =
    let rest = max_index is in
    let le : (i ≤ max_index (i ∷ is)) × (rest ≤ max_index (i ∷ is)) =
      elim (Bool-cases (leb i rest)) [
        | inl e ↦ rw e (leb→le i rest e, omega arith)
        | inr e ↦ rw e (omega arith, ground arith)
      ] in
    (le.0, All-map (λ j h. omega (arith, h, le.1)) is (max_index_bound is))

-- The address of a new peer is the address of none of the tenant's other peers.
pub assigned_ip_fresh :
    (c : Bytes) (is : List ℕ) → All (λ i. compute_wireguard_client_ip c i ≢ assigned_ip c is) is
unfolding assigned_ip next_index
assigned_ip_fresh c is =
    All-map
      (λ i h e.
        let q =
          compute_tenant_ula_injective c c gateway_shard_index gateway_shard_index i (next_index is)
            (sym (wireguard_ip-ula c i) ∙ (e ∙ wireguard_ip-ula c (next_index is))) in
        omega (arith, h, q.2))
      is (max_index_bound is)

-- The address of a database or Valkey service in a client's configuration is the tenant's address
-- on no node whose shard index is below 256.
pub service_ula_ne_node_ula :
    (c : Bytes) (i j u : ℕ)
    → i < 256
    → (service_ula c "database" j u ≢ compute_tenant_ula c i u)
      × (service_ula c "valkey" j u ≢ compute_tenant_ula c i u)
unfolding service_ula transit_index
service_ula_ne_node_ula c i j u h = (
  λ e. omega (arith, (compute_tenant_ula_injective c c (256 + j) i u u e).1),
  λ e. omega (arith, (compute_tenant_ula_injective c c (512 + j) i u u e).1),
)
