-- ===== src/Tests/Networks.antt =====
-- Addresses, and commands of the agent.
use hosting.Common.{
  ℕ, String, Bytes, codes, none, some, [], ◌∷◌, ◌++◌, map, All, refl, ◌≡◌, ◌≢◌, arith,
}
use hosting.Common.Text.{bytes_eq}
use hosting.Common.Result.{ok}
use hosting.Common.Decimal.{decimal}
use hosting.Common.Ascii.{contains, fields}
use hosting.Ula.Address.{compute_cluster_hash, compute_tenant_ula, compute_wireguard_client_ip}
use hosting.Ula.Distinct.{compute_tenant_ula_injective}
use hosting.Ula.WireGuard.{assigned_ip, service_ula, assigned_ip_fresh, service_ula_ne_node_ula}
use hosting.Agent.Shell.{Host, Shell, after, run, must, ◌>>=◌}
use hosting.Agent.TenantUla.{TenantUlaInfo}
use hosting.Agent.Routes.{UlaRoutesInfoV2, configure_routes_v2}
use hosting.Agent.Egress.{chain_name, list_command, ensure_jump, sync_egress_rules}
use hosting.Agent.Applied.{configure_routes_v2-ran}
use hosting.Agent.Written.{IsBehindDev}
use hosting.Agent.Wanted.{
  query_line, transit_line, route_line, table_lines, egress_lines, listing_line,
}
use hosting.Agent.Confined.{sync_egress_rules-ran, ensure_jump_shadowed}

abbrev osl : Bytes
osl = codes "osl-1"

abbrev shard_idx : ℕ
shard_idx = 2

abbrev uid : ℕ
uid = 5001

abbrev role : String
role = "database"

compute_tenant_ula_injective_example :
    (compute_cluster_hash osl ≡ compute_cluster_hash osl) × (shard_idx ≡ shard_idx) × (uid ≡ uid)
compute_tenant_ula_injective_example =
    compute_tenant_ula_injective osl osl shard_idx shard_idx uid uid refl

assigned_ip_fresh_example :
    All (λ i. compute_wireguard_client_ip osl i ≢ assigned_ip osl (2 ∷ 1 ∷ [])) (2 ∷ 1 ∷ [])
assigned_ip_fresh_example = assigned_ip_fresh osl (2 ∷ 1 ∷ [])

service_ula_ne_node_ula_example :
    (service_ula osl "database" 1 5001 ≢ compute_tenant_ula osl 1 5001)
    × (service_ula osl "valkey" 1 5001 ≢ compute_tenant_ula osl 1 5001)
service_ula_ne_node_ula_example = service_ula_ne_node_ula osl 1 1 5001 (omega arith)

-- Every command prints one text.
abbrev printing : String → Host
printing text n c = record { output = codes text; failure = none }

abbrev broken : Host
broken n c = record {
  output = codes "Operation not permitted";
  failure = some (codes "exit status 1");
}

abbrev fresh_shell : Shell
fresh_shell = record { count = 0; ran = []; table = none }

abbrev acme : TenantUlaInfo
acme = record { tenant_name = "acme"; tenant_uid = 5001; cluster_id = osl; node_shard_idx = 2 }

abbrev not_created : Bytes
not_created = codes "nft create table: Operation not permitted: exit status 1"

abbrev routes : UlaRoutesInfoV2
routes = record {
  cluster_id = osl;
  this_transit_index = 257;
  peers =
      record { prefix_index = 1; transit_index = 1 }
      ∷ record { prefix_index = 2; transit_index = 2 }
      ∷ [];
}

configure_routes_v2-ran_example :
    let host = printing "default via 192.0.2.1 dev eth0 proto dhcp" in
    let h = compute_cluster_hash osl in
    (iface : Bytes) × IsBehindDev iface (fields (host 0 query_line).output)
    × ((configure_routes_v2 host routes fresh_shell).1.ran
        ≡ [] ++ (query_line ∷ transit_line h 257 iface ∷ map (route_line h) routes.peers))
unfolding configure_routes_v2 ◌>>=◌ run bytes_eq must
configure_routes_v2-ran_example =
    configure_routes_v2-ran (printing "default via 192.0.2.1 dev eth0 proto dhcp") routes
      fresh_shell refl

sync_egress_rules-ran_example :
    (sync_egress_rules (printing "") 5001 (codes "10.0.0.0/8" ∷ []) fresh_shell).1.ran
    ≡ []
      ++ (table_lines ++ egress_lines 5001 (codes "10.0.0.0/8" ∷ []) (printing "" 5 listing_line))
unfolding sync_egress_rules ◌>>=◌ must
sync_egress_rules-ran_example =
    sync_egress_rules-ran (printing "") 5001 (codes "10.0.0.0/8" ∷ []) fresh_shell refl

ensure_jump_shadowed_example :
    ensure_jump (printing "meta skuid 50010 jump tenant_50010") 5001 fresh_shell
    ≡ (ok tt, after list_command fresh_shell)
unfolding ensure_jump decimal contains chain_name
ensure_jump_shadowed_example =
    ensure_jump_shadowed (printing "meta skuid 50010 jump tenant_50010") 5001 50010 (codes "0")
      fresh_shell refl refl
