-- ===== src/Ula/Address.antt =====
-- internal/core/ula.go. Shard indices, user ids and ports are not negative.
use Prim.Native.Nat.{bit_xor}
use text.Mathlib.Text.{◌==◌ as str_eq}
use hosting.Common.{
  ℕ, ◌+◌, ◌*◌, ◌%◌, ◌^◌, String, Bytes, codes, [], ◌∷◌, ◌++◌, any, ◌==◌, if◌then◌else◌,
}
use hosting.Common.Decimal.{decimal}
use hosting.Ula.Hex.{hex}

-- `fnv.New32a`: the offset basis and the prime of 32-bit FNV-1a.
fnv_from : ℕ → Bytes → ℕ
fnv_from h [] = h
fnv_from h (c ∷ s) = fnv_from (bit_xor h c * 16777619 % 2 ^ 32) s

unfoldable pub fnv_32a : Bytes → ℕ
unfolding fnv_from
fnv_32a s = fnv_from 2166136261 s

unfoldable pub compute_cluster_hash : Bytes → ℕ
unfolding fnv_32a
compute_cluster_hash cluster_id = fnv_32a cluster_id % 0xffff

-- `fd00:%x:%x::%x`
unfoldable pub ula_text : ℕ → ℕ → ℕ → Bytes
ula_text cluster_hash index uid =
    codes "fd00:" ++ (hex cluster_hash ++ (codes ":" ++ (hex index ++ (codes "::" ++ hex uid))))

unfoldable pub compute_tenant_ula : Bytes → ℕ → ℕ → Bytes
unfolding ula_text
compute_tenant_ula cluster_id node_shard_index tenant_uid =
    ula_text (compute_cluster_hash cluster_id) node_shard_index tenant_uid

abbrev pub transit_offset_web : ℕ
transit_offset_web = 0

abbrev pub transit_offset_database : ℕ
transit_offset_database = 256

abbrev pub transit_offset_valkey : ℕ
transit_offset_valkey = 512

abbrev pub transit_offset_gateway : ℕ
transit_offset_gateway = 768

abbrev pub gateway_shard_index : ℕ
gateway_shard_index = 0xffff

unfoldable pub transit_index : String → ℕ → ℕ
transit_index shard_role shard_index =
    if str_eq shard_role "database"
    then transit_offset_database + shard_index
    else if str_eq shard_role "valkey"
    then transit_offset_valkey + shard_index
    else if str_eq shard_role "gateway"
    then transit_offset_gateway + shard_index
    else transit_offset_web + shard_index

-- `fd00:%x:ffff::%x`
unfoldable pub compute_wireguard_client_ip : Bytes → ℕ → Bytes
compute_wireguard_client_ip cluster_id peer_index =
    codes "fd00:" ++ (hex (compute_cluster_hash cluster_id) ++ (codes ":ffff::" ++ hex peer_index))

unfoldable pub format_daemon_proxy_url : Bytes → ℕ → Bytes
format_daemon_proxy_url target_ip port =
    if any (λ c. c == b':') target_ip
    then codes "http://[" ++ (target_ip ++ (codes "]:" ++ decimal port))
    else codes "http://" ++ (target_ip ++ (codes ":" ++ decimal port))
