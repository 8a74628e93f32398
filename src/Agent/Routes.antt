-- ===== src/Agent/Routes.antt =====
-- The routes between nodes (internal/agent/tenant_ula.go).
use hosting.Common.{
  ℕ, Bytes, codes, is_text, List, [], ◌∷◌, ◌++◌, if◌then◌else◌, Option, none, some,
}
use hosting.Common.Ascii.{fields}
use hosting.Ula.Hex.{hex}
use hosting.Ula.Address.{compute_cluster_hash}
use hosting.Agent.Shell.{
  Command, Host, Sh, pure, raise, run, must, ip, words, succeeded, ◌>>=◌, ◌>>◌,
}
use hosting.Agent.TenantUla.{is_addr_already_exists, unless}

pub record UlaRoutesInfo : Type 0 where
  pub cluster_id : Bytes
  pub this_node_index : ℕ
  pub other_node_indices : List ℕ

pub record UlaRoutePeer : Type 0 where
  pub prefix_index : ℕ
  pub transit_index : ℕ

pub record UlaRoutesInfoV2 : Type 0 where
  pub cluster_id : Bytes
  pub this_transit_index : ℕ
  pub peers : List UlaRoutePeer

-- The word behind the first `dev` that is not the last word.
unfoldable pub word_after_dev : List Bytes → Option Bytes
word_after_dev [] = none
word_after_dev (p ∷ []) = none
word_after_dev (p ∷ q ∷ ps) =
    let rest = word_after_dev (q ∷ ps) in if is_text "dev" p then some q else rest

-- `fd00:%x:0::%x`
unfoldable pub transit_addr : ℕ → ℕ → Bytes
transit_addr cluster_hash index = codes "fd00:" ++ (hex cluster_hash ++ (codes ":0::" ++ hex index))

-- `fd00:%x:%x::/48`
unfoldable pub route_prefix : ℕ → ℕ → Bytes
route_prefix cluster_hash index =
    codes "fd00:" ++ (hex cluster_hash ++ (codes ":" ++ (hex index ++ codes "::/48")))

-- `ip -6 route replace <prefix> via <next hop>`
unfoldable pub route_command : ℕ → UlaRoutePeer → Command
unfolding route_prefix transit_addr
route_command h peer = ip (
    words "-6 route replace"
    ++ (route_prefix h peer.prefix_index ∷ codes "via" ∷ transit_addr h peer.transit_index ∷ []))

abbrev pub transit_command : ℕ → ℕ → Bytes → Command
transit_command h index iface =
    ip (words "-6 addr add" ++ ((transit_addr h index ++ codes "/64") ∷ codes "dev" ∷ iface ∷ []))

abbrev pub transit_text : ℕ → ℕ → Bytes → Bytes
transit_text h index iface =
    codes "ip addr add transit " ++ (transit_addr h index ++ (codes "/64 dev " ++ iface))

module _ (host : Host) where
  abbrev pub found_interface : Bytes → Option Bytes → Sh Bytes
  found_interface output none = raise (codes "could not find dev in default route: " ++ output)
  found_interface output (some iface) = pure iface

  unfoldable pub detect_primary_interface : Sh Bytes
  unfolding word_after_dev fields
  detect_primary_interface = do
    out ← run host (ip (words "-4 route show default"))
    succeeded (codes "detect default interface") out
    found_interface out.output (word_after_dev (fields out.output))

  unfoldable pub add_routes : ℕ → List UlaRoutePeer → Sh (Unit {0})
  unfolding route_command
  add_routes h [] = pure tt
  add_routes h (peer ∷ peers) = do
    must host
        (codes "ip route replace "
          ++ (route_prefix h peer.prefix_index
              ++ (codes " via " ++ transit_addr h peer.transit_index)))
        (route_command h peer)
    add_routes h peers

  unfoldable pub configure_routes_v2 : UlaRoutesInfoV2 → Sh (Unit {0})
  unfolding detect_primary_interface add_routes
  configure_routes_v2 info = do
    iface ← detect_primary_interface
    let h = compute_cluster_hash info.cluster_id
    out ← run host (transit_command h info.this_transit_index iface)
    unless is_addr_already_exists (transit_text h info.this_transit_index iface) out
    add_routes h info.peers

  -- The first version: a node's index is its prefix and its transit index.
  same_index : List ℕ → List UlaRoutePeer
  same_index [] = []
  same_index (i ∷ is) = record { prefix_index = i; transit_index = i } ∷ same_index is

  unfoldable pub configure_routes : UlaRoutesInfo → Sh (Unit {0})
  unfolding same_index configure_routes_v2
  configure_routes info = configure_routes_v2 (record {
    cluster_id = info.cluster_id;
    this_transit_index = info.this_node_index;
    peers = same_index info.other_node_indices;
  })
