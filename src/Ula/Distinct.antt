-- ===== src/Ula/Distinct.antt =====
-- Which inputs share an address (internal/core/ula.go).
use hosting.Common.{
  ℕ, ◌+◌, ◌<◌, ◌≡◌, ◌≢◌, refl, sym, ap, ◌∙◌, ◌⊎◌, inl, inr, List, [], ◌∷◌, String, Bytes, codes,
  join, arith,
}
use hosting.Common.Ascii.{split}
use hosting.Common.Split.{split-join}
use hosting.Ula.Hex.{hex, hex_injective, hex-Lacks}
use hosting.Ula.Address.{
  compute_cluster_hash, ula_text, compute_tenant_ula, transit_index, gateway_shard_index,
  compute_wireguard_client_ip,
}

parts : ℕ → ℕ → ℕ → List Bytes
parts h i u = codes "fd00" ∷ hex h ∷ hex i ∷ [] ∷ hex u ∷ []

ula_text-join : (h i u : ℕ) → ula_text h i u ≡ join (b':' ∷ []) (parts h i u)
unfolding ula_text parts
ula_text-join h i u = refl

split-ula_text : (h i u : ℕ) → split b':' (ula_text h i u) ≡ parts h i u
unfolding parts
split-ula_text h i u = rw ula_text-join (
    split-join b':' (parts h i u) (λ e. cc)
      (omega arith, (hex-Lacks h, (hex-Lacks i, (tt, (hex-Lacks u, tt))))))

ula_text_injective :
    (h i u h' i' u' : ℕ) → ula_text h i u ≡ ula_text h' i' u' → (h ≡ h') × (i ≡ i') × (u ≡ u')
ula_text_injective h i u h' i' u' e =
    let q = sym (split-ula_text h i u) ∙ (ap (split b':') e ∙ split-ula_text h' i' u') in
    (
      hex_injective h h' (unfold parts in cc q),
      hex_injective i i' (unfold parts in cc q),
      hex_injective u u' (unfold parts in cc q),
    )

-- Two equal tenant addresses are of one cluster hash, one node index and one user id.
pub compute_tenant_ula_injective :
    (c c' : Bytes) (i i' u u' : ℕ)
    → compute_tenant_ula c i u ≡ compute_tenant_ula c' i' u'
    → (compute_cluster_hash c ≡ compute_cluster_hash c') × (i ≡ i') × (u ≡ u')
unfolding compute_tenant_ula
compute_tenant_ula_injective c c' i i' u u' e =
    ula_text_injective (compute_cluster_hash c) i u (compute_cluster_hash c') i' u' e

-- The address of a WireGuard peer is the tenant address of its index on the gateway's shard index.
pub wireguard_ip-ula :
    (c : Bytes) (p : ℕ)
    → compute_wireguard_client_ip c p ≡ compute_tenant_ula c gateway_shard_index p
unfolding compute_wireguard_client_ip compute_tenant_ula hex
wireguard_ip-ula c p = refl

-- A WireGuard peer's address is no tenant's address on a node whose shard index is below 0xffff,
-- in any cluster.
pub compute_wireguard_client_ip_ne_ula :
    (c c' : Bytes) (p i u : ℕ)
    → i < gateway_shard_index
    → compute_wireguard_client_ip c p ≢ compute_tenant_ula c' i u
compute_wireguard_client_ip_ne_ula c c' p i u h e =
    let q =
      compute_tenant_ula_injective c c' gateway_shard_index i p u
        (sym (wireguard_ip-ula c p) ∙ e) in
    omega (arith, q.1)

abbrev pub IsRole : String → Type 0
IsRole r = (r ≡ "web") ⊎ (r ≡ "database") ⊎ (r ≡ "valkey") ⊎ (r ≡ "gateway")

role_slot :
    (r : String)
    → IsRole r
    → (k : ℕ) × ((i : ℕ) → transit_index r i ≡ k + i)
      × (((r ≡ "web") × (k ≡ 0))
          ⊎ ((r ≡ "database") × (k ≡ 256))
          ⊎ ((r ≡ "valkey") × (k ≡ 512))
          ⊎ ((r ≡ "gateway") × (k ≡ 768)))
unfolding transit_index
role_slot r (inl e) = (0, λ i. rw e refl, inl (e, refl))
role_slot r (inr (inl e)) = (256, λ i. rw e refl, inr (inl (e, refl)))
role_slot r (inr (inr (inl e))) = (512, λ i. rw e refl, inr (inr (inl (e, refl))))
role_slot r (inr (inr (inr e))) = (768, λ i. rw e refl, inr (inr (inr (e, refl))))

-- Nodes of the four roles with shard indices below 256 share a transit index only if they have the
-- same role and the same shard index.
pub transit_index_injective :
    (r r' : String) (i j : ℕ)
    → IsRole r
    → IsRole r'
    → i < 256
    → j < 256
    → transit_index r i ≡ transit_index r' j
    → (r ≡ r') × (i ≡ j)
transit_index_injective r r' i j hr hr' hi hj e =
    let (k, f, s) = role_slot r hr in
    let (k', f', s') = role_slot r' hr' in
    let q : k + i ≡ k' + j = sym (f i) ∙ (e ∙ f' j) in ground arith
