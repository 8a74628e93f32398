-- ===== src/Agent/Egress.antt =====
-- The egress rules of a tenant (internal/agent/tenant_ula.go).
use hosting.Common.{
  ℕ, String, Bytes, codes, List, [], ◌∷◌, ◌++◌, any, ◌==◌, if◌then◌else◌, is_empty,
}
use hosting.Common.Ascii.{contains}
use hosting.Common.Decimal.{decimal}
use hosting.Agent.Shell.{Command, Host, Sh, pure, run, must, nft, nft_script, words, ◌>>=◌, ◌>>◌}
use hosting.Agent.TenantUla.{NftStep, nft_steps}

abbrev pub egress_steps : List NftStep
egress_steps =
    (words "add table inet tenant_egress", "create egress table")
    ∷ (
      words "add chain inet tenant_egress output"
          ++ (codes "{ type filter hook output priority 1 ; policy accept ; }" ∷ []),
      "create egress output chain",
    )
    ∷ []

-- `tenant_%d`
unfoldable pub chain_name : ℕ → Bytes
chain_name uid = codes "tenant_" ++ decimal uid

abbrev pub addr_match : Bytes → Bytes
addr_match cidr = if any (λ c. c == b':') cidr then codes "ip6 daddr" else codes "ip daddr"

unfoldable pub accept_rule : Bytes → Bytes → Bytes
accept_rule chain cidr =
    codes "add rule inet tenant_egress "
    ++ (chain ++ (codes " " ++ (addr_match cidr ++ (codes " " ++ (cidr ++ codes " accept\n")))))

unfoldable pub reject_rule : Bytes → Bytes
reject_rule chain = codes "add rule inet tenant_egress " ++ (chain ++ codes " reject\n")

-- The script: an accept rule for each CIDR, then the reject.
unfoldable pub egress_script : Bytes → List Bytes → Bytes
unfolding accept_rule reject_rule
egress_script chain [] = reject_rule chain
egress_script chain (cidr ∷ cidrs) = accept_rule chain cidr ++ egress_script chain cidrs

abbrev pub chain_command : String → Bytes → Command
chain_command verb chain = nft (codes verb ∷ words "chain inet tenant_egress" ++ (chain ∷ []))

unfoldable pub jump_rule : ℕ → Bytes
jump_rule uid =
    codes "add rule inet tenant_egress output meta skuid "
    ++ (decimal uid ++ (codes " jump " ++ (chain_name uid ++ codes "\n")))

abbrev pub list_command : Command
list_command = nft (words "list chain inet tenant_egress output")

module _ (host : Host) where
  -- Both errors are dropped.
  unfoldable pub remove_egress_chain : Bytes → Sh (Unit {0})
  remove_egress_chain chain = do
    _ ← run host (chain_command "flush" chain)
    _ ← run host (chain_command "delete" chain)
    pure tt

  -- `Ensure jump rule exists`: the listing's own error is dropped.
  unfoldable pub ensure_jump : ℕ → Sh (Unit {0})
  unfolding contains
  ensure_jump uid = do
    out ← run host list_command
    if contains out.output (codes "jump " ++ chain_name uid)
        then pure tt
        else must host (codes "nft add jump rule") (nft_script (jump_rule uid))

  -- The part of `SyncEgressRules` for a tenant that has rules.
  unfoldable pub fill_chain : ℕ → List Bytes → Sh (Unit {0})
  unfolding ensure_jump
  fill_chain uid rules = do
    let chain = chain_name uid
    must host (codes "nft add egress chain") (chain_command "add" chain)
    must host (codes "nft flush egress chain") (chain_command "flush" chain)
    must host (codes "nft add egress rules") (nft_script (egress_script chain rules))
    ensure_jump uid

  -- The rules are the CIDRs of `model.TenantEgressRule`.
  unfoldable pub sync_egress_rules : ℕ → List Bytes → Sh (Unit {0})
  unfolding remove_egress_chain fill_chain nft_steps
  sync_egress_rules uid rules = do
    nft_steps host egress_steps
    if is_empty rules then remove_egress_chain (chain_name uid) else fill_chain uid rules
