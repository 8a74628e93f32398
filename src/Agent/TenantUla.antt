-- ===== src/Agent/TenantUla.antt =====
-- The tenants' addresses on a node (internal/agent/tenant_ula.go, up to line 298). Log lines are
-- left out.
use hosting.Common.{
  ℕ, String, Bool, ◌||◌, Bytes, codes, none, some, List, [], ◌∷◌, ◌++◌, if◌then◌else◌,
}
use hosting.Common.Ascii.{contains}
use hosting.Common.Decimal.{decimal}
use hosting.Common.Result.{Result}
use hosting.Ula.Address.{compute_tenant_ula}
use hosting.Agent.Shell.{
  Command, Outcome, Host, Shell, Sh, pure, raise, run, must, nft, nft_script, ip, words,
  failure_text, ◌>>=◌, ◌>>◌,
}

pub record TenantUlaInfo : Type 0 where
  pub tenant_name : String
  pub tenant_uid : ℕ
  pub cluster_id : Bytes
  pub node_shard_idx : ℕ

-- A command and what it is for.
abbrev pub NftStep : Type 0
NftStep = List Bytes × String

abbrev pub table_steps : List NftStep
table_steps =
    (words "add table ip6 tenant_binding", "create table")
    ∷ (
      words "add set ip6 tenant_binding allowed" ++ (codes "{ type ipv6_addr . uid ; }" ∷ []),
      "create set",
    )
    ∷ (
      words "add chain ip6 tenant_binding output"
          ++ (codes "{ type filter hook output priority 0 ; policy accept ; }" ∷ []),
      "create chain",
    )
    ∷ []

abbrev pub binding_script : Bytes
binding_script =
    codes
      "flush chain ip6 tenant_binding output\ntable ip6 tenant_binding {\n    chain output {\n        ip6 saddr fd00::/16 meta skuid >= 1000 ip6 saddr . meta skuid != @allowed reject\n    }\n}\n"

abbrev pub ingress_steps : List NftStep
ingress_steps =
    (words "add table ip6 tenant_service_ingress", "create table")
    ∷ (
      words "add set ip6 tenant_service_ingress ula_addrs" ++ (codes "{ type ipv6_addr ; }" ∷ []),
      "create set",
    )
    ∷ (
      words "add chain ip6 tenant_service_ingress input"
          ++ (codes "{ type filter hook input priority 0 ; policy accept ; }" ∷ []),
      "create chain",
    )
    ∷ []

abbrev pub ingress_script : Bytes
ingress_script =
    codes
      "flush chain ip6 tenant_service_ingress input\ntable ip6 tenant_service_ingress {\n    chain input {\n        ip6 daddr @ula_addrs ip6 saddr fd00::/16 accept\n        ip6 daddr @ula_addrs ip6 saddr ::1 accept\n        ip6 daddr @ula_addrs drop\n    }\n}\n"

abbrev pub ula_of : TenantUlaInfo → Bytes
ula_of info = compute_tenant_ula info.cluster_id info.node_shard_idx info.tenant_uid

-- `ip -6 addr <verb> <ula>/128 dev tenant0`
abbrev pub addr_command : String → Bytes → Command
addr_command verb ula =
    ip (words "-6 addr" ++ (codes verb ∷ (ula ++ codes "/128") ∷ words "dev tenant0"))

-- `nft <verb> element ip6 tenant_binding allowed { <ula> . <uid> }`
abbrev pub binding_command : String → Bytes → ℕ → Command
binding_command verb ula uid = nft (
    codes verb ∷ words "element ip6 tenant_binding allowed"
    ++ ((codes "{ " ++ (ula ++ (codes " . " ++ (decimal uid ++ codes " }")))) ∷ []))

-- `nft <verb> element ip6 tenant_service_ingress ula_addrs { <ula> }`
abbrev pub ingress_command : String → Bytes → Command
ingress_command verb ula = nft (
    codes verb ∷ words "element ip6 tenant_service_ingress ula_addrs"
    ++ ((codes "{ " ++ (ula ++ codes " }")) ∷ []))

unfoldable pub is_addr_already_exists : Bytes → Bool
unfolding contains
is_addr_already_exists output =
    contains output (codes "File exists") || contains output (codes "already assigned")

unfoldable pub is_addr_missing : Bytes → Bool
unfolding contains
is_addr_missing output =
    contains output (codes "Cannot assign") || contains output (codes "not found")

-- An error is passed over where the test holds of the output.
abbrev pub unless : (Bytes → Bool) → Bytes → Outcome → Sh (Unit {0})
unless test what out = elim out.failure [
  | none ↦ pure tt
  | some text ↦ if test out.output then pure tt else raise (failure_text what out.output text)
]

module _ (host : Host) where
  unfoldable pub nft_steps : List NftStep → Sh (Unit {0})
  nft_steps [] = pure tt
  nft_steps ((args, desc) ∷ steps) = do
    must host (codes "nft " ++ codes desc) (nft args)
    nft_steps steps

  unfoldable pub ensure_table_once : Sh (Unit {0})
  unfolding nft_steps
  ensure_table_once = do
    nft_steps table_steps
    must host (codes "nft flush+rule") (nft_script binding_script)

  abbrev keep_table : Result (Unit {0}) × Shell → Result (Unit {0}) × Shell
  keep_table (r, s) = (r, record s { table = some r })

  -- `tableOnce.Do`: the first call runs `ensureTable`, every later one returns what that gave.
  unfoldable pub ensure_table : Sh (Unit {0})
  unfolding ensure_table_once
  ensure_table s = elim s.table [ none ↦ keep_table (ensure_table_once s) | some r ↦ (r, s) ]

  unfoldable pub configure : TenantUlaInfo → Sh (Unit {0})
  unfolding ensure_table is_addr_already_exists
  configure info = do
    ensure_table
    let ula = ula_of info
    out ← run host (addr_command "add" ula)
    unless is_addr_already_exists (codes "ip addr add " ++ ula) out
    must host (codes "nft add element " ++ (ula ++ (codes " . " ++ decimal info.tenant_uid)))
        (binding_command "add" ula info.tenant_uid)

  unfoldable pub remove : TenantUlaInfo → Sh (Unit {0})
  unfolding is_addr_missing
  remove info = do
    let ula = ula_of info
    out ← run host (addr_command "del" ula)
    unless is_addr_missing (codes "ip addr del " ++ ula) out
    _ ← run host (binding_command "delete" ula info.tenant_uid)
    pure tt

  unfoldable pub ensure_service_ingress_table : Sh (Unit {0})
  unfolding nft_steps
  ensure_service_ingress_table = do
    nft_steps ingress_steps
    must host (codes "nft service ingress flush+rules") (nft_script ingress_script)

  unfoldable pub configure_service_addr : TenantUlaInfo → Sh (Unit {0})
  unfolding ensure_service_ingress_table is_addr_already_exists
  configure_service_addr info = do
    ensure_service_ingress_table
    let ula = ula_of info
    out ← run host (addr_command "add" ula)
    unless is_addr_already_exists (codes "ip addr add " ++ ula) out
    must host (codes "nft add element " ++ ula) (ingress_command "add" ula)

  unfoldable pub remove_service_addr : TenantUlaInfo → Sh (Unit {0})
  unfolding is_addr_missing
  remove_service_addr info = do
    let ula = ula_of info
    out ← run host (addr_command "del" ula)
    unless is_addr_missing (codes "ip addr del " ++ ula) out
    _ ← run host (ingress_command "delete" ula)
    pure tt
