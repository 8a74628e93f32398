-- ===== src/Agent/Wanted.antt =====
-- The command lines that internal/agent/tenant_ula.go is to run for routes and egress rules, written out
-- word for word beside the code, for the theorems to compare it with. What they share with the code are
-- the numerals (Common.Decimal, Ula.Hex) and the search for a text in a text.
use hosting.Common.{
  ℕ, String, Bytes, codes, none, some, List, [], ◌∷◌, ◌++◌, map, any, ◌==◌, if◌then◌else◌,
}
use hosting.Common.Ascii.{contains}
use hosting.Common.Decimal.{decimal}
use hosting.Ula.Hex.{hex}
use hosting.Agent.Shell.{Command, Outcome}
use hosting.Agent.Routes.{UlaRoutePeer}

abbrev line_of : String → List Bytes → Command
line_of program args = record { program = program; args = args; stdin = none }

-- `nft -f -` on a script
abbrev pub fed : Bytes → Command
fed script = record { program = "nft"; args = codes "-f" ∷ codes "-" ∷ []; stdin = some script }

abbrev pub query_line : Command
query_line = line_of "ip" (codes "-4" ∷ codes "route" ∷ codes "show" ∷ codes "default" ∷ [])

-- `ip -6 addr add fd00:<hash>:0::<index>/64 dev <iface>`
abbrev pub transit_line : ℕ → ℕ → Bytes → Command
transit_line hash index iface = line_of "ip" (
    codes "-6"
    ∷ codes "addr"
    ∷ codes "add"
    ∷ (codes "fd00:" ++ (hex hash ++ (codes ":0::" ++ (hex index ++ codes "/64"))))
    ∷ codes "dev"
    ∷ iface
    ∷ [])

-- `ip -6 route replace fd00:<hash>:<prefix index>::/48 via fd00:<hash>:0::<transit index>`
abbrev pub route_line : ℕ → UlaRoutePeer → Command
route_line hash peer = line_of "ip" (
    codes "-6"
    ∷ codes "route"
    ∷ codes "replace"
    ∷ (codes "fd00:" ++ (hex hash ++ (codes ":" ++ (hex peer.prefix_index ++ codes "::/48"))))
    ∷ codes "via"
    ∷ (codes "fd00:" ++ (hex hash ++ (codes ":0::" ++ hex peer.transit_index)))
    ∷ [])

-- A rule of a tenant's chain: a network that it may reach, or the refusal of all else.
pub data EgressRule : Type 0 where
  allow : Bytes → EgressRule
  refuse : EgressRule

-- The rules for the networks, in their order, then the refusal.
abbrev pub rules_for : List Bytes → List EgressRule
rules_for cidrs = map allow cidrs ++ (refuse ∷ [])

abbrev family : Bytes → Bytes
family cidr = if any (λ c. c == b':') cidr then codes "ip6 daddr" else codes "ip daddr"

abbrev pub rule_text : ℕ → EgressRule → Bytes
rule_text uid (allow cidr) =
    codes "add rule inet tenant_egress tenant_"
    ++ (decimal uid ++ (codes " " ++ (family cidr ++ (codes " " ++ (cidr ++ codes " accept\n")))))
rule_text uid refuse =
    codes "add rule inet tenant_egress tenant_" ++ (decimal uid ++ codes " reject\n")

abbrev pub rule_texts : ℕ → List EgressRule → Bytes
rule_texts uid [] = []
rule_texts uid (r ∷ rs) = rule_text uid r ++ rule_texts uid rs

-- `nft <verb> chain inet tenant_egress tenant_<uid>`
abbrev pub chain_line : String → ℕ → Command
chain_line verb uid = line_of "nft" (
    codes verb
    ∷ codes "chain"
    ∷ codes "inet"
    ∷ codes "tenant_egress"
    ∷ (codes "tenant_" ++ decimal uid)
    ∷ [])

-- The two lines that make the table and its chain.
abbrev pub table_lines : List Command
table_lines =
    line_of "nft" (codes "add" ∷ codes "table" ∷ codes "inet" ∷ codes "tenant_egress" ∷ [])
    ∷ line_of "nft" (
        codes "add"
        ∷ codes "chain"
        ∷ codes "inet"
        ∷ codes "tenant_egress"
        ∷ codes "output"
        ∷ codes "{ type filter hook output priority 1 ; policy accept ; }"
        ∷ [])
    ∷ []

abbrev pub listing_line : Command
listing_line =
    line_of "nft"
      (codes "list" ∷ codes "chain" ∷ codes "inet" ∷ codes "tenant_egress" ∷ codes "output" ∷ [])

-- The jump rule, unless the listing printed holds its text.
abbrev pub jump_lines : ℕ → Outcome → List Command
jump_lines uid listing =
    if contains listing.output (codes "jump tenant_" ++ decimal uid)
    then []
    else fed (
        codes "add rule inet tenant_egress output meta skuid "
        ++ (decimal uid ++ (codes " jump tenant_" ++ (decimal uid ++ codes "\n"))))
      ∷ []

-- What is run for a tenant's networks, by what the listing prints.
abbrev pub egress_lines : ℕ → List Bytes → Outcome → List Command
egress_lines uid [] listing = chain_line "flush" uid ∷ chain_line "delete" uid ∷ []
egress_lines uid (cidr ∷ cidrs) listing =
    chain_line "add" uid
    ∷ chain_line "flush" uid
    ∷ fed (rule_texts uid (rules_for (cidr ∷ cidrs)))
    ∷ listing_line
    ∷ jump_lines uid listing
