-- ===== src/Agent/Written.antt =====
-- The texts that internal/agent/tenant_ula.go builds, compared with the wanted command lines.
use hosting.Common.{
  ℕ, ◌≡◌, refl, sym, ap, ◌∙◌, inl, inr, false, Bytes, codes, is_text, Option, some, List, [], ◌∷◌,
  ◌++◌, map, any, Bool-cases,
}
use mathlib.Core.List.{append_assoc, append-nil}
use hosting.Common.Ascii.{split}
use hosting.Common.TextLaws.{bytes_eq_iff}
use hosting.Ula.Hex.{hex}
use hosting.Agent.Shell.{ip, words}
use hosting.Agent.Routes.{
  UlaRoutePeer, route_command, transit_command, word_after_dev, transit_addr, route_prefix,
}
use hosting.Agent.Egress.{chain_name, accept_rule, reject_rule, egress_script}
use hosting.Agent.Wanted.{transit_line, route_line, rules_for, rule_texts}

-- The interface stands behind the first `dev` that is not the last word.
abbrev pub IsBehindDev : Bytes → List Bytes → Type 0
IsBehindDev iface ps =
    (front : List Bytes) × (rest : List Bytes) × (ps ≡ front ++ (codes "dev" ∷ iface ∷ rest))
    × (any (is_text "dev") front ≡ false)

pub word_after_dev-IsBehindDev :
    (ps : List Bytes) {iface : Bytes} → word_after_dev ps ≡ some iface → IsBehindDev iface ps
unfolding word_after_dev
word_after_dev-IsBehindDev [] h = cc
word_after_dev-IsBehindDev (p ∷ []) h = cc
word_after_dev-IsBehindDev (p ∷ q ∷ ps) {iface} h = elim (Bool-cases (is_text "dev" p)) [
  | inl y ↦
      let e : Option.some q ≡ some iface = rw y at h in
      let e' : q ≡ iface = cc in
      (
        [],
        ps,
        ap (λ x. x ∷ q ∷ ps) ((bytes_eq_iff p (codes "dev")).0 y)
            ∙ ap (λ x. codes "dev" ∷ x ∷ ps) e',
        refl,
      )
  | inr n ↦
      let (front, rest, e, lacks) = word_after_dev-IsBehindDev (q ∷ ps) (rw n at h) in
      (p ∷ front, rest, ap (λ l. p ∷ l) e, rw n lacks)
]

transit_written :
    (h index : ℕ) (iface : Bytes) → transit_command h index iface ≡ transit_line h index iface
unfolding transit_addr split
transit_written h index iface =
    ap (λ x. ip (words "-6 addr add" ++ ((codes "fd00:" ++ x) ∷ codes "dev" ∷ iface ∷ [])))
      (append_assoc (hex h) (codes ":0::" ++ hex index) (codes "/64"))

route_written : (h : ℕ) (peer : UlaRoutePeer) → route_command h peer ≡ route_line h peer
unfolding route_command route_prefix transit_addr split
route_written h peer = refl

routes_written :
    (h : ℕ) (peers : List UlaRoutePeer) → map (route_command h) peers ≡ map (route_line h) peers
routes_written h [] = refl
routes_written h (p ∷ ps) =
    ap (λ c. c ∷ map (route_command h) ps) (route_written h p)
    ∙ ap (λ l. route_line h p ∷ l) (routes_written h ps)

pub lines_written :
    (h index : ℕ) (iface : Bytes) (peers : List UlaRoutePeer)
    → transit_command h index iface ∷ map (route_command h) peers
      ≡ transit_line h index iface ∷ map (route_line h) peers
lines_written h index iface peers =
    ap (λ c. c ∷ map (route_command h) peers) (transit_written h index iface)
    ∙ ap (λ l. transit_line h index iface ∷ l) (routes_written h peers)

pub script_written :
    (uid : ℕ) (cidrs : List Bytes)
    → egress_script (chain_name uid) cidrs ≡ rule_texts uid (rules_for cidrs)
unfolding egress_script accept_rule reject_rule chain_name
script_written uid [] = sym (append-nil _)
script_written uid (cidr ∷ cidrs) =
    ap (λ t. accept_rule (chain_name uid) cidr ++ t) (script_written uid cidrs)
