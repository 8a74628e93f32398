-- ===== src/Agent/Confined.antt =====
-- What a synchronisation of a tenant's egress rules runs (internal/agent/tenant_ula.go).
use hosting.Common.{
  ℕ, ◌+◌, ◌≡◌, refl, sym, ap, ◌∙◌, true, Bytes, codes, List, [], ◌∷◌, ◌++◌, map, if◌then◌else◌,
  is_empty, length, suc, arith, Bool-cases, inl, inr,
}
use mathlib.Core.List.{append_assoc}
use hosting.Common.Ascii.{has_prefix, contains, split}
use hosting.Common.Decimal.{decimal}
use hosting.Common.Result.{ok}
use hosting.Agent.Shell.{
  Command, Outcome, Host, Shell, after, run, must, nft, nft_script, ◌>>=◌, ◌>>◌,
}
use hosting.Agent.TenantUla.{NftStep, nft_steps}
use hosting.Agent.Wanted.{table_lines, egress_lines, listing_line}
use hosting.Agent.Written.{script_written}
use hosting.Agent.Runs.{bind-eq-ok, must-bind-ok, must_state}
use hosting.Agent.Applied.{steps-ran}
use hosting.Agent.Egress.{
  egress_steps, chain_name, egress_script, chain_command, jump_rule, list_command,
  remove_egress_chain, ensure_jump, fill_chain, sync_egress_rules,
}

has_prefix_left : (p q s : Bytes) → has_prefix (p ++ q) s ≡ true → has_prefix p s ≡ true
unfolding has_prefix
has_prefix_left [] q s h = refl
has_prefix_left (c ∷ p) q [] h = h
has_prefix_left (c ∷ p) q (d ∷ s) h = let ih = has_prefix_left p q s in grind arith

contains_left : (s p q : Bytes) → contains s (p ++ q) ≡ true → contains s p ≡ true
unfolding contains
contains_left [] p q h = has_prefix_left p q [] h
contains_left (c ∷ s) p q h =
    let ih = contains_left s p q in let hp = has_prefix_left p q (c ∷ s) in grind arith

-- The jump rule, where the listing does not hold its text.
abbrev pub jump_left : ℕ → Outcome → List Command
jump_left uid out =
    if contains out.output (codes "jump " ++ chain_name uid)
    then []
    else nft_script (jump_rule uid) ∷ []

-- The commands behind the ones that make the table.
abbrev egress_commands : ℕ → List Bytes → Outcome → List Command
egress_commands uid rules out =
    let chain = chain_name uid in
    if is_empty rules
    then chain_command "flush" chain ∷ chain_command "delete" chain ∷ []
    else chain_command "add" chain
      ∷ chain_command "flush" chain
      ∷ nft_script (egress_script chain rules)
      ∷ list_command
      ∷ jump_left uid out

egress_written :
    (uid : ℕ) (cidrs : List Bytes) (out : Outcome)
    → egress_commands uid cidrs out ≡ egress_lines uid cidrs out
unfolding chain_name jump_rule split
egress_written uid [] out = refl
egress_written uid (cidr ∷ cidrs) out =
    ap
      (λ script.
        chain_command "add" (chain_name uid)
        ∷ chain_command "flush" (chain_name uid)
        ∷ nft_script script
        ∷ list_command
        ∷ jump_left uid out)
      (script_written uid (cidr ∷ cidrs))

table_written : map (λ step. nft step.0) egress_steps ≡ table_lines
unfolding split
table_written = refl

module _ (host : Host) where
  ensure_jump-ran :
      (uid : ℕ) (s : Shell)
      → (ensure_jump host uid s).1.ran
        ≡ s.ran ++ (list_command ∷ jump_left uid (host s.count list_command))
  unfolding ensure_jump run ◌>>=◌
  ensure_jump-ran uid s =
      let out = host s.count list_command in
      let t = after list_command s in
      elim (Bool-cases (contains out.output (codes "jump " ++ chain_name uid))) [
        | inl e ↦ rw e refl
        | inr e ↦ rw e (
            ap (λ x. x.ran)
              (must_state host (codes "nft add jump rule") (nft_script (jump_rule uid)) t)
            ∙ append_assoc s.ran (list_command ∷ []) (nft_script (jump_rule uid) ∷ []))
      ]

  -- If the listing holds the jump to the chain of another tenant whose decimal user id begins with
  -- this one's, no jump rule is added for this tenant and no error is returned.
  pub ensure_jump_shadowed :
      (uid other : ℕ) (more : Bytes) (s : Shell)
      → decimal other ≡ decimal uid ++ more
      → contains (host s.count list_command).output (codes "jump " ++ chain_name other) ≡ true
      → ensure_jump host uid s ≡ (ok tt, after list_command s)
  unfolding ensure_jump run ◌>>=◌ chain_name
  ensure_jump_shadowed uid other more s e h =
      let out = host s.count list_command in
      let name = codes "jump " ++ codes "tenant_" in
      let q = ap (λ d. name ++ d) e in
      rw
        (contains_left out.output (name ++ decimal uid) more (ap (contains out.output) (sym q) ∙ h))
        refl

  -- The part behind the table's commands.
  filled-ran :
      (uid : ℕ) (cidr : Bytes) (cidrs : List Bytes) (s : Shell)
      → (fill_chain host uid (cidr ∷ cidrs) s).0 ≡ ok tt
      → (fill_chain host uid (cidr ∷ cidrs) s).1.ran
        ≡ s.ran ++ egress_commands uid (cidr ∷ cidrs) (host (s.count + 3) list_command)
  unfolding fill_chain
  filled-ran uid cidr cidrs s e =
      let chain = chain_name uid in
      let c1 = chain_command "add" chain in
      let c2 = chain_command "flush" chain in
      let c3 = nft_script (egress_script chain (cidr ∷ cidrs)) in
      let k3 = ensure_jump host uid in
      let k2 = must host (codes "nft add egress rules") c3 >> k3 in
      let k1 = must host (codes "nft flush egress chain") c2 >> k2 in
      let (n1, q1) = must-bind-ok host (codes "nft add egress chain") c1 k1 s e in
      let e1 = ap (λ x. x.0) (sym q1) ∙ e in
      let (n2, q2) = must-bind-ok host (codes "nft flush egress chain") c2 k2 (after c1 s) e1 in
      let e2 = ap (λ x. x.0) (sym q2) ∙ e1 in
      let s2 = after c2 (after c1 s) in
      let (n3, q3) = must-bind-ok host (codes "nft add egress rules") c3 k3 s2 e2 in
      let left = list_command ∷ jump_left uid (host (s2.count + 1) list_command) in
      let third : s.count + 1 + 1 + 1 ≡ s.count + 3 = omega arith in
      ap (λ x. x.1.ran) (q1 ∙ (q2 ∙ q3))
      ∙ ensure_jump-ran uid (after c3 s2)
      ∙ append_assoc s2.ran (c3 ∷ []) left
      ∙ append_assoc (s.ran ++ (c1 ∷ [])) (c2 ∷ []) (c3 ∷ left)
      ∙ append_assoc s.ran (c1 ∷ []) (c2 ∷ c3 ∷ left)
      ∙ ap (λ k. s.ran ++ egress_commands uid (cidr ∷ cidrs) (host k list_command)) third

  -- Behind the table's commands, for no rules and for some.
  behind-ran :
      (uid : ℕ) (rules : List Bytes) (s : Shell)
      → let rest =
          if is_empty rules
          then remove_egress_chain host (chain_name uid)
          else fill_chain host uid rules in
        (rest s).0 ≡ ok tt
        → (rest s).1.ran ≡ s.ran ++ egress_commands uid rules (host (s.count + 3) list_command)
  unfolding remove_egress_chain run ◌>>=◌
  behind-ran uid [] s e =
      append_assoc s.ran (chain_command "flush" (chain_name uid) ∷ [])
        (chain_command "delete" (chain_name uid) ∷ [])
  behind-ran uid (cidr ∷ cidrs) s e = filled-ran uid cidr cidrs s e

  steps_count :
      (steps : List NftStep) (s : Shell)
      → (nft_steps host steps s).0 ≡ ok tt
      → (nft_steps host steps s).1.count ≡ s.count + length steps
  unfolding nft_steps
  steps_count [] s e = omega arith
  steps_count ((args, desc) ∷ steps) s e =
      let (n, q) = must-bind-ok host _ (nft args) (nft_steps host steps) s e in
      let ih = steps_count steps (after (nft args) s) (ap (λ x. x.0) (sym q) ∙ e) in
      let more : s.count + 1 + length steps ≡ s.count + suc (length steps) = omega arith in
      ap (λ x. x.1.count) q ∙ ih ∙ more

  -- Where the synchronisation reports no error, the commands run are, in this order and word for word:
  -- the two that make the table; then for no rules the flush and the removal of the tenant's chain, and
  -- for some rules the chain, its flush, the script that allows each network in turn and then refuses
  -- all else, the listing, and the jump rule if what the listing printed does not hold its text.
  pub sync_egress_rules-ran :
      (uid : ℕ) (rules : List Bytes) (s : Shell)
      → (sync_egress_rules host uid rules s).0 ≡ ok tt
      → (sync_egress_rules host uid rules s).1.ran
        ≡ s.ran ++ (table_lines ++ egress_lines uid rules (host (s.count + 5) listing_line))
  unfolding sync_egress_rules split
  sync_egress_rules-ran uid rules s e =
      let (a, p, q) = bind-eq-ok (nft_steps host egress_steps) _ s e in
      let t = (nft_steps host egress_steps s).1 in
      let steps = map (λ step. nft step.0) egress_steps in
      let left = egress_commands uid rules (host (t.count + 3) list_command) in
      let out = host (s.count + 5) list_command in
      let counted = steps_count egress_steps s p in
      let fifth : t.count + 3 ≡ s.count + 5 = omega (arith, counted) in
      ap (λ x. x.1.ran) q
      ∙ behind-ran uid rules t (ap (λ x. x.0) (sym q) ∙ e)
      ∙ ap (λ x. x ++ left) (steps-ran host egress_steps s p)
      ∙ append_assoc s.ran steps left
      ∙ ap (λ k. s.ran ++ (steps ++ egress_commands uid rules (host k list_command))) fifth
      ∙ ap (λ l. s.ran ++ (steps ++ l)) (egress_written uid rules out)
      ∙ ap (λ l. s.ran ++ (l ++ egress_lines uid rules out)) table_written
