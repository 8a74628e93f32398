-- ===== src/Agent/Sound.antt =====
-- The agent on a host whose commands do not fail (internal/agent/tenant_ula.go).
use hosting.Common.{
  ℕ, ◌≡◌, refl, ap, ◌∙◌, Bool, inl, inr, Bool-cases, Bytes, codes, none, List, [], ◌∷◌, ◌++◌,
}
use hosting.Common.Ascii.{contains}
use hosting.Common.Decimal.{decimal}
use hosting.Common.Result.{ok}
use hosting.Agent.Shell.{
  Command, Host, Shell, Sh, after, run, must, nft, nft_script, continue, ◌>>=◌, ◌>>◌,
}
use hosting.Agent.TenantUla.{
  TenantUlaInfo, NftStep, table_steps, binding_script, nft_steps, ensure_table_once, ensure_table,
  configure, unless, is_addr_already_exists, addr_command, binding_command, ula_of,
}
use hosting.Agent.Applied.{ensure_table_first}
use hosting.Agent.Egress.{
  egress_steps, chain_name, egress_script, chain_command, jump_rule, list_command,
  remove_egress_chain, ensure_jump, fill_chain, sync_egress_rules,
}

bind_ok :
    {A B : Type 0} (m : Sh A) (f : A → Sh B) (s : Shell) (a : A)
    → (m s).0 ≡ ok a
    → (m >>= f) s ≡ f a (m s).1
unfolding ◌>>=◌
bind_ok m f s a h = ap (λ r. continue r f (m s).1) h

module _ (host : Host) (sound : (n : ℕ) (c : Command) → (host n c).failure ≡ none) where
  must_sound : (what : Bytes) (c : Command) (s : Shell) → must host what c s ≡ (ok tt, after c s)
  unfolding must run ◌>>=◌
  must_sound what c s = rw (sound s.count c) refl

  unless_sound :
      (test : Bytes → Bool) (what : Bytes) (c : Command) (n : ℕ) (s : Shell)
      → unless test what (host n c) s ≡ (ok tt, s)
  unless_sound test what c n s = rw (sound n c) refl

  then_sound :
      (what : Bytes) (c : Command) (k : Sh (Unit {0})) (s : Shell)
      → (must host what c >> k) s ≡ k (after c s)
  then_sound what c k s =
      bind_ok (must host what c) (λ _. k) s tt (ap (λ x. x.0) (must_sound what c s))
      ∙ ap (λ x. k x.1) (must_sound what c s)

  nft_steps_sound : (steps : List NftStep) (s : Shell) → (nft_steps host steps s).0 ≡ ok tt
  unfolding nft_steps
  nft_steps_sound [] s = refl
  nft_steps_sound ((args, desc) ∷ steps) s =
      ap (λ x. x.0) (then_sound (codes "nft " ++ codes desc) (nft args) (nft_steps host steps) s)
      ∙ nft_steps_sound steps (after (nft args) s)

  ensure_jump_sound : (uid : ℕ) (s : Shell) → (ensure_jump host uid s).0 ≡ ok tt
  unfolding ensure_jump run ◌>>=◌
  ensure_jump_sound uid s =
      let out = host s.count list_command in
      elim (Bool-cases (contains out.output (codes "jump " ++ chain_name uid))) [
        | inl e ↦ rw e refl
        | inr e ↦ rw e (
            ap (λ x. x.0)
              (must_sound (codes "nft add jump rule") (nft_script (jump_rule uid))
                (after list_command s)))
      ]

  fill_chain_sound :
      (uid : ℕ) (rules : List Bytes) (s : Shell) → (fill_chain host uid rules s).0 ≡ ok tt
  unfolding fill_chain
  fill_chain_sound uid rules s =
      let chain = chain_name uid in
      let c1 = chain_command "add" chain in
      let c2 = chain_command "flush" chain in
      let c3 = nft_script (egress_script chain rules) in
      let k3 = ensure_jump host uid in
      let k2 = must host (codes "nft add egress rules") c3 >> k3 in
      let k1 = must host (codes "nft flush egress chain") c2 >> k2 in
      ap (λ x. x.0)
        (then_sound (codes "nft add egress chain") c1 k1 s
          ∙ then_sound (codes "nft flush egress chain") c2 k2 (after c1 s)
          ∙ then_sound (codes "nft add egress rules") c3 k3 (after c2 (after c1 s)))
      ∙ ensure_jump_sound uid (after c3 (after c2 (after c1 s)))

  -- If no command fails, the synchronisation of a tenant's egress rules reports no error.
  pub sync_egress_rules_succeeds :
      (uid : ℕ) (rules : List Bytes) (s : Shell) → (sync_egress_rules host uid rules s).0 ≡ ok tt
  unfolding sync_egress_rules remove_egress_chain run ◌>>=◌
  sync_egress_rules_succeeds uid [] s =
      ap (λ x. x.0) (bind_ok (nft_steps host egress_steps) _ s tt (nft_steps_sound egress_steps s))
  sync_egress_rules_succeeds uid (r ∷ rs) s =
      ap (λ x. x.0) (bind_ok (nft_steps host egress_steps) _ s tt (nft_steps_sound egress_steps s))
      ∙ fill_chain_sound uid (r ∷ rs) (nft_steps host egress_steps s).1

  table_once_sound : (s : Shell) → (ensure_table_once host s).0 ≡ ok tt
  unfolding ensure_table_once
  table_once_sound s =
      let t = (nft_steps host table_steps s).1 in
      ap (λ x. x.0) (bind_ok (nft_steps host table_steps) _ s tt (nft_steps_sound table_steps s))
      ∙ ap (λ x. x.0) (must_sound (codes "nft flush+rule") (nft_script binding_script) t)

  -- If no command fails and no attempt to make the table was made before, the configuration of a
  -- tenant reports no error.
  pub configure_succeeds :
      (info : TenantUlaInfo) (s : Shell) → s.table ≡ none → (configure host info s).0 ≡ ok tt
  unfolding configure run ◌>>=◌
  configure_succeeds info s n =
      let q : (ensure_table host s).0 ≡ ok tt =
        ap (λ x. x.0) (ensure_table_first host s n) ∙ table_once_sound s in
      let t = (ensure_table host s).1 in
      let add = addr_command "add" (ula_of info) in
      let bind = binding_command "add" (ula_of info) info.tenant_uid in
      let what_add = codes "ip addr add " ++ ula_of info in
      let what_bind =
        codes "nft add element " ++ (ula_of info ++ (codes " . " ++ decimal info.tenant_uid)) in
      let k = must host what_bind bind in
      let u = unless_sound is_addr_already_exists what_add add t.count (after add t) in
      ap (λ x. x.0) (bind_ok (ensure_table host) _ s tt q)
      ∙ ap (λ x. x.0)
          (bind_ok (unless is_addr_already_exists what_add (host t.count add)) (λ _. k)
            (after add t) tt (ap (λ x. x.0) u))
      ∙ ap (λ x. (k x.1).0) u
      ∙ ap (λ x. x.0) (must_sound what_bind bind (after add t))
