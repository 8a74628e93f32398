-- ===== src/Agent/Services.antt =====
-- What the operations on service addresses, and the removal of an address, run
-- (internal/agent/tenant_ula.go).
use mathlib.Core.List.{append_assoc}
use hosting.Common.{◌≡◌, sym, ap, ◌∙◌, codes, List, [], ◌∷◌, ◌++◌, map}
use hosting.Common.Result.{ok}
use hosting.Agent.Shell.{Command, Host, Shell, after, run, must, nft, nft_script, ◌>>=◌, pure}
use hosting.Agent.TenantUla.{
  TenantUlaInfo, ingress_steps, ingress_script, nft_steps, ensure_service_ingress_table,
  configure_service_addr, remove, remove_service_addr, is_addr_already_exists, is_addr_missing,
  addr_command, binding_command, ingress_command, ula_of,
}
use hosting.Agent.Runs.{bind-eq-ok, must_state, unless-bind-ok}
use hosting.Agent.Applied.{steps-ran}

-- What `EnsureServiceIngressTable` runs.
abbrev pub ingress_commands : List Command
ingress_commands = map (λ step. nft step.0) ingress_steps ++ (nft_script ingress_script ∷ [])

module _ (host : Host) where
  ingress_table-ran :
      (s : Shell)
      → (ensure_service_ingress_table host s).0 ≡ ok tt
      → (ensure_service_ingress_table host s).1.ran ≡ s.ran ++ ingress_commands
  unfolding ensure_service_ingress_table
  ingress_table-ran s e =
      let (a, p, q) = bind-eq-ok (nft_steps host ingress_steps) _ s e in
      let t = (nft_steps host ingress_steps s).1 in
      let script = nft_script ingress_script in
      ap (λ x. x.1.ran) q
      ∙ ap (λ x. x.ran) (must_state host (codes "nft service ingress flush+rules") script t)
      ∙ ap (λ x. x ++ (script ∷ [])) (steps-ran host ingress_steps s p)
      ∙ append_assoc s.ran (map (λ step. nft step.0) ingress_steps) (script ∷ [])

  -- Where the configuration of a service address reports no error, the commands run are, in this
  -- order, those that make the ingress table, the address, and its element of the table's set.
  pub configure_service_addr-ran :
      (info : TenantUlaInfo) (s : Shell)
      → (configure_service_addr host info s).0 ≡ ok tt
      → (configure_service_addr host info s).1.ran
        ≡ s.ran
          ++ (ingress_commands
              ++ (addr_command "add" (ula_of info) ∷ ingress_command "add" (ula_of info) ∷ []))
  unfolding configure_service_addr
  configure_service_addr-ran info s e =
      let (a, p, q) = bind-eq-ok (ensure_service_ingress_table host) _ s e in
      let t = (ensure_service_ingress_table host s).1 in
      let ula = ula_of info in
      let add = addr_command "add" ula in
      let element = ingress_command "add" ula in
      let what = codes "nft add element " ++ ula in
      let q' =
        unless-bind-ok host is_addr_already_exists (codes "ip addr add " ++ ula) add
          (must host what element) t (ap (λ x. x.0) (sym q) ∙ e) in
      ap (λ x. x.1.ran) (q ∙ q')
      ∙ ap (λ x. x.ran) (must_state host what element (after add t))
      ∙ append_assoc t.ran (add ∷ []) (element ∷ [])
      ∙ ap (λ x. x ++ (add ∷ element ∷ [])) (ingress_table-ran s p)
      ∙ append_assoc s.ran ingress_commands (add ∷ element ∷ [])

  -- Where the removal of a tenant's address, or of a service address, reports no error, the commands
  -- run are the address's removal and then that of its element, whatever becomes of the second.
  pub removals_ran :
      (info : TenantUlaInfo) (s : Shell)
      → (remove host info s).0 ≡ ok tt
      → (remove_service_addr host info s).0 ≡ ok tt
      → ((remove host info s).1.ran
          ≡ s.ran
            ++ (addr_command "del" (ula_of info)
                ∷ binding_command "delete" (ula_of info) info.tenant_uid
                ∷ []))
        × ((remove_service_addr host info s).1.ran
            ≡ s.ran
              ++ (addr_command "del" (ula_of info) ∷ ingress_command "delete" (ula_of info) ∷ []))
  unfolding remove remove_service_addr run ◌>>=◌
  removals_ran info s e f =
      let ula = ula_of info in
      let del = addr_command "del" ula in
      let binding = binding_command "delete" ula info.tenant_uid in
      let element = ingress_command "delete" ula in
      let what = codes "ip addr del " ++ ula in
      (
        ap (λ x. x.1.ran)
              (unless-bind-ok host is_addr_missing what del (do _ ← run host binding; pure tt) s e)
            ∙ append_assoc s.ran (del ∷ []) (binding ∷ []),
        ap (λ x. x.1.ran)
              (unless-bind-ok host is_addr_missing what del (do _ ← run host element; pure tt) s f)
            ∙ append_assoc s.ran (del ∷ []) (element ∷ []),
      )
