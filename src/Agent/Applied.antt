-- ===== src/Agent/Applied.antt =====
-- What the agent has run where it reports success, and what it does after a failure.
use hosting.Common.{
  Option-cases, ℕ, ◌≡◌, refl, sym, ap, ◌∙◌, inl, inr, Bytes, codes, Option, none, some, List, [],
  ◌∷◌, ◌++◌, map,
}
use mathlib.Core.List.{append_assoc, append-nil}
use hosting.Common.Decimal.{decimal}
use hosting.Common.Ascii.{fields}
use hosting.Common.Result.{Result, ok, err}
use hosting.Ula.Address.{compute_cluster_hash}
use hosting.Agent.Shell.{
  Command, Host, Shell, after, run, must, nft, nft_script, ip, words, ◌>>=◌, succeeded,
}
use hosting.Agent.TenantUla.{
  TenantUlaInfo, NftStep, addr_command, binding_command, ula_of, is_addr_already_exists,
  table_steps, binding_script, nft_steps, ensure_table_once, ensure_table, configure,
}
use hosting.Agent.Written.{IsBehindDev, word_after_dev-IsBehindDev, lines_written}
use hosting.Agent.Wanted.{query_line, transit_line, route_line}
use hosting.Agent.Runs.{
  bind-eq-ok, bind_state, must-bind-ok, must_state, succeeded_state, unless-bind-ok,
}
use hosting.Agent.Routes.{
  UlaRoutePeer, UlaRoutesInfoV2, route_command, transit_command, add_routes,
  detect_primary_interface, configure_routes_v2, found_interface, transit_text, word_after_dev,
}

abbrev pub show_default : Command
show_default = ip (words "-4 route show default")

-- What `ensureTable` runs.
abbrev table_commands : List Command
table_commands = map (λ step. nft step.0) table_steps ++ (nft_script binding_script ∷ [])

-- What of it is left to run.
abbrev pub table_left : Option (Result (Unit {0})) → List Command
table_left none = table_commands
table_left (some r) = []

module _ (host : Host) where
  add_routes-ran :
      (h : ℕ) (peers : List UlaRoutePeer) (s : Shell)
      → (add_routes host h peers s).0 ≡ ok tt
      → (add_routes host h peers s).1.ran ≡ s.ran ++ map (route_command h) peers
  unfolding add_routes
  add_routes-ran h [] s e = sym (append-nil s.ran)
  add_routes-ran h (p ∷ ps) s e =
      let (n, q) = must-bind-ok host _ (route_command h p) (add_routes host h ps) s e in
      let ih = add_routes-ran h ps (after (route_command h p) s) (ap (λ x. x.0) (sym q) ∙ e) in
      ap (λ x. x.1.ran) q
      ∙ (ih ∙ append_assoc s.ran (route_command h p ∷ []) (map (route_command h) ps))

  found_state :
      (output : Bytes) (o : Option Bytes) (t : Shell) → (found_interface host output o t).1 ≡ t
  found_state output none t = refl
  found_state output (some iface) t = refl

  detect_state : (s : Shell) → (detect_primary_interface host s).1 ≡ after show_default s
  unfolding detect_primary_interface run ◌>>=◌
  detect_state s =
      let out = host s.count show_default in
      bind_state (succeeded (codes "detect default interface") out)
        (λ _. found_interface host out.output (word_after_dev (fields out.output)))
        (after show_default s)
        (succeeded_state (codes "detect default interface") out (after show_default s))
        (λ _ t. found_state out.output (word_after_dev (fields out.output)) t)

  found-ok :
      (output : Bytes) (o : Option Bytes) (t : Shell) {iface : Bytes}
      → (found_interface host output o t).0 ≡ ok iface
      → o ≡ some iface
  found-ok output none t h = cc
  found-ok output (some x) t h = let e : x ≡ _ = cc in ap some e

  detect-word :
      (s : Shell) {iface : Bytes}
      → (detect_primary_interface host s).0 ≡ ok iface
      → word_after_dev (fields (host s.count show_default).output) ≡ some iface
  unfolding detect_primary_interface run ◌>>=◌
  detect-word s h =
      let out = host s.count show_default in
      let (x, p, q) =
        bind-eq-ok (succeeded (codes "detect default interface") out)
          (λ _. found_interface host out.output (word_after_dev (fields out.output)))
          (after show_default s) h in
      found-ok out.output (word_after_dev (fields out.output)) _ (ap (λ v. v.0) (sym q) ∙ h)

  -- Where the route configuration reports no error, what the query for the default route printed has
  -- the word `dev` with a word behind it, which is the interface at its first such place; and the
  -- commands run are, in this order and word for word, the query, the transit address of this node on
  -- that interface, and one route replacement for each peer, in the peers' order, from the /48 of its
  -- prefix index to the transit address of its transit index.
  pub configure_routes_v2-ran :
      (info : UlaRoutesInfoV2) (s : Shell)
      → (configure_routes_v2 host info s).0 ≡ ok tt
      → let h = compute_cluster_hash info.cluster_id in
        (iface : Bytes) × IsBehindDev iface (fields (host s.count query_line).output)
        × ((configure_routes_v2 host info s).1.ran
            ≡ s.ran
              ++ (query_line
                  ∷ transit_line h info.this_transit_index iface
                  ∷ map (route_line h) info.peers))
  unfolding configure_routes_v2
  configure_routes_v2-ran info s e =
      let (iface, p, q) = bind-eq-ok (detect_primary_interface host) _ s e in
      let h = compute_cluster_hash info.cluster_id in
      let c = transit_command h info.this_transit_index iface in
      let t = (detect_primary_interface host s).1 in
      let e' = ap (λ x. x.0) (sym q) ∙ e in
      let q' =
        unless-bind-ok host is_addr_already_exists (transit_text h info.this_transit_index iface) c
          (add_routes host h info.peers) t e' in
      let ih = add_routes-ran h info.peers (after c t) (ap (λ x. x.0) (sym q') ∙ e') in
      let rest = c ∷ map (route_command h) info.peers in
      (
        iface,
        word_after_dev-IsBehindDev (fields (host s.count show_default).output) (detect-word s p),
        ap (λ x. x.1.ran) (q ∙ q')
            ∙ ih
            ∙ append_assoc t.ran (c ∷ []) (map (route_command h) info.peers)
            ∙ ap (λ x. x.ran ++ rest) (detect_state s)
            ∙ append_assoc s.ran (show_default ∷ []) rest
            ∙ ap (λ l. s.ran ++ (show_default ∷ l))
                (lines_written h info.this_transit_index iface info.peers),
      )

  pub steps-ran :
      (steps : List NftStep) (s : Shell)
      → (nft_steps host steps s).0 ≡ ok tt
      → (nft_steps host steps s).1.ran ≡ s.ran ++ map (λ step. nft step.0) steps
  unfolding nft_steps
  steps-ran [] s e = sym (append-nil s.ran)
  steps-ran ((args, desc) ∷ steps) s e =
      let (n, q) = must-bind-ok host _ (nft args) (nft_steps host steps) s e in
      let ih = steps-ran steps (after (nft args) s) (ap (λ x. x.0) (sym q) ∙ e) in
      ap (λ x. x.1.ran) q
      ∙ (ih ∙ append_assoc s.ran (nft args ∷ []) (map (λ step. nft step.0) steps))

  table_once-ran :
      (s : Shell)
      → (ensure_table_once host s).0 ≡ ok tt
      → (ensure_table_once host s).1.ran ≡ s.ran ++ table_commands
  unfolding ensure_table_once
  table_once-ran s e =
      let (a, p, q) = bind-eq-ok (nft_steps host table_steps) _ s e in
      let t = (nft_steps host table_steps s).1 in
      ap (λ x. x.1.ran) q
      ∙ ap (λ x. x.ran) (must_state host (codes "nft flush+rule") (nft_script binding_script) t)
      ∙ ap (λ x. x ++ (nft_script binding_script ∷ [])) (steps-ran table_steps s p)
      ∙ append_assoc s.ran (map (λ step. nft step.0) table_steps) (nft_script binding_script ∷ [])

  pub ensure_table_first :
      (s : Shell)
      → s.table ≡ none
      → let (r, t) = ensure_table_once host s in
        ensure_table host s ≡ (r, record t { table = some r })
  unfolding ensure_table
  ensure_table_first s e = rw e refl

  ensure_table_again :
      (s : Shell) {r : Result (Unit {0})} → s.table ≡ some r → ensure_table host s ≡ (r, s)
  unfolding ensure_table
  ensure_table_again s e = rw e refl

  -- The first call leaves its result.
  ensure_table_keeps : (s : Shell) → (ensure_table host s).1.table ≡ some (ensure_table host s).0
  ensure_table_keeps s = elim (Option-cases s.table) [
    | inl n ↦ rw (ensure_table_first s n) refl
    | inr (r, h) ↦ rw (ensure_table_again s h) h
  ]

  ensure_table-ran :
      (s : Shell)
      → (ensure_table host s).0 ≡ ok tt
      → (ensure_table host s).1.ran ≡ s.ran ++ table_left s.table
  ensure_table-ran s e = elim (Option-cases s.table) [
    | inl n ↦
        let q = ensure_table_first s n in
        ap (λ x. x.1.ran) q
        ∙ table_once-ran s (ap (λ x. x.0) (sym q) ∙ e)
        ∙ ap (λ o. s.ran ++ table_left o) (sym n)
    | inr (r, h) ↦
        ap (λ x. x.1.ran) (ensure_table_again s h)
        ∙ sym (append-nil s.ran)
        ∙ ap (λ o. s.ran ++ table_left o) (sym h)
  ]

  -- Where the configuration of a tenant reports no error, the commands run are, in this order, those
  -- that make the binding table if no call has made it yet, the tenant's address, and the binding of
  -- the address to the tenant's user id.
  pub configure-ran :
      (info : TenantUlaInfo) (s : Shell)
      → (configure host info s).0 ≡ ok tt
      → (configure host info s).1.ran
        ≡ s.ran
          ++ (table_left s.table
              ++ (addr_command "add" (ula_of info)
                  ∷ binding_command "add" (ula_of info) info.tenant_uid
                  ∷ []))
  unfolding configure
  configure-ran info s e =
      let (a, p, q) = bind-eq-ok (ensure_table host) _ s e in
      let t = (ensure_table host s).1 in
      let ula = ula_of info in
      let add = addr_command "add" ula in
      let bind = binding_command "add" ula info.tenant_uid in
      let what = codes "nft add element " ++ (ula ++ (codes " . " ++ decimal info.tenant_uid)) in
      let q' =
        unless-bind-ok host is_addr_already_exists (codes "ip addr add " ++ ula) add
          (must host what bind) t (ap (λ x. x.0) (sym q) ∙ e) in
      ap (λ x. x.1.ran) (q ∙ q')
      ∙ ap (λ x. x.ran) (must_state host what bind (after add t))
      ∙ append_assoc t.ran (add ∷ []) (bind ∷ [])
      ∙ ap (λ x. x ++ (add ∷ bind ∷ [])) (ensure_table-ran s p)
      ∙ append_assoc s.ran (table_left s.table) (add ∷ bind ∷ [])

  -- After a failure to make the binding table, the configuration of any tenant returns the same error
  -- and runs no command.
  pub configure_after_table_failure :
      (info : TenantUlaInfo) (s : Shell) (text : Bytes)
      → (ensure_table host s).0 ≡ err text
      → configure host info (ensure_table host s).1 ≡ (err text, (ensure_table host s).1)
  unfolding configure ◌>>=◌
  configure_after_table_failure info s text e =
      let q = ensure_table_again (ensure_table host s).1 (ensure_table_keeps s ∙ ap some e) in
      rw q refl
