-- ===== src/Workflow/Reach.antt =====
-- What a workflow that returns no error has called.
use mathlib.Core.List.{append_assoc, append-nil}
use hosting.Common.{
  ℕ, String, Bytes, ◌≡◌, refl, sym, ◌∙◌, ap, none, some, Option, List, [], ◌∷◌, ◌++◌, map,
}
use hosting.Workflow.Temporal.{
  Result, ok, err, Status, active, update_resource_status, SshKey, Tenant, Node, NodeActivity,
  sync_ssh_keys, Call, on_node, Env, World, Wf, continue, ask, call, update_status, ◌>>=◌,
}
use hosting.Workflow.Helpers.{or_failed, settle, wrap, wrapped}
use hosting.Workflow.Nodes.{on_each_node}
use hosting.Workflow.SshKey.{public_keys_of, add_ssh_key_workflow}
use hosting.Workflow.Database.{required}

-- The answer of an activity at some time.
abbrev pub Answers : {A : Type 0} → (ℕ → Result A) → A → Type 0
Answers f a = (t : ℕ) × (f t ≡ ok a)

module _ {A B : Type 0} where
  continue-ok :
      (r : Result A) (f : A → Wf B) (w : World) {b : B}
      → (continue r f w).0 ≡ ok b
      → (a : A) × (r ≡ ok a) × ((f a w).0 ≡ ok b) × (continue r f w ≡ f a w)
  continue-ok (ok a) f w h = (a, refl, h, refl)
  continue-ok (err text) f w h = cc

  pub bind-ok :
      (m : Wf A) (f : A → Wf B) (w : World) {b : B}
      → ((m >>= f) w).0 ≡ ok b
      → (a : A) × ((m w).0 ≡ ok a) × ((f a (m w).1).0 ≡ ok b) × ((m >>= f) w ≡ f a (m w).1)
  unfolding ◌>>=◌
  bind-ok m f w h = let (r, v) = m w in continue-ok r f v h

wrapped-ok :
    {A : Type 0} (text : Bytes) (r : Result A) {a : A}
    → wrapped text r ≡ ok a
    → (r ≡ ok a) × (wrapped text r ≡ r)
wrapped-ok text (ok a) h = (h, refl)
wrapped-ok text (err t) h = cc

pub wrap-ok :
    {A : Type 0} (text : Bytes) (m : Wf A) (w : World) {a : A}
    → (wrap text m w).0 ≡ ok a
    → ((m w).0 ≡ ok a) × (wrap text m w ≡ m w)
unfolding wrap
wrap-ok text m w h = let (p, q) = wrapped-ok text (m w).0 h in (p, ap (λ r. (r, (m w).1)) q)

module _ (e : Env) (table id : String) where
  settle-ok :
      {A : Type 0} (r : Result A) (w : World) {a : A}
      → (settle e table id r w).0 ≡ ok a
      → (r ≡ ok a) × (settle e table id r w ≡ (r, w))
  unfolding settle
  settle-ok (ok a) w h = (h, refl)
  settle-ok (err text) w h = cc

  pub or_failed-ok :
      {A : Type 0} (m : Wf A) (w : World) {a : A}
      → (or_failed e table id m w).0 ≡ ok a
      → ((m w).0 ≡ ok a) × (or_failed e table id m w ≡ m w)
  unfolding or_failed
  or_failed-ok m w h = let (r, v) = m w in settle-ok r v h

  -- The trace of an update of a status, whether it succeeds or not.
  pub update_status-trace :
      (s : Status) (w : World)
      → (update_status e table id s none w).1.trace
        ≡ w.trace ++ (update_resource_status table id s none ∷ [])
  unfolding update_status
  update_status-trace s w = go _ refl
    where
      go :
          (r : Result (Unit {0}))
          → e.done w.clock (update_resource_status table id s none) ≡ r
          → (update_status e table id s none w).1.trace
            ≡ w.trace ++ (update_resource_status table id s none ∷ [])
      go (ok x) p = rw (update_status, p) refl
      go (err text) p = rw (update_status, p) refl

  -- A loop over nodes that returns no error has called each, in their order, and nothing else.
  pub on_each_node-ok :
      (a : NodeActivity) (ns : List Node) (w : World) {x : Unit {0}}
      → (on_each_node e table id a ns w).0 ≡ ok x
      → (on_each_node e table id a ns w).1.trace ≡ w.trace ++ map (λ n. on_node n.id a) ns
  unfolding on_each_node call ask
  on_each_node-ok a [] w h = sym (append-nil w.trace)
  on_each_node-ok a (n ∷ ns) w h =
      let (y, p, q, r) = bind-ok _ _ w h in
      let (p', r') = or_failed-ok _ w p in
      rw r (
        on_each_node-ok a ns _ q
        ∙ ap (λ v. v.1.trace ++ map (λ n. on_node n.id a) ns) r'
        ∙ append_assoc w.trace (on_node n.id a ∷ []) (map (λ n. on_node n.id a) ns))

-- The calls that hand the public keys of the given rows, and behind them the new one's, to each node.
abbrev pub sync_calls : Tenant → SshKey → List SshKey → List Node → List Call
sync_calls tenant key keys nodes =
    map
      (λ n.
        on_node n.id
          (sync_ssh_keys tenant.id (map (λ k. k.public_key) keys ++ (key.public_key ∷ []))))
      nodes

public_keys_of-map : (keys : List SshKey) → public_keys_of keys ≡ map (λ k. k.public_key) keys
unfolding public_keys_of
public_keys_of-map [] = refl
public_keys_of-map (k ∷ ks) = ap (λ l. k.public_key ∷ l) (public_keys_of-map ks)

synced :
    (e : Env) (id : String) (tenant : Tenant) (key : SshKey) (keys : List SshKey)
    (nodes : List Node) (w : World) {x : Unit {0}}
    → let sync = sync_ssh_keys tenant.id (public_keys_of keys ++ (key.public_key ∷ [])) in
      (on_each_node e "ssh_keys" id sync nodes w).0 ≡ ok x
      → (on_each_node e "ssh_keys" id sync nodes w).1.trace
        ≡ w.trace ++ sync_calls tenant key keys nodes
synced e id tenant key keys nodes w h =
    on_each_node-ok e "ssh_keys" id _ nodes w h
    ∙ ap
        (λ ks.
          w.trace
          ++ map (λ n. on_node n.id (sync_ssh_keys tenant.id (ks ++ (key.public_key ∷ [])))) nodes)
        (public_keys_of-map keys)

pub required-ok :
    {A : Type 0} (o : Option A) (text : Bytes) (w : World) {a : A}
    → (required o text w).0 ≡ ok a
    → (o ≡ some a) × (required o text w ≡ (ok a, w))
required-ok none text w h = cc
required-ok (some b) text w h = let p : b ≡ _ = cc in (ap some p, ap (λ c. (ok c, w)) p)

-- Where adding a key returns no error, then each node of the tenant's shard, as the activities
-- answered, was given the public keys of the rows that were read as the tenant's active keys, in their
-- order, with the new key behind them, as the last calls before the update of the status.
pub add_ssh_key_reaches :
    (e : Env) (id : String) (w : World)
    → let (r, w') = add_ssh_key_workflow e id w in
      r ≡ ok tt
      → (key : SshKey) × (tenant : Tenant) × (shard_id : String) × (keys : List SshKey)
        × (nodes : List Node) × (before : List Call) × Answers (λ t. e.ssh_key_by_id t id) key
        × Answers (λ t. e.tenant_by_id t key.tenant_id) tenant
        × (tenant.shard_id ≡ some shard_id)
        × Answers (λ t. e.ssh_keys_by_tenant t key.tenant_id) keys
        × Answers (λ t. e.nodes_by_shard t shard_id) nodes
        × (w'.trace
            ≡ (before ++ sync_calls tenant key keys nodes)
              ++ (update_resource_status "ssh_keys" id active none ∷ []))
unfolding add_ssh_key_workflow ask
add_ssh_key_reaches e id w h =
    let (_, p₀, h₁, q₀) = bind-ok _ _ w h in
    let (key, p₁, h₂, q₁) = bind-ok _ _ _ h₁ in
    let (tenant, p₂, h₃, q₂) = bind-ok _ _ _ h₂ in
    let (shard_id, p₃, h₄, q₃) = bind-ok _ _ _ h₃ in
    let (keys, p₄, h₅, q₄) = bind-ok _ _ _ h₄ in
    let (nodes, p₅, h₆, q₅) = bind-ok _ _ _ h₅ in
    let (_, p₆, h₇, q₆) = bind-ok _ _ _ h₆ in
    let (k₁, _) = or_failed-ok e "ssh_keys" id _ _ p₁ in
    let (k₂, _) = or_failed-ok e "ssh_keys" id _ _ p₂ in
    let (k₃, _) = or_failed-ok e "ssh_keys" id _ _ p₃ in
    let (k₄, _) = or_failed-ok e "ssh_keys" id _ _ p₄ in
    let (k₅, _) = or_failed-ok e "ssh_keys" id _ _ p₅ in
    (
      key,
      tenant,
      shard_id,
      keys,
      nodes,
      _,
      (_, k₁),
      (_, k₂),
      (required-ok tenant.shard_id _ _ k₃).0,
      (_, k₄),
      (_, k₅),
      ap (λ v. v.1.trace) (q₀ ∙ q₁ ∙ q₂ ∙ q₃ ∙ q₄ ∙ q₅ ∙ q₆)
          ∙ update_status-trace e "ssh_keys" id active _
          ∙ ap (λ t. t ++ (update_resource_status "ssh_keys" id active none ∷ []))
              (synced e id tenant key keys nodes _ p₆),
    )
