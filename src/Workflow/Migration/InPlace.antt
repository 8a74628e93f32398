-- ===== src/Workflow/Migration/InPlace.antt =====
-- A migration of a database to the shard that it is in.
use mathlib.Core.List.{append_assoc, append-nil}
use hosting.Common.{ℕ, String, Bytes, ◌≡◌, refl, sym, ◌∙◌, ap, Option, some, List, [], ◌∷◌, ◌++◌}
use hosting.Workflow.Temporal.{
  Result, ok, active, Database, DatabaseUser, Node, delete_database, import_mysql_database, Call,
  on_node, Env, World, ask, call, ignore,
}
use hosting.Workflow.Helpers.{or_failed, wrap}
use hosting.Workflow.Nodes.{first_or}
use hosting.Workflow.Migration.{
  migrate_database_workflow, locate_migration, import_and_switch, migrate_database_users,
  migrate_path,
}
use hosting.Workflow.Reach.{
  Answers, bind-ok, or_failed-ok, wrap-ok, required-ok, update_status-trace,
}

first_or-ok :
    (text : Bytes) (ns : List Node) (w : World) {n : Node}
    → (first_or text ns w).0 ≡ ok n
    → (rest : List Node) × (ns ≡ n ∷ rest)
first_or-ok text [] w h = cc
first_or-ok text (m ∷ ns) w h = let p : m ≡ _ = cc in (ns, ap (λ x. x ∷ ns) p)

-- A call whose error fails the database, behind a text.
step-trace :
    (e : Env) (id : String) (text : Bytes) (c : Call) (w : World) {x : Unit {0}}
    → (wrap text (or_failed e "databases" id (call e c)) w).0 ≡ ok x
    → (wrap text (or_failed e "databases" id (call e c)) w).1.trace ≡ w.trace ++ (c ∷ [])
unfolding call ask
step-trace e id text c w h =
    let (p, q) = wrap-ok text _ w h in
    let (p', q') = or_failed-ok e "databases" id _ w p in ap (λ v. v.1.trace) (q ∙ q')

users-trace :
    (e : Env) (id d n : String) (us : List DatabaseUser) (w : World) {x : Unit {0}}
    → (migrate_database_users e id d n us w).0 ≡ ok x
    → (cs : List Call) × ((migrate_database_users e id d n us w).1.trace ≡ w.trace ++ cs)
unfolding migrate_database_users
users-trace e id d n [] w h = ([], sym (append-nil w.trace))
users-trace e id d n (u ∷ us) w h =
    let (y, p, q, r) = bind-ok _ _ w h in
    let (cs, t) = users-trace e id d n us _ q in
    (
      _,
      ap (λ v. v.1.trace) r
          ∙ t
          ∙ ap (λ l. l ++ cs) (step-trace e id _ _ w p)
          ∙ append_assoc w.trace _ cs,
    )

snocs :
    (m : List Call) (a b c d : Call)
    → (((m ++ (a ∷ [])) ++ (b ∷ [])) ++ (c ∷ [])) ++ (d ∷ []) ≡ m ++ (a ∷ b ∷ c ∷ d ∷ [])
snocs [] a b c d = refl
snocs (x ∷ m) a b c d = ap (λ l. x ∷ l) (snocs m a b c d)

chain :
    (t₁ t₂ t₃ t₄ t₅ : List Call) (imported listed moved a b c d : Call) (cs : List Call)
    → t₂ ≡ t₁ ++ (imported ∷ [])
    → t₃ ≡ t₂ ++ (listed ∷ [])
    → t₄ ≡ t₃ ++ cs
    → t₅ ≡ t₄ ++ (moved ∷ [])
    → (((t₅ ++ (a ∷ [])) ++ (b ∷ [])) ++ (c ∷ [])) ++ (d ∷ [])
      ≡ ((t₁ ++ (imported ∷ [])) ++ ((listed ∷ cs) ++ (moved ∷ []))) ++ (a ∷ b ∷ c ∷ d ∷ [])
chain t₁ t₂ t₃ t₄ t₅ imported listed moved a b c d cs p q r s =
    let before = t₁ ++ (imported ∷ []) in
    rw (s, r, q, p)
      (snocs _ a b c d
        ∙ ap (λ l. l ++ (a ∷ b ∷ c ∷ d ∷ []))
            (ap (λ l. l ++ (moved ∷ [])) (append_assoc before (listed ∷ []) cs)
              ∙ append_assoc before (listed ∷ cs) (moved ∷ [])))

-- The calls from the import on, where they return no error.
import_and_switch-trace :
    (e : Env) (id target : String) (d : Database) (s t : Node) (w : World)
    → (import_and_switch e id target d s t w).0 ≡ ok tt
    → (middle : List Call) × (after : List Call) × ((import_and_switch e id target d s t w).1.trace
        ≡ ((w.trace
              ++ (on_node t.id (import_mysql_database d.id (migrate_path d.id ".sql.gz")) ∷ []))
            ++ middle)
          ++ (on_node s.id (delete_database d.id) ∷ after))
unfolding import_and_switch ask call ignore
import_and_switch-trace e id target d s t w h =
    let (_, p₁, h₁, q₁) = bind-ok _ _ w h in
    let (users, p₂, h₂, q₂) = bind-ok _ _ _ h₁ in
    let (_, p₃, h₃, q₃) = bind-ok _ _ _ h₂ in
    let (_, p₄, h₄, q₄) = bind-ok _ _ _ h₃ in
    let (_, p₅, h₅, q₅) = bind-ok _ _ _ h₄ in
    let (_, p₆, h₆, q₆) = bind-ok _ _ _ h₅ in
    let (_, p₇, h₇, q₇) = bind-ok _ _ _ h₆ in
    let (k₂, r₂) = wrap-ok _ _ _ p₂ in
    let (_, r₂') = or_failed-ok e "databases" id _ _ k₂ in
    let (_, r₄) = or_failed-ok e "databases" id _ _ p₄ in
    let (cs, users_trace) = users-trace e id d.id t.id users _ p₃ in
    (
      _,
      _,
      ap (λ v. v.1.trace) (q₁ ∙ q₂ ∙ q₃ ∙ q₄ ∙ q₅ ∙ q₆ ∙ q₇)
          ∙ update_status-trace e "databases" id active _
          ∙ chain w.trace _ _ _ _ _ _ _ _ _ _ _ cs (step-trace e id _ _ w p₁)
              (ap (λ v. v.1.trace) (r₂ ∙ r₂')) users_trace (ap (λ v. v.1.trace) r₄),
    )

-- The same where both nodes are one.
in_place-trace :
    (e : Env) (id target : String) (d : Database) (s t : Node) (w : World)
    → s ≡ t
    → (import_and_switch e id target d s t w).0 ≡ ok tt
    → (middle : List Call) × (after : List Call) × ((import_and_switch e id target d s t w).1.trace
        ≡ ((w.trace
              ++ (on_node t.id (import_mysql_database d.id (migrate_path d.id ".sql.gz")) ∷ []))
            ++ middle)
          ++ (on_node t.id (delete_database d.id) ∷ after))
in_place-trace e id target d s t w same h =
    let (middle, after, calls) = import_and_switch-trace e id target d s t w h in
    let front =
      (w.trace ++ (on_node t.id (import_mysql_database d.id (migrate_path d.id ".sql.gz")) ∷ []))
      ++ middle in
    (middle, after, calls ∙ ap (λ m. front ++ (on_node m.id (delete_database d.id) ∷ after)) same)

same_nodes :
    (f g : String → Result (List Node)) (o : Option String) (xs ys : List Node)
    (shard target : String)
    → o ≡ some target
    → o ≡ some shard
    → f target ≡ g target
    → f shard ≡ ok xs
    → g target ≡ ok ys
    → xs ≡ ys
same_nodes f g o xs ys shard target h h' q p p' =
    let e : shard ≡ target = cc in let e' : f shard ≡ f target = ap f e in cc

same_node :
    (m n : Node) (ms ns rest rest' : List Node) → ms ≡ ns → ms ≡ m ∷ rest → ns ≡ n ∷ rest' → m ≡ n
same_node m n ms ns rest rest' h p q = cc

located :
    (f : ℕ → Result Database) (k : ℕ) (x y : Database × (Node × Node))
    → f k ≡ ok x.0
    → x.1.0 ≡ x.1.1
    → Result.ok x ≡ ok y
    → Answers f y.0 × (y.1.0 ≡ y.1.1)
located f k x y h same p =
    let q : x ≡ y = cc in
    ((k, h ∙ ap (λ z. ok (z.0)) q), sym (ap (λ z. z.1.0) q) ∙ (same ∙ ap (λ z. z.1.1) q))

module _ (e : Env) (id target : String)
    (in_shard : (t : ℕ) (d : Database) → e.database_by_id t id ≡ ok d → d.shard_id ≡ some target)
    (stable : (t t' : ℕ) → e.nodes_by_shard t target ≡ e.nodes_by_shard t' target) where
  locate_migration-ok :
      (w : World) (d : Database) (s t : Node)
      → (locate_migration e id target w).0 ≡ ok (d, (s, t))
      → Answers (λ k. e.database_by_id k id) d × (s ≡ t)
  unfolding locate_migration ask
  locate_migration-ok w d s t h =
      let (d', p₁, h₁, q₁) = bind-ok _ _ w h in
      let (shard, p₂, h₂, q₂) = bind-ok _ _ _ h₁ in
      let (sources, p₃, h₃, q₃) = bind-ok _ _ _ h₂ in
      let (s', p₄, h₄, q₄) = bind-ok _ _ _ h₃ in
      let (targets, p₅, h₅, q₅) = bind-ok _ _ _ h₄ in
      let (t', p₆, h₆, q₆) = bind-ok _ _ _ h₅ in
      let (k₁, _) = or_failed-ok e "databases" id _ _ p₁ in
      let (k₂, _) = or_failed-ok e "databases" id _ _ p₂ in
      let (k₃, _) = or_failed-ok e "databases" id _ _ p₃ in
      let (k₄, _) = or_failed-ok e "databases" id _ _ p₄ in
      let (k₅, _) = or_failed-ok e "databases" id _ _ p₅ in
      let (k₆, _) = or_failed-ok e "databases" id _ _ p₆ in
      let (rest, a) = first_or-ok _ sources _ k₄ in
      let (rest', a') = first_or-ok _ targets _ k₆ in
      let same : s' ≡ t' =
        same_node s' t' sources targets rest rest'
          (same_nodes (e.nodes_by_shard _) (e.nodes_by_shard _) d'.shard_id sources targets shard
            target (in_shard _ d' k₁) ((required-ok d'.shard_id _ _ k₂).0) (stable _ _) k₃ k₅)
          a a' in
      located (λ k. e.database_by_id k id) _ (d', (s', t')) (d, (s, t)) k₁ same h₆

  -- If the target shard is the one that the database is in, and its nodes are listed alike each time,
  -- then a migration that returns no error has dropped the database on the very node that it imported
  -- it on, after the import.
  pub migrate_in_place_drops :
      (w : World)
      → (migrate_database_workflow e id target w).0 ≡ ok tt
      → (d : Database) × (n : Node) × (before : List Call) × (middle : List Call) × (after : List
          Call)
        × Answers (λ t. e.database_by_id t id) d
        × ((migrate_database_workflow e id target w).1.trace
            ≡ ((before
                  ++ (on_node n.id (import_mysql_database d.id (migrate_path d.id ".sql.gz")) ∷ []))
                ++ middle)
              ++ (on_node n.id (delete_database d.id) ∷ after))
  unfolding migrate_database_workflow
  migrate_in_place_drops w h =
      let (_, p₀, h₀, q₀) = bind-ok _ _ w h in
      let ((d, (s, t)), p₁, h₁, q₁) = bind-ok _ _ _ h₀ in
      let (_, p₂, h₂, q₂) = bind-ok _ _ _ h₁ in
      let (_, p₃, h₃, q₃) = bind-ok _ _ _ h₂ in
      let (answer, same) = locate_migration-ok _ d s t p₁ in
      let (middle, after, calls) = in_place-trace e id target d s t _ same h₃ in
      (d, t, _, middle, after, answer, ap (λ v. v.1.trace) (q₀ ∙ q₁ ∙ q₂ ∙ q₃) ∙ calls)
