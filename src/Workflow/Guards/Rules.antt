-- ===== src/Workflow/Guards/Rules.antt =====
-- Rules for the calls that may fail a resource, and for a whole life cycle.
use mathlib.Core.Path.{subst}
use text.Mathlib.TextPositions.{eq_refl}
use hosting.Common.{String, Bytes, ℕ, ◌≡◌, refl, ◌∙◌, Option, none, some, arith}
use hosting.Workflow.Temporal.{
  Result, ok, err, Status, provisioning, active, failed, deleting, deleted, Row, updated_row, write,
  Rows, update_resource_status, Env, World, Wf, continue, attempt, update_status, ◌>>=◌, ◌>>◌,
}
use hosting.Workflow.Helpers.{
  or_failed, settle, set_resource_failed, record_incident, failure_incident,
}
use hosting.Workflow.Guards.{Quiet, Silent, Guarded, GuardedPost, Settled, Settles}
use hosting.Workflow.Guards.Helpers.{Quiet-record_incident}

-- The status updates of this one resource succeed.
abbrev pub UpdatesSucceed : Env → String → String → Type 0
UpdatesSucceed e table id =
    (t : ℕ) (s : Status) (message : Option Bytes)
    → e.done t (update_resource_status table id s message) ≡ ok tt

write_self : (rows : Rows) (t i : String) (row : Option Row) → write rows t i row t i ≡ row
write_self rows t i row = simp eq_refl

state-continue :
    {A B : Type 0} (r : Result A) (v : Result B) (w : World) → (continue r (λ a u. (v, u)) w).1 ≡ w
state-continue (ok a) v w = refl
state-continue (err text) v w = refl

-- A first status that the later ones cover.
pub data IsOpening : Status → Type 0 where
  opens_provisioning : IsOpening provisioning
  opens_deleting : IsOpening deleting

pub data IsGoal : Status → Type 0 where
  goal_active : IsGoal active
  goal_deleted : IsGoal deleted

pub covered :
    {s goal : Status}
    → IsOpening s
    → IsGoal goal
    → (old : Option Row)
    → updated_row goal none (updated_row s none old) ≡ updated_row goal none old
covered opens_provisioning goal_active old = ground arith
covered opens_provisioning goal_deleted old = ground arith
covered opens_deleting goal_active old = ground arith
covered opens_deleting goal_deleted old = ground arith

pub covered_failed :
    {s : Status} (text : Bytes)
    → IsOpening s
    → (old : Option Row)
    → updated_row failed (some text) (updated_row s none old) ≡ updated_row failed (some text) old
covered_failed text opens_provisioning old = ground arith
covered_failed text opens_deleting old = ground arith

module _ (e : Env) (table id : String) (succeed : UpdatesSucceed e table id) where
  pub update_status_lem :
      (s : Status) (message : Option Bytes) (w : World)
      → ((update_status e table id s message w).0 ≡ ok tt)
        × ((update_status e table id s message w).1.rows table id
            ≡ updated_row s message (w.rows table id))
  unfolding update_status
  update_status_lem s message w =
      rw (succeed w.clock s message, update_status) (refl, write_self w.rows table id _)

  pub set_resource_failed_lem :
      (text : Bytes) (w : World)
      → (set_resource_failed e table id text w).1.rows table id
        ≡ updated_row failed (some text) (w.rows table id)
  unfolding set_resource_failed ◌>>=◌ attempt
  set_resource_failed_lem text w =
      let (r, u) = update_status e table id failed (some text) w in
      let (s, v) = record_incident e (failure_incident e table id text) u in
      rw (state-continue s r v) (
        (Quiet-record_incident e (failure_incident e table id text)).at u
        ∙ (update_status_lem failed (some text) w).1)

  module _ {A : Type 0} where
    Guarded-settle : (r : Result A) → Guarded table id (settle e table id r)
    unfolding settle
    Guarded-settle (ok a) = record { at = λ w. refl }
    Guarded-settle (err text) = record { at = λ w. set_resource_failed_lem text w }

    post_transport :
        {old old' : Option Row} (r : Result A) (new : Option Row)
        → old' ≡ old
        → GuardedPost table id old' r new
        → GuardedPost table id old r new
    post_transport r new p h = subst (λ o. GuardedPost table id o r new) p h

    pub Guarded-or_failed :
        (m : Wf A) → Quiet table id m → Guarded table id (or_failed e table id m)
    unfolding or_failed
    Guarded-or_failed m q = record {
      at = λ w.
          let (r, w') = m w in
          post_transport (settle e table id r w').0 _ (q.at w) ((Guarded-settle r).at w');
    }

    pub Guarded-Silent : (m : Wf A) → Silent table id m → Guarded table id m
    Guarded-Silent m s = record { at = λ w. rw ((s.value w).1) (s.at w) }

  module _ {A B : Type 0} where
    Guarded-continue :
        (old : Option Row) (r : Result A) (f : A → Wf B) (w : World)
        → ((a : A) → Guarded table id (f a))
        → GuardedPost table id old r (w.rows table id)
        → GuardedPost table id old (continue r f w).0 ((continue r f w).1.rows table id)
    Guarded-continue old (ok a) f w g h = post_transport _ _ h ((g a).at w)
    Guarded-continue old (err text) f w g h = h

    pub Guarded-bind :
        (m : Wf A) (f : A → Wf B)
        → Guarded table id m
        → ((a : A) → Guarded table id (f a))
        → Guarded table id (m >>= f)
    unfolding ◌>>=◌
    Guarded-bind m f gm gf = record {
      at = λ w. let (r, w') = m w in Guarded-continue (w.rows table id) r f w' gf (gm.at w);
    }

  Settled-covered :
      {s goal : Status}
      → IsOpening s
      → IsGoal goal
      → (old new : Option Row) (r : Result (Unit {0}))
      → Settled table id goal (updated_row s none old) r new
      → Settled table id goal old r new
  Settled-covered o g old new (ok tt) h = h ∙ covered o g old
  Settled-covered o g old new (err text) h = h ∙ covered_failed text o old

  pub Settles-start :
      (s goal : Status) (m : Wf (Unit {0}))
      → IsOpening s
      → IsGoal goal
      → Settles table id goal m
      → Settles table id goal (update_status e table id s none >> m)
  unfolding ◌>>=◌
  Settles-start s goal m o g h = record {
    at = λ w.
        let p = update_status_lem s none w in
        let u = (update_status e table id s none w).1 in
        rw p.0 (
          Settled-covered o g (w.rows table id) _ _ (
            subst (λ row. Settled table id goal row (m u).0 ((m u).1.rows table id)) p.1 (h.at u)));
  }

  pub Settles-bind :
      {A : Type 0} (goal : Status) (m : Wf A) (f : A → Wf (Unit {0}))
      → Guarded table id m
      → ((a : A) → Settles table id goal (f a))
      → Settles table id goal (m >>= f)
  unfolding ◌>>=◌
  Settles-bind {A} goal m f gm sf = record {
    at = λ w. let (r, w') = m w in go (w.rows table id) r w' (gm.at w);
  }
    where
      go :
          (old : Option Row) (r : Result A) (w : World)
          → GuardedPost table id old r (w.rows table id)
          → Settled table id goal old (continue r f w).0 ((continue r f w).1.rows table id)
      go old (ok a) w h =
          subst (λ o. Settled table id goal o (f a w).0 ((f a w).1.rows table id)) h ((sf a).at w)
      go old (err text) w h = h

  pub Settles-finish : (goal : Status) → Settles table id goal (update_status e table id goal none)
  Settles-finish goal = record { at = λ w. let p = update_status_lem goal none w in rw p.0 p.1 }

  pub Settles-finish_then :
      (goal : Status) (m : Wf (Unit {0}))
      → Silent table id m
      → Settles table id goal (update_status e table id goal none >> m)
  unfolding ◌>>=◌
  Settles-finish_then goal m s = record {
    at = λ w.
        let p = update_status_lem goal none w in
        let u = (update_status e table id goal none w).1 in
        rw p.0 (rw (s.value u).1 (s.at u ∙ p.1));
  }

  -- A call that fails the resource, and the rest of its life cycle.
  pub Settles-step :
      {A : Type 0} (goal : Status) (m : Wf A) (f : A → Wf (Unit {0}))
      → Quiet table id m
      → ((a : A) → Settles table id goal (f a))
      → Settles table id goal (or_failed e table id m >>= f)
  Settles-step goal m f q h = Settles-bind goal _ f (Guarded-or_failed m q) h

  -- A call whose error is dropped.
  pub Settles-skip :
      {A : Type 0} (goal : Status) (m : Wf A) (f : A → Wf (Unit {0}))
      → Silent table id m
      → ((a : A) → Settles table id goal (f a))
      → Settles table id goal (m >>= f)
  Settles-skip goal m f s h = Settles-bind goal m f (Guarded-Silent m s) h
