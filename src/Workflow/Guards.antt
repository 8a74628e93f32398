-- ===== src/Workflow/Guards.antt =====
-- How a part of a workflow treats the status row of one resource: rules for each way to build it.
pub mod Helpers
pub mod Rules
pub mod Withdrawal
pub mod Reports
use text.Mathlib.Text.{◌==◌ as str_eq}
use text.Mathlib.TextPositions.{eq_refl}
use hosting.Common.{
  String, Bytes, ◌≡◌, refl, sym, ◌∙◌, ap, Bool, true, false, ◌&&◌, ◌||◌, Option, none, some, List,
  [], ◌∷◌, ◌++◌, arith, if◌then◌else◌, ℕ,
}
use hosting.Workflow.Temporal.{
  Result, ok, err, Status, provisioning, active, failed, deleting, deleted, Row, updated_row, write,
  Node, ChildWorkflowSpec, Call, update_resource_status, Env, World, Wf, pure, raise, continue,
  attempt, ignore, ask, called, call, update_status, ◌>>=◌, ◌>>◌,
}
use hosting.Workflow.Helpers.{
  wrap, or_failed, set_resource_failed, record_incident, send_incident_webhook, run_each,
  fan_out_nodes, fan_out_child_workflows, db_shard_primary, failure_incident,
}

module _ (table id : String) where
  abbrev row_at : World → Option Row
  row_at w = w.rows table id

  -- The row is as it was.
  pub record Quiet {A : Type 0} (m : Wf A) : Type 0 where
    pub at : (w : World) → row_at (m w).1 ≡ row_at w

  -- So too, and no error comes out.
  pub record Silent {A : Type 0} (m : Wf A) : Type 0 where
    pub at : (w : World) → row_at (m w).1 ≡ row_at w
    pub value : (w : World) → (a : A) × ((m w).0 ≡ ok a)

  -- An error leaves `failed` and its text in the row; without one the row is as it was.
  abbrev pub GuardedPost : {A : Type 0} → Option Row → Result A → Option Row → Type 0
  GuardedPost old (ok _) new = new ≡ old
  GuardedPost old (err text) new = new ≡ updated_row failed (some text) old

  pub record Guarded {A : Type 0} (m : Wf A) : Type 0 where
    pub at : (w : World) → GuardedPost (row_at w) (m w).0 (row_at (m w).1)

  -- The row ends at `goal`, or at `failed` with the text of the error.
  abbrev pub Settled : Status → Option Row → Result (Unit {0}) → Option Row → Type 0
  Settled goal old (ok _) new = new ≡ updated_row goal none old
  Settled goal old (err text) new = new ≡ updated_row failed (some text) old

  pub record Settles (goal : Status) (m : Wf (Unit {0})) : Type 0 where
    pub at : (w : World) → Settled goal (row_at w) (m w).0 (row_at (m w).1)

module _ {table id : String} where
  module _ {A : Type 0} where
    pub Quiet-pure : (a : A) → Quiet table id (pure a)
    Quiet-pure a = record { at = λ w. refl }

    pub Quiet-raise : (text : Bytes) → Quiet table id (raise {A = A} text)
    Quiet-raise text = record { at = λ w. refl }

    pub Quiet-ask : (f : ℕ → Result A) (c : Call) → Quiet table id (ask f c)
    unfolding ask
    Quiet-ask f c = record { at = λ w. refl }

    pub Quiet-attempt : (m : Wf A) → Quiet table id m → Quiet table id (attempt m)
    unfolding attempt
    Quiet-attempt m q = record { at = q.at }

    pub Quiet-ignore : (m : Wf A) → Quiet table id m → Quiet table id (ignore m)
    unfolding ignore
    Quiet-ignore m q = record { at = q.at }

    pub Quiet-wrap : (p : Bytes) (m : Wf A) → Quiet table id m → Quiet table id (wrap p m)
    unfolding wrap
    Quiet-wrap p m q = record { at = q.at }

    pub Quiet-if :
        (b : Bool) (m n : Wf A)
        → Quiet table id m
        → Quiet table id n
        → Quiet table id (if b then m else n)
    Quiet-if true m n qm qn = qm
    Quiet-if false m n qm qn = qn

  pub Quiet-call : (e : Env) (c : Call) → Quiet table id (call e c)
  unfolding call
  Quiet-call e c = Quiet-ask _ c

  module _ {A B : Type 0} where
    Quiet-continue :
        (r : Result A) (f : A → Wf B)
        → ((a : A) → Quiet table id (f a))
        → Quiet table id (continue r f)
    Quiet-continue (ok a) f q = q a
    Quiet-continue (err text) f q = record { at = λ w. refl }

    pub Quiet-bind :
        (m : Wf A) (f : A → Wf B)
        → Quiet table id m
        → ((a : A) → Quiet table id (f a))
        → Quiet table id (m >>= f)
    unfolding ◌>>=◌
    Quiet-bind m f qm qf = record {
      at = λ w. let (r, w') = m w in (Quiet-continue r f qf).at w' ∙ qm.at w;
    }

module _ {table id : String} where
  module _ {A : Type 0} where
    pub Silent-pure : (a : A) → Silent table id (pure a)
    Silent-pure a = record { at = λ w. refl; value = λ w. (a, refl) }

    pub Silent-attempt : (m : Wf A) → Quiet table id m → Silent table id (attempt m)
    unfolding attempt
    Silent-attempt m q = record { at = q.at; value = λ w. ((m w).0, refl) }

    pub Silent-ignore : (m : Wf A) → Quiet table id m → Silent table id (ignore m)
    unfolding ignore
    Silent-ignore m q = record { at = q.at; value = λ w. (tt, refl) }

  module _ {A B : Type 0} where
    pub Silent-bind :
        (m : Wf A) (f : A → Wf B)
        → Silent table id m
        → ((a : A) → Silent table id (f a))
        → Silent table id (m >>= f)
    unfolding ◌>>=◌
    Silent-bind m f sm sf = record {
      at = λ w. let (a, p) = sm.value w in rw p ((sf a).at (m w).1 ∙ sm.at w);
      value = λ w. let (a, p) = sm.value w in rw p ((sf a).value (m w).1);
    }
