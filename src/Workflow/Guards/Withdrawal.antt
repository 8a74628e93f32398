-- ===== src/Workflow/Guards/Withdrawal.antt =====
-- Rules for a deletion that marks its row deleted before its last calls.
use mathlib.Core.Path.{subst}
use hosting.Common.{String, ◌≡◌, ◌∙◌, Option, none, some, ◌⊎◌, inl, inr}
use hosting.Workflow.Temporal.{
  Result, ok, err, failed, deleting, deleted, Row, updated_row, Env, World, Wf, continue,
  update_status, ◌>>=◌, ◌>>◌,
}
use hosting.Workflow.Helpers.{or_failed, settle}
use hosting.Workflow.Guards.{Quiet, Guarded, GuardedPost}
use hosting.Workflow.Guards.Rules.{
  UpdatesSucceed, covered_failed, opens_deleting, update_status_lem,
}

-- The row is gone, or an error came before that and stands in it.
abbrev pub Withdrawn : Option Row → Result (Unit {0}) → Option Row → Type 0
Withdrawn old (ok _) new = new ≡ none
Withdrawn old (err text) new = (new ≡ none) ⊎ (new ≡ updated_row failed (some text) old)

pub record Withdraws (table id : String) (m : Wf (Unit {0})) : Type 0 where
  pub at : (w : World) → Withdrawn (w.rows table id) (m w).0 ((m w).1.rows table id)

Withdrawn-of_none :
    (old : Option Row) {new : Option Row} (r : Result (Unit {0})) → new ≡ none → Withdrawn old r new
Withdrawn-of_none old (ok a) h = h
Withdrawn-of_none old (err text) h = inl h

Withdrawn-covered :
    (old new : Option Row) (r : Result (Unit {0}))
    → Withdrawn (updated_row deleting none old) r new
    → Withdrawn old r new
Withdrawn-covered old new (ok a) h = h
Withdrawn-covered old new (err text) (inl h) = inl h
Withdrawn-covered old new (err text) (inr h) = inr (h ∙ covered_failed text opens_deleting old)

module _ (e : Env) (table id : String) (u : UpdatesSucceed e table id) where
  pub Withdraws-start :
      (m : Wf (Unit {0}))
      → Withdraws table id m
      → Withdraws table id (update_status e table id deleting none >> m)
  unfolding ◌>>=◌
  Withdraws-start m h = record {
    at = λ w.
        let p = update_status_lem e table id u deleting none w in
        let v = (update_status e table id deleting none w).1 in
        rw p.0 (
          Withdrawn-covered (w.rows table id) _ _
            (subst (λ row. Withdrawn row (m v).0 ((m v).1.rows table id)) p.1 (h.at v)));
  }

  pub Withdraws-bind :
      {A : Type 0} (m : Wf A) (f : A → Wf (Unit {0}))
      → Guarded table id m
      → ((a : A) → Withdraws table id (f a))
      → Withdraws table id (m >>= f)
  unfolding ◌>>=◌
  Withdraws-bind {A} m f gm wf = record {
    at = λ w. let (r, w') = m w in go (w.rows table id) r w' (gm.at w);
  }
    where
      go :
          (old : Option Row) (r : Result A) (w : World)
          → GuardedPost table id old r (w.rows table id)
          → Withdrawn old (continue r f w).0 ((continue r f w).1.rows table id)
      go old (ok a) w h =
          subst (λ o. Withdrawn o (f a w).0 ((f a w).1.rows table id)) h ((wf a).at w)
      go old (err text) w h = inr h

  pub Withdraws-mark :
      (m : Wf (Unit {0}))
      → Quiet table id m
      → Withdraws table id (update_status e table id deleted none >> m)
  unfolding ◌>>=◌
  Withdraws-mark m q = record {
    at = λ w.
        let p = update_status_lem e table id u deleted none w in
        let v = (update_status e table id deleted none w).1 in
        rw p.0 (Withdrawn-of_none _ _ (q.at v ∙ p.1));
  }

  pub Withdraws-mark_failed :
      (m : Wf (Unit {0}))
      → Quiet table id m
      → Withdraws table id (or_failed e table id (update_status e table id deleted none) >> m)
  unfolding ◌>>=◌ or_failed settle
  Withdraws-mark_failed m q = record {
    at = λ w.
        let p = update_status_lem e table id u deleted none w in
        let v = (update_status e table id deleted none w).1 in
        rw p.0 (Withdrawn-of_none _ _ (q.at v ∙ p.1));
  }

pub ruleset withdrawal = (Withdraws-start, Withdraws-bind, Withdraws-mark, Withdraws-mark_failed)
