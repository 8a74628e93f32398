-- ===== src/Workflow/Guards/Reports.antt =====
-- Rules for a life cycle whose row keeps the text of its error less what stands before it.
use mathlib.Core.Path.{subst}
use mathlib.Core.List.{append_assoc}
use hosting.Common.{String, Bytes, ◌≡◌, refl, sym, ap, ◌∙◌, Option, none, some, [], ◌++◌}
use hosting.Workflow.Temporal.{
  Result, ok, err, Status, failed, Row, updated_row, Env, World, Wf, raise, continue, ignore,
  update_status, ◌>>=◌, ◌>>◌,
}
use hosting.Workflow.Helpers.{set_resource_failed, wrap, wrapped}
use hosting.Workflow.Guards.{Guarded, GuardedPost}
use hosting.Workflow.Guards.Rules.{
  UpdatesSucceed, IsOpening, IsGoal, covered, covered_failed, update_status_lem,
  set_resource_failed_lem,
}

-- The row ends at `goal`, or at `failed` with the end of the error's text.
abbrev pub Reported : Status → Option Row → Result (Unit {0}) → Option Row → Type 0
Reported goal old (ok _) new = new ≡ updated_row goal none old
Reported goal old (err text) new =
    (prefix : Bytes) × (message : Bytes) × (text ≡ prefix ++ message)
    × (new ≡ updated_row failed (some message) old)

pub record Reports (table id : String) (goal : Status) (m : Wf (Unit {0})) : Type 0 where
  pub at : (w : World) → Reported goal (w.rows table id) (m w).0 ((m w).1.rows table id)

-- An error leaves the end of its text in the row; without one the row is as it was.
abbrev MarkedPost : {A : Type 0} → Option Row → Result A → Option Row → Type 0
MarkedPost old (ok _) new = new ≡ old
MarkedPost old (err text) new =
    (prefix : Bytes) × (message : Bytes) × (text ≡ prefix ++ message)
    × (new ≡ updated_row failed (some message) old)

pub record Marks (table id : String) {A : Type 0} (m : Wf A) : Type 0 where
  pub at : (w : World) → MarkedPost (w.rows table id) (m w).0 ((m w).1.rows table id)

marked_of_guarded :
    {A : Type 0} (table id : String) (old new : Option Row) (r : Result A)
    → GuardedPost table id old r new
    → MarkedPost old r new
marked_of_guarded table id old new (ok a) h = h
marked_of_guarded table id old new (err text) h = ([], text, refl, h)

marked_wrapped :
    {A : Type 0} (text : Bytes) (old new : Option Row) (r : Result A)
    → MarkedPost old r new
    → MarkedPost old (wrapped text r) new
marked_wrapped text old new (ok a) h = h
marked_wrapped text old new (err t) (p, m, q, h) =
    (text ++ p, m, ap (λ x. text ++ x) q ∙ sym (append_assoc text p m), h)

module _ {table id : String} {A : Type 0} where
  pub Marks-of_Guarded : (m : Wf A) → Guarded table id m → Marks table id m
  Marks-of_Guarded m g = record { at = λ w. marked_of_guarded table id _ _ (m w).0 (g.at w) }

  pub Marks-wrap : (text : Bytes) (m : Wf A) → Marks table id m → Marks table id (wrap text m)
  unfolding wrap
  Marks-wrap text m g = record { at = λ w. marked_wrapped text _ _ (m w).0 (g.at w) }

module _ {table id : String} {A B : Type 0} where
  pub Marks-bind :
      (m : Wf A) (f : A → Wf B)
      → Marks table id m
      → ((a : A) → Marks table id (f a))
      → Marks table id (m >>= f)
  unfolding ◌>>=◌
  Marks-bind m f gm gf = record {
    at = λ w. let (r, w') = m w in go (w.rows table id) r w' (gm.at w);
  }
    where
      go :
          (old : Option Row) (r : Result A) (w : World)
          → MarkedPost old r (w.rows table id)
          → MarkedPost old (continue r f w).0 ((continue r f w).1.rows table id)
      go old (ok a) w h =
          subst (λ o. MarkedPost o (f a w).0 ((f a w).1.rows table id)) h ((gf a).at w)
      go old (err text) w h = h

module _ (e : Env) (table id : String) (u : UpdatesSucceed e table id) where
  Reported-covered :
      {s goal : Status}
      → IsOpening s
      → IsGoal goal
      → (old new : Option Row) (r : Result (Unit {0}))
      → Reported goal (updated_row s none old) r new
      → Reported goal old r new
  Reported-covered o g old new (ok tt) h = h ∙ covered o g old
  Reported-covered o g old new (err text) (p, m, q, h) = (p, m, q, h ∙ covered_failed m o old)

  pub Reports-start :
      (s goal : Status) (m : Wf (Unit {0}))
      → IsOpening s
      → IsGoal goal
      → Reports table id goal m
      → Reports table id goal (update_status e table id s none >> m)
  unfolding ◌>>=◌
  Reports-start s goal m o g h = record {
    at = λ w.
        let p = update_status_lem e table id u s none w in
        let v = (update_status e table id s none w).1 in
        rw p.0 (
          Reported-covered o g (w.rows table id) _ _
            (subst (λ row. Reported goal row (m v).0 ((m v).1.rows table id)) p.1 (h.at v)));
  }

  pub Reports-bind :
      {A : Type 0} (goal : Status) (m : Wf A) (f : A → Wf (Unit {0}))
      → Marks table id m
      → ((a : A) → Reports table id goal (f a))
      → Reports table id goal (m >>= f)
  unfolding ◌>>=◌
  Reports-bind {A} goal m f gm sf = record {
    at = λ w. let (r, w') = m w in go (w.rows table id) r w' (gm.at w);
  }
    where
      go :
          (old : Option Row) (r : Result A) (w : World)
          → MarkedPost old r (w.rows table id)
          → Reported goal old (continue r f w).0 ((continue r f w).1.rows table id)
      go old (ok a) w h =
          subst (λ o. Reported goal o (f a w).0 ((f a w).1.rows table id)) h ((sf a).at w)
      go old (err text) w h = h

  pub Reports-finish : (goal : Status) → Reports table id goal (update_status e table id goal none)
  Reports-finish goal = record {
    at = λ w. let p = update_status_lem e table id u goal none w in rw p.0 p.1;
  }

  pub Reports-update :
      (goal : Status) (prefix message : Bytes)
      → Reports table id goal
          (ignore (update_status e table id failed (some message)) >> raise (prefix ++ message))
  unfolding ◌>>=◌ ignore
  Reports-update goal prefix message = record {
    at = λ w. (prefix, message, refl, (update_status_lem e table id u failed (some message) w).1);
  }

  pub Reports-fail :
      (goal : Status) (prefix message : Bytes)
      → Reports table id goal
          (ignore (set_resource_failed e table id message) >> raise (prefix ++ message))
  unfolding ◌>>=◌ ignore
  Reports-fail goal prefix message = record {
    at = λ w. (prefix, message, refl, set_resource_failed_lem e table id u message w);
  }

pub ruleset reports = (
  Marks-of_Guarded, Marks-wrap, Marks-bind, Reports-start, Reports-bind, Reports-finish,
  Reports-update, Reports-fail,
)
