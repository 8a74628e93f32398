-- ===== src/Workflow/FanOut.antt =====
-- What a fan-out calls (internal/workflow/helpers.go).
use Prim.Native.Nat.{min}
use mathlib.Core.List.{append_assoc, append-nil}
use mathlib.Core.List.{Permᴰ}
use mathlib.Core.List.Permᴰ as Perm
use hosting.Common.{
  ℕ, ◌≤◌, ◌≡◌, refl, sym, ap, ◌∙◌, Bytes, codes, join, List, [], ◌∷◌, ◌++◌, map, length, take,
  length-append, take_all, take-drop, drop, length-take, arith, Bool-cases, inl, inr, ltb,
}
use hosting.Workflow.Temporal.{
  Result, ok, err, Node, Call, Env, World, call, ask, attempt, called, ◌>>=◌,
}
use hosting.Workflow.Helpers.{join_errors, errors_of, run_each, fan_out_nodes}

-- The joined text is the first 4000 bytes of the errors with `; ` between them, or all of them.
pub join_errors-take :
    (errs : List Bytes)
    → join_errors errs ≡ take (min 4000 (length (join (codes "; ") errs))) (join (codes "; ") errs)
unfolding join_errors
join_errors-take errs =
    let msg = join (codes "; ") errs in
    elim (Bool-cases (ltb 4000 (length msg))) [
      | inl e ↦
          let q : min 4000 (length msg) ≡ 4000 = ground arith in rw e (ap (λ n. take n msg) (sym q))
      | inr e ↦
          let q : length msg ≤ min 4000 (length msg) = ground arith in
          rw e (sym (take_all (min 4000 (length msg)) msg q))
    ]

-- However many errors there are, their joined text has at most 4000 bytes, and it is what the errors
-- with `; ` between them begin with.
pub join_errors_bounded :
    (errs : List Bytes)
    → (length (join_errors errs) ≤ 4000)
      × ((rest : Bytes) × (join (codes "; ") errs ≡ join_errors errs ++ rest))
join_errors_bounded errs =
    let msg = join (codes "; ") errs in
    let n = min 4000 (length msg) in
    rw (join_errors-take errs)
      (ground (arith, length-take n msg), (drop n msg, sym (take-drop n msg)))

errors_of-length : {A : Type 0} (r : Result A) → length (errors_of r) ≤ 1
errors_of-length (ok a) = omega arith
errors_of-length (err text) = omega arith

module _ (e : Env) where
  run_each_calls :
      {A : Type 0} (c : A → Call) (xs : List A) (w : World)
      → ((run_each (λ x. call e (c x)) xs w).1.trace ≡ w.trace ++ map c xs)
        × ((errs : List Bytes) × ((run_each (λ x. call e (c x)) xs w).0 ≡ ok errs)
            × (length errs ≤ length xs))
  unfolding run_each call ask attempt ◌>>=◌
  run_each_calls c [] w = (sym (append-nil w.trace), ([], refl, omega arith))
  run_each_calls c (x ∷ xs) w =
      let (t, (errs, r, n)) = run_each_calls c xs (called (c x) w) in
      let one = errors_of (e.done w.clock (c x)) in
      let l = length-append one errs in
      let b = errors_of-length (e.done w.clock (c x)) in
      (rw r (t ∙ append_assoc w.trace (c x ∷ []) (map c xs)), (one ++ errs, rw r refl, omega arith))

  -- If the order in which nodes are served is a permutation of them, a fan-out of one call for each node
  -- makes every one of these calls once, whichever of them fail, and returns at most one error for each
  -- node.
  pub fan_out_nodes_reaches_all :
      (c : Node → Call) (nodes : List Node) (w : World)
      → ((k : ℕ) (ns : List Node) → Permᴰ (e.node_order k ns) ns)
      → (order : List Node) × Permᴰ order nodes
        × ((fan_out_nodes e nodes (λ n. call e (c n)) w).1.trace ≡ w.trace ++ map c order)
        × ((errs : List Bytes) × ((fan_out_nodes e nodes (λ n. call e (c n)) w).0 ≡ ok errs)
            × (length errs ≤ length order))
  unfolding fan_out_nodes call ask attempt ◌>>=◌
  fan_out_nodes_reaches_all c [] w p =
      ([], Perm.refl [], sym (append-nil w.trace), ([], refl, omega arith))
  fan_out_nodes_reaches_all c (n ∷ []) w p = (
    n ∷ [],
    Perm.refl (n ∷ []),
    refl,
    (errors_of (e.done w.clock (c n)), refl, errors_of-length (e.done w.clock (c n))),
  )
  fan_out_nodes_reaches_all c (n ∷ m ∷ ns) w p =
      let order = e.node_order w.clock (n ∷ m ∷ ns) in
      let (t, rest) = run_each_calls c order w in (order, p w.clock (n ∷ m ∷ ns), t, rest)
