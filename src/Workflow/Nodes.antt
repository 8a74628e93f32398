-- ===== src/Workflow/Nodes.antt =====
-- The loops and guards over a shard's nodes that the workflows of internal/workflow share.
pub mod Rules
use hosting.Common.{String, Bytes, List, [], ◌∷◌, ◌++◌}
use hosting.Workflow.Temporal.{Node, NodeActivity, Env, Wf, pure, raise, call_node, ◌>>=◌, ◌>>◌}
use hosting.Workflow.Helpers.{or_failed, join_errors}
use hosting.Workflow.Guards.{
  Quiet, Quiet-pure, Quiet-raise, Quiet-call, Quiet-bind, Silent-pure, Guarded,
}
use hosting.Workflow.Guards.Rules.{UpdatesSucceed, Guarded-or_failed, Guarded-Silent, Guarded-bind}

-- `noNodesErr` where a shard has no node.
abbrev pub first_or : Bytes → List Node → Wf Node
first_or message [] = raise message
first_or message (node ∷ nodes) = pure node

-- The error of a fan-out in which some calls failed.
abbrev pub no_errors : Bytes → List Bytes → Wf (Unit {0})
no_errors prefix [] = pure tt
no_errors prefix (text ∷ texts) = raise (prefix ++ join_errors (text ∷ texts))

module _ (e : Env) (table id : String) where
  -- The loop over the nodes; the first error fails the resource and ends it.
  unfoldable pub on_each_node : NodeActivity → List Node → Wf (Unit {0})
  on_each_node a [] = pure tt
  on_each_node a (node ∷ nodes) = do
    or_failed e table id (call_node e node.id a)
    on_each_node a nodes

  -- The same loop where an error only ends it.
  unfoldable pub call_each_node : NodeActivity → List Node → Wf (Unit {0})
  call_each_node a [] = pure tt
  call_each_node a (node ∷ nodes) = do call_node e node.id a; call_each_node a nodes

  pub Quiet-call_each_node :
      (a : NodeActivity) (ns : List Node) → Quiet table id (call_each_node a ns)
  unfolding call_each_node
  Quiet-call_each_node a [] = Quiet-pure tt
  Quiet-call_each_node a (n ∷ ns) = Quiet-bind _ _ (Quiet-call e _) λ _. Quiet-call_each_node a ns

  pub Quiet-first_or : (text : Bytes) (ns : List Node) → Quiet table id (first_or text ns)
  Quiet-first_or text [] = Quiet-raise text
  Quiet-first_or text (n ∷ ns) = Quiet-pure n

  pub Quiet-no_errors : (p : Bytes) (errs : List Bytes) → Quiet table id (no_errors p errs)
  Quiet-no_errors p [] = Quiet-pure tt
  Quiet-no_errors p (text ∷ texts) = Quiet-raise _

  pub Guarded-on_each_node :
      UpdatesSucceed e table id
      → (a : NodeActivity) (ns : List Node) → Guarded table id (on_each_node a ns)
  unfolding on_each_node
  Guarded-on_each_node u a [] = Guarded-Silent e table id u _ (Silent-pure tt)
  Guarded-on_each_node u a (n ∷ ns) =
      Guarded-bind e table id u _ _ (Guarded-or_failed e table id u _ (Quiet-call e _))
        λ _. Guarded-on_each_node u a ns
