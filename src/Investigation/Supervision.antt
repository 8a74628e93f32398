-- ===== src/Investigation/Supervision.antt =====
-- `InvestigateIncidentWorkflow` and `escalateOnFailure` (internal/workflow/incident_agent.go).
use hosting.Common.{
  ℕ, Bytes, codes, is_text, Option, none, some, List, [], ◌∷◌, ◌++◌, if◌then◌else◌,
}
use hosting.Common.Result.{Result, ok, err}
use hosting.Investigation.Turns.{Agents, Task, Investigated, investigate_incident}

-- The result of the workflow, and the reasons of the calls of `EscalateIncident`.
pub record Supervised : Type 0 where
  pub result : Result Investigated
  pub escalations : List Bytes

-- After the activity that investigates.
unfoldable pub supervise : Result Investigated → Supervised
supervise (err e) = record {
  result = err e;
  escalations = (codes "Investigation activity failed: " ++ e) ∷ [];
}
supervise (ok i) = record {
  result = ok i;
  escalations =
      if is_text "max_turns" i.outcome
      then codes "Agent reached maximum investigation turns without resolving or escalating" ∷ []
      else [];
}

-- What the activity returns: an error of its own, or that of a worker that is lost or too slow.
abbrev pub unless_lost : Option Bytes → Result Investigated → Result Investigated
unless_lost none r = r
unless_lost (some e) r = err e

-- By the context that was assembled, and whether the worker is lost.
unfoldable pub investigate_incident_workflow : Agents → ℕ → Option Bytes → Result Task → Supervised
investigate_incident_workflow a max_turns lost (err e) = record {
  result = err e;
  escalations = (codes "Failed to assemble context: " ++ e) ∷ [];
}
investigate_incident_workflow a max_turns lost (ok t) =
    let (r, c) = investigate_incident a max_turns t in supervise (unless_lost lost r)
