-- ===== src/Tests/Turns.antt =====
-- Investigations at concrete inputs.
use hosting.Common.{◌≤◌, ◌≡◌, ◌⊎◌, refl, codes, none, [], ◌∷◌, length}
use hosting.Common.Result.{Result, ok, err}
use hosting.Investigation.Turns.{
  ToolCall, Message, Investigated, Agents, Task, investigate_incident,
}
use hosting.Investigation.Supervision.{investigate_incident_workflow}
use hosting.Investigation.Terminal.{IsReached}
use hosting.Investigation.Outcomes.{
  IsClosed, investigate_incident-bounded, workflow-escalates, failed_call-resolves,
}

abbrev resolve_call : ToolCall
resolve_call = record { id = codes "c1"; name = codes "resolve_incident"; arguments = codes "{}" }

abbrev resolving : Message
resolving = record {
  role = codes "assistant";
  content = [];
  tool_calls = resolve_call ∷ [];
  tool_call_id = [];
}

-- A model that resolves at once, with tools that fail.
abbrev hasty : Agents
hasty = record {
  chat = λ k ms. ok (resolving ∷ []);
  execute = λ done call. err (codes "503");
  admin_messages = λ turn. [];
  parse_resolution = λ s. none;
}

abbrev disk_full : Task
disk_full = record {
  incident_json = codes "{}";
  system_prompt = codes "Investigate.";
  hints = [];
  kind = codes "disk_pressure";
  title = codes "Disk full";
}

investigate_incident-bounded_example :
    ((investigate_incident hasty 3 disk_full).1.chats ≤ 3)
    × IsClosed 3 (investigate_incident hasty 3 disk_full).0
investigate_incident-bounded_example = investigate_incident-bounded hasty 3 disk_full

workflow-escalates_example :
    (1 ≤ length (investigate_incident_workflow hasty 3 none (ok disk_full)).escalations)
    ⊎ ((t : Task) × (i : Investigated) × (Result.ok disk_full ≡ ok t)
        × ((investigate_incident_workflow hasty 3 none (ok disk_full)).result ≡ ok i)
        × IsReached i.outcome (investigate_incident hasty 3 t).1.history)
workflow-escalates_example = workflow-escalates hasty 3 none (ok disk_full)

failed_call-resolves_example :
    (i : Investigated) × ((investigate_incident hasty 3 disk_full).0 ≡ ok i)
    × (i.outcome ≡ codes "resolved")
    × (i.turns ≡ 1)
failed_call-resolves_example =
    failed_call-resolves hasty 2 disk_full resolving resolve_call (λ k ms. refl) refl refl
