-- ===== src/Tests/Queue.antt =====
-- The incident queue on three incidents of two types.
use hosting.Common.{Bytes, codes, true, ◌≡◌, some, List, [], ◌∷◌, map}
use hosting.Common.Result.{ok}
use hosting.Investigation.Queue.{
  UnassignedIncident, QueueCall, Workers, group_by_type, process_incident_group,
  process_incident_queue_workflow,
}
use hosting.Investigation.Grouping.{group_in, types_of, group_by_type_lem}
use hosting.Investigation.Followers.{
  GroupCalls, EachGroup, process_incident_group_hints, process_incident_queue_workflow_runs,
}

abbrev incident : Bytes → Bytes → UnassignedIncident
incident id type = record { id = id; type = type; severity = codes "warning"; title = [] }

abbrev disk_1 : UnassignedIncident
disk_1 = incident (codes "i-1") (codes "disk")

abbrev cert : UnassignedIncident
cert = incident (codes "i-2") (codes "cert")

abbrev disk_2 : UnassignedIncident
disk_2 = incident (codes "i-3") (codes "disk")

abbrev incidents : List UnassignedIncident
incidents = disk_1 ∷ cert ∷ disk_2 ∷ []

abbrev all_resolved : Workers
all_resolved = record {
  claimed = λ t id. ok true;
  investigated = λ t id. ok (record {
    outcome = codes "resolved";
    turns = 1;
    summary = [];
    resolution_hint = codes "restart";
  });
}

group_by_type_lem_example : group_by_type incidents ≡ map (group_in incidents) (types_of incidents)
group_by_type_lem_example = group_by_type_lem incidents

process_incident_group_hints_example :
    (calls : List QueueCall) × (process_incident_group all_resolved
        (codes "p")
        (record { type = codes "disk"; incidents = disk_1 ∷ disk_2 ∷ [] })
      ≡ some calls)
    × GroupCalls all_resolved (codes "p") (disk_1 ∷ disk_2 ∷ []) calls
process_incident_group_hints_example =
    process_incident_group_hints all_resolved (codes "p") (codes "disk") disk_1 (disk_2 ∷ [])

process_incident_queue_workflow_runs_example :
    (calls : List (List QueueCall)) × (process_incident_queue_workflow all_resolved
        (ok (codes "p"))
        (ok incidents)
      ≡ ok (some calls))
    × EachGroup all_resolved (codes "p") incidents (types_of incidents) calls
process_incident_queue_workflow_runs_example =
    process_incident_queue_workflow_runs all_resolved (codes "p") incidents
