-- ===== src/Investigation/Queue.antt =====
-- `ProcessIncidentQueueWorkflow`, `groupByType` and `processIncidentGroup`
-- (internal/workflow/incident_agent.go). The semaphores only delay calls and are left out.
use hosting.Common.{
  ℕ, ◌+◌, Bool, true, false, ◌&&◌, not, Bytes, codes, bytes_eq, is_text, Option, none, some, List,
  [], ◌∷◌, ◌++◌, map, is_empty, if◌then◌else◌,
}
use hosting.Common.Result.{Result, ok, err}
use hosting.Investigation.Turns.{Investigated}

pub record UnassignedIncident : Type 0 where
  pub id : Bytes
  pub type : Bytes
  pub severity : Bytes
  pub title : Bytes

pub record IncidentGroup : Type 0 where
  pub type : Bytes
  pub incidents : List UnassignedIncident

-- A map from types to incidents.
abbrev pub ByType : Type 0
ByType = Bytes → Option (List UnassignedIncident)

-- The zero value of a missing key.
abbrev pub found : Option (List UnassignedIncident) → List UnassignedIncident
found none = []
found (some incidents) = incidents

abbrev pub is_present : Option (List UnassignedIncident) → Bool
is_present none = false
is_present (some _) = true

-- `byType[inc.Type] = append(byType[inc.Type], inc)`
abbrev pub append_to : ByType → UnassignedIncident → ByType
append_to by_type inc t =
    if bytes_eq t inc.type then some (found (by_type t) ++ (inc ∷ [])) else by_type t

abbrev pub group_of : ByType → Bytes → IncidentGroup
group_of by_type t = record { type = t; incidents = found (by_type t) }

-- The loop over the incidents, then that over the order of the types.
unfoldable pub group_loop : List UnassignedIncident → List Bytes → ByType → List IncidentGroup
group_loop [] order by_type = map (group_of by_type) order
group_loop (inc ∷ rest) order by_type =
    group_loop rest (if is_present (by_type inc.type) then order else order ++ (inc.type ∷ []))
      (append_to by_type inc)

unfoldable pub group_by_type : List UnassignedIncident → List IncidentGroup
unfolding group_loop
group_by_type incidents = group_loop incidents [] (λ t. none)

-- A call of `ClaimIncidentForAgent`, and the start of an investigation with its hints.
pub data QueueCall : Type 0 where
  claim : Bytes → QueueCall
  investigate : Bytes → Bytes → Bytes → QueueCall

-- The answers, by the number of calls that the group has made.
pub record Workers : Type 0 where
  pub claimed : ℕ → Bytes → Result Bool
  pub investigated : ℕ → Bytes → Result Investigated

-- A claim that fails is one that was not made.
abbrev pub was_claimed : Result Bool → Bool
was_claimed (ok claimed) = claimed
was_claimed (err _) = false

-- The hint that a resolved leader leaves its followers.
abbrev pub hints_of : Result Investigated → Bytes
hints_of (ok r) =
    if is_text "resolved" r.outcome && not (is_empty r.resolution_hint)
    then r.resolution_hint
    else []
hints_of (err _) = []

module _ (w : Workers) (system_prompt : Bytes) where
  -- The loop over the followers, `t` calls after the group's start.
  unfoldable pub claim_followers : Bytes → ℕ → List UnassignedIncident → List QueueCall
  claim_followers hints t [] = []
  claim_followers hints t (follower ∷ rest) =
      let started = claim_followers hints (t + 2) rest in
      let passed = claim_followers hints (t + 1) rest in
      claim follower.id
      ∷ (if was_claimed (w.claimed t follower.id)
          then investigate follower.id system_prompt hints ∷ started
          else passed)

  -- `group.Incidents[0]` panics on a group without incidents: there is no value then.
  unfoldable pub process_incident_group : IncidentGroup → Option (List QueueCall)
  unfolding claim_followers
  process_incident_group group = elim group.incidents [
    | [] ↦ none
    | leader ∷ followers ↦
        if was_claimed (w.claimed 0 leader.id)
        then some (
            claim leader.id
            ∷ investigate leader.id system_prompt []
            ∷ claim_followers (hints_of (w.investigated 1 leader.id)) 2 followers)
        else some (claim leader.id ∷ claim_followers [] 1 followers)
  ]

  -- Each group by itself, in parallel with the others.
  unfoldable pub process_groups : List IncidentGroup → Option (List (List QueueCall))
  process_groups [] = some []
  process_groups (group ∷ groups) = elim (process_incident_group group) [
    | none ↦ none
    | some calls ↦ elim (process_groups groups) [ none ↦ none | some rest ↦ some (calls ∷ rest) ]
  ]

-- By the system prompt of the configuration and the incidents that were listed.
unfoldable pub process_incident_queue_workflow :
    Workers
    → Result Bytes
    → Result (List UnassignedIncident)
    → Result (Option (List (List QueueCall)))
unfolding process_groups group_by_type
process_incident_queue_workflow w (err e) incidents = err (codes "get agent config: " ++ e)
process_incident_queue_workflow w (ok prompt) (err e) =
    err (codes "list unassigned incidents: " ++ e)
process_incident_queue_workflow w (ok prompt) (ok incidents) =
    if is_empty incidents
    then ok (some [])
    else ok (process_groups w prompt (group_by_type incidents))
