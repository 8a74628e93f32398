-- ===== src/Incident/Claim.antt =====
-- The agent's claim of an incident (`ClaimIncidentForAgent` of internal/activity/agent.go), one
-- statement that tests and takes the row.
use hosting.Common.{
  ℕ, ◌≡◌, ◌≢◌, refl, ap, ◌∙◌, inl, inr, Bool, true, false, ◌&&◌, Bytes, codes, bytes_eq, is_text,
  Option, none, some, List, [], ◌∷◌, ◌++◌, any, Bool-cases, Option-cases, arith,
}
use hosting.Common.Result.{Result, ok, err}
use hosting.Incident.Tables.{
  Incident, IncidentEvent, Tables, Db, Server, exec, update_rows, set_rows, add_event, admissible,
}
use hosting.Incident.Service.{insert_event}

abbrev pub agent_name : Bytes
agent_name = codes "agent:incident-investigator"

abbrev is_none : Option Bytes → Bool
is_none none = true
is_none (some x) = false

-- `id = $3 AND assigned_to IS NULL AND status = 'open'`
unfoldable pub claimable : Bytes → Incident → Bool
claimable id i = bytes_eq i.id id && (is_none i.assigned_to && is_text "open" i.status)

unfoldable pub claimed_row : ℕ → Incident → Incident
claimed_row at i = record i {
  assigned_to = some agent_name;
  status = codes "investigating";
  updated_at = at;
}

-- By the result of the update, and whether it affected a row.
unfoldable pub after_update : Server → Bytes → ℕ → Bool → Option Bytes × Db → Result Bool × Db
after_update srv id at affected (some text, db) = (err (codes "claim incident: " ++ text), db)
after_update srv id at false (none, db) = (ok false, db)
after_update srv id at true (none, db) =
    let (e, db') =
      insert_event srv id agent_name (codes "investigated")
        (codes "Agent claimed incident for investigation") at db in
    (ok true, db')

unfoldable pub claim_incident_for_agent : Server → Bytes → Db → Result Bool × Db
claim_incident_for_agent srv id db =
    let at = srv.now db.statements in
    after_update srv id at (any (claimable id) db.tables.incidents)
      (exec srv (set_rows (claimable id) (claimed_row at)) db)

taken : (id : Bytes) (at : ℕ) (i : Incident) → claimable id (claimed_row at i) ≡ false
unfolding claimable claimed_row
taken id at i = ground arith

-- A row that is taken is not to be claimed again.
claimed-taken :
    (id : Bytes) (at : ℕ) (is : List Incident)
    → any (claimable id) (update_rows (claimable id) (claimed_row at) is) ≡ false
unfolding update_rows
claimed-taken id at [] = refl
claimed-taken id at (i ∷ is) =
    let ih = claimed-taken id at is in
    elim (Bool-cases (claimable id i)) [ inl y ↦ rw (y, taken id at i) ih | inr n ↦ rw (n, n) ih ]

exec-incidents :
    (srv : Server) (e : IncidentEvent) (db : Db)
    → (exec srv (add_event e) db).1.tables.incidents ≡ db.tables.incidents
unfolding exec
exec-incidents srv e db = elim (Option-cases (srv.fault db.statements)) [
  | inr (text, f) ↦ rw (f, exec) refl
  | inl f ↦ elim (Bool-cases (admissible (add_event e db.tables))) [
    | inl y ↦ rw (f, exec, y) refl
    | inr n ↦ rw (f, exec, n) refl
  ]
]

exec-tables :
    (srv : Server) (change : Tables → Tables) (db : Db)
    → (exec srv change db).0 ≡ none
    → (exec srv change db).1.tables ≡ change db.tables
unfolding exec
exec-tables srv change db h = elim (Option-cases (srv.fault db.statements)) [
  | inr (text, f) ↦ absurd (cc (rw (f, exec) at h))
  | inl f ↦ elim (Bool-cases (admissible (change db.tables))) [
    | inl y ↦ rw (f, exec, y) refl
    | inr n ↦ absurd (cc (rw (f, exec, n) at h))
  ]
]

after_update-incidents :
    (srv : Server) (id : Bytes) (at : ℕ) (affected : Bool) (r : Option Bytes × Db)
    → (after_update srv id at affected r).1.tables.incidents ≡ r.1.tables.incidents
unfolding after_update insert_event
after_update-incidents srv id at affected (some text, db) = refl
after_update-incidents srv id at false (none, db) = refl
after_update-incidents srv id at true (none, db) = exec-incidents srv _ _

after_update-done :
    (srv : Server) (id : Bytes) (at : ℕ) (affected : Bool) (r : Option Bytes × Db)
    → (after_update srv id at affected r).0 ≡ ok true
    → (r.0 ≡ none) × (affected ≡ true)
unfolding after_update
after_update-done srv id at affected (some text, db) h = absurd (cc)
after_update-done srv id at false (none, db) h = absurd (cc)
after_update-done srv id at true (none, db) h = (refl, refl)

-- After a successful claim of an incident, as long as the incidents stay as the claim left them, no
-- second claim of it succeeds, whatever statements fail.
pub claim-exclusive :
    (srv later_srv : Server) (id : Bytes) (db later : Db)
    → (claim_incident_for_agent srv id db).0 ≡ ok true
    → later.tables.incidents ≡ (claim_incident_for_agent srv id db).1.tables.incidents
    → (claim_incident_for_agent later_srv id later).0 ≢ ok true
unfolding claim_incident_for_agent
claim-exclusive srv later_srv id db later first same second =
    let at = srv.now db.statements in
    let change = set_rows (claimable id) (claimed_row at) in
    let affected = any (claimable id) db.tables.incidents in
    let (ran, some_row) = after_update-done srv id at affected (exec srv change db) first in
    let rows : later.tables.incidents
        ≡ update_rows (claimable id) (claimed_row at) db.tables.incidents =
      same
      ∙ after_update-incidents srv id at affected (exec srv change db)
      ∙ ap (λ (t : Tables). t.incidents) (exec-tables srv change db ran) in
    let (later_ran, again) =
      after_update-done later_srv id _ (any (claimable id) later.tables.incidents) _ second in
    let none_left : any (claimable id) later.tables.incidents ≡ false =
      ap (any (claimable id)) rows ∙ claimed-taken id at db.tables.incidents in
    cc
