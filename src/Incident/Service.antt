-- ===== src/Incident/Service.antt =====
-- The operations that change incidents (internal/core/incident.go).
use hosting.Common.{
  ℕ, ◌+◌, String, Bool, true, false, ◌&&◌, ◌==◌, Bytes, codes, bytes_eq, Option, none, some, List,
  [], ◌∷◌, ◌++◌, if◌then◌else◌, length,
}
use hosting.Common.Result.{Result, ok, err}
use hosting.Incident.Tables.{
  Incident, Db, Server, is_open, tick, exec, set_rows, add_row, add_event,
}

-- What `Create` returns, with the incident as it leaves it.
pub record Created : Type 0 where
  pub fresh : Bool
  pub error : Option Bytes
  pub incident : Incident

abbrev pub has_id : Bytes → Incident → Bool
has_id id i = bytes_eq i.id id

abbrev pub wrapped : String → Option Bytes × Db → Result (Unit {0}) × Db
wrapped what (none, db) = (ok tt, db)
wrapped what (some text, db) = (err (codes what ++ text), db)

-- The rest of an operation behind a statement.
abbrev pub and_then :
    String → Option Bytes × Db → (Db → Result (Unit {0}) × Db) → Result (Unit {0}) × Db
and_then what (none, db) k = k db
and_then what (some text, db) k = (err (codes what ++ text), db)

unfoldable pub lookup_open : Bytes → List Incident → Option Incident
unfolding is_open
lookup_open key [] = none
lookup_open key (i ∷ is) =
    let rest = lookup_open key is in if bytes_eq i.dedupe_key key && is_open i then some i else rest

abbrev pub resolved_row : Bytes → ℕ → Incident → Incident
resolved_row resolution at i = record i {
  status = codes "resolved";
  resolution = some resolution;
  resolved_at = some at;
  updated_at = at;
}

abbrev escalated_row : ℕ → Incident → Incident
escalated_row at i = record i {
  status = codes "escalated";
  escalated_at = some at;
  updated_at = at;
}

abbrev pub cancelled_row : Bytes → ℕ → Incident → Incident
cancelled_row reason at i = record i {
  status = codes "cancelled";
  resolution = some reason;
  updated_at = at;
}

abbrev is_value : Option Bytes → Bytes → Bool
is_value none v = false
is_value (some x) v = bytes_eq x v

-- `RETURNING id`
unfoldable pub returned_ids : (Incident → Bool) → List Incident → List Bytes
returned_ids test [] = []
returned_ids test (i ∷ is) = let rest = returned_ids test is in if test i then i.id ∷ rest else rest

module _ (srv : Server) where
  -- `INSERT INTO incident_events ...`
  unfoldable pub insert_event : Bytes → Bytes → Bytes → Bytes → ℕ → Db → Option Bytes × Db
  unfolding exec
  insert_event incident_id actor action detail at db =
      exec srv
        (add_event (record {
          id = srv.new_id db.names;
          incident_id = incident_id;
          actor = actor;
          action = action;
          detail = detail;
          created_at = at;
        }))
        (record db { names = db.names + 1 })

  -- The query for an open incident; `Create` goes on as without one when it fails.
  abbrev pub find_open : Bytes → Db → Option Incident × Db
  find_open key db = (
    elim (srv.fault db.statements) [
      | none ↦ lookup_open key db.tables.incidents
      | some text ↦ none
    ],
    tick db,
  )

  abbrev pub opened : Incident → Db → Incident
  opened inc db =
      let now = srv.now db.statements in
      record inc {
        id = srv.new_name (codes "inc") db.names;
        status = codes "open";
        detected_at = if inc.detected_at == 0 then now else inc.detected_at;
        created_at = now;
        updated_at = now;
      }

  -- The columns that the INSERT does not name are NULL.
  abbrev pub inserted_row : Incident → Incident
  inserted_row i = record i {
    assigned_to = none;
    resolution = none;
    resolved_at = none;
    escalated_at = none;
  }

  abbrev pub created_event : Incident → Option Bytes × Db → Created × Db
  created_event i (none, db) = (record { fresh = true; error = none; incident = i }, db)
  created_event i (some text, db) = (
    record { fresh = true; error = some (codes "create incident event: " ++ text); incident = i },
    db,
  )

  abbrev pub created_row : Incident → Option Bytes × Db → Created × Db
  created_row i (none, db) =
      created_event i
        (insert_event i.id (codes "system:" ++ i.source) (codes "created") i.title i.created_at db)
  created_row i (some text, db) =
      (record { fresh = false; error = some (codes "create incident: " ++ text); incident = i }, db)

  unfoldable pub insert_incident : Incident → Db → Created × Db
  unfolding exec insert_event
  insert_incident inc db =
      let i = opened inc db in
      created_row i (exec srv (add_row (inserted_row i)) (record db { names = db.names + 1 }))

  abbrev pub create_from : Incident → Option Incident × Db → Created × Db
  create_from inc (some existing, db) =
      (record { fresh = false; error = none; incident = existing }, db)
  create_from inc (none, db) = insert_incident inc db

  unfoldable pub create : Incident → Db → Created × Db
  unfolding lookup_open insert_incident
  create inc db = create_from inc (find_open inc.dedupe_key db)

  -- An update of one row, and its event.
  abbrev pub change_row :
      String
      → String
      → String
      → (ℕ → Incident → Incident)
      → Bytes
      → Bytes
      → Bytes
      → Db
      → Result (Unit {0}) × Db
  change_row what event_what action change id detail actor db =
      let at = srv.now db.statements in
      and_then what (exec srv (set_rows (has_id id) (change at)) db)
        (λ db'. wrapped event_what (insert_event id actor (codes action) detail at db'))

  unfoldable pub resolve : Bytes → Bytes → Bytes → Db → Result (Unit {0}) × Db
  unfolding exec insert_event
  resolve id resolution actor db =
      change_row "resolve incident: " "create resolve event: " "resolved" (resolved_row resolution)
        id resolution actor db

  unfoldable pub escalate : Bytes → Bytes → Bytes → Db → Result (Unit {0}) × Db
  unfolding exec insert_event
  escalate id reason actor db =
      change_row "escalate incident: " "create escalate event: " "escalated" escalated_row id reason
        actor db

  unfoldable pub cancel : Bytes → Bytes → Bytes → Db → Result (Unit {0}) × Db
  unfolding exec insert_event
  cancel id reason actor db =
      change_row "cancel incident: " "create cancel event: " "cancelled" (cancelled_row reason) id
        reason actor db

  abbrev value_or_old : Option Bytes → Bytes → Bytes
  value_or_old none old = old
  value_or_old (some new) old = new

  abbrev updated_incident : Option Bytes → Option Bytes → Option Bytes → ℕ → Incident → Incident
  updated_incident status severity assigned_to at i = record i {
    status = value_or_old status i.status;
    severity = value_or_old severity i.severity;
    assigned_to = elim assigned_to [ none ↦ i.assigned_to | some a ↦ some a ];
    updated_at = at;
  }

  abbrev update_statement :
      Bytes → Option Bytes → Option Bytes → Option Bytes → Db → Result (Unit {0}) × Db
  update_statement id status severity assigned_to db = wrapped "update incident: " (
      exec srv
        (set_rows (has_id id)
          (updated_incident status severity assigned_to (srv.now db.statements)))
        db)

  -- No statement is sent where no field is given.
  unfoldable pub update :
      Bytes → Option Bytes → Option Bytes → Option Bytes → Db → Result (Unit {0}) × Db
  unfolding exec
  update id none none none db = (ok tt, db)
  update id (some s) severity assigned_to db = update_statement id (some s) severity assigned_to db
  update id none (some s) assigned_to db = update_statement id none (some s) assigned_to db
  update id none none (some a) db = update_statement id none none (some a) db

  -- `type LIKE typePrefix + '%'`, on the open rows of the resource.
  unfoldable pub auto_resolves : Bytes → Bytes → Bytes → Incident → Bool
  unfolding is_open
  auto_resolves resource_type resource_id type_prefix i =
      is_value i.resource_type resource_type
      && (is_value i.resource_id resource_id
          && (srv.like (type_prefix ++ codes "%") i.kind && is_open i))

  -- One event for each returned row; its error is dropped.
  unfoldable pub resolve_events : Bytes → ℕ → List Bytes → Db → Db
  unfolding insert_event
  resolve_events resolution at [] db = db
  resolve_events resolution at (id ∷ ids) db =
      let (e, db') =
        insert_event id (codes "system:auto-resolve") (codes "resolved") resolution at db in
      resolve_events resolution at ids db'

  abbrev pub auto_resolved : Bytes → ℕ → List Bytes → Option Bytes × Db → Result ℕ × Db
  auto_resolved resolution at ids (none, db) =
      (ok (length ids), resolve_events resolution at ids db)
  auto_resolved resolution at ids (some text, db) =
      (err (codes "auto-resolve incidents: " ++ text), db)

  unfoldable pub auto_resolve : Bytes → Bytes → Bytes → Bytes → Db → Result ℕ × Db
  unfolding exec auto_resolves returned_ids resolve_events
  auto_resolve resource_type resource_id type_prefix resolution db =
      let test = auto_resolves resource_type resource_id type_prefix in
      let at = srv.now db.statements in
      auto_resolved resolution at (returned_ids test db.tables.incidents)
        (exec srv (set_rows test (resolved_row resolution at)) db)
