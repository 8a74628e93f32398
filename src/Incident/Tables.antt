-- ===== src/Incident/Tables.antt =====
-- The incident tables, their constraints (migrations/core/00041_incidents.sql) and a statement on
-- them. Times are numbers, the zero time 0; an event's metadata is left out.
use hosting.Common.{
  ℕ, ◌+◌, Bool, true, false, not, ◌&&◌, ◌||◌, Bytes, is_text, bytes_eq, Option, none, some, List,
  [], ◌∷◌, ◌++◌, map, all, if◌then◌else◌,
}

pub record Incident : Type 0 where
  pub id : Bytes
  pub dedupe_key : Bytes
  pub kind : Bytes
  pub severity : Bytes
  pub status : Bytes
  pub title : Bytes
  pub detail : Bytes
  pub resource_type : Option Bytes
  pub resource_id : Option Bytes
  pub source : Bytes
  pub assigned_to : Option Bytes
  pub resolution : Option Bytes
  pub detected_at : ℕ
  pub resolved_at : Option ℕ
  pub escalated_at : Option ℕ
  pub created_at : ℕ
  pub updated_at : ℕ

pub record IncidentEvent : Type 0 where
  pub id : Bytes
  pub incident_id : Bytes
  pub actor : Bytes
  pub action : Bytes
  pub detail : Bytes
  pub created_at : ℕ

pub record Tables : Type 0 where
  pub incidents : List Incident
  pub events : List IncidentEvent

-- `statements` and `names` count the statements sent and the identifiers drawn.
pub record Db : Type 0 where
  pub tables : Tables
  pub statements : ℕ
  pub names : ℕ

-- What is not the service's: whether a statement fails, the clock, `platform.NewName` and
-- `platform.NewID`, PostgreSQL's LIKE and its text for a violated constraint.
pub record Server : Type 0 where
  pub fault : ℕ → Option Bytes
  pub now : ℕ → ℕ
  pub new_name : Bytes → ℕ → Bytes
  pub new_id : ℕ → Bytes
  pub like : Bytes → Bytes → Bool
  pub violation : Bytes

-- `status NOT IN ('resolved', 'cancelled')`
unfoldable pub is_open : Incident → Bool
is_open i = not (is_text "resolved" i.status || is_text "cancelled" i.status)

unfoldable pub member : Bytes → List Bytes → Bool
member k [] = false
member k (x ∷ xs) = bytes_eq x k || member k xs

unfoldable pub distinct : List Bytes → Bool
unfolding member
distinct [] = true
distinct (x ∷ xs) = not (member x xs) && distinct xs

unfoldable pub open_keys : List Incident → List Bytes
unfolding is_open
open_keys [] = []
open_keys (i ∷ is) = let rest = open_keys is in if is_open i then i.dedupe_key ∷ rest else rest

abbrev pub incident_ids : List Incident → List Bytes
incident_ids is = map (λ i. i.id) is

-- The primary keys, the unique index on the keys of the open incidents, and the reference of an
-- event to its incident.
unfoldable pub admissible : Tables → Bool
unfolding distinct open_keys
admissible t =
    distinct (incident_ids t.incidents)
    && (distinct (open_keys t.incidents)
        && (distinct (map (λ e. e.id) t.events)
            && all (λ e. member e.incident_id (incident_ids t.incidents)) t.events))

abbrev pub tick : Db → Db
tick db = record db { statements = db.statements + 1 }

-- A statement that changes the tables: its error, if any, and the state after it.
unfoldable pub exec : Server → (Tables → Tables) → Db → Option Bytes × Db
unfolding admissible
exec srv change db = elim (srv.fault db.statements) [
  | some text ↦ (some text, tick db)
  | none ↦
      let t = change db.tables in
      if admissible t
      then (none, record (tick db) { tables = t })
      else (some srv.violation, tick db)
]

-- `UPDATE incidents SET ... WHERE ...`
unfoldable pub update_rows :
    (Incident → Bool) → (Incident → Incident) → List Incident → List Incident
update_rows test change [] = []
update_rows test change (i ∷ is) = (if test i then change i else i) ∷ update_rows test change is

abbrev pub set_rows : (Incident → Bool) → (Incident → Incident) → Tables → Tables
set_rows test change t = record t { incidents = update_rows test change t.incidents }

abbrev pub add_row : Incident → Tables → Tables
add_row i t = record t { incidents = t.incidents ++ (i ∷ []) }

abbrev pub add_event : IncidentEvent → Tables → Tables
add_event e t = record t { events = t.events ++ (e ∷ []) }
