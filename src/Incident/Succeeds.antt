-- ===== src/Incident/Succeeds.antt =====
-- Operations that no constraint refuses (internal/core/incident.go).
use mathlib.Core.List.{map-append}
use hosting.Common.{
  ℕ, String, Bool-cases, ◌+◌, ◌≡◌, refl, ap, ◌∙◌, inl, inr, true, false, ◌&&◌, Bytes, codes, Option,
  none, some, List, [], ◌∷◌, ◌++◌, map, Option-cases, arith,
}
use hosting.Common.Text.{bytes_eq}
use hosting.Common.Result.{ok}
use hosting.Incident.Tables.{
  Incident, IncidentEvent, Tables, Db, Server, is_open, member, incident_ids, admissible, tick,
  update_rows, set_rows, add_row, add_event,
}
use hosting.Incident.Service.{
  has_id, lookup_open, resolved_row, cancelled_row, cancel, change_row, insert_event, opened,
  inserted_row, created_event, insert_incident, create, resolve, wrapped,
}
use hosting.Incident.Closing.{
  closing-admissible, exec_accepted, how_many, resolved_row_closes, insert_event_incidents,
  update_rows_ids,
}
use hosting.Incident.Dedupe.{create_found, create_inserts, opened_row_opens}
use hosting.Incident.Growing.{
  add_event-admissible, add_row-admissible, lookup_open-member, member_last,
}

abbrev pub event_ids : Tables → List Bytes
event_ids t = map (λ e. e.id) t.events

created_event_ok :
    (srv : Server) (i : Incident) (x : Option Bytes × Db)
    → x.0 ≡ none
    → ((created_event srv i x).0.error ≡ none) × ((created_event srv i x).1 ≡ x.1)
created_event_ok srv i (none, db) h = (refl, refl)
created_event_ok srv i (some text, db) h = cc

wrapped_ok :
    (what : String) (x : Option Bytes × Db)
    → x.0 ≡ none
    → ((wrapped what x).0 ≡ ok tt) × ((wrapped what x).1 ≡ x.1)
wrapped_ok what (none, db) h = (refl, refl)
wrapped_ok what (some text, db) h = cc

cancelled_row_closes :
    (reason : Bytes) (at : ℕ) (i : Incident) → is_open (cancelled_row reason at i) ≡ false
unfolding is_open bytes_eq
cancelled_row_closes reason at i = refl

none_open :
    (id : Bytes) (change : Incident → Incident)
    → ((i : Incident) → is_open (change i) ≡ false)
    → (is : List Incident)
    → how_many (λ i. has_id id i && is_open i) (update_rows (has_id id) change is) ≡ 0
unfolding update_rows
none_open id change h [] = refl
none_open id change h (i ∷ is) =
    let ih = none_open id change h is in
    let no : (has_id id (change i) && is_open (change i)) ≡ false = ground (arith, h i) in
    elim (Bool-cases (has_id id i)) [ inl e ↦ rw (e, no) ih | inr e ↦ rw (e, e) ih ]

module _ (srv : Server) (no_fault : (n : ℕ) → srv.fault n ≡ none) where
  insert_event_ok :
      (id actor action detail : Bytes) (at : ℕ) (db : Db)
      → admissible db.tables ≡ true
      → member (srv.new_id db.names) (event_ids db.tables) ≡ false
      → member id (incident_ids db.tables.incidents) ≡ true
      → ((insert_event srv id actor action detail at db).0 ≡ none)
        × (admissible (insert_event srv id actor action detail at db).1.tables ≡ true)
  unfolding insert_event
  insert_event_ok id actor action detail at db h f m =
      let e : IncidentEvent = record {
        id = srv.new_id db.names;
        incident_id = id;
        actor = actor;
        action = action;
        detail = detail;
        created_at = at;
      } in
      let a = add_event-admissible e db.tables h f m in
      rw
        (exec_accepted srv (add_event e) (record db { names = db.names + 1 })
          (no_fault db.statements) a)
        (refl, a)

  -- If no statement fails and the identifiers drawn are new, a creation on tables that meet their
  -- constraints reports no error, and leaves tables that meet them.
  pub create_succeeds :
      (inc : Incident) (db : Db)
      → admissible db.tables ≡ true
      → member (srv.new_name (codes "inc") db.names) (incident_ids db.tables.incidents) ≡ false
      → member (srv.new_id (db.names + 1)) (event_ids db.tables) ≡ false
      → let (c, db') = create srv inc db in (c.error ≡ none) × (admissible db'.tables ≡ true)
  unfolding insert_incident
  create_succeeds inc db h f g =
      elim (Option-cases (lookup_open inc.dedupe_key db.tables.incidents)) [
        | inr (row, e) ↦ rw (create_found srv inc db (no_fault db.statements) e) (refl, h)
        | inl e ↦
            let t = tick db in
            let i = opened srv inc t in
            let row = inserted_row srv i in
            let a =
              add_row-admissible row db.tables h (opened_row_opens srv inc t) f
                (lookup_open-member inc.dedupe_key db.tables.incidents e) in
            let drawn = record t { names = t.names + 1 } in
            let q = exec_accepted srv (add_row row) drawn (no_fault t.statements) a in
            let stored = record (tick drawn) { tables = add_row row db.tables } in
            let present =
              ap (member i.id) (map-append (λ (x : Incident). x.id) db.tables.incidents (row ∷ []))
              ∙ member_last i.id (incident_ids db.tables.incidents) in
            let actor = codes "system:" ++ i.source in
            let (n, b) =
              insert_event_ok i.id actor (codes "created") i.title i.created_at stored a g
                present in
            let (v, w) =
              created_event_ok srv i
                (insert_event srv i.id actor (codes "created") i.title i.created_at stored) n in
            rw (create_inserts srv inc db (no_fault db.statements) e)
              (rw q (v, ap (λ d. admissible d.tables) w ∙ b))
      ]

  module _ (change : ℕ → Incident → Incident)
      (same_id : (at : ℕ) (i : Incident) → (change at i).id ≡ i.id)
      (closes : (at : ℕ) (i : Incident) → is_open (change at i) ≡ false) where
    change_row_closes :
        (what event_what action : String) (id detail actor : Bytes) (db : Db)
        → admissible db.tables ≡ true
        → member id (incident_ids db.tables.incidents) ≡ true
        → member (srv.new_id db.names) (event_ids db.tables) ≡ false
        → let (r, db') = change_row srv what event_what action change id detail actor db in
          (r ≡ ok tt)
          × (admissible db'.tables ≡ true)
          × (how_many (λ i. has_id id i && is_open i) db'.tables.incidents ≡ 0)
    change_row_closes what event_what action id detail actor db h m g =
        let at = srv.now db.statements in
        let a = closing-admissible (has_id id) (change at) (same_id at) (closes at) db.tables h in
        let q =
          exec_accepted srv (set_rows (has_id id) (change at)) db (no_fault db.statements) a in
        let stored = record (tick db) { tables = set_rows (has_id id) (change at) db.tables } in
        let present =
          ap (member id)
            (update_rows_ids (has_id id) (change at) (same_id at) (closes at) db.tables.incidents)
          ∙ m in
        let (n, b) = insert_event_ok id actor (codes action) detail at stored a g present in
        let x = insert_event srv id actor (codes action) detail at stored in
        let (v, w) = wrapped_ok event_what x n in
        let kept = insert_event_incidents srv id actor (codes action) detail at stored in
        rw q (
          v,
          ap (λ d. admissible d.tables) w ∙ b,
          ap (λ d. how_many (λ i. has_id id i && is_open i) d.tables.incidents) w
              ∙ ap (how_many (λ i. has_id id i && is_open i)) kept
              ∙ none_open id (change at) (closes at) db.tables.incidents,
        )

  -- If no statement fails, the incident exists and the identifier drawn for the event is new, the
  -- resolution and the cancellation on tables that meet their constraints report no error, leave
  -- tables that meet them, and leave no open incident with that id.
  pub resolve_and_cancel_close :
      (id text actor : Bytes) (db : Db)
      → admissible db.tables ≡ true
      → member id (incident_ids db.tables.incidents) ≡ true
      → member (srv.new_id db.names) (event_ids db.tables) ≡ false
      → let (r, db') = resolve srv id text actor db in
        let (c, db'') = cancel srv id text actor db in
        ((r ≡ ok tt)
          × (admissible db'.tables ≡ true)
          × (how_many (λ i. has_id id i && is_open i) db'.tables.incidents ≡ 0))
        × ((c ≡ ok tt)
            × (admissible db''.tables ≡ true)
            × (how_many (λ i. has_id id i && is_open i) db''.tables.incidents ≡ 0))
  unfolding resolve cancel
  resolve_and_cancel_close id text actor db h m g = (
    change_row_closes (resolved_row text) (λ at i. refl) (resolved_row_closes text)
        "resolve incident: " "create resolve event: " "resolved" id text actor db h m g,
    change_row_closes (cancelled_row text) (λ at i. refl) (cancelled_row_closes text)
        "cancel incident: " "create cancel event: " "cancelled" id text actor db h m g,
  )
