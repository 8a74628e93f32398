-- ===== src/Incident/Dedupe.antt =====
-- A second incident with the key of an open one is not created (internal/core/incident.go).
use hosting.Common.{
  ℕ, ◌+◌, ◌≡◌, refl, sym, ap, ◌∙◌, inl, inr, true, false, ◌&&◌, Bytes, codes, Option, none, some,
  List, [], ◌∷◌, ◌++◌, Bool-cases, Option-cases, arith,
}
use hosting.Common.Text.{bytes_eq}
use hosting.Common.TextLaws.{bytes_eq_iff}
use hosting.Incident.Tables.{Incident, Db, Server, is_open, admissible, tick, exec, add_row}
use hosting.Incident.Service.{
  lookup_open, insert_event, opened, inserted_row, created_row, created_event, insert_incident,
  create_from, create,
}
use hosting.Incident.Closing.{exec_accepted, exec_refused, insert_event_incidents}

lookup_open_skip :
    (key : Bytes) (i : Incident) (is : List Incident)
    → lookup_open key (i ∷ is) ≡ none
    → ((bytes_eq i.dedupe_key key && is_open i) ≡ false) × (lookup_open key is ≡ none)
unfolding lookup_open
lookup_open_skip key i is h = ground arith

lookup_open_add :
    (key : Bytes) (i : Incident) (is : List Incident)
    → lookup_open key is ≡ none
    → i.dedupe_key ≡ key
    → is_open i ≡ true
    → lookup_open key (is ++ (i ∷ [])) ≡ some i
unfolding lookup_open
lookup_open_add key i [] h k o = rw ((bytes_eq_iff i.dedupe_key key).1 k, o) refl
lookup_open_add key i (j ∷ is) h k o =
    let (e, rest) = lookup_open_skip key j is h in rw e (lookup_open_add key i is rest k o)

pub opened_row_opens :
    (srv : Server) (inc : Incident) (db : Db)
    → is_open (inserted_row srv (opened srv inc db)) ≡ true
unfolding is_open bytes_eq
opened_row_opens srv inc db = refl

module _ (srv : Server) where
  created_event_incident :
      (i : Incident) (x : Option Bytes × Db)
      → ((created_event srv i x).0.incident ≡ i) × ((created_event srv i x).1 ≡ x.1)
  created_event_incident i (none, db) = (refl, refl)
  created_event_incident i (some text, db) = (refl, refl)

  insert_incident_adds :
      (inc : Incident) (db : Db)
      → srv.fault db.statements ≡ none
      → (insert_incident srv inc db).0.error ≡ none
      → let i = opened srv inc db in
        ((insert_incident srv inc db).0.incident ≡ i)
        × ((insert_incident srv inc db).1.tables.incidents
            ≡ db.tables.incidents ++ (inserted_row srv i ∷ []))
  unfolding insert_incident exec
  insert_incident_adds inc db f h =
      let i = opened srv inc db in
      let change = add_row (inserted_row srv i) in
      let drawn = record db { names = db.names + 1 } in
      elim (Bool-cases (admissible (change db.tables))) [
        | inl e ↦
            let q = exec_accepted srv change drawn f e in
            let stored = record (tick drawn) { tables = change db.tables } in
            let actor = codes "system:" ++ i.source in
            let x = insert_event srv i.id actor (codes "created") i.title i.created_at stored in
            let (p, r) = created_event_incident i x in
            let kept =
              insert_event_incidents srv i.id actor (codes "created") i.title i.created_at stored in
            rw q (p, ap (λ d. d.tables.incidents) r ∙ kept)
        | inr e ↦
            let q = exec_refused srv change drawn f e in
            let failed : some (codes "create incident: " ++ srv.violation) ≡ none =
              ap (λ x. (created_row srv i x).0.error) (sym q) ∙ h in
            cc
      ]

  -- Without a fault the query finds the first open row of the key.
  create_lookup :
      (inc : Incident) (db : Db)
      → srv.fault db.statements ≡ none
      → create srv inc db
        ≡ create_from srv inc (lookup_open inc.dedupe_key db.tables.incidents, tick db)
  unfolding create
  create_lookup inc db f = rw f refl

  pub create_found :
      (inc : Incident) (db : Db) {row : Incident}
      → srv.fault db.statements ≡ none
      → lookup_open inc.dedupe_key db.tables.incidents ≡ some row
      → create srv inc db ≡ (record { fresh = false; error = none; incident = row }, tick db)
  create_found inc db f e = create_lookup inc db f ∙ ap (λ o. create_from srv inc (o, tick db)) e

  pub create_inserts :
      (inc : Incident) (db : Db)
      → srv.fault db.statements ≡ none
      → lookup_open inc.dedupe_key db.tables.incidents ≡ none
      → create srv inc db ≡ insert_incident srv inc (tick db)
  create_inserts inc db f e = create_lookup inc db f ∙ ap (λ o. create_from srv inc (o, tick db)) e

  -- After a creation the open row of its key has the id that the creation returned.
  create_finds :
      (inc : Incident) (db : Db)
      → ((n : ℕ) → srv.fault n ≡ none)
      → (create srv inc db).0.error ≡ none
      → (row : Incident) × (lookup_open inc.dedupe_key (create srv inc db).1.tables.incidents
          ≡ some row)
        × (row.id ≡ (create srv inc db).0.incident.id)
  create_finds inc db f h = elim (Option-cases (lookup_open inc.dedupe_key db.tables.incidents)) [
    | inr (row, e) ↦ rw (create_found inc db (f db.statements) e) (row, e, refl)
    | inl e ↦
        let q = create_inserts inc db (f db.statements) e in
        let t = tick db in
        let (i, is) =
          insert_incident_adds inc t (f t.statements) (ap (λ x. x.0.error) (sym q) ∙ h) in
        let row = inserted_row srv (opened srv inc t) in
        let found =
          lookup_open_add inc.dedupe_key row db.tables.incidents e refl
            (opened_row_opens srv inc t) in
        rw q (row, ap (lookup_open inc.dedupe_key) is ∙ found, ap (λ r. r.id) (sym i))
  ]

  -- Without faults, a creation that follows an error-free creation with the same key creates nothing:
  -- it returns the same id and no error, and leaves the tables as they are.
  pub create_dedupes :
      (inc inc' : Incident) (db : Db)
      → ((n : ℕ) → srv.fault n ≡ none)
      → (create srv inc db).0.error ≡ none
      → inc'.dedupe_key ≡ inc.dedupe_key
      → let (c, db1) = create srv inc db in
        let (c', db2) = create srv inc' db1 in
        (c'.fresh ≡ false)
        × (c'.error ≡ none)
        × (c'.incident.id ≡ c.incident.id)
        × (db2.tables ≡ db1.tables)
  create_dedupes inc inc' db f h k =
      let (row, found, id) = create_finds inc db f h in
      let db1 = (create srv inc db).1 in
      let q =
        create_found inc' db1 (f db1.statements)
          (ap (λ key. lookup_open key db1.tables.incidents) k ∙ found) in
      rw q (refl, refl, id, refl)
