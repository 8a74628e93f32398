-- ===== src/Incident/Closing.antt =====
-- Updates that close incidents keep the constraints (internal/core/incident.go).
use hosting.Common.{
  ℕ, suc, ◌≡◌, refl, ap, ◌∙◌, ◌⊎◌, inl, inr, Bool, true, false, Bytes, codes, none, some, List, [],
  ◌∷◌, length, if◌then◌else◌, Bool-cases, arith,
}
use hosting.Common.Text.{bytes_eq}
use hosting.Common.Result.{ok}
use hosting.Incident.Tables.{
  Incident, Tables, Db, Server, is_open, member, distinct, open_keys, incident_ids, admissible,
  tick, exec, update_rows, set_rows,
}
use hosting.Incident.Service.{
  resolved_row, insert_event, auto_resolves, returned_ids, resolve_events, auto_resolve,
}

module _ (test : Incident → Bool) (change : Incident → Incident)
    (same_id : (i : Incident) → (change i).id ≡ i.id)
    (closes : (i : Incident) → is_open (change i) ≡ false) where
  pub update_rows_ids :
      (is : List Incident) → incident_ids (update_rows test change is) ≡ incident_ids is
  unfolding update_rows
  update_rows_ids [] = refl
  update_rows_ids (i ∷ is) = elim (Bool-cases (test i)) [
    | inl e ↦ rw (e, same_id i, update_rows_ids is) refl
    | inr e ↦ rw (e, update_rows_ids is) refl
  ]

  -- The open keys of a table after the update, in two steps along the table.
  open_keys_step :
      (i : Incident) (is : List Incident)
      → (open_keys (update_rows test change (i ∷ is)) ≡ open_keys (update_rows test change is))
        ⊎ ((is_open i ≡ true)
            × (open_keys (update_rows test change (i ∷ is))
                ≡ i.dedupe_key ∷ open_keys (update_rows test change is)))
  unfolding update_rows open_keys
  open_keys_step i is = elim (Bool-cases (test i)) [
    | inl e ↦ inl (rw (e, closes i) refl)
    | inr e ↦ elim (Bool-cases (is_open i)) [
      | inl o ↦ inr (o, rw (e, o) refl)
      | inr o ↦ inl (rw (e, o) refl)
    ]
  ]

  no_new_key :
      (k : Bytes) (is : List Incident)
      → member k (open_keys is) ≡ false
      → member k (open_keys (update_rows test change is)) ≡ false
  unfolding member open_keys update_rows
  no_new_key k [] h = refl
  no_new_key k (i ∷ is) h =
      let old : (member k (open_keys is) ≡ false)
          × (is_open i ≡ true → bytes_eq i.dedupe_key k ≡ false) =
        ground arith in
      let ih = no_new_key k is old.0 in
      elim (open_keys_step i is) [ inl e ↦ rw e ih | inr (o, e) ↦ rw (e, old.1 o) ih ]

  still_distinct :
      (is : List Incident)
      → distinct (open_keys is) ≡ true
      → distinct (open_keys (update_rows test change is)) ≡ true
  unfolding distinct open_keys update_rows
  still_distinct [] h = refl
  still_distinct (i ∷ is) h =
      let old : (distinct (open_keys is) ≡ true)
          × (is_open i ≡ true → member i.dedupe_key (open_keys is) ≡ false) =
        ground arith in
      let ih = still_distinct is old.0 in
      elim (open_keys_step i is) [
        | inl e ↦ rw e ih
        | inr (o, e) ↦ rw (e, no_new_key i.dedupe_key is (old.1 o)) ih
      ]

  pub closing-admissible :
      (t : Tables) → admissible t ≡ true → admissible (set_rows test change t) ≡ true
  unfolding admissible
  closing-admissible t h =
      let d = still_distinct t.incidents in rw (update_rows_ids t.incidents) (ground arith)

-- The number of rows that meet a test.
abbrev pub how_many : (Incident → Bool) → List Incident → ℕ
how_many test [] = 0
how_many test (i ∷ is) = let rest = how_many test is in if test i then suc rest else rest

returned_ids-length :
    (test : Incident → Bool) (is : List Incident) → length (returned_ids test is) ≡ how_many test is
unfolding returned_ids
returned_ids-length test [] = refl
returned_ids-length test (i ∷ is) =
    let ih = returned_ids-length test is in
    elim (Bool-cases (test i)) [ inl e ↦ rw e (ap suc ih) | inr e ↦ rw e ih ]

pub none_left :
    (test : Incident → Bool) (change : Incident → Incident)
    → ((i : Incident) → test (change i) ≡ false)
    → (is : List Incident) → how_many test (update_rows test change is) ≡ 0
unfolding update_rows
none_left test change h [] = refl
none_left test change h (i ∷ is) = elim (Bool-cases (test i)) [
  | inl e ↦ rw (e, h i) (none_left test change h is)
  | inr e ↦ rw (e, e) (none_left test change h is)
]

pub resolved_row_closes :
    (resolution : Bytes) (at : ℕ) (i : Incident) → is_open (resolved_row resolution at i) ≡ false
unfolding is_open bytes_eq
resolved_row_closes resolution at i = refl

module _ (srv : Server) where
  pub exec_accepted :
      (change : Tables → Tables) (db : Db)
      → srv.fault db.statements ≡ none
      → admissible (change db.tables) ≡ true
      → exec srv change db ≡ (none, record (tick db) { tables = change db.tables })
  unfolding exec
  exec_accepted change db f h = rw (f, exec, h) refl

  pub exec_refused :
      (change : Tables → Tables) (db : Db)
      → srv.fault db.statements ≡ none
      → admissible (change db.tables) ≡ false
      → exec srv change db ≡ (some srv.violation, tick db)
  unfolding exec
  exec_refused change db f h = rw (f, exec, h) refl

  pub insert_event_incidents :
      (id actor action detail : Bytes) (at : ℕ) (db : Db)
      → (insert_event srv id actor action detail at db).1.tables.incidents ≡ db.tables.incidents
  unfolding insert_event exec
  insert_event_incidents id actor action detail at db = ground arith

  resolve_events_incidents :
      (resolution : Bytes) (at : ℕ) (ids : List Bytes) (db : Db)
      → (resolve_events srv resolution at ids db).tables.incidents ≡ db.tables.incidents
  unfolding resolve_events
  resolve_events_incidents resolution at [] db = refl
  resolve_events_incidents resolution at (id ∷ ids) db =
      resolve_events_incidents resolution at ids _
      ∙ insert_event_incidents id (codes "system:auto-resolve") (codes "resolved") resolution at db

  closed_row_stays :
      (resource_type resource_id type_prefix : Bytes) (i : Incident)
      → is_open i ≡ false
      → auto_resolves srv resource_type resource_id type_prefix i ≡ false
  unfolding auto_resolves
  closed_row_stays resource_type resource_id type_prefix i h = ground arith

  -- If the tables meet their constraints and the update is not refused by a fault, the automatic
  -- resolution returns the number of the open incidents of the resource whose type has the prefix,
  -- leaves none of these, and changes no other incident, whatever becomes of the events.
  pub auto_resolve_closes :
      (resource_type resource_id type_prefix resolution : Bytes) (db : Db)
      → srv.fault db.statements ≡ none
      → admissible db.tables ≡ true
      → let (r, db') = auto_resolve srv resource_type resource_id type_prefix resolution db in
        let test = auto_resolves srv resource_type resource_id type_prefix in
        (r ≡ ok (how_many test db.tables.incidents))
        × (how_many test db'.tables.incidents ≡ 0)
        × (db'.tables.incidents
            ≡ update_rows test
                (resolved_row resolution (srv.now db.statements))
                db.tables.incidents)
  unfolding auto_resolve
  auto_resolve_closes resource_type resource_id type_prefix resolution db f h =
      let test = auto_resolves srv resource_type resource_id type_prefix in
      let at = srv.now db.statements in
      let change = resolved_row resolution at in
      let closes = resolved_row_closes resolution at in
      let q =
        exec_accepted (set_rows test change) db f
          (closing-admissible test change (λ i. refl) closes db.tables h) in
      let is =
        resolve_events_incidents resolution at (returned_ids test db.tables.incidents)
          (record (tick db) { tables = set_rows test change db.tables }) in
      let n =
        none_left test change
          (λ i. closed_row_stays resource_type resource_id type_prefix (change i) (closes i))
          db.tables.incidents in
      rw q (ap ok (returned_ids-length test db.tables.incidents), ap (how_many test) is ∙ n, is)
