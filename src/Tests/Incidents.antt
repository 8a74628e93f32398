-- ===== src/Tests/Incidents.antt =====
-- Incidents.
use hosting.Common.{◌+◌, true, false, Bytes, codes, none, some, [], ◌∷◌, ◌++◌, refl, ◌≡◌}
use hosting.Common.Text.{bytes_eq}
use hosting.Common.Result.{ok}
use hosting.Incident.Tables.{Incident, Db, Server, admissible, update_rows}
use hosting.Incident.Service.{create, auto_resolve, auto_resolves, resolved_row}
use hosting.Incident.Closing.{how_many, auto_resolve_closes}
use hosting.Incident.Dedupe.{create_dedupes}

abbrev test_server : Server
test_server = record {
  fault = λ n. none;
  now = λ n. 1000 + n;
  new_name = λ p n. p ++ (n ∷ []);
  new_id = λ n. n ∷ [];
  like = λ pattern text. true;
  violation = codes "duplicate key value violates unique constraint";
}

abbrev replication : Bytes → Bytes → Incident
replication id status = record {
  id = id;
  dedupe_key = codes "replication:db-1";
  kind = codes "replication_lag";
  severity = codes "warning";
  status = status;
  title = codes "replication lag";
  detail = [];
  resource_type = some (codes "node");
  resource_id = some (codes "db-1");
  source = codes "health";
  assigned_to = none;
  resolution = none;
  detected_at = 0;
  resolved_at = none;
  escalated_at = none;
  created_at = 1;
  updated_at = 1;
}

abbrev closed_and_open : Db
closed_and_open = record {
  tables = record {
    incidents =
        replication (codes "a") (codes "resolved") ∷ replication (codes "b") (codes "open") ∷ [];
    events = [];
  };
  statements = 0;
  names = 0;
}

auto_resolve_closes_example :
    let (r, db) =
      auto_resolve test_server
        (codes "node")
        (codes "db-1")
        (codes "replication")
        (codes "ok")
        closed_and_open in
    let test = auto_resolves test_server (codes "node") (codes "db-1") (codes "replication") in
    (r ≡ ok (how_many test closed_and_open.tables.incidents))
    × (how_many test db.tables.incidents ≡ 0)
    × (db.tables.incidents
        ≡ update_rows test (resolved_row (codes "ok") 1000) closed_and_open.tables.incidents)
unfolding admissible bytes_eq
auto_resolve_closes_example =
    auto_resolve_closes test_server (codes "node") (codes "db-1") (codes "replication") (codes "ok")
      closed_and_open refl refl

abbrev only_closed : Db
only_closed = record {
  tables = record { incidents = replication (codes "a") (codes "resolved") ∷ []; events = [] };
  statements = 0;
  names = 0;
}

create_dedupes_example :
    let (c, db1) = create test_server (replication [] []) only_closed in
    let (c', db2) = create test_server (replication [] (codes "open")) db1 in
    (c'.fresh ≡ false)
    × (c'.error ≡ none)
    × (c'.incident.id ≡ c.incident.id)
    × (db2.tables ≡ db1.tables)
unfolding create bytes_eq
create_dedupes_example =
    create_dedupes test_server (replication [] []) (replication [] (codes "open")) only_closed
      (λ n. refl) refl refl
