-- ===== src/Tests/Claims.antt =====
-- A claim of an incident at a concrete input.
use hosting.Common.{◌≢◌, refl, true, codes, none, [], ◌∷◌, ◌+◌, ◌++◌}
use hosting.Common.Text.{bytes_eq}
use hosting.Common.Result.{ok}
use hosting.Incident.Tables.{
  Db, Server, exec, update_rows, admissible, distinct, member, open_keys, is_open,
}
use hosting.Incident.Service.{insert_event}
use hosting.Incident.Claim.{
  claimable, claimed_row, after_update, claim_incident_for_agent, claim-exclusive,
}

abbrev steady : Server
steady = record {
  fault = λ n. none;
  now = λ n. 1000 + n;
  new_name = λ p n. p ++ (n ∷ []);
  new_id = λ n. n ∷ [];
  like = λ pattern text. true;
  violation = codes "duplicate key";
}

abbrev one_open : Db
one_open = record {
  tables = record {
    incidents =
        record {
          id = codes "i1";
          dedupe_key = codes "disk:n1";
          kind = codes "disk_pressure";
          severity = codes "warning";
          status = codes "open";
          title = codes "Disk";
          detail = [];
          resource_type = none;
          resource_id = none;
          source = codes "health";
          assigned_to = none;
          resolution = none;
          detected_at = 0;
          resolved_at = none;
          escalated_at = none;
          created_at = 1;
          updated_at = 1;
        }
        ∷ [];
    events = [];
  };
  statements = 0;
  names = 0;
}

claim-exclusive_example :
    (claim_incident_for_agent steady
      (codes "i1")
      (claim_incident_for_agent steady (codes "i1") one_open).1).0
    ≢ ok true
unfolding claim_incident_for_agent after_update claimable claimed_row exec update_rows admissible
    distinct member open_keys is_open insert_event bytes_eq
claim-exclusive_example =
    claim-exclusive steady steady (codes "i1") one_open
      ((claim_incident_for_agent steady (codes "i1") one_open).1) refl refl
