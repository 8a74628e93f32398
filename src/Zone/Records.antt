-- ===== src/Zone/Records.antt =====
-- The workflows of a zone's records, run on both databases (internal/workflow/zone_record.go,
-- `UpdateResourceStatus` of internal/activity/core_db.go). The incident that `setResourceFailed`
-- opens besides is left out.
use hosting.Common.{
  ℕ, zero, suc, Bool, Bytes, codes, bytes_eq, is_text, Option, none, some, List, [], ◌∷◌, ◌++◌,
  if◌then◌else◌, ltb, ◌==◌,
}
use hosting.Common.Int.{ℤ}
use hosting.Zone.Stores.{
  ZoneRecord, DnsRecord, Server, done, failed, M, pure, fail, ◌>>=◌, ◌>>◌, ignore, exec,
}
use hosting.Zone.PowerDns.{
  remove, write_dns_record, update_dns_record, delete_dns_record, get_dns_zone_id_by_name,
}
use hosting.Zone.Override.{deactivate_auto_records, reactivate_auto_records}

-- `model.ZoneRecordParams`
pub record ZoneRecordParams : Type 0 where
  pub record_id : Bytes
  pub name : Bytes
  pub kind : Bytes
  pub content : Bytes
  pub ttl : ℤ
  pub priority : Option ℤ
  pub managed_by : Bytes
  pub zone_name : Bytes

-- An activity under a policy of so many more attempts.
unfoldable pub retrying : {A : Type 0} → ℕ → M A → M A
retrying zero m s n = m s n
retrying (suc k) m s n = elim (m s n) [
  | done a s' n' ↦ done a s' n'
  | failed text s' n' ↦ retrying k m s' n'
]

-- `MaximumAttempts: 3`
unfoldable pub activity : {A : Type 0} → M A → M A
activity m = retrying 2 m

unfoldable pub update_rows :
    (ZoneRecord → Bool) → (ZoneRecord → ZoneRecord) → List ZoneRecord → List ZoneRecord
update_rows p change [] = []
update_rows p change (r ∷ rs) = (if p r then change r else r) ∷ update_rows p change rs

abbrev pub has_id : Bytes → ZoneRecord → Bool
has_id id r = bytes_eq r.id id

-- `UPDATE zone_records SET status = ..., status_message = ... WHERE id = ...`
abbrev pub set_status : Bytes → Bytes → Option Bytes → ZoneRecord → ZoneRecord
set_status id status message r =
    if is_text "active" status
    then record r { status = status; status_message = none }
    else (elim message [
      | some text ↦ record r { status = status; status_message = some text }
      | none ↦ record r { status = status }
    ])

-- A deleted row is removed.
unfoldable pub new_rows : Bytes → Bytes → Option Bytes → List ZoneRecord → List ZoneRecord
unfolding remove update_rows
new_rows id status message rs =
    if is_text "deleted" status
    then remove (has_id id) rs
    else update_rows (has_id id) (set_status id status message) rs

unfoldable pub update_resource_status : Server → Bytes → Bytes → Option Bytes → M (Unit {0})
update_resource_status srv id status message =
    exec srv (λ _ s. some (record s { zone_records = new_rows id status message s.zone_records }))

-- `_ = setResourceFailed(ctx, "zone_records", id, err)`
unfoldable pub set_record_failed : Server → Bytes → Bytes → M (Unit {0})
set_record_failed srv id text =
    ignore (activity (update_resource_status srv id (codes "failed") (some text)))

-- `if err != nil { _ = setResourceFailed(...); return err }`
unfoldable pub or_fail : {A : Type 0} → Server → Bytes → M A → M A
or_fail srv id m s n = elim (m s n) [
  | done a s' n' ↦ done a s' n'
  | failed text s' n' ↦ (set_record_failed srv id text >> fail text) s' n'
]

abbrev pub dns_record_of_params : ℕ → ZoneRecordParams → DnsRecord
dns_record_of_params domain p = record {
  domain_id = domain;
  name = p.name;
  kind = p.kind;
  content = p.content;
  ttl = p.ttl;
  prio = p.priority;
}

module _ (srv : Server) (p : ZoneRecordParams) where
  unfoldable pub mark : Bytes → M (Unit {0})
  mark status = activity (update_resource_status srv p.record_id status none)

  unfoldable pub zone_of_record : M ℕ
  zone_of_record = or_fail srv p.record_id (activity (get_dns_zone_id_by_name srv p.zone_name))

  -- `%q` of the name: in quotes, which is its value where nothing is to be escaped.
  unfoldable pub require_zone : ℕ → M (Unit {0})
  require_zone domain =
      if domain == 0
      then or_fail srv p.record_id
          (fail (codes "zone \"" ++ (p.zone_name ++ codes "\" not found in DNS")))
      else pure tt

  abbrev pub is_custom : Bool
  is_custom = is_text "custom" p.managed_by

  unfoldable pub create_zone_record : M (Unit {0})
  create_zone_record = do
    mark (codes "provisioning")
    domain ← zone_of_record
    require_zone domain
    or_fail srv p.record_id (activity (write_dns_record srv (dns_record_of_params domain p)))
    if is_custom then ignore (activity (deactivate_auto_records srv p.name p.kind)) else pure tt
    mark (codes "active")

  unfoldable pub update_zone_record : M (Unit {0})
  update_zone_record = do
    mark (codes "provisioning")
    domain ← zone_of_record
    require_zone domain
    or_fail srv p.record_id (activity (update_dns_record srv (dns_record_of_params domain p)))
    mark (codes "active")

  unfoldable pub delete_zone_record : M (Unit {0})
  delete_zone_record = do
    mark (codes "deleting")
    domain ← zone_of_record
    if ltb 0 domain
        then or_fail srv p.record_id (activity (delete_dns_record srv domain p.name p.kind))
        else pure tt
    mark (codes "deleted")
    if is_custom then ignore (activity (reactivate_auto_records srv p.name p.kind)) else pure tt
